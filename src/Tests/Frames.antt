-- ===== src/Tests/Frames.antt =====
-- The theorems on frames and on the map of a trace at concrete buffers.
use rsocket_rpc_kotlin.Base.{
  ℕ, zero, suc, ◌+◌, Bytes, codes, true, [], ◌∷◌, ◌++◌, some, ◌≡◌, refl, arith, length,
}
use rsocket_rpc_kotlin.Tests.Buffers.{Failure, Buffer, buffers, buffers-Documented}
use rsocket_rpc_kotlin.Runtime.Common.{Result, ok, ◌^◌, int_sub, is_negative}
use rsocket_rpc_kotlin.Runtime.Netty.{unread}
use rsocket_rpc_kotlin.Runtime.Metadata.{
  require_unsigned_short, write_text, encode, get_version, get_service, get_method, get_tracing,
  get_metadata,
}
use rsocket_rpc_kotlin.Runtime.Metadata.Frame.{frame_bytes}
use rsocket_rpc_kotlin.Runtime.Metadata.RoundTrip.{encode_round_trip}
use rsocket_rpc_kotlin.Runtime.Metadata.Limits.{encode_lem, service_misread}
use rsocket_rpc_kotlin.Runtime.Tracing.{StringMap, byte_buf_to_map}
use rsocket_rpc_kotlin.Runtime.Tracing.Totality.{byte_buf_to_map_total}

abbrev pub tracing : Buffer
tracing = record { done = 9 ∷ []; rest = 7 ∷ [] }

abbrev pub metadata : Buffer
metadata = record { done = []; rest = 5 ∷ [] }

abbrev pub frame : Buffer
frame = record { done = []; rest = frame_bytes (codes "a") (codes "b") (7 ∷ []) (5 ∷ []) }

abbrev pub read_tracing : Buffer
read_tracing = record { done = 9 ∷ 7 ∷ []; rest = [] }

pub frame_encoded :
    encode buffers (codes "a") (codes "b") tracing metadata ≡ ok (frame, read_tracing)
unfolding encode write_text require_unsigned_short
frame_encoded = refl

encode_round_trip_example :
    (get_version buffers frame ≡ ok 1)
    × (get_service buffers frame ≡ ok (codes "a"))
    × (get_method buffers frame ≡ ok (codes "b"))
    × ((t : Buffer) × (get_tracing buffers frame ≡ ok t) × (unread buffers t ≡ 7 ∷ []))
    × ((d : Buffer) × (get_metadata buffers frame ≡ ok d) × (unread buffers d ≡ 5 ∷ []))
encode_round_trip_example =
    encode_round_trip buffers buffers-Documented (codes "a") (codes "b") tracing metadata frame
      read_tracing frame (omega arith) (omega arith) (omega arith) (omega arith) frame_encoded refl

encode_lem_example :
    (f : Buffer) × (encode buffers (codes "a") (codes "b") tracing metadata ≡ ok (f, read_tracing))
encode_lem_example =
    encode_lem buffers buffers-Documented (codes "a") (codes "b") tracing metadata (omega arith)
      (omega arith) (omega arith)

unfoldable copies : ℕ → Bytes
copies zero = []
copies (suc k) = 97 ∷ copies k

length-copies : (k : ℕ) → length (copies k) ≡ k
unfolding copies
length-copies zero = refl
length-copies (suc k) = omega (arith, length-copies k)

abbrev long_service : Bytes
long_service = copies (2 ^ 15)

abbrev long_frame : Buffer
long_frame = record { done = []; rest = frame_bytes long_service (codes "b") (7 ∷ []) (5 ∷ []) }

service_misread_example :
    ((f : Buffer) × (encode buffers long_service (codes "b") tracing metadata
        ≡ ok (f, read_tracing))
      × (buffers.content f ≡ buffers.content long_frame))
    × (let size = int_sub (length long_service) (2 ^ 16) in
        (get_service buffers long_frame ≡ buffers.to_text long_frame 4 size)
        × (is_negative size ≡ true))
service_misread_example =
    service_misread buffers buffers-Documented long_service (codes "b") tracing metadata long_frame
      (omega (arith, length-copies (2 ^ 15))) (omega (arith, length-copies (2 ^ 15))) (omega arith)
      refl

byte_buf_to_map_total_example :
    (r : Result Failure (StringMap buffers)) × (byte_buf_to_map buffers
        (record { done = []; rest = 0 ∷ 1 ∷ 97 ∷ 0 ∷ [] })
      ≡ some r)
byte_buf_to_map_total_example =
    byte_buf_to_map_total buffers buffers-Documented
      (record { done = []; rest = 0 ∷ 1 ∷ 97 ∷ 0 ∷ [] })

abbrev pub first_byte : Bytes → ℕ
first_byte [] = 0
first_byte (x ∷ bytes) = x

abbrev trace_map : StringMap buffers
trace_map = (codes "id", codes "4b2f") ∷ (codes "on", codes "1") ∷ []

abbrev map_bytes : Bytes
map_bytes = (0 ∷ 2 ∷ codes "id" ++ 0 ∷ 4 ∷ codes "4b2f") ++ 0 ∷ 2 ∷ codes "on" ++ 0 ∷ 1 ∷ codes "1"

abbrev map_buffer : Buffer
map_buffer = record { done = []; rest = map_bytes }

abbrev traced_frame : Buffer
traced_frame = record { done = []; rest = frame_bytes (codes "a") (codes "b") map_bytes (5 ∷ []) }

-- A tracer that answers with the size of the map.
abbrev extract : ℕ → StringMap buffers → Result Failure ℕ
extract tracer map = ok (tracer + length map)
