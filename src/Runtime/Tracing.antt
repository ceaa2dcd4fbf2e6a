-- ===== src/Runtime/Tracing.antt =====
-- `Tracing` of tracing/Tracing.kt
-- (rsocket-rpc-core/src/main/kotlin/io/rsocket/rpc/kotlin/tracing/Tracing.kt): the map of a trace as
-- bytes, and back. A Map<String, String> is the list of its entries in the order of iteration.
pub mod Rounds
pub mod RoundTrip
pub mod Totality
pub mod Delivery
use rsocket_rpc_kotlin.Base.{
  ℕ, zero, suc, Bool, List, [], ◌∷◌, Option, none, some, if◌then◌else◌, is_empty,
}
use rsocket_rpc_kotlin.Runtime.Common.{
  Result, ok, threw, ◌>>=◌, short_to_int, is_positive, is_negative,
}
use rsocket_rpc_kotlin.Runtime.Netty.{Netty}
use rsocket_rpc_kotlin.Runtime.Metadata.{require_unsigned_short, get_tracing}

module _ (n : Netty) where
  open n use {
    Text, Throwable, ByteBuf, same_text, empty_buffer, buffer, utf8_bytes, reserve_and_write_utf8,
    write_short, readable_bytes, read_short, read_text,
  }

  abbrev pub StringMap : Type 0
  StringMap = List (Text × Text)

  -- The body of the loop for one entry: the value is written with the length of the key as reserve.
  unfoldable pub write_entry : Text → Text → ByteBuf → Result Throwable ByteBuf
  unfolding require_unsigned_short
  write_entry key value byte_buf = do
    key_length ← require_unsigned_short n (utf8_bytes key)
    with_key ← reserve_and_write_utf8 (write_short byte_buf key_length) key key_length
    value_length ← require_unsigned_short n (utf8_bytes value)
    reserve_and_write_utf8 (write_short with_key value_length) value key_length

  unfoldable pub write_entries : StringMap → ByteBuf → Result Throwable ByteBuf
  unfolding write_entry
  write_entries [] byte_buf = ok byte_buf
  write_entries ((key, value) ∷ map) byte_buf = do
    with_entry ← write_entry key value byte_buf
    write_entries map with_entry

  unfoldable pub map_to_byte_buf : Option StringMap → Result Throwable ByteBuf
  unfolding write_entries
  map_to_byte_buf none = ok empty_buffer
  map_to_byte_buf (some map) = if is_empty map then ok empty_buffer else write_entries map buffer

  -- `map[key] = value`
  unfoldable pub put_text : Text → Text → StringMap → StringMap
  put_text key value [] = (key, value) ∷ []
  put_text key value ((k, v) ∷ map) =
      if same_text k key then (k, value) ∷ map else (k, v) ∷ put_text key value map

  -- One round of the `while` loop, up to the assignment.
  unfoldable pub read_entry : ByteBuf → Result Throwable (Text × Text × ByteBuf)
  read_entry byte_buf = do
    (key_length, b₁) ← read_short byte_buf
    (key, b₂) ← read_text b₁ (short_to_int key_length)
    (value_length, b₃) ← read_short b₂
    (value, b₄) ← read_text b₃ (short_to_int value_length)
    ok (key, value, b₄)

  -- The loop on fuel; `none` means that the fuel ran out.
  unfoldable pub read_entries : ℕ → ByteBuf → StringMap → Option (Result Throwable StringMap)
  unfolding read_entry put_text
  read_entries zero byte_buf map = none
  read_entries (suc fuel) byte_buf map =
      let round : Option (Result Throwable StringMap) = elim (read_entry byte_buf) [
        | threw t ↦ some (threw t)
        | ok (key, value, rest) ↦ read_entries fuel rest (put_text key value map)
      ] in
      if is_positive (readable_bytes byte_buf) then round else some (ok map)

  unfoldable pub byte_buf_to_map : ByteBuf → Option (Result Throwable StringMap)
  unfolding read_entries
  byte_buf_to_map byte_buf = read_entries (suc (readable_bytes byte_buf)) byte_buf []

  -- io.opentracing: `extract` on a map in the format TEXT_MAP.
  module _ {Tracer SpanContext : Type 0}
      (extract : Tracer → StringMap → Result Throwable SpanContext) where
    unfoldable pub extract_map : Tracer → StringMap → Result Throwable (Option SpanContext)
    extract_map tracer metadata_map = do
      if is_empty metadata_map
          then ok none
          else (extract tracer metadata_map >>= λ context. ok (some context))

    -- A null tracer, a frame whose tracing cannot be read, and the test of a negative size.
    unfoldable pub deserialize_tracing_metadata :
        Option Tracer → ByteBuf → Option (Result Throwable (Option SpanContext))
    unfolding extract_map byte_buf_to_map
    deserialize_tracing_metadata none metadata = some (ok none)
    deserialize_tracing_metadata (some tracer) metadata = elim (get_tracing n metadata) [
      | threw t ↦ some (threw t)
      | ok tracing ↦
          if is_negative (readable_bytes tracing)
          then some (ok none)
          else elim (byte_buf_to_map tracing) [
            | none ↦ none
            | some (threw t) ↦ some (threw t)
            | some (ok metadata_map) ↦ some (extract_map tracer metadata_map)
          ]
    ]
