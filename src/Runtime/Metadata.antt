-- ===== src/Runtime/Metadata.antt =====
-- `Metadata` of frames/Metadata.kt
-- (rsocket-rpc-core/src/main/kotlin/io/rsocket/rpc/kotlin/frames/Metadata.kt): the version, the
-- service, the method, the tracing and the metadata of a request in one buffer.
pub mod Frame
pub mod Parts
pub mod RoundTrip
pub mod Limits
use Prim.Native.Nat.{bit_and}
use rsocket_rpc_kotlin.Base.{ℕ, Bool, if◌then◌else◌}
use rsocket_rpc_kotlin.Runtime.Common.{
  Result, ok, threw, ◌>>=◌, int_greater, int_add, int_sub, short_to_int, is_positive,
}
use rsocket_rpc_kotlin.Runtime.Netty.{Netty}

abbrev pub version : ℕ
version = 1

abbrev pub short_bytes : ℕ
short_bytes = 2

abbrev pub unsigned_short_size : ℕ
unsigned_short_size = 16

abbrev pub unsigned_short_max_value : ℕ
unsigned_short_max_value = 0xffff

module _ (n : Netty) where
  open n use {
    Text, Throwable, ByteBuf, larger_than_bits, empty_buffer, buffer, utf8_bytes,
    reserve_and_write_utf8, write_short, write_region, read_all, reader_index, readable_bytes,
    get_short, to_text, slice,
  }

  unfoldable pub require_unsigned_short : ℕ → Result Throwable ℕ
  require_unsigned_short i =
      if int_greater i unsigned_short_max_value
      then threw (larger_than_bits i unsigned_short_size)
      else ok i

  -- The two lines on a string's length, and the write behind them.
  unfoldable pub write_text : ByteBuf → Text → Result Throwable ByteBuf
  unfolding require_unsigned_short
  write_text byte_buf s = do
    length ← require_unsigned_short (utf8_bytes s)
    reserve_and_write_utf8 (write_short byte_buf length) s length

  -- The frame, and `tracing` as it is left: read to its end. `tracing` and `metadata` are two buffers.
  unfoldable pub encode : Text → Text → ByteBuf → ByteBuf → Result Throwable (ByteBuf × ByteBuf)
  unfolding write_text
  encode service method tracing metadata = do
    let byte_buf = write_short buffer version
    with_service ← write_text byte_buf service
    with_method ← write_text with_service method
    let with_length = write_short with_method (readable_bytes tracing)
    let with_tracing =
        write_region with_length tracing (reader_index tracing) (readable_bytes tracing)
    ok (
      write_region with_tracing metadata (reader_index metadata) (readable_bytes metadata),
      read_all tracing,
    )

  -- The overload without tracing.
  unfoldable pub encode_untraced : Text → Text → ByteBuf → Result Throwable (ByteBuf × ByteBuf)
  unfolding encode
  encode_untraced service method metadata = encode service method empty_buffer metadata

  unfoldable pub get_version : ByteBuf → Result Throwable ℕ
  get_version byte_buf = do short ← get_short byte_buf 0; ok (bit_and (short_to_int short) 0x7fff)

  unfoldable pub get_service : ByteBuf → Result Throwable Text
  get_service byte_buf = do
    let offset = short_bytes
    service_length ← get_short byte_buf offset
    to_text byte_buf (int_add offset short_bytes) (short_to_int service_length)

  unfoldable pub get_method : ByteBuf → Result Throwable Text
  get_method byte_buf = do
    let offset = short_bytes
    service_length ← get_short byte_buf offset
    let offset = int_add offset (int_add short_bytes (short_to_int service_length))
    method_length ← get_short byte_buf offset
    to_text byte_buf (int_add offset short_bytes) (short_to_int method_length)

  unfoldable pub get_tracing : ByteBuf → Result Throwable ByteBuf
  get_tracing byte_buf = do
    let offset = short_bytes
    service_length ← get_short byte_buf offset
    let offset = int_add offset (int_add short_bytes (short_to_int service_length))
    method_length ← get_short byte_buf offset
    let offset = int_add offset (int_add short_bytes (short_to_int method_length))
    tracing_length ← get_short byte_buf offset
    let offset = int_add offset short_bytes
    if is_positive (short_to_int tracing_length)
        then slice byte_buf offset (short_to_int tracing_length)
        else ok empty_buffer

  unfoldable pub get_metadata : ByteBuf → Result Throwable ByteBuf
  get_metadata byte_buf = do
    let offset = short_bytes
    service_length ← get_short byte_buf offset
    let offset = int_add offset (int_add short_bytes (short_to_int service_length))
    method_length ← get_short byte_buf offset
    let offset = int_add offset (int_add short_bytes (short_to_int method_length))
    tracing_length ← get_short byte_buf offset
    let offset = int_add offset (int_add short_bytes (short_to_int tracing_length))
    let metadata_length = int_sub (readable_bytes byte_buf) offset
    if is_positive metadata_length then slice byte_buf offset metadata_length else ok empty_buffer
