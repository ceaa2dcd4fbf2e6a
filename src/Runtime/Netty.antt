-- ===== src/Runtime/Netty.antt =====
-- What the run-time library calls of io.netty.buffer and of strings, as an interface: operations, and
-- laws that their documentation states. An Int stands as its bit pattern.
use rsocket_rpc_kotlin.Base.{
  ℕ, ◌+◌, ◌-◌, ◌≤◌, ◌<◌, Bytes, ◌⊎◌, Bool, true, [], ◌∷◌, ◌++◌, ◌≡◌, length, drop, take,
}
use rsocket_rpc_kotlin.Runtime.Common.{Result, ok, ◌/◌, ◌%◌, ◌^◌}

pub record Netty : Type 1 where
  -- java.lang.String, its equality, its UTF-8 encoding and what bytes in UTF-8 stand for
  pub Text : Type 0
  pub same_text : Text → Text → Bool
  pub utf8 : Text → Bytes
  pub text : Bytes → Text
  -- java.lang.Throwable; an IllegalArgumentException on the size
  pub Throwable : Type 0
  pub larger_than_bits : ℕ → ℕ → Throwable
  -- ByteBuf: all bytes that are written, the reader index, the capacity, and whether it is one of an
  -- allocator's buffers, which grow as they are written, unlike Unpooled.EMPTY_BUFFER
  pub ByteBuf : Type 0
  pub content : ByteBuf → Bytes
  pub reader_index : ByteBuf → ℕ
  pub capacity : ByteBuf → ℕ
  pub grows : ByteBuf → Bool
  -- Unpooled.EMPTY_BUFFER, allocator.buffer(), ByteBufUtil.utf8Bytes, reserveAndWriteUtf8
  pub empty_buffer : ByteBuf
  pub buffer : ByteBuf
  pub utf8_bytes : Text → ℕ
  pub reserve_and_write_utf8 : ByteBuf → Text → ℕ → Result Throwable ByteBuf
  -- writeShort, writeBytes(src, index, length), the src behind writeBytes(src), readableBytes
  pub write_short : ByteBuf → ℕ → ByteBuf
  pub write_region : ByteBuf → ByteBuf → ℕ → ℕ → ByteBuf
  pub read_all : ByteBuf → ByteBuf
  pub readable_bytes : ByteBuf → ℕ
  -- getShort, toString, slice, readShort, readCharSequence; a Short as its pattern
  pub get_short : ByteBuf → ℕ → Result Throwable ℕ
  pub to_text : ByteBuf → ℕ → ℕ → Result Throwable Text
  pub slice : ByteBuf → ℕ → ℕ → Result Throwable ByteBuf
  pub read_short : ByteBuf → Result Throwable (ℕ × ByteBuf)
  pub read_text : ByteBuf → ℕ → Result Throwable (Text × ByteBuf)

-- The two bytes of a Short, the higher first; the higher bits of an Int are ignored.
abbrev pub short_bytes_of : ℕ → Bytes
short_bytes_of n = (n / 256 % 256) ∷ (n % 256) ∷ []

-- The bytes of a buffer that are not read.
abbrev pub unread : (n : Netty) → n.ByteBuf → Bytes
unread n b = drop (n.reader_index b) (n.content b)

-- The documented behaviour of the calls, as far as the library relies on it. The laws of the writes are
-- for buffers that stay below the largest capacity, of 2 ^ 31 - 1 bytes. `reserveAndWriteUtf8` makes
-- room for the bytes to reserve and does not fail if that is enough, or if the buffer has the room.
pub record Documented (n : Netty) : Type 0 where
  pub empty_content : n.content n.empty_buffer ≡ []
  pub empty_reader : n.reader_index n.empty_buffer ≡ 0
  pub buffer_content : n.content n.buffer ≡ []
  pub buffer_reader : n.reader_index n.buffer ≡ 0
  pub buffer_grows : n.grows n.buffer ≡ true
  pub utf8_bytes_exact :
      (s : n.Text) → length (n.utf8 s) < 2 ^ 31 → n.utf8_bytes s ≡ length (n.utf8 s)
  pub reserved_utf8 :
      (b : n.ByteBuf) (s : n.Text) (reserve : ℕ)
      → n.grows b ≡ true
      → (length (n.utf8 s) ≤ reserve) ⊎ (length (n.content b) + length (n.utf8 s) ≤ n.capacity b)
      → (b' : n.ByteBuf) × (n.reserve_and_write_utf8 b s reserve ≡ ok b')
        × (n.content b' ≡ n.content b ++ n.utf8 s)
        × (n.reader_index b' ≡ n.reader_index b)
        × (n.grows b' ≡ true)
        × (n.capacity b ≤ n.capacity b')
  pub written_short :
      (b : n.ByteBuf) (i : ℕ)
      → n.grows b ≡ true
      → (n.content (n.write_short b i) ≡ n.content b ++ short_bytes_of i)
        × (n.reader_index (n.write_short b i) ≡ n.reader_index b)
        × (n.grows (n.write_short b i) ≡ true)
        × (n.capacity b ≤ n.capacity (n.write_short b i))
  pub written_region :
      (b s : n.ByteBuf) (index size : ℕ)
      → n.grows b ≡ true
      → (n.content (n.write_region b s index size)
          ≡ n.content b ++ take size (drop index (n.content s)))
        × (n.grows (n.write_region b s index size) ≡ true)
  pub readable_between :
      (b : n.ByteBuf) → n.readable_bytes b ≡ length (n.content b) - n.reader_index b
  pub got_short :
      (b : n.ByteBuf) (before after : Bytes) (i : ℕ)
      → n.content b ≡ before ++ (short_bytes_of i ++ after)
      → i < 2 ^ 16
      → n.get_short b (length before) ≡ ok i
  pub got_text :
      (b : n.ByteBuf) (before region after : Bytes)
      → n.content b ≡ before ++ (region ++ after)
      → n.to_text b (length before) (length region) ≡ ok (n.text region)
  pub sliced :
      (b : n.ByteBuf) (before region after : Bytes)
      → n.content b ≡ before ++ (region ++ after)
      → (s : n.ByteBuf) × (n.slice b (length before) (length region) ≡ ok s)
        × (n.content s ≡ region)
        × (n.reader_index s ≡ 0)
  pub same_text_sound : (s t : n.Text) → n.same_text s t ≡ true → s ≡ t
  pub same_text_complete : (s : n.Text) → n.same_text s s ≡ true
  pub did_read_short :
      (b : n.ByteBuf) (after : Bytes) (i : ℕ)
      → unread n b ≡ short_bytes_of i ++ after
      → i < 2 ^ 16
      → (b' : n.ByteBuf) × (n.read_short b ≡ ok (i, b')) × (unread n b' ≡ after)
  pub did_read_text :
      (b : n.ByteBuf) (region after : Bytes)
      → unread n b ≡ region ++ after
      → (b' : n.ByteBuf) × (n.read_text b (length region) ≡ ok (n.text region, b'))
        × (unread n b' ≡ after)
  pub reads_two_bytes :
      (b b' : n.ByteBuf) (i : ℕ)
      → n.read_short b ≡ ok (i, b')
      → length (unread n b) ≡ length (unread n b') + 2
  pub reads_forward :
      (b b' : n.ByteBuf) (size : ℕ) (s : n.Text)
      → n.read_text b size ≡ ok (s, b')
      → length (unread n b') ≤ length (unread n b)
