-- ===== src/Runtime/Tracing/RoundTrip.antt =====
-- The map of a trace, written and read.
use rsocket_rpc_kotlin.Base.{
  ℕ, zero, suc, ◌+◌, ◌≤◌, ◌<◌, Bytes, true, [], ◌∷◌, ◌++◌, some, ◌≡◌, refl, sym, ap, ◌∙◌, arith,
  length, length-append, append_assoc, append-nil, inl, inr, ◌⊎◌, All,
}
use rsocket_rpc_kotlin.Runtime.Common.{ok, ◌^◌, short_to_int}
use rsocket_rpc_kotlin.Runtime.Netty.{Netty, Documented, short_bytes_of, unread}
use rsocket_rpc_kotlin.Runtime.Metadata.Frame.{bind_ok, require_unsigned_short-ok}
use rsocket_rpc_kotlin.Runtime.Metadata.Parts.{short_to_int-small}
use rsocket_rpc_kotlin.Runtime.Tracing.{
  StringMap, write_entry, write_entries, map_to_byte_buf, put_text, read_entry, read_entries,
}
use rsocket_rpc_kotlin.Runtime.Tracing.Rounds.{
  is_positive-readable_bytes, is_positive-nothing, read_entries-done, read_entries-round,
}

module _ (n : Netty) (laws : Documented n) where
  -- An entry that can be read: key and value have less than 2 ^ 15 bytes, and both are what their bytes
  -- stand for.
  abbrev pub IsTravelling : n.Text × n.Text → Type 0
  IsTravelling (key, value) =
      (length (n.utf8 key) < 2 ^ 15)
      × (length (n.utf8 value) < 2 ^ 15)
      × (n.text (n.utf8 key) ≡ key)
      × (n.text (n.utf8 value) ≡ value)

  abbrev entry_bytes : n.Text × n.Text → Bytes
  entry_bytes (key, value) =
      short_bytes_of (length (n.utf8 key))
      ++ (n.utf8 key ++ (short_bytes_of (length (n.utf8 value)) ++ n.utf8 value))

  abbrev pub entries_bytes : StringMap n → Bytes
  entries_bytes [] = []
  entries_bytes (entry ∷ map) = entry_bytes entry ++ entries_bytes map

  length-entry_bytes :
      (key value : n.Text) (after : Bytes)
      → length (entry_bytes (key, value) ++ after)
        ≡ length (n.utf8 key) + (length (n.utf8 value) + (4 + length after))
  length-entry_bytes key value after = omega (
    arith,
    ap length
        (append_assoc (n.utf8 key) (short_bytes_of (length (n.utf8 value)) ++ n.utf8 value) after),
    length-append (n.utf8 key) (short_bytes_of (length (n.utf8 value)) ++ (n.utf8 value ++ after)),
    length-append (n.utf8 value) after,
  )

  -- How long a buffer is behind the writes of a key and of a value's length.
  length-written :
      (key value : n.Text) (b c d e : n.ByteBuf)
      → n.content c ≡ n.content b ++ short_bytes_of (length (n.utf8 key))
      → n.content d ≡ n.content c ++ n.utf8 key
      → n.content e ≡ n.content d ++ short_bytes_of (length (n.utf8 value))
      → length (n.content e) ≡ length (n.content b) + (4 + length (n.utf8 key))
  length-written key value b c d e wc wd we = omega (
    arith,
    ap length wc,
    ap length wd,
    ap length we,
    length-append (n.content b) (short_bytes_of (length (n.utf8 key))),
    length-append (n.content c) (n.utf8 key),
    length-append (n.content d) (short_bytes_of (length (n.utf8 value))),
  )

  content-write_entry :
      (key value : n.Text) (b : n.ByteBuf)
      → n.grows b ≡ true
      → IsTravelling (key, value)
      → (length (n.utf8 value) ≤ length (n.utf8 key))
        ⊎ (length (n.content b) + length (entry_bytes (key, value)) ≤ n.capacity b)
      → (b' : n.ByteBuf) × (write_entry n key value b ≡ ok b')
        × (n.content b' ≡ n.content b ++ entry_bytes (key, value))
        × (n.reader_index b' ≡ n.reader_index b)
        × (n.grows b' ≡ true)
        × (n.capacity b ≤ n.capacity b')
  unfolding write_entry
  content-write_entry key value b g (hk, hv, _, _) room =
      let k = length (n.utf8 key) in
      let v = length (n.utf8 value) in
      let (w₁, q₁, g₁, l₁) = laws.written_short b k g in
      let (b₁, e₁, c₁, r₁, g₁', l₁') =
        laws.reserved_utf8 (n.write_short b k) key k g₁ (inl (omega arith)) in
      let (w₂, q₂, g₂, l₂) = laws.written_short b₁ v g₁' in
      let room' : (v ≤ k)
          ⊎ (length (n.content (n.write_short b₁ v)) + v ≤ n.capacity (n.write_short b₁ v)) =
        elim room [
          | inl small ↦ inl small
          | inr fits ↦ inr (
              omega (
                arith,
                length-written key value b (n.write_short b k) b₁ (n.write_short b₁ v) w₁ c₁ w₂,
                length-entry_bytes key value [],
                ap length (append-nil (entry_bytes (key, value))),
              ))
        ] in
      let (b₂, e₂, c₂, r₂, g₂', l₂') = laws.reserved_utf8 (n.write_short b₁ v) value k g₂ room' in
      (
        b₂,
        rw (laws.utf8_bytes_exact key (omega arith), laws.utf8_bytes_exact value (omega arith))
            (bind_ok k _ (require_unsigned_short-ok n laws k (omega arith)) (
              bind_ok b₁ _ e₁ (bind_ok v _ (require_unsigned_short-ok n laws v (omega arith)) e₂))),
        rw (c₂, w₂, c₁, w₁) (simp (append_assoc)),
        r₂ ∙ (q₂ ∙ (r₁ ∙ q₁)),
        g₂',
        omega arith,
      )

  -- A map can be written to a buffer: the bytes that are reserved for a value are as many as its key
  -- has, so either no value has more, or the buffer has the room for all entries as it is.
  abbrev pub HasRoom : StringMap n → n.ByteBuf → Type 0
  HasRoom map b =
      All (λ entry. length (n.utf8 (entry.1)) ≤ length (n.utf8 (entry.0))) map
      ⊎ (length (n.content b) + length (entries_bytes map) ≤ n.capacity b)

  room_first :
      (key value : n.Text) (map : StringMap n) (b : n.ByteBuf)
      → HasRoom ((key, value) ∷ map) b
      → (length (n.utf8 value) ≤ length (n.utf8 key))
        ⊎ (length (n.content b) + length (entry_bytes (key, value)) ≤ n.capacity b)
  room_first key value map b (inl (small, _)) = inl small
  room_first key value map b (inr fits) =
      inr (omega (arith, length-append (entry_bytes (key, value)) (entries_bytes map)))

  room_rest :
      (key value : n.Text) (map : StringMap n) (b b' : n.ByteBuf)
      → HasRoom ((key, value) ∷ map) b
      → n.content b' ≡ n.content b ++ entry_bytes (key, value)
      → n.capacity b ≤ n.capacity b'
      → HasRoom map b'
  room_rest key value map b b' (inl (_, small)) c l = inl small
  room_rest key value map b b' (inr fits) c l = inr (
      omega (
        arith,
        ap length c,
        length-append (n.content b) (entry_bytes (key, value)),
        length-append (entry_bytes (key, value)) (entries_bytes map),
      ))

  content-write_entries :
      (map : StringMap n) (b : n.ByteBuf)
      → n.grows b ≡ true
      → All IsTravelling map
      → HasRoom map b
      → (b' : n.ByteBuf) × (write_entries n map b ≡ ok b')
        × (n.content b' ≡ n.content b ++ entries_bytes map)
        × (n.reader_index b' ≡ n.reader_index b)
  unfolding write_entries
  content-write_entries [] b g h room = (b, refl, sym (append-nil (n.content b)), refl)
  content-write_entries ((key, value) ∷ map) b g (h, hs) room =
      let (b₁, e₁, c₁, r₁, g₁, l₁) =
        content-write_entry key value b g h (room_first key value map b room) in
      let (b₂, e₂, c₂, r₂) =
        content-write_entries map b₁ g₁ hs (room_rest key value map b b₁ room c₁ l₁) in
      (b₂, bind_ok b₁ _ e₁ e₂, rw (c₂, c₁) (append_assoc (n.content b) _ _), r₂ ∙ r₁)

  pub unread-map_to_byte_buf :
      (map : StringMap n)
      → All IsTravelling map
      → HasRoom map n.buffer
      → (b : n.ByteBuf) × (map_to_byte_buf n (some map) ≡ ok b) × (unread n b ≡ entries_bytes map)
  unfolding map_to_byte_buf
  unread-map_to_byte_buf [] h room =
      (n.empty_buffer, refl, rw (laws.empty_reader, laws.empty_content) refl)
  unread-map_to_byte_buf (entry ∷ map) h room =
      let (b, e, c, r) = content-write_entries (entry ∷ map) n.buffer laws.buffer_grows h room in
      (b, e, rw (r, laws.buffer_reader, c, laws.buffer_content) refl)

  read_entry-entry :
      (key value : n.Text) (b : n.ByteBuf) (after : Bytes)
      → IsTravelling (key, value)
      → unread n b ≡ entry_bytes (key, value) ++ after
      → (b' : n.ByteBuf) × (read_entry n b ≡ ok (key, value, b')) × (unread n b' ≡ after)
  unfolding read_entry
  read_entry-entry key value b after (hk, hv, tk, tv) u =
      let k = length (n.utf8 key) in
      let v = length (n.utf8 value) in
      let (b₁, e₁, u₁) =
        laws.did_read_short b (n.utf8 key ++ (short_bytes_of v ++ (n.utf8 value ++ after))) k
          (u ∙ simp (append_assoc)) (omega arith) in
      let (b₂, e₂, u₂) = laws.did_read_text b₁ (n.utf8 key) _ u₁ in
      let (b₃, e₃, u₃) = laws.did_read_short b₂ (n.utf8 value ++ after) v u₂ (omega arith) in
      let (b₄, e₄, u₄) = laws.did_read_text b₃ (n.utf8 value) after u₃ in
      let read_key : n.read_text b₁ (short_to_int k) ≡ ok (key, b₂) =
        rw (short_to_int-small k hk) (e₂ ∙ ap (λ t. ok (t, b₂)) tk) in
      let read_value : n.read_text b₃ (short_to_int v) ≡ ok (value, b₄) =
        rw (short_to_int-small v hv) (e₄ ∙ ap (λ t. ok (t, b₄)) tv) in
      (b₄, rw (e₁, read_key, e₃, read_value) refl, u₄)

  -- The entries put one after the other.
  abbrev pub put_all : StringMap n → StringMap n → StringMap n
  put_all [] map = map
  put_all ((key, value) ∷ entries) map = put_all entries (put_text n key value map)

  pub read_entries-entries :
      (fuel : ℕ) (entries : StringMap n) (b : n.ByteBuf) (map : StringMap n)
      → All IsTravelling entries
      → unread n b ≡ entries_bytes entries
      → length (entries_bytes entries) < fuel
      → length (entries_bytes entries) < 2 ^ 31
      → read_entries n fuel b map ≡ some (ok (put_all entries map))
  read_entries-entries zero entries b map h u f l = absurd (omega arith)
  read_entries-entries (suc fuel) [] b map h u f l =
      read_entries-done n laws fuel b map (is_positive-nothing n laws b u)
  read_entries-entries (suc fuel) ((key, value) ∷ entries) b map (h, hs) u f l =
      let (b', e, u') = read_entry-entry key value b (entries_bytes entries) h u in
      let size = length-entry_bytes key value (entries_bytes entries) in
      read_entries-round n laws fuel b b' key value map
        (is_positive-readable_bytes n laws b (omega (arith, ap length u))
          (omega (arith, ap length u, size)))
        e
      ∙ read_entries-entries fuel entries b' (put_text n key value map) hs u' (omega (arith, size))
          (omega (arith, size))
