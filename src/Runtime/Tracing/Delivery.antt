-- ===== src/Runtime/Tracing/Delivery.antt =====
-- A map that is written, read from its bytes, and read at the other end of a request.
use rsocket_rpc_kotlin.Base.{
  suc, ◌<◌, List, [], ◌∷◌, ◌++◌, some, ◌≡◌, ◌≢◌, refl, sym, ap, ◌∙◌, arith, length, append_assoc,
  append-nil, All, Bool-cases, inl, inr,
}
use rsocket_rpc_kotlin.Runtime.Common.{ok, ◌^◌}
use rsocket_rpc_kotlin.Runtime.Netty.{Netty, Documented, unread}
use rsocket_rpc_kotlin.Runtime.Metadata.Frame.{readable_bytes-unread}
use rsocket_rpc_kotlin.Runtime.Tracing.{StringMap, map_to_byte_buf, put_text, byte_buf_to_map}
use rsocket_rpc_kotlin.Runtime.Tracing.RoundTrip.{
  IsTravelling, HasRoom, entries_bytes, put_all, read_entries-entries, unread-map_to_byte_buf,
}

-- No key stands twice.
abbrev pub HasDistinctKeys : (n : Netty) → StringMap n → Type 0
HasDistinctKeys n [] = Unit
HasDistinctKeys n ((key, value) ∷ map) = All (λ entry. key ≢ entry.0) map × HasDistinctKeys n map

at_front {ℓ κ} :
    {A : Type ℓ} (P : A → Type κ) (xs : List A) (y : A) (ys : List A) → All P (xs ++ (y ∷ ys)) → P y
at_front P [] y ys (h, _) = h
at_front P (x ∷ xs) y ys (_, hs) = at_front P xs y ys hs

module _ (n : Netty) (laws : Documented n) where
  put_text-new :
      (key value : n.Text) (map : StringMap n)
      → All (λ entry. entry.0 ≢ key) map
      → put_text n key value map ≡ map ++ ((key, value) ∷ [])
  unfolding put_text
  put_text-new key value [] h = refl
  put_text-new key value ((k, v) ∷ map) (h, hs) = elim (Bool-cases (n.same_text k key)) [
    | inl e ↦ absurd (h (laws.same_text_sound k key e))
    | inr e ↦ rw e (ap (λ l. (k, v) ∷ l) (put_text-new key value map hs))
  ]

  new_behind :
      (map : StringMap n) (key value : n.Text) (entries : StringMap n)
      → HasDistinctKeys n (map ++ ((key, value) ∷ entries))
      → All (λ entry. entry.0 ≢ key) map
  new_behind [] key value entries h = tt
  new_behind ((k, v) ∷ map) key value entries (h, hs) = (
    at_front (λ entry. k ≢ entry.0) map (key, value) entries h,
    new_behind map key value entries hs,
  )

  put_all-append :
      (entries map : StringMap n)
      → HasDistinctKeys n (map ++ entries)
      → put_all n laws entries map ≡ map ++ entries
  put_all-append [] map h = sym (append-nil map)
  put_all-append ((key, value) ∷ entries) map h =
      let joined = append_assoc map ((key, value) ∷ []) entries in
      rw (put_text-new key value map (new_behind map key value entries h))
        (put_all-append entries (map ++ ((key, value) ∷ [])) (rw joined h) ∙ joined)

  map_read :
      (map : StringMap n) (b : n.ByteBuf)
      → All (IsTravelling n laws) map
      → HasDistinctKeys n map
      → length (entries_bytes n laws map) < 2 ^ 31
      → unread n b ≡ entries_bytes n laws map
      → byte_buf_to_map n b ≡ some (ok map)
  unfolding byte_buf_to_map
  map_read map b h d l u =
      read_entries-entries n laws (suc (n.readable_bytes b)) map b [] h u
        (omega (arith, readable_bytes-unread n laws b, ap length u)) l
      ∙ ap (λ m. some (ok m)) (put_all-append map [] d)

  -- A map is written to a buffer, and read from that buffer it is the same map, its entries in the same
  -- order, where no key stands twice, keys and values have less than 2 ^ 15 bytes and are what their
  -- bytes in UTF-8 stand for, all bytes are less than 2 ^ 31, and the allocator's buffer has the room.
  byte_buf_to_map-map_to_byte_buf :
      (map : StringMap n)
      → All (IsTravelling n laws) map
      → HasRoom n laws map n.buffer
      → HasDistinctKeys n map
      → length (entries_bytes n laws map) < 2 ^ 31
      → (written : n.ByteBuf) × (map_to_byte_buf n (some map) ≡ ok written)
        × (byte_buf_to_map n written ≡ some (ok map))
  byte_buf_to_map-map_to_byte_buf map h room d l =
      let (written, e, u) = unread-map_to_byte_buf n laws map h room in
      (written, e, map_read map written h d l u)
