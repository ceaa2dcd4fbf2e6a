-- ===== src/Runtime/Metadata/RoundTrip.antt =====
-- The getters on a frame.
use rsocket_rpc_kotlin.Base.{
  false, drop, take, ◌-◌, ◌≤◌, leb, Bool-cases, inl, inr, ℕ, ◌+◌, ◌<◌, Bytes, [], ◌∷◌, ◌++◌, ◌≡◌,
  refl, sym, ap, ◌∙◌, arith, length, if◌then◌else◌, length-append, append_assoc,
}
use rsocket_rpc_kotlin.Runtime.Common.{Result, ok, ◌^◌, int_add, int_sub, short_to_int, is_positive}
use rsocket_rpc_kotlin.Runtime.Netty.{Netty, Documented, short_bytes_of, unread}
use rsocket_rpc_kotlin.Runtime.Metadata.{
  version, encode, get_version, get_service, get_method, get_tracing, get_metadata,
}
use rsocket_rpc_kotlin.Runtime.Metadata.Frame.{
  frame_bytes, bind_ok, content-encode, length-take, take-append-drop, take_rest,
}
use rsocket_rpc_kotlin.Runtime.Metadata.Parts.{short_to_int-small, short_at, text_at, region_at}

module _ (n : Netty) (laws : Documented n) (b : n.ByteBuf) where
  module _ (s m t d : Bytes) (c : n.content b ≡ frame_bytes s m t d) (hs : length s < 2 ^ 15)
      (hm : length m < 2 ^ 15) (ht : length t < 2 ^ 15) where
    version-frame : get_version n b ≡ ok version
    unfolding get_version
    version-frame = bind_ok 1 _ (short_at n laws b [] _ 0 1 refl c (omega arith)) refl

    service-frame : get_service n b ≡ ok (n.text s)
    unfolding get_service
    service-frame = bind_ok (length s) _ (short_at n laws b (0 ∷ 1 ∷ []) _ 2 (length s) refl c hs) (
        text_at n laws b (0 ∷ 1 ∷ short_bytes_of (length s)) s _ _ _ refl (short_to_int-small _ hs)
          c)

    -- The bytes before the lengths of the method and of the tracing, and before the metadata.
    abbrev to_method : Bytes
    to_method = 0 ∷ 1 ∷ short_bytes_of (length s) ++ s

    abbrev to_tracing : Bytes
    to_tracing = (to_method ++ short_bytes_of (length m)) ++ m

    abbrev to_metadata : Bytes
    to_metadata = (to_tracing ++ short_bytes_of (length t)) ++ t

    length-to_method : length to_method ≡ length s + 4
    length-to_method = omega arith

    length-to_tracing : length to_tracing ≡ length s + (length m + 6)
    length-to_tracing = omega (
      arith,
      length-append (to_method ++ short_bytes_of (length m)) m,
      length-append to_method (short_bytes_of (length m)),
      length-to_method,
    )

    length-to_metadata : length to_metadata ≡ length s + (length m + (length t + 8))
    length-to_metadata = omega (
      arith,
      length-append (to_tracing ++ short_bytes_of (length t)) t,
      length-append to_tracing (short_bytes_of (length t)),
      length-to_tracing,
    )

    method_at :
        n.content b
        ≡ to_method ++ (short_bytes_of (length m) ++ (m ++ (short_bytes_of (length t) ++ (t ++ d))))
    method_at = c ∙ sym (append_assoc (0 ∷ 1 ∷ short_bytes_of (length s)) s _)

    tracing_at : n.content b ≡ to_tracing ++ (short_bytes_of (length t) ++ (t ++ d))
    tracing_at = method_at ∙ simp (append_assoc)

    metadata_at : n.content b ≡ to_metadata ++ d
    metadata_at = tracing_at ∙ simp (append_assoc)

    method_offset : int_add 2 (int_add 2 (short_to_int (length s))) ≡ length to_method
    method_offset = omega (arith, short_to_int-small _ hs, length-to_method)

    tracing_offset :
        int_add (length to_method) (int_add 2 (short_to_int (length m))) ≡ length to_tracing
    tracing_offset = omega (arith, short_to_int-small _ hm, length-to_method, length-to_tracing)

    -- The offset of the tracing's length, as the getters compute it.
    abbrev tracing_start : ℕ
    tracing_start =
        int_add (int_add 2 (int_add 2 (short_to_int (length s))))
          (int_add 2 (short_to_int (length m)))

    tracing_starts : tracing_start ≡ length to_tracing
    tracing_starts =
        ap (λ k. int_add k (int_add 2 (short_to_int (length m)))) method_offset ∙ tracing_offset

    metadata_offset :
        int_add (length to_tracing) (int_add 2 (short_to_int (length t))) ≡ length to_metadata
    metadata_offset = omega (arith, short_to_int-small _ ht, length-to_tracing, length-to_metadata)

    text_offset :
        (before size : Bytes) (offset : ℕ)
        → offset ≡ length before
        → length before < 2 ^ 31
        → int_add offset 2 ≡ length (before ++ short_bytes_of (length size))
    text_offset before size offset o h =
        omega (arith, length-append before (short_bytes_of (length size)))

    method-frame : get_method n b ≡ ok (n.text m)
    unfolding get_method
    method-frame = bind_ok (length s) _ (short_at n laws b (0 ∷ 1 ∷ []) _ 2 (length s) refl c hs) (
        bind_ok (length m) _ (short_at n laws b to_method _ _ (length m) method_offset method_at hm)
          (text_at n laws b (to_method ++ short_bytes_of (length m)) m
            (short_bytes_of (length t) ++ (t ++ d)) _ _
            (text_offset to_method m _ method_offset (omega (arith, length-to_method)))
            (short_to_int-small _ hm) (method_at ∙ simp (append_assoc))))

    pub tracing-frame : (r : n.ByteBuf) × (get_tracing n b ≡ ok r) × (unread n r ≡ t)
    unfolding get_tracing
    tracing-frame =
        let (r, e, u) =
          region_at n laws b (to_tracing ++ short_bytes_of (length t)) t d
            (int_add (length to_tracing) 2) (short_to_int (length t))
            (text_offset to_tracing t _ refl (omega (arith, length-to_tracing)))
            (short_to_int-small _ ht) (tracing_at ∙ simp (append_assoc)) (omega arith) in
        (
          r,
          bind_ok (length s) _ (short_at n laws b (0 ∷ 1 ∷ []) _ 2 (length s) refl c hs) (
              bind_ok (length m) _
                (short_at n laws b to_method _ _ (length m) method_offset method_at hm)
                (bind_ok (length t) _
                  (short_at n laws b to_tracing _ _ (length t) tracing_starts tracing_at ht)
                  (ap
                      (λ k.
                        if is_positive (short_to_int (length t))
                        then n.slice b (int_add k 2) (short_to_int (length t))
                        else ok n.empty_buffer)
                      tracing_starts
                    ∙ e))),
          u,
        )

    -- The offset of the metadata, as `getMetadata` computes it, and the size that it takes.
    abbrev metadata_start : ℕ
    metadata_start = int_add tracing_start (int_add 2 (short_to_int (length t)))

    abbrev metadata_size : ℕ
    metadata_size = int_sub (n.readable_bytes b) metadata_start

    metadata_starts : metadata_start ≡ length to_metadata
    metadata_starts =
        ap (λ k. int_add k (int_add 2 (short_to_int (length t)))) tracing_starts ∙ metadata_offset

    length-content : length (n.content b) ≡ length to_metadata + length d
    length-content = ap length metadata_at ∙ length-append to_metadata d

    metadata_fits :
        n.reader_index b ≤ length d
        → length d < 2 ^ 30
        → metadata_size ≡ length d - n.reader_index b
    metadata_fits h hd =
        rw metadata_starts
          (omega (arith, laws.readable_between b, length-content, length-to_metadata))

    metadata_missing :
        length d < n.reader_index b → length d < 2 ^ 30 → is_positive metadata_size ≡ false
    metadata_missing h hd =
        rw metadata_starts
          (ground (arith, laws.readable_between b, length-content, length-to_metadata))

    metadata-got :
        (r : n.ByteBuf)
        → (if is_positive metadata_size
            then n.slice b metadata_start metadata_size
            else ok n.empty_buffer)
          ≡ ok r
        → get_metadata n b ≡ ok r
    unfolding get_metadata
    metadata-got r e =
        bind_ok (length s) _ (short_at n laws b (0 ∷ 1 ∷ []) _ 2 (length s) refl c hs) (
          bind_ok (length m) _
            (short_at n laws b to_method _ _ (length m) method_offset method_at hm)
            (bind_ok (length t) _
              (short_at n laws b to_tracing _ _ (length t) tracing_starts tracing_at ht) e))

    -- What is read already counts against the metadata.
    pub metadata-frame :
        length d < 2 ^ 30
        → (r : n.ByteBuf) × (get_metadata n b ≡ ok r)
          × (unread n r ≡ take (length d - n.reader_index b) d)
    metadata-frame hd = elim (Bool-cases (leb (n.reader_index b) (length d))) [
      | inl within ↦
          let k = length d - n.reader_index b in
          let (r, e, u) =
            region_at n laws b to_metadata (take k d) (drop k d) metadata_start metadata_size
              metadata_starts
              (metadata_fits (ground arith) hd ∙ sym (length-take k d (omega arith)))
              (metadata_at ∙ ap (λ l. to_metadata ++ l) (sym (take-append-drop k d)))
              (omega (arith, length-take k d (omega arith))) in
          (r, metadata-got r e, u)
      | inr beyond ↦
          let nothing : length d - n.reader_index b ≡ 0 = ground arith in
          (
            n.empty_buffer,
            metadata-got n.empty_buffer (rw (metadata_missing (ground arith) hd) refl),
            rw (laws.empty_content, laws.empty_reader, nothing) refl,
          )
    ]

    pub metadata-frame_whole :
        n.reader_index b ≡ 0
        → length d < 2 ^ 30
        → (r : n.ByteBuf) × (get_metadata n b ≡ ok r) × (unread n r ≡ d)
    metadata-frame_whole r0 hd =
        let (r, e, u) = metadata-frame hd in (r, e, u ∙ rw r0 (take_rest 0 d))

pub frames_equal :
    (n : Netty) {f f' a a' : n.ByteBuf} {r : Result n.Throwable (n.ByteBuf × n.ByteBuf)}
    → r ≡ ok (f, a)
    → r ≡ ok (f', a')
    → n.content f ≡ n.content f'
frames_equal n {f} {f'} e e' = let same : f ≡ f' = cc in ap n.content same

-- Where the strings, the tracing and the metadata are not too long, any buffer with the bytes of a
-- frame gives back what was encoded: the version 1, the service and the method by their bytes in UTF-8,
-- and buffers with the bytes of the tracing and of the metadata that were not read before. Of the
-- metadata, as many bytes are missing at the end as the reader index of that buffer says, none where it
-- is 0. A length of a string or of the tracing must be below 2 ^ 15, half of what `encode` lets pass,
-- and that of the metadata below 2 ^ 30.
pub encode_round_trip :
    (n : Netty) (laws : Documented n) (service method : n.Text)
    (tracing metadata frame after arrived : n.ByteBuf)
    → length (n.utf8 service) < 2 ^ 15
    → length (n.utf8 method) < 2 ^ 15
    → length (unread n tracing) < 2 ^ 15
    → length (unread n metadata) < 2 ^ 30
    → encode n service method tracing metadata ≡ ok (frame, after)
    → n.content arrived ≡ n.content frame
    → (get_version n arrived ≡ ok 1)
      × (get_service n arrived ≡ ok (n.text (n.utf8 service)))
      × (get_method n arrived ≡ ok (n.text (n.utf8 method)))
      × ((t : n.ByteBuf) × (get_tracing n arrived ≡ ok t) × (unread n t ≡ unread n tracing))
      × ((d : n.ByteBuf) × (get_metadata n arrived ≡ ok d)
          × (unread n d
              ≡ take (length (unread n metadata) - n.reader_index arrived) (unread n metadata)))
encode_round_trip n laws service method tracing metadata frame after b hs hm ht hd e same =
    let (frame', e', c') =
      content-encode n laws service method tracing metadata (omega arith) (omega arith) in
    let c = same ∙ (frames_equal n e e' ∙ c') in
    let s = n.utf8 service in
    let m = n.utf8 method in
    let t = unread n tracing in
    let d = unread n metadata in
    (
      version-frame n laws b s m t d c hs hm ht,
      service-frame n laws b s m t d c hs hm ht,
      method-frame n laws b s m t d c hs hm ht,
      tracing-frame n laws b s m t d c hs hm ht,
      metadata-frame n laws b s m t d c hs hm ht hd,
    )
