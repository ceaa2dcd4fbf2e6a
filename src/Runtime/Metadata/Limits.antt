-- ===== src/Runtime/Metadata/Limits.antt =====
-- Lengths that do not fit.
use rsocket_rpc_kotlin.Base.{
  ℕ, ◌+◌, ◌≤◌, ◌<◌, Bytes, Bool, true, false, [], ◌∷◌, ◌++◌, ◌≡◌, refl, sym, ap, ap₂, ◌∙◌, arith,
  length, drop, take, length-append, append_assoc, if◌then◌else◌, Bool-cases, inl, inr,
}
use rsocket_rpc_kotlin.Runtime.Common.{
  ok, threw, ◌^◌, ltb, int_greater, int_sub, short_to_int, is_negative,
}
use rsocket_rpc_kotlin.Runtime.Netty.{Netty, Documented, short_bytes_of, unread}
use rsocket_rpc_kotlin.Runtime.Metadata.{
  version, require_unsigned_short, write_text, encode, get_service, get_tracing, get_metadata,
  unsigned_short_max_value, unsigned_short_size,
}
use rsocket_rpc_kotlin.Runtime.Metadata.Frame.{
  frame_bytes, bind_ok, content-encode, content-write_text, length-drop, length-take,
  take-append-drop,
}
use rsocket_rpc_kotlin.Runtime.Metadata.RoundTrip.{
  frames_equal, tracing-frame, metadata-frame_whole,
}

abbrev pub is_too_long : Bytes → Bool
is_too_long bytes = ltb 65535 (length bytes)

fits : (bytes : Bytes) → is_too_long bytes ≡ false → length bytes < 2 ^ 16
fits bytes h = ground arith

too_long :
    (size : ℕ)
    → ltb 65535 size ≡ true
    → size < 2 ^ 31
    → int_greater size unsigned_short_max_value ≡ true
too_long size h l = ground arith

module _ (n : Netty) (laws : Documented n) where
  write_text-threw :
      (b : n.ByteBuf) (s : n.Text)
      → is_too_long (n.utf8 s) ≡ true
      → length (n.utf8 s) < 2 ^ 31
      → write_text n b s ≡ threw (n.larger_than_bits (length (n.utf8 s)) unsigned_short_size)
  unfolding write_text require_unsigned_short
  write_text-threw b s h l = rw (laws.utf8_bytes_exact s l, too_long (length (n.utf8 s)) h l) refl

  -- `encode` throws on a service of more than 65535 bytes in UTF-8, else on such a method, in both
  -- cases an exception on that length and 16 bits; else it returns a frame, and `tracing` read to its
  -- end. Both strings have less than 2 ^ 31 bytes, and the tracing and the metadata together less than
  -- 2 ^ 30 that are not read, so that the frame is below a buffer's largest capacity.
  pub encode_lem :
      (service method : n.Text) (tracing metadata : n.ByteBuf)
      → length (n.utf8 service) < 2 ^ 31
      → length (n.utf8 method) < 2 ^ 31
      → length (unread n tracing) + length (unread n metadata) < 2 ^ 30
      → (frame : n.ByteBuf) × (encode n service method tracing metadata ≡ (
          if is_too_long (n.utf8 service)
          then threw (n.larger_than_bits (length (n.utf8 service)) 16)
          else if is_too_long (n.utf8 method)
          then threw (n.larger_than_bits (length (n.utf8 method)) 16)
          else ok (frame, n.read_all tracing)))
  encode_lem service method tracing metadata ls lm _ =
      elim (Bool-cases (is_too_long (n.utf8 service))) [
        | inl long ↦ (
          n.empty_buffer,
          rw long (unfold encode in rw (write_text-threw _ service long ls) refl),
        )
        | inr short ↦ elim (Bool-cases (is_too_long (n.utf8 method))) [
          | inl long ↦
              let (_, _, g, _) = laws.written_short n.buffer version laws.buffer_grows in
              let (b, e, _, _) =
                content-write_text n laws (n.write_short n.buffer version) service g
                  (fits _ short) in
              (
                n.empty_buffer,
                rw (short, long)
                    (unfold encode in bind_ok b _ e (rw (write_text-threw b method long lm) refl)),
              )
          | inr short' ↦
              let (frame, e, _) =
                content-encode n laws service method tracing metadata (fits _ short)
                  (fits _ short') in
              (frame, rw (short, short') e)
        ]
      ]

short_to_int-long : (k : ℕ) → 2 ^ 15 ≤ k → k < 2 ^ 16 → short_to_int k ≡ int_sub k (2 ^ 16)
short_to_int-long k h l = ground arith

get_service-long :
    (n : Netty) (laws : Documented n) (b : n.ByteBuf) (s after : Bytes)
    → 2 ^ 15 ≤ length s
    → length s < 2 ^ 16
    → n.content b ≡ 0 ∷ 1 ∷ (short_bytes_of (length s) ++ (s ++ after))
    → get_service n b ≡ n.to_text b 4 (int_sub (length s) (2 ^ 16))
unfolding get_service
get_service-long n laws b s after long hs c =
    bind_ok (length s) _ (laws.got_short b (0 ∷ 1 ∷ []) (s ++ after) (length s) c hs)
      (ap (n.to_text b 4) (short_to_int-long (length s) long hs))

-- A service of 2 ^ 15 to 2 ^ 16 - 1 bytes is let pass by `encode`, and `getService` then asks for a text
-- of a negative length, 2 ^ 16 too small.
pub service_misread :
    (n : Netty) (laws : Documented n) (service method : n.Text)
    (tracing metadata arrived : n.ByteBuf)
    → 2 ^ 15 ≤ length (n.utf8 service)
    → length (n.utf8 service) < 2 ^ 16
    → length (n.utf8 method) < 2 ^ 16
    → n.content arrived
      ≡ frame_bytes (n.utf8 service) (n.utf8 method) (unread n tracing) (unread n metadata)
    → ((frame : n.ByteBuf) × (encode n service method tracing metadata
          ≡ ok (frame, n.read_all tracing))
        × (n.content frame ≡ n.content arrived))
      × (let size = int_sub (length (n.utf8 service)) (2 ^ 16) in
          (get_service n arrived ≡ n.to_text arrived 4 size) × (is_negative size ≡ true))
service_misread n laws service method tracing metadata arrived long hs hm c =
    let (frame, e, c') = content-encode n laws service method tracing metadata hs hm in
    (
      (frame, e, c' ∙ sym c),
      (get_service-long n laws arrived (n.utf8 service) _ long hs c, ground arith),
    )

short_bytes_of-wrap : (k : ℕ) → short_bytes_of (2 ^ 16 + k) ≡ short_bytes_of k
short_bytes_of-wrap k = ap₂ (λ a b. a ∷ b ∷ []) (omega arith) (omega arith)

frame_bytes-cut :
    (s m t d : Bytes) (more : ℕ)
    → length t ≡ 2 ^ 16 + more
    → length (take more t) ≡ more
    → frame_bytes s m t d ≡ frame_bytes s m (take more t) (drop more t ++ d)
frame_bytes-cut s m t d more ht size =
    ap
      (λ rest.
        short_bytes_of version
        ++ (short_bytes_of (length s) ++ (s ++ (short_bytes_of (length m) ++ (m ++ rest)))))
      (ap₂ (λ size rest. size ++ rest)
        (ap short_bytes_of ht ∙ (short_bytes_of-wrap more ∙ ap short_bytes_of (sym size)))
        (ap (λ l. l ++ d) (sym (take-append-drop more t)) ∙ append_assoc (take more t) _ d))

-- The length of the tracing is not checked: of 2 ^ 16 bytes and up to 2 ^ 15 - 1 more, a receiver reads
-- only those beyond 2 ^ 16 as the tracing, as many from the front, and takes the others for the
-- beginning of the metadata.
tracing_cut :
    (n : Netty) (laws : Documented n) (service method : n.Text)
    (tracing metadata frame after arrived : n.ByteBuf) (more : ℕ)
    → length (n.utf8 service) < 2 ^ 15
    → length (n.utf8 method) < 2 ^ 15
    → length (unread n tracing) ≡ 2 ^ 16 + more
    → more < 2 ^ 15
    → length (unread n metadata) < 2 ^ 29
    → encode n service method tracing metadata ≡ ok (frame, after)
    → n.content arrived ≡ n.content frame
    → n.reader_index arrived ≡ 0
    → ((t : n.ByteBuf) × (get_tracing n arrived ≡ ok t)
        × (unread n t ≡ take more (unread n tracing)))
      × ((d : n.ByteBuf) × (get_metadata n arrived ≡ ok d)
          × (unread n d ≡ drop more (unread n tracing) ++ unread n metadata))
tracing_cut n laws service method tracing metadata frame after b more hs hm ht hk hd e same r0 =
    let (frame', e', c') =
      content-encode n laws service method tracing metadata (omega arith) (omega arith) in
    let s = n.utf8 service in
    let m = n.utf8 method in
    let t = unread n tracing in
    let d = unread n metadata in
    let size : length (take more t) ≡ more = length-take more t (omega (arith, ht)) in
    let c = same ∙ (frames_equal n e e' ∙ (c' ∙ frame_bytes-cut s m t d more ht size)) in
    (
      tracing-frame n laws b s m (take more t) (drop more t ++ d) c hs hm (omega (arith, size)),
      metadata-frame_whole n laws b s m (take more t) (drop more t ++ d) c hs hm
          (omega (arith, size)) r0
          (omega (arith, length-append (drop more t) d, length-drop more t, ht)),
    )
