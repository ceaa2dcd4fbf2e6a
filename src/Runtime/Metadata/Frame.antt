-- ===== src/Runtime/Metadata/Frame.antt =====
-- The bytes of a frame, as `encode` writes them and the getters find them.
use rsocket_rpc_kotlin.Base.{
  true, ℕ, zero, suc, ◌-◌, ◌≤◌, ◌<◌, Bytes, List, [], ◌∷◌, ◌++◌, ◌≡◌, refl, sym, ap, ◌∙◌, arith,
  length, drop, take, append_assoc, inl,
}
use rsocket_rpc_kotlin.Runtime.Common.{Result, ok, ◌>>=◌, ◌^◌}
use rsocket_rpc_kotlin.Runtime.Netty.{Netty, Documented, short_bytes_of, unread}
use rsocket_rpc_kotlin.Runtime.Metadata.{version, require_unsigned_short, write_text, encode}

abbrev pub frame_bytes : Bytes → Bytes → Bytes → Bytes → Bytes
frame_bytes service method tracing metadata =
    short_bytes_of version
    ++ (short_bytes_of (length service)
        ++ (service
            ++ (short_bytes_of (length method)
                ++ (method ++ (short_bytes_of (length tracing) ++ (tracing ++ metadata))))))

pub bind_ok {ℓ κ} :
    {E : Type 0} {A : Type ℓ} {B : Type κ} {m : Result E A} {r : Result E B} (a : A)
    (f : A → Result E B)
    → m ≡ ok a
    → f a ≡ r
    → (m >>= f) ≡ r
bind_ok a f e h = rw e h

pub length-drop {ℓ} : {A : Type ℓ} (k : ℕ) (xs : List A) → length (drop k xs) ≡ length xs - k
length-drop zero xs = omega arith
length-drop (suc k) [] = omega arith
length-drop (suc k) (x ∷ xs) = omega (arith, length-drop k xs)

take_all {ℓ} : {A : Type ℓ} (k : ℕ) (xs : List A) → length xs ≤ k → take k xs ≡ xs
take_all zero [] h = refl
take_all (suc k) [] h = refl
take_all zero (x ∷ xs) h = absurd (omega arith)
take_all (suc k) (x ∷ xs) h = ap (λ l. x ∷ l) (take_all k xs (omega arith))

pub length-take {ℓ} : {A : Type ℓ} (k : ℕ) (xs : List A) → k ≤ length xs → length (take k xs) ≡ k
length-take zero xs h = refl
length-take (suc k) [] h = absurd (omega arith)
length-take (suc k) (x ∷ xs) h = omega (arith, length-take k xs)

pub take-append-drop {ℓ} : {A : Type ℓ} (k : ℕ) (xs : List A) → take k xs ++ drop k xs ≡ xs
take-append-drop zero xs = refl
take-append-drop (suc k) [] = refl
take-append-drop (suc k) (x ∷ xs) = ap (λ l. x ∷ l) (take-append-drop k xs)

pub take_rest {ℓ} :
    {A : Type ℓ} (k : ℕ) (xs : List A) → take (length xs - k) (drop k xs) ≡ drop k xs
take_rest k xs = take_all (length xs - k) (drop k xs) (omega (arith, length-drop k xs))

-- Seven writes behind one another.
joined :
    {c₁ c₂ c₃ c₄ c₅ : Bytes} (v sl s ml m tl t d : Bytes)
    → c₁ ≡ v ++ (sl ++ s)
    → c₂ ≡ c₁ ++ (ml ++ m)
    → c₃ ≡ c₂ ++ tl
    → c₄ ≡ c₃ ++ t
    → c₅ ≡ c₄ ++ d
    → c₅ ≡ v ++ (sl ++ (s ++ (ml ++ (m ++ (tl ++ (t ++ d))))))
joined v sl s ml m tl t d e₁ e₂ e₃ e₄ e₅ = rw (e₅, e₄, e₃, e₂, e₁) (simp (append_assoc))

module _ (n : Netty) where
  module _ (laws : Documented n) where
    pub require_unsigned_short-ok : (i : ℕ) → i < 2 ^ 16 → require_unsigned_short n i ≡ ok i
    unfolding require_unsigned_short
    require_unsigned_short-ok i h = ground arith

    pub content-write_text :
        (b : n.ByteBuf) (s : n.Text)
        → n.grows b ≡ true
        → length (n.utf8 s) < 2 ^ 16
        → (b' : n.ByteBuf) × (write_text n b s ≡ ok b')
          × (n.content b' ≡ n.content b ++ (short_bytes_of (length (n.utf8 s)) ++ n.utf8 s))
          × (n.grows b' ≡ true)
    unfolding write_text
    content-write_text b s g h =
        let size = length (n.utf8 s) in
        let (short, _, g', _) = laws.written_short b size g in
        let (b', written, holds, _, g'', _) =
          laws.reserved_utf8 (n.write_short b size) s size g' (inl (omega arith)) in
        (
          b',
          rw (laws.utf8_bytes_exact s (omega arith))
              (bind_ok size _ (require_unsigned_short-ok size h) written),
          holds ∙ (rw short (append_assoc (n.content b) _ (n.utf8 s))),
          g'',
        )

    -- What `writeBytes` of a whole buffer appends.
    pub content-write_unread :
        (b s : n.ByteBuf)
        → n.grows b ≡ true
        → n.content (n.write_region b s (n.reader_index s) (n.readable_bytes s))
          ≡ n.content b ++ unread n s
    content-write_unread b s g =
        rw ((laws.written_region b s _ _ g).0, laws.readable_between s)
          (ap (λ l. n.content b ++ l) (take_rest (n.reader_index s) (n.content s)))

    pub readable_bytes-unread : (b : n.ByteBuf) → n.readable_bytes b ≡ length (unread n b)
    readable_bytes-unread b =
        laws.readable_between b ∙ sym (length-drop (n.reader_index b) (n.content b))

    -- A frame is written, with the bytes of its parts, where the strings have less than 2 ^ 16 bytes.
    pub content-encode :
        (service method : n.Text) (tracing metadata : n.ByteBuf)
        → length (n.utf8 service) < 2 ^ 16
        → length (n.utf8 method) < 2 ^ 16
        → (frame : n.ByteBuf) × (encode n service method tracing metadata
            ≡ ok (frame, n.read_all tracing))
          × (n.content frame
              ≡ frame_bytes (n.utf8 service) (n.utf8 method) (unread n tracing) (unread n metadata))
    unfolding encode
    content-encode service method tracing metadata hs hm =
        let (short, _, g, _) = laws.written_short n.buffer version laws.buffer_grows in
        let (b₁, e₁, c₁, g₁) = content-write_text (n.write_short n.buffer version) service g hs in
        let (b₂, e₂, c₂, g₂) = content-write_text b₁ method g₁ hm in
        let size = n.readable_bytes tracing in
        let (short', _, g₃, _) = laws.written_short b₂ size g₂ in
        let b₃ = n.write_short b₂ size in
        let b₄ = n.write_region b₃ tracing (n.reader_index tracing) size in
        let (_, g₄) = laws.written_region b₃ tracing (n.reader_index tracing) size g₃ in
        (
          n.write_region b₄ metadata (n.reader_index metadata) (n.readable_bytes metadata),
          bind_ok b₁ _ e₁ (bind_ok b₂ _ e₂ refl),
          joined (short_bytes_of version) (short_bytes_of (length (n.utf8 service)))
              (n.utf8 service) (short_bytes_of (length (n.utf8 method))) (n.utf8 method)
              (short_bytes_of (length (unread n tracing))) (unread n tracing) (unread n metadata)
              (c₁ ∙ (rw (short, laws.buffer_content) refl)) c₂
              (short' ∙ ap (λ k. n.content b₂ ++ short_bytes_of k) (readable_bytes-unread tracing))
              (content-write_unread b₃ tracing g₃) (content-write_unread b₄ metadata g₄),
        )
