-- ===== src/Runtime/Tracing/Totality.antt =====
-- The loop that reads a map ends.
use rsocket_rpc_kotlin.Base.{
  ℕ, zero, suc, ◌+◌, ◌≤◌, ◌<◌, [], some, ◌≡◌, refl, ap, ◌∙◌, arith, length, Bool-cases, inl, inr,
  ◌⊎◌,
}
use rsocket_rpc_kotlin.Runtime.Common.{Result, ok, threw, ◌>>=◌, short_to_int, is_positive}
use rsocket_rpc_kotlin.Runtime.Netty.{Netty, Documented, unread}
use rsocket_rpc_kotlin.Runtime.Metadata.Frame.{readable_bytes-unread}
use rsocket_rpc_kotlin.Runtime.Tracing.{
  StringMap, put_text, read_entry, read_entries, byte_buf_to_map,
}
use rsocket_rpc_kotlin.Runtime.Tracing.Rounds.{
  read_entries-done, read_entries-round, read_entries-threw,
}

bind_inverted {ℓ κ} :
    {E : Type 0} {A : Type ℓ} {B : Type κ} (m : Result E A) (f : A → Result E B) (b : B)
    → (m >>= f) ≡ ok b
    → (a : A) × (m ≡ ok a) × (f a ≡ ok b)
bind_inverted (ok a) f b e = (a, refl, e)
bind_inverted (threw t) f b e = absurd (cc)

outcomes {ℓ} :
    {E : Type 0} {A : Type ℓ} (m : Result E A) → ((t : E) × (m ≡ threw t)) ⊎ ((a : A) × (m ≡ ok a))
outcomes (ok a) = inr (a, refl)
outcomes (threw t) = inl (t, refl)

module _ (n : Netty) (laws : Documented n) where
  -- The fuel is enough for any buffer: a round that does not throw reads four bytes.
  read_entry_shrinks :
      (b b' : n.ByteBuf) (key value : n.Text)
      → read_entry n b ≡ ok (key, value, b')
      → length (unread n b') + 4 ≤ length (unread n b)
  unfolding read_entry
  read_entry_shrinks b b' key value e =
      let ((k, b₁), e₁, f₁) = bind_inverted (n.read_short b) _ (key, value, b') e in
      let ((key', b₂), e₂, f₂) =
        bind_inverted (n.read_text b₁ (short_to_int k)) _ (key, value, b') f₁ in
      let ((v, b₃), e₃, f₃) = bind_inverted (n.read_short b₂) _ (key, value, b') f₂ in
      let ((value', b₄), e₄, f₄) =
        bind_inverted (n.read_text b₃ (short_to_int v)) _ (key, value, b') f₃ in
      let same : b₄ ≡ b' = cc in
      omega (
        arith,
        laws.reads_two_bytes b b₁ k e₁,
        laws.reads_forward b₁ b₂ (short_to_int k) key' e₂,
        laws.reads_two_bytes b₂ b₃ v e₃,
        laws.reads_forward b₃ b₄ (short_to_int v) value' e₄,
        ap (λ x. length (unread n x)) same,
      )

  read_entries_total :
      (fuel : ℕ) (b : n.ByteBuf) (map : StringMap n)
      → length (unread n b) < fuel
      → (r : Result n.Throwable (StringMap n)) × (read_entries n fuel b map ≡ some r)
  read_entries_total zero b map h = absurd (omega arith)
  read_entries_total (suc fuel) b map h = elim (Bool-cases (is_positive (n.readable_bytes b))) [
    | inr done ↦ (ok map, read_entries-done n laws fuel b map done)
    | inl more ↦ elim (outcomes (read_entry n b)) [
      | inl (t, e) ↦ (threw t, read_entries-threw n laws fuel b t map more e)
      | inr ((key, value, b'), e) ↦
          let less = read_entry_shrinks b b' key value e in
          let (r, holds) =
            read_entries_total fuel b' (put_text n key value map) (omega (arith, less)) in
          (r, read_entries-round n laws fuel b b' key value map more e ∙ holds)
    ]
  ]

  -- Reading a map ends for every buffer, with a map or with something thrown.
  pub byte_buf_to_map_total :
      (b : n.ByteBuf) → (r : Result n.Throwable (StringMap n)) × (byte_buf_to_map n b ≡ some r)
  unfolding byte_buf_to_map
  byte_buf_to_map_total b =
      read_entries_total (suc (n.readable_bytes b)) b []
        (omega (arith, readable_bytes-unread n laws b))
