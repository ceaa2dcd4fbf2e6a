-- ===== src/Split/General.antt =====
-- The loop over positions.
use Prim.Native.Nat.add
use mathlib.Core.Option
use native.Mathlib.Nat.{zero-add}
use rsocket_rpc_kotlin.Base.{
  ℕ, zero, suc, ◌+◌, ◌-◌, ◌<◌, ◌≤◌, Bytes, Bool, true, false, List, [], ◌∷◌, ◌++◌, Option, none,
  some, ◌==◌, ◌≡◌, refl, ap, arith, if◌then◌else◌, append_assoc, append-nil, Bool-cases, length,
  drop, take, ◌∙◌, inl, inr,
}
use rsocket_rpc_kotlin.Split.{
  split_fast, one_of, find_index, find_first_of, find_first_not_of, split_general, split,
}

drop-suc :
    (pos : ℕ) (full : Bytes) {x : ℕ} {p : Bytes} → drop pos full ≡ x ∷ p → drop (suc pos) full ≡ p
drop-suc zero [] h = cc
drop-suc zero (y ∷ full) h = cc
drop-suc (suc pos) [] h = cc
drop-suc (suc pos) (y ∷ full) h = drop-suc pos full h

-- The loops for one byte, for any test of a byte.
tokens : (ℕ → Bool) → Bytes → Option Bytes → List Bytes → List Bytes
tokens q [] none result = result
tokens q [] (some cur) result = result ++ cur ∷ []
tokens q (x ∷ p) none result = tokens q p (if q x then none else some (x ∷ [])) result
tokens q (x ∷ p) (some cur) result =
    tokens q p (if q x then none else some (cur ++ x ∷ []))
      (if q x then result ++ cur ∷ [] else result)

-- How a token ends, from the index of the next delimiter.
abbrev close_at : Bytes → Bytes → Bytes → List Bytes → Option ℕ → List Bytes
close_at delim p cur result none = result ++ (cur ++ p) ∷ []
close_at delim p cur result (some k) =
    tokens (one_of delim) (drop k p) none (result ++ (cur ++ take k p) ∷ [])

close_at-suc :
    (delim p cur : Bytes) (x : ℕ) (result : List Bytes) (o : Option ℕ)
    → close_at delim p (cur ++ x ∷ []) result o
      ≡ close_at delim (x ∷ p) cur result (Option.map suc o)
close_at-suc delim p cur x result none = rw append_assoc
close_at-suc delim p cur x result (some k) = rw append_assoc

tokens-find_index :
    (delim p cur : Bytes) (result : List Bytes)
    → tokens (one_of delim) p (some cur) result
      ≡ close_at delim p cur result (find_index true delim p)
unfolding tokens find_index
tokens-find_index delim [] cur result = rw append-nil
tokens-find_index delim (x ∷ p) cur result = elim (Bool-cases (one_of delim x)) [
  | inl e ↦ rw (e, append-nil) (rw (e, tokens))
  | inr e ↦ rw e (
      tokens-find_index delim p (cur ++ x ∷ []) result
      ∙ close_at-suc delim p cur x result (find_index true delim p))
]

map-add_suc :
    (pos : ℕ) (o : Option ℕ)
    → Option.map (λ i. pos + i) (Option.map suc o) ≡ Option.map (λ i. suc pos + i) o
map-add_suc pos none = refl
map-add_suc pos (some i) = ap some (omega arith)

-- A delimiter at `pos` is stepped over.
find_first_not_of-suc :
    (full delim : Bytes) (pos : ℕ) {x : ℕ} {p : Bytes}
    → drop pos full ≡ x ∷ p
    → one_of delim x ≡ true
    → find_first_not_of full delim pos ≡ find_first_not_of full delim (suc pos)
unfolding find_first_not_of
find_first_not_of-suc full delim pos {p} e d =
    rw (e, drop-suc pos full e, d) (map-add_suc pos (find_index false delim p))

find_first_not_of_self :
    (full delim : Bytes) (pos : ℕ) {x : ℕ} {p : Bytes}
    → drop pos full ≡ x ∷ p
    → one_of delim x ≡ false
    → find_first_not_of full delim pos ≡ some pos
unfolding find_first_not_of
find_first_not_of_self full delim pos e d = rw (e, d) (ap some (omega arith))

find_first_of-suc :
    (full delim : Bytes) (pos : ℕ) {x : ℕ} {p : Bytes}
    → drop pos full ≡ x ∷ p
    → one_of delim x ≡ false
    → find_first_of full delim pos ≡ Option.map (λ i. suc pos + i) (find_index true delim p)
unfolding find_first_of
find_first_of-suc full delim pos {p} e d = rw (e, d) (map-add_suc pos (find_index true delim p))

drop-nil : (k : ℕ) → drop {A = ℕ} k [] ≡ []
drop-nil zero = refl
drop-nil (suc k) = refl

drop-add :
    (pos k : ℕ) (full : Bytes) {p : Bytes} → drop pos full ≡ p → drop (pos + k) full ≡ drop k p
drop-add zero k full e = rw (zero-add, e)
drop-add (suc pos) k [] e = rw (drop-nil (suc pos + k), ← e, drop-nil k)
drop-add (suc pos) k (y ∷ full) e = rw add.suc (drop-add pos k full e)

length-drop : (k : ℕ) (p : Bytes) → length (drop k p) ≤ length p
length-drop zero p = omega arith
length-drop (suc k) [] = omega arith
length-drop (suc k) (x ∷ p) = omega (arith, length-drop k p)

-- A round that begins at a token, from the index at which the token ends.
split_general-some :
    (fuel : ℕ) (full delim p : Bytes) (x pos : ℕ) (result : List Bytes) (o : Option ℕ)
    → drop pos full ≡ x ∷ p
    → find_first_of full delim pos ≡ Option.map (λ i. suc pos + i) o
    → ((k : ℕ) (r : List Bytes)
        → split_general fuel full delim (find_first_not_of full delim (suc pos + k)) r
          ≡ some (tokens (one_of delim) (drop k p) none r))
    → split_general (suc fuel) full delim (some pos) result
      ≡ some (close_at delim p (x ∷ []) result o)
unfolding split_general
split_general-some fuel full delim p x pos result none e f ih = rw (f, split_general) (rw e)
split_general-some fuel full delim p x pos result (some k) e f ih =
    rw (f, split_general) (rw (e, distance pos k) (ih k (result ++ (x ∷ take k p) ∷ [])))
  where
    distance : (pos k : ℕ) → suc pos + k - pos ≡ suc k
    distance pos k = omega arith

-- From any position, with fuel for what is left, the loop makes the tokens of the rest.
split_general-tokens :
    (fuel : ℕ) (full delim p : Bytes) (pos : ℕ) (result : List Bytes)
    → drop pos full ≡ p
    → length p < fuel
    → split_general fuel full delim (find_first_not_of full delim pos) result
      ≡ some (tokens (one_of delim) p none result)
unfolding tokens
split_general-tokens zero full delim p pos result e lt = absurd (omega arith)
split_general-tokens (suc fuel) full delim [] pos result e lt =
    unfold split_general find_first_not_of in rw e refl
split_general-tokens (suc fuel) full delim (x ∷ p) pos result e lt =
    elim (Bool-cases (one_of delim x)) [
      | inl d ↦
          rw (find_first_not_of-suc full delim pos e d, d)
            (split_general-tokens (suc fuel) full delim p (suc pos) result (drop-suc pos full e)
              (omega arith))
      | inr d ↦
          rw
            (
              find_first_not_of_self full delim pos e d,
              d,
              tokens-find_index delim p (x ∷ []) result,
            )
            (split_general-some fuel full delim p x pos result _ e
              (find_first_of-suc full delim pos e d)
              (λ k r.
                split_general-tokens fuel full delim (drop k p) (suc pos + k) r
                  (drop-add (suc pos) k full (drop-suc pos full e))
                  (omega (arith, length-drop k p))))
    ]

split_fast-tokens :
    (c : ℕ) (p : Bytes) (mode : Option Bytes) (result : List Bytes)
    → split_fast c p mode result ≡ tokens (one_of (c ∷ [])) p mode result
unfolding split_fast tokens one_of
split_fast-tokens c [] none result = refl
split_fast-tokens c [] (some cur) result = refl
split_fast-tokens c (x ∷ p) none result = elim (Bool-cases (x == c)) [
  | inl e ↦ rw e (split_fast-tokens c p none result)
  | inr e ↦ rw e (split_fast-tokens c p (some (x ∷ [])) result)
]
split_fast-tokens c (x ∷ p) (some cur) result = elim (Bool-cases (x == c)) [
  | inl e ↦ rw e (split_fast-tokens c p none (result ++ cur ∷ []))
  | inr e ↦ rw e (split_fast-tokens c p (some (cur ++ x ∷ [])) result)
]

-- For a delimiter of one byte the pointer loops return what the loop over positions returns, which
-- ends within one round for each byte and one more.
pub split_general-split_fast :
    (full : Bytes) (c fuel : ℕ) (result : List Bytes)
    → length full < fuel
    → split_general fuel full (c ∷ []) (find_first_not_of full (c ∷ []) 0) result
      ≡ some (split_fast c full none result)
split_general-split_fast full c fuel result lt =
    rw split_fast-tokens (split_general-tokens fuel full (c ∷ []) full 0 result refl lt)

-- `Split` returns, whatever the delimiters are.
pub split_total : (full delim : Bytes) → (parts : List Bytes) × (split full delim ≡ some parts)
unfolding split
split_total full [] = (_, split_general-tokens _ full [] full 0 [] refl (omega arith))
split_total full (c ∷ []) = (_, refl)
split_total full (c ∷ d ∷ delim) =
    (_, split_general-tokens _ full (c ∷ d ∷ delim) full 0 [] refl (omega arith))
