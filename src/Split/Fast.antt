-- ===== src/Split/Fast.antt =====
-- What the loops for a delimiter of one byte return.
use mathlib.Core.List.{flatten}
use rsocket_rpc_kotlin.Base.{
  ℕ, Bytes, codes, List, [], ◌∷◌, ◌++◌, Option, none, some, ◌==◌, ◌≡◌, ◌≢◌, refl, sym, ap, ◌∙◌,
  true, arith, All, All-append, Lacks, if◌then◌else◌, append_assoc, append-nil, Bool-cases, inl,
  inr,
}
use rsocket_rpc_kotlin.Split.{split_fast, split}

test_split : split (codes "\n a\n\nb\n") (codes "\n") ≡ some (codes " a" ∷ codes "b" ∷ [])
unfolding split
test_split = refl

test_split_general : split (codes ", a, b") (codes ", ") ≡ some (codes "a" ∷ codes "b" ∷ [])
unfolding split
test_split_general = refl

-- A text without one byte.
abbrev pub remove : ℕ → Bytes → Bytes
remove c [] = []
remove c (x ∷ s) = let rest = remove c s in if x == c then rest else x ∷ rest

-- What a text is if it was made by the loops.
abbrev pub IsToken : ℕ → Bytes → Type 0
IsToken c t = (t ≢ []) × Lacks c t

abbrev current : Option Bytes → Bytes
current none = []
current (some cur) = cur

abbrev pub IsCurrent : ℕ → Option Bytes → Type 0
IsCurrent c none = Unit
IsCurrent c (some cur) = IsToken c cur

append-ne-nil : (cur : Bytes) (x : ℕ) → cur ++ x ∷ [] ≢ []
append-ne-nil [] x h = cc
append-ne-nil (y ∷ cur) x h = cc

snoc-IsToken : (c x : ℕ) (cur : Bytes) → Lacks c cur → x ≢ c → IsToken c (cur ++ x ∷ [])
snoc-IsToken c x cur l h = (append-ne-nil cur x, All-append _ cur (x ∷ []) l (h, tt))

next-IsCurrent :
    (c x : ℕ) (cur : Bytes)
    → Lacks c cur
    → IsCurrent c (if x == c then none else some (cur ++ x ∷ []))
next-IsCurrent c x cur l = elim (Bool-cases (x == c)) [
  | inl e ↦ rw e tt
  | inr e ↦ rw e (snoc-IsToken c x cur l (ground arith))
]

pub split_fast-IsToken :
    (c : ℕ) (p : Bytes) (mode : Option Bytes) (result : List Bytes)
    → IsCurrent c mode
    → All (IsToken c) result
    → All (IsToken c) (split_fast c p mode result)
unfolding split_fast
split_fast-IsToken c [] none result hc hr = hr
split_fast-IsToken c [] (some cur) result hc hr = All-append _ result (cur ∷ []) hr (hc, tt)
split_fast-IsToken c (x ∷ p) none result hc hr =
    split_fast-IsToken c p _ result (next-IsCurrent c x [] tt) hr
split_fast-IsToken c (x ∷ p) (some cur) result hc hr = elim (Bool-cases (x == c)) [
  | inl e ↦ rw e (
      split_fast-IsToken c p none (result ++ cur ∷ []) tt
        (All-append _ result (cur ∷ []) hr (hc, tt)))
  | inr e ↦ rw e (
      split_fast-IsToken c p (some (cur ++ x ∷ [])) result
        (snoc-IsToken c x cur hc.1 (ground arith)) hr)
]

flatten-append : (xs ys : List Bytes) → flatten (xs ++ ys) ≡ flatten xs ++ flatten ys
unfolding flatten
flatten-append [] ys = refl
flatten-append (x ∷ xs) ys = simp (flatten-append xs ys, append_assoc)

flatten-split_fast :
    (c : ℕ) (p : Bytes) (mode : Option Bytes) (result : List Bytes)
    → flatten (split_fast c p mode result) ≡ flatten result ++ (current mode ++ remove c p)
unfolding split_fast flatten
flatten-split_fast c [] none result = sym (append-nil _)
flatten-split_fast c [] (some cur) result = simp (flatten-append, append-nil)
flatten-split_fast c (x ∷ p) none result = elim (Bool-cases (x == c)) [
  | inl e ↦ rw e (flatten-split_fast c p none result)
  | inr e ↦ rw e (flatten-split_fast c p (some (x ∷ [])) result)
]
flatten-split_fast c (x ∷ p) (some cur) result = elim (Bool-cases (x == c)) [
  | inl e ↦ rw e (simp (flatten-split_fast c p none, flatten-append, append_assoc, append-nil))
  | inr e ↦ rw e (simp (flatten-split_fast c p (some (cur ++ x ∷ [])), append_assoc))
]

-- The text read from the left: the byte is skipped where a part would begin, and a part goes on up to
-- the next such byte or to the end of the text.
pub data Splits (c : ℕ) : Bytes → List Bytes → Type 0 where
  nothing : Splits c [] []
  skipped : {s : Bytes} {parts : List Bytes} → Splits c s parts → Splits c (c ∷ s) parts
  last_part : {t : Bytes} → IsToken c t → Splits c t (t ∷ [])
  part :
      {t s : Bytes} {parts : List Bytes}
      → IsToken c t
      → Splits c s parts
      → Splits c (t ++ c ∷ s) (t ∷ parts)

-- The results are only appended to.
split_fast-append :
    (c : ℕ) (p : Bytes) (mode : Option Bytes) (result : List Bytes)
    → split_fast c p mode result ≡ result ++ split_fast c p mode []
unfolding split_fast
split_fast-append c [] none result = sym (append-nil result)
split_fast-append c [] (some cur) result = refl
split_fast-append c (x ∷ p) none result = split_fast-append c p _ result
split_fast-append c (x ∷ p) (some cur) result = elim (Bool-cases (x == c)) [
  | inl e ↦ rw e (
      split_fast-append c p none (result ++ cur ∷ [])
      ∙ (append_assoc result (cur ∷ []) _
          ∙ ap (λ l. result ++ l) (sym (split_fast-append c p none (cur ∷ [])))))
  | inr e ↦ rw e (split_fast-append c p (some (cur ++ x ∷ [])) result)
]

equal_byte : (x c : ℕ) → (x == c) ≡ true → x ≡ c
equal_byte x c h = ground arith

split_fast-Splits :
    (c : ℕ) (p : Bytes) (mode : Option Bytes)
    → IsCurrent c mode
    → Splits c (current mode ++ p) (split_fast c p mode [])
unfolding split_fast
split_fast-Splits c [] none h = nothing
split_fast-Splits c [] (some cur) h = rw (append-nil cur) (last_part h)
split_fast-Splits c (x ∷ p) none h = elim (Bool-cases (x == c)) [
  | inl e ↦ rw (e, equal_byte x c e) (skipped (split_fast-Splits c p none tt))
  | inr e ↦ rw e (split_fast-Splits c p (some (x ∷ [])) (snoc-IsToken c x [] tt (ground arith)))
]
split_fast-Splits c (x ∷ p) (some cur) h = elim (Bool-cases (x == c)) [
  | inl e ↦
      rw (e, equal_byte x c e, split_fast-append c p none (cur ∷ []))
        (part h (split_fast-Splits c p none tt))
  | inr e ↦
      rw (e, sym (append_assoc cur (x ∷ []) p))
        (split_fast-Splits c p (some (cur ++ x ∷ [])) (snoc-IsToken c x cur h.1 (ground arith)))
]

-- `Split` at one byte ends, and returns the parts of the text between these bytes, in order: none is
-- empty or holds the byte, each begins where the text begins or behind the byte, and goes on up to the
-- next such byte or to the end of the text. Together they make the text without that byte.
pub split_lem :
    (full : Bytes) (c : ℕ)
    → (parts : List Bytes) × (split full (c ∷ []) ≡ some parts)
      × Splits c full parts
      × All (IsToken c) parts
      × (flatten parts ≡ remove c full)
unfolding split flatten
split_lem full c = (
  split_fast c full none [],
  refl,
  split_fast-Splits c full none tt,
  split_fast-IsToken c full none [] tt tt,
  flatten-split_fast c full none [],
)
