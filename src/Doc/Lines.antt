-- ===== src/Doc/Lines.antt =====
-- The lines of a documentation comment.
use rsocket_rpc_kotlin.Base.{
  ℕ, Bytes, codes, List, [], ◌∷◌, ◌++◌, Option, none, some, ◌==◌, ◌≡◌, ◌≢◌, refl, arith, All,
  All-append, append_assoc, Bool-cases, inl, inr,
}
use rsocket_rpc_kotlin.Split.{split_fast, split}
use rsocket_rpc_kotlin.Split.Fast.{IsToken, split_fast-IsToken}
use rsocket_rpc_kotlin.Doc.{pop_empty_lines, get_doc_lines, escape_kotlindoc}
use rsocket_rpc_kotlin.Doc.Escape.{Avoids, escape_kotlindoc_safe}

-- A text that is put behind the byte 0 or any other that is not `a`.
Avoids-behind : (a b q r : ℕ) (s : Bytes) → r ≢ a → Avoids a b q s → Avoids a b r s
Avoids-behind a b q r [] h _ = tt
Avoids-behind a b q r (c ∷ s) h (_, rest) = (ground arith, rest)

module _ (a b : ℕ) (h : 0 ≢ a) where
  Avoids-prefix : (q : ℕ) (s t : Bytes) → Avoids a b q (s ++ t) → Avoids a b q s
  Avoids-prefix q [] t _ = tt
  Avoids-prefix q (c ∷ s) t (hc, hs) = (hc, Avoids-prefix c s t hs)

  Avoids-suffix :
      (q : ℕ) (s : Bytes) (x : ℕ) (t : Bytes) → Avoids a b q (s ++ x ∷ t) → Avoids a b 0 t
  Avoids-suffix q [] x t (_, ht) = Avoids-behind a b x 0 t h ht
  Avoids-suffix q (c ∷ s) x t (_, hs) = Avoids-suffix c s x t hs

  -- The parts of a text that avoids a pair avoid it.
  split_fast-Avoids :
      (d : ℕ) (p cur : Bytes) (mode : Option Bytes) (result : List Bytes)
      → Avoids a b 0 (elim mode [ none ↦ p | some cur ↦ cur ++ p ])
      → All (Avoids a b 0) result
      → All (Avoids a b 0) (split_fast d p mode result)
  unfolding split_fast
  split_fast-Avoids d [] cur none result hp hr = hr
  split_fast-Avoids d [] _ (some cur) result hp hr =
      All-append _ result (cur ∷ []) hr (Avoids-prefix 0 cur [] hp, tt)
  split_fast-Avoids d (x ∷ p) cur none result hp hr = elim (Bool-cases (x == d)) [
    | inl e ↦ rw e (split_fast-Avoids d p cur none result (Avoids-suffix 0 [] x p hp) hr)
    | inr e ↦ rw e (split_fast-Avoids d p cur (some (x ∷ [])) result hp hr)
  ]
  split_fast-Avoids d (x ∷ p) _ (some cur) result hp hr = elim (Bool-cases (x == d)) [
    | inl e ↦ rw e (
        split_fast-Avoids d p cur none (result ++ cur ∷ []) (Avoids-suffix 0 cur x p hp)
          (All-append _ result (cur ∷ []) hr (Avoids-prefix 0 cur (x ∷ p) hp, tt)))
    | inr e ↦ rw e (split_fast-Avoids d p cur (some (cur ++ x ∷ [])) result (rw append_assoc hp) hr)
  ]

pop_empty_lines_id :
    (d : ℕ) (lines : List Bytes) → All (IsToken d) lines → pop_empty_lines lines ≡ lines
unfolding pop_empty_lines
pop_empty_lines_id d [] h = refl
pop_empty_lines_id d ([] ∷ lines) (h, _) = absurd (h.0 refl)
pop_empty_lines_id d ((c ∷ line) ∷ lines) (_, h) = rw (pop_empty_lines_id d lines h)

-- A line as the comment may hold it.
pub record IsDocLine (line : Bytes) : Type 0 where
  pub token : IsToken b'\n' line
  pub no_close : Avoids b'*' b'/' 0 line
  pub no_open : Avoids b'/' b'*' 0 line

collect-IsDocLine :
    (lines : List Bytes)
    → All (IsToken b'\n') lines
    → All (Avoids b'*' b'/' 0) lines
    → All (Avoids b'/' b'*' 0) lines
    → All IsDocLine lines
collect-IsDocLine [] _ _ _ = tt
collect-IsDocLine (line ∷ lines) (t, ts) (c, cs) (o, os) =
    (record { token = t; no_close = c; no_open = o }, collect-IsDocLine lines ts cs os)

-- For a comment that is not empty, the lines are those that `Split` makes of the escaped comment:
-- the loop that drops empty lines at the end finds none.
pub get_doc_lines-split :
    (comments : Bytes)
    → comments ≢ []
    → split (escape_kotlindoc comments) (codes "\n") ≡ some (get_doc_lines comments)
unfolding get_doc_lines
get_doc_lines-split [] h = absurd (h refl)
get_doc_lines-split (c ∷ comments) _ =
    let s = escape_kotlindoc (c ∷ comments) in
    rw (
      pop_empty_lines_id b'\n' (split_fast b'\n' s none [])
        (split_fast-IsToken b'\n' s none [] tt tt))

-- Every line is non-empty, without a line break, and holds neither `*/` nor `/*`.
pub get_doc_lines-IsDocLine : (comments : Bytes) → All IsDocLine (get_doc_lines comments)
unfolding get_doc_lines
get_doc_lines-IsDocLine [] = tt
get_doc_lines-IsDocLine (c ∷ comments) =
    let s = escape_kotlindoc (c ∷ comments) in
    let tokens = split_fast-IsToken b'\n' s none [] tt tt in
    let (close, open', _) = escape_kotlindoc_safe (c ∷ comments) 0 (omega arith) in
    rw (pop_empty_lines_id b'\n' (split_fast b'\n' s none []) tokens) (
      collect-IsDocLine _ tokens
        (split_fast-Avoids b'*' b'/' (omega arith) b'\n' s [] none []
          (Avoids-behind _ _ b'*' 0 s (omega arith) close) tt)
        (split_fast-Avoids b'/' b'*' (omega arith) b'\n' s [] none [] open' tt))
