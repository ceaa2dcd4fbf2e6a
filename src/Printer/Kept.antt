-- ===== src/Printer/Kept.antt =====
-- The variables behind statements, and those that statements leave alone.
use text.Mathlib.TextEquality.{eq_iff}
use rsocket_rpc_kotlin.Base.{
  String, Bytes, Bool, true, false, List, [], ◌∷◌, ◌++◌, some, str_eq, not, ◌&&◌, ◌≡◌, refl, sym,
  ap, arith, ◌∙◌, append_assoc,
}
use rsocket_rpc_kotlin.Printer.{
  Vars, put, get, Action, assign, print, print_with, print_raw, indent, outdent, calls, each,
}
use rsocket_rpc_kotlin.Printer.Closed.{contains, and_left, and_right, and_intro}
use rsocket_rpc_kotlin.Printer.Closes.{get-put}

-- The variables as statements leave them.
unfoldable pub variables_after : List Action → Vars → Vars
variables_after [] m = m
variables_after (assign j w ∷ as') m = variables_after as' (put j w m)
variables_after (print t ∷ as') m = variables_after as' m
variables_after (print_with t j w ∷ as') m = variables_after as' m
variables_after (print_raw t ∷ as') m = variables_after as' m
variables_after (indent ∷ as') m = variables_after as' m
variables_after (outdent ∷ as') m = variables_after as' m

-- No statement assigns one of the keys.
unfoldable pub keeps : List String → List Action → Bool
keeps ks [] = true
keeps ks (assign j w ∷ as') = not (contains ks j) && keeps ks as'
keeps ks (print t ∷ as') = keeps ks as'
keeps ks (print_with t j w ∷ as') = keeps ks as'
keeps ks (print_raw t ∷ as') = keeps ks as'
keeps ks (indent ∷ as') = keeps ks as'
keeps ks (outdent ∷ as') = keeps ks as'

pub record Keeps (ks : List String) (xs : List Action) : Type 0 where
  pub holds : keeps ks xs ≡ true

keeps-append :
    (ks : List String) (xs ys : List Action)
    → keeps ks xs ≡ true
    → keeps ks ys ≡ true
    → keeps ks (xs ++ ys) ≡ true
unfolding keeps
keeps-append ks [] ys hx hy = hy
keeps-append ks (assign j w ∷ xs) ys hx hy =
    and_intro _ _ (and_left _ _ hx)
      (keeps-append ks xs ys (and_right (not (contains ks j)) _ hx) hy)
keeps-append ks (print t ∷ xs) ys hx hy = keeps-append ks xs ys hx hy
keeps-append ks (print_with t j w ∷ xs) ys hx hy = keeps-append ks xs ys hx hy
keeps-append ks (print_raw t ∷ xs) ys hx hy = keeps-append ks xs ys hx hy
keeps-append ks (indent ∷ xs) ys hx hy = keeps-append ks xs ys hx hy
keeps-append ks (outdent ∷ xs) ys hx hy = keeps-append ks xs ys hx hy

pub Keeps-append :
    {ks : List String} {xs ys : List Action} → Keeps ks xs → Keeps ks ys → Keeps ks (xs ++ ys)
Keeps-append {ks} {xs} {ys} f g = record { holds = keeps-append ks xs ys f.holds g.holds }

pub Keeps-nil : {ks : List String} → Keeps ks []
unfolding keeps
Keeps-nil = record { holds = refl }

pub Keeps-each :
    {A : Type 0} {ks : List String} {body : A → List Action} (xs : List A)
    → ((x : A) → Keeps ks (body x))
    → Keeps ks (each body xs)
unfolding each
Keeps-each [] h = Keeps-nil
Keeps-each (x ∷ xs) h = Keeps-append (h x) (Keeps-each xs h)

other :
    (ks : List String) (j k : String)
    → contains ks k ≡ true
    → not (contains ks j) ≡ true
    → str_eq j k ≡ false
other ks j k h n = ground (arith, eq_iff j k)

pub get-variables_after :
    (ks : List String) (k : String) (xs : List Action) (m : Vars)
    → contains ks k ≡ true
    → keeps ks xs ≡ true
    → get k (variables_after xs m) ≡ get k m
unfolding keeps variables_after
get-variables_after ks k [] m h e = refl
get-variables_after ks k (assign j w ∷ xs) m h e =
    get-variables_after ks k xs (put j w m) h (and_right (not (contains ks j)) _ e)
    ∙ (rw (get-put k j w m, other ks j k h (and_left _ _ e)) refl)
get-variables_after ks k (print t ∷ xs) m h e = get-variables_after ks k xs m h e
get-variables_after ks k (print_with t j w ∷ xs) m h e = get-variables_after ks k xs m h e
get-variables_after ks k (print_raw t ∷ xs) m h e = get-variables_after ks k xs m h e
get-variables_after ks k (indent ∷ xs) m h e = get-variables_after ks k xs m h e
get-variables_after ks k (outdent ∷ xs) m h e = get-variables_after ks k xs m h e

pub variables_after-append :
    (xs ys : List Action) (m : Vars)
    → variables_after (xs ++ ys) m ≡ variables_after ys (variables_after xs m)
unfolding variables_after
variables_after-append [] ys m = refl
variables_after-append (assign j w ∷ xs) ys m = variables_after-append xs ys (put j w m)
variables_after-append (print t ∷ xs) ys m = variables_after-append xs ys m
variables_after-append (print_with t j w ∷ xs) ys m = variables_after-append xs ys m
variables_after-append (print_raw t ∷ xs) ys m = variables_after-append xs ys m
variables_after-append (indent ∷ xs) ys m = variables_after-append xs ys m
variables_after-append (outdent ∷ xs) ys m = variables_after-append xs ys m

-- A value that the first statements give and the others keep.
pub get-Keeps :
    {ks : List String} {ys : List Action} (k : String) (xs : List Action) (v : Bytes)
    → contains ks k ≡ true
    → Keeps ks ys
    → get k (variables_after xs []) ≡ some v
    → get k (variables_after (xs ++ ys) []) ≡ some v
get-Keeps {ks} {ys} k xs v h f e =
    rw (variables_after-append xs ys [])
      (get-variables_after ks k ys (variables_after xs []) h f.holds ∙ e)

-- A value that statements give whatever stands before them, and that those behind them keep.
pub get-set :
    {ks : List String} {zs : List Action} (k : String) (ws xs ys : List Action) (v : Bytes)
    → contains ks k ≡ true
    → Keeps ks zs
    → ((m : Vars) → get k (variables_after ys m) ≡ some v)
    → get k (variables_after (ws ++ (xs ++ (ys ++ zs))) []) ≡ some v
get-set {ks} {zs} k ws xs ys v h f e =
    rw
      (
        variables_after-append ws (xs ++ (ys ++ zs)) [],
        variables_after-append xs (ys ++ zs) (variables_after ws []),
        variables_after-append ys zs (variables_after xs (variables_after ws [])),
      )
      (get-variables_after ks k zs _ h f.holds ∙ e (variables_after xs (variables_after ws [])))

-- The calls of statements in sequence.
pub calls-append :
    (xs ys : List Action) (m : Vars)
    → calls (xs ++ ys) m ≡ calls xs m ++ calls ys (variables_after xs m)
unfolding calls variables_after
calls-append [] ys m = refl
calls-append (assign j w ∷ xs) ys m = calls-append xs ys (put j w m)
calls-append (print t ∷ xs) ys m = rw (calls-append xs ys m) refl
calls-append (print_with t j w ∷ xs) ys m = rw (calls-append xs ys m) refl
calls-append (print_raw t ∷ xs) ys m = rw (calls-append xs ys m) refl
calls-append (indent ∷ xs) ys m = rw (calls-append xs ys m) refl
calls-append (outdent ∷ xs) ys m = rw (calls-append xs ys m) refl

pub each-append :
    {A : Type 0} (body : A → List Action) (xs ys : List A)
    → each body (xs ++ ys) ≡ each body xs ++ each body ys
unfolding each
each-append body [] ys = refl
each-append body (x ∷ xs) ys =
    ap (λ l. body x ++ l) (each-append body xs ys) ∙ sym (append_assoc (body x) _ _)
