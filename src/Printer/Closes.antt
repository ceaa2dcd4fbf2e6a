-- ===== src/Printer/Closes.antt =====
-- Statements in sequence, from variables that are set to variables that are set, and the texts that
-- they spell.
use text.Mathlib.TextEquality.{eq_iff}
use rsocket_rpc_kotlin.Base.{
  String, Bytes, codes, true, List, [], ◌∷◌, ◌++◌, Option, some, str_eq, ◌||◌, if◌then◌else◌, ◌≡◌,
  refl, arith, Bool-cases, inl, inr,
}
use rsocket_rpc_kotlin.Printer.{
  Vars, put, get, Action, assign, print, print_with, print_raw, indent, outdent, calls, each,
}
use rsocket_rpc_kotlin.Printer.Spell.{parts, value, expand_parts, expand, spell, ◌>>=◌}
use rsocket_rpc_kotlin.Printer.Closed.{
  contains, closed_parts, closed_template, closed, keys_after, Sub, Sub-cons, Sub-keys_after,
  closed_mono, and_left, and_right, and_intro,
}

-- With the variables `a` set, no template misses one, and `b` are set behind the statements.
pub record Closes (a : List String) (xs : List Action) (b : List String) : Type 0 where
  pub holds : closed a xs ≡ true
  pub sets : Sub b (keys_after a xs)

closed-append :
    (a : List String) (xs ys : List Action)
    → closed a xs ≡ true
    → closed (keys_after a xs) ys ≡ true
    → closed a (xs ++ ys) ≡ true
unfolding closed keys_after
closed-append a [] ys hx hy = hy
closed-append a (assign j v ∷ xs) ys hx hy = closed-append (j ∷ a) xs ys hx hy
closed-append a (print t ∷ xs) ys hx hy =
    and_intro _ _ (and_left _ _ hx)
      (closed-append a xs ys (and_right (closed_template a t) _ hx) hy)
closed-append a (print_with t k v ∷ xs) ys hx hy =
    and_intro _ _ (and_left _ _ hx)
      (closed-append a xs ys (and_right (closed_template (k ∷ []) t) _ hx) hy)
closed-append a (print_raw t ∷ xs) ys hx hy =
    and_intro _ _ (and_left _ _ hx)
      (closed-append a xs ys (and_right (closed_template [] t) _ hx) hy)
closed-append a (indent ∷ xs) ys hx hy = closed-append a xs ys hx hy
closed-append a (outdent ∷ xs) ys hx hy = closed-append a xs ys hx hy

keys_after-append :
    (a : List String) (xs ys : List Action)
    → keys_after a (xs ++ ys) ≡ keys_after (keys_after a xs) ys
unfolding keys_after
keys_after-append a [] ys = refl
keys_after-append a (assign j v ∷ xs) ys = keys_after-append (j ∷ a) xs ys
keys_after-append a (print t ∷ xs) ys = keys_after-append a xs ys
keys_after-append a (print_with t k v ∷ xs) ys = keys_after-append a xs ys
keys_after-append a (print_raw t ∷ xs) ys = keys_after-append a xs ys
keys_after-append a (indent ∷ xs) ys = keys_after-append a xs ys
keys_after-append a (outdent ∷ xs) ys = keys_after-append a xs ys

Sub-keys_after_mono :
    (a b : List String) (xs : List Action) → Sub a b → Sub (keys_after a xs) (keys_after b xs)
unfolding keys_after
Sub-keys_after_mono a b [] h k m = h k m
Sub-keys_after_mono a b (assign j v ∷ xs) h k m =
    Sub-keys_after_mono (j ∷ a) (j ∷ b) xs (Sub-cons j a b h) k m
Sub-keys_after_mono a b (print t ∷ xs) h k m = Sub-keys_after_mono a b xs h k m
Sub-keys_after_mono a b (print_with t j v ∷ xs) h k m = Sub-keys_after_mono a b xs h k m
Sub-keys_after_mono a b (print_raw t ∷ xs) h k m = Sub-keys_after_mono a b xs h k m
Sub-keys_after_mono a b (indent ∷ xs) h k m = Sub-keys_after_mono a b xs h k m
Sub-keys_after_mono a b (outdent ∷ xs) h k m = Sub-keys_after_mono a b xs h k m

pub Closes-append :
    {a b c : List String} {xs ys : List Action}
    → Closes a xs b
    → Closes b ys c
    → Closes a (xs ++ ys) c
Closes-append {a} {b} {xs} {ys} f g = record {
  holds = closed-append a xs ys f.holds (closed_mono b (keys_after a xs) ys f.sets g.holds);
  sets = λ k m.
      rw (keys_after-append a xs ys)
        (Sub-keys_after_mono b (keys_after a xs) ys f.sets k (g.sets k m));
}

-- Statements that need no more than what is set.
pub closed-Closes : {a : List String} (xs : List Action) → closed a xs ≡ true → Closes a xs a
closed-Closes {a} xs h = record { holds = h; sets = Sub-keys_after a xs }

pub Closes-each :
    {A : Type 0} {a : List String} {body : A → List Action} (xs : List A)
    → ((x : A) → Closes a (body x) a)
    → Closes a (each body xs) a
unfolding each
Closes-each [] h = closed-Closes [] (unfold closed in refl)
Closes-each (x ∷ xs) h = Closes-append (h x) (Closes-each xs h)

abbrev pub IsDefined : Option Bytes → Type 0
IsDefined o = (v : Bytes) × (o ≡ some v)

-- The variables with a value are at least `a`.
abbrev Sets : Vars → List String → Type 0
Sets m a = (k : String) → contains a k ≡ true → IsDefined (get k m)

pub get-put :
    (k j : String) (v : Bytes) (m : Vars)
    → get k (put j v m) ≡ (if str_eq j k then some v else get k m)
unfolding put get
get-put k j v [] = refl
get-put k j v ((i, w) ∷ m) =
    ground (arith, eq_iff k j, eq_iff j k, eq_iff i k, eq_iff i j, get-put k j v m)

Sets-put :
    (m : Vars) (j : String) (v : Bytes) (a : List String) → Sets m a → Sets (put j v m) (j ∷ a)
Sets-put m j v a h k c = elim (Bool-cases (str_eq j k)) [
  | inl e ↦ rw (get-put, e) (v, refl)
  | inr e ↦ rw (get-put, e) (h k (rw e at c))
]

IsDefined-bind :
    (o : Option Bytes) (f : Bytes → Option Bytes)
    → IsDefined o
    → ((v : Bytes) → IsDefined (f v))
    → IsDefined (o >>= f)
IsDefined-bind o f (v, e) h = rw e (h v)

value-IsDefined :
    (m : Vars) (a : List String) (name : String)
    → Sets m a
    → (str_eq name "" || contains a name) ≡ true
    → IsDefined (value m name)
unfolding value
value-IsDefined m a name h c = elim (Bool-cases (str_eq name "")) [
  | inl e ↦ rw e (b'$' ∷ [], refl)
  | inr e ↦ rw e (h name (rw e at c))
]

expand_parts-IsDefined :
    (m : Vars) (a ps : List String)
    → Sets m a
    → closed_parts a ps ≡ true
    → IsDefined (expand_parts m ps)
unfolding closed_parts expand_parts
expand_parts-IsDefined m a [] h c = cc
expand_parts-IsDefined m a (text ∷ []) h c = (codes text, refl)
expand_parts-IsDefined m a (text ∷ name ∷ ps) h c =
    IsDefined-bind _ _ (value-IsDefined m a name h (and_left _ _ c)) (λ v.
      IsDefined-bind _ _
        (expand_parts-IsDefined m a ps h (and_right (str_eq name "" || contains a name) _ c))
        (λ rest. (_, refl)))

expand-IsDefined :
    (m : Vars) (a : List String) (t : String)
    → Sets m a
    → closed_template a t ≡ true
    → IsDefined (expand m t)
unfolding expand closed_template
expand-IsDefined m a t = expand_parts-IsDefined m a (parts t)

Sets-nil : (m : Vars) → Sets m []
Sets-nil m k c = cc

spell-IsDefined :
    (m : Vars) (a : List String) (xs : List Action)
    → Sets m a
    → closed a xs ≡ true
    → IsDefined (spell (calls xs m))
unfolding closed spell calls put
spell-IsDefined m a [] h c = ([], refl)
spell-IsDefined m a (assign j v ∷ xs) h c =
    spell-IsDefined (put j v m) (j ∷ a) xs (Sets-put m j v a h) c
spell-IsDefined m a (print t ∷ xs) h c =
    IsDefined-bind _ _ (expand-IsDefined m a t h (and_left _ _ c)) (λ v.
      IsDefined-bind _ _ (spell-IsDefined m a xs h (and_right (closed_template a t) _ c))
        (λ r. (_, refl)))
spell-IsDefined m a (print_with t k v ∷ xs) h c =
    IsDefined-bind _ _
      (expand-IsDefined ((k, v) ∷ []) (k ∷ []) t (Sets-put [] k v [] (Sets-nil []))
        (and_left _ _ c))
      (λ v.
        IsDefined-bind _ _ (spell-IsDefined m a xs h (and_right (closed_template (k ∷ []) t) _ c))
          (λ r. (_, refl)))
spell-IsDefined m a (print_raw t ∷ xs) h c =
    IsDefined-bind _ _ (expand-IsDefined [] [] t (Sets-nil []) (and_left _ _ c)) (λ v.
      IsDefined-bind _ _ (spell-IsDefined m a xs h (and_right (closed_template [] t) _ c))
        (λ r. (_, refl)))
spell-IsDefined m a (indent ∷ xs) h c = spell-IsDefined m a xs h c
spell-IsDefined m a (outdent ∷ xs) h c = spell-IsDefined m a xs h c

-- Closed statements spell a text.
pub spell_of_Closes :
    {a : List String} {xs : List Action} → Closes [] xs a → IsDefined (spell (calls xs []))
spell_of_Closes {xs} f = spell-IsDefined [] [] xs (Sets-nil []) f.holds
