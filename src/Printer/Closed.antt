-- ===== src/Printer/Closed.antt =====
-- Statements whose templates find all their variables.
use rsocket_rpc_kotlin.Base.{
  String, Bool, true, false, List, [], ◌∷◌, str_eq, ◌&&◌, ◌||◌, ◌≡◌, arith,
}
use rsocket_rpc_kotlin.Printer.{Action, assign, print, print_with, print_raw, indent, outdent}
use rsocket_rpc_kotlin.Printer.Spell.{parts}

abbrev pub contains : List String → String → Bool
contains [] k = false
contains (j ∷ keys) k = str_eq j k || contains keys k

unfoldable pub closed_parts : List String → List String → Bool
closed_parts keys [] = false
closed_parts keys (text ∷ []) = true
closed_parts keys (text ∷ name ∷ ps) =
    (str_eq name "" || contains keys name) && closed_parts keys ps

unfoldable pub closed_template : List String → String → Bool
unfolding closed_parts parts
closed_template keys t = closed_parts keys (parts t)

-- Every template finds its variables among `keys` and those that are assigned before it.
unfoldable pub closed : List String → List Action → Bool
unfolding closed_template
closed keys [] = true
closed keys (assign k v ∷ as') = closed (k ∷ keys) as'
closed keys (print t ∷ as') = closed_template keys t && closed keys as'
closed keys (print_with t k v ∷ as') = closed_template (k ∷ []) t && closed keys as'
closed keys (print_raw t ∷ as') = closed_template [] t && closed keys as'
closed keys (indent ∷ as') = closed keys as'
closed keys (outdent ∷ as') = closed keys as'

-- The keys after statements.
unfoldable pub keys_after : List String → List Action → List String
keys_after keys [] = keys
keys_after keys (assign k v ∷ as') = keys_after (k ∷ keys) as'
keys_after keys (print t ∷ as') = keys_after keys as'
keys_after keys (print_with t k v ∷ as') = keys_after keys as'
keys_after keys (print_raw t ∷ as') = keys_after keys as'
keys_after keys (indent ∷ as') = keys_after keys as'
keys_after keys (outdent ∷ as') = keys_after keys as'

abbrev pub Sub : List String → List String → Type 0
Sub a b = (k : String) → contains a k ≡ true → contains b k ≡ true

pub Sub-cons : (j : String) (a b : List String) → Sub a b → Sub (j ∷ a) (j ∷ b)
Sub-cons j a b h k m = ground (arith, h k)

Sub-keys_after_cons : (j : String) (a : List String) → Sub a (j ∷ a)
Sub-keys_after_cons j a k m = ground arith

pub Sub-keys_after : (a : List String) (xs : List Action) → Sub a (keys_after a xs)
unfolding keys_after
Sub-keys_after a [] k m = m
Sub-keys_after a (assign j v ∷ xs) k m = Sub-keys_after (j ∷ a) xs k (Sub-keys_after_cons j a k m)
Sub-keys_after a (print t ∷ xs) k m = Sub-keys_after a xs k m
Sub-keys_after a (print_with t j v ∷ xs) k m = Sub-keys_after a xs k m
Sub-keys_after a (print_raw t ∷ xs) k m = Sub-keys_after a xs k m
Sub-keys_after a (indent ∷ xs) k m = Sub-keys_after a xs k m
Sub-keys_after a (outdent ∷ xs) k m = Sub-keys_after a xs k m

closed_parts_mono :
    (a b ps : List String) → Sub a b → closed_parts a ps ≡ true → closed_parts b ps ≡ true
unfolding closed_parts
closed_parts_mono a b [] h c = c
closed_parts_mono a b (text ∷ []) h c = c
closed_parts_mono a b (text ∷ name ∷ ps) h c = ground (arith, h name, closed_parts_mono a b ps h)

closed_template_mono :
    (a b : List String) (t : String)
    → Sub a b
    → closed_template a t ≡ true
    → closed_template b t ≡ true
unfolding closed_template
closed_template_mono a b t = closed_parts_mono a b (parts t)

pub and_left : (x y : Bool) → (x && y) ≡ true → x ≡ true
and_left x y h = ground arith

pub and_right : (x y : Bool) → (x && y) ≡ true → y ≡ true
and_right x y h = ground arith

pub and_intro : (x y : Bool) → x ≡ true → y ≡ true → (x && y) ≡ true
and_intro x y h k = ground arith

pub closed_mono :
    (a b : List String) (xs : List Action) → Sub a b → closed a xs ≡ true → closed b xs ≡ true
unfolding closed
closed_mono a b [] h c = c
closed_mono a b (assign j v ∷ xs) h c = closed_mono (j ∷ a) (j ∷ b) xs (Sub-cons j a b h) c
closed_mono a b (print t ∷ xs) h c =
    and_intro _ _ (closed_template_mono a b t h (and_left _ _ c))
      (closed_mono a b xs h (and_right _ _ c))
closed_mono a b (print_with t k v ∷ xs) h c =
    and_intro _ _ (and_left _ _ c)
      (closed_mono a b xs h (and_right (closed_template (k ∷ []) t) _ c))
closed_mono a b (print_raw t ∷ xs) h c =
    and_intro _ _ (and_left _ _ c) (closed_mono a b xs h (and_right (closed_template [] t) _ c))
closed_mono a b (indent ∷ xs) h c = closed_mono a b xs h c
closed_mono a b (outdent ∷ xs) h c = closed_mono a b xs h c
