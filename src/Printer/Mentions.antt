-- ===== src/Printer/Mentions.antt =====
-- The values that a variable has where templates name it: a reading of the printer's calls, and the
-- same read off the statements.
use rsocket_rpc_kotlin.Base.{
  String, Bytes, Bool, true, false, List, [], ◌∷◌, ◌++◌, Option, none, some, str_eq, ◌||◌,
  if◌then◌else◌, ◌≡◌, refl, ap, ◌∙◌, map, append-nil,
}
use rsocket_rpc_kotlin.Printer.{
  put, get, Vars, Action, assign, print, print_with, print_raw, indent, outdent, Call, print_call,
  indent_call, outdent_call, calls, each,
}
use rsocket_rpc_kotlin.Printer.Spell.{parts}
use rsocket_rpc_kotlin.Printer.Closes.{get-put}

unfoldable pub names_parts : String → List String → Bool
names_parts k [] = false
names_parts k (text ∷ []) = false
names_parts k (text ∷ name ∷ ps) = str_eq name k || names_parts k ps

-- Whether a template names a variable.
unfoldable pub names : String → String → Bool
unfolding names_parts parts
names k t = names_parts k (parts t)

-- The values of a variable in the calls whose template names it, one for each call.
unfoldable pub mentioned : String → List Call → List (Option Bytes)
unfolding names get
mentioned k [] = []
mentioned k (print_call m t ∷ cs) =
    let rest = mentioned k cs in if names k t then get k m ∷ rest else rest
mentioned k (indent_call ∷ cs) = mentioned k cs
mentioned k (outdent_call ∷ cs) = mentioned k cs

-- The same of statements, with the value that the variable has before them.
unfoldable pub scan : String → Option Bytes → List Action → List (Option Bytes)
unfolding names
scan k v [] = []
scan k v (assign j w ∷ as') = scan k (if str_eq j k then some w else v) as'
scan k v (print t ∷ as') = let rest = scan k v as' in if names k t then v ∷ rest else rest
scan k v (print_with t j w ∷ as') =
    let rest = scan k v as' in
    if names k t then (if str_eq j k then some w else none) ∷ rest else rest
scan k v (print_raw t ∷ as') = let rest = scan k v as' in if names k t then none ∷ rest else rest
scan k v (indent ∷ as') = scan k v as'
scan k v (outdent ∷ as') = scan k v as'

pub mentioned-calls :
    (k : String) (xs : List Action) (m : Vars) → mentioned k (calls xs m) ≡ scan k (get k m) xs
unfolding mentioned calls scan get
mentioned-calls k [] m = refl
mentioned-calls k (assign j w ∷ xs) m =
    mentioned-calls k xs (put j w m) ∙ ap (λ v. scan k v xs) (get-put k j w m)
mentioned-calls k (print t ∷ xs) m = rw (mentioned-calls k xs m) refl
mentioned-calls k (print_with t j w ∷ xs) m = rw (mentioned-calls k xs m) refl
mentioned-calls k (print_raw t ∷ xs) m = rw (mentioned-calls k xs m) refl
mentioned-calls k (indent ∷ xs) m = mentioned-calls k xs m
mentioned-calls k (outdent ∷ xs) m = mentioned-calls k xs m

-- The value behind statements.
unfoldable last : String → Option Bytes → List Action → Option Bytes
last k v [] = v
last k v (assign j w ∷ as') = last k (if str_eq j k then some w else v) as'
last k v (print t ∷ as') = last k v as'
last k v (print_with t j w ∷ as') = last k v as'
last k v (print_raw t ∷ as') = last k v as'
last k v (indent ∷ as') = last k v as'
last k v (outdent ∷ as') = last k v as'

scan_print :
    (b : Bool) (o : Option Bytes) (xs ys : List (Option Bytes))
    → (if b then o ∷ (xs ++ ys) else xs ++ ys) ≡ (if b then o ∷ xs else xs) ++ ys
scan_print true o xs ys = refl
scan_print false o xs ys = refl

scan-append :
    (k : String) (v : Option Bytes) (xs ys : List Action)
    → scan k v (xs ++ ys) ≡ scan k v xs ++ scan k (last k v xs) ys
unfolding scan last
scan-append k v [] ys = refl
scan-append k v (assign j w ∷ xs) ys = scan-append k (if str_eq j k then some w else v) xs ys
scan-append k v (print t ∷ xs) ys = rw (scan-append k v xs ys) (scan_print (names k t) v _ _)
scan-append k v (print_with t j w ∷ xs) ys =
    rw (scan-append k v xs ys) (scan_print (names k t) _ _ _)
scan-append k v (print_raw t ∷ xs) ys = rw (scan-append k v xs ys) (scan_print (names k t) _ _ _)
scan-append k v (indent ∷ xs) ys = scan-append k v xs ys
scan-append k v (outdent ∷ xs) ys = scan-append k v xs ys

-- Statements that name a variable with the values `l` alone, whatever it was before them.
pub record Mentions (k : String) (xs : List Action) (l : List (Option Bytes)) : Type 0 where
  pub holds : (v : Option Bytes) → scan k v xs ≡ l

pub Mentions-append :
    {k : String} {xs ys : List Action} {l r : List (Option Bytes)}
    → Mentions k xs l
    → Mentions k ys r
    → Mentions k (xs ++ ys) (l ++ r)
Mentions-append {k} {xs} {ys} f g = record {
  holds = λ v. rw (scan-append k v xs ys, f.holds v, g.holds (last k v xs)) refl;
}

pub Mentions-to :
    {k : String} {xs : List Action} {l r : List (Option Bytes)}
    → l ≡ r
    → Mentions k xs l
    → Mentions k xs r
Mentions-to e f = record { holds = λ v. f.holds v ∙ e }

-- Where the last statements do not name it.
pub trailing :
    {k : String} {xs : List Action} {l : List (Option Bytes)}
    → Mentions k xs (l ++ [])
    → Mentions k xs l
trailing {l} = Mentions-to (append-nil l)

Mentions-nil : (k : String) → Mentions k [] []
unfolding scan
Mentions-nil k = record { holds = λ v. refl }

-- A loop each round of which names it once.
pub Mentions-each :
    {A : Type 0} {k : String} {body : A → List Action} (f : A → Option Bytes) (xs : List A)
    → ((x : A) → Mentions k (body x) (f x ∷ []))
    → Mentions k (each body xs) (map f xs)
unfolding each
Mentions-each f [] h = Mentions-nil _
Mentions-each f (x ∷ xs) h = Mentions-append (h x) (Mentions-each f xs h)

-- A loop that does not name it.
pub Mentions-each_nil :
    {A : Type 0} {k : String} {body : A → List Action} (xs : List A)
    → ((x : A) → Mentions k (body x) [])
    → Mentions k (each body xs) []
unfolding each
Mentions-each_nil [] h = Mentions-nil _
Mentions-each_nil (x ∷ xs) h = Mentions-append (h x) (Mentions-each_nil xs h)

-- What the calls of the statements name.
pub mentioned_of_Mentions :
    {k : String} {xs : List Action} {l : List (Option Bytes)}
    → Mentions k xs l
    → mentioned k (calls xs []) ≡ l
mentioned_of_Mentions {k} {xs} f = mentioned-calls k xs [] ∙ f.holds (get k [])
