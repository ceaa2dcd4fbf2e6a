-- ===== src/Printer/Meter.antt =====
-- Running statements as a machine with its own state, which may refuse one: the depth of the
-- indentation, and the brackets that are open in the text of the templates.
use rsocket_rpc_kotlin.Base.{
  ℕ, zero, suc, String, Bytes, codes, Bool, false, List, [], ◌∷◌, ◌++◌, Option, none, some, ◌==◌,
  not, ◌||◌, if◌then◌else◌, ◌≡◌, refl, ◌∙◌,
}
use rsocket_rpc_kotlin.Printer.{Action, assign, print, print_with, print_raw, indent, outdent, each}

module _ {S : Type 0} where
  infixl 5 ◌>>=◌
  abbrev pub ◌>>=◌ : Option S → (S → Option S) → Option S
  none >>= f = none
  some s >>= f = f s

module _ {S : Type 0} (step : Action → S → Option S) where
  unfoldable pub meter : List Action → S → Option S
  meter [] s = some s
  meter (a ∷ as') s = step a s >>= meter as'

  meter-append_step :
      (o : Option S) (xs ys : List Action)
      → ((s : S) → meter (xs ++ ys) s ≡ (meter xs s >>= meter ys))
      → (o >>= meter (xs ++ ys)) ≡ ((o >>= meter xs) >>= meter ys)
  meter-append_step none xs ys h = refl
  meter-append_step (some s) xs ys h = h s

  pub meter-append : (xs ys : List Action) (s : S) → meter (xs ++ ys) s ≡ (meter xs s >>= meter ys)
  unfolding meter
  meter-append [] ys s = refl
  meter-append (a ∷ xs) ys s = meter-append_step (step a s) xs ys (meter-append xs ys)

  -- Statements that leave the state alone may be left out.
  pub meter_skip :
      (xs ys : List Action) (s : S) → meter xs s ≡ some s → meter (xs ++ ys) s ≡ meter ys s
  meter_skip xs ys s h = rw (meter-append xs ys s, h)

-- The statements take the machine from one state to another.
pub record Runs {S : Type 0} (step : Action → S → Option S) (s : S) (xs : List Action) (t : S)
    : Type 0 where
  pub ran : meter step xs s ≡ some t

module _ {S : Type 0} {step : Action → S → Option S} where
  pub Runs-append :
      {xs ys : List Action} {s t u : S}
      → Runs step s xs t
      → Runs step t ys u
      → Runs step s (xs ++ ys) u
  Runs-append {xs} {ys} {s} f g = record { ran = meter-append step xs ys s ∙ rw (f.ran, g.ran) }

  pub Runs-each :
      {A : Type 0} {body : A → List Action} {s : S} (xs : List A)
      → ((x : A) → Runs step s (body x) s)
      → Runs step s (each body xs) s
  unfolding each
  Runs-each [] h = record { ran = unfold meter in refl }
  Runs-each (x ∷ xs) h = Runs-append (h x) (Runs-each xs h)

-- A closing bracket takes its opening one from the top.
abbrev close_bracket : ℕ → Bytes → Option Bytes
close_bracket opening [] = none
close_bracket opening (o ∷ stack) = if o == opening then some stack else none

bracket_char : ℕ → Bytes → Option Bytes
bracket_char c stack =
    if c == b'(' || (c == b'[' || c == b'{')
    then some (c ∷ stack)
    else if c == b')'
    then close_bracket b'(' stack
    else if c == b']'
    then close_bracket b'[' stack
    else if c == b'}'
    then close_bracket b'{' stack
    else some stack

-- The text between variables; `inside` a variable's name nothing counts.
bracket_text : Bytes → Bool → Bytes → Option Bytes
unfolding bracket_char
bracket_text [] inside stack = some stack
bracket_text (c ∷ s) inside stack =
    (if inside || c == b'$' then some stack else bracket_char c stack)
    >>= bracket_text s (if c == b'$' then not inside else inside)

-- The depth of the indentation, the calls of `Outdent()` that found it at 0, and the brackets that
-- are open, the last one first.
abbrev pub Layout : Type 0
Layout = ℕ × ℕ × Bytes

-- `Outdent()` at depth 0 has no matching `Indent()`, and the depth stays.
abbrev outdented : ℕ → ℕ → Bytes → Layout
outdented zero unmatched stack = (0, suc unmatched, stack)
outdented (suc n) unmatched stack = (n, unmatched, stack)

template_step : String → Layout → Option Layout
unfolding bracket_text
template_step t (n, unmatched, stack) = elim (bracket_text (codes t) false stack) [
  | none ↦ none
  | some stack' ↦ some (n, unmatched, stack')
]

unfoldable pub layout_step : Action → Layout → Option Layout
unfolding template_step
layout_step (assign k v) l = some l
layout_step (print t) l = template_step t l
layout_step (print_with t k v) l = template_step t l
layout_step (print_raw t) l = template_step t l
layout_step indent (n, unmatched, stack) = some (suc n, unmatched, stack)
layout_step outdent (n, unmatched, stack) = some (outdented n unmatched stack)

-- Statements from one layout to another.
abbrev pub Lays : Layout → List Action → Layout → Type 0
Lays = Runs layout_step

test_brackets : layout_step (print "a($x(y$) {\n") (2, 0, []) ≡ some (2, 0, b'{' ∷ [])
unfolding layout_step
test_brackets = refl
