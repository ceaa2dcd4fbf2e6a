-- ===== src/Printer/Expand.antt =====
-- The text of a template, part by part.
use rsocket_rpc_kotlin.Base.{
  String, Bytes, codes, false, List, [], ◌∷◌, ◌++◌, some, str_eq, ◌≡◌, refl, ap, ◌∙◌, append-nil,
}
use rsocket_rpc_kotlin.Printer.{Vars, get, Call, print_call, indent_call}
use rsocket_rpc_kotlin.Printer.Spell.{value, parts, expand_parts, expand, spell}

-- The parts of a template have a text.
pub record Expands (m : Vars) (ps : List String) (text : Bytes) : Type 0 where
  pub holds : expand_parts m ps ≡ some text

pub Expands-last : {m : Vars} {text : String} → Expands m (text ∷ []) (codes text)
unfolding expand_parts
Expands-last = record { holds = refl }

value-get :
    (m : Vars) (name : String) (v : Bytes)
    → str_eq name "" ≡ false
    → get name m ≡ some v
    → value m name ≡ some v
unfolding value
value-get m name v n e = rw (n, e) refl

pub Expands-cons :
    {m : Vars} {text name : String} {ps : List String} {v rest : Bytes}
    → str_eq name "" ≡ false
    → get name m ≡ some v
    → Expands m ps rest
    → Expands m (text ∷ name ∷ ps) (codes text ++ (v ++ rest))
unfolding expand_parts
Expands-cons {m} {name} {v} n e r = record { holds = rw (value-get m name v n e, r.holds) refl }

pub expand-Expands :
    {m : Vars} {text : Bytes} (t : String) → Expands m (parts t) text → expand m t ≡ some text
unfolding expand
expand-Expands t e = e.holds

pub spell-print :
    (m : Vars) (t : String) (cs : List Call) (text rest : Bytes)
    → expand m t ≡ some text
    → spell cs ≡ some rest
    → spell (print_call m t ∷ cs) ≡ some (text ++ rest)
unfolding spell
spell-print m t cs text rest e r = rw (e, r) refl

-- A call behind which nothing is written.
pub spell_one :
    {text : Bytes} (m : Vars) (t : String) (cs : List Call)
    → spell cs ≡ some []
    → expand m t ≡ some text
    → spell (print_call m t ∷ cs) ≡ some text
spell_one {text} m t cs q e = spell-print m t cs text [] e q ∙ ap some (append-nil text)

pub spell-nil : spell [] ≡ some []
unfolding spell
spell-nil = refl

pub spell-indent : spell (indent_call ∷ []) ≡ some []
unfolding spell
spell-indent = refl
