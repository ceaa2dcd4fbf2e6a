-- ===== src/Printer/Spell.antt =====
-- The text that a template stands for, by the documentation of google::protobuf::io::Printer with
-- `$` as the delimiter: between two `$` stands a variable's name, and `$$` is a dollar sign. The
-- spaces that Indent() puts in front of a line are left out.
use Prim.Native.Char.{code}
use rsocket_rpc_kotlin.Base.{
  String, Bytes, codes, List, [], ◌∷◌, ◌++◌, Option, none, some, str_eq, ◌==◌, if◌then◌else◌, ◌≡◌,
  refl,
}
use rsocket_rpc_kotlin.Printer.{Vars, get, Call, print_call, indent_call, outdent_call}

-- The parts of a template between its dollar signs: text and names in turn.
unfoldable pub parts : String → List String
parts String.[] = "" ∷ []
parts (String.◌∷◌ c s) = let rest = parts s in if code c == b'$' then "" ∷ rest else onto rest
  where
    onto : List String → List String
    onto [] = []
    onto (p ∷ ps) = String.◌∷◌ c p ∷ ps

-- The value of a name.
unfoldable pub value : Vars → String → Option Bytes
unfolding get
value m name = if str_eq name "" then some (b'$' ∷ []) else get name m

infixl 5 ◌>>=◌
abbrev pub ◌>>=◌ : Option Bytes → (Bytes → Option Bytes) → Option Bytes
none >>= f = none
some a >>= f = f a

-- `none` where a name has no value, or a last dollar sign has no partner.
unfoldable pub expand_parts : Vars → List String → Option Bytes
unfolding value
expand_parts m [] = none
expand_parts m (text ∷ []) = some (codes text)
expand_parts m (text ∷ name ∷ ps) = do
  v ← value m name
  rest ← expand_parts m ps
  some (codes text ++ (v ++ rest))

unfoldable pub expand : Vars → String → Option Bytes
unfolding parts expand_parts
expand m template = expand_parts m (parts template)

-- The text that calls write, less the spaces at the beginning of lines.
unfoldable pub spell : List Call → Option Bytes
unfolding expand
spell [] = some []
spell (print_call m template ∷ cs) = do
  text ← expand m template
  rest ← spell cs
  some (text ++ rest)
spell (indent_call ∷ cs) = spell cs
spell (outdent_call ∷ cs) = spell cs

test_expand : expand (("a", codes "1") ∷ ("b", codes "2") ∷ []) "x$b$y$a$" ≡ some (codes "x2y1")
unfolding expand
test_expand = refl

test_expand_undefined : expand (("a", codes "1") ∷ []) "x$b$y" ≡ none
unfolding expand
test_expand_undefined = refl
