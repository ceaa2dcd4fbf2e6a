-- ===== src/Printer.antt =====
-- How kotlin_generator.cpp uses the map `vars` and google::protobuf::io::Printer
-- (rsocket-rpc-protobuf/src/kotlin_plugin/cpp/kotlin_generator.cpp). A generating function is the
-- list of its statements with an effect; the calls of the printer that it makes come from running
-- the assignments. What the printer makes of a call is read by Spell, from its documentation.
pub mod Spell
pub mod Meter
pub mod Closed
pub mod Closes
pub mod Mentions
pub mod Routes
pub mod Routed
pub mod Expand
pub mod Kept
use rsocket_rpc_kotlin.Base.{
  ℕ, String, Bytes, codes, Bool, true, false, List, [], ◌∷◌, ◌++◌, Option, none, some, str_eq, ◌==◌,
  if◌then◌else◌,
}

-- `std::map<string, string>`
abbrev pub Vars : Type 0
Vars = List (String × Bytes)

-- `vars[k] = v`
unfoldable pub put : String → Bytes → Vars → Vars
put k v [] = (k, v) ∷ []
put k v ((j, w) ∷ m) = if str_eq j k then (j, v) ∷ m else (j, w) ∷ put k v m

unfoldable pub get : String → Vars → Option Bytes
get k [] = none
get k ((j, w) ∷ m) = if str_eq j k then some w else get k m

-- The statements: an assignment to `(*vars)[k]`, `Print(*vars, t)`, `Print(t, k, v)`, `Print(t)`,
-- `Indent()` and `Outdent()`.
pub data Action : Type 0 where
  assign : String → Bytes → Action
  print : String → Action
  print_with : String → String → Bytes → Action
  print_raw : String → Action
  indent : Action
  outdent : Action

-- What the printer sees: a template with the variables of that moment.
pub data Call : Type 0 where
  print_call : Vars → String → Call
  indent_call : Call
  outdent_call : Call

-- The calls that statements make, from given variables.
unfoldable pub calls : List Action → Vars → List Call
calls [] m = []
calls (assign k v ∷ as') m = calls as' (put k v m)
calls (print t ∷ as') m = print_call m t ∷ calls as' m
calls (print_with t k v ∷ as') m = print_call ((k, v) ∷ []) t ∷ calls as' m
calls (print_raw t ∷ as') m = print_call [] t ∷ calls as' m
calls (indent ∷ as') m = indent_call ∷ calls as' m
calls (outdent ∷ as') m = outdent_call ∷ calls as' m

-- `for (int i = 0; i < service->method_count(); ++i)` and the like.
unfoldable pub each {ℓ} : {A : Type ℓ} → (A → List Action) → List A → List Action
each body [] = []
each body (x ∷ xs) = body x ++ each body xs
