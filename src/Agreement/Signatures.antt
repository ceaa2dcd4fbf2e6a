-- ===== src/Agreement/Signatures.antt =====
-- The texts of signatures in the interface and in the client, by the values of their variables.
use rsocket_rpc_kotlin.Base.{
  String, Bytes, codes, Bool, true, false, ◌++◌, some, ◌≡◌, refl, sym, ap, ◌∙◌, append_assoc,
}
use rsocket_rpc_kotlin.Printer.{Vars, get, calls}
use rsocket_rpc_kotlin.Printer.Spell.{parts, spell, expand}
use rsocket_rpc_kotlin.Printer.Expand.{
  Expands-cons, Expands-last, expand-Expands, spell_one, spell-nil, spell-indent,
}
use rsocket_rpc_kotlin.Interface.{interface_parameters, interface_return}
use rsocket_rpc_kotlin.Client.Method.{client_override_parameters, client_override_return}

-- A class with a type argument.
abbrev applied : Bytes → Bytes → Bytes
applied class argument = class ++ (codes "<" ++ (argument ++ codes ">"))

applied-append : (f o x : Bytes) → f ++ (codes "<" ++ (o ++ (codes ">" ++ x))) ≡ applied f o ++ x
applied-append f o x = sym (
    append_assoc f (codes "<" ++ (o ++ codes ">")) x
    ∙ ap (λ r. f ++ (codes "<" ++ r)) (append_assoc o (codes ">") x))

-- The templates of signatures, with the values of their variables.
module _ (m : Vars) where
  stream_parameters :
      (p i b : Bytes)
      → get "Publisher" m ≡ some p
      → get "input_type" m ≡ some i
      → get "ByteBuf" m ≡ some b
      → expand m "(message: $Publisher$<$input_type$>, metadata: $ByteBuf$)\n"
        ≡ some (
            codes "(message: "
            ++ (p ++ (codes "<" ++ (i ++ (codes ">, metadata: " ++ (b ++ codes ")\n"))))))
  unfolding parts
  stream_parameters p i b ep ei eb =
      expand-Expands "(message: $Publisher$<$input_type$>, metadata: $ByteBuf$)\n"
        (Expands-cons refl ep (Expands-cons refl ei (Expands-cons refl eb Expands-last)))

  message_parameters :
      (i b : Bytes)
      → get "input_type" m ≡ some i
      → get "ByteBuf" m ≡ some b
      → expand m "(message: $input_type$, metadata: $ByteBuf$)\n"
        ≡ some (codes "(message: " ++ (i ++ (codes ", metadata: " ++ (b ++ codes ")\n"))))
  unfolding parts
  message_parameters i b ei eb =
      expand-Expands "(message: $input_type$, metadata: $ByteBuf$)\n"
        (Expands-cons refl ei (Expands-cons refl eb Expands-last))

-- A list of parameters, by the values of its variables.
abbrev pub parameters_text : Bool → Bytes → Bytes → Bytes → Bytes
parameters_text true p i b =
    codes "(message: " ++ (p ++ (codes "<" ++ (i ++ (codes ">, metadata: " ++ (b ++ codes ")\n")))))
parameters_text false p i b =
    codes "(message: " ++ (i ++ (codes ", metadata: " ++ (b ++ codes ")\n")))

module _ (m : Vars) (p i b : Bytes) (pe : get "Publisher" m ≡ some p)
    (ie : get "input_type" m ≡ some i) (be : get "ByteBuf" m ≡ some b) where
  pub spell-interface_parameters :
      (cs : Bool) → spell (calls (interface_parameters cs) m) ≡ some (parameters_text cs p i b)
  unfolding calls interface_parameters
  spell-interface_parameters true = spell_one _ _ _ spell-nil (stream_parameters m p i b pe ie be)
  spell-interface_parameters false = spell_one _ _ _ spell-nil (message_parameters m i b ie be)

  pub spell-client_override_parameters :
      (cs : Bool)
      → spell (calls (client_override_parameters cs) m) ≡ some (parameters_text cs p i b)
  unfolding calls client_override_parameters
  spell-client_override_parameters true =
      spell_one _ _ _ spell-indent (stream_parameters m p i b pe ie be)
  spell-client_override_parameters false =
      spell_one _ _ _ spell-indent (message_parameters m i b ie be)

-- A return type in the interface, where a body that fails follows, and in the client.
abbrev pub interface_type : Bytes → Bytes → Bytes
interface_type type class =
    codes ":"
    ++ (type
        ++ (codes " = "
            ++ (class ++ codes ".error(UnsupportedOperationException(\"not implemented\"))\n")))

abbrev pub client_type : Bytes → Bytes
client_type type = codes ": " ++ (type ++ codes " {\n")

-- The variable of the class that a method of each kind returns.
abbrev pub class_key : Bool → Bool → Bool → String
class_key cs true ff = "Flowable"
class_key true false ff = "Single"
class_key false false true = "Completable"
class_key false false false = "Single"

-- The type that a method of each kind returns, by that class and the method's output.
abbrev pub return_type : Bool → Bool → Bool → Bytes → Bytes → Bytes
return_type cs true ff class output = applied class output
return_type true false ff class output = applied class output
return_type false false true class output = class
return_type false false false class output = applied class output

module _ (m : Vars) (f o : Bytes) (oe : get "output_type" m ≡ some o) where
  pub spell-interface_return :
      (cs ss ff : Bool)
      → get (class_key cs ss ff) m ≡ some f
      → spell (calls (interface_return cs ss ff) m)
        ≡ some (interface_type (return_type cs ss ff f o) f)
  unfolding calls interface_return parts
  spell-interface_return cs true ff e =
      spell_one _ _ _ spell-nil (
        expand-Expands
          ":$Flowable$<$output_type$> = $Flowable$.error(UnsupportedOperationException(\"not implemented\"))\n"
          (Expands-cons refl e (Expands-cons refl oe (Expands-cons refl e Expands-last))))
      ∙ ap (λ t. some (codes ":" ++ t)) (applied-append f o _)
  spell-interface_return true false ff e =
      spell_one _ _ _ spell-nil (
        expand-Expands
          ":$Single$<$output_type$> = $Single$.error(UnsupportedOperationException(\"not implemented\"))\n"
          (Expands-cons refl e (Expands-cons refl oe (Expands-cons refl e Expands-last))))
      ∙ ap (λ t. some (codes ":" ++ t)) (applied-append f o _)
  spell-interface_return false false true e = spell_one _ _ _ spell-nil (
      expand-Expands
        ":$Completable$ = $Completable$.error(UnsupportedOperationException(\"not implemented\"))\n"
        (Expands-cons refl e (Expands-cons refl e Expands-last)))
  spell-interface_return false false false e =
      spell_one _ _ _ spell-nil (
        expand-Expands
          ":$Single$<$output_type$> = $Single$.error(UnsupportedOperationException(\"not implemented\"))\n"
          (Expands-cons refl e (Expands-cons refl oe (Expands-cons refl e Expands-last))))
      ∙ ap (λ t. some (codes ":" ++ t)) (applied-append f o _)

  pub spell-client_override_return :
      (cs ss ff : Bool)
      → get (class_key cs ss ff) m ≡ some f
      → spell (calls (client_override_return cs ss ff) m)
        ≡ some (client_type (return_type cs ss ff f o))
  unfolding calls client_override_return parts
  spell-client_override_return cs true ff e =
      spell_one _ _ _ spell-nil (
        expand-Expands ": $Flowable$<$output_type$> {\n"
          (Expands-cons refl e (Expands-cons refl oe Expands-last)))
      ∙ ap (λ t. some (codes ": " ++ t)) (applied-append f o _)
  spell-client_override_return true false ff e =
      spell_one _ _ _ spell-nil (
        expand-Expands ": $Single$<$output_type$> {\n"
          (Expands-cons refl e (Expands-cons refl oe Expands-last)))
      ∙ ap (λ t. some (codes ": " ++ t)) (applied-append f o _)
  spell-client_override_return false false true e =
      spell_one _ _ _ spell-nil
        (expand-Expands ": $Completable$ {\n" (Expands-cons refl e Expands-last))
  spell-client_override_return false false false e =
      spell_one _ _ _ spell-nil (
        expand-Expands ": $Single$<$output_type$> {\n"
          (Expands-cons refl e (Expands-cons refl oe Expands-last)))
      ∙ ap (λ t. some (codes ": " ++ t)) (applied-append f o _)
