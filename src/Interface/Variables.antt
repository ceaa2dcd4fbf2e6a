-- ===== src/Interface/Variables.antt =====
-- Every template of the interface's file finds its variables.
use rsocket_rpc_kotlin.Base.{String, Bool, true, false, List, [], ◌∷◌, refl}
use rsocket_rpc_kotlin.Printer.{calls}
use rsocket_rpc_kotlin.Printer.Spell.{spell}
use rsocket_rpc_kotlin.Printer.Closed.{closed, keys_after, Sub-keys_after}
use rsocket_rpc_kotlin.Printer.Closes.{
  Closes, closed-Closes, Closes-append, Closes-each, IsDefined, spell_of_Closes,
}
use rsocket_rpc_kotlin.Descriptor.{
  ServiceDescriptor, MethodDescriptor, ProtoFlavor, Protobuf, Macros,
}
use rsocket_rpc_kotlin.Package.{service_kotlin_package, under_version}
use rsocket_rpc_kotlin.Package.Variables.{
  closed-under_version, package_line-Closes, package_variable-Closes,
}
use rsocket_rpc_kotlin.Doc.Variables.{
  write_service_doc_comment-Closes, write_method_doc_comment-Closes,
}
use rsocket_rpc_kotlin.Interface.{
  interface_variables, interface_version, interface_header, interface_constant, interface_fun,
  interface_parameters, interface_return, interface_method_names, interface_method,
  interface_constants_end, interface_end, print_interface, interface_class_names,
  generate_interface,
}

-- The variables that `GenerateInterface` sets, the last one first, and those of a service.
abbrev class_keys : List String
class_keys =
    "Package" ∷ "Package" ∷ "Empty" ∷ "Completable" ∷ "ByteBuf" ∷ "Generated" ∷ "Publisher"
    ∷ "Single" ∷ "Flowable" ∷ []

abbrev service_keys : List String
service_keys =
    "rsocket_rpc_version" ∷ "file_name" ∷ "service_field_name" ∷ "service_name" ∷ class_keys

interface_class_names-Closes :
    Closes [] interface_class_names
      ("Empty" ∷ "Completable" ∷ "ByteBuf" ∷ "Generated" ∷ "Publisher" ∷ "Single" ∷ "Flowable" ∷ [])
unfolding interface_class_names closed keys_after
interface_class_names-Closes = record { holds = refl; sets = λ k m. m }

interface_variables-Closes :
    (macros : Macros) (service : ServiceDescriptor) (dv : Bool)
    → Closes class_keys (interface_variables macros service dv) service_keys
unfolding interface_variables interface_version closed keys_after
interface_variables-Closes macros service dv = record {
  holds = closed-under_version service_keys macros dv _ refl;
  sets = Sub-keys_after service_keys (under_version macros dv (interface_version macros));
}

abbrev method_keys : List String
method_keys = "lower_method_name" ∷ "output_type" ∷ "input_type" ∷ service_keys

interface_method_names-Closes :
    (pb : Protobuf) (m : MethodDescriptor)
    → Closes service_keys (interface_method_names pb m) method_keys
unfolding interface_method_names closed keys_after
interface_method_names-Closes pb m = record { holds = refl; sets = λ k h. h }

interface_parameters-Closes : (cs : Bool) → Closes method_keys (interface_parameters cs) method_keys
unfolding interface_parameters closed
interface_parameters-Closes true = closed-Closes _ refl
interface_parameters-Closes false = closed-Closes _ refl

interface_fun-Closes : Closes method_keys interface_fun method_keys
unfolding interface_fun closed
interface_fun-Closes = closed-Closes _ refl

interface_return-Closes :
    (cs ss ff : Bool) → Closes method_keys (interface_return cs ss ff) method_keys
unfolding interface_return closed
interface_return-Closes true true ff = closed-Closes _ refl
interface_return-Closes true false ff = closed-Closes _ refl
interface_return-Closes false true ff = closed-Closes _ refl
interface_return-Closes false false true = closed-Closes _ refl
interface_return-Closes false false false = closed-Closes _ refl

interface_method-Closes :
    (pb : Protobuf) (m : MethodDescriptor)
    → Closes service_keys (interface_method pb m) service_keys
interface_method-Closes pb m = closed-Closes _ (
    unfold interface_method in
    (Closes-append (interface_method_names-Closes pb m) (
      Closes-append (write_method_doc_comment-Closes method_keys m) (
        Closes-append (interface_fun-Closes) (
          Closes-append (interface_parameters-Closes m.client_streaming) (
            interface_return-Closes m.client_streaming m.server_streaming
              m.options.fire_and_forget))))).holds)

interface_header-Closes : Closes service_keys interface_header service_keys
unfolding interface_header closed
interface_header-Closes = closed-Closes _ refl

interface_constant-Closes :
    (m : MethodDescriptor) → Closes service_keys (interface_constant m) service_keys
unfolding interface_constant closed
interface_constant-Closes m = closed-Closes _ refl

interface_constants_end-Closes : Closes service_keys interface_constants_end service_keys
unfolding interface_constants_end closed
interface_constants_end-Closes = closed-Closes _ refl

interface_end-Closes : Closes service_keys interface_end service_keys
unfolding interface_end closed
interface_end-Closes = closed-Closes _ refl

print_interface-Closes :
    (pb : Protobuf) (macros : Macros) (service : ServiceDescriptor) (flavor : ProtoFlavor)
    (dv : Bool)
    → Closes class_keys (print_interface pb macros service flavor dv) service_keys
unfolding print_interface
print_interface-Closes pb macros service flavor dv =
    let ms = service.methods in
    Closes-append (interface_variables-Closes macros service dv) (
      Closes-append (write_service_doc_comment-Closes _ service) (
        Closes-append (interface_header-Closes) (
          Closes-append (Closes-each ms interface_constant-Closes) (
            Closes-append (interface_constants_end-Closes) (
              Closes-append (Closes-each ms (interface_method-Closes pb))
                (interface_end-Closes))))))

generate_interface-Closes :
    (pb : Protobuf) (macros : Macros) (service : ServiceDescriptor) (flavor : ProtoFlavor)
    (dv : Bool)
    → Closes [] (generate_interface pb macros service flavor dv) service_keys
unfolding generate_interface
generate_interface-Closes pb macros service flavor dv = Closes-append interface_class_names-Closes (
    Closes-append (package_line-Closes _ (service_kotlin_package pb service.file)) (
      Closes-append (package_variable-Closes _ service.file)
        (print_interface-Closes pb macros service flavor dv)))

-- For every service and every choice of options, each template that is printed to the interface's file
-- finds a value for each of its variables, and its dollar signs are paired: the file has a text.
pub spell-generate_interface :
    (pb : Protobuf) (macros : Macros) (service : ServiceDescriptor) (flavor : ProtoFlavor)
    (disable_version : Bool)
    → IsDefined (spell (calls (generate_interface pb macros service flavor disable_version) []))
spell-generate_interface pb macros service flavor disable_version =
    spell_of_Closes (generate_interface-Closes pb macros service flavor disable_version)
