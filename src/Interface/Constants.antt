-- ===== src/Interface/Constants.antt =====
-- The constants that the interface's file declares.
use rsocket_rpc_kotlin.Base.{Bool, true, false, [], ◌∷◌, map, ◌≡◌, refl}
use rsocket_rpc_kotlin.Printer.{calls}
use rsocket_rpc_kotlin.Printer.Mentions.{
  scan, mentioned, Mentions, Mentions-append, Mentions-each, Mentions-each_nil,
  mentioned_of_Mentions, trailing,
}
use rsocket_rpc_kotlin.Descriptor.{
  ServiceDescriptor, MethodDescriptor, ProtoFlavor, Protobuf, Macros,
}
use rsocket_rpc_kotlin.Package.{service_kotlin_package}
use rsocket_rpc_kotlin.Package.Constants.{
  constant, Quiet, Quiet-under_version, package_line-Quiet, package_variable-Quiet,
}
use rsocket_rpc_kotlin.Doc.Constants.{
  write_service_doc_comment-Quiet, write_method_doc_comment-Quiet,
}
use rsocket_rpc_kotlin.Interface.{
  interface_variables, interface_version, interface_header, interface_constant, interface_fun,
  interface_parameters, interface_return, interface_method_names, interface_method,
  interface_constants_end, interface_end, print_interface, interface_class_names,
  generate_interface,
}

interface_class_names-Quiet : Quiet interface_class_names
unfolding interface_class_names scan
interface_class_names-Quiet = record { holds = λ v. refl }

interface_version-Quiet : (macros : Macros) → Quiet (interface_version macros)
unfolding interface_version scan
interface_version-Quiet macros = record { holds = λ v. refl }

interface_variables-Quiet :
    (macros : Macros) (service : ServiceDescriptor) (dv : Bool)
    → Quiet (interface_variables macros service dv)
unfolding interface_variables scan
interface_variables-Quiet macros service dv = record {
  holds = λ v. (Quiet-under_version macros dv _ (interface_version-Quiet macros)).holds v;
}

interface_header-Quiet : Quiet interface_header
unfolding interface_header scan
interface_header-Quiet = record { holds = λ v. refl }

interface_constant-Mentions :
    (m : MethodDescriptor) → Mentions "method_field_name" (interface_constant m) (constant m ∷ [])
unfolding interface_constant scan
interface_constant-Mentions m = record { holds = λ v. refl }

interface_method_names-Quiet :
    (pb : Protobuf) (m : MethodDescriptor) → Quiet (interface_method_names pb m)
unfolding interface_method_names scan
interface_method_names-Quiet pb m = record { holds = λ v. refl }

interface_fun-Quiet : Quiet interface_fun
unfolding interface_fun scan
interface_fun-Quiet = record { holds = λ v. refl }

interface_parameters-Quiet : (cs : Bool) → Quiet (interface_parameters cs)
unfolding interface_parameters scan
interface_parameters-Quiet true = record { holds = λ v. refl }
interface_parameters-Quiet false = record { holds = λ v. refl }

interface_return-Quiet : (cs ss ff : Bool) → Quiet (interface_return cs ss ff)
unfolding interface_return scan
interface_return-Quiet true true ff = record { holds = λ v. refl }
interface_return-Quiet true false ff = record { holds = λ v. refl }
interface_return-Quiet false true ff = record { holds = λ v. refl }
interface_return-Quiet false false true = record { holds = λ v. refl }
interface_return-Quiet false false false = record { holds = λ v. refl }

interface_method-Quiet : (pb : Protobuf) (m : MethodDescriptor) → Quiet (interface_method pb m)
unfolding interface_method
interface_method-Quiet pb m = Mentions-append (interface_method_names-Quiet pb m) (
    Mentions-append (write_method_doc_comment-Quiet m) (
      Mentions-append (interface_fun-Quiet) (
        Mentions-append (interface_parameters-Quiet m.client_streaming) (
          interface_return-Quiet m.client_streaming m.server_streaming m.options.fire_and_forget))))

interface_constants_end-Quiet : Quiet interface_constants_end
unfolding interface_constants_end scan
interface_constants_end-Quiet = record { holds = λ v. refl }

interface_end-Quiet : Quiet interface_end
unfolding interface_end scan
interface_end-Quiet = record { holds = λ v. refl }

print_interface-Mentions :
    (pb : Protobuf) (macros : Macros) (service : ServiceDescriptor) (flavor : ProtoFlavor)
    (dv : Bool)
    → Mentions "method_field_name"
        (print_interface pb macros service flavor dv)
        (map constant service.methods)
unfolding print_interface
print_interface-Mentions pb macros service flavor dv =
    let ms = service.methods in
    Mentions-append (interface_variables-Quiet macros service dv) (
      Mentions-append (write_service_doc_comment-Quiet service) (
        Mentions-append (interface_header-Quiet) (
          trailing (
            Mentions-append (Mentions-each constant ms interface_constant-Mentions) (
              Mentions-append interface_constants_end-Quiet (
                Mentions-append (Mentions-each_nil ms (interface_method-Quiet pb))
                  interface_end-Quiet))))))

-- The interface names the constant of each method once, in the order of the methods.
pub mentioned-generate_interface :
    (pb : Protobuf) (macros : Macros) (service : ServiceDescriptor) (flavor : ProtoFlavor)
    (disable_version : Bool)
    → mentioned "method_field_name"
        (calls (generate_interface pb macros service flavor disable_version) [])
      ≡ map constant service.methods
unfolding generate_interface
mentioned-generate_interface pb macros service flavor disable_version = mentioned_of_Mentions (
    Mentions-append interface_class_names-Quiet (
      Mentions-append (package_line-Quiet (service_kotlin_package pb service.file)) (
        Mentions-append (package_variable-Quiet service.file)
          (print_interface-Mentions pb macros service flavor disable_version))))
