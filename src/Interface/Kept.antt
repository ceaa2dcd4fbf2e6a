-- ===== src/Interface/Kept.antt =====
-- The statements of the interface's file up to the signature of a method, and the values of the
-- variables then.
use rsocket_rpc_kotlin.Base.{String, Bytes, Bool, true, false, List, [], ◌∷◌, ◌++◌, some, ◌≡◌, refl}
use rsocket_rpc_kotlin.Printer.{Vars, get, Action, each}
use rsocket_rpc_kotlin.Printer.Closed.{contains}
use rsocket_rpc_kotlin.Printer.Closes.{get-put}
use rsocket_rpc_kotlin.Printer.Kept.{
  variables_after, keeps, Keeps, Keeps-append, Keeps-each, get-Keeps, get-set,
}
use rsocket_rpc_kotlin.Descriptor.{ServiceDescriptor, MethodDescriptor, Protobuf, Macros}
use rsocket_rpc_kotlin.Package.{service_kotlin_package, package_line, package_variable}
use rsocket_rpc_kotlin.Package.Kept.{
  class_keys, Keeps-under_version, package_line-Keeps, package_variable-Keeps,
}
use rsocket_rpc_kotlin.Names.{message_full_kotlin_name}
use rsocket_rpc_kotlin.Doc.{write_service_doc_comment, write_method_doc_comment}
use rsocket_rpc_kotlin.Doc.Kept.{write_service_doc_comment-Keeps, write_method_doc_comment-Keeps}
use rsocket_rpc_kotlin.Interface.{
  interface_variables, interface_version, interface_header, interface_constant, interface_fun,
  interface_parameters, interface_return, interface_method_names, interface_method,
  interface_constants_end, interface_class_names,
}

interface_version-Keeps : (macros : Macros) → Keeps class_keys (interface_version macros)
unfolding interface_version keeps
interface_version-Keeps macros = record { holds = refl }

interface_variables-Keeps :
    (macros : Macros) (service : ServiceDescriptor) (dv : Bool)
    → Keeps class_keys (interface_variables macros service dv)
unfolding interface_variables keeps
interface_variables-Keeps macros service dv = record {
  holds = (Keeps-under_version macros dv _ (interface_version-Keeps macros)).holds;
}

interface_header-Keeps : Keeps class_keys interface_header
unfolding interface_header keeps
interface_header-Keeps = record { holds = refl }

interface_constant-Keeps : (m : MethodDescriptor) → Keeps class_keys (interface_constant m)
unfolding interface_constant keeps
interface_constant-Keeps m = record { holds = refl }

interface_method_names-Keeps :
    (pb : Protobuf) (m : MethodDescriptor) → Keeps class_keys (interface_method_names pb m)
unfolding interface_method_names keeps
interface_method_names-Keeps pb m = record { holds = refl }

interface_fun-Keeps : Keeps class_keys interface_fun
unfolding interface_fun keeps
interface_fun-Keeps = record { holds = refl }

interface_parameters-Keeps : (cs : Bool) → Keeps class_keys (interface_parameters cs)
unfolding interface_parameters keeps
interface_parameters-Keeps true = record { holds = refl }
interface_parameters-Keeps false = record { holds = refl }

interface_return-Keeps : (cs ss ff : Bool) → Keeps class_keys (interface_return cs ss ff)
unfolding interface_return keeps
interface_return-Keeps true true ff = record { holds = refl }
interface_return-Keeps true false ff = record { holds = refl }
interface_return-Keeps false true ff = record { holds = refl }
interface_return-Keeps false false true = record { holds = refl }
interface_return-Keeps false false false = record { holds = refl }

interface_method-Keeps :
    (pb : Protobuf) (m : MethodDescriptor) → Keeps class_keys (interface_method pb m)
unfolding interface_method
interface_method-Keeps pb m = Keeps-append (interface_method_names-Keeps pb m) (
    Keeps-append (write_method_doc_comment-Keeps class_keys m) (
      Keeps-append (interface_fun-Keeps) (
        Keeps-append (interface_parameters-Keeps m.client_streaming) (
          interface_return-Keeps m.client_streaming m.server_streaming m.options.fire_and_forget))))

interface_constants_end-Keeps : Keeps class_keys interface_constants_end
unfolding interface_constants_end keeps
interface_constants_end-Keeps = record { holds = refl }

-- The types of a method.
abbrev type_keys : List String
type_keys = "input_type" ∷ "output_type" ∷ []

interface_fun-Keeps_types : Keeps type_keys interface_fun
unfolding interface_fun keeps
interface_fun-Keeps_types = record { holds = refl }

-- The statements from the names of classes to the name of a method's function, where the functions
-- of the methods `before` stand before it.
module _ (pb : Protobuf) (macros : Macros) (service : ServiceDescriptor) (dv : Bool)
    (before : List MethodDescriptor) (m : MethodDescriptor) where
  abbrev before_interface_method : List Action
  before_interface_method =
      package_line (service_kotlin_package pb service.file)
      ++ (package_variable service.file
          ++ (interface_variables macros service dv
              ++ (write_service_doc_comment service
                  ++ (interface_header
                      ++ (each interface_constant service.methods
                          ++ (interface_constants_end ++ each (interface_method pb) before))))))

  abbrev pub interface_upto : List Action
  interface_upto =
      interface_class_names
      ++ (before_interface_method
          ++ (interface_method_names pb m ++ (write_method_doc_comment m ++ interface_fun)))

  before-Keeps : Keeps class_keys before_interface_method
  before-Keeps = Keeps-append (package_line-Keeps _) (
      Keeps-append (package_variable-Keeps _) (
        Keeps-append (interface_variables-Keeps macros service dv) (
          Keeps-append (write_service_doc_comment-Keeps class_keys service) (
            Keeps-append (interface_header-Keeps) (
              Keeps-append (Keeps-each service.methods interface_constant-Keeps) (
                Keeps-append (interface_constants_end-Keeps)
                  (Keeps-each before (interface_method-Keeps pb))))))))

  upto-Keeps : Keeps class_keys (
      before_interface_method
      ++ (interface_method_names pb m ++ (write_method_doc_comment m ++ interface_fun)))
  upto-Keeps = Keeps-append before-Keeps (
      Keeps-append (interface_method_names-Keeps pb m)
        (Keeps-append (write_method_doc_comment-Keeps class_keys m) interface_fun-Keeps))

  pub interface_upto-class :
      (k : String) (v : Bytes)
      → contains class_keys k ≡ true
      → get k (variables_after interface_class_names []) ≡ some v
      → get k (variables_after interface_upto []) ≡ some v
  interface_upto-class k v h e = get-Keeps k interface_class_names v h upto-Keeps e

  tail-Keeps : Keeps type_keys (write_method_doc_comment m ++ interface_fun)
  tail-Keeps = Keeps-append (write_method_doc_comment-Keeps type_keys m) interface_fun-Keeps_types

  interface_method_names-input_type :
      (vars : Vars)
      → get "input_type" (variables_after (interface_method_names pb m) vars)
        ≡ some (message_full_kotlin_name pb m.input_type)
  unfolding interface_method_names variables_after
  interface_method_names-input_type vars = rw (get-put, get-put, get-put) refl

  pub interface_upto-input_type :
      get "input_type" (variables_after interface_upto [])
      ≡ some (message_full_kotlin_name pb m.input_type)
  interface_upto-input_type =
      get-set "input_type" interface_class_names before_interface_method
        (interface_method_names pb m) _ refl tail-Keeps interface_method_names-input_type

  interface_method_names-output_type :
      (vars : Vars)
      → get "output_type" (variables_after (interface_method_names pb m) vars)
        ≡ some (message_full_kotlin_name pb m.output_type)
  unfolding interface_method_names variables_after
  interface_method_names-output_type vars = rw (get-put, get-put) refl

  pub interface_upto-output_type :
      get "output_type" (variables_after interface_upto [])
      ≡ some (message_full_kotlin_name pb m.output_type)
  interface_upto-output_type =
      get-set "output_type" interface_class_names before_interface_method
        (interface_method_names pb m) _ refl tail-Keeps interface_method_names-output_type
