-- ===== src/Interface/Layout.antt =====
-- The layout of the interface's file.
use rsocket_rpc_kotlin.Base.{ℕ, suc, Bytes, Bool, true, false, [], ◌∷◌, refl}
use rsocket_rpc_kotlin.Printer.Meter.{meter, Runs-append, Runs-each, Lays, layout_step}
use rsocket_rpc_kotlin.Descriptor.{
  ServiceDescriptor, MethodDescriptor, ProtoFlavor, Protobuf, Macros,
}
use rsocket_rpc_kotlin.Doc.Layout.{write_service_doc_comment-Lays, write_method_doc_comment-Lays}
use rsocket_rpc_kotlin.Package.{service_kotlin_package}
use rsocket_rpc_kotlin.Package.Layout.{under_version-Lays, package_line-Lays, package_variable-Lays}
use rsocket_rpc_kotlin.Interface.{
  interface_variables, interface_version, interface_header, interface_constant, interface_fun,
  interface_parameters, interface_return, interface_method_names, interface_method,
  interface_constants_end, interface_end, print_interface, interface_class_names,
  generate_interface,
}

module _ (n u : ℕ) (s : Bytes) where
  interface_parameters-Lays : (cs : Bool) → Lays (n, u, s) (interface_parameters cs) (n, u, s)
  unfolding meter layout_step interface_parameters
  interface_parameters-Lays true = record { ran = refl }
  interface_parameters-Lays false = record { ran = refl }

  interface_return-Lays : (cs ss ff : Bool) → Lays (n, u, s) (interface_return cs ss ff) (n, u, s)
  unfolding meter layout_step interface_return
  interface_return-Lays cs true ff = record { ran = refl }
  interface_return-Lays true false ff = record { ran = refl }
  interface_return-Lays false false true = record { ran = refl }
  interface_return-Lays false false false = record { ran = refl }

  interface_method_names-Lays :
      (pb : Protobuf) (m : MethodDescriptor)
      → Lays (n, u, s) (interface_method_names pb m) (n, u, s)
  unfolding meter layout_step interface_method_names
  interface_method_names-Lays pb m = record { ran = refl }

  interface_fun-Lays : Lays (n, u, s) interface_fun (n, u, s)
  unfolding meter layout_step interface_fun
  interface_fun-Lays = record { ran = refl }

  interface_method-Lays :
      (pb : Protobuf) (m : MethodDescriptor) → Lays (n, u, s) (interface_method pb m) (n, u, s)
  unfolding interface_method
  interface_method-Lays pb m = Runs-append (interface_method_names-Lays pb m) (
      Runs-append (write_method_doc_comment-Lays m (n, u, s)) (
        Runs-append interface_fun-Lays (
          Runs-append (interface_parameters-Lays m.client_streaming) (
            interface_return-Lays m.client_streaming m.server_streaming
              m.options.fire_and_forget))))

  interface_variables-Lays :
      (macros : Macros) (service : ServiceDescriptor) (dv : Bool)
      → Lays (n, u, s) (interface_variables macros service dv) (n, u, s)
  unfolding meter layout_step interface_variables interface_version
  interface_variables-Lays macros service dv = record {
    ran = (under_version-Lays macros dv (n, u, s) _ (record { ran = refl })).ran;
  }

  interface_header-Lays : Lays (n, u, s) interface_header (suc (suc n), u, b'{' ∷ b'{' ∷ s)
  unfolding meter layout_step interface_header
  interface_header-Lays = record { ran = refl }

  interface_constant-Lays : (m : MethodDescriptor) → Lays (n, u, s) (interface_constant m) (n, u, s)
  unfolding meter layout_step interface_constant
  interface_constant-Lays m = record { ran = refl }

  interface_constants_end-Lays : Lays (suc n, u, b'{' ∷ s) interface_constants_end (n, u, s)
  unfolding meter layout_step interface_constants_end
  interface_constants_end-Lays = record { ran = refl }

  interface_end-Lays : Lays (suc n, u, b'{' ∷ s) interface_end (n, u, s)
  unfolding meter layout_step interface_end
  interface_end-Lays = record { ran = refl }

  interface_class_names-Lays : Lays (n, u, s) interface_class_names (n, u, s)
  unfolding meter layout_step interface_class_names
  interface_class_names-Lays = record { ran = refl }

-- Comments included, the body of the file ends where it began.
print_interface-Lays :
    (n u : ℕ) (s : Bytes) (pb : Protobuf) (macros : Macros) (service : ServiceDescriptor)
    (flavor : ProtoFlavor) (dv : Bool)
    → Lays (n, u, s) (print_interface pb macros service flavor dv) (n, u, s)
unfolding print_interface
print_interface-Lays n u s pb macros service flavor dv =
    Runs-append (interface_variables-Lays n u s macros service dv) (
      Runs-append (write_service_doc_comment-Lays service (n, u, s)) (
        Runs-append (interface_header-Lays n u s) (
          Runs-append (Runs-each service.methods (interface_constant-Lays _ _ _)) (
            Runs-append (interface_constants_end-Lays (suc n) u (b'{' ∷ s)) (
              Runs-append (Runs-each service.methods (interface_method-Lays _ _ _ pb))
                (interface_end-Lays n u s))))))

-- For every service and every choice of options, the statements of the interface's file call
-- `Outdent()` once for each `Indent()` and never before it, and each bracket in the text of their
-- templates is closed by its partner, the last one opened first.
pub generate_interface-Lays :
    (pb : Protobuf) (macros : Macros) (service : ServiceDescriptor) (flavor : ProtoFlavor)
    (disable_version : Bool)
    → Lays (0, 0, []) (generate_interface pb macros service flavor disable_version) (0, 0, [])
unfolding generate_interface
generate_interface-Lays pb macros service flavor disable_version =
    Runs-append (interface_class_names-Lays 0 0 []) (
      Runs-append (package_line-Lays (service_kotlin_package pb service.file) (0, 0, [])) (
        Runs-append (package_variable-Lays service.file (0, 0, []))
          (print_interface-Lays 0 0 [] pb macros service flavor disable_version)))
