-- ===== src/Server/Layout.antt =====
-- The layout of the server's file.
pub mod Handlers
use rsocket_rpc_kotlin.Base.{ℕ, suc, Bytes, Bool, true, false, List, [], ◌∷◌, ◌++◌, ◌≡◌, refl}
use rsocket_rpc_kotlin.Printer.Meter.{
  meter, Runs, Runs-append, Runs-each, Layout, Lays, layout_step,
}
use rsocket_rpc_kotlin.Descriptor.{
  ServiceDescriptor, MethodDescriptor, ProtoFlavor, Protobuf, Macros,
}
use rsocket_rpc_kotlin.Package.{service_kotlin_package}
use rsocket_rpc_kotlin.Package.Layout.{
  under_version-Lays, server_package_line-Lays, package_variable-Lays,
}
use rsocket_rpc_kotlin.Server.Kinds.{sort_methods}
use rsocket_rpc_kotlin.Server.{
  server_variables, server_version, server_header, server_trace_type, server_trace_field,
  server_init, server_untraced, server_init_else, server_traced, server_init_end, server_service,
  server_serializer, server_deserializer, print_server, server_class_names, generate_server,
}
use Handlers.{left_open, server_handlers-Lays}

module _ (n u : ℕ) (s : Bytes) where
  server_variables-Lays :
      (macros : Macros) (service : ServiceDescriptor) (dv : Bool)
      → Lays (n, u, s) (server_variables macros service dv) (n, u, s)
  unfolding meter layout_step server_variables server_version
  server_variables-Lays macros service dv = record {
    ran = (under_version-Lays macros dv (n, u, s) _ (record { ran = refl })).ran;
  }

  server_class_names-Lays : Lays (n, u, s) server_class_names (n, u, s)
  unfolding meter layout_step server_class_names
  server_class_names-Lays = record { ran = refl }

  server_header-Lays : Lays (n, u, s) server_header (suc n, u, b'{' ∷ s)
  unfolding meter layout_step server_header
  server_header-Lays = record { ran = refl }

  server_trace_type-Lays : (cs ss ff : Bool) → Lays (n, u, s) (server_trace_type cs ss ff) (n, u, s)
  unfolding meter layout_step server_trace_type
  server_trace_type-Lays cs true ff = record { ran = refl }
  server_trace_type-Lays true false ff = record { ran = refl }
  server_trace_type-Lays false false true = record { ran = refl }
  server_trace_type-Lays false false false = record { ran = refl }

  server_trace_field-Lays : (m : MethodDescriptor) → Lays (n, u, s) (server_trace_field m) (n, u, s)
  unfolding meter layout_step server_trace_field
  server_trace_field-Lays m = record {
    ran =
        (server_trace_type-Lays m.client_streaming m.server_streaming
          m.options.fire_and_forget).ran;
  }

  server_init-Lays : Lays (n, u, s) server_init (suc (suc (suc n)), u, b'{' ∷ b'{' ∷ b'{' ∷ s)
  unfolding meter layout_step server_init
  server_init-Lays = record { ran = refl }

  server_untraced-Lays : (m : MethodDescriptor) → Lays (n, u, s) (server_untraced m) (n, u, s)
  unfolding meter layout_step server_untraced
  server_untraced-Lays m = record { ran = refl }

  server_traced-Lays : (m : MethodDescriptor) → Lays (n, u, s) (server_traced m) (n, u, s)
  unfolding meter layout_step server_traced
  server_traced-Lays m = record { ran = refl }

  server_init_else-Lays : Lays (suc n, u, b'{' ∷ s) server_init_else (suc n, u, b'{' ∷ s)
  unfolding meter layout_step server_init_else
  server_init_else-Lays = record { ran = refl }

  server_init_end-Lays :
      Lays (suc (suc (suc n)), u, b'{' ∷ b'{' ∷ b'{' ∷ s) server_init_end (n, u, s)
  unfolding meter layout_step server_init_end
  server_init_end-Lays = record { ran = refl }

  server_service-Lays : Lays (n, u, s) server_service (n, u, s)
  unfolding meter layout_step server_service
  server_service-Lays = record { ran = refl }

  server_serializer-Lays : Lays (n, u, s) server_serializer (n, u, b'{' ∷ s)
  unfolding meter layout_step server_serializer
  server_serializer-Lays = record { ran = refl }

-- How deep the file ends, and how often `Outdent()` found nothing to take back.
abbrev pub ending : List MethodDescriptor → List MethodDescriptor → Layout
ending [] [] = (0, 1, [])
ending [] (c ∷ cs) = (1, 0, [])
ending (r ∷ rs) [] = (0, 0, [])
ending (r ∷ rs) (c ∷ cs) = (2, 0, [])

server_deserializer-Lays :
    (request_stream request_channel : List MethodDescriptor)
    → Lays
        (
          left_open request_channel (left_open request_channel (left_open request_stream 1)),
          0,
          b'{' ∷ b'{' ∷ [],
        )
        server_deserializer
        (ending request_stream request_channel)
unfolding meter layout_step server_deserializer
server_deserializer-Lays [] [] = record { ran = refl }
server_deserializer-Lays [] (c ∷ cs) = record { ran = refl }
server_deserializer-Lays (r ∷ rs) [] = record { ran = refl }
server_deserializer-Lays (r ∷ rs) (c ∷ cs) = record { ran = refl }

print_server-Lays :
    (pb : Protobuf) (macros : Macros) (service : ServiceDescriptor) (flavor : ProtoFlavor)
    (dv : Bool)
    → let kinds = sort_methods service.methods in
      Lays
        (0, 0, [])
        (print_server pb macros service flavor dv)
        (ending kinds.request_stream kinds.request_channel)
unfolding print_server
print_server-Lays pb macros service flavor dv =
    let ms = service.methods in
    let kinds = sort_methods ms in
    Runs-append (server_variables-Lays 0 0 [] macros service dv) (
      Runs-append (server_header-Lays _ _ _) (
        Runs-append (Runs-each ms (server_trace_field-Lays _ _ _)) (
          Runs-append (server_init-Lays _ _ _) (
            Runs-append (Runs-each ms (server_untraced-Lays _ _ _)) (
              Runs-append (server_init_else-Lays _ _ _) (
                Runs-append (Runs-each ms (server_traced-Lays _ _ _)) (
                  Runs-append (server_init_end-Lays 1 0 (b'{' ∷ [])) (
                    Runs-append (server_service-Lays _ _ _) (
                      Runs-append (server_handlers-Lays 1 0 (b'{' ∷ []) pb kinds) (
                        Runs-append (server_serializer-Lays _ _ _) (
                          server_deserializer-Lays kinds.request_stream
                            kinds.request_channel)))))))))))

-- For every service and every choice of options, each bracket in the text of the templates of the
-- server's file is closed by its partner, the last one opened first. The depth at which the file
-- ends depends on the methods: with a method of kind request-stream or request-channel `Outdent()`
-- is never called before its `Indent()`, and with a method of kind request-channel one or two calls
-- of `Indent()` are left open; with no method of these two kinds exactly one call of `Outdent()` finds
-- the depth 0, where it has nothing to take back, and the file ends at that depth.
pub generate_server-Lays :
    (pb : Protobuf) (macros : Macros) (service : ServiceDescriptor) (flavor : ProtoFlavor)
    (disable_version : Bool)
    → let kinds = sort_methods service.methods in
      Lays
        (0, 0, [])
        (generate_server pb macros service flavor disable_version)
        (ending kinds.request_stream kinds.request_channel)
unfolding generate_server
generate_server-Lays pb macros service flavor disable_version =
    Runs-append (server_class_names-Lays 0 0 []) (
      Runs-append (server_package_line-Lays (service_kotlin_package pb service.file) (0, 0, [])) (
        Runs-append (package_variable-Lays service.file (0, 0, []))
          (print_server-Lays pb macros service flavor disable_version)))
