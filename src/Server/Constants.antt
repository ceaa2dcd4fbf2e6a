-- ===== src/Server/Constants.antt =====
-- The constants that the server's file uses.
mod Handlers
use rsocket_rpc_kotlin.Base.{
  String, Bytes, codes, Bool, true, false, List, [], ◌∷◌, ◌++◌, Option, none, some, map, ◌≡◌, refl,
  ap, append-nil, is_empty,
}
use rsocket_rpc_kotlin.Printer.{Action, print_raw, calls, each}
use rsocket_rpc_kotlin.Printer.Mentions.{
  scan, mentioned, Mentions, Mentions-append, Mentions-each, Mentions-each_nil,
  mentioned_of_Mentions, Mentions-to, trailing,
}
use rsocket_rpc_kotlin.Descriptor.{
  ServiceDescriptor, MethodDescriptor, ProtoFlavor, Protobuf, Macros,
}
use rsocket_rpc_kotlin.Names.{method_field_name}
use rsocket_rpc_kotlin.Package.{service_kotlin_package, under_version}
use rsocket_rpc_kotlin.Package.Constants.{
  constant, Quiet, Quiet-under_version, package_line-Quiet, server_package_line-Quiet,
  package_variable-Quiet,
}
use rsocket_rpc_kotlin.Server.Kinds.{sort_methods}
use rsocket_rpc_kotlin.Server.Kinds.Sorted.{all_methods}
use rsocket_rpc_kotlin.Server.{
  server_variables, server_version, server_header, server_trace_type, server_trace_field,
  server_init, server_untraced, server_init_else, server_traced, server_init_end, server_service,
  server_serializer, server_deserializer, print_server, server_class_names, generate_server,
}
use Handlers.{server_handlers-Mentions}

server_class_names-Quiet : Quiet server_class_names
unfolding server_class_names scan
server_class_names-Quiet = record { holds = λ v. refl }

server_version-Quiet : (macros : Macros) → Quiet (server_version macros)
unfolding server_version scan
server_version-Quiet macros = record { holds = λ v. refl }

server_variables-Quiet :
    (macros : Macros) (service : ServiceDescriptor) (dv : Bool)
    → Quiet (server_variables macros service dv)
unfolding server_variables scan
server_variables-Quiet macros service dv = record {
  holds = λ v. (Quiet-under_version macros dv _ (server_version-Quiet macros)).holds v;
}

server_header-Quiet : Quiet server_header
unfolding server_header scan
server_header-Quiet = record { holds = λ v. refl }

server_trace_type-Quiet : (cs ss ff : Bool) → Quiet (server_trace_type cs ss ff)
unfolding server_trace_type scan
server_trace_type-Quiet true true ff = record { holds = λ v. refl }
server_trace_type-Quiet true false ff = record { holds = λ v. refl }
server_trace_type-Quiet false true ff = record { holds = λ v. refl }
server_trace_type-Quiet false false true = record { holds = λ v. refl }
server_trace_type-Quiet false false false = record { holds = λ v. refl }

server_trace_field-Quiet : (m : MethodDescriptor) → Quiet (server_trace_field m)
unfolding server_trace_field scan
server_trace_field-Quiet m = record {
  holds = λ v.
      (server_trace_type-Quiet m.client_streaming m.server_streaming
          m.options.fire_and_forget).holds
        v;
}

server_init-Quiet : Quiet server_init
unfolding server_init scan
server_init-Quiet = record { holds = λ v. refl }

server_untraced-Quiet : (m : MethodDescriptor) → Quiet (server_untraced m)
unfolding server_untraced scan
server_untraced-Quiet m = record { holds = λ v. refl }

server_init_else-Quiet : Quiet server_init_else
unfolding server_init_else scan
server_init_else-Quiet = record { holds = λ v. refl }

server_traced-Mentions :
    (m : MethodDescriptor) → Mentions "method_field_name" (server_traced m) (constant m ∷ [])
unfolding server_traced scan
server_traced-Mentions m = record { holds = λ v. refl }

server_init_end-Quiet : Quiet server_init_end
unfolding server_init_end scan
server_init_end-Quiet = record { holds = λ v. refl }

server_service-Quiet : Quiet server_service
unfolding server_service scan
server_service-Quiet = record { holds = λ v. refl }

server_serializer-Quiet : Quiet server_serializer
unfolding server_serializer scan
server_serializer-Quiet = record { holds = λ v. refl }

server_deserializer-Quiet : Quiet server_deserializer
unfolding server_deserializer scan
server_deserializer-Quiet = record { holds = λ v. refl }

print_server-Mentions :
    (pb : Protobuf) (macros : Macros) (service : ServiceDescriptor) (flavor : ProtoFlavor)
    (dv : Bool)
    → Mentions "method_field_name"
        (print_server pb macros service flavor dv)
        (map constant service.methods ++ map constant (all_methods (sort_methods service.methods)))
unfolding print_server
print_server-Mentions pb macros service flavor dv =
    let ms = service.methods in
    Mentions-append (server_variables-Quiet macros service dv) (
      Mentions-append (server_header-Quiet) (
        Mentions-append (Mentions-each_nil ms server_trace_field-Quiet) (
          Mentions-append (server_init-Quiet) (
            Mentions-append (Mentions-each_nil ms server_untraced-Quiet) (
              Mentions-append (server_init_else-Quiet) (
                Mentions-append (Mentions-each constant ms server_traced-Mentions) (
                  Mentions-append (server_init_end-Quiet) (
                    Mentions-append (server_service-Quiet) (
                      trailing (
                        Mentions-append (server_handlers-Mentions pb (sort_methods ms)) (
                          Mentions-append server_serializer-Quiet
                            server_deserializer-Quiet)))))))))))

-- The server names the constant of each method in its tracing, and then in the handler of its kind.
pub mentioned-generate_server :
    (pb : Protobuf) (macros : Macros) (service : ServiceDescriptor) (flavor : ProtoFlavor)
    (disable_version : Bool)
    → mentioned "method_field_name"
        (calls (generate_server pb macros service flavor disable_version) [])
      ≡ map constant service.methods ++ map constant (all_methods (sort_methods service.methods))
unfolding generate_server
mentioned-generate_server pb macros service flavor disable_version = mentioned_of_Mentions (
    Mentions-append server_class_names-Quiet (
      Mentions-append (server_package_line-Quiet (service_kotlin_package pb service.file)) (
        Mentions-append (package_variable-Quiet service.file)
          (print_server-Mentions pb macros service flavor disable_version))))
