-- ===== src/Client/Constants.antt =====
-- The constants that the client's file uses.
use rsocket_rpc_kotlin.Base.{Bytes, Bool, true, false, [], ◌∷◌, ◌++◌, Option, map, ◌≡◌, refl}
use rsocket_rpc_kotlin.Printer.{calls}
use rsocket_rpc_kotlin.Printer.Mentions.{
  scan, mentioned, Mentions, Mentions-append, Mentions-each, Mentions-each_nil,
  mentioned_of_Mentions, trailing,
}
use rsocket_rpc_kotlin.Descriptor.{
  ServiceDescriptor, MethodDescriptor, ProtoFlavor, Protobuf, Macros,
}
use rsocket_rpc_kotlin.Package.{service_kotlin_package}
use rsocket_rpc_kotlin.Package.Constants.{
  constant, Quiet, Quiet-under_version, package_line-Quiet, package_variable-Quiet,
}
use rsocket_rpc_kotlin.Client.Method.{
  client_method_names, client_call_name, client_call_parameters, client_call_body,
  client_override_name, client_override_parameters, client_override_return, client_channel_map,
  client_channel_result, client_channel_end, client_channel_body, client_request_map,
  client_request_call, client_request_end, client_request_body, client_override_body,
  client_method_lines, client_method,
}
use rsocket_rpc_kotlin.Client.{
  client_variables, client_version, client_header, client_trace_type, client_trace_field,
  client_init, client_untraced, client_init_else, client_traced, client_init_end, client_serialize,
  client_deserializer, print_client, client_class_names, generate_client,
}

client_class_names-Quiet : Quiet client_class_names
unfolding client_class_names scan
client_class_names-Quiet = record { holds = λ v. refl }

client_version-Quiet : (macros : Macros) → Quiet (client_version macros)
unfolding client_version scan
client_version-Quiet macros = record { holds = λ v. refl }

client_variables-Quiet :
    (macros : Macros) (service : ServiceDescriptor) (dv : Bool)
    → Quiet (client_variables macros service dv)
unfolding client_variables scan
client_variables-Quiet macros service dv = record {
  holds = λ v. (Quiet-under_version macros dv _ (client_version-Quiet macros)).holds v;
}

client_header-Quiet : Quiet client_header
unfolding client_header scan
client_header-Quiet = record { holds = λ v. refl }

client_trace_type-Quiet : (cs ss ff : Bool) → Quiet (client_trace_type cs ss ff)
unfolding client_trace_type scan
client_trace_type-Quiet true true ff = record { holds = λ v. refl }
client_trace_type-Quiet true false ff = record { holds = λ v. refl }
client_trace_type-Quiet false true ff = record { holds = λ v. refl }
client_trace_type-Quiet false false true = record { holds = λ v. refl }
client_trace_type-Quiet false false false = record { holds = λ v. refl }

client_trace_field-Quiet : (pb : Protobuf) (m : MethodDescriptor) → Quiet (client_trace_field pb m)
unfolding client_trace_field scan
client_trace_field-Quiet pb m = record {
  holds = λ v.
      (client_trace_type-Quiet m.client_streaming m.server_streaming
          m.options.fire_and_forget).holds
        v;
}

client_init-Quiet : Quiet client_init
unfolding client_init scan
client_init-Quiet = record { holds = λ v. refl }

client_untraced-Quiet : (m : MethodDescriptor) → Quiet (client_untraced m)
unfolding client_untraced scan
client_untraced-Quiet m = record { holds = λ v. refl }

client_init_else-Quiet : Quiet client_init_else
unfolding client_init_else scan
client_init_else-Quiet = record { holds = λ v. refl }

client_traced-Mentions :
    (m : MethodDescriptor) → Mentions "method_field_name" (client_traced m) (constant m ∷ [])
unfolding client_traced scan
client_traced-Mentions m = record { holds = λ v. refl }

client_init_end-Quiet : Quiet client_init_end
unfolding client_init_end scan
client_init_end-Quiet = record { holds = λ v. refl }

-- The lines of a method name its constant once, whatever its kind.
scan-client_method_lines :
    (cs ss ff : Bool) (v : Option Bytes)
    → scan "method_field_name" v (client_method_lines cs ss ff) ≡ v ∷ []
unfolding client_method_lines scan client_call_name client_call_parameters client_call_body
    client_override_name client_override_parameters client_override_return client_override_body
    client_channel_body client_channel_map client_channel_result client_channel_end
    client_request_body client_request_map client_request_call client_request_end
scan-client_method_lines true true ff v = refl
scan-client_method_lines true false ff v = refl
scan-client_method_lines false true ff v = refl
scan-client_method_lines false false true v = refl
scan-client_method_lines false false false v = refl

client_method-Mentions :
    (pb : Protobuf) (m : MethodDescriptor)
    → Mentions "method_field_name" (client_method pb m) (constant m ∷ [])
unfolding client_method client_method_names scan
client_method-Mentions pb m = record {
  holds = λ v.
      scan-client_method_lines m.client_streaming m.server_streaming m.options.fire_and_forget
        (constant m);
}

client_serialize-Quiet : Quiet client_serialize
unfolding client_serialize scan
client_serialize-Quiet = record { holds = λ v. refl }

client_deserializer-Quiet : Quiet client_deserializer
unfolding client_deserializer scan
client_deserializer-Quiet = record { holds = λ v. refl }

print_client-Mentions :
    (pb : Protobuf) (macros : Macros) (service : ServiceDescriptor) (flavor : ProtoFlavor)
    (dv : Bool)
    → Mentions "method_field_name"
        (print_client pb macros service flavor dv)
        (map constant service.methods ++ map constant service.methods)
unfolding print_client
print_client-Mentions pb macros service flavor dv =
    let ms = service.methods in
    Mentions-append (client_variables-Quiet macros service dv) (
      Mentions-append (client_header-Quiet) (
        Mentions-append (Mentions-each_nil ms (client_trace_field-Quiet pb)) (
          Mentions-append (client_init-Quiet) (
            Mentions-append (Mentions-each_nil ms client_untraced-Quiet) (
              Mentions-append (client_init_else-Quiet) (
                Mentions-append (Mentions-each constant ms client_traced-Mentions) (
                  Mentions-append (client_init_end-Quiet) (
                    trailing (
                      Mentions-append (Mentions-each constant ms (client_method-Mentions pb))
                        (Mentions-append client_serialize-Quiet client_deserializer-Quiet))))))))))

-- The client names the constant of each method in its tracing, and then where it encodes a request.
pub mentioned-generate_client :
    (pb : Protobuf) (macros : Macros) (service : ServiceDescriptor) (flavor : ProtoFlavor)
    (disable_version : Bool)
    → mentioned "method_field_name"
        (calls (generate_client pb macros service flavor disable_version) [])
      ≡ map constant service.methods ++ map constant service.methods
unfolding generate_client
mentioned-generate_client pb macros service flavor disable_version = mentioned_of_Mentions (
    Mentions-append client_class_names-Quiet (
      Mentions-append (package_line-Quiet (service_kotlin_package pb service.file)) (
        Mentions-append (package_variable-Quiet service.file)
          (print_client-Mentions pb macros service flavor disable_version))))
