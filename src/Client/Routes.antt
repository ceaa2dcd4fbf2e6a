-- ===== src/Client/Routes.antt =====
-- The routes in the client's file.
use rsocket_rpc_kotlin.Base.{
  Bytes, Bool, true, false, [], ◌∷◌, ◌++◌, Option, none, some, map, ◌≡◌, refl,
}
use rsocket_rpc_kotlin.Printer.{calls}
use rsocket_rpc_kotlin.Printer.Routes.{Interaction, routes, scan_routes, interaction_after}
use rsocket_rpc_kotlin.Printer.Routed.{
  Routed, Still, Routed-append, Still-append, Routed-each, Still-each, Alone, Alone-append,
  Still-Alone, Alone-each, Alone-Routed, Alone-trailing, routes_of_Routed,
}
use rsocket_rpc_kotlin.Descriptor.{
  ServiceDescriptor, MethodDescriptor, ProtoFlavor, Protobuf, Macros,
}
use rsocket_rpc_kotlin.Package.{service_kotlin_package}
use rsocket_rpc_kotlin.Package.Constants.{constant}
use rsocket_rpc_kotlin.Package.Routes.{
  untold, told, interaction_of, Still-under_version, package_line-Still, package_variable-Still,
}
use rsocket_rpc_kotlin.Client.Method.{
  client_method_names, client_call_name, client_call_parameters, client_call_body,
  client_override_name, client_override_parameters, client_override_return, client_channel_map,
  client_channel_result, client_channel_end, client_channel_body, client_request_map,
  client_request_call, client_request_end, client_request_body, client_override_body,
  client_method_lines, client_method,
}
use rsocket_rpc_kotlin.Client.{
  client_variables, client_version, client_header, client_trace_type, client_trace_field,
  client_init, client_untraced, client_init_else, client_traced, client_init_end, client_serialize,
  client_deserializer, print_client, client_class_names, generate_client,
}

client_class_names-Still : Still client_class_names
unfolding client_class_names scan_routes interaction_after
client_class_names-Still last = record { holds = λ v. refl; ends = refl }

client_version-Still : (macros : Macros) → Still (client_version macros)
unfolding client_version scan_routes interaction_after
client_version-Still macros last = record { holds = λ v. refl; ends = refl }

client_variables-Still :
    (macros : Macros) (service : ServiceDescriptor) (dv : Bool)
    → Still (client_variables macros service dv)
unfolding client_variables scan_routes interaction_after
client_variables-Still macros service dv last =
    let rest = Still-under_version macros dv _ (client_version-Still macros) last in
    record { holds = λ v. rest.holds v; ends = rest.ends }

client_header-Still : Still client_header
unfolding client_header scan_routes interaction_after
client_header-Still last = record { holds = λ v. refl; ends = refl }

client_trace_type-Still : (cs ss ff : Bool) → Still (client_trace_type cs ss ff)
unfolding client_trace_type scan_routes interaction_after
client_trace_type-Still true true ff last = record { holds = λ v. refl; ends = refl }
client_trace_type-Still true false ff last = record { holds = λ v. refl; ends = refl }
client_trace_type-Still false true ff last = record { holds = λ v. refl; ends = refl }
client_trace_type-Still false false true last = record { holds = λ v. refl; ends = refl }
client_trace_type-Still false false false last = record { holds = λ v. refl; ends = refl }

client_trace_field-Still : (pb : Protobuf) (m : MethodDescriptor) → Still (client_trace_field pb m)
unfolding client_trace_field scan_routes interaction_after
client_trace_field-Still pb m last =
    let rest =
      client_trace_type-Still m.client_streaming m.server_streaming m.options.fire_and_forget
        last in
    record { holds = λ v. rest.holds v; ends = rest.ends }

client_init-Still : Still client_init
unfolding client_init scan_routes interaction_after
client_init-Still last = record { holds = λ v. refl; ends = refl }

client_untraced-Still : (m : MethodDescriptor) → Still (client_untraced m)
unfolding client_untraced scan_routes interaction_after
client_untraced-Still m last = record { holds = λ v. refl; ends = refl }

client_init_else-Still : Still client_init_else
unfolding client_init_else scan_routes interaction_after
client_init_else-Still last = record { holds = λ v. refl; ends = refl }

client_traced-Routed : (m : MethodDescriptor) → Routed none (client_traced m) (untold m ∷ []) none
unfolding client_traced scan_routes interaction_after
client_traced-Routed m = record { holds = λ v. refl; ends = refl }

client_init_end-Still : Still client_init_end
unfolding client_init_end scan_routes interaction_after
client_init_end-Still last = record { holds = λ v. refl; ends = refl }

-- The lines of a method name its constant once, with the interaction of its kind.
routes-client_method_lines :
    (cs ss ff : Bool) (last : Option Interaction) (v : Option Bytes)
    → scan_routes last v (client_method_lines cs ss ff) ≡ (some (interaction_of cs ss ff), v) ∷ []
unfolding client_method_lines scan_routes client_call_name client_call_parameters client_call_body
    client_override_name client_override_parameters client_override_return client_override_body
    client_channel_body client_channel_map client_channel_result client_channel_end
    client_request_body client_request_map client_request_call client_request_end
routes-client_method_lines true true ff last v = refl
routes-client_method_lines true false ff last v = refl
routes-client_method_lines false true ff last v = refl
routes-client_method_lines false false true last v = refl
routes-client_method_lines false false false last v = refl

client_method-Alone :
    (pb : Protobuf) (m : MethodDescriptor) → Alone (client_method pb m) (told m ∷ [])
unfolding client_method client_method_names scan_routes
client_method-Alone pb m = record {
  holds = λ last v.
      routes-client_method_lines m.client_streaming m.server_streaming m.options.fire_and_forget
        last (constant m);
}

client_serialize-Still : Still client_serialize
unfolding client_serialize scan_routes interaction_after
client_serialize-Still last = record { holds = λ v. refl; ends = refl }

client_deserializer-Still : Still client_deserializer
unfolding client_deserializer scan_routes interaction_after
client_deserializer-Still last = record { holds = λ v. refl; ends = refl }

print_client-Routed :
    (pb : Protobuf) (macros : Macros) (service : ServiceDescriptor) (flavor : ProtoFlavor)
    (dv : Bool)
    → (now : Option Interaction) × Routed none
        (print_client pb macros service flavor dv)
        (map untold service.methods ++ map told service.methods)
        now
unfolding print_client
print_client-Routed pb macros service flavor dv =
    let ms = service.methods in
    (
      _,
      Routed-append (client_variables-Still macros service dv none) (
          Routed-append (client_header-Still none) (
            Routed-append (Still-each ms (client_trace_field-Still pb) none) (
              Routed-append (client_init-Still none) (
                Routed-append (Still-each ms client_untraced-Still none) (
                  Routed-append (client_init_else-Still none) (
                    Routed-append (Routed-each untold ms client_traced-Routed) (
                      Routed-append (client_init_end-Still none) (
                        Alone-Routed (
                          Alone-trailing (
                            Alone-append (Alone-each told ms (client_method-Alone pb)) (
                              Still-Alone (
                                Still-append client_serialize-Still
                                  client_deserializer-Still)))))))))))),
    )

-- The client names the constant of each method in its tracing, and then with the interaction of its kind.
pub routes-generate_client :
    (pb : Protobuf) (macros : Macros) (service : ServiceDescriptor) (flavor : ProtoFlavor)
    (disable_version : Bool)
    → routes none (calls (generate_client pb macros service flavor disable_version) [])
      ≡ map untold service.methods ++ map told service.methods
unfolding generate_client
routes-generate_client pb macros service flavor disable_version =
    let (now, rest) = print_client-Routed pb macros service flavor disable_version in
    routes_of_Routed (
      Routed-append (client_class_names-Still none) (
        Routed-append (package_line-Still (service_kotlin_package pb service.file) none)
          (Routed-append (package_variable-Still service.file none) rest)))
