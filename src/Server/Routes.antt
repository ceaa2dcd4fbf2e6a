-- ===== src/Server/Routes.antt =====
-- The routes in the server's file.
mod Handlers
mod Channels
use rsocket_rpc_kotlin.Base.{
  String, Bytes, codes, Bool, true, false, List, [], ◌∷◌, ◌++◌, Option, none, some, map, ◌≡◌, refl,
  ap, is_empty,
}
use rsocket_rpc_kotlin.Printer.{Action, print_raw, calls, each}
use rsocket_rpc_kotlin.Printer.Routes.{
  Interaction, fire_and_forget_call, request_response_call, request_stream_call,
  request_channel_call, Route, routes, scan_routes, interaction_after,
}
use rsocket_rpc_kotlin.Printer.Routed.{
  Routed, Still, Routed-append, Still-append, Still-nil, Routed-each, Still-each, Alone,
  Alone-append, Still-Alone, Alone-each, Alone-Routed, Routed-trailing, Alone-trailing,
  routes_of_Routed,
}
use rsocket_rpc_kotlin.Descriptor.{
  ServiceDescriptor, MethodDescriptor, ProtoFlavor, Protobuf, Macros,
}
use rsocket_rpc_kotlin.Names.{method_field_name}
use rsocket_rpc_kotlin.Package.{service_kotlin_package, under_version}
use rsocket_rpc_kotlin.Package.Constants.{constant}
use rsocket_rpc_kotlin.Package.Routes.{
  untold, told, told_by, interaction_of, Still-under_version, package_line-Still,
  server_package_line-Still, package_variable-Still,
}
use rsocket_rpc_kotlin.Server.Kinds.{Kinds, sort_methods}
use rsocket_rpc_kotlin.Server.Kinds.Sorted.{
  all_methods, sort_methods_lem, AreSorted, IsFireAndForget, IsRequestResponse, IsRequestStream,
  IsRequestChannel,
}
use rsocket_rpc_kotlin.Server.{
  server_variables, server_version, server_header, server_trace_type, server_trace_field,
  server_init, server_untraced, server_init_else, server_traced, server_init_end, server_service,
  server_serializer, server_deserializer, print_server, server_class_names, generate_server,
}
use Handlers.{kinds_routes, server_handlers-Routed}
use rsocket_rpc_kotlin.Base.{All}
use mathlib.Core.List.{map-append}

server_class_names-Still : Still server_class_names
unfolding server_class_names scan_routes interaction_after
server_class_names-Still last = record { holds = λ v. refl; ends = refl }

server_version-Still : (macros : Macros) → Still (server_version macros)
unfolding server_version scan_routes interaction_after
server_version-Still macros last = record { holds = λ v. refl; ends = refl }

server_variables-Still :
    (macros : Macros) (service : ServiceDescriptor) (dv : Bool)
    → Still (server_variables macros service dv)
unfolding server_variables scan_routes interaction_after
server_variables-Still macros service dv last =
    let rest = Still-under_version macros dv _ (server_version-Still macros) last in
    record { holds = λ v. rest.holds v; ends = rest.ends }

server_header-Still : Still server_header
unfolding server_header scan_routes interaction_after
server_header-Still last = record { holds = λ v. refl; ends = refl }

server_trace_type-Still : (cs ss ff : Bool) → Still (server_trace_type cs ss ff)
unfolding server_trace_type scan_routes interaction_after
server_trace_type-Still true true ff last = record { holds = λ v. refl; ends = refl }
server_trace_type-Still true false ff last = record { holds = λ v. refl; ends = refl }
server_trace_type-Still false true ff last = record { holds = λ v. refl; ends = refl }
server_trace_type-Still false false true last = record { holds = λ v. refl; ends = refl }
server_trace_type-Still false false false last = record { holds = λ v. refl; ends = refl }

server_trace_field-Still : (m : MethodDescriptor) → Still (server_trace_field m)
unfolding server_trace_field scan_routes interaction_after
server_trace_field-Still m last =
    let rest =
      server_trace_type-Still m.client_streaming m.server_streaming m.options.fire_and_forget
        last in
    record { holds = λ v. rest.holds v; ends = rest.ends }

server_init-Still : Still server_init
unfolding server_init scan_routes interaction_after
server_init-Still last = record { holds = λ v. refl; ends = refl }

server_untraced-Still : (m : MethodDescriptor) → Still (server_untraced m)
unfolding server_untraced scan_routes interaction_after
server_untraced-Still m last = record { holds = λ v. refl; ends = refl }

server_init_else-Still : Still server_init_else
unfolding server_init_else scan_routes interaction_after
server_init_else-Still last = record { holds = λ v. refl; ends = refl }

server_traced-Routed : (m : MethodDescriptor) → Routed none (server_traced m) (untold m ∷ []) none
unfolding server_traced scan_routes interaction_after
server_traced-Routed m = record { holds = λ v. refl; ends = refl }

server_init_end-Still : Still server_init_end
unfolding server_init_end scan_routes interaction_after
server_init_end-Still last = record { holds = λ v. refl; ends = refl }

server_service-Still : Still server_service
unfolding server_service scan_routes interaction_after
server_service-Still last = record { holds = λ v. refl; ends = refl }

server_serializer-Still : Still server_serializer
unfolding server_serializer scan_routes interaction_after
server_serializer-Still last = record { holds = λ v. refl; ends = refl }

server_deserializer-Still : Still server_deserializer
unfolding server_deserializer scan_routes interaction_after
server_deserializer-Still last = record { holds = λ v. refl; ends = refl }

module _ (i : Interaction) (P : MethodDescriptor → Type 0)
    (same : (m : MethodDescriptor)
      → P m
      → interaction_of m.client_streaming m.server_streaming m.options.fire_and_forget ≡ i) where
  map-told_by : (ms : List MethodDescriptor) → All P ms → map (told_by i) ms ≡ map told ms
  map-told_by [] h = refl
  map-told_by (m ∷ ms) (p, h) = rw (map-told_by ms h, same m p) refl

told-fire_and_forget :
    (cs ss ff : Bool)
    → cs ≡ false
    → ss ≡ false
    → ff ≡ true
    → interaction_of cs ss ff ≡ fire_and_forget_call
told-fire_and_forget cs ss ff ec es ef = rw (ec, es, ef) refl

told-request_response :
    (cs ss ff : Bool)
    → cs ≡ false
    → ss ≡ false
    → ff ≡ false
    → interaction_of cs ss ff ≡ request_response_call
told-request_response cs ss ff ec es ef = rw (ec, es, ef) refl

told-request_stream :
    (cs ss ff : Bool) → cs ≡ false → ss ≡ true → interaction_of cs ss ff ≡ request_stream_call
told-request_stream cs ss ff ec es = rw (ec, es) refl

told-request_channel :
    (cs ss ff : Bool) → cs ≡ true → interaction_of cs ss ff ≡ request_channel_call
told-request_channel cs ss ff ec = rw ec refl

-- Sorted vectors have the routes of their methods' kinds.
pub kinds_routes-AreSorted :
    (kinds : Kinds) → AreSorted kinds → kinds_routes kinds ≡ map told (all_methods kinds)
kinds_routes-AreSorted kinds h =
    rw
      (
        map-told_by fire_and_forget_call IsFireAndForget
            (λ m (c, s, f). told-fire_and_forget _ _ _ c s f) kinds.fire_and_forget
            h.fire_and_forget,
        map-told_by request_response_call IsRequestResponse
            (λ m (c, s, f). told-request_response _ _ _ c s f) kinds.request_response
            h.request_response,
        map-told_by request_stream_call IsRequestStream
            (λ m (c, s). told-request_stream _ _ m.options.fire_and_forget c s) kinds.request_stream
            h.request_stream,
        map-told_by request_channel_call IsRequestChannel
            (λ m c. told-request_channel _ m.server_streaming m.options.fire_and_forget c)
            kinds.request_channel h.request_channel,
        map-append told kinds.fire_and_forget _,
        map-append told kinds.request_response _,
        map-append told kinds.request_stream kinds.request_channel,
      )
      refl

print_server-Routed :
    (pb : Protobuf) (macros : Macros) (service : ServiceDescriptor) (flavor : ProtoFlavor)
    (dv : Bool)
    → (now : Option Interaction) × Routed none
        (print_server pb macros service flavor dv)
        (map untold service.methods ++ kinds_routes (sort_methods service.methods))
        now
unfolding print_server
print_server-Routed pb macros service flavor dv =
    let ms = service.methods in
    (
      _,
      Routed-append (server_variables-Still macros service dv none) (
          Routed-append (server_header-Still none) (
            Routed-append (Still-each ms server_trace_field-Still none) (
              Routed-append (server_init-Still none) (
                Routed-append (Still-each ms server_untraced-Still none) (
                  Routed-append (server_init_else-Still none) (
                    Routed-append (Routed-each untold ms server_traced-Routed) (
                      Routed-append (server_init_end-Still none) (
                        Routed-append (server_service-Still none) (
                          Routed-trailing (
                            Routed-append (server_handlers-Routed pb (sort_methods ms) none) (
                              Routed-append (server_serializer-Still _)
                                (server_deserializer-Still _)))))))))))),
    )

-- The server names the constant of each method in its tracing, and then in the handlers.
pub routes-generate_server :
    (pb : Protobuf) (macros : Macros) (service : ServiceDescriptor) (flavor : ProtoFlavor)
    (disable_version : Bool)
    → routes none (calls (generate_server pb macros service flavor disable_version) [])
      ≡ map untold service.methods ++ kinds_routes (sort_methods service.methods)
unfolding generate_server
routes-generate_server pb macros service flavor disable_version =
    let (now, rest) = print_server-Routed pb macros service flavor disable_version in
    routes_of_Routed (
      Routed-append (server_class_names-Still none) (
        Routed-append (server_package_line-Still (service_kotlin_package pb service.file) none)
          (Routed-append (package_variable-Still service.file none) rest)))
