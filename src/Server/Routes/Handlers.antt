-- ===== src/Server/Routes/Handlers.antt =====
-- The routes in the server's handlers.
use rsocket_rpc_kotlin.Base.{List, [], ◌∷◌, ◌++◌, Option, some, map, refl}
use rsocket_rpc_kotlin.Printer.Routes.{
  Interaction, fire_and_forget_call, request_response_call, request_stream_call,
  request_channel_call, Route, scan_routes, interaction_after,
}
use rsocket_rpc_kotlin.Printer.Routed.{Routed, Still, Routed-append, Routed-each, Routed-trailing}
use rsocket_rpc_kotlin.Descriptor.{MethodDescriptor, Protobuf}
use rsocket_rpc_kotlin.Package.Routes.{told_by}
use rsocket_rpc_kotlin.Server.Kinds.{Kinds}
use rsocket_rpc_kotlin.Server.Handlers.{
  fire_and_forget_begin, fire_and_forget_none, fire_and_forget_try, fire_and_forget_case,
  fire_and_forget_catch, fire_and_forget_handler, request_response_begin, request_response_none,
  request_response_try, request_response_case, request_response_catch, request_response_handler,
  request_stream_begin, request_stream_none, request_stream_try, request_stream_case,
  request_stream_catch, request_stream_handler, server_handlers,
}
use rsocket_rpc_kotlin.Server.Routes.Channels.{
  handler_end-Still, request_channel_handler-Routed, split_channel_handler-Routed,
}

-- The routes of the four vectors.
abbrev pub kinds_routes : Kinds → List Route
kinds_routes kinds =
    map (told_by fire_and_forget_call) kinds.fire_and_forget
    ++ (map (told_by request_response_call) kinds.request_response
        ++ (map (told_by request_stream_call) kinds.request_stream
            ++ map (told_by request_channel_call) kinds.request_channel))

fire_and_forget_begin-Routed :
    (last : Option Interaction) → Routed last fire_and_forget_begin [] (some fire_and_forget_call)
unfolding fire_and_forget_begin scan_routes interaction_after
fire_and_forget_begin-Routed last = record { holds = λ v. refl; ends = refl }

fire_and_forget_none-Still : Still fire_and_forget_none
unfolding fire_and_forget_none scan_routes interaction_after
fire_and_forget_none-Still last = record { holds = λ v. refl; ends = refl }

fire_and_forget_try-Still : Still fire_and_forget_try
unfolding fire_and_forget_try scan_routes interaction_after
fire_and_forget_try-Still last = record { holds = λ v. refl; ends = refl }

fire_and_forget_catch-Still : Still fire_and_forget_catch
unfolding fire_and_forget_catch scan_routes interaction_after
fire_and_forget_catch-Still last = record { holds = λ v. refl; ends = refl }

fire_and_forget_case-Routed :
    (pb : Protobuf) (m : MethodDescriptor)
    → Routed
        (some fire_and_forget_call)
        (fire_and_forget_case pb m)
        (told_by fire_and_forget_call m ∷ [])
        (some fire_and_forget_call)
unfolding fire_and_forget_case scan_routes interaction_after
fire_and_forget_case-Routed pb m = record { holds = λ v. refl; ends = refl }

fire_and_forget_handler-Routed :
    (pb : Protobuf) (ms : List MethodDescriptor) (last : Option Interaction)
    → Routed last
        (fire_and_forget_handler pb ms)
        (map (told_by fire_and_forget_call) ms)
        (some fire_and_forget_call)
unfolding fire_and_forget_handler
fire_and_forget_handler-Routed pb [] last =
    Routed-append (fire_and_forget_begin-Routed last)
      (Routed-append (fire_and_forget_none-Still _) (handler_end-Still _))
fire_and_forget_handler-Routed pb (m ∷ ms) last =
    Routed-append (fire_and_forget_begin-Routed last) (
      Routed-trailing (
        Routed-append
          (Routed-append {r = map (told_by fire_and_forget_call) (m ∷ ms)}
            (fire_and_forget_try-Still _)
            (Routed-trailing (
              Routed-append
                (Routed-each (told_by fire_and_forget_call) (m ∷ ms)
                  (fire_and_forget_case-Routed pb))
                (fire_and_forget_catch-Still _))))
          (handler_end-Still _)))

request_response_begin-Routed :
    (last : Option Interaction) → Routed last request_response_begin [] (some request_response_call)
unfolding request_response_begin scan_routes interaction_after
request_response_begin-Routed last = record { holds = λ v. refl; ends = refl }

request_response_none-Still : Still request_response_none
unfolding request_response_none scan_routes interaction_after
request_response_none-Still last = record { holds = λ v. refl; ends = refl }

request_response_try-Still : Still request_response_try
unfolding request_response_try scan_routes interaction_after
request_response_try-Still last = record { holds = λ v. refl; ends = refl }

request_response_catch-Still : Still request_response_catch
unfolding request_response_catch scan_routes interaction_after
request_response_catch-Still last = record { holds = λ v. refl; ends = refl }

request_response_case-Routed :
    (pb : Protobuf) (m : MethodDescriptor)
    → Routed
        (some request_response_call)
        (request_response_case pb m)
        (told_by request_response_call m ∷ [])
        (some request_response_call)
unfolding request_response_case scan_routes interaction_after
request_response_case-Routed pb m = record { holds = λ v. refl; ends = refl }

request_response_handler-Routed :
    (pb : Protobuf) (ms : List MethodDescriptor) (last : Option Interaction)
    → Routed last
        (request_response_handler pb ms)
        (map (told_by request_response_call) ms)
        (some request_response_call)
unfolding request_response_handler
request_response_handler-Routed pb [] last =
    Routed-append (request_response_begin-Routed last)
      (Routed-append (request_response_none-Still _) (handler_end-Still _))
request_response_handler-Routed pb (m ∷ ms) last =
    Routed-append (request_response_begin-Routed last) (
      Routed-trailing (
        Routed-append
          (Routed-append {r = map (told_by request_response_call) (m ∷ ms)}
            (request_response_try-Still _)
            (Routed-trailing (
              Routed-append
                (Routed-each (told_by request_response_call) (m ∷ ms)
                  (request_response_case-Routed pb))
                (request_response_catch-Still _))))
          (handler_end-Still _)))

request_stream_begin-Routed :
    (last : Option Interaction) → Routed last request_stream_begin [] (some request_stream_call)
unfolding request_stream_begin scan_routes interaction_after
request_stream_begin-Routed last = record { holds = λ v. refl; ends = refl }

request_stream_none-Still : Still request_stream_none
unfolding request_stream_none scan_routes interaction_after
request_stream_none-Still last = record { holds = λ v. refl; ends = refl }

request_stream_try-Still : Still request_stream_try
unfolding request_stream_try scan_routes interaction_after
request_stream_try-Still last = record { holds = λ v. refl; ends = refl }

request_stream_catch-Still : Still request_stream_catch
unfolding request_stream_catch scan_routes interaction_after
request_stream_catch-Still last = record { holds = λ v. refl; ends = refl }

request_stream_case-Routed :
    (pb : Protobuf) (m : MethodDescriptor)
    → Routed
        (some request_stream_call)
        (request_stream_case pb m)
        (told_by request_stream_call m ∷ [])
        (some request_stream_call)
unfolding request_stream_case scan_routes interaction_after
request_stream_case-Routed pb m = record { holds = λ v. refl; ends = refl }

request_stream_handler-Routed :
    (pb : Protobuf) (ms : List MethodDescriptor) (last : Option Interaction)
    → Routed last
        (request_stream_handler pb ms)
        (map (told_by request_stream_call) ms)
        (some request_stream_call)
unfolding request_stream_handler
request_stream_handler-Routed pb [] last =
    Routed-append (request_stream_begin-Routed last)
      (Routed-append (request_stream_none-Still _) (handler_end-Still _))
request_stream_handler-Routed pb (m ∷ ms) last = Routed-append (request_stream_begin-Routed last) (
    Routed-trailing (
      Routed-append
        (Routed-append {r = map (told_by request_stream_call) (m ∷ ms)} (request_stream_try-Still _)
          (Routed-trailing (
            Routed-append
              (Routed-each (told_by request_stream_call) (m ∷ ms) (request_stream_case-Routed pb))
              (request_stream_catch-Still _))))
        (handler_end-Still _)))

pub server_handlers-Routed :
    (pb : Protobuf) (kinds : Kinds) (last : Option Interaction)
    → Routed last (server_handlers pb kinds) (kinds_routes kinds) (some request_channel_call)
unfolding server_handlers
server_handlers-Routed pb kinds last =
    Routed-append (fire_and_forget_handler-Routed pb kinds.fire_and_forget last) (
      Routed-append (request_response_handler-Routed pb kinds.request_response _) (
        Routed-append (request_stream_handler-Routed pb kinds.request_stream _) (
          Routed-trailing (
            Routed-append (request_channel_handler-Routed pb kinds.request_channel _)
              (split_channel_handler-Routed kinds.request_channel _)))))
