-- ===== src/Server/Routes/Channels.antt =====
-- The routes in the server's two handlers of channels.
use rsocket_rpc_kotlin.Base.{Bool, true, false, List, [], ◌∷◌, Option, some, map, refl}
use rsocket_rpc_kotlin.Printer.Routes.{
  Interaction, request_channel_call, scan_routes, interaction_after,
}
use rsocket_rpc_kotlin.Printer.Routed.{Routed, Still, Routed-append, Routed-each, Routed-trailing}
use rsocket_rpc_kotlin.Descriptor.{MethodDescriptor, Protobuf}
use rsocket_rpc_kotlin.Package.Routes.{told_by}
use rsocket_rpc_kotlin.Server.Channels.{
  request_channel_begin, request_channel_none, request_channel_try, request_channel_message,
  request_channel_return, request_channel_case_end, request_channel_case, request_channel_catch,
  request_channel_handler, split_channel_begin, split_channel_none, split_channel_call,
  split_channel_handler, handler_end,
}

pub handler_end-Still : Still handler_end
unfolding handler_end scan_routes interaction_after
handler_end-Still last = record { holds = λ v. refl; ends = refl }

request_channel_begin-Routed :
    (last : Option Interaction) → Routed last request_channel_begin [] (some request_channel_call)
unfolding request_channel_begin scan_routes interaction_after
request_channel_begin-Routed last = record { holds = λ v. refl; ends = refl }

request_channel_none-Still : Still request_channel_none
unfolding request_channel_none scan_routes interaction_after
request_channel_none-Still last = record { holds = λ v. refl; ends = refl }

request_channel_try-Still : Still request_channel_try
unfolding request_channel_try scan_routes interaction_after
request_channel_try-Still last = record { holds = λ v. refl; ends = refl }

request_channel_catch-Still : Still request_channel_catch
unfolding request_channel_catch scan_routes interaction_after
request_channel_catch-Still last = record { holds = λ v. refl; ends = refl }

request_channel_message-Routed :
    (pb : Protobuf) (m : MethodDescriptor)
    → Routed
        (some request_channel_call)
        (request_channel_message pb m)
        (told_by request_channel_call m ∷ [])
        (some request_channel_call)
unfolding request_channel_message scan_routes interaction_after
request_channel_message-Routed pb m = record { holds = λ v. refl; ends = refl }

request_channel_return-Still : (ss : Bool) → Still (request_channel_return ss)
unfolding request_channel_return scan_routes interaction_after
request_channel_return-Still true last = record { holds = λ v. refl; ends = refl }
request_channel_return-Still false last = record { holds = λ v. refl; ends = refl }

request_channel_case_end-Still : Still request_channel_case_end
unfolding request_channel_case_end scan_routes interaction_after
request_channel_case_end-Still last = record { holds = λ v. refl; ends = refl }

request_channel_case-Routed :
    (pb : Protobuf) (m : MethodDescriptor)
    → Routed
        (some request_channel_call)
        (request_channel_case pb m)
        (told_by request_channel_call m ∷ [])
        (some request_channel_call)
unfolding request_channel_case
request_channel_case-Routed pb m = Routed-append (request_channel_message-Routed pb m) (
    Routed-append (request_channel_return-Still m.server_streaming _)
      (request_channel_case_end-Still _))

pub request_channel_handler-Routed :
    (pb : Protobuf) (ms : List MethodDescriptor) (last : Option Interaction)
    → Routed last
        (request_channel_handler pb ms)
        (map (told_by request_channel_call) ms)
        (some request_channel_call)
unfolding request_channel_handler
request_channel_handler-Routed pb [] last =
    Routed-append (request_channel_begin-Routed last)
      (Routed-append (request_channel_none-Still _) (handler_end-Still _))
request_channel_handler-Routed pb (m ∷ ms) last =
    Routed-append (request_channel_begin-Routed last) (
      Routed-trailing (
        Routed-append
          (Routed-append {r = map (told_by request_channel_call) (m ∷ ms)}
            (request_channel_try-Still _)
            (Routed-trailing (
              Routed-append
                (Routed-each (told_by request_channel_call) (m ∷ ms)
                  (request_channel_case-Routed pb))
                (request_channel_catch-Still _))))
          (handler_end-Still _)))

split_channel_begin-Routed :
    (last : Option Interaction) → Routed last split_channel_begin [] (some request_channel_call)
unfolding split_channel_begin scan_routes interaction_after
split_channel_begin-Routed last = record { holds = λ v. refl; ends = refl }

split_channel_none-Still : Still split_channel_none
unfolding split_channel_none scan_routes interaction_after
split_channel_none-Still last = record { holds = λ v. refl; ends = refl }

split_channel_call-Routed :
    Routed (some request_channel_call) split_channel_call [] (some request_channel_call)
unfolding split_channel_call scan_routes interaction_after
split_channel_call-Routed = record { holds = λ v. refl; ends = refl }

pub split_channel_handler-Routed :
    (ms : List MethodDescriptor) (last : Option Interaction)
    → Routed last (split_channel_handler ms) [] (some request_channel_call)
unfolding split_channel_handler
split_channel_handler-Routed [] last =
    Routed-append (split_channel_begin-Routed last)
      (Routed-append (split_channel_none-Still _) (handler_end-Still _))
split_channel_handler-Routed (m ∷ ms) last =
    Routed-append (split_channel_begin-Routed last)
      (Routed-append split_channel_call-Routed (handler_end-Still _))
