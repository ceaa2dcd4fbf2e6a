-- ===== src/Server/Constants/Handlers.antt =====
-- The constants that the server's handlers use.
use mathlib.Core.List.{map-append}
use rsocket_rpc_kotlin.Base.{Bool, true, false, List, [], ◌∷◌, ◌++◌, map, ◌≡◌, refl}
use rsocket_rpc_kotlin.Printer.Mentions.{
  scan, Mentions, Mentions-append, Mentions-each, Mentions-to, trailing,
}
use rsocket_rpc_kotlin.Descriptor.{MethodDescriptor, Protobuf}
use rsocket_rpc_kotlin.Package.Constants.{constant, Quiet}
use rsocket_rpc_kotlin.Server.Kinds.{Kinds}
use rsocket_rpc_kotlin.Server.Kinds.Sorted.{all_methods}
use rsocket_rpc_kotlin.Server.Handlers.{
  fire_and_forget_begin, fire_and_forget_none, fire_and_forget_try, fire_and_forget_case,
  fire_and_forget_catch, fire_and_forget_handler, request_response_begin, request_response_none,
  request_response_try, request_response_case, request_response_catch, request_response_handler,
  request_stream_begin, request_stream_none, request_stream_try, request_stream_case,
  request_stream_catch, request_stream_handler, server_handlers,
}
use rsocket_rpc_kotlin.Server.Channels.{
  request_channel_begin, request_channel_none, request_channel_try, request_channel_message,
  request_channel_return, request_channel_case_end, request_channel_case, request_channel_catch,
  request_channel_handler, split_channel_begin, split_channel_none, split_channel_call,
  split_channel_handler, handler_end,
}

handler_end-Quiet : Quiet handler_end
unfolding handler_end scan
handler_end-Quiet = record { holds = λ v. refl }

fire_and_forget_begin-Quiet : Quiet fire_and_forget_begin
unfolding fire_and_forget_begin scan
fire_and_forget_begin-Quiet = record { holds = λ v. refl }

fire_and_forget_none-Quiet : Quiet fire_and_forget_none
unfolding fire_and_forget_none scan
fire_and_forget_none-Quiet = record { holds = λ v. refl }

fire_and_forget_try-Quiet : Quiet fire_and_forget_try
unfolding fire_and_forget_try scan
fire_and_forget_try-Quiet = record { holds = λ v. refl }

fire_and_forget_catch-Quiet : Quiet fire_and_forget_catch
unfolding fire_and_forget_catch scan
fire_and_forget_catch-Quiet = record { holds = λ v. refl }

fire_and_forget_case-Mentions :
    (pb : Protobuf) (m : MethodDescriptor)
    → Mentions "method_field_name" (fire_and_forget_case pb m) (constant m ∷ [])
unfolding fire_and_forget_case scan
fire_and_forget_case-Mentions pb m = record { holds = λ v. refl }

fire_and_forget_handler-Mentions :
    (pb : Protobuf) (ms : List MethodDescriptor)
    → Mentions "method_field_name" (fire_and_forget_handler pb ms) (map constant ms)
unfolding fire_and_forget_handler
fire_and_forget_handler-Mentions pb [] =
    Mentions-append (fire_and_forget_begin-Quiet)
      (Mentions-append (fire_and_forget_none-Quiet) (handler_end-Quiet))
fire_and_forget_handler-Mentions pb (m ∷ ms) = Mentions-append fire_and_forget_begin-Quiet (
    trailing (
      Mentions-append
        (Mentions-append {r = map constant (m ∷ ms)} fire_and_forget_try-Quiet (
          trailing (
            Mentions-append (Mentions-each constant (m ∷ ms) (fire_and_forget_case-Mentions pb))
              fire_and_forget_catch-Quiet)))
        handler_end-Quiet))

request_response_begin-Quiet : Quiet request_response_begin
unfolding request_response_begin scan
request_response_begin-Quiet = record { holds = λ v. refl }

request_response_none-Quiet : Quiet request_response_none
unfolding request_response_none scan
request_response_none-Quiet = record { holds = λ v. refl }

request_response_try-Quiet : Quiet request_response_try
unfolding request_response_try scan
request_response_try-Quiet = record { holds = λ v. refl }

request_response_catch-Quiet : Quiet request_response_catch
unfolding request_response_catch scan
request_response_catch-Quiet = record { holds = λ v. refl }

request_response_case-Mentions :
    (pb : Protobuf) (m : MethodDescriptor)
    → Mentions "method_field_name" (request_response_case pb m) (constant m ∷ [])
unfolding request_response_case scan
request_response_case-Mentions pb m = record { holds = λ v. refl }

request_response_handler-Mentions :
    (pb : Protobuf) (ms : List MethodDescriptor)
    → Mentions "method_field_name" (request_response_handler pb ms) (map constant ms)
unfolding request_response_handler
request_response_handler-Mentions pb [] =
    Mentions-append (request_response_begin-Quiet)
      (Mentions-append (request_response_none-Quiet) (handler_end-Quiet))
request_response_handler-Mentions pb (m ∷ ms) = Mentions-append request_response_begin-Quiet (
    trailing (
      Mentions-append
        (Mentions-append {r = map constant (m ∷ ms)} request_response_try-Quiet (
          trailing (
            Mentions-append (Mentions-each constant (m ∷ ms) (request_response_case-Mentions pb))
              request_response_catch-Quiet)))
        handler_end-Quiet))

request_stream_begin-Quiet : Quiet request_stream_begin
unfolding request_stream_begin scan
request_stream_begin-Quiet = record { holds = λ v. refl }

request_stream_none-Quiet : Quiet request_stream_none
unfolding request_stream_none scan
request_stream_none-Quiet = record { holds = λ v. refl }

request_stream_try-Quiet : Quiet request_stream_try
unfolding request_stream_try scan
request_stream_try-Quiet = record { holds = λ v. refl }

request_stream_catch-Quiet : Quiet request_stream_catch
unfolding request_stream_catch scan
request_stream_catch-Quiet = record { holds = λ v. refl }

request_stream_case-Mentions :
    (pb : Protobuf) (m : MethodDescriptor)
    → Mentions "method_field_name" (request_stream_case pb m) (constant m ∷ [])
unfolding request_stream_case scan
request_stream_case-Mentions pb m = record { holds = λ v. refl }

request_stream_handler-Mentions :
    (pb : Protobuf) (ms : List MethodDescriptor)
    → Mentions "method_field_name" (request_stream_handler pb ms) (map constant ms)
unfolding request_stream_handler
request_stream_handler-Mentions pb [] =
    Mentions-append (request_stream_begin-Quiet)
      (Mentions-append (request_stream_none-Quiet) (handler_end-Quiet))
request_stream_handler-Mentions pb (m ∷ ms) = Mentions-append request_stream_begin-Quiet (
    trailing (
      Mentions-append
        (Mentions-append {r = map constant (m ∷ ms)} request_stream_try-Quiet (
          trailing (
            Mentions-append (Mentions-each constant (m ∷ ms) (request_stream_case-Mentions pb))
              request_stream_catch-Quiet)))
        handler_end-Quiet))

request_channel_begin-Quiet : Quiet request_channel_begin
unfolding request_channel_begin scan
request_channel_begin-Quiet = record { holds = λ v. refl }

request_channel_none-Quiet : Quiet request_channel_none
unfolding request_channel_none scan
request_channel_none-Quiet = record { holds = λ v. refl }

request_channel_try-Quiet : Quiet request_channel_try
unfolding request_channel_try scan
request_channel_try-Quiet = record { holds = λ v. refl }

request_channel_catch-Quiet : Quiet request_channel_catch
unfolding request_channel_catch scan
request_channel_catch-Quiet = record { holds = λ v. refl }

request_channel_message-Mentions :
    (pb : Protobuf) (m : MethodDescriptor)
    → Mentions "method_field_name" (request_channel_message pb m) (constant m ∷ [])
unfolding request_channel_message scan
request_channel_message-Mentions pb m = record { holds = λ v. refl }

request_channel_return-Quiet : (ss : Bool) → Quiet (request_channel_return ss)
unfolding request_channel_return scan
request_channel_return-Quiet true = record { holds = λ v. refl }
request_channel_return-Quiet false = record { holds = λ v. refl }

request_channel_case_end-Quiet : Quiet request_channel_case_end
unfolding request_channel_case_end scan
request_channel_case_end-Quiet = record { holds = λ v. refl }

request_channel_case-Mentions :
    (pb : Protobuf) (m : MethodDescriptor)
    → Mentions "method_field_name" (request_channel_case pb m) (constant m ∷ [])
unfolding request_channel_case
request_channel_case-Mentions pb m = Mentions-append (request_channel_message-Mentions pb m) (
    Mentions-append (request_channel_return-Quiet m.server_streaming)
      request_channel_case_end-Quiet)

request_channel_handler-Mentions :
    (pb : Protobuf) (ms : List MethodDescriptor)
    → Mentions "method_field_name" (request_channel_handler pb ms) (map constant ms)
unfolding request_channel_handler
request_channel_handler-Mentions pb [] =
    Mentions-append (request_channel_begin-Quiet)
      (Mentions-append (request_channel_none-Quiet) (handler_end-Quiet))
request_channel_handler-Mentions pb (m ∷ ms) = Mentions-append request_channel_begin-Quiet (
    trailing (
      Mentions-append
        (Mentions-append {r = map constant (m ∷ ms)} request_channel_try-Quiet (
          trailing (
            Mentions-append (Mentions-each constant (m ∷ ms) (request_channel_case-Mentions pb))
              request_channel_catch-Quiet)))
        handler_end-Quiet))

split_channel_begin-Quiet : Quiet split_channel_begin
unfolding split_channel_begin scan
split_channel_begin-Quiet = record { holds = λ v. refl }

split_channel_none-Quiet : Quiet split_channel_none
unfolding split_channel_none scan
split_channel_none-Quiet = record { holds = λ v. refl }

split_channel_call-Quiet : Quiet split_channel_call
unfolding split_channel_call scan
split_channel_call-Quiet = record { holds = λ v. refl }

split_channel_handler-Quiet : (ms : List MethodDescriptor) → Quiet (split_channel_handler ms)
unfolding split_channel_handler
split_channel_handler-Quiet [] =
    Mentions-append split_channel_begin-Quiet
      (Mentions-append split_channel_none-Quiet handler_end-Quiet)
split_channel_handler-Quiet (m ∷ ms) =
    Mentions-append split_channel_begin-Quiet
      (Mentions-append split_channel_call-Quiet handler_end-Quiet)

map-all_methods :
    (kinds : Kinds)
    → map constant kinds.fire_and_forget
        ++ (map constant kinds.request_response
            ++ (map constant kinds.request_stream ++ map constant kinds.request_channel))
      ≡ map constant (all_methods kinds)
map-all_methods kinds =
    rw
      (
        map-append constant kinds.fire_and_forget _,
        map-append constant kinds.request_response _,
        map-append constant kinds.request_stream kinds.request_channel,
      )
      refl

pub server_handlers-Mentions :
    (pb : Protobuf) (kinds : Kinds)
    → Mentions "method_field_name" (server_handlers pb kinds) (map constant (all_methods kinds))
unfolding server_handlers
server_handlers-Mentions pb kinds = Mentions-to (map-all_methods kinds) (
    Mentions-append (fire_and_forget_handler-Mentions pb kinds.fire_and_forget) (
      Mentions-append (request_response_handler-Mentions pb kinds.request_response) (
        Mentions-append (request_stream_handler-Mentions pb kinds.request_stream) (
          trailing (
            Mentions-append (request_channel_handler-Mentions pb kinds.request_channel)
              (split_channel_handler-Quiet kinds.request_channel))))))
