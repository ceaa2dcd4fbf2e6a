-- ===== src/Server/Variables/Handlers.antt =====
-- The templates of the request handlers find their variables.
use rsocket_rpc_kotlin.Base.{String, Bool, true, false, List, [], ◌∷◌, refl}
use rsocket_rpc_kotlin.Printer.Closed.{closed, keys_after}
use rsocket_rpc_kotlin.Printer.Closes.{Closes, closed-Closes, Closes-append, Closes-each}
use rsocket_rpc_kotlin.Descriptor.{MethodDescriptor, Protobuf}
use rsocket_rpc_kotlin.Server.Kinds.{Kinds}
use rsocket_rpc_kotlin.Server.Handlers.{
  fire_and_forget_begin, fire_and_forget_none, fire_and_forget_try, fire_and_forget_case,
  fire_and_forget_catch, fire_and_forget_handler, request_response_begin, request_response_none,
  request_response_try, request_response_case, request_response_catch, request_response_handler,
  request_stream_begin, request_stream_none, request_stream_try, request_stream_case,
  request_stream_catch, request_stream_handler, server_handlers,
}
use rsocket_rpc_kotlin.Server.Channels.{
  request_channel_begin, request_channel_none, request_channel_try, request_channel_message,
  request_channel_return, request_channel_case_end, request_channel_case, request_channel_catch,
  request_channel_handler, split_channel_begin, split_channel_none, split_channel_call,
  split_channel_handler, handler_end,
}

-- The variables that `GenerateServer` sets, the last one first, and those of a service.
abbrev pub class_keys : List String
class_keys =
    "Package" ∷ "Package" ∷ "StreamSplitter" ∷ "Empty" ∷ "Tracer" ∷ "SpanContext" ∷ "Tag"
    ∷ "RSocketRpcTracing" ∷ "RSocketRpcResourceType" ∷ "Named" ∷ "Unpooled" ∷ "Inject" ∷ "Parser"
    ∷ "MessageLite" ∷ "CodedOutputStream" ∷ "CodedInputStream" ∷ "ByteBufAllocator" ∷ "ByteBuffer"
    ∷ "ByteBuf" ∷ "ByteBufs" ∷ "MeterRegistry" ∷ "RSocketRpcMetrics" ∷ "RSocketRpcMetadata"
    ∷ "AbstractRSocketService" ∷ "DefaultPayload" ∷ "Payload" ∷ "RSocket" ∷ "RSocketRpcGenerated"
    ∷ "Generated" ∷ "Publisher" ∷ "Override" ∷ "BiFunction" ∷ "Supplier" ∷ "Function" ∷ "flatMap"
    ∷ "flux" ∷ "from" ∷ "Completable" ∷ "Single" ∷ "Flowable" ∷ []

abbrev pub service_keys : List String
service_keys =
    "version" ∷ "rsocket_rpc_version" ∷ "server_class_name" ∷ "file_name" ∷ "service_field_name"
    ∷ "service_name" ∷ class_keys

abbrev case_keys : List String
case_keys = "method_field_name" ∷ "lower_method_name" ∷ "output_type" ∷ "input_type" ∷ service_keys

request_channel_message-Closes :
    (pb : Protobuf) (m : MethodDescriptor)
    → Closes service_keys (request_channel_message pb m) case_keys
unfolding request_channel_message closed keys_after
request_channel_message-Closes pb m = record { holds = refl; sets = λ k h. h }

request_channel_return-Closes : (ss : Bool) → Closes case_keys (request_channel_return ss) case_keys
unfolding request_channel_return closed
request_channel_return-Closes true = closed-Closes _ refl
request_channel_return-Closes false = closed-Closes _ refl

request_channel_case_end-Closes : Closes case_keys request_channel_case_end case_keys
unfolding request_channel_case_end closed
request_channel_case_end-Closes = closed-Closes _ refl

request_channel_case-Closes :
    (pb : Protobuf) (m : MethodDescriptor)
    → Closes service_keys (request_channel_case pb m) service_keys
request_channel_case-Closes pb m = closed-Closes _ (
    unfold request_channel_case in
    (Closes-append (request_channel_message-Closes pb m) (
      Closes-append (request_channel_return-Closes m.server_streaming)
        (request_channel_case_end-Closes))).holds)

handler_end-Closes : Closes service_keys handler_end service_keys
unfolding handler_end closed
handler_end-Closes = closed-Closes _ refl

fire_and_forget_begin-Closes : Closes service_keys fire_and_forget_begin service_keys
unfolding fire_and_forget_begin closed
fire_and_forget_begin-Closes = closed-Closes _ refl

fire_and_forget_none-Closes : Closes service_keys fire_and_forget_none service_keys
unfolding fire_and_forget_none closed
fire_and_forget_none-Closes = closed-Closes _ refl

fire_and_forget_try-Closes : Closes service_keys fire_and_forget_try service_keys
unfolding fire_and_forget_try closed
fire_and_forget_try-Closes = closed-Closes _ refl

fire_and_forget_catch-Closes : Closes service_keys fire_and_forget_catch service_keys
unfolding fire_and_forget_catch closed
fire_and_forget_catch-Closes = closed-Closes _ refl

fire_and_forget_case-Closes :
    (pb : Protobuf) (m : MethodDescriptor)
    → Closes service_keys (fire_and_forget_case pb m) service_keys
unfolding fire_and_forget_case closed
fire_and_forget_case-Closes pb m = closed-Closes _ refl

fire_and_forget_handler-Closes :
    (pb : Protobuf) (ms : List MethodDescriptor)
    → Closes service_keys (fire_and_forget_handler pb ms) service_keys
unfolding fire_and_forget_handler
fire_and_forget_handler-Closes pb [] =
    Closes-append (fire_and_forget_begin-Closes)
      (Closes-append (fire_and_forget_none-Closes) (handler_end-Closes))
fire_and_forget_handler-Closes pb (m ∷ ms) = Closes-append (fire_and_forget_begin-Closes) (
    Closes-append
      (Closes-append (fire_and_forget_try-Closes) (
        Closes-append (Closes-each (m ∷ ms) (fire_and_forget_case-Closes pb))
          (fire_and_forget_catch-Closes)))
      (handler_end-Closes))

request_response_begin-Closes : Closes service_keys request_response_begin service_keys
unfolding request_response_begin closed
request_response_begin-Closes = closed-Closes _ refl

request_response_none-Closes : Closes service_keys request_response_none service_keys
unfolding request_response_none closed
request_response_none-Closes = closed-Closes _ refl

request_response_try-Closes : Closes service_keys request_response_try service_keys
unfolding request_response_try closed
request_response_try-Closes = closed-Closes _ refl

request_response_catch-Closes : Closes service_keys request_response_catch service_keys
unfolding request_response_catch closed
request_response_catch-Closes = closed-Closes _ refl

request_response_case-Closes :
    (pb : Protobuf) (m : MethodDescriptor)
    → Closes service_keys (request_response_case pb m) service_keys
unfolding request_response_case closed
request_response_case-Closes pb m = closed-Closes _ refl

request_response_handler-Closes :
    (pb : Protobuf) (ms : List MethodDescriptor)
    → Closes service_keys (request_response_handler pb ms) service_keys
unfolding request_response_handler
request_response_handler-Closes pb [] =
    Closes-append (request_response_begin-Closes)
      (Closes-append (request_response_none-Closes) (handler_end-Closes))
request_response_handler-Closes pb (m ∷ ms) = Closes-append (request_response_begin-Closes) (
    Closes-append
      (Closes-append (request_response_try-Closes) (
        Closes-append (Closes-each (m ∷ ms) (request_response_case-Closes pb))
          (request_response_catch-Closes)))
      (handler_end-Closes))

request_stream_begin-Closes : Closes service_keys request_stream_begin service_keys
unfolding request_stream_begin closed
request_stream_begin-Closes = closed-Closes _ refl

request_stream_none-Closes : Closes service_keys request_stream_none service_keys
unfolding request_stream_none closed
request_stream_none-Closes = closed-Closes _ refl

request_stream_try-Closes : Closes service_keys request_stream_try service_keys
unfolding request_stream_try closed
request_stream_try-Closes = closed-Closes _ refl

request_stream_catch-Closes : Closes service_keys request_stream_catch service_keys
unfolding request_stream_catch closed
request_stream_catch-Closes = closed-Closes _ refl

request_stream_case-Closes :
    (pb : Protobuf) (m : MethodDescriptor)
    → Closes service_keys (request_stream_case pb m) service_keys
unfolding request_stream_case closed
request_stream_case-Closes pb m = closed-Closes _ refl

request_stream_handler-Closes :
    (pb : Protobuf) (ms : List MethodDescriptor)
    → Closes service_keys (request_stream_handler pb ms) service_keys
unfolding request_stream_handler
request_stream_handler-Closes pb [] =
    Closes-append (request_stream_begin-Closes)
      (Closes-append (request_stream_none-Closes) (handler_end-Closes))
request_stream_handler-Closes pb (m ∷ ms) = Closes-append (request_stream_begin-Closes) (
    Closes-append
      (Closes-append (request_stream_try-Closes) (
        Closes-append (Closes-each (m ∷ ms) (request_stream_case-Closes pb))
          (request_stream_catch-Closes)))
      (handler_end-Closes))

request_channel_begin-Closes : Closes service_keys request_channel_begin service_keys
unfolding request_channel_begin closed
request_channel_begin-Closes = closed-Closes _ refl

request_channel_none-Closes : Closes service_keys request_channel_none service_keys
unfolding request_channel_none closed
request_channel_none-Closes = closed-Closes _ refl

request_channel_try-Closes : Closes service_keys request_channel_try service_keys
unfolding request_channel_try closed
request_channel_try-Closes = closed-Closes _ refl

request_channel_catch-Closes : Closes service_keys request_channel_catch service_keys
unfolding request_channel_catch closed
request_channel_catch-Closes = closed-Closes _ refl

request_channel_handler-Closes :
    (pb : Protobuf) (ms : List MethodDescriptor)
    → Closes service_keys (request_channel_handler pb ms) service_keys
unfolding request_channel_handler
request_channel_handler-Closes pb [] =
    Closes-append (request_channel_begin-Closes)
      (Closes-append (request_channel_none-Closes) (handler_end-Closes))
request_channel_handler-Closes pb (m ∷ ms) = Closes-append (request_channel_begin-Closes) (
    Closes-append
      (Closes-append (request_channel_try-Closes) (
        Closes-append (Closes-each (m ∷ ms) (request_channel_case-Closes pb))
          (request_channel_catch-Closes)))
      (handler_end-Closes))

split_channel_begin-Closes : Closes service_keys split_channel_begin service_keys
unfolding split_channel_begin closed
split_channel_begin-Closes = closed-Closes _ refl

split_channel_none-Closes : Closes service_keys split_channel_none service_keys
unfolding split_channel_none closed
split_channel_none-Closes = closed-Closes _ refl

split_channel_call-Closes : Closes service_keys split_channel_call service_keys
unfolding split_channel_call closed
split_channel_call-Closes = closed-Closes _ refl

split_channel_handler-Closes :
    (ms : List MethodDescriptor) → Closes service_keys (split_channel_handler ms) service_keys
unfolding split_channel_handler
split_channel_handler-Closes [] =
    Closes-append (split_channel_begin-Closes)
      (Closes-append (split_channel_none-Closes) (handler_end-Closes))
split_channel_handler-Closes (m ∷ ms) =
    Closes-append (split_channel_begin-Closes)
      (Closes-append (split_channel_call-Closes) (handler_end-Closes))

pub server_handlers-Closes :
    (pb : Protobuf) (kinds : Kinds) → Closes service_keys (server_handlers pb kinds) service_keys
unfolding server_handlers
server_handlers-Closes pb kinds =
    Closes-append (fire_and_forget_handler-Closes pb kinds.fire_and_forget) (
      Closes-append (request_response_handler-Closes pb kinds.request_response) (
        Closes-append (request_stream_handler-Closes pb kinds.request_stream) (
          Closes-append (request_channel_handler-Closes pb kinds.request_channel)
            (split_channel_handler-Closes kinds.request_channel))))
