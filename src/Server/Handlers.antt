-- ===== src/Server/Handlers.antt =====
-- The request handlers that `PrintServer` of kotlin_generator.cpp
-- (rsocket-rpc-protobuf/src/kotlin_plugin/cpp/kotlin_generator.cpp) prints, one for each kind.
use rsocket_rpc_kotlin.Base.{List, [], ◌∷◌, ◌++◌, if◌then◌else◌, is_empty}
use rsocket_rpc_kotlin.Printer.{Action, assign, print, print_raw, indent, outdent, each}
use rsocket_rpc_kotlin.Descriptor.{MethodDescriptor, Protobuf}
use rsocket_rpc_kotlin.Names.{method_field_name, lower_method_name, message_full_kotlin_name}
use rsocket_rpc_kotlin.Server.Kinds.{Kinds}
use rsocket_rpc_kotlin.Server.Channels.{handler_end, request_channel_handler, split_channel_handler}

unfoldable pub fire_and_forget_begin : List Action
fire_and_forget_begin =
    print "override fun fireAndForget(payload: $Payload$):$Completable$ {\n" ∷ indent ∷ []

unfoldable pub fire_and_forget_none : List Action
fire_and_forget_none =
    print
      "return $Completable$.error(UnsupportedOperationException(\"Fire and forget not implemented.\"))\n"
    ∷ []

unfoldable pub fire_and_forget_try : List Action
fire_and_forget_try =
    print "try {\n"
    ∷ indent
    ∷ print
        "val metadata = $Unpooled$.wrappedBuffer(payload.metadata)\nval spanContext = $RSocketRpcTracing$.deserializeTracingMetadata(tracer, metadata)\nval method = $RSocketRpcMetadata$.getMethod(metadata)\nreturn when (method) {\n"
    ∷ indent
    ∷ []

unfoldable pub fire_and_forget_case : Protobuf → MethodDescriptor → List Action
fire_and_forget_case pb method =
    assign "input_type" (message_full_kotlin_name pb method.input_type)
    ∷ assign "lower_method_name" (lower_method_name method)
    ∷ assign "method_field_name" (method_field_name method)
    ∷ indent
    ∷ print "$service_name$.$method_field_name$ -> {\n"
    ∷ indent
    ∷ print
        "val inputStream = $CodedInputStream$.newInstance(payload.data)\nserviceImpl.$lower_method_name$($input_type$.parseFrom(inputStream), metadata).toFlowable<$Empty$>().compose($lower_method_name$Trace(spanContext)).ignoreElements()\n"
    ∷ outdent
    ∷ print_raw "}\n"
    ∷ outdent
    ∷ []

unfoldable pub fire_and_forget_catch : List Action
fire_and_forget_catch =
    print "else -> $Completable$.error(UnsupportedOperationException())"
    ∷ outdent
    ∷ print_raw "}\n"
    ∷ outdent
    ∷ print_raw "} catch (t: Throwable) {\n"
    ∷ indent
    ∷ print "return $Completable$.error(t)\n"
    ∷ outdent
    ∷ print_raw "}\n"
    ∷ []

unfoldable pub fire_and_forget_handler : Protobuf → List MethodDescriptor → List Action
fire_and_forget_handler pb fire_and_forget =
    fire_and_forget_begin
    ++ ((if is_empty fire_and_forget
          then fire_and_forget_none
          else fire_and_forget_try
            ++ (each (fire_and_forget_case pb) fire_and_forget ++ fire_and_forget_catch))
        ++ handler_end)

unfoldable pub request_response_begin : List Action
request_response_begin =
    print "override fun requestResponse(payload: $Payload$): $Single$<$Payload$> {\n" ∷ indent ∷ []

unfoldable pub request_response_none : List Action
request_response_none =
    print
      "return $Single$.error(UnsupportedOperationException(\"Request-Response not implemented.\"))\n"
    ∷ []

unfoldable pub request_response_try : List Action
request_response_try =
    print "try {\n"
    ∷ indent
    ∷ print
        "val metadata = $Unpooled$.wrappedBuffer(payload.metadata)\nval spanContext = $RSocketRpcTracing$.deserializeTracingMetadata(tracer, metadata)\nval method = $RSocketRpcMetadata$.getMethod(metadata)\nreturn when (method) {\n"
    ∷ indent
    ∷ []

unfoldable pub request_response_case : Protobuf → MethodDescriptor → List Action
request_response_case pb method =
    assign "input_type" (message_full_kotlin_name pb method.input_type)
    ∷ assign "output_type" (message_full_kotlin_name pb method.output_type)
    ∷ assign "lower_method_name" (lower_method_name method)
    ∷ assign "method_field_name" (method_field_name method)
    ∷ print "$service_name$.$method_field_name$ -> {\n"
    ∷ indent
    ∷ print
        "val inputStream = $CodedInputStream$.newInstance(payload.data)\nserviceImpl.$lower_method_name$($input_type$.parseFrom(inputStream), metadata).map(serializer).toFlowable().compose($lower_method_name$Trace(spanContext)).firstOrError()\n"
    ∷ outdent
    ∷ print_raw "}\n"
    ∷ []

unfoldable pub request_response_catch : List Action
request_response_catch =
    print "else -> $Single$.error(UnsupportedOperationException())\n"
    ∷ outdent
    ∷ print_raw "}\n"
    ∷ outdent
    ∷ print_raw "} catch (t: Throwable) {\n"
    ∷ indent
    ∷ print "return $Single$.error(t)\n"
    ∷ outdent
    ∷ print_raw "}\n"
    ∷ []

unfoldable pub request_response_handler : Protobuf → List MethodDescriptor → List Action
request_response_handler pb request_response =
    request_response_begin
    ++ ((if is_empty request_response
          then request_response_none
          else request_response_try
            ++ (each (request_response_case pb) request_response ++ request_response_catch))
        ++ handler_end)

unfoldable pub request_stream_begin : List Action
request_stream_begin =
    print "override fun requestStream(payload: $Payload$): $Flowable$<$Payload$> {\n" ∷ indent ∷ []

unfoldable pub request_stream_none : List Action
request_stream_none =
    print
      "return $Flowable$.error(UnsupportedOperationException(\"Request-Stream not implemented.\"))\n"
    ∷ []

unfoldable pub request_stream_try : List Action
request_stream_try =
    print "try {\n"
    ∷ indent
    ∷ print
        "val metadata = $Unpooled$.wrappedBuffer(payload.metadata)\nval spanContext = $RSocketRpcTracing$.deserializeTracingMetadata(tracer, metadata)\nval method = $RSocketRpcMetadata$.getMethod(metadata)\nreturn when (method) {\n"
    ∷ indent
    ∷ []

unfoldable pub request_stream_case : Protobuf → MethodDescriptor → List Action
request_stream_case pb method =
    assign "input_type" (message_full_kotlin_name pb method.input_type)
    ∷ assign "output_type" (message_full_kotlin_name pb method.output_type)
    ∷ assign "lower_method_name" (lower_method_name method)
    ∷ assign "method_field_name" (method_field_name method)
    ∷ print "$service_name$.$method_field_name$ -> {\n"
    ∷ indent
    ∷ print
        "val inputStream = $CodedInputStream$.newInstance(payload.data)\nserviceImpl.$lower_method_name$($input_type$.parseFrom(inputStream), metadata).map(serializer).compose($lower_method_name$Trace(spanContext))\n"
    ∷ outdent
    ∷ print_raw "}\n"
    ∷ []

-- The cases are indented once more than they are taken back.
unfoldable pub request_stream_catch : List Action
request_stream_catch =
    print "else -> $Flowable$.error(UnsupportedOperationException())\n"
    ∷ print_raw "}\n"
    ∷ outdent
    ∷ print_raw "} catch (t: Throwable) {\n"
    ∷ indent
    ∷ print "return $Flowable$.error(t)\n"
    ∷ outdent
    ∷ print_raw "}\n"
    ∷ []

unfoldable pub request_stream_handler : Protobuf → List MethodDescriptor → List Action
request_stream_handler pb request_stream =
    request_stream_begin
    ++ ((if is_empty request_stream
          then request_stream_none
          else request_stream_try
            ++ (each (request_stream_case pb) request_stream ++ request_stream_catch))
        ++ handler_end)

unfoldable pub server_handlers : Protobuf → Kinds → List Action
server_handlers pb kinds =
    fire_and_forget_handler pb kinds.fire_and_forget
    ++ (request_response_handler pb kinds.request_response
        ++ (request_stream_handler pb kinds.request_stream
            ++ (request_channel_handler pb kinds.request_channel
                ++ split_channel_handler kinds.request_channel)))
