-- ===== src/Server/Channels.antt =====
-- The two handlers of channels that `PrintServer` of kotlin_generator.cpp
-- (rsocket-rpc-protobuf/src/kotlin_plugin/cpp/kotlin_generator.cpp) prints, and the end of a handler.
use rsocket_rpc_kotlin.Base.{Bool, List, [], ◌∷◌, ◌++◌, if◌then◌else◌, is_empty}
use rsocket_rpc_kotlin.Printer.{Action, assign, print, print_raw, indent, outdent, each}
use rsocket_rpc_kotlin.Descriptor.{MethodDescriptor, Protobuf}
use rsocket_rpc_kotlin.Names.{method_field_name, lower_method_name, message_full_kotlin_name}

unfoldable pub handler_end : List Action
handler_end = outdent ∷ print_raw "}\n\n" ∷ []

unfoldable pub request_channel_begin : List Action
request_channel_begin =
    print
      "override fun requestChannel(payload: $Payload$, publisher: $Flowable$<$Payload$>): $Flowable$<$Payload$> {\n"
    ∷ indent
    ∷ []

unfoldable pub request_channel_none : List Action
request_channel_none =
    print
      "return $Flowable$.error(UnsupportedOperationException(\"Request-Channel not implemented.\"))\n"
    ∷ []

unfoldable pub request_channel_try : List Action
request_channel_try =
    print "try {\n"
    ∷ indent
    ∷ print
        "val metadata = $Unpooled$.wrappedBuffer(payload.metadata)\nval spanContext = $RSocketRpcTracing$.deserializeTracingMetadata(tracer, metadata)\nval method = $RSocketRpcMetadata$.getMethod(metadata)\nreturn when (method) {\n"
    ∷ indent
    ∷ []

unfoldable pub request_channel_message : Protobuf → MethodDescriptor → List Action
request_channel_message pb method =
    assign "input_type" (message_full_kotlin_name pb method.input_type)
    ∷ assign "output_type" (message_full_kotlin_name pb method.output_type)
    ∷ assign "lower_method_name" (lower_method_name method)
    ∷ assign "method_field_name" (method_field_name method)
    ∷ print "$service_name$.$method_field_name$ -> {\n"
    ∷ indent
    ∷ print "val message: $Flowable$<$input_type$> =\n"
    ∷ indent
    ∷ print "publisher.startWith(payload).map(deserializer($input_type$.parser()))\n"
    ∷ outdent
    ∷ []

unfoldable pub request_channel_return : Bool → List Action
request_channel_return server_streaming =
    if server_streaming
    then print
        "return serviceImpl.$lower_method_name$(message, metadata).map(serializer).compose($lower_method_name$Trace(spanContext))\n"
      ∷ []
    else print
        "return serviceImpl.$lower_method_name$(message, metadata).map(serializer).toFlowable().compose($lower_method_name$Trace(spanContext))\n"
      ∷ []

unfoldable pub request_channel_case_end : List Action
request_channel_case_end = outdent ∷ print_raw "}\n" ∷ []

unfoldable pub request_channel_case : Protobuf → MethodDescriptor → List Action
request_channel_case pb method =
    request_channel_message pb method
    ++ (request_channel_return method.server_streaming ++ request_channel_case_end)

unfoldable pub request_channel_catch : List Action
request_channel_catch =
    print "else  -> $Flowable$.error(UnsupportedOperationException())\n"
    ∷ print_raw "}\n"
    ∷ outdent
    ∷ print_raw "} catch (t: Throwable) {\n"
    ∷ indent
    ∷ print "return $Flowable$.error(t)\n"
    ∷ outdent
    ∷ print_raw "}\n"
    ∷ []

unfoldable pub request_channel_handler : Protobuf → List MethodDescriptor → List Action
request_channel_handler pb request_channel =
    request_channel_begin
    ++ ((if is_empty request_channel
          then request_channel_none
          else request_channel_try
            ++ (each (request_channel_case pb) request_channel ++ request_channel_catch))
        ++ handler_end)

unfoldable pub split_channel_begin : List Action
split_channel_begin =
    print "override fun requestChannel(payloads: $Publisher$<$Payload$>): $Flowable$<$Payload$> {\n"
    ∷ indent
    ∷ []

unfoldable pub split_channel_none : List Action
split_channel_none =
    print
      "return $Flowable$.error(UnsupportedOperationException(\"Request-Channel not implemented.\"))\n"
    ∷ []

unfoldable pub split_channel_call : List Action
split_channel_call =
    print "return $StreamSplitter$.split(payloads)\n"
    ∷ indent
    ∷ print ".flatMap { (head, tail) -> requestChannel(head, tail) }\n"
    ∷ []

-- The handler of a whole stream, which splits off its first payload.
unfoldable pub split_channel_handler : List MethodDescriptor → List Action
split_channel_handler request_channel =
    split_channel_begin
    ++ ((if is_empty request_channel then split_channel_none else split_channel_call)
        ++ handler_end)
