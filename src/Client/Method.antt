-- ===== src/Client/Method.antt =====
-- What `PrintClient` of kotlin_generator.cpp
-- (rsocket-rpc-protobuf/src/kotlin_plugin/cpp/kotlin_generator.cpp) prints for one method: a function
-- without metadata, which calls the one with metadata that overrides the interface's.
use rsocket_rpc_kotlin.Base.{Bool, List, [], ◌∷◌, ◌++◌, if◌then◌else◌}
use rsocket_rpc_kotlin.Printer.{Action, assign, print, print_raw, indent, outdent}
use rsocket_rpc_kotlin.Descriptor.{MethodDescriptor, Protobuf}
use rsocket_rpc_kotlin.Names.{method_field_name, lower_method_name, message_full_kotlin_name}

unfoldable pub client_method_names : Protobuf → MethodDescriptor → List Action
client_method_names pb method =
    assign "input_type" (message_full_kotlin_name pb method.input_type)
    ∷ assign "output_type" (message_full_kotlin_name pb method.output_type)
    ∷ assign "lower_method_name" (lower_method_name method)
    ∷ assign "method_field_name" (method_field_name method)
    ∷ []

unfoldable pub client_call_name : Bool → Bool → Bool → List Action
client_call_name client_streaming server_streaming fire_and_forget =
    if server_streaming
    then print
        "@$RSocketRpcGeneratedMethod$(returnTypeClass = $output_type$::class)\nfun $lower_method_name$"
      ∷ []
    else if client_streaming
    then print
        "@$RSocketRpcGeneratedMethod$(returnTypeClass = $output_type$::class)\nfun $lower_method_name$"
      ∷ []
    else if fire_and_forget
    then print
        "@$RSocketRpcGeneratedMethod$(returnTypeClass = $output_type$::class)\nfun $lower_method_name$"
      ∷ []
    else print
        "@$RSocketRpcGeneratedMethod$(returnTypeClass = $output_type$::class)\nfun $lower_method_name$"
      ∷ []

unfoldable pub client_call_parameters : Bool → List Action
client_call_parameters client_streaming =
    if client_streaming
    then print "(message: $Publisher$<$input_type$>)" ∷ []
    else print "(message: $input_type$)" ∷ []

unfoldable pub client_call_body : Bool → Bool → Bool → List Action
client_call_body client_streaming server_streaming fire_and_forget =
    if server_streaming
    then print ": $Flowable$<$output_type$> {\n"
      ∷ indent
      ∷ print "return $lower_method_name$(message, $Unpooled$.EMPTY_BUFFER)\n"
      ∷ outdent
      ∷ print_raw "}\n\n"
      ∷ []
    else if client_streaming
    then print ": $Single$<$output_type$> {\n"
      ∷ indent
      ∷ print "return $lower_method_name$(message, $Unpooled$.EMPTY_BUFFER)\n"
      ∷ outdent
      ∷ print_raw "}\n\n"
      ∷ []
    else if fire_and_forget
    then print ": $Completable$ {\n"
      ∷ indent
      ∷ print "return $lower_method_name$(message, $Unpooled$.EMPTY_BUFFER)\n"
      ∷ outdent
      ∷ print_raw "}\n\n"
      ∷ []
    else print ": $Single$<$output_type$> {\n"
      ∷ indent
      ∷ print "return $lower_method_name$(message, $Unpooled$.EMPTY_BUFFER)\n"
      ∷ outdent
      ∷ print_raw "}\n\n"
      ∷ []

unfoldable pub client_override_name : Bool → Bool → Bool → List Action
client_override_name client_streaming server_streaming fire_and_forget =
    if server_streaming
    then print
        "@$RSocketRpcGeneratedMethod$(returnTypeClass = $output_type$::class)\noverride fun $lower_method_name$"
      ∷ []
    else if client_streaming
    then print
        "@$RSocketRpcGeneratedMethod$(returnTypeClass = $output_type$::class)\noverride fun $lower_method_name$"
      ∷ []
    else if fire_and_forget
    then print
        "@$RSocketRpcGeneratedMethod$(returnTypeClass = $output_type$::class)\noverride fun $lower_method_name$"
      ∷ []
    else print
        "@$RSocketRpcGeneratedMethod$(returnTypeClass = $output_type$::class)\noverride fun $lower_method_name$"
      ∷ []

unfoldable pub client_override_parameters : Bool → List Action
client_override_parameters client_streaming =
    if client_streaming
    then print "(message: $Publisher$<$input_type$>, metadata: $ByteBuf$)\n" ∷ indent ∷ []
    else print "(message: $input_type$, metadata: $ByteBuf$)\n" ∷ indent ∷ []

unfoldable pub client_override_return : Bool → Bool → Bool → List Action
client_override_return client_streaming server_streaming fire_and_forget =
    if server_streaming
    then print ": $Flowable$<$output_type$> {\n" ∷ []
    else if client_streaming
    then print ": $Single$<$output_type$> {\n" ∷ []
    else if fire_and_forget
    then print ": $Completable$ {\n" ∷ []
    else print ": $Single$<$output_type$> {\n" ∷ []

-- The object that turns each message into a payload; only the first one carries metadata.
unfoldable pub client_channel_map : List Action
client_channel_map =
    print "val map:$Map$<String, String> = $HashMap$()\n"
    ∷ indent
    ∷ print "return rSocket.requestChannel($Flowable$.$from$(message).map(\n"
    ∷ indent
    ∷ print "object : $Function$<$MessageLite$, $Payload$> {\n"
    ∷ indent
    ∷ print
        "private val once = $AtomicBoolean$(false)\n\noverride fun apply(message: $MessageLite$): $Payload$ {\n"
    ∷ indent
    ∷ print
        "val data = serialize(message)\nval metadataBuf: $ByteBuf$ =\nif (once.compareAndSet(false, true)) {\n"
    ∷ indent
    ∷ print
        "$RSocketRpcMetadata$.encode($ByteBufAllocator$.DEFAULT, $service_name$.$service_field_name$, $service_name$.$method_field_name$, metadata)\n"
    ∷ outdent
    ∷ print_raw "} else {\n"
    ∷ indent
    ∷ print "$Unpooled$.EMPTY_BUFFER\n"
    ∷ outdent
    ∷ print_raw "}\n"
    ∷ print
        "val payload = $DefaultPayload$(data, metadataBuf)\nmetadataBuf.release()\ndata.release()\nreturn payload\n"
    ∷ outdent
    ∷ print_raw "}\n"
    ∷ outdent
    ∷ []

unfoldable pub client_channel_result : Bool → List Action
client_channel_result server_streaming =
    if server_streaming
    then print
        "})).map(deserializer($output_type$.parser())).compose($lower_method_name$Trace(map))\n"
      ∷ []
    else print
        "})).map(deserializer($output_type$.parser())).compose($lower_method_name$Trace(map)).firstOrError()\n"
      ∷ []

unfoldable pub client_channel_end : List Action
client_channel_end = outdent ∷ outdent ∷ print_raw "}\n\n" ∷ []

unfoldable pub client_channel_body : Bool → List Action
client_channel_body server_streaming =
    client_channel_map ++ (client_channel_result server_streaming ++ client_channel_end)

unfoldable pub client_request_map : List Action
client_request_map = print "val map: $Map$<String, String> = $HashMap$()\n" ∷ indent ∷ []

unfoldable pub client_request_stream : List Action
client_request_stream =
    print "return $Flowable$.defer {\n"
    ∷ indent
    ∷ print
        "val tracingMetadata = $RSocketRpcTracing$.mapToByteBuf($ByteBufAllocator$.DEFAULT, map)\nval metadataBuf = $RSocketRpcMetadata$.encode($ByteBufAllocator$.DEFAULT, $service_name$.$service_field_name$, $service_name$.$method_field_name$, tracingMetadata, metadata)\nval data = serialize(message)\nval payload = $DefaultPayload$(data, metadataBuf)\ntracingMetadata.release()\nmetadataBuf.release()\ndata.release()\nrSocket.requestStream(payload)\n"
    ∷ outdent
    ∷ print_raw "}\n"
    ∷ outdent
    ∷ print ".map(deserializer($output_type$.parser())).compose($lower_method_name$Trace(map))\n"
    ∷ []

unfoldable pub client_fire_and_forget : List Action
client_fire_and_forget =
    print "return $Completable$.defer {\n"
    ∷ indent
    ∷ print
        "val tracingMetadata = $RSocketRpcTracing$.mapToByteBuf($ByteBufAllocator$.DEFAULT, map)\nval metadataBuf = $RSocketRpcMetadata$.encode($ByteBufAllocator$.DEFAULT, $service_name$.$service_field_name$, $service_name$.$method_field_name$, tracingMetadata, metadata)\nval data = serialize(message)\nval payload = $DefaultPayload$(data, metadataBuf)\ntracingMetadata.release()\nmetadataBuf.release()\ndata.release()\nrSocket.fireAndForget(payload)\n"
    ∷ outdent
    ∷ print_raw "}\n"
    ∷ outdent
    ∷ print ".toFlowable<$output_type$>().compose($lower_method_name$Trace(map)).ignoreElements()\n"
    ∷ []

unfoldable pub client_request_response : List Action
client_request_response =
    print "return $Single$.defer {\n"
    ∷ indent
    ∷ print
        "val tracingMetadata = $RSocketRpcTracing$.mapToByteBuf($ByteBufAllocator$.DEFAULT, map)\nval metadataBuf = $RSocketRpcMetadata$.encode($ByteBufAllocator$.DEFAULT, $service_name$.$service_field_name$, $service_name$.$method_field_name$, tracingMetadata, metadata)\nval data = serialize(message)\nval payload = $DefaultPayload$(data, metadataBuf)\ntracingMetadata.release()\nmetadataBuf.release()\ndata.release()\nrSocket.requestResponse(payload)\n"
    ∷ outdent
    ∷ print_raw "}\n"
    ∷ outdent
    ∷ print
        ".map(deserializer($output_type$.parser())).toFlowable().compose($lower_method_name$Trace(map)).firstOrError()\n"
    ∷ []

unfoldable pub client_request_call : Bool → Bool → List Action
unfolding client_request_stream client_fire_and_forget client_request_response
client_request_call server_streaming fire_and_forget =
    if server_streaming
    then client_request_stream
    else if fire_and_forget
    then client_fire_and_forget
    else client_request_response

unfoldable pub client_request_end : List Action
client_request_end = outdent ∷ print_raw "}\n\n" ∷ []

unfoldable pub client_request_body : Bool → Bool → List Action
client_request_body server_streaming fire_and_forget =
    client_request_map
    ++ (client_request_call server_streaming fire_and_forget ++ client_request_end)

unfoldable pub client_override_body : Bool → Bool → Bool → List Action
client_override_body client_streaming server_streaming fire_and_forget =
    if client_streaming
    then client_channel_body server_streaming
    else client_request_body server_streaming fire_and_forget

-- All that depends on the kind of a method alone.
unfoldable pub client_method_lines : Bool → Bool → Bool → List Action
client_method_lines client_streaming server_streaming fire_and_forget =
    client_call_name client_streaming server_streaming fire_and_forget
    ++ (client_call_parameters client_streaming
        ++ (client_call_body client_streaming server_streaming fire_and_forget
            ++ (client_override_name client_streaming server_streaming fire_and_forget
                ++ (client_override_parameters client_streaming
                    ++ (client_override_return client_streaming server_streaming fire_and_forget
                        ++ client_override_body client_streaming server_streaming
                            fire_and_forget)))))

unfoldable pub client_method : Protobuf → MethodDescriptor → List Action
client_method pb method =
    client_method_names pb method
    ++ client_method_lines method.client_streaming method.server_streaming
        method.options.fire_and_forget
