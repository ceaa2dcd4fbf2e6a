-- ===== src/Client.antt =====
-- `PrintClient` and `GenerateClient` of kotlin_generator.cpp
-- (rsocket-rpc-protobuf/src/kotlin_plugin/cpp/kotlin_generator.cpp): the file of a service's client.
-- What is printed for one method stands in Method.
pub mod Method
pub mod Layout
pub mod Variables
pub mod Constants
pub mod Kept
pub mod Routes
use rsocket_rpc_kotlin.Base.{Bytes, codes, Bool, true, false, List, [], ◌∷◌, ◌++◌, if◌then◌else◌}
use rsocket_rpc_kotlin.Printer.{Action, assign, print, print_raw, indent, outdent, each}
use rsocket_rpc_kotlin.Descriptor.{
  ServiceDescriptor, MethodDescriptor, ProtoFlavor, Protobuf, Macros,
}
use rsocket_rpc_kotlin.Names.{
  service_field_name, method_field_name, lower_method_name, message_full_kotlin_name,
  client_class_name,
}
use rsocket_rpc_kotlin.Package.{
  service_kotlin_package, package_line, package_variable, stringify, version_note, under_version,
}
use Method.{client_method}

-- The assignments under the test of the macro.
unfoldable pub client_version : Macros → List Action
client_version macros =
    assign "rsocket_rpc_version"
      (version_note (codes "RSOCKET_RPC_VERSION") macros.upper_rsocket_rpc_version)
    ∷ assign "version" (stringify (codes "rsocket_rpc_version") macros.rsocket_rpc_version)
    ∷ []

-- The variables of the service. The note on the version is made from another macro than the test.
unfoldable pub client_variables : Macros → ServiceDescriptor → Bool → List Action
client_variables macros service disable_version =
    assign "service_name" service.name
    ∷ assign "service_field_name" (service_field_name service)
    ∷ assign "file_name" service.file.name
    ∷ assign "client_class_name" (client_class_name service)
    ∷ assign "rsocket_rpc_version" []
    ∷ assign "version" []
    ∷ under_version macros disable_version (client_version macros)

-- The head of the class; the class itself is indented twice.
unfoldable pub client_header : List Action
client_header =
    print
      "@$Generated$(\n    value = [\"by RSocket RPC proto compiler$rsocket_rpc_version$\"],\n    comments = \"Source: $file_name$\")\n@$RSocketRpcGenerated$(\n    type = $RSocketRpcResourceType$.CLIENT,\n    idlClass = $service_name$::class)\nclass $client_class_name$(\n"
    ∷ indent
    ∷ print
        "private val rSocket: $RSocket$, \nprivate val tracer: $Tracer$? = null\n): $service_name$ {\n"
    ∷ indent
    ∷ []

-- The type of a method's trace, in the order of the tests.
unfoldable pub client_trace_type : Bool → Bool → Bool → List Action
client_trace_type client_streaming server_streaming fire_and_forget =
    if server_streaming
    then print
        "private val $lower_method_name$Trace: ($Map$<String, String>) -> io.reactivex.FlowableTransformer<$output_type$, $output_type$>\n"
      ∷ []
    else if client_streaming
    then print
        "private val $lower_method_name$Trace: ($Map$<String, String>) -> io.reactivex.FlowableTransformer<$output_type$, $output_type$>\n"
      ∷ []
    else if fire_and_forget
    then print
        "private val $lower_method_name$Trace: ($Map$<String, String>) -> io.reactivex.FlowableTransformer<$output_type$, $output_type$>\n"
      ∷ []
    else print
        "private val $lower_method_name$Trace: ($Map$<String, String>) -> io.reactivex.FlowableTransformer<$output_type$, $output_type$>\n"
      ∷ []

unfoldable pub client_trace_field : Protobuf → MethodDescriptor → List Action
client_trace_field pb method =
    assign "output_type" (message_full_kotlin_name pb method.output_type)
    ∷ assign "lower_method_name" (lower_method_name method)
    ∷ client_trace_type method.client_streaming method.server_streaming
        method.options.fire_and_forget

-- The `init` block up to the case with no tracer.
unfoldable pub client_init : List Action
client_init =
    print_raw "\ninit {\n"
    ∷ indent
    ∷ print_raw "when(tracer) {\n"
    ∷ indent
    ∷ print "null -> {\n"
    ∷ indent
    ∷ []

unfoldable pub client_untraced : MethodDescriptor → List Action
client_untraced method =
    assign "lower_method_name" (lower_method_name method)
    ∷ print "this.$lower_method_name$Trace = $RSocketRpcTracing$.trace()\n"
    ∷ []

unfoldable pub client_init_else : List Action
client_init_else = outdent ∷ print_raw "}\n" ∷ print "else -> {\n" ∷ indent ∷ []

unfoldable pub client_traced : MethodDescriptor → List Action
client_traced method =
    assign "lower_method_name" (lower_method_name method)
    ∷ assign "method_field_name" (method_field_name method)
    ∷ print "this.$lower_method_name$Trace = $RSocketRpcTracing$.trace(\n"
    ∷ indent
    ∷ print
        "tracer,\n$service_name$.$method_field_name$,\n$Tag$.of(\"rsocket.service\", $service_name$.$service_field_name$),\n$Tag$.of(\"rsocket.type\", \"client\"),\n$Tag$.of(\"rsocket.version\", \"$version$\")\n"
    ∷ outdent
    ∷ print_raw ")\n"
    ∷ []

unfoldable pub client_init_end : List Action
client_init_end =
    outdent ∷ print_raw "}\n" ∷ outdent ∷ print_raw "}\n" ∷ outdent ∷ print_raw "}\n\n" ∷ []

unfoldable pub client_serialize : List Action
client_serialize =
    print "private fun serialize(message: $MessageLite$):$ByteBuf$ {\n"
    ∷ indent
    ∷ print
        "val length = message.serializedSize\nval byteBuf = $ByteBufAllocator$.DEFAULT.buffer(length)\n"
    ∷ print_raw "try {\n"
    ∷ indent
    ∷ print
        "message.writeTo($CodedOutputStream$.newInstance(byteBuf.nioBuffer(0, length)))\nbyteBuf.writerIndex(length)\nreturn byteBuf\n"
    ∷ outdent
    ∷ print_raw "} catch (t: Throwable) {\n"
    ∷ indent
    ∷ print_raw "byteBuf.release()\nthrow RuntimeException(t)\n"
    ∷ outdent
    ∷ print_raw "}\n"
    ∷ outdent
    ∷ print_raw "}\n\n"
    ∷ []

-- The last lines of the class.
unfoldable pub client_deserializer : List Action
client_deserializer =
    print "private fun <T> deserializer(parser: $Parser$<T>): ($Payload$) -> T =\n"
    ∷ indent
    ∷ print "{ payload -> parser.parseFrom($CodedInputStream$.newInstance(payload.data)) }\n"
    ∷ outdent
    ∷ print_raw "}\n"
    ∷ []

unfoldable pub print_client :
    Protobuf → Macros → ServiceDescriptor → ProtoFlavor → Bool → List Action
print_client pb macros service flavor disable_version =
    client_variables macros service disable_version
    ++ (client_header
        ++ (each (client_trace_field pb) service.methods
            ++ (client_init
                ++ (each client_untraced service.methods
                    ++ (client_init_else
                        ++ (each client_traced service.methods
                            ++ (client_init_end
                                ++ (each (client_method pb) service.methods
                                    ++ (client_serialize ++ client_deserializer)))))))))

-- The fully qualified names of classes that are not generated.
unfoldable pub client_class_names : List Action
client_class_names =
    assign "Flowable" (codes "io.reactivex.Flowable")
    ∷ assign "Single" (codes "io.reactivex.Single")
    ∷ assign "Completable" (codes "io.reactivex.Completable")
    ∷ assign "from" (codes "fromPublisher")
    ∷ assign "Function" (codes "io.reactivex.functions.Function")
    ∷ assign "Supplier" (codes "java.util.concurrent.Callable")
    ∷ assign "AtomicBoolean" (codes "java.util.concurrent.atomic.AtomicBoolean")
    ∷ assign "Override" (codes "java.lang.Override")
    ∷ assign "Publisher" (codes "org.reactivestreams.Publisher")
    ∷ assign "Generated" (codes "javax.annotation.Generated")
    ∷ assign "RSocketRpcGenerated" (codes "io.rsocket.rpc.kotlin.annotations.Generated")
    ∷ assign "RSocketRpcResourceType" (codes "io.rsocket.rpc.kotlin.annotations.ResourceType")
    ∷ assign "RSocket" (codes "io.rsocket.kotlin.RSocket")
    ∷ assign "Payload" (codes "io.rsocket.kotlin.Payload")
    ∷ assign "DefaultPayload" (codes "io.rsocket.kotlin.DefaultPayload")
    ∷ assign "ByteBuf" (codes "io.netty.buffer.ByteBuf")
    ∷ assign "ByteBufAllocator" (codes "io.netty.buffer.ByteBufAllocator")
    ∷ assign "Unpooled" (codes "io.netty.buffer.Unpooled")
    ∷ assign "ByteBuffer" (codes "java.nio.ByteBuffer")
    ∷ assign "CodedInputStream" (codes "com.google.protobuf.CodedInputStream")
    ∷ assign "CodedOutputStream" (codes "com.google.protobuf.CodedOutputStream")
    ∷ assign "RSocketRpcMetadata" (codes "io.rsocket.rpc.kotlin.frames.Metadata")
    ∷ assign "RSocketRpcMetrics" (codes "io.rsocket.rpc.kotlin.metrics.Metrics")
    ∷ assign "MeterRegistry" (codes "io.micrometer.core.instrument.MeterRegistry")
    ∷ assign "MessageLite" (codes "com.google.protobuf.MessageLite")
    ∷ assign "Parser" (codes "com.google.protobuf.Parser")
    ∷ assign "RSocketRpcGeneratedMethod" (codes "io.rsocket.rpc.kotlin.annotations.GeneratedMethod")
    ∷ assign "RSocketRpcTracing" (codes "io.rsocket.rpc.kotlin.tracing.Tracing")
    ∷ assign "Tag" (codes "io.rsocket.rpc.kotlin.tracing.Tag")
    ∷ assign "Tracer" (codes "io.opentracing.Tracer")
    ∷ assign "Map" (codes "Map")
    ∷ assign "HashMap" (codes "java.util.HashMap")
    ∷ assign "Supplier" (codes "java.util.concurrent.Callable")
    ∷ assign "Empty" (codes "com.google.protobuf.Empty")
    ∷ []

unfoldable pub generate_client :
    Protobuf → Macros → ServiceDescriptor → ProtoFlavor → Bool → List Action
generate_client pb macros service flavor disable_version =
    client_class_names
    ++ (package_line (service_kotlin_package pb service.file)
        ++ (package_variable service.file ++ print_client pb macros service flavor disable_version))
