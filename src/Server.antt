-- ===== src/Server.antt =====
-- `PrintServer` and `GenerateServer` of kotlin_generator.cpp
-- (rsocket-rpc-protobuf/src/kotlin_plugin/cpp/kotlin_generator.cpp): the file of the class that
-- dispatches requests to a service. What it prints for each kind of request stands in Handlers and
-- Channels, the sorting of the methods in Kinds.
pub mod Kinds
pub mod Channels
pub mod Handlers
pub mod Layout
pub mod Variables
pub mod Constants
pub mod Routes
use rsocket_rpc_kotlin.Base.{Bytes, codes, Bool, true, false, List, [], ◌∷◌, ◌++◌, if◌then◌else◌}
use rsocket_rpc_kotlin.Printer.{Action, assign, print, print_raw, indent, outdent, each}
use rsocket_rpc_kotlin.Descriptor.{
  ServiceDescriptor, MethodDescriptor, ProtoFlavor, Protobuf, Macros,
}
use rsocket_rpc_kotlin.Names.{
  service_field_name, method_field_name, lower_method_name, server_class_name,
}
use rsocket_rpc_kotlin.Package.{
  service_kotlin_package, server_package_line, package_variable, stringify, version_note,
  under_version,
}
use Kinds.{sort_methods}
use Handlers.{server_handlers}

-- The assignments under the test of the macro.
unfoldable pub server_version : Macros → List Action
server_version macros =
    assign "rsocket_rpc_version"
      (version_note (codes "rsocket_rpc_version") macros.rsocket_rpc_version)
    ∷ assign "version" (stringify (codes "rsocket_rpc_version") macros.rsocket_rpc_version)
    ∷ []

unfoldable pub server_variables : Macros → ServiceDescriptor → Bool → List Action
server_variables macros service disable_version =
    assign "service_name" service.name
    ∷ assign "service_field_name" (service_field_name service)
    ∷ assign "file_name" service.file.name
    ∷ assign "server_class_name" (server_class_name service)
    ∷ assign "rsocket_rpc_version" []
    ∷ assign "version" []
    ∷ under_version macros disable_version (server_version macros)

unfoldable pub server_header : List Action
server_header =
    print
      "@$Generated$(\n    value = [\"by RSocket RPC proto compiler$rsocket_rpc_version$\"],\n    comments = \"Source: $file_name$\")\n@$RSocketRpcGenerated$(\n    type = $RSocketRpcResourceType$.SERVICE,\n    idlClass = $service_name$::class)\n@$Named$(\n    value =\"$server_class_name$\")\nclass $server_class_name$ @$Inject$ constructor(\n"
    ∷ indent
    ∷ print
        "private val serviceImpl: $service_name$,\nprivate val tracer: $Tracer$? = null)\n: $AbstractRSocketService$() {\n"
    ∷ []

unfoldable pub server_trace_type : Bool → Bool → Bool → List Action
server_trace_type client_streaming server_streaming fire_and_forget =
    if server_streaming
    then print
        "private val $lower_method_name$Trace: ($SpanContext$?) -> io.reactivex.FlowableTransformer<$Payload$, $Payload$>\n"
      ∷ []
    else if client_streaming
    then print
        "private val $lower_method_name$Trace: ($SpanContext$?) -> io.reactivex.FlowableTransformer<$Payload$, $Payload$>\n"
      ∷ []
    else if fire_and_forget
    then print
        "private val $lower_method_name$Trace: ($SpanContext$?) -> io.reactivex.FlowableTransformer<$Empty$, $Empty$>\n"
      ∷ []
    else print
        "private val $lower_method_name$Trace: ($SpanContext$?) -> io.reactivex.FlowableTransformer<$Payload$, $Payload$>\n"
      ∷ []

unfoldable pub server_trace_field : MethodDescriptor → List Action
server_trace_field method =
    assign "lower_method_name" (lower_method_name method)
    ∷ server_trace_type method.client_streaming method.server_streaming
        method.options.fire_and_forget

unfoldable pub server_init : List Action
server_init =
    print_raw "\ninit {\n"
    ∷ indent
    ∷ print_raw "when(tracer) {\n"
    ∷ indent
    ∷ print "null -> {\n"
    ∷ indent
    ∷ []

unfoldable pub server_untraced : MethodDescriptor → List Action
server_untraced method =
    assign "lower_method_name" (lower_method_name method)
    ∷ print "this.$lower_method_name$Trace = $RSocketRpcTracing$.traceAsChild()\n"
    ∷ []

unfoldable pub server_init_else : List Action
server_init_else = outdent ∷ print_raw "}\n" ∷ print "else -> {\n" ∷ indent ∷ []

unfoldable pub server_traced : MethodDescriptor → List Action
server_traced method =
    assign "lower_method_name" (lower_method_name method)
    ∷ assign "method_field_name" (method_field_name method)
    ∷ print "this.$lower_method_name$Trace = $RSocketRpcTracing$.traceAsChild(\n"
    ∷ indent
    ∷ print
        "tracer,\n$service_name$.$method_field_name$,\n$Tag$.of(\"rsocket.service\", $service_name$.$service_field_name$),\n$Tag$.of(\"rsocket.type\", \"server\"),\n$Tag$.of(\"rsocket.version\", \"$version$\")\n"
    ∷ outdent
    ∷ print_raw ")\n"
    ∷ []

unfoldable pub server_init_end : List Action
server_init_end =
    outdent ∷ print_raw "}\n" ∷ outdent ∷ print_raw "}\n" ∷ outdent ∷ print_raw "}\n\n" ∷ []

unfoldable pub server_service : List Action
server_service =
    print "override val service: String = $service_name$.$service_field_name$\n"
    ∷ print_raw "\n"
    ∷ print "override val serviceClass = serviceImpl.javaClass\n"
    ∷ print_raw "\n"
    ∷ []

unfoldable pub server_serializer : List Action
server_serializer =
    print_raw "companion object {\n"
    ∷ indent
    ∷ print "private val serializer:($MessageLite$) -> $Payload$ = { message ->\n"
    ∷ indent
    ∷ print
        "val length = message.serializedSize\nval byteBuf = $ByteBufAllocator$.DEFAULT.buffer(length)\n"
    ∷ print_raw "try {\n"
    ∷ indent
    ∷ print
        "message.writeTo($CodedOutputStream$.newInstance(byteBuf.nioBuffer(0, length)))\nbyteBuf.writerIndex(length)\n$DefaultPayload$(byteBuf, $Unpooled$.EMPTY_BUFFER)\n"
    ∷ outdent
    ∷ print_raw "} catch (t: Throwable) {\n"
    ∷ indent
    ∷ print_raw "throw RuntimeException(t)\n"
    ∷ outdent
    ∷ print_raw "} finally {\n"
    ∷ indent
    ∷ print_raw "byteBuf.release()\n"
    ∷ outdent
    ∷ print_raw "}\n"
    ∷ outdent
    ∷ print_raw "}\n\n"
    ∷ outdent
    ∷ []

unfoldable pub server_deserializer : List Action
server_deserializer =
    print "private fun <T> deserializer(parser: $Parser$<T>):($Payload$) -> T {\n"
    ∷ indent
    ∷ print "return { payload -> \n"
    ∷ indent
    ∷ print "try {\n"
    ∷ indent
    ∷ print
        "val inputStream = $CodedInputStream$.newInstance(payload.data)\nparser.parseFrom(inputStream)\n"
    ∷ outdent
    ∷ print_raw "} catch (t: Throwable) {\n"
    ∷ indent
    ∷ print "throw RuntimeException(t)\n"
    ∷ outdent
    ∷ print_raw "}\n"
    ∷ outdent
    ∷ print_raw "}\n"
    ∷ outdent
    ∷ print_raw "}\n"
    ∷ outdent
    ∷ print_raw "}\n"
    ∷ outdent
    ∷ print_raw "}\n"
    ∷ []

unfoldable pub print_server :
    Protobuf → Macros → ServiceDescriptor → ProtoFlavor → Bool → List Action
print_server pb macros service flavor disable_version =
    server_variables macros service disable_version
    ++ (server_header
        ++ (each server_trace_field service.methods
            ++ (server_init
                ++ (each server_untraced service.methods
                    ++ (server_init_else
                        ++ (each server_traced service.methods
                            ++ (server_init_end
                                ++ (server_service
                                    ++ (server_handlers pb (sort_methods service.methods)
                                        ++ (server_serializer ++ server_deserializer))))))))))

unfoldable pub server_class_names : List Action
server_class_names =
    assign "Flowable" (codes "io.reactivex.Flowable")
    ∷ assign "Single" (codes "io.reactivex.Single")
    ∷ assign "Completable" (codes "io.reactivex.Completable")
    ∷ assign "from" (codes "from")
    ∷ assign "flux" (codes "flux")
    ∷ assign "flatMap" (codes "flatMapPublisher")
    ∷ assign "Function" (codes "io.reactivex.functions.Function")
    ∷ assign "Supplier" (codes "io.rsocket.rpc.kotlin.util.Supplier")
    ∷ assign "BiFunction" (codes "io.rsocket.rpc.kotlin.util.BiFunction")
    ∷ assign "Override" (codes "java.lang.Override")
    ∷ assign "Publisher" (codes "org.reactivestreams.Publisher")
    ∷ assign "Generated" (codes "javax.annotation.Generated")
    ∷ assign "RSocketRpcGenerated" (codes "io.rsocket.rpc.kotlin.annotations.Generated")
    ∷ assign "RSocket" (codes "io.rsocket.kotlin.RSocket")
    ∷ assign "Payload" (codes "io.rsocket.kotlin.Payload")
    ∷ assign "DefaultPayload" (codes "io.rsocket.kotlin.DefaultPayload")
    ∷ assign "AbstractRSocketService" (codes "io.rsocket.rpc.kotlin.AbstractRSocketService")
    ∷ assign "RSocketRpcMetadata" (codes "io.rsocket.rpc.kotlin.frames.Metadata")
    ∷ assign "RSocketRpcMetrics" (codes "io.rsocket.rpc.kotlin.metrics.Metrics")
    ∷ assign "MeterRegistry" (codes "io.micrometer.core.instrument.MeterRegistry")
    ∷ assign "ByteBufs" (codes "io.rsocket.rpc.kotlin.util.ByteBufs")
    ∷ assign "ByteBuf" (codes "io.netty.buffer.ByteBuf")
    ∷ assign "ByteBuffer" (codes "java.nio.ByteBuffer")
    ∷ assign "ByteBufAllocator" (codes "io.netty.buffer.ByteBufAllocator")
    ∷ assign "CodedInputStream" (codes "com.google.protobuf.CodedInputStream")
    ∷ assign "CodedOutputStream" (codes "com.google.protobuf.CodedOutputStream")
    ∷ assign "MessageLite" (codes "com.google.protobuf.MessageLite")
    ∷ assign "Parser" (codes "com.google.protobuf.Parser")
    ∷ assign "Inject" (codes "javax.inject.Inject")
    ∷ assign "Unpooled" (codes "io.netty.buffer.Unpooled")
    ∷ assign "Named" (codes "javax.inject.Named")
    ∷ assign "RSocketRpcResourceType" (codes "io.rsocket.rpc.kotlin.annotations.ResourceType")
    ∷ assign "RSocketRpcTracing" (codes "io.rsocket.rpc.kotlin.tracing.Tracing")
    ∷ assign "Tag" (codes "io.rsocket.rpc.kotlin.tracing.Tag")
    ∷ assign "SpanContext" (codes "io.opentracing.SpanContext")
    ∷ assign "Tracer" (codes "io.opentracing.Tracer")
    ∷ assign "Empty" (codes "com.google.protobuf.Empty")
    ∷ assign "StreamSplitter" (codes "io.rsocket.rpc.kotlin.util.StreamSplitter")
    ∷ []

unfoldable pub generate_server :
    Protobuf → Macros → ServiceDescriptor → ProtoFlavor → Bool → List Action
generate_server pb macros service flavor disable_version =
    server_class_names
    ++ (server_package_line (service_kotlin_package pb service.file)
        ++ (package_variable service.file ++ print_server pb macros service flavor disable_version))
