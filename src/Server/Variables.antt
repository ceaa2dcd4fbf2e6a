-- ===== src/Server/Variables.antt =====
-- Every template of the server's file finds its variables.
mod Handlers
use rsocket_rpc_kotlin.Base.{
  String, Bytes, codes, Bool, true, false, List, [], ◌∷◌, ◌++◌, ◌≡◌, refl, is_empty,
}
use rsocket_rpc_kotlin.Printer.{calls, each}
use rsocket_rpc_kotlin.Printer.Spell.{spell}
use rsocket_rpc_kotlin.Printer.Closed.{closed, keys_after, Sub-keys_after}
use rsocket_rpc_kotlin.Printer.Closes.{
  Closes, closed-Closes, Closes-append, Closes-each, IsDefined, spell_of_Closes,
}
use rsocket_rpc_kotlin.Descriptor.{
  ServiceDescriptor, MethodDescriptor, ProtoFlavor, Protobuf, Macros,
}
use rsocket_rpc_kotlin.Package.{service_kotlin_package, under_version}
use rsocket_rpc_kotlin.Package.Variables.{
  closed-under_version, package_line-Closes, server_package_line-Closes, package_variable-Closes,
}
use rsocket_rpc_kotlin.Server.Kinds.{sort_methods}
use rsocket_rpc_kotlin.Server.{
  server_variables, server_version, server_header, server_trace_type, server_trace_field,
  server_init, server_untraced, server_init_else, server_traced, server_init_end, server_service,
  server_serializer, server_deserializer, print_server, server_class_names, generate_server,
}
use Handlers.{class_keys, service_keys, server_handlers-Closes}

server_class_names-Closes : Closes [] server_class_names (
    "StreamSplitter" ∷ "Empty" ∷ "Tracer" ∷ "SpanContext" ∷ "Tag" ∷ "RSocketRpcTracing"
    ∷ "RSocketRpcResourceType" ∷ "Named" ∷ "Unpooled" ∷ "Inject" ∷ "Parser" ∷ "MessageLite"
    ∷ "CodedOutputStream" ∷ "CodedInputStream" ∷ "ByteBufAllocator" ∷ "ByteBuffer" ∷ "ByteBuf"
    ∷ "ByteBufs" ∷ "MeterRegistry" ∷ "RSocketRpcMetrics" ∷ "RSocketRpcMetadata"
    ∷ "AbstractRSocketService" ∷ "DefaultPayload" ∷ "Payload" ∷ "RSocket" ∷ "RSocketRpcGenerated"
    ∷ "Generated" ∷ "Publisher" ∷ "Override" ∷ "BiFunction" ∷ "Supplier" ∷ "Function" ∷ "flatMap"
    ∷ "flux" ∷ "from" ∷ "Completable" ∷ "Single" ∷ "Flowable" ∷ [])
unfolding server_class_names closed keys_after
server_class_names-Closes = record { holds = refl; sets = λ k m. m }

server_variables-Closes :
    (macros : Macros) (service : ServiceDescriptor) (dv : Bool)
    → Closes class_keys (server_variables macros service dv) service_keys
unfolding server_variables server_version closed keys_after
server_variables-Closes macros service dv = record {
  holds = closed-under_version service_keys macros dv _ refl;
  sets = Sub-keys_after service_keys (under_version macros dv (server_version macros));
}

abbrev trace_keys : List String
trace_keys = "lower_method_name" ∷ service_keys

server_trace_type-Closes :
    (cs ss ff : Bool) → Closes trace_keys (server_trace_type cs ss ff) trace_keys
unfolding server_trace_type closed
server_trace_type-Closes true true ff = closed-Closes _ refl
server_trace_type-Closes true false ff = closed-Closes _ refl
server_trace_type-Closes false true ff = closed-Closes _ refl
server_trace_type-Closes false false true = closed-Closes _ refl
server_trace_type-Closes false false false = closed-Closes _ refl

server_trace_field-Closes :
    (m : MethodDescriptor) → Closes service_keys (server_trace_field m) service_keys
server_trace_field-Closes m = closed-Closes _ (
    unfold server_trace_field closed in
    (server_trace_type-Closes m.client_streaming m.server_streaming
      m.options.fire_and_forget).holds)

server_header-Closes : Closes service_keys server_header service_keys
unfolding server_header closed
server_header-Closes = closed-Closes _ refl

server_init-Closes : Closes service_keys server_init service_keys
unfolding server_init closed
server_init-Closes = closed-Closes _ refl

server_init_else-Closes : Closes service_keys server_init_else service_keys
unfolding server_init_else closed
server_init_else-Closes = closed-Closes _ refl

server_init_end-Closes : Closes service_keys server_init_end service_keys
unfolding server_init_end closed
server_init_end-Closes = closed-Closes _ refl

server_service-Closes : Closes service_keys server_service service_keys
unfolding server_service closed
server_service-Closes = closed-Closes _ refl

server_serializer-Closes : Closes service_keys server_serializer service_keys
unfolding server_serializer closed
server_serializer-Closes = closed-Closes _ refl

server_deserializer-Closes : Closes service_keys server_deserializer service_keys
unfolding server_deserializer closed
server_deserializer-Closes = closed-Closes _ refl

server_untraced-Closes :
    (m : MethodDescriptor) → Closes service_keys (server_untraced m) service_keys
unfolding server_untraced closed
server_untraced-Closes m = closed-Closes _ refl

server_traced-Closes : (m : MethodDescriptor) → Closes service_keys (server_traced m) service_keys
unfolding server_traced closed
server_traced-Closes m = closed-Closes _ refl

print_server-Closes :
    (pb : Protobuf) (macros : Macros) (service : ServiceDescriptor) (flavor : ProtoFlavor)
    (dv : Bool)
    → Closes class_keys (print_server pb macros service flavor dv) service_keys
unfolding print_server
print_server-Closes pb macros service flavor dv =
    let ms = service.methods in
    Closes-append (server_variables-Closes macros service dv) (
      Closes-append (server_header-Closes) (
        Closes-append (Closes-each ms server_trace_field-Closes) (
          Closes-append (server_init-Closes) (
            Closes-append (Closes-each ms server_untraced-Closes) (
              Closes-append (server_init_else-Closes) (
                Closes-append (Closes-each ms server_traced-Closes) (
                  Closes-append (server_init_end-Closes) (
                    Closes-append (server_service-Closes) (
                      Closes-append (server_handlers-Closes pb (sort_methods ms)) (
                        Closes-append (server_serializer-Closes)
                          (server_deserializer-Closes)))))))))))

generate_server-Closes :
    (pb : Protobuf) (macros : Macros) (service : ServiceDescriptor) (flavor : ProtoFlavor)
    (dv : Bool)
    → Closes [] (generate_server pb macros service flavor dv) service_keys
unfolding generate_server
generate_server-Closes pb macros service flavor dv = Closes-append server_class_names-Closes (
    Closes-append (server_package_line-Closes _ (service_kotlin_package pb service.file)) (
      Closes-append (package_variable-Closes _ service.file)
        (print_server-Closes pb macros service flavor dv)))

-- For every service and every choice of options, each template that is printed to the server's file
-- finds a value for each of its variables, and its dollar signs are paired: the file has a text.
pub spell-generate_server :
    (pb : Protobuf) (macros : Macros) (service : ServiceDescriptor) (flavor : ProtoFlavor)
    (disable_version : Bool)
    → IsDefined (spell (calls (generate_server pb macros service flavor disable_version) []))
spell-generate_server pb macros service flavor disable_version =
    spell_of_Closes (generate_server-Closes pb macros service flavor disable_version)
