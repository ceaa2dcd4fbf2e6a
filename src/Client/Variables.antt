-- ===== src/Client/Variables.antt =====
-- Every template of the client's file finds its variables.
use rsocket_rpc_kotlin.Base.{String, Bool, true, false, List, [], ◌∷◌, refl}
use rsocket_rpc_kotlin.Printer.{calls}
use rsocket_rpc_kotlin.Printer.Spell.{spell}
use rsocket_rpc_kotlin.Printer.Closed.{closed, keys_after, Sub-keys_after}
use rsocket_rpc_kotlin.Printer.Closes.{
  Closes, closed-Closes, Closes-append, Closes-each, IsDefined, spell_of_Closes,
}
use rsocket_rpc_kotlin.Descriptor.{
  ServiceDescriptor, MethodDescriptor, ProtoFlavor, Protobuf, Macros,
}
use rsocket_rpc_kotlin.Package.{service_kotlin_package, under_version}
use rsocket_rpc_kotlin.Package.Variables.{
  closed-under_version, package_line-Closes, package_variable-Closes,
}
use rsocket_rpc_kotlin.Client.Method.{
  client_method_names, client_call_name, client_call_parameters, client_call_body,
  client_override_name, client_override_parameters, client_override_return, client_channel_map,
  client_channel_result, client_channel_end, client_channel_body, client_request_map,
  client_request_call, client_request_end, client_request_body, client_override_body,
  client_method_lines, client_method,
}
use rsocket_rpc_kotlin.Client.{
  client_variables, client_version, client_header, client_trace_type, client_trace_field,
  client_init, client_untraced, client_init_else, client_traced, client_init_end, client_serialize,
  client_deserializer, print_client, client_class_names, generate_client,
}

-- The variables that `GenerateClient` sets, the last one first, and those of a service.
abbrev class_keys : List String
class_keys =
    "Package" ∷ "Package" ∷ "Empty" ∷ "Supplier" ∷ "HashMap" ∷ "Map" ∷ "Tracer" ∷ "Tag"
    ∷ "RSocketRpcTracing" ∷ "RSocketRpcGeneratedMethod" ∷ "Parser" ∷ "MessageLite" ∷ "MeterRegistry"
    ∷ "RSocketRpcMetrics" ∷ "RSocketRpcMetadata" ∷ "CodedOutputStream" ∷ "CodedInputStream"
    ∷ "ByteBuffer" ∷ "Unpooled" ∷ "ByteBufAllocator" ∷ "ByteBuf" ∷ "DefaultPayload" ∷ "Payload"
    ∷ "RSocket" ∷ "RSocketRpcResourceType" ∷ "RSocketRpcGenerated" ∷ "Generated" ∷ "Publisher"
    ∷ "Override" ∷ "AtomicBoolean" ∷ "Supplier" ∷ "Function" ∷ "from" ∷ "Completable" ∷ "Single"
    ∷ "Flowable" ∷ []

abbrev service_keys : List String
service_keys =
    "version" ∷ "rsocket_rpc_version" ∷ "client_class_name" ∷ "file_name" ∷ "service_field_name"
    ∷ "service_name" ∷ class_keys

client_class_names-Closes : Closes [] client_class_names (
    "Empty" ∷ "Supplier" ∷ "HashMap" ∷ "Map" ∷ "Tracer" ∷ "Tag" ∷ "RSocketRpcTracing"
    ∷ "RSocketRpcGeneratedMethod" ∷ "Parser" ∷ "MessageLite" ∷ "MeterRegistry" ∷ "RSocketRpcMetrics"
    ∷ "RSocketRpcMetadata" ∷ "CodedOutputStream" ∷ "CodedInputStream" ∷ "ByteBuffer" ∷ "Unpooled"
    ∷ "ByteBufAllocator" ∷ "ByteBuf" ∷ "DefaultPayload" ∷ "Payload" ∷ "RSocket"
    ∷ "RSocketRpcResourceType" ∷ "RSocketRpcGenerated" ∷ "Generated" ∷ "Publisher" ∷ "Override"
    ∷ "AtomicBoolean" ∷ "Supplier" ∷ "Function" ∷ "from" ∷ "Completable" ∷ "Single" ∷ "Flowable"
    ∷ [])
unfolding client_class_names closed keys_after
client_class_names-Closes = record { holds = refl; sets = λ k m. m }

client_variables-Closes :
    (macros : Macros) (service : ServiceDescriptor) (dv : Bool)
    → Closes class_keys (client_variables macros service dv) service_keys
unfolding client_variables client_version closed keys_after
client_variables-Closes macros service dv = record {
  holds = closed-under_version service_keys macros dv _ refl;
  sets = Sub-keys_after service_keys (under_version macros dv (client_version macros));
}

abbrev method_keys : List String
method_keys =
    "method_field_name" ∷ "lower_method_name" ∷ "output_type" ∷ "input_type" ∷ service_keys

client_method_names-Closes :
    (pb : Protobuf) (m : MethodDescriptor)
    → Closes service_keys (client_method_names pb m) method_keys
unfolding client_method_names closed keys_after
client_method_names-Closes pb m = record { holds = refl; sets = λ k h. h }

client_method_lines-Closes :
    (cs ss ff : Bool) → Closes method_keys (client_method_lines cs ss ff) method_keys
unfolding client_method_lines closed client_call_name client_call_parameters client_call_body
    client_override_name client_override_parameters client_override_return client_override_body
    client_channel_body client_channel_map client_channel_result client_channel_end
    client_request_body client_request_map client_request_call client_request_end
client_method_lines-Closes true true ff = closed-Closes _ refl
client_method_lines-Closes true false ff = closed-Closes _ refl
client_method_lines-Closes false true ff = closed-Closes _ refl
client_method_lines-Closes false false true = closed-Closes _ refl
client_method_lines-Closes false false false = closed-Closes _ refl

client_method-Closes :
    (pb : Protobuf) (m : MethodDescriptor) → Closes service_keys (client_method pb m) service_keys
client_method-Closes pb m = closed-Closes _ (
    unfold client_method in
    (Closes-append (client_method_names-Closes pb m) (
      client_method_lines-Closes m.client_streaming m.server_streaming
        m.options.fire_and_forget)).holds)

abbrev trace_keys : List String
trace_keys = "lower_method_name" ∷ "output_type" ∷ service_keys

client_trace_type-Closes :
    (cs ss ff : Bool) → Closes trace_keys (client_trace_type cs ss ff) trace_keys
unfolding client_trace_type closed
client_trace_type-Closes true true ff = closed-Closes _ refl
client_trace_type-Closes true false ff = closed-Closes _ refl
client_trace_type-Closes false true ff = closed-Closes _ refl
client_trace_type-Closes false false true = closed-Closes _ refl
client_trace_type-Closes false false false = closed-Closes _ refl

client_trace_field-Closes :
    (pb : Protobuf) (m : MethodDescriptor)
    → Closes service_keys (client_trace_field pb m) service_keys
client_trace_field-Closes pb m = closed-Closes _ (
    unfold client_trace_field closed in
    (client_trace_type-Closes m.client_streaming m.server_streaming
      m.options.fire_and_forget).holds)

client_header-Closes : Closes service_keys client_header service_keys
unfolding client_header closed
client_header-Closes = closed-Closes _ refl

client_init-Closes : Closes service_keys client_init service_keys
unfolding client_init closed
client_init-Closes = closed-Closes _ refl

client_init_else-Closes : Closes service_keys client_init_else service_keys
unfolding client_init_else closed
client_init_else-Closes = closed-Closes _ refl

client_init_end-Closes : Closes service_keys client_init_end service_keys
unfolding client_init_end closed
client_init_end-Closes = closed-Closes _ refl

client_serialize-Closes : Closes service_keys client_serialize service_keys
unfolding client_serialize closed
client_serialize-Closes = closed-Closes _ refl

client_deserializer-Closes : Closes service_keys client_deserializer service_keys
unfolding client_deserializer closed
client_deserializer-Closes = closed-Closes _ refl

client_untraced-Closes :
    (m : MethodDescriptor) → Closes service_keys (client_untraced m) service_keys
unfolding client_untraced closed
client_untraced-Closes m = closed-Closes _ refl

client_traced-Closes : (m : MethodDescriptor) → Closes service_keys (client_traced m) service_keys
unfolding client_traced closed
client_traced-Closes m = closed-Closes _ refl

print_client-Closes :
    (pb : Protobuf) (macros : Macros) (service : ServiceDescriptor) (flavor : ProtoFlavor)
    (dv : Bool)
    → Closes class_keys (print_client pb macros service flavor dv) service_keys
unfolding print_client
print_client-Closes pb macros service flavor dv =
    let ms = service.methods in
    Closes-append (client_variables-Closes macros service dv) (
      Closes-append (client_header-Closes) (
        Closes-append (Closes-each ms (client_trace_field-Closes pb)) (
          Closes-append (client_init-Closes) (
            Closes-append (Closes-each ms client_untraced-Closes) (
              Closes-append (client_init_else-Closes) (
                Closes-append (Closes-each ms client_traced-Closes) (
                  Closes-append (client_init_end-Closes) (
                    Closes-append (Closes-each ms (client_method-Closes pb))
                      (Closes-append (client_serialize-Closes) (client_deserializer-Closes))))))))))

generate_client-Closes :
    (pb : Protobuf) (macros : Macros) (service : ServiceDescriptor) (flavor : ProtoFlavor)
    (dv : Bool)
    → Closes [] (generate_client pb macros service flavor dv) service_keys
unfolding generate_client
generate_client-Closes pb macros service flavor dv = Closes-append client_class_names-Closes (
    Closes-append (package_line-Closes _ (service_kotlin_package pb service.file)) (
      Closes-append (package_variable-Closes _ service.file)
        (print_client-Closes pb macros service flavor dv)))

-- For every service and every choice of options, each template that is printed to the client's file
-- finds a value for each of its variables, and its dollar signs are paired: the file has a text.
pub spell-generate_client :
    (pb : Protobuf) (macros : Macros) (service : ServiceDescriptor) (flavor : ProtoFlavor)
    (disable_version : Bool)
    → IsDefined (spell (calls (generate_client pb macros service flavor disable_version) []))
spell-generate_client pb macros service flavor disable_version =
    spell_of_Closes (generate_client-Closes pb macros service flavor disable_version)
