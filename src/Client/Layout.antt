-- ===== src/Client/Layout.antt =====
-- The layout of the client's file.
use rsocket_rpc_kotlin.Base.{ℕ, suc, ◌+◌, Bytes, Bool, true, false, List, [], ◌∷◌, ◌≡◌, refl, arith}
use native.Mathlib.Nat.{add-zero}
use rsocket_rpc_kotlin.Printer.{each}
use rsocket_rpc_kotlin.Printer.Meter.{meter, Runs-append, Runs-each, Lays, layout_step}
use rsocket_rpc_kotlin.Descriptor.{
  ServiceDescriptor, MethodDescriptor, ProtoFlavor, Protobuf, Macros,
}
use rsocket_rpc_kotlin.Package.{service_kotlin_package}
use rsocket_rpc_kotlin.Package.Layout.{under_version-Lays, package_line-Lays, package_variable-Lays}
use rsocket_rpc_kotlin.Client.Method.{
  client_method_names, client_call_name, client_call_parameters, client_call_body,
  client_override_name, client_override_parameters, client_override_return, client_channel_map,
  client_channel_result, client_channel_end, client_channel_body, client_request_map,
  client_request_call, client_request_end, client_request_body, client_override_body,
  client_method_lines, client_method,
}
use rsocket_rpc_kotlin.Client.{
  client_variables, client_version, client_header, client_trace_type, client_trace_field,
  client_init, client_untraced, client_init_else, client_traced, client_init_end, client_serialize,
  client_deserializer, print_client, client_class_names, generate_client,
}

-- The `Indent()` that the lines of a method leave open.
abbrev left_open : Bool → ℕ → ℕ
left_open true n = suc n
left_open false n = n

module _ (n u : ℕ) (s : Bytes) where
  client_method_lines-Lays :
      (cs ss ff : Bool) → Lays (n, u, s) (client_method_lines cs ss ff) (left_open cs n, u, s)
  unfolding meter layout_step client_method_lines client_call_name client_call_parameters
      client_call_body client_override_name client_override_parameters client_override_return
      client_override_body client_channel_body client_channel_map client_channel_result
      client_channel_end client_request_body client_request_map client_request_call
      client_request_end
  client_method_lines-Lays true true ff = record { ran = refl }
  client_method_lines-Lays true false ff = record { ran = refl }
  client_method_lines-Lays false true ff = record { ran = refl }
  client_method_lines-Lays false false true = record { ran = refl }
  client_method_lines-Lays false false false = record { ran = refl }

  client_method-Lays :
      (pb : Protobuf) (m : MethodDescriptor)
      → Lays (n, u, s) (client_method pb m) (left_open m.client_streaming n, u, s)
  unfolding client_method
  client_method-Lays pb m =
      Runs-append names
        (client_method_lines-Lays m.client_streaming m.server_streaming m.options.fire_and_forget)
    where
      names : Lays (n, u, s) (client_method_names pb m) (n, u, s)
      names = record { ran = unfold meter layout_step client_method_names in refl }

  client_trace_type-Lays : (cs ss ff : Bool) → Lays (n, u, s) (client_trace_type cs ss ff) (n, u, s)
  unfolding meter layout_step client_trace_type
  client_trace_type-Lays cs true ff = record { ran = refl }
  client_trace_type-Lays true false ff = record { ran = refl }
  client_trace_type-Lays false false true = record { ran = refl }
  client_trace_type-Lays false false false = record { ran = refl }

  client_trace_field-Lays :
      (pb : Protobuf) (m : MethodDescriptor) → Lays (n, u, s) (client_trace_field pb m) (n, u, s)
  unfolding meter layout_step client_trace_field
  client_trace_field-Lays pb m = record {
    ran =
        (client_trace_type-Lays m.client_streaming m.server_streaming
          m.options.fire_and_forget).ran;
  }

  client_variables-Lays :
      (macros : Macros) (service : ServiceDescriptor) (dv : Bool)
      → Lays (n, u, s) (client_variables macros service dv) (n, u, s)
  unfolding meter layout_step client_variables client_version
  client_variables-Lays macros service dv = record {
    ran = (under_version-Lays macros dv (n, u, s) _ (record { ran = refl })).ran;
  }

  client_class_names-Lays : Lays (n, u, s) client_class_names (n, u, s)
  unfolding meter layout_step client_class_names
  client_class_names-Lays = record { ran = refl }

  client_header-Lays : Lays (n, u, s) client_header (suc (suc n), u, b'{' ∷ s)
  unfolding meter layout_step client_header
  client_header-Lays = record { ran = refl }

  client_init-Lays : Lays (n, u, s) client_init (suc (suc (suc n)), u, b'{' ∷ b'{' ∷ b'{' ∷ s)
  unfolding meter layout_step client_init
  client_init-Lays = record { ran = refl }

  client_untraced-Lays : (m : MethodDescriptor) → Lays (n, u, s) (client_untraced m) (n, u, s)
  unfolding meter layout_step client_untraced
  client_untraced-Lays m = record { ran = refl }

  client_traced-Lays : (m : MethodDescriptor) → Lays (n, u, s) (client_traced m) (n, u, s)
  unfolding meter layout_step client_traced
  client_traced-Lays m = record { ran = refl }

  client_init_else-Lays : Lays (suc n, u, b'{' ∷ s) client_init_else (suc n, u, b'{' ∷ s)
  unfolding meter layout_step client_init_else
  client_init_else-Lays = record { ran = refl }

  client_init_end-Lays :
      Lays (suc (suc (suc n)), u, b'{' ∷ b'{' ∷ b'{' ∷ s) client_init_end (n, u, s)
  unfolding meter layout_step client_init_end
  client_init_end-Lays = record { ran = refl }

  client_serialize-Lays : Lays (n, u, s) client_serialize (n, u, s)
  unfolding meter layout_step client_serialize
  client_serialize-Lays = record { ran = refl }

  client_deserializer-Lays : Lays (n, u, b'{' ∷ s) client_deserializer (n, u, s)
  unfolding meter layout_step client_deserializer
  client_deserializer-Lays = record { ran = refl }

-- The methods that take a stream.
abbrev pub channels : List MethodDescriptor → ℕ
channels [] = 0
channels (m ∷ ms) = left_open m.client_streaming (channels ms)

left_open-add : (b : Bool) (n k : ℕ) → left_open b n + k ≡ n + left_open b k
left_open-add true n k = omega arith
left_open-add false n k = refl

client_methods-Lays :
    (pb : Protobuf) (ms : List MethodDescriptor) (n u : ℕ) (s : Bytes)
    → Lays (n, u, s) (each (client_method pb) ms) (n + channels ms, u, s)
unfolding each
client_methods-Lays pb [] n u s = record { ran = unfold meter in rw add-zero }
client_methods-Lays pb (m ∷ ms) n u s = Runs-append (client_method-Lays n u s pb m) (
    rw (← left_open-add m.client_streaming n (channels ms))
      (client_methods-Lays pb ms (left_open m.client_streaming n) u s))

print_client-Lays :
    (pb : Protobuf) (macros : Macros) (service : ServiceDescriptor) (flavor : ProtoFlavor)
    (dv : Bool) (n u : ℕ) (s : Bytes)
    → Lays
        (n, u, s)
        (print_client pb macros service flavor dv)
        (suc (suc n) + channels service.methods, u, s)
unfolding print_client
print_client-Lays pb macros service flavor dv n u s =
    let ms = service.methods in
    Runs-append (client_variables-Lays n u s macros service dv) (
      Runs-append (client_header-Lays n u s) (
        Runs-append (Runs-each ms (client_trace_field-Lays _ _ _ pb)) (
          Runs-append (client_init-Lays _ _ _) (
            Runs-append (Runs-each ms (client_untraced-Lays _ _ _)) (
              Runs-append (client_init_else-Lays _ _ _) (
                Runs-append (Runs-each ms (client_traced-Lays _ _ _)) (
                  Runs-append (client_init_end-Lays (suc (suc n)) u (b'{' ∷ s)) (
                    Runs-append (client_methods-Lays pb ms _ _ _) (
                      Runs-append (client_serialize-Lays _ _ _)
                        (client_deserializer-Lays _ _ _))))))))))

-- For every service and every choice of options, each bracket in the text of the templates of the
-- client's file is closed by its partner, the last one opened first, and `Outdent()` is never
-- called before its `Indent()`; two calls of `Indent()`, and one more for each method that takes a
-- stream, have no `Outdent()`.
pub generate_client-Lays :
    (pb : Protobuf) (macros : Macros) (service : ServiceDescriptor) (flavor : ProtoFlavor)
    (disable_version : Bool)
    → Lays
        (0, 0, [])
        (generate_client pb macros service flavor disable_version)
        (2 + channels service.methods, 0, [])
unfolding generate_client
generate_client-Lays pb macros service flavor disable_version =
    Runs-append (client_class_names-Lays 0 0 []) (
      Runs-append (package_line-Lays (service_kotlin_package pb service.file) (0, 0, [])) (
        Runs-append (package_variable-Lays service.file (0, 0, []))
          (print_client-Lays pb macros service flavor disable_version 0 0 [])))
