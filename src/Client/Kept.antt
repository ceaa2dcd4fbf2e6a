-- ===== src/Client/Kept.antt =====
-- The statements of the client's file up to the signature that overrides a method of the interface,
-- and the values of the variables then.
use rsocket_rpc_kotlin.Base.{String, Bytes, Bool, true, false, List, [], ◌∷◌, ◌++◌, some, ◌≡◌, refl}
use rsocket_rpc_kotlin.Printer.{Vars, get, Action, each}
use rsocket_rpc_kotlin.Printer.Closed.{contains}
use rsocket_rpc_kotlin.Printer.Closes.{get-put}
use rsocket_rpc_kotlin.Printer.Kept.{
  variables_after, keeps, Keeps, Keeps-append, Keeps-each, get-Keeps, get-set,
}
use rsocket_rpc_kotlin.Descriptor.{ServiceDescriptor, MethodDescriptor, Protobuf, Macros}
use rsocket_rpc_kotlin.Package.{service_kotlin_package, package_line, package_variable}
use rsocket_rpc_kotlin.Package.Kept.{
  class_keys, Keeps-under_version, package_line-Keeps, package_variable-Keeps,
}
use rsocket_rpc_kotlin.Names.{message_full_kotlin_name}
use rsocket_rpc_kotlin.Client.Method.{
  client_method_names, client_call_name, client_call_parameters, client_call_body,
  client_override_name, client_override_parameters, client_override_return, client_channel_map,
  client_channel_result, client_channel_end, client_channel_body, client_request_map,
  client_request_call, client_request_end, client_request_body, client_override_body,
  client_method_lines, client_method,
}
use rsocket_rpc_kotlin.Client.{
  client_variables, client_version, client_header, client_trace_type, client_trace_field,
  client_init, client_untraced, client_init_else, client_traced, client_init_end,
  client_class_names,
}

client_version-Keeps : (macros : Macros) → Keeps class_keys (client_version macros)
unfolding client_version keeps
client_version-Keeps macros = record { holds = refl }

client_variables-Keeps :
    (macros : Macros) (service : ServiceDescriptor) (dv : Bool)
    → Keeps class_keys (client_variables macros service dv)
unfolding client_variables keeps
client_variables-Keeps macros service dv = record {
  holds = (Keeps-under_version macros dv _ (client_version-Keeps macros)).holds;
}

client_header-Keeps : Keeps class_keys client_header
unfolding client_header keeps
client_header-Keeps = record { holds = refl }

client_trace_type-Keeps : (cs ss ff : Bool) → Keeps class_keys (client_trace_type cs ss ff)
unfolding client_trace_type keeps
client_trace_type-Keeps true true ff = record { holds = refl }
client_trace_type-Keeps true false ff = record { holds = refl }
client_trace_type-Keeps false true ff = record { holds = refl }
client_trace_type-Keeps false false true = record { holds = refl }
client_trace_type-Keeps false false false = record { holds = refl }

client_trace_field-Keeps :
    (pb : Protobuf) (m : MethodDescriptor) → Keeps class_keys (client_trace_field pb m)
unfolding client_trace_field keeps
client_trace_field-Keeps pb m = record {
  holds =
      (client_trace_type-Keeps m.client_streaming m.server_streaming
        m.options.fire_and_forget).holds;
}

client_init-Keeps : Keeps class_keys client_init
unfolding client_init keeps
client_init-Keeps = record { holds = refl }

client_untraced-Keeps : (m : MethodDescriptor) → Keeps class_keys (client_untraced m)
unfolding client_untraced keeps
client_untraced-Keeps m = record { holds = refl }

client_init_else-Keeps : Keeps class_keys client_init_else
unfolding client_init_else keeps
client_init_else-Keeps = record { holds = refl }

client_traced-Keeps : (m : MethodDescriptor) → Keeps class_keys (client_traced m)
unfolding client_traced keeps
client_traced-Keeps m = record { holds = refl }

client_init_end-Keeps : Keeps class_keys client_init_end
unfolding client_init_end keeps
client_init_end-Keeps = record { holds = refl }

client_method_names-Keeps :
    (pb : Protobuf) (m : MethodDescriptor) → Keeps class_keys (client_method_names pb m)
unfolding client_method_names keeps
client_method_names-Keeps pb m = record { holds = refl }

client_method_lines-Keeps : (cs ss ff : Bool) → Keeps class_keys (client_method_lines cs ss ff)
unfolding client_method_lines keeps client_call_name client_call_parameters client_call_body
    client_override_name client_override_parameters client_override_return client_override_body
    client_channel_body client_channel_map client_channel_result client_channel_end
    client_request_body client_request_map client_request_call client_request_end
client_method_lines-Keeps true true ff = record { holds = refl }
client_method_lines-Keeps true false ff = record { holds = refl }
client_method_lines-Keeps false true ff = record { holds = refl }
client_method_lines-Keeps false false true = record { holds = refl }
client_method_lines-Keeps false false false = record { holds = refl }

client_method-Keeps : (pb : Protobuf) (m : MethodDescriptor) → Keeps class_keys (client_method pb m)
unfolding client_method
client_method-Keeps pb m =
    Keeps-append (client_method_names-Keeps pb m)
      (client_method_lines-Keeps m.client_streaming m.server_streaming m.options.fire_and_forget)

-- The lines of a method up to the name of the function that overrides.
abbrev pub client_lines_upto : Bool → Bool → Bool → List Action
client_lines_upto cs ss ff =
    client_call_name cs ss ff
    ++ (client_call_parameters cs ++ (client_call_body cs ss ff ++ client_override_name cs ss ff))

-- The types of a method.
abbrev type_keys : List String
type_keys = "input_type" ∷ "output_type" ∷ []

module _ (ks : List String) where
  client_lines_upto-Keeps : (cs ss ff : Bool) → Keeps ks (client_lines_upto cs ss ff)
  unfolding keeps client_call_name client_call_parameters client_call_body client_override_name
  client_lines_upto-Keeps true true ff = record { holds = refl }
  client_lines_upto-Keeps true false ff = record { holds = refl }
  client_lines_upto-Keeps false true ff = record { holds = refl }
  client_lines_upto-Keeps false false true = record { holds = refl }
  client_lines_upto-Keeps false false false = record { holds = refl }

-- The statements from the names of classes to the name of a method's function, where the functions
-- of the methods `before` stand before it.
module _ (pb : Protobuf) (macros : Macros) (service : ServiceDescriptor) (dv : Bool)
    (before : List MethodDescriptor) (m : MethodDescriptor) where
  abbrev before_client_method : List Action
  before_client_method =
      package_line (service_kotlin_package pb service.file)
      ++ (package_variable service.file
          ++ (client_variables macros service dv
              ++ (client_header
                  ++ (each (client_trace_field pb) service.methods
                      ++ (client_init
                          ++ (each client_untraced service.methods
                              ++ (client_init_else
                                  ++ (each client_traced service.methods
                                      ++ (client_init_end ++ each (client_method pb) before)))))))))

  abbrev pub client_upto : List Action
  client_upto =
      client_class_names
      ++ (before_client_method
          ++ (client_method_names pb m
              ++ client_lines_upto m.client_streaming m.server_streaming m.options.fire_and_forget))

  before-Keeps : Keeps class_keys before_client_method
  before-Keeps = Keeps-append (package_line-Keeps _) (
      Keeps-append (package_variable-Keeps _) (
        Keeps-append (client_variables-Keeps macros service dv) (
          Keeps-append (client_header-Keeps) (
            Keeps-append (Keeps-each service.methods (client_trace_field-Keeps pb)) (
              Keeps-append (client_init-Keeps) (
                Keeps-append (Keeps-each service.methods client_untraced-Keeps) (
                  Keeps-append (client_init_else-Keeps) (
                    Keeps-append (Keeps-each service.methods client_traced-Keeps) (
                      Keeps-append (client_init_end-Keeps)
                        (Keeps-each before (client_method-Keeps pb)))))))))))

  tail-Keeps :
      (ks : List String)
      → Keeps ks (client_lines_upto m.client_streaming m.server_streaming m.options.fire_and_forget)
  tail-Keeps ks =
      client_lines_upto-Keeps ks m.client_streaming m.server_streaming m.options.fire_and_forget

  upto-Keeps : Keeps class_keys (
      before_client_method
      ++ (client_method_names pb m
          ++ client_lines_upto m.client_streaming m.server_streaming m.options.fire_and_forget))
  upto-Keeps =
      Keeps-append before-Keeps
        (Keeps-append (client_method_names-Keeps pb m) (tail-Keeps class_keys))

  pub client_upto-class :
      (k : String) (v : Bytes)
      → contains class_keys k ≡ true
      → get k (variables_after client_class_names []) ≡ some v
      → get k (variables_after client_upto []) ≡ some v
  client_upto-class k v h e = get-Keeps k client_class_names v h upto-Keeps e

  client_method_names-input_type :
      (vars : Vars)
      → get "input_type" (variables_after (client_method_names pb m) vars)
        ≡ some (message_full_kotlin_name pb m.input_type)
  unfolding client_method_names variables_after
  client_method_names-input_type vars = rw (get-put, get-put, get-put, get-put) refl

  pub client_upto-input_type :
      get "input_type" (variables_after client_upto [])
      ≡ some (message_full_kotlin_name pb m.input_type)
  client_upto-input_type =
      get-set "input_type" client_class_names before_client_method (client_method_names pb m) _ refl
        (tail-Keeps type_keys) client_method_names-input_type

  client_method_names-output_type :
      (vars : Vars)
      → get "output_type" (variables_after (client_method_names pb m) vars)
        ≡ some (message_full_kotlin_name pb m.output_type)
  unfolding client_method_names variables_after
  client_method_names-output_type vars = rw (get-put, get-put, get-put) refl

  pub client_upto-output_type :
      get "output_type" (variables_after client_upto [])
      ≡ some (message_full_kotlin_name pb m.output_type)
  client_upto-output_type =
      get-set "output_type" client_class_names before_client_method (client_method_names pb m) _
        refl (tail-Keeps type_keys) client_method_names-output_type
