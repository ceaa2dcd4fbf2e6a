-- ===== src/Agreement/Overrides.antt =====
-- The signatures in the files as they are generated: the client's function for a method overrides
-- the one that the interface declares.
use rsocket_rpc_kotlin.Base.{
  Bytes, codes, Bool, true, false, List, [], ◌∷◌, ◌++◌, some, ◌≡◌, refl, ap, ◌∙◌, append_assoc,
}
use rsocket_rpc_kotlin.Package.Kept.{class_keys}
use rsocket_rpc_kotlin.Printer.Closed.{contains}
use rsocket_rpc_kotlin.Printer.{Action, get, put, calls, each}
use rsocket_rpc_kotlin.Printer.Kept.{variables_after, each-append}
use rsocket_rpc_kotlin.Printer.Spell.{spell}
use rsocket_rpc_kotlin.Descriptor.{
  ServiceDescriptor, MethodDescriptor, ProtoFlavor, Protobuf, Macros,
}
use rsocket_rpc_kotlin.Names.{message_full_kotlin_name}
use rsocket_rpc_kotlin.Interface.{
  generate_interface, interface_parameters, interface_return, interface_class_names,
  interface_method, interface_end, print_interface,
}
use rsocket_rpc_kotlin.Interface.Kept.{
  interface_upto, interface_upto-class, interface_upto-input_type, interface_upto-output_type,
}
use rsocket_rpc_kotlin.Client.{
  generate_client, client_class_names, print_client, client_serialize, client_deserializer,
}
use rsocket_rpc_kotlin.Client.Method.{
  client_override_parameters, client_override_return, client_override_body, client_method,
  client_method_lines,
}
use rsocket_rpc_kotlin.Client.Kept.{
  client_upto, client_upto-class, client_upto-input_type, client_upto-output_type,
}
use rsocket_rpc_kotlin.Agreement.Signatures.{
  parameters_text, spell-interface_parameters, spell-client_override_parameters, return_type,
  interface_type, client_type, spell-interface_return, spell-client_override_return, class_key,
}

-- The values of two variables.
abbrev pub publisher : Bytes
publisher = codes "org.reactivestreams.Publisher"

abbrev pub byte_buf : Bytes
byte_buf = codes "io.netty.buffer.ByteBuf"

-- The class that a method returns, by its kind.
abbrev pub class_name : Bool → Bool → Bool → Bytes
class_name cs true ff = codes "io.reactivex.Flowable"
class_name true false ff = codes "io.reactivex.Single"
class_name false false true = codes "io.reactivex.Completable"
class_name false false false = codes "io.reactivex.Single"

get-interface_class_names :
    (cs ss ff : Bool)
    → get (class_key cs ss ff) (variables_after interface_class_names [])
      ≡ some (class_name cs ss ff)
unfolding get put variables_after interface_class_names
get-interface_class_names cs true ff = refl
get-interface_class_names true false ff = refl
get-interface_class_names false false true = refl
get-interface_class_names false false false = refl

get-client_class_names :
    (cs ss ff : Bool)
    → get (class_key cs ss ff) (variables_after client_class_names []) ≡ some (class_name cs ss ff)
unfolding get put variables_after client_class_names
get-client_class_names cs true ff = refl
get-client_class_names true false ff = refl
get-client_class_names false false true = refl
get-client_class_names false false false = refl

contains-class_key : (cs ss ff : Bool) → contains class_keys (class_key cs ss ff) ≡ true
contains-class_key cs true ff = refl
contains-class_key true false ff = refl
contains-class_key false false true = refl
contains-class_key false false false = refl

module _ (pb : Protobuf) (macros : Macros) (service : ServiceDescriptor) (flavor : ProtoFlavor)
    (dv : Bool) (before : List MethodDescriptor) (m : MethodDescriptor) where
  abbrev interface_signature : List Action
  interface_signature =
      interface_parameters m.client_streaming
      ++ interface_return m.client_streaming m.server_streaming m.options.fire_and_forget

  abbrev client_signature : List Action
  client_signature =
      client_override_parameters m.client_streaming
      ++ client_override_return m.client_streaming m.server_streaming m.options.fire_and_forget

  methods-split :
      (body : MethodDescriptor → List Action) (after : List MethodDescriptor)
      → service.methods ≡ before ++ m ∷ after
      → each body service.methods ≡ each body before ++ (body m ++ each body after)
  methods-split body after e =
      ap (each body) e ∙ (each-append body before (m ∷ after) ∙ (unfold each in refl))

  generate_interface-upto :
      (after : List MethodDescriptor)
      → service.methods ≡ before ++ m ∷ after
      → (rest : List Action) × (generate_interface pb macros service flavor dv
          ≡ interface_upto pb macros service dv before m ++ (interface_signature ++ rest))
  unfolding generate_interface print_interface interface_method
  generate_interface-upto after e = (
    each (interface_method pb) after ++ interface_end,
    rw (methods-split (interface_method pb) after e) (simp (append_assoc)),
  )

  generate_client-upto :
      (after : List MethodDescriptor)
      → service.methods ≡ before ++ m ∷ after
      → (rest : List Action) × (generate_client pb macros service flavor dv
          ≡ client_upto pb macros service dv before m ++ (client_signature ++ rest))
  unfolding generate_client print_client client_method client_method_lines
  generate_client-upto after e = (
    client_override_body m.client_streaming m.server_streaming m.options.fire_and_forget
        ++ (each (client_method pb) after ++ (client_serialize ++ client_deserializer)),
    rw (methods-split (client_method pb) after e) (simp (append_assoc)),
  )

-- For each method of a service, whatever methods stand before and behind it, both files have a list
-- of parameters and a return type for it: the statements of each file are some, then those of the
-- signature, then a rest, and with the variables as the first ones leave them the two lists have one
-- text, and the two return types have one. The parameters are the message, or a
-- `Publisher` of messages where the client streams, and the metadata; the return type is a `Flowable`
-- of the output where the server streams, else a `Completable` where the method fires and forgets and
-- the client does not stream, else a `Single` of the output.
pub client_overrides :
    (pb : Protobuf) (macros : Macros) (service : ServiceDescriptor) (flavor : ProtoFlavor)
    (disable_version : Bool) (before : List MethodDescriptor) (m : MethodDescriptor)
    (after : List MethodDescriptor)
    → service.methods ≡ before ++ m ∷ after
    → (let cs = m.client_streaming in
        let ss = m.server_streaming in
        let ff = m.options.fire_and_forget in
        let class = class_name cs ss ff in
        let input = message_full_kotlin_name pb m.input_type in
        let type = return_type cs ss ff class (message_full_kotlin_name pb m.output_type) in
        let parameters = parameters_text cs publisher input byte_buf in
        let declared = interface_upto pb macros service disable_version before m in
        let overriding = client_upto pb macros service disable_version before m in
        ((rest : List Action) × (generate_interface pb macros service flavor disable_version
            ≡ declared ++ ((interface_parameters cs ++ interface_return cs ss ff) ++ rest)))
        × (spell (calls (interface_parameters cs) (variables_after declared [])) ≡ some parameters)
        × (spell (calls (interface_return cs ss ff) (variables_after declared []))
            ≡ some (interface_type type class))
        × ((rest : List Action) × (generate_client pb macros service flavor disable_version
              ≡ overriding
                ++ ((client_override_parameters cs ++ client_override_return cs ss ff) ++ rest)))
        × (spell (calls (client_override_parameters cs) (variables_after overriding []))
            ≡ some parameters)
        × (spell (calls (client_override_return cs ss ff) (variables_after overriding []))
            ≡ some (client_type type)))
client_overrides pb macros service flavor dv before m after e =
    let cs = m.client_streaming in
    let ss = m.server_streaming in
    let ff = m.options.fire_and_forget in
    let key = class_key cs ss ff in
    let known = contains-class_key cs ss ff in
    let i = interface_upto-class pb macros service dv before m in
    let c = client_upto-class pb macros service dv before m in
    (
      generate_interface-upto pb macros service flavor dv before m after e,
      spell-interface_parameters _ _ _ _
          (i "Publisher" publisher refl
            (unfold get put variables_after interface_class_names in refl))
          (interface_upto-input_type pb macros service dv before m)
          (i "ByteBuf" byte_buf refl (unfold get put variables_after interface_class_names in refl))
          cs,
      spell-interface_return _ _ _ (interface_upto-output_type pb macros service dv before m) cs ss
          ff (i key _ known (get-interface_class_names cs ss ff)),
      generate_client-upto pb macros service flavor dv before m after e,
      spell-client_override_parameters _ _ _ _
          (c "Publisher" publisher refl (unfold get put variables_after client_class_names in refl))
          (client_upto-input_type pb macros service dv before m)
          (c "ByteBuf" byte_buf refl (unfold get put variables_after client_class_names in refl))
          cs,
      spell-client_override_return _ _ _ (client_upto-output_type pb macros service dv before m) cs
          ss ff (c key _ known (get-client_class_names cs ss ff)),
    )
