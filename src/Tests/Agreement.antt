-- ===== src/Tests/Agreement.antt =====
-- The theorems on what the files of a service agree on, at concrete services.
use rsocket_rpc_kotlin.Base.{codes, false, List, [], ◌∷◌, ◌++◌, none, some, ◌≡◌, refl, map}
use rsocket_rpc_kotlin.Printer.{calls, each}
use rsocket_rpc_kotlin.Printer.Mentions.{mentioned}
use rsocket_rpc_kotlin.Printer.Routes.{routes}
use rsocket_rpc_kotlin.Package.Routes.{told, untold}
use rsocket_rpc_kotlin.Agreement.{client_constants, server_constants, spell-interface_constants}
use rsocket_rpc_kotlin.Agreement.Routing.{client_routes}
use rsocket_rpc_kotlin.Agreement.Signatures.{
  parameters_text, return_type, interface_type, client_type,
}
use rsocket_rpc_kotlin.Agreement.Overrides.{client_overrides, class_name, publisher, byte_buf}
use rsocket_rpc_kotlin.Interface.Kept.{interface_upto}
use rsocket_rpc_kotlin.Client.Kept.{client_upto}
use rsocket_rpc_kotlin.Printer.{Action}
use rsocket_rpc_kotlin.Printer.Kept.{variables_after}
use rsocket_rpc_kotlin.Names.{message_full_kotlin_name}
use rsocket_rpc_kotlin.Interface.{interface_constant, interface_parameters, interface_return}
use rsocket_rpc_kotlin.Client.Method.{client_override_parameters, client_override_return}
use rsocket_rpc_kotlin.Printer.Spell.{spell}
use rsocket_rpc_kotlin.Descriptor.{normal}
use mathlib.Core.List.{Perm}
use rsocket_rpc_kotlin.Names.{method_field_name, to_all_upper_case, toupper, islower, isupper}
use rsocket_rpc_kotlin.Interface.{generate_interface}
use rsocket_rpc_kotlin.Client.{generate_client}
use rsocket_rpc_kotlin.Server.{generate_server}
use rsocket_rpc_kotlin.Tests.Services.{protobuf, gradle, method, channel, service, channel_service}

client_routes_example :
    let client = routes none (calls (generate_client protobuf gradle service normal false) []) in
    let server = routes none (calls (generate_server protobuf gradle service normal false) []) in
    (client ≡ map untold service.methods ++ map told service.methods) × Perm server client
client_routes_example = client_routes protobuf gradle service normal false

client_constants_example :
    let declared =
      mentioned "method_field_name"
        (calls (generate_interface protobuf gradle service normal false) []) in
    mentioned "method_field_name" (calls (generate_client protobuf gradle service normal false) [])
    ≡ declared ++ declared
client_constants_example = client_constants protobuf gradle service normal false

server_constants_example :
    let declared =
      mentioned "method_field_name"
        (calls (generate_interface protobuf gradle service normal false) []) in
    Perm
      (mentioned "method_field_name"
        (calls (generate_server protobuf gradle service normal false) []))
      (declared ++ declared)
server_constants_example = server_constants protobuf gradle service normal false

spell-interface_constants_example :
    spell (calls (each interface_constant (channel ∷ [])) [])
    ≡ some (codes "const val METHOD_CHANNEL = \"Channel\"\n")
unfolding method_field_name to_all_upper_case toupper islower isupper
spell-interface_constants_example = spell-interface_constants (channel ∷ []) []

client_overrides_example :
    let cs = channel.client_streaming in
    let ss = channel.server_streaming in
    let ff = channel.options.fire_and_forget in
    let class = class_name cs ss ff in
    let input = message_full_kotlin_name protobuf channel.input_type in
    let type = return_type cs ss ff class (message_full_kotlin_name protobuf channel.output_type) in
    let parameters = parameters_text cs publisher input byte_buf in
    let before = method (codes "Call") false false false ∷ [] in
    let declared = interface_upto protobuf gradle channel_service false before channel in
    let overriding = client_upto protobuf gradle channel_service false before channel in
    ((rest : List Action) × (generate_interface protobuf gradle channel_service normal false
        ≡ declared ++ ((interface_parameters cs ++ interface_return cs ss ff) ++ rest)))
    × (spell (calls (interface_parameters cs) (variables_after declared [])) ≡ some parameters)
    × (spell (calls (interface_return cs ss ff) (variables_after declared []))
        ≡ some (interface_type type class))
    × ((rest : List Action) × (generate_client protobuf gradle channel_service normal false
          ≡ overriding
            ++ ((client_override_parameters cs ++ client_override_return cs ss ff) ++ rest)))
    × (spell (calls (client_override_parameters cs) (variables_after overriding []))
        ≡ some parameters)
    × (spell (calls (client_override_return cs ss ff) (variables_after overriding []))
        ≡ some (client_type type))
client_overrides_example =
    client_overrides protobuf gradle channel_service normal false
      (method (codes "Call") false false false ∷ []) channel [] refl
