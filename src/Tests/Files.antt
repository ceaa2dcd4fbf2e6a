-- ===== src/Tests/Files.antt =====
-- The theorems on the files of a service and on a run, at concrete services.
use rsocket_rpc_kotlin.Base.{◌+◌, codes, true, false, [], ◌∷◌, ◌++◌, ◌≡◌, refl, map}
use rsocket_rpc_kotlin.Printer.{calls}
use rsocket_rpc_kotlin.Printer.Spell.{spell}
use rsocket_rpc_kotlin.Printer.Closes.{IsDefined}
use rsocket_rpc_kotlin.Printer.Meter.{Lays}
use rsocket_rpc_kotlin.Descriptor.{normal, lite}
use mathlib.Core.List.{Perm}
use rsocket_rpc_kotlin.Interface.{generate_interface}
use rsocket_rpc_kotlin.Interface.Layout.{generate_interface-Lays}
use rsocket_rpc_kotlin.Interface.Variables.{spell-generate_interface}
use rsocket_rpc_kotlin.Client.{generate_client}
use rsocket_rpc_kotlin.Client.Layout.{channels, generate_client-Lays}
use rsocket_rpc_kotlin.Client.Variables.{spell-generate_client}
use rsocket_rpc_kotlin.Server.{generate_server}
use rsocket_rpc_kotlin.Server.Kinds.{sort_methods}
use rsocket_rpc_kotlin.Server.Kinds.Sorted.{AreSorted, all_methods, sort_methods_lem}
use rsocket_rpc_kotlin.Server.Layout.{generate_server-Lays}
use rsocket_rpc_kotlin.Server.Variables.{spell-generate_server}
use rsocket_rpc_kotlin.Plugin.{bytes_eq, reactor}
use rsocket_rpc_kotlin.Plugin.Options.{reactor_noversion, reactor_undefined}
use rsocket_rpc_kotlin.Plugin.Files.{class_names, file_names, reactor_files}
use rsocket_rpc_kotlin.Tests.Services.{protobuf, gradle, file, service, plain_service, lacks}

spell-generate_server_example :
    IsDefined (spell (calls (generate_server protobuf gradle service normal false) []))
spell-generate_server_example = spell-generate_server protobuf gradle service normal false

spell-generate_client_example :
    IsDefined (spell (calls (generate_client protobuf gradle service normal false) []))
spell-generate_client_example = spell-generate_client protobuf gradle service normal false

spell-generate_interface_example :
    IsDefined (spell (calls (generate_interface protobuf gradle service lite true) []))
spell-generate_interface_example = spell-generate_interface protobuf gradle service lite true

sort_methods_lem_example :
    AreSorted (sort_methods service.methods)
    × Perm (all_methods (sort_methods service.methods)) service.methods
sort_methods_lem_example = sort_methods_lem service.methods

generate_server-Lays_example :
    Lays (0, 0, []) (generate_server protobuf gradle plain_service normal false) (0, 1, [])
unfolding sort_methods
generate_server-Lays_example = generate_server-Lays protobuf gradle plain_service normal false

generate_client-Lays_example :
    Lays
      (0, 0, [])
      (generate_client protobuf gradle service normal false)
      (2 + channels service.methods, 0, [])
generate_client-Lays_example = generate_client-Lays protobuf gradle service normal false

generate_interface-Lays_example :
    Lays (0, 0, []) (generate_interface protobuf gradle service normal false) (0, 0, [])
generate_interface-Lays_example = generate_interface-Lays protobuf gradle service normal false

reactor_noversion_example :
    reactor protobuf gradle file (service ∷ []) (codes "lite")
    ≡ reactor protobuf gradle file (service ∷ []) []
unfolding bytes_eq
reactor_noversion_example =
    reactor_noversion protobuf gradle file (service ∷ []) (codes "lite") [] refl

reactor_undefined_example :
    reactor protobuf gradle file (service ∷ []) (codes "noversion")
    ≡ reactor protobuf gradle file (service ∷ []) []
reactor_undefined_example =
    reactor_undefined protobuf gradle file (service ∷ []) (codes "noversion") [] refl

reactor_files_example :
    let run = reactor protobuf gradle file (service ∷ []) [] in
    (run.0 ≡ true)
    × (file_names run.1
        ≡ map (λ name. codes "io/example/" ++ (name ++ codes ".kt")) (class_names (service ∷ [])))
reactor_files_example =
    reactor_files protobuf gradle file (service ∷ []) [] (codes "io" ∷ codes "example" ∷ [])
      (codes "ExampleProto") (lacks b'.' (codes "ExampleProto") refl)
      ((cc, lacks b'.' (codes "io") refl), ((cc, lacks b'.' (codes "example") refl), tt)) refl
