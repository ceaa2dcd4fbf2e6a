-- ===== src/Agreement/Routing.antt =====
-- The interactions by which the client's file sends requests and the server's file takes them.
use mathlib.Core.List.{Perm}
use mathlib.Core.List.Perm
use rsocket_rpc_kotlin.Base.{Bool, [], ◌++◌, none, map, ◌≡◌}
use rsocket_rpc_kotlin.Printer.{calls}
use rsocket_rpc_kotlin.Printer.Routes.{routes}
use rsocket_rpc_kotlin.Descriptor.{ServiceDescriptor, ProtoFlavor, Protobuf, Macros}
use rsocket_rpc_kotlin.Package.Routes.{told, untold}
use rsocket_rpc_kotlin.Server.Kinds.{sort_methods}
use rsocket_rpc_kotlin.Server.Kinds.Sorted.{sort_methods_lem}
use rsocket_rpc_kotlin.Client.{generate_client}
use rsocket_rpc_kotlin.Server.{generate_server}
use rsocket_rpc_kotlin.Client.Routes.{routes-generate_client}
use rsocket_rpc_kotlin.Server.Routes.{routes-generate_server, kinds_routes-AreSorted}

-- Of each constant of a method that a template names, take the last interaction of RSocket whose
-- function is called or declared in that template or in one before it. In the client's file, the
-- constants of all methods come once before the first interaction, and then once each with the
-- interaction of the method's kind; in the server's file the same constants come with the same
-- interactions, up to their order: a request is sent by the interaction in whose handler its method
-- has its case.
pub client_routes :
    (pb : Protobuf) (macros : Macros) (service : ServiceDescriptor) (flavor : ProtoFlavor)
    (disable_version : Bool)
    → (let client =
          routes none (calls (generate_client pb macros service flavor disable_version) []) in
        let server =
          routes none (calls (generate_server pb macros service flavor disable_version) []) in
        (client ≡ map untold service.methods ++ map told service.methods) × Perm server client)
client_routes pb macros service flavor dv =
    let (sorted, perm) = sort_methods_lem service.methods in
    (
      routes-generate_client pb macros service flavor dv,
      rw
          (
            routes-generate_client pb macros service flavor dv,
            routes-generate_server pb macros service flavor dv,
            kinds_routes-AreSorted (sort_methods service.methods) sorted,
          )
          (Perm.append_left (map untold service.methods) (Perm.map told perm)),
    )
