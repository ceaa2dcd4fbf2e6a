-- ===== src/Agreement.antt =====
-- What the three files that kotlin_generator.cpp
-- (rsocket-rpc-protobuf/src/kotlin_plugin/cpp/kotlin_generator.cpp) generates for a service must
-- agree on: the constants with the names of the methods, and the signatures of the functions.
pub mod Signatures
pub mod Routing
pub mod Overrides
use mathlib.Core.List.{Perm}
use mathlib.Core.List.Perm
use rsocket_rpc_kotlin.Base.{
  Bytes, codes, Bool, List, [], ◌∷◌, ◌++◌, Option, some, map, ◌≡◌, refl, append_assoc,
}
use rsocket_rpc_kotlin.Printer.{Vars, put, get, calls, each}
use rsocket_rpc_kotlin.Printer.Spell.{spell, expand, value, expand_parts, parts, ◌>>=◌}
use rsocket_rpc_kotlin.Printer.Closes.{get-put}
use rsocket_rpc_kotlin.Printer.Expand.{Expands-cons, Expands-last, expand-Expands, spell-print}
use rsocket_rpc_kotlin.Printer.Mentions.{mentioned}
use rsocket_rpc_kotlin.Descriptor.{
  ServiceDescriptor, MethodDescriptor, ProtoFlavor, Protobuf, Macros,
}
use rsocket_rpc_kotlin.Names.{method_field_name}
use rsocket_rpc_kotlin.Package.Constants.{constant}
use rsocket_rpc_kotlin.Server.Kinds.{sort_methods}
use rsocket_rpc_kotlin.Server.Kinds.Sorted.{all_methods, sort_methods_lem}
use rsocket_rpc_kotlin.Interface.{generate_interface, interface_constant}
use rsocket_rpc_kotlin.Client.{generate_client}
use rsocket_rpc_kotlin.Server.{generate_server}
use rsocket_rpc_kotlin.Interface.Constants.{mentioned-generate_interface}
use rsocket_rpc_kotlin.Client.Constants.{mentioned-generate_client}
use rsocket_rpc_kotlin.Server.Constants.{mentioned-generate_server}

-- The line of the interface that declares the constant of a method.
abbrev constant_line : MethodDescriptor → Bytes
constant_line m =
    codes "const val " ++ (method_field_name m ++ (codes " = \"" ++ (m.name ++ codes "\"\n")))

abbrev constant_lines : List MethodDescriptor → Bytes
constant_lines [] = []
constant_lines (m ∷ ms) = constant_line m ++ constant_lines ms

expand-constant_line :
    (m : MethodDescriptor) (vars : Vars)
    → get "method_field_name" vars ≡ some (method_field_name m)
    → get "method_name" vars ≡ some m.name
    → expand vars "const val $method_field_name$ = \"$method_name$\"\n" ≡ some (constant_line m)
unfolding parts
expand-constant_line m vars f n =
    expand-Expands "const val $method_field_name$ = \"$method_name$\"\n"
      (Expands-cons refl f (Expands-cons refl n Expands-last))

abbrev constant_variables : MethodDescriptor → Vars → Vars
constant_variables m vars =
    put "method_name" m.name (put "method_field_name" (method_field_name m) vars)

-- Whatever variables are set before them, the lines between the interface's name and its functions
-- declare one constant for each method, in the order of the methods, and the value of each is the
-- method's name as the service declares it.
pub spell-interface_constants :
    (methods : List MethodDescriptor) (vars : Vars)
    → spell (calls (each interface_constant methods) vars) ≡ some (constant_lines methods)
unfolding calls each interface_constant
spell-interface_constants [] vars = unfold spell in refl
spell-interface_constants (m ∷ methods) vars =
    spell-print (constant_variables m vars) _ _ _ _
      (expand-constant_line m (constant_variables m vars) (rw (get-put, get-put) refl)
        (rw get-put refl))
      (spell-interface_constants methods (constant_variables m vars))

-- The templates of the client's file name the constants that those of the interface's file name: all
-- of them once, and then all of them once more, each time in the order of the interface, for every
-- kind of method and every choice of options.
pub client_constants :
    (pb : Protobuf) (macros : Macros) (service : ServiceDescriptor) (flavor : ProtoFlavor)
    (disable_version : Bool)
    → (let declared =
          mentioned "method_field_name"
            (calls (generate_interface pb macros service flavor disable_version) []) in
        mentioned "method_field_name"
          (calls (generate_client pb macros service flavor disable_version) [])
        ≡ declared ++ declared)
client_constants pb macros service flavor dv =
    rw
      (
        mentioned-generate_client pb macros service flavor dv,
        mentioned-generate_interface pb macros service flavor dv,
      )
      refl

-- Up to their order, the templates of the server's file name each constant twice as often as those of
-- the interface's file do, and no other constant, for every kind of method and every choice of
-- options.
pub server_constants :
    (pb : Protobuf) (macros : Macros) (service : ServiceDescriptor) (flavor : ProtoFlavor)
    (disable_version : Bool)
    → (let declared =
          mentioned "method_field_name"
            (calls (generate_interface pb macros service flavor disable_version) []) in
        Perm
          (mentioned "method_field_name"
            (calls (generate_server pb macros service flavor disable_version) []))
          (declared ++ declared))
server_constants pb macros service flavor dv =
    rw
      (
        mentioned-generate_server pb macros service flavor dv,
        mentioned-generate_interface pb macros service flavor dv,
      )
      (Perm.append_left (map constant service.methods)
        (Perm.map constant (sort_methods_lem service.methods).1))
