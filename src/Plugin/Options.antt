-- ===== src/Plugin/Options.antt =====
-- What the options of a run change.
use rsocket_rpc_kotlin.Base.{
  Bytes, codes, Bool, true, false, List, [], ◌∷◌, ◌++◌, none, ◌||◌, ◌≡◌, refl, ap, ap₂, arith, ◌∙◌,
  sym,
}
use rsocket_rpc_kotlin.Descriptor.{
  FileDescriptor, ServiceDescriptor, ProtoFlavor, normal, Protobuf, Macros,
}
use rsocket_rpc_kotlin.Package.{when_defined, under_version}
use rsocket_rpc_kotlin.Printer.{Action}
use rsocket_rpc_kotlin.Interface.{interface_variables, print_interface, generate_interface}
use rsocket_rpc_kotlin.Client.{client_variables, print_client, generate_client}
use rsocket_rpc_kotlin.Server.{server_variables, print_server, generate_server}
use rsocket_rpc_kotlin.Plugin.{
  bytes_eq, Settings, read_option, read_options, generate_service, generate_services, reactor,
}

-- Whether an option with a key is given.
abbrev pub given : Bytes → List (Bytes × Bytes) → Bool
given key [] = false
given key ((k, v) ∷ options) = bytes_eq k key || given key options

bytes_eq-eq : (s t : Bytes) → bytes_eq s t ≡ true → s ≡ t
unfolding bytes_eq
bytes_eq-eq [] [] h = refl
bytes_eq-eq [] (y ∷ t) h = cc
bytes_eq-eq (x ∷ s) [] h = cc
bytes_eq-eq (x ∷ s) (y ∷ t) h = ground (arith, bytes_eq-eq s t)

-- The two keys that are known differ.
lite-ne-noversion :
    (k : Bytes) → bytes_eq k (codes "lite") ≡ true → bytes_eq k (codes "noversion") ≡ false
lite-ne-noversion k h = rw (bytes_eq-eq k (codes "lite") h) (unfold bytes_eq in refl)

read_option-disable_version :
    (k v : Bytes) (settings : Settings)
    → (read_option (k, v) settings).disable_version
      ≡ (settings.disable_version || bytes_eq k (codes "noversion"))
unfolding read_option
read_option-disable_version k v settings = ground (arith, lite-ne-noversion k)

read_options-disable_version :
    (options : List (Bytes × Bytes)) (settings : Settings)
    → (read_options options settings).disable_version
      ≡ (settings.disable_version || given (codes "noversion") options)
unfolding read_option read_options
read_options-disable_version [] settings = ground arith
read_options-disable_version ((k, v) ∷ options) settings =
    read_options-disable_version options (read_option (k, v) settings)
    ∙ rw (read_option-disable_version k v settings) (ground arith)

module _ (pb : Protobuf) (macros : Macros) where
  generate_service-flavor :
      (dir : Bytes) (service : ServiceDescriptor) (f g : ProtoFlavor) (dv : Bool)
      → generate_service pb macros dir (record { flavor = f; disable_version = dv }) service
        ≡ generate_service pb macros dir (record { flavor = g; disable_version = dv }) service
  unfolding generate_service generate_interface print_interface generate_client print_client
      generate_server print_server
  generate_service-flavor dir service f g dv = refl

  generate_services-flavor :
      (dir : Bytes) (services : List ServiceDescriptor) (a b : Settings)
      → a.disable_version ≡ b.disable_version
      → generate_services pb macros dir a services ≡ generate_services pb macros dir b services
  unfolding generate_services
  generate_services-flavor dir [] a b h = refl
  generate_services-flavor dir (service ∷ services) a b h =
      ap₂ ◌++◌ (rw (← h) (generate_service-flavor dir service a.flavor b.flavor a.disable_version))
        (generate_services-flavor dir services a b h)

abbrev defaults : Settings
defaults = record { flavor = normal; disable_version = false }

-- Of the parameter of a run only one thing matters: whether it has the key `noversion`. Two runs
-- that agree on it write the same files, whatever else their parameters say, `lite` included.
pub reactor_noversion :
    (pb : Protobuf) (macros : Macros) (file : FileDescriptor) (services : List ServiceDescriptor)
    (p q : Bytes)
    → given (codes "noversion") (pb.parse_generator_parameter p)
      ≡ given (codes "noversion") (pb.parse_generator_parameter q)
    → reactor pb macros file services p ≡ reactor pb macros file services q
unfolding reactor
reactor_noversion pb macros file services p q h =
    ap (λ files. (true, files))
      (generate_services-flavor pb macros _ services _ _ (
        read_options-disable_version (pb.parse_generator_parameter p) defaults
        ∙ (h ∙ sym (read_options-disable_version (pb.parse_generator_parameter q) defaults))))

under_version-none :
    (macros : Macros) (xs : List Action) (dv : Bool)
    → macros.rsocket_rpc_version ≡ none
    → under_version macros dv xs ≡ []
unfolding under_version
under_version-none macros xs dv h = ap (λ o. when_defined o dv xs) h

module _ (pb : Protobuf) (macros : Macros) (undefined : macros.rsocket_rpc_version ≡ none) where
  interface_variables-undefined :
      (service : ServiceDescriptor) (d e : Bool)
      → interface_variables macros service d ≡ interface_variables macros service e
  unfolding interface_variables
  interface_variables-undefined service d e =
      simp (under_version-none macros _ d undefined, under_version-none macros _ e undefined)

  client_variables-undefined :
      (service : ServiceDescriptor) (d e : Bool)
      → client_variables macros service d ≡ client_variables macros service e
  unfolding client_variables
  client_variables-undefined service d e =
      simp (under_version-none macros _ d undefined, under_version-none macros _ e undefined)

  server_variables-undefined :
      (service : ServiceDescriptor) (d e : Bool)
      → server_variables macros service d ≡ server_variables macros service e
  unfolding server_variables
  server_variables-undefined service d e =
      simp (under_version-none macros _ d undefined, under_version-none macros _ e undefined)

  generate_service-undefined :
      (dir : Bytes) (service : ServiceDescriptor) (a b : Settings)
      → generate_service pb macros dir a service ≡ generate_service pb macros dir b service
  unfolding generate_service generate_interface print_interface generate_client print_client
      generate_server print_server
  generate_service-undefined dir service a b = rw (
    interface_variables-undefined service a.disable_version b.disable_version,
    client_variables-undefined service a.disable_version b.disable_version,
    server_variables-undefined service a.disable_version b.disable_version,
  )

  generate_services-undefined :
      (dir : Bytes) (services : List ServiceDescriptor) (a b : Settings)
      → generate_services pb macros dir a services ≡ generate_services pb macros dir b services
  unfolding generate_services
  generate_services-undefined dir [] a b = refl
  generate_services-undefined dir (service ∷ services) a b =
      ap₂ ◌++◌ (generate_service-undefined dir service a b)
        (generate_services-undefined dir services a b)

-- Where the macro `rsocket_rpc_version` is not defined, all parameters give the same files, with
-- `noversion` or without.
pub reactor_undefined :
    (pb : Protobuf) (macros : Macros) (file : FileDescriptor) (services : List ServiceDescriptor)
    (p q : Bytes)
    → macros.rsocket_rpc_version ≡ none
    → reactor pb macros file services p ≡ reactor pb macros file services q
unfolding reactor
reactor_undefined pb macros file services p q h =
    ap (λ files. (true, files)) (generate_services-undefined pb macros h _ services _ _)
