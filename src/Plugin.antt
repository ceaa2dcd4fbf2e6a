-- ===== src/Plugin.antt =====
-- `KotlinRSocketRpcGenerator` of kotlin_plugin.cpp
-- (rsocket-rpc-protobuf/src/kotlin_plugin/cpp/kotlin_plugin.cpp): the options of a run and the files
-- that it writes for a .proto file.
pub mod Options
pub mod Files
use rsocket_rpc_kotlin.Base.{
  ℕ, Bytes, codes, Bool, true, false, List, [], ◌∷◌, ◌++◌, ◌==◌, ◌&&◌, if◌then◌else◌,
}
use rsocket_rpc_kotlin.Printer.{Action}
use rsocket_rpc_kotlin.Descriptor.{
  FileDescriptor, ServiceDescriptor, ProtoFlavor, normal, lite, Protobuf, Macros,
}
use rsocket_rpc_kotlin.Names.{client_class_name, server_class_name}
use rsocket_rpc_kotlin.Package.{service_kotlin_package, kotlin_package_to_dir}
use rsocket_rpc_kotlin.Interface.{generate_interface}
use rsocket_rpc_kotlin.Client.{generate_client}
use rsocket_rpc_kotlin.Server.{generate_server}

-- `==` of `std::string`.
unfoldable pub bytes_eq : Bytes → Bytes → Bool
bytes_eq [] [] = true
bytes_eq [] (y ∷ t) = false
bytes_eq (x ∷ s) [] = false
bytes_eq (x ∷ s) (y ∷ t) = x == y && bytes_eq s t

pub record Settings : Type 0 where
  pub flavor : ProtoFlavor
  pub disable_version : Bool

-- One round over the options.
unfoldable pub read_option : Bytes × Bytes → Settings → Settings
unfolding bytes_eq
read_option (key, value) settings =
    if bytes_eq key (codes "lite")
    then record settings { flavor = lite }
    else if bytes_eq key (codes "noversion")
    then record settings { disable_version = true }
    else settings

unfoldable pub read_options : List (Bytes × Bytes) → Settings → Settings
unfolding read_option
read_options [] settings = settings
read_options (option ∷ options) settings = read_options options (read_option option settings)

-- `context->Open(file_name)`, and the statements on a printer over that stream.
pub record OutputFile : Type 0 where
  pub file_name : Bytes
  pub actions : List Action

-- One round over the services: the interface, the client and the server.
unfoldable pub generate_service :
    Protobuf → Macros → Bytes → Settings → ServiceDescriptor → List OutputFile
generate_service pb macros package_filename settings service =
    record {
      file_name = package_filename ++ (service.name ++ codes ".kt");
      actions = generate_interface pb macros service settings.flavor settings.disable_version;
    }
    ∷ record {
      file_name = package_filename ++ (client_class_name service ++ codes ".kt");
      actions = generate_client pb macros service settings.flavor settings.disable_version;
    }
    ∷ record {
      file_name = package_filename ++ (server_class_name service ++ codes ".kt");
      actions = generate_server pb macros service settings.flavor settings.disable_version;
    }
    ∷ []

unfoldable pub generate_services :
    Protobuf → Macros → Bytes → Settings → List ServiceDescriptor → List OutputFile
generate_services pb macros package_filename settings [] = []
generate_services pb macros package_filename settings (service ∷ services) =
    generate_service pb macros package_filename settings service
    ++ generate_services pb macros package_filename settings services

-- The result, which is always `true`, and the files in the order in which they are opened.
unfoldable pub reactor :
    Protobuf → Macros → FileDescriptor → List ServiceDescriptor → Bytes → Bool × List OutputFile
unfolding read_options
reactor pb macros file services parameter =
    let settings =
      read_options (pb.parse_generator_parameter parameter)
        (record { flavor = normal; disable_version = false }) in
    let package_filename = kotlin_package_to_dir (service_kotlin_package pb file) in
    (true, generate_services pb macros package_filename settings services)

-- `Generate` hands its arguments on.
unfoldable pub generate :
    Protobuf → Macros → FileDescriptor → List ServiceDescriptor → Bytes → Bool × List OutputFile
generate pb macros file services parameter = reactor pb macros file services parameter
