-- ===== src/Plugin/Files.antt =====
-- The names of the files of a run.
use mathlib.Core.List.{append_cancel_left, append_cancel_right}
use rsocket_rpc_kotlin.Base.{
  Bytes, codes, true, List, [], ◌∷◌, ◌++◌, ◌≡◌, ◌≢◌, refl, ap, ◌∙◌, map, All, Lacks,
}
use rsocket_rpc_kotlin.Descriptor.{FileDescriptor, ServiceDescriptor, Protobuf, Macros}
use rsocket_rpc_kotlin.Names.{client_class_name, server_class_name}
use rsocket_rpc_kotlin.Package.{service_kotlin_package, kotlin_package_to_dir}
use rsocket_rpc_kotlin.Split.Fast.{IsToken}
use rsocket_rpc_kotlin.Package.Laws.{each_with, kotlin_package_to_dir-service_kotlin_package}
use rsocket_rpc_kotlin.Plugin.{Settings, OutputFile, generate_service, generate_services, reactor}

-- The classes of the services, in order.
abbrev pub class_names : List ServiceDescriptor → List Bytes
class_names [] = []
class_names (s ∷ services) =
    s.name ∷ (s.name ++ codes "Client") ∷ (s.name ++ codes "Server") ∷ class_names services

-- The file of a class.
abbrev pub file_of : Bytes → Bytes → Bytes
file_of dir class_name = dir ++ (class_name ++ codes ".kt")

abbrev pub file_names : List OutputFile → List Bytes
file_names = map (λ f. f.file_name)

file_names-generate_services :
    (pb : Protobuf) (macros : Macros) (dir : Bytes) (settings : Settings)
    (services : List ServiceDescriptor)
    → file_names (generate_services pb macros dir settings services)
      ≡ map (file_of dir) (class_names services)
unfolding generate_services generate_service client_class_name server_class_name
file_names-generate_services pb macros dir settings [] = refl
file_names-generate_services pb macros dir settings (s ∷ services) =
    ap
      (λ rest.
        file_of dir s.name
        ∷ file_of dir (s.name ++ codes "Client")
        ∷ file_of dir (s.name ++ codes "Server")
        ∷ rest)
      (file_names-generate_services pb macros dir settings services)

-- No member stands twice.
abbrev pub Distinct : List Bytes → Type 0
Distinct [] = Unit
Distinct (x ∷ xs) = All (λ y. y ≢ x) xs × Distinct xs

file_of-injective : (dir x y : Bytes) → file_of dir x ≡ file_of dir y → x ≡ y
file_of-injective dir x y e = append_cancel_right x y (codes ".kt") (append_cancel_left dir _ _ e)

All-map_ne :
    (dir x : Bytes) (ys : List Bytes)
    → All (λ y. y ≢ x) ys
    → All (λ y. y ≢ file_of dir x) (map (file_of dir) ys)
All-map_ne dir x [] h = tt
All-map_ne dir x (y ∷ ys) (h, hs) = (λ e. h (file_of-injective dir y x e), All-map_ne dir x ys hs)

Distinct-map : (dir : Bytes) (xs : List Bytes) → Distinct xs → Distinct (map (file_of dir) xs)
Distinct-map dir [] h = tt
Distinct-map dir (x ∷ xs) (h, hs) = (All-map_ne dir x xs h, Distinct-map dir xs hs)

reactor-file_names :
    (pb : Protobuf) (macros : Macros) (file : FileDescriptor) (services : List ServiceDescriptor)
    (parameter : Bytes)
    → let run = reactor pb macros file services parameter in
      let dir = kotlin_package_to_dir (service_kotlin_package pb file) in
      (run.0 ≡ true) × (file_names run.1 ≡ map (file_of dir) (class_names services))
unfolding reactor
reactor-file_names pb macros file services parameter =
    (refl, file_names-generate_services pb macros _ _ services)

-- Where the name of the file's Java class is a simple name behind the parts of its package, each with
-- a dot, a run succeeds, and opens one file for each class of each service (the interface, the client
-- and the server), in this order. A file's name is the parts of the package, each with a slash, the
-- name of the class and `.kt`. No part is empty or holds a dot, and the simple name holds none; there
-- may be no part at all.
pub reactor_files :
    (pb : Protobuf) (macros : Macros) (file : FileDescriptor) (services : List ServiceDescriptor)
    (parameter : Bytes) (parts : List Bytes) (simple : Bytes)
    → Lacks b'.' simple
    → All (IsToken b'.') parts
    → pb.file_class_name file ≡ each_with b'.' parts ++ simple
    → let run = reactor pb macros file services parameter in
      (run.0 ≡ true)
      × (file_names run.1
          ≡ map (λ name. each_with b'/' parts ++ (name ++ codes ".kt")) (class_names services))
reactor_files pb macros file services parameter parts simple hs hp e =
    let (r, f) = reactor-file_names pb macros file services parameter in
    (
      r,
      f
          ∙ ap (λ dir. map (file_of dir) (class_names services))
              (kotlin_package_to_dir-service_kotlin_package pb file parts simple hs hp e),
    )

-- If the names of all classes of all services differ, no file is opened twice.
reactor-Distinct :
    (pb : Protobuf) (macros : Macros) (file : FileDescriptor) (services : List ServiceDescriptor)
    (parameter : Bytes)
    → Distinct (class_names services)
    → Distinct (file_names (reactor pb macros file services parameter).1)
reactor-Distinct pb macros file services parameter h =
    rw ((reactor-file_names pb macros file services parameter).1)
      (Distinct-map _ (class_names services) h)
