-- ===== src/Package.antt =====
-- `ServiceKotlinPackage` and the qualifying prefix of kotlin_generator.cpp, `KotlinPackageToDir` of
-- kotlin_plugin.cpp (both in rsocket-rpc-protobuf/src/kotlin_plugin/cpp), and the text of a version.
pub mod Laws
pub mod Layout
pub mod Variables
pub mod Constants
pub mod Kept
pub mod Routes
use mathlib.Core.Option
use rsocket_rpc_kotlin.Base.{
  ℕ, zero, suc, ◌+◌, Bytes, codes, Bool, true, false, List, [], ◌∷◌, ◌++◌, Option, none, some, ◌==◌,
  if◌then◌else◌, is_empty, take, map,
}
use rsocket_rpc_kotlin.Printer.{Action, assign, print_with}
use rsocket_rpc_kotlin.Descriptor.{FileDescriptor, Protobuf, Macros}

-- `s.find_last_of(c)`.
unfoldable pub find_last_of : ℕ → Bytes → Option ℕ
find_last_of c [] = none
find_last_of c (x ∷ s) = elim (find_last_of c s) [
  | some i ↦ some (suc i)
  | none ↦ if x == c then some 0 else none
]

-- `resize` to the last dot, or the empty string.
unfoldable pub up_to_last_dot : Bytes → Bytes
unfolding find_last_of
up_to_last_dot result = elim (find_last_of b'.' result) [
  | some last_dot_pos ↦ take last_dot_pos result
  | none ↦ []
]

unfoldable pub service_kotlin_package : Protobuf → FileDescriptor → Bytes
unfolding up_to_last_dot
service_kotlin_package pb file = up_to_last_dot (pb.file_class_name file)

-- `if (!vars["Package"].empty()) vars["Package"].append(".")`
unfoldable pub package_prefix : FileDescriptor → Bytes
package_prefix file =
    if is_empty file.package_name then file.package_name else file.package_name ++ codes "."

-- The first line of the interface's and the client's file.
unfoldable pub package_line : Bytes → List Action
package_line package_name =
    if is_empty package_name
    then []
    else print_with "package $package_name$\n\n" "package_name" package_name ∷ []

-- That of the server's file ends in a semicolon.
unfoldable pub server_package_line : Bytes → List Action
server_package_line package_name =
    if is_empty package_name
    then []
    else print_with "package $package_name$;\n\n" "package_name" package_name ∷ []

-- `vars["Package"]`, set and then extended.
unfoldable pub package_variable : FileDescriptor → List Action
unfolding package_prefix
package_variable file =
    assign "Package" file.package_name ∷ assign "Package" (package_prefix file) ∷ []

-- The loop that replaces dots.
unfoldable pub dots_to_slashes : Bytes → Bytes
dots_to_slashes [] = []
dots_to_slashes (c ∷ s) = (if c == b'.' then b'/' else c) ∷ dots_to_slashes s

unfoldable pub kotlin_package_to_dir : Bytes → Bytes
unfolding dots_to_slashes
kotlin_package_to_dir package_name =
    let package_dir = dots_to_slashes package_name in
    if is_empty package_dir then package_dir else package_dir ++ codes "/"

-- `XSTR(name)`: the text of a macro, or the name itself where no such macro is defined.
unfoldable pub stringify : Bytes → Option Bytes → Bytes
stringify name none = name
stringify name (some text) = text

-- `" (version " XSTR(name) ")"`.
unfoldable pub version_note : Bytes → Option Bytes → Bytes
unfolding stringify
version_note name macro = codes " (version " ++ (stringify name macro ++ codes ")")

abbrev pub when_defined {ℓ} : {A : Type ℓ} → Option Bytes → Bool → List A → List A
when_defined none disable_version actions = []
when_defined (some v) true actions = []
when_defined (some v) false actions = actions

-- Statements under `#ifdef rsocket_rpc_version` and `if (!disable_version)`.
unfoldable pub under_version {ℓ} : {A : Type ℓ} → Macros → Bool → List A → List A
under_version macros disable_version actions =
    when_defined macros.rsocket_rpc_version disable_version actions
