-- ===== src/Package/Constants.antt =====
-- The guarded version and the lines on the package do not name a method's constant.
use rsocket_rpc_kotlin.Base.{Bytes, Bool, true, false, List, [], ◌∷◌, Option, none, some, refl}
use rsocket_rpc_kotlin.Printer.{Action}
use rsocket_rpc_kotlin.Printer.Mentions.{scan, Mentions}
use rsocket_rpc_kotlin.Descriptor.{MethodDescriptor, Macros}
use rsocket_rpc_kotlin.Names.{method_field_name}
use rsocket_rpc_kotlin.Package.{under_version}
use rsocket_rpc_kotlin.Descriptor.{FileDescriptor}
use rsocket_rpc_kotlin.Package.{when_defined, package_line, server_package_line, package_variable}

-- The value of the variable that holds the name of a method's constant.
abbrev pub constant : MethodDescriptor → Option Bytes
constant m = some (method_field_name m)

-- Statements that do not name that variable.
abbrev pub Quiet : List Action → Type 0
Quiet xs = Mentions "method_field_name" xs []

Quiet-when_defined :
    (o : Option Bytes) (dv : Bool) (xs : List Action) → Quiet xs → Quiet (when_defined o dv xs)
Quiet-when_defined none dv xs h = record { holds = λ v. unfold scan in refl }
Quiet-when_defined (some t) true xs h = record { holds = λ v. unfold scan in refl }
Quiet-when_defined (some t) false xs h = h

pub Quiet-under_version :
    (macros : Macros) (dv : Bool) (xs : List Action) → Quiet xs → Quiet (under_version macros dv xs)
unfolding under_version
Quiet-under_version macros = Quiet-when_defined macros.rsocket_rpc_version

pub package_line-Quiet : (name : Bytes) → Quiet (package_line name)
unfolding package_line scan
package_line-Quiet [] = record { holds = λ v. refl }
package_line-Quiet (c ∷ name) = record { holds = λ v. refl }

pub server_package_line-Quiet : (name : Bytes) → Quiet (server_package_line name)
unfolding server_package_line scan
server_package_line-Quiet [] = record { holds = λ v. refl }
server_package_line-Quiet (c ∷ name) = record { holds = λ v. refl }

pub package_variable-Quiet : (file : FileDescriptor) → Quiet (package_variable file)
unfolding package_variable scan
package_variable-Quiet file = record { holds = λ v. refl }
