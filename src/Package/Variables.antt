-- ===== src/Package/Variables.antt =====
-- The guarded version and the lines on the package find their variables.
use rsocket_rpc_kotlin.Base.{
  String, Bytes, Bool, true, false, List, [], ◌∷◌, Option, none, some, ◌≡◌, refl,
}
use rsocket_rpc_kotlin.Printer.{Action}
use rsocket_rpc_kotlin.Printer.Closed.{closed, keys_after}
use rsocket_rpc_kotlin.Printer.Closes.{Closes, closed-Closes}
use rsocket_rpc_kotlin.Descriptor.{FileDescriptor, Macros}
use rsocket_rpc_kotlin.Package.{
  when_defined, under_version, package_line, server_package_line, package_variable,
}

closed-when_defined :
    (a : List String) (o : Option Bytes) (dv : Bool) (xs : List Action)
    → closed a xs ≡ true
    → closed a (when_defined o dv xs) ≡ true
closed-when_defined a none dv xs h = unfold closed in refl
closed-when_defined a (some v) true xs h = unfold closed in refl
closed-when_defined a (some v) false xs h = h

pub closed-under_version :
    (a : List String) (macros : Macros) (dv : Bool) (xs : List Action)
    → closed a xs ≡ true
    → closed a (under_version macros dv xs) ≡ true
unfolding under_version
closed-under_version a macros = closed-when_defined a macros.rsocket_rpc_version

pub package_line-Closes : (a : List String) (name : Bytes) → Closes a (package_line name) a
unfolding package_line closed
package_line-Closes a [] = closed-Closes _ refl
package_line-Closes a (c ∷ name) = closed-Closes _ refl

pub server_package_line-Closes :
    (a : List String) (name : Bytes) → Closes a (server_package_line name) a
unfolding server_package_line closed
server_package_line-Closes a [] = closed-Closes _ refl
server_package_line-Closes a (c ∷ name) = closed-Closes _ refl

pub package_variable-Closes :
    (a : List String) (file : FileDescriptor)
    → Closes a (package_variable file) ("Package" ∷ "Package" ∷ a)
unfolding package_variable closed keys_after
package_variable-Closes a file = record { holds = refl; sets = λ k m. m }
