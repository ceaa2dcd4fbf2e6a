-- ===== src/Package/Kept.antt =====
-- The guarded version and the lines on the package leave the names of classes alone.
use rsocket_rpc_kotlin.Base.{
  String, Bytes, Bool, true, false, List, [], ◌∷◌, Option, none, some, refl,
}
use rsocket_rpc_kotlin.Printer.{Action}
use rsocket_rpc_kotlin.Printer.Kept.{keeps, Keeps, Keeps-nil}
use rsocket_rpc_kotlin.Descriptor.{Macros}
use rsocket_rpc_kotlin.Package.{under_version, package_line, package_variable}
use rsocket_rpc_kotlin.Descriptor.{FileDescriptor}
use rsocket_rpc_kotlin.Package.{when_defined}

-- The classes in signatures.
abbrev pub class_keys : List String
class_keys = "Flowable" ∷ "Single" ∷ "Completable" ∷ "Publisher" ∷ "ByteBuf" ∷ []

Keeps-when_defined :
    (o : Option Bytes) (dv : Bool) (xs : List Action)
    → Keeps class_keys xs
    → Keeps class_keys (when_defined o dv xs)
Keeps-when_defined none dv xs h = Keeps-nil
Keeps-when_defined (some t) true xs h = Keeps-nil
Keeps-when_defined (some t) false xs h = h

pub Keeps-under_version :
    (macros : Macros) (dv : Bool) (xs : List Action)
    → Keeps class_keys xs
    → Keeps class_keys (under_version macros dv xs)
unfolding under_version
Keeps-under_version macros = Keeps-when_defined macros.rsocket_rpc_version

pub package_line-Keeps : (name : Bytes) → Keeps class_keys (package_line name)
unfolding package_line keeps
package_line-Keeps [] = record { holds = refl }
package_line-Keeps (c ∷ name) = record { holds = refl }

pub package_variable-Keeps : (file : FileDescriptor) → Keeps class_keys (package_variable file)
unfolding package_variable keeps
package_variable-Keeps file = record { holds = refl }
