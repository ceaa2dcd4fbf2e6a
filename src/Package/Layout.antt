-- ===== src/Package/Layout.antt =====
-- The guarded version and the lines on the package leave the layout as they find it.
use rsocket_rpc_kotlin.Base.{Bytes, Bool, true, false, List, [], ◌∷◌, Option, none, some, refl}
use rsocket_rpc_kotlin.Printer.{Action}
use rsocket_rpc_kotlin.Printer.Meter.{meter, Layout, Lays, layout_step}
use rsocket_rpc_kotlin.Descriptor.{FileDescriptor, Macros}
use rsocket_rpc_kotlin.Package.{
  when_defined, under_version, package_line, server_package_line, package_variable,
}

when_defined-Lays :
    (o : Option Bytes) (dv : Bool) (l : Layout) (xs : List Action)
    → Lays l xs l
    → Lays l (when_defined o dv xs) l
when_defined-Lays none dv l xs h = record { ran = unfold meter in refl }
when_defined-Lays (some v) true l xs h = record { ran = unfold meter in refl }
when_defined-Lays (some v) false l xs h = h

pub under_version-Lays :
    (macros : Macros) (dv : Bool) (l : Layout) (xs : List Action)
    → Lays l xs l
    → Lays l (under_version macros dv xs) l
unfolding under_version
under_version-Lays macros = when_defined-Lays macros.rsocket_rpc_version

pub package_line-Lays : (name : Bytes) (l : Layout) → Lays l (package_line name) l
unfolding package_line meter layout_step
package_line-Lays [] l = record { ran = refl }
package_line-Lays (c ∷ name) l = record { ran = refl }

pub server_package_line-Lays : (name : Bytes) (l : Layout) → Lays l (server_package_line name) l
unfolding server_package_line meter layout_step
server_package_line-Lays [] l = record { ran = refl }
server_package_line-Lays (c ∷ name) l = record { ran = refl }

pub package_variable-Lays : (file : FileDescriptor) (l : Layout) → Lays l (package_variable file) l
unfolding package_variable meter layout_step
package_variable-Lays file l = record { ran = refl }
