-- ===== src/Package/Routes.antt =====
-- The routes of methods, and the lines on the package, which have none.
use rsocket_rpc_kotlin.Base.{Bytes, Bool, true, false, List, [], ◌∷◌, Option, none, some, refl}
use rsocket_rpc_kotlin.Printer.{Action}
use rsocket_rpc_kotlin.Printer.Routes.{
  Interaction, fire_and_forget_call, request_response_call, request_stream_call,
  request_channel_call, Route, scan_routes, interaction_after,
}
use rsocket_rpc_kotlin.Printer.Routed.{Still, Still-nil}
use rsocket_rpc_kotlin.Descriptor.{MethodDescriptor, Macros}
use rsocket_rpc_kotlin.Package.{under_version}
use rsocket_rpc_kotlin.Package.Constants.{constant}
use rsocket_rpc_kotlin.Descriptor.{FileDescriptor}
use rsocket_rpc_kotlin.Package.{when_defined, package_line, server_package_line, package_variable}

-- The interaction that belongs to a method by what it streams and by its options.
abbrev pub interaction_of : Bool → Bool → Bool → Interaction
interaction_of true ss ff = request_channel_call
interaction_of false true ff = request_stream_call
interaction_of false false true = fire_and_forget_call
interaction_of false false false = request_response_call

-- The constant of a method with its interaction, and before every interaction.
abbrev pub told : MethodDescriptor → Route
told m = (
  some (interaction_of m.client_streaming m.server_streaming m.options.fire_and_forget),
  constant m,
)

abbrev pub untold : MethodDescriptor → Route
untold m = (none, constant m)

-- The constant of a method with a given interaction.
abbrev pub told_by : Interaction → MethodDescriptor → Route
told_by i m = (some i, constant m)

Still-when_defined :
    (o : Option Bytes) (dv : Bool) (xs : List Action) → Still xs → Still (when_defined o dv xs)
Still-when_defined none dv xs h = Still-nil
Still-when_defined (some t) true xs h = Still-nil
Still-when_defined (some t) false xs h = h

pub Still-under_version :
    (macros : Macros) (dv : Bool) (xs : List Action) → Still xs → Still (under_version macros dv xs)
unfolding under_version
Still-under_version macros = Still-when_defined macros.rsocket_rpc_version

pub package_line-Still : (name : Bytes) → Still (package_line name)
unfolding package_line scan_routes interaction_after
package_line-Still [] last = record { holds = λ v. refl; ends = refl }
package_line-Still (c ∷ name) last = record { holds = λ v. refl; ends = refl }

pub server_package_line-Still : (name : Bytes) → Still (server_package_line name)
unfolding server_package_line scan_routes interaction_after
server_package_line-Still [] last = record { holds = λ v. refl; ends = refl }
server_package_line-Still (c ∷ name) last = record { holds = λ v. refl; ends = refl }

pub package_variable-Still : (file : FileDescriptor) → Still (package_variable file)
unfolding package_variable scan_routes interaction_after
package_variable-Still file last = record { holds = λ v. refl; ends = refl }
