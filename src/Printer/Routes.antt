-- ===== src/Printer/Routes.antt =====
-- The interactions of RSocket in what is printed: a reading of the printer's calls, which goes by the
-- templates alone, and the same read off the statements.
use Prim.Native.Char.{code}
use rsocket_rpc_kotlin.Base.{
  String, Bytes, Bool, true, false, List, [], ◌∷◌, ◌++◌, Option, none, some, str_eq, ◌==◌, ◌&&◌,
  ◌||◌, if◌then◌else◌, ◌≡◌, refl, ap, ◌∙◌,
}
use rsocket_rpc_kotlin.Printer.{
  put, get, Vars, Action, assign, print, print_with, print_raw, indent, outdent, Call, print_call,
  indent_call, outdent_call, calls,
}
use rsocket_rpc_kotlin.Printer.Closes.{get-put}
use rsocket_rpc_kotlin.Printer.Mentions.{names}

pub data Interaction : Type 0 where
  fire_and_forget_call : Interaction
  request_response_call : Interaction
  request_stream_call : Interaction
  request_channel_call : Interaction

unfoldable pub begins : String → String → Bool
begins String.[] t = true
begins (String.◌∷◌ c s) String.[] = false
begins (String.◌∷◌ c s) (String.◌∷◌ d t) = code c == code d && begins s t

-- Whether a text stands in a template.
unfoldable pub stands_in : String → String → Bool
unfolding begins
stands_in s String.[] = begins s ""
stands_in s (String.◌∷◌ d t) = begins s (String.◌∷◌ d t) || stands_in s t

-- The interaction whose function a template calls or declares, else the last one before it.
unfoldable pub interaction : String → Option Interaction → Option Interaction
unfolding stands_in
interaction t last =
    if stands_in "fireAndForget(" t
    then some fire_and_forget_call
    else if stands_in "requestResponse(" t
    then some request_response_call
    else if stands_in "requestStream(" t
    then some request_stream_call
    else if stands_in "requestChannel(" t
    then some request_channel_call
    else last

-- An interaction, `none` before the first one, with the constant of a method that stands there.
abbrev pub Route : Type 0
Route = Option Interaction × Option Bytes

-- The constants of methods in the order of the calls whose template names one, each with the
-- interaction that it stands behind.
unfoldable pub routes : Option Interaction → List Call → List Route
unfolding interaction names get
routes last [] = []
routes last (print_call m t ∷ cs) =
    let now = interaction t last in
    let rest = routes now cs in
    if names "method_field_name" t then (now, get "method_field_name" m) ∷ rest else rest
routes last (indent_call ∷ cs) = routes last cs
routes last (outdent_call ∷ cs) = routes last cs

-- The same of statements, with the value of the variable before them.
unfoldable pub scan_routes : Option Interaction → Option Bytes → List Action → List Route
unfolding interaction names
scan_routes last v [] = []
scan_routes last v (assign j w ∷ as') =
    scan_routes last (if str_eq j "method_field_name" then some w else v) as'
scan_routes last v (print t ∷ as') =
    let now = interaction t last in
    let rest = scan_routes now v as' in
    if names "method_field_name" t then (now, v) ∷ rest else rest
scan_routes last v (print_with t j w ∷ as') =
    let now = interaction t last in
    let rest = scan_routes now v as' in
    if names "method_field_name" t
    then (now, if str_eq j "method_field_name" then some w else none) ∷ rest
    else rest
scan_routes last v (print_raw t ∷ as') =
    let now = interaction t last in
    let rest = scan_routes now v as' in
    if names "method_field_name" t then (now, none) ∷ rest else rest
scan_routes last v (indent ∷ as') = scan_routes last v as'
scan_routes last v (outdent ∷ as') = scan_routes last v as'

-- The interaction and the value behind statements.
unfoldable pub interaction_after : Option Interaction → List Action → Option Interaction
unfolding interaction
interaction_after last [] = last
interaction_after last (assign j w ∷ as') = interaction_after last as'
interaction_after last (print t ∷ as') = interaction_after (interaction t last) as'
interaction_after last (print_with t j w ∷ as') = interaction_after (interaction t last) as'
interaction_after last (print_raw t ∷ as') = interaction_after (interaction t last) as'
interaction_after last (indent ∷ as') = interaction_after last as'
interaction_after last (outdent ∷ as') = interaction_after last as'

unfoldable pub value_after : Option Bytes → List Action → Option Bytes
value_after v [] = v
value_after v (assign j w ∷ as') =
    value_after (if str_eq j "method_field_name" then some w else v) as'
value_after v (print t ∷ as') = value_after v as'
value_after v (print_with t j w ∷ as') = value_after v as'
value_after v (print_raw t ∷ as') = value_after v as'
value_after v (indent ∷ as') = value_after v as'
value_after v (outdent ∷ as') = value_after v as'

pub routes-calls :
    (last : Option Interaction) (xs : List Action) (m : Vars)
    → routes last (calls xs m) ≡ scan_routes last (get "method_field_name" m) xs
unfolding routes calls scan_routes get
routes-calls last [] m = refl
routes-calls last (assign j w ∷ xs) m =
    routes-calls last xs (put j w m)
    ∙ ap (λ v. scan_routes last v xs) (get-put "method_field_name" j w m)
routes-calls last (print t ∷ xs) m = rw (routes-calls (interaction t last) xs m) refl
routes-calls last (print_with t j w ∷ xs) m = rw (routes-calls (interaction t last) xs m) refl
routes-calls last (print_raw t ∷ xs) m = rw (routes-calls (interaction t last) xs m) refl
routes-calls last (indent ∷ xs) m = routes-calls last xs m
routes-calls last (outdent ∷ xs) m = routes-calls last xs m

scan_step :
    (b : Bool) (o : Route) (xs ys : List Route)
    → (if b then o ∷ (xs ++ ys) else xs ++ ys) ≡ (if b then o ∷ xs else xs) ++ ys
scan_step true o xs ys = refl
scan_step false o xs ys = refl

pub scan_routes-append :
    (last : Option Interaction) (v : Option Bytes) (xs ys : List Action)
    → scan_routes last v (xs ++ ys)
      ≡ scan_routes last v xs ++ scan_routes (interaction_after last xs) (value_after v xs) ys
unfolding scan_routes interaction_after value_after
scan_routes-append last v [] ys = refl
scan_routes-append last v (assign j w ∷ xs) ys = scan_routes-append last _ xs ys
scan_routes-append last v (print t ∷ xs) ys =
    rw (scan_routes-append (interaction t last) v xs ys)
      (scan_step (names "method_field_name" t) _ _ _)
scan_routes-append last v (print_with t j w ∷ xs) ys =
    rw (scan_routes-append (interaction t last) v xs ys)
      (scan_step (names "method_field_name" t) _ _ _)
scan_routes-append last v (print_raw t ∷ xs) ys =
    rw (scan_routes-append (interaction t last) v xs ys)
      (scan_step (names "method_field_name" t) _ _ _)
scan_routes-append last v (indent ∷ xs) ys = scan_routes-append last v xs ys
scan_routes-append last v (outdent ∷ xs) ys = scan_routes-append last v xs ys

pub interaction_after-append :
    (last : Option Interaction) (xs ys : List Action)
    → interaction_after last (xs ++ ys) ≡ interaction_after (interaction_after last xs) ys
unfolding interaction_after
interaction_after-append last [] ys = refl
interaction_after-append last (assign j w ∷ xs) ys = interaction_after-append last xs ys
interaction_after-append last (print t ∷ xs) ys =
    interaction_after-append (interaction t last) xs ys
interaction_after-append last (print_with t j w ∷ xs) ys =
    interaction_after-append (interaction t last) xs ys
interaction_after-append last (print_raw t ∷ xs) ys =
    interaction_after-append (interaction t last) xs ys
interaction_after-append last (indent ∷ xs) ys = interaction_after-append last xs ys
interaction_after-append last (outdent ∷ xs) ys = interaction_after-append last xs ys
