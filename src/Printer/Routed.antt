-- ===== src/Printer/Routed.antt =====
-- The routes of statements in sequence.
use rsocket_rpc_kotlin.Base.{
  Bytes, List, [], ◌∷◌, ◌++◌, Option, none, ◌≡◌, refl, ◌∙◌, map, append-nil,
}
use rsocket_rpc_kotlin.Printer.{get, Action, calls, each}
use rsocket_rpc_kotlin.Printer.Routes.{
  Interaction, Route, routes, scan_routes, interaction_after, value_after, routes-calls,
  scan_routes-append, interaction_after-append,
}

-- Behind the interaction `last`, statements have the routes `l`, and `now` is the last one then.
pub record Routed (last : Option Interaction) (xs : List Action) (l : List Route)
    (now : Option Interaction) : Type 0 where
  pub holds : (v : Option Bytes) → scan_routes last v xs ≡ l
  pub ends : interaction_after last xs ≡ now

-- Statements that name neither a constant nor an interaction.
abbrev pub Still : List Action → Type 0
Still xs = (last : Option Interaction) → Routed last xs [] last

pub Routed-append :
    {last now then : Option Interaction} {xs ys : List Action} {l r : List Route}
    → Routed last xs l now
    → Routed now ys r then
    → Routed last (xs ++ ys) (l ++ r) then
Routed-append {last} {xs} {ys} f g = record {
  holds =
      λ v. rw (scan_routes-append last v xs ys, f.holds v, f.ends, g.holds (value_after v xs)) refl;
  ends = rw (interaction_after-append last xs ys, f.ends) g.ends;
}

pub Still-append : {xs ys : List Action} → Still xs → Still ys → Still (xs ++ ys)
Still-append f g last = Routed-append (f last) (g last)

pub Still-nil : Still []
unfolding scan_routes interaction_after
Still-nil last = record { holds = λ v. refl; ends = refl }

-- A loop each round of which has one route behind the same interaction.
pub Routed-each :
    {A : Type 0} {last : Option Interaction} {body : A → List Action} (f : A → Route) (xs : List A)
    → ((x : A) → Routed last (body x) (f x ∷ []) last)
    → Routed last (each body xs) (map f xs) last
unfolding each
Routed-each f [] h = Still-nil _
Routed-each f (x ∷ xs) h = Routed-append (h x) (Routed-each f xs h)

pub Still-each :
    {A : Type 0} {body : A → List Action} (xs : List A)
    → ((x : A) → Still (body x))
    → Still (each body xs)
unfolding each
Still-each [] h = Still-nil
Still-each (x ∷ xs) h = Still-append (h x) (Still-each xs h)

-- Statements that have the same routes behind every interaction.
pub record Alone (xs : List Action) (l : List Route) : Type 0 where
  pub holds : (last : Option Interaction) (v : Option Bytes) → scan_routes last v xs ≡ l

pub Alone-append :
    {xs ys : List Action} {l r : List Route} → Alone xs l → Alone ys r → Alone (xs ++ ys) (l ++ r)
Alone-append {xs} {ys} f g = record {
  holds = λ last v.
      rw
        (
          scan_routes-append last v xs ys,
          f.holds last v,
          g.holds (interaction_after last xs) (value_after v xs),
        )
        refl;
}

pub Still-Alone : {xs : List Action} → Still xs → Alone xs []
Still-Alone f = record { holds = λ last v. (f last).holds v }

pub Alone-each :
    {A : Type 0} {body : A → List Action} (f : A → Route) (xs : List A)
    → ((x : A) → Alone (body x) (f x ∷ []))
    → Alone (each body xs) (map f xs)
unfolding each
Alone-each f [] h = Still-Alone Still-nil
Alone-each f (x ∷ xs) h = Alone-append (h x) (Alone-each f xs h)

pub Alone-Routed :
    {last : Option Interaction} {xs : List Action} {l : List Route}
    → Alone xs l
    → Routed last xs l (interaction_after last xs)
Alone-Routed {last} f = record { holds = f.holds last; ends = refl }

-- Where the last statements have no routes.
pub Routed-trailing :
    {last now : Option Interaction} {xs : List Action} {l : List Route}
    → Routed last xs (l ++ []) now
    → Routed last xs l now
Routed-trailing {l} f = record { holds = λ v. f.holds v ∙ append-nil l; ends = f.ends }

pub Alone-trailing : {xs : List Action} {l : List Route} → Alone xs (l ++ []) → Alone xs l
Alone-trailing {l} f = record { holds = λ last v. f.holds last v ∙ append-nil l }

-- The routes of the calls that the statements make.
pub routes_of_Routed :
    {xs : List Action} {l : List Route} {now : Option Interaction}
    → Routed none xs l now
    → routes none (calls xs []) ≡ l
routes_of_Routed {xs} f = routes-calls none xs [] ∙ f.holds (get "method_field_name" [])
