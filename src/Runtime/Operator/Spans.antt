-- ===== src/Runtime/Operator/Spans.antt =====
-- The span that the calls make: read as the documentation of a tracer has it.
use rsocket_rpc_kotlin.Base.{
  List, [], ◌∷◌, ◌++◌, Option, none, some, ◌≡◌, refl, sym, ap, ◌∙◌, append-nil, append_assoc,
}
use rsocket_rpc_kotlin.Runtime.Operator.{
  Names, Tag, SpanCall, active_span, build_span, as_child_of_context, as_child_of_span, with_tag,
  start, inject, with_tags, inject_metadata, subscriber_of_context, child_of_root,
  subscriber_of_active, apply, trace, trace_as_child,
}

-- Whose child a span is.
pub data Parent (o : Names) : Type 0 where
  context : o.SpanContext → Parent o
  span : o.Span → Parent o

-- A span that was started once, with what it was given before, and the maps it was injected into.
pub record SpanMade (o : Names) : Type 0 where
  pub name : o.Text
  pub parents : List (Parent o)
  pub tags : List (Tag o)
  pub injected : List o.StringMap

module _ (o : Names) where
  abbrev behind_start : SpanMade o → List (SpanCall o) → Option (SpanMade o)
  behind_start made [] = some made
  behind_start made (inject map ∷ calls) =
      behind_start (record made { injected = made.injected ++ (map ∷ []) }) calls
  behind_start made (call ∷ calls) = none

  abbrev in_builder : SpanMade o → List (SpanCall o) → Option (SpanMade o)
  in_builder made (start ∷ calls) = behind_start made calls
  in_builder made (with_tag key value ∷ calls) =
      in_builder (record made { tags = made.tags ++ (record { key = key; value = value } ∷ []) })
        calls
  in_builder made (as_child_of_context c ∷ calls) =
      in_builder (record made { parents = made.parents ++ (context c ∷ []) }) calls
  in_builder made (as_child_of_span s ∷ calls) =
      in_builder (record made { parents = made.parents ++ (span s ∷ []) }) calls
  in_builder made calls = none

  -- `none` where the calls do not make one span.
  abbrev pub span_made : List (SpanCall o) → Option (SpanMade o)
  span_made (active_span ∷ calls) = span_made calls
  span_made (build_span name ∷ calls) =
      in_builder (record { name = name; parents = []; tags = []; injected = [] }) calls
  span_made calls = none

  abbrev pub parent_of_active : Option o.Span → List (Parent o)
  parent_of_active none = []
  parent_of_active (some root) = span root ∷ []

  abbrev pub parent_of_context : Option o.Span → Option o.SpanContext → List (Parent o)
  parent_of_context root none = parent_of_active root
  parent_of_context root (some c) = context c ∷ []

  in_builder-with_tags :
      (tags : List (Tag o)) (made : SpanMade o) (calls : List (SpanCall o))
      → in_builder made (with_tags o tags ++ calls)
        ≡ in_builder (record made { tags = made.tags ++ tags }) calls
  unfolding with_tags
  in_builder-with_tags [] made calls =
      ap (λ tags. in_builder (record made { tags = tags }) calls) (sym (append-nil made.tags))
  in_builder-with_tags (tag ∷ tags) made calls =
      in_builder-with_tags tags (record made { tags = made.tags ++ (tag ∷ []) }) calls
      ∙ ap (λ tags. in_builder (record made { tags = tags }) calls)
          (append_assoc made.tags (tag ∷ []) tags)

  -- A stream that is traced gets one span, which has the name, the tags in order, and at most one parent:
  -- with `trace` the tracer's active span, if there is one, and the span is injected into the map; with
  -- `traceAsChild` the context that is given, else the active span, and nothing is injected. Behind
  -- `trace`, and `traceAsChild` without a context, the active span is also kept as the root span.
  pub trace_lem :
      (root : Option o.Span) (name : o.Text) (tags : List (Tag o)) (map : o.StringMap)
      (span_context : Option o.SpanContext)
      → (span_made ((apply o root (trace o name tags map)).calls)
          ≡ some (record {
            name = name;
            parents = parent_of_active root;
            tags = tags;
            injected = map ∷ [];
          }))
        × (span_made ((apply o root (trace_as_child o name tags span_context)).calls)
            ≡ some (record {
              name = name;
              parents = parent_of_context root span_context;
              tags = tags;
              injected = [];
            }))
        × ((apply o root (trace o name tags map)).root_span ≡ root)
        × ((apply o root (trace_as_child o name tags span_context)).root_span
            ≡ elim span_context [ none ↦ root | some c ↦ none ])
  unfolding apply trace trace_as_child subscriber_of_context subscriber_of_active child_of_root
      inject_metadata
  trace_lem none name tags map none =
      (in_builder-with_tags tags _ _, in_builder-with_tags tags _ _, refl, refl)
  trace_lem none name tags map (some c) =
      (in_builder-with_tags tags _ _, in_builder-with_tags tags _ _, refl, refl)
  trace_lem (some root) name tags map none =
      (in_builder-with_tags tags _ _, in_builder-with_tags tags _ _, refl, refl)
  trace_lem (some root) name tags map (some c) =
      (in_builder-with_tags tags _ _, in_builder-with_tags tags _ _, refl, refl)
