-- ===== src/Runtime/Operator.antt =====
-- `TraceOperator` of tracing/TraceOperator.kt, the constructors of TraceSubscriber of
-- tracing/TraceSubscriber.kt, and `trace` and `traceAsChild` of tracing/Tracing.kt
-- (rsocket-rpc-core/src/main/kotlin/io/rsocket/rpc/kotlin/tracing): which calls of the tracer make a
-- stream's span, where none of them throws.
pub mod Spans
use rsocket_rpc_kotlin.Base.{List, [], ◌∷◌, ◌++◌, map, Option, none, some}

-- io.opentracing and strings.
pub record Names : Type 1 where
  pub Text : Type 0
  pub Span : Type 0
  pub SpanContext : Type 0
  pub StringMap : Type 0

-- `Tag`
pub record Tag (o : Names) : Type 0 where
  pub key : o.Text
  pub value : o.Text

-- A call of the tracer, or of the builder of the span.
pub data SpanCall (o : Names) : Type 0 where
  active_span : SpanCall o
  build_span : o.Text → SpanCall o
  as_child_of_context : o.SpanContext → SpanCall o
  as_child_of_span : o.Span → SpanCall o
  with_tag : o.Text → o.Text → SpanCall o
  start : SpanCall o
  inject : o.StringMap → SpanCall o

pub record TraceOperator (o : Names) : Type 0 where
  pub tracing_metadata : Option o.StringMap
  pub span_context : Option o.SpanContext
  pub name : o.Text
  pub tags : List (Tag o)

-- What a constructor leaves: the calls in order, and the root span.
pub record TraceSubscriber (o : Names) : Type 0 where
  pub calls : List (SpanCall o)
  pub root_span : Option o.Span

module _ (o : Names) where
  unfoldable pub with_tags : List (Tag o) → List (SpanCall o)
  with_tags [] = []
  with_tags (tag ∷ tags) = with_tag tag.key tag.value ∷ with_tags tags

  unfoldable pub inject_metadata : Option o.StringMap → List (SpanCall o)
  inject_metadata none = []
  inject_metadata (some tracing_metadata) = inject tracing_metadata ∷ []

  unfoldable pub subscriber_of_context :
      Option o.StringMap → o.SpanContext → o.Text → List (Tag o) → TraceSubscriber o
  unfolding with_tags inject_metadata
  subscriber_of_context tracing_metadata span_context name tags = record {
    calls =
        build_span name ∷ as_child_of_context span_context ∷ with_tags tags
        ++ start ∷ inject_metadata tracing_metadata;
    root_span = none;
  }

  unfoldable pub child_of_root : Option o.Span → List (SpanCall o)
  child_of_root none = []
  child_of_root (some root) = as_child_of_span root ∷ []

  -- `root` is what `activeSpan` gives.
  unfoldable pub subscriber_of_active :
      Option o.Span → Option o.StringMap → o.Text → List (Tag o) → TraceSubscriber o
  unfolding with_tags inject_metadata child_of_root
  subscriber_of_active root tracing_metadata name tags = record {
    calls =
        active_span ∷ build_span name ∷ with_tags tags
        ++ (child_of_root root ++ start ∷ inject_metadata tracing_metadata);
    root_span = root;
  }

  unfoldable pub apply : Option o.Span → TraceOperator o → TraceSubscriber o
  unfolding subscriber_of_context subscriber_of_active
  apply root operator = elim operator.span_context [
    | some span_context ↦
        subscriber_of_context operator.tracing_metadata span_context operator.name operator.tags
    | none ↦ subscriber_of_active root operator.tracing_metadata operator.name operator.tags
  ]

  unfoldable pub trace : o.Text → List (Tag o) → o.StringMap → TraceOperator o
  trace name tags map = record {
    tracing_metadata = some map;
    span_context = none;
    name = name;
    tags = tags;
  }

  unfoldable pub trace_as_child : o.Text → List (Tag o) → Option o.SpanContext → TraceOperator o
  trace_as_child name tags none = record {
    tracing_metadata = none;
    span_context = none;
    name = name;
    tags = tags;
  }
  trace_as_child name tags (some span_context) = record {
    tracing_metadata = none;
    span_context = some span_context;
    name = name;
    tags = tags;
  }
