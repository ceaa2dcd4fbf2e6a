-- ===== src/Tests/Spans.antt =====
-- The theorems on a traced stream, at concrete events, threads and calls of a tracer.
use rsocket_rpc_kotlin.Base.{
  ℕ, ◌≤◌, Bytes, codes, true, false, List, [], ◌∷◌, none, some, ◌≡◌, refl, if◌then◌else◌,
}
use rsocket_rpc_kotlin.Runtime.Subscriber.{
  scope_activate, subscribed, next, error, complete, cancelled, Environment, run, new_subscriber,
}
use rsocket_rpc_kotlin.Runtime.Subscriber.Finish.{
  count, is_span_finish, is_downstream_error, span_finished_behind_end, error_not_forwarded,
}
use rsocket_rpc_kotlin.Runtime.Subscriber.Threads.{
  Choice, enters, goes_on, interleave, no_threads, threads_finish_at_most_once,
}
use rsocket_rpc_kotlin.Runtime.Operator.{Names, Tag, apply, trace, trace_as_child}
use rsocket_rpc_kotlin.Runtime.Operator.Spans.{context, span, span_made, trace_lem}

-- A tracer whose scopes cannot be activated once a call was made.
abbrev environment : Environment ℕ ℕ ℕ
environment = record {
  throws = λ calls call. elim call [ scope_activate ↦ some 99 | _ ↦ none ];
  null_pointer = 98;
  has_root = true;
}

span_finished_behind_end_example :
    count is_span_finish
      ((run environment (subscribed 1 ∷ next 5 ∷ complete ∷ cancelled ∷ []) new_subscriber).calls)
    ≡ 1
span_finished_behind_end_example =
    span_finished_behind_end environment (subscribed 1 ∷ next 5 ∷ []) (cancelled ∷ []) complete refl

error_not_forwarded_example :
    (let calls = (run environment (subscribed 1 ∷ error 7 ∷ []) new_subscriber).calls in
      (count is_downstream_error calls ≡ 0) × (count is_span_finish calls ≡ 1))
error_not_forwarded_example = error_not_forwarded environment (subscribed 1 ∷ []) [] 7

-- Two threads of which the one that came later wins.
abbrev choices : List Choice
choices =
    enters ∷ enters ∷ goes_on 0 false ∷ goes_on 1 false ∷ goes_on 0 false ∷ goes_on 0 false ∷ []

threads_finish_at_most_once_example :
    (let shared = interleave true choices no_threads in
      (shared.span_finishes ≤ (if shared.flag then 1 else 0))
      × (shared.root_span_finishes ≤ shared.span_finishes))
threads_finish_at_most_once_example = threads_finish_at_most_once true choices

abbrev names : Names
names = record { Text = Bytes; Span = ℕ; SpanContext = ℕ; StringMap = List Bytes }

abbrev tags : List (Tag names)
tags =
    record { key = codes "k"; value = codes "v" }
    ∷ record { key = codes "l"; value = codes "w" }
    ∷ []

trace_lem_example :
    (span_made names ((apply names (some 3) (trace names (codes "s") tags (codes "m" ∷ []))).calls)
      ≡ some (record {
        name = codes "s";
        parents = span 3 ∷ [];
        tags = tags;
        injected = (codes "m" ∷ []) ∷ [];
      }))
    × (span_made names
          ((apply names (some 3) (trace_as_child names (codes "s") tags (some 4))).calls)
        ≡ some (record { name = codes "s"; parents = context 4 ∷ []; tags = tags; injected = [] }))
    × ((apply names (some 3) (trace names (codes "s") tags (codes "m" ∷ []))).root_span ≡ some 3)
    × ((apply names (some 3) (trace_as_child names (codes "s") tags (some 4))).root_span ≡ none)
trace_lem_example = trace_lem names (some 3) (codes "s") tags (codes "m" ∷ []) (some 4)
