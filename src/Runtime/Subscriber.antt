-- ===== src/Runtime/Subscriber.antt =====
-- `TraceSubscriber` of tracing/TraceSubscriber.kt
-- (rsocket-rpc-core/src/main/kotlin/io/rsocket/rpc/kotlin/tracing/TraceSubscriber.kt), once it is made:
-- its handlers as functions of its state and of the calls that it has made so far, each of which may
-- throw. The handlers run one after the other; the time in a log entry is left out.
pub mod Preserves
pub mod Finish
pub mod Threads
pub mod Alone
use rsocket_rpc_kotlin.Base.{
  ℕ, String, Bool, true, false, List, [], ◌∷◌, Option, none, some, if◌then◌else◌,
}

-- What a TraceSubscriber calls, on its own arguments and fields. The scope is the span's.
pub data Call (Item Subscription Throwable : Type 0) : Type 0 where
  upstream_cancel : Subscription → Call Item Subscription Throwable
  upstream_request : Subscription → ℕ → Call Item Subscription Throwable
  downstream_on_subscribe : Call Item Subscription Throwable
  downstream_on_next : Item → Call Item Subscription Throwable
  downstream_on_error : Throwable → Call Item Subscription Throwable
  downstream_on_complete : Call Item Subscription Throwable
  scope_activate : Call Item Subscription Throwable
  scope_log : String → Call Item Subscription Throwable
  scope_close : Call Item Subscription Throwable
  span_finish : Call Item Subscription Throwable
  root_span_finish : Call Item Subscription Throwable

-- What happens to a TraceSubscriber.
pub data Event (Item Subscription Throwable : Type 0) : Type 0 where
  subscribed : Subscription → Event Item Subscription Throwable
  next : Item → Event Item Subscription Throwable
  error : Throwable → Event Item Subscription Throwable
  complete : Event Item Subscription Throwable
  requested : ℕ → Event Item Subscription Throwable
  cancelled : Event Item Subscription Throwable

-- `cleaned` is the AtomicBoolean; `calls` are the calls made, the last one first.
pub record State (Item Subscription Throwable : Type 0) : Type 0 where
  pub cleaned : Bool
  pub upstream : Option Subscription
  pub calls : List (Call Item Subscription Throwable)

-- Code that returns, or throws (`some`), in either case in a new state.
abbrev pub Step : Type 0 → Type 0 → Type 0 → Type 0
Step Item Subscription Throwable =
    State Item Subscription Throwable → Option Throwable × State Item Subscription Throwable

-- `throws` says of a call, by those made before it, whether it throws; `null_pointer` is what `!!`
-- throws, and `has_root` whether there is a root span.
pub record Environment (Item Subscription Throwable : Type 0) : Type 0 where
  pub throws :
      List (Call Item Subscription Throwable) → Call Item Subscription Throwable → Option Throwable
  pub null_pointer : Throwable
  pub has_root : Bool

module _ {Item Subscription Throwable : Type 0} where
  abbrev pub and_then :
      Step Item Subscription Throwable
      → Step Item Subscription Throwable
      → Step Item Subscription Throwable
  and_then first second state =
      let (outcome, state') = first state in
      elim outcome [ none ↦ second state' | some t ↦ (some t, state') ]

  -- `try { … } finally { … }`
  abbrev pub finally :
      Step Item Subscription Throwable
      → Step Item Subscription Throwable
      → Step Item Subscription Throwable
  finally body last state =
      let (outcome, state') = body state in
      let (outcome', state'') = last state' in
      (elim outcome' [ none ↦ outcome | some t ↦ some t ], state'')

  -- `use`: what the closing throws is dropped where the body throws.
  abbrev pub use_closing :
      Step Item Subscription Throwable
      → Step Item Subscription Throwable
      → Step Item Subscription Throwable
  use_closing body close state =
      let (outcome, state') = body state in
      let (outcome', state'') = close state' in
      (elim outcome [ none ↦ outcome' | some t ↦ some t ], state'')

  abbrev pub done : Step Item Subscription Throwable
  done state = (none, state)

  module _ (env : Environment Item Subscription Throwable) where
    abbrev pub invoke : Call Item Subscription Throwable → Step Item Subscription Throwable
    invoke call state = (env.throws state.calls call, record state { calls = call ∷ state.calls })

    unfoldable pub cleanup : Step Item Subscription Throwable
    cleanup state =
        if state.cleaned
        then (none, state)
        else (and_then (invoke span_finish) (if env.has_root then invoke root_span_finish else done)
            (record state { cleaned = true }))

    abbrev pub in_scope :
        String → Step Item Subscription Throwable → Step Item Subscription Throwable
    in_scope entry body =
        and_then (invoke scope_activate)
          (use_closing (and_then (invoke (scope_log entry)) body) (invoke scope_close))

    unfoldable pub on_subscribe : Subscription → Step Item Subscription Throwable
    on_subscribe subscription state = elim state.upstream [
      | some upstream ↦ invoke (upstream_cancel subscription) state
      | none ↦
          and_then (invoke downstream_on_subscribe)
            (in_scope "onSubscribe" (invoke downstream_on_subscribe))
            (record state { upstream = some subscription })
    ]

    unfoldable pub on_next : Item → Step Item Subscription Throwable
    on_next item = invoke (downstream_on_next item)

    unfoldable pub on_error : Throwable → Step Item Subscription Throwable
    unfolding cleanup
    on_error t = finally (in_scope "onError" done) cleanup

    unfoldable pub on_complete : Step Item Subscription Throwable
    unfolding cleanup
    on_complete = finally (in_scope "onComplete" (invoke downstream_on_complete)) cleanup

    -- `this.upstream!!` and a call of it.
    abbrev pub with_upstream :
        (Subscription → Call Item Subscription Throwable) → Step Item Subscription Throwable
    with_upstream call state = elim state.upstream [
      | none ↦ (some env.null_pointer, state)
      | some upstream ↦ invoke (call upstream) state
    ]

    unfoldable pub request : ℕ → Step Item Subscription Throwable
    request n = with_upstream (λ upstream. upstream_request upstream n)

    unfoldable pub cancel : Step Item Subscription Throwable
    unfolding cleanup
    cancel = finally (in_scope "cancel" (with_upstream upstream_cancel)) cleanup

    unfoldable pub handle : Event Item Subscription Throwable → Step Item Subscription Throwable
    unfolding on_subscribe on_next on_error on_complete request cancel
    handle (subscribed subscription) = on_subscribe subscription
    handle (next item) = on_next item
    handle (error t) = on_error t
    handle complete = on_complete
    handle (requested n) = request n
    handle cancelled = cancel

    -- The state behind any sequence of events; what a handler throws goes to its caller.
    unfoldable pub run :
        List (Event Item Subscription Throwable)
        → State Item Subscription Throwable
        → State Item Subscription Throwable
    unfolding handle
    run [] state = state
    run (event ∷ events) state = run events ((handle event state).1)

  abbrev pub new_subscriber : State Item Subscription Throwable
  new_subscriber = record { cleaned = false; upstream = none; calls = [] }
