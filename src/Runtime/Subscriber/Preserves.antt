-- ===== src/Runtime/Subscriber/Preserves.antt =====
-- What every handler keeps, if its calls and the cleaning keep it.
use rsocket_rpc_kotlin.Base.{
  String, Bool, true, false, List, [], ◌∷◌, Option, none, some, ◌≡◌, refl,
}
use rsocket_rpc_kotlin.Runtime.Subscriber.{
  Call, upstream_cancel, upstream_request, downstream_on_subscribe, downstream_on_next,
  downstream_on_error, downstream_on_complete, scope_activate, scope_log, scope_close, span_finish,
  root_span_finish, Event, subscribed, next, error, complete, requested, cancelled, State, Step,
  Environment, and_then, use_closing, done, invoke, cleanup, in_scope, on_subscribe, on_next,
  on_error, on_complete, with_upstream, request, cancel, handle, run,
}

module _ {Item Subscription Throwable : Type 0} where
  -- The calls that the handlers make themselves.
  abbrev pub is_plain : Call Item Subscription Throwable → Bool
  is_plain span_finish = false
  is_plain root_span_finish = false
  is_plain (downstream_on_error t) = false
  is_plain call = true

  abbrev pub Preserves :
      (State Item Subscription Throwable → Type 0) → Step Item Subscription Throwable → Type 0
  Preserves P step = (state : State Item Subscription Throwable) → P state → P ((step state).1)

  module _ (P : State Item Subscription Throwable → Type 0) where
    branched {ℓ} :
        {A : Type ℓ} (found : Option A)
        (absent : Option Throwable × State Item Subscription Throwable)
        (present : A → Option Throwable × State Item Subscription Throwable)
        → P absent.1
        → ((a : A) → P ((present a).1))
        → (let r : Option Throwable × State Item Subscription Throwable = elim found [
          | none ↦ absent
          | some a ↦ present a
        ] in
            P r.1)
    branched none absent present p q = p
    branched (some a) absent present p q = q a

    pub and_then-Preserves :
        (first second : Step Item Subscription Throwable)
        → Preserves P first
        → Preserves P second
        → Preserves P (and_then first second)
    and_then-Preserves first second h k state p =
        branched (first state).0 (second (first state).1) (λ t. (some t, (first state).1))
          (k _ (h state p)) (λ t. h state p)

    module _ (env : Environment Item Subscription Throwable)
        (plain : (call : Call Item Subscription Throwable)
          → is_plain call ≡ true
          → Preserves P (invoke env call)) where
      pub in_scope-Preserves :
          (entry : String) (body : Step Item Subscription Throwable)
          → Preserves P body
          → Preserves P (in_scope env entry body)
      in_scope-Preserves entry body h =
          and_then-Preserves (invoke env scope_activate)
            (use_closing (and_then (invoke env (scope_log entry)) body) (invoke env scope_close))
            (plain scope_activate refl)
            (λ state p. plain scope_close refl _ (
              and_then-Preserves (invoke env (scope_log entry)) body (plain (scope_log entry) refl)
                h state p))

      module _ (cleaning : Preserves P (cleanup env))
          (assigned : (state : State Item Subscription Throwable) (subscription : Subscription)
            → P state
            → P (record state { upstream = some subscription })) where
        subscribed-Preserves :
            (subscription : Subscription) → Preserves P (on_subscribe env subscription)
        unfolding on_subscribe
        subscribed-Preserves subscription state p =
            branched state.upstream _ (λ upstream. invoke env (upstream_cancel subscription) state)
              (and_then-Preserves (invoke env downstream_on_subscribe)
                (in_scope env "onSubscribe" (invoke env downstream_on_subscribe))
                (plain downstream_on_subscribe refl)
                (in_scope-Preserves "onSubscribe" (invoke env downstream_on_subscribe)
                  (plain downstream_on_subscribe refl))
                _ (assigned state subscription p))
              (λ upstream. plain (upstream_cancel subscription) refl state p)

        requested-Preserves :
            (call : Subscription → Call Item Subscription Throwable)
            → ((upstream : Subscription) → is_plain (call upstream) ≡ true)
            → Preserves P (with_upstream env call)
        requested-Preserves call h state p =
            branched state.upstream (some env.null_pointer, state)
              (λ upstream. invoke env (call upstream) state) p
              (λ upstream. plain (call upstream) (h upstream) state p)

        handle-Preserves :
            (event : Event Item Subscription Throwable) → Preserves P (handle env event)
        unfolding handle on_next on_error on_complete request cancel
        handle-Preserves (subscribed subscription) = subscribed-Preserves subscription
        handle-Preserves (next item) = plain (downstream_on_next item) refl
        handle-Preserves (error t) =
            λ state p. cleaning _ (in_scope-Preserves "onError" done (λ s q. q) state p)
        handle-Preserves complete = λ state p. cleaning _ (
            in_scope-Preserves "onComplete" (invoke env downstream_on_complete)
              (plain downstream_on_complete refl) state p)
        handle-Preserves (requested n) =
            requested-Preserves (λ upstream. upstream_request upstream n) (λ u. refl)
        handle-Preserves cancelled = λ state p. cleaning _ (
            in_scope-Preserves "cancel" (with_upstream env upstream_cancel)
              (requested-Preserves upstream_cancel (λ u. refl)) state p)

        pub run-Preserves :
            (events : List (Event Item Subscription Throwable))
            (state : State Item Subscription Throwable)
            → P state
            → P (run env events state)
        unfolding run
        run-Preserves [] state p = p
        run-Preserves (event ∷ events) state p =
            run-Preserves events _ (handle-Preserves event state p)
