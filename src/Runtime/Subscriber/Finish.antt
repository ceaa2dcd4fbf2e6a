-- ===== src/Runtime/Subscriber/Finish.antt =====
-- How often the spans are finished, and what the subscriber behind hears of an error.
use rsocket_rpc_kotlin.Base.{
  ℕ, suc, ◌≤◌, Bool, true, false, List, [], ◌∷◌, ◌++◌, ◌≡◌, refl, ap, ◌∙◌, arith, if◌then◌else◌,
}
use rsocket_rpc_kotlin.Runtime.Subscriber.{
  Call, upstream_cancel, upstream_request, downstream_on_subscribe, downstream_on_next,
  downstream_on_error, downstream_on_complete, scope_activate, scope_log, scope_close, span_finish,
  root_span_finish, Event, subscribed, next, error, complete, requested, cancelled, State,
  Environment, invoke, cleanup, in_scope, with_upstream, on_error, on_complete, cancel, handle, run,
  new_subscriber, done,
}
use rsocket_rpc_kotlin.Runtime.Subscriber.Preserves.{is_plain, Preserves, run-Preserves}

module _ {Item Subscription Throwable : Type 0} where
  abbrev pub count :
      (Call Item Subscription Throwable → Bool) → List (Call Item Subscription Throwable) → ℕ
  count test [] = 0
  count test (call ∷ calls) = if test call then suc (count test calls) else count test calls

  abbrev pub is_span_finish : Call Item Subscription Throwable → Bool
  is_span_finish span_finish = true
  is_span_finish call = false

  abbrev pub is_root_span_finish : Call Item Subscription Throwable → Bool
  is_root_span_finish root_span_finish = true
  is_root_span_finish call = false

  abbrev pub is_downstream_error : Call Item Subscription Throwable → Bool
  is_downstream_error (downstream_on_error t) = true
  is_downstream_error call = false

  -- The events behind which a stream is over.
  abbrev pub is_end : Event Item Subscription Throwable → Bool
  is_end (error t) = true
  is_end complete = true
  is_end cancelled = true
  is_end event = false

  module _ (env : Environment Item Subscription Throwable) where
    -- The span is finished as often as the flag says, the root span no more often.
    abbrev IsCounted : State Item Subscription Throwable → Type 0
    IsCounted state =
        (count is_span_finish state.calls ≡ (if state.cleaned then 1 else 0))
        × (count is_root_span_finish state.calls
            ≤ (if state.cleaned then (if env.has_root then 1 else 0) else 0))
        × (count is_downstream_error state.calls ≡ 0)

    plain_call :
        (call : Call Item Subscription Throwable)
        → is_plain call ≡ true
        → (is_span_finish call ≡ false)
          × (is_root_span_finish call ≡ false)
          × (is_downstream_error call ≡ false)
    plain_call (upstream_cancel s) h = (refl, refl, refl)
    plain_call (upstream_request s n) h = (refl, refl, refl)
    plain_call downstream_on_subscribe h = (refl, refl, refl)
    plain_call (downstream_on_next item) h = (refl, refl, refl)
    plain_call (downstream_on_error t) h = absurd (cc)
    plain_call downstream_on_complete h = (refl, refl, refl)
    plain_call scope_activate h = (refl, refl, refl)
    plain_call (scope_log entry) h = (refl, refl, refl)
    plain_call scope_close h = (refl, refl, refl)
    plain_call span_finish h = absurd (cc)
    plain_call root_span_finish h = absurd (cc)

    plain-IsCounted :
        (call : Call Item Subscription Throwable)
        → is_plain call ≡ true
        → Preserves IsCounted (invoke env call)
    plain-IsCounted call h state p = let (a, b, c) = plain_call call h in rw (a, b, c) p

    cleanup-IsCounted : Preserves IsCounted (cleanup env)
    unfolding cleanup
    cleanup-IsCounted state p = ground arith

    cleanup_cleaned :
        (state : State Item Subscription Throwable) → ((cleanup env state).1).cleaned ≡ true
    unfolding cleanup
    cleanup_cleaned state = ground arith

    end_cleaned :
        (event : Event Item Subscription Throwable) (state : State Item Subscription Throwable)
        → is_end event ≡ true
        → ((handle env event state).1).cleaned ≡ true
    unfolding handle on_error on_complete cancel
    end_cleaned (error t) state h = cleanup_cleaned ((in_scope env "onError" done state).1)
    end_cleaned complete state h =
        cleanup_cleaned ((in_scope env "onComplete" (invoke env downstream_on_complete) state).1)
    end_cleaned cancelled state h =
        cleanup_cleaned ((in_scope env "cancel" (with_upstream env upstream_cancel) state).1)
    end_cleaned (subscribed s) state h = absurd (cc)
    end_cleaned (next item) state h = absurd (cc)
    end_cleaned (requested n) state h = absurd (cc)

    run-IsCounted :
        (events : List (Event Item Subscription Throwable))
        → IsCounted (run env events new_subscriber)
    run-IsCounted events =
        run-Preserves IsCounted env plain-IsCounted cleanup-IsCounted (λ state subscription p. p)
          events new_subscriber (refl, omega arith, refl)

    run-append :
        (before after : List (Event Item Subscription Throwable))
        (state : State Item Subscription Throwable)
        → run env (before ++ after) state ≡ run env after (run env before state)
    unfolding run
    run-append [] after state = refl
    run-append (event ∷ before) after state = run-append before after _

    cleanup_stays : Preserves (λ state. state.cleaned ≡ true) (cleanup env)
    cleanup_stays state p = cleanup_cleaned state

    cleaned_behind :
        (before after : List (Event Item Subscription Throwable))
        (event : Event Item Subscription Throwable)
        → is_end event ≡ true
        → (run env (before ++ (event ∷ after)) new_subscriber).cleaned ≡ true
    unfolding run
    cleaned_behind before after event h = rw (run-append before (event ∷ after) new_subscriber) (
        run-Preserves (λ state. state.cleaned ≡ true) env (λ call g state p. p) cleanup_stays
          (λ state subscription p. p) after _ (end_cleaned event (run env before new_subscriber) h))

    -- Whatever events come in whatever order, after the end too, and whatever the calls throw: the span
    -- and the root span are each finished at most once, the root span only if there is one, and neither
    -- while the flag is not set.
    spans_finished_once :
        (events : List (Event Item Subscription Throwable))
        → (let state = run env events new_subscriber in
            (count is_span_finish state.calls ≤ (if state.cleaned then 1 else 0))
            × (count is_root_span_finish state.calls
                ≤ (if state.cleaned then (if env.has_root then 1 else 0) else 0)))
    spans_finished_once events = let (a, b, _) = run-IsCounted events in (omega arith, b)

    -- Behind an error, a completion or a cancellation, whatever comes before and after it and whatever
    -- the calls throw, the span has been finished: exactly once.
    pub span_finished_behind_end :
        (before after : List (Event Item Subscription Throwable))
        (event : Event Item Subscription Throwable)
        → is_end event ≡ true
        → count is_span_finish ((run env (before ++ (event ∷ after)) new_subscriber).calls) ≡ 1
    span_finished_behind_end before after event h =
        let (c, _, _) = run-IsCounted (before ++ (event ∷ after)) in
        c ∙ ap (λ b. if b then 1 else 0) (cleaned_behind before after event h)

    -- The subscriber behind never hears of an error, whatever events come: `onError` of the downstream is
    -- not called, though the error is the end of the stream and the span is finished.
    pub error_not_forwarded :
        (before after : List (Event Item Subscription Throwable)) (t : Throwable)
        → (let calls = (run env (before ++ (error t ∷ after)) new_subscriber).calls in
            (count is_downstream_error calls ≡ 0) × (count is_span_finish calls ≡ 1))
    error_not_forwarded before after t =
        let (_, _, d) = run-IsCounted (before ++ (error t ∷ after)) in
        (d, span_finished_behind_end before after (error t) refl)
