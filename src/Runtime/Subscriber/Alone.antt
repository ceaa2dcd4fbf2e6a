-- ===== src/Runtime/Subscriber/Alone.antt =====
-- The steps of a thread in `cleanup`, taken without interruption, against `cleanup` as a whole.
use rsocket_rpc_kotlin.Base.{
  Bool, true, false, List, [], ◌∷◌, Option, none, some, ◌≡◌, refl, arith, Bool-cases, inl, inr, ◌⊎◌,
}
use rsocket_rpc_kotlin.Runtime.Subscriber.{span_finish, State, Environment, cleanup}
use rsocket_rpc_kotlin.Runtime.Subscriber.Finish.{count, is_span_finish, is_root_span_finish}
use rsocket_rpc_kotlin.Runtime.Subscriber.Threads.{
  returned, Choice, enters, goes_on, advance, advance_at, interleave,
}

abbrev is_some {ℓ} : {A : Type ℓ} → Option A → Bool
is_some none = false
is_some (some a) = true

Option-cases {ℓ} : {A : Type ℓ} (o : Option A) → (o ≡ none) ⊎ ((a : A) × (o ≡ some a))
Option-cases none = inl refl
Option-cases (some a) = inr (a, refl)

-- One thread from its entry to its return.
abbrev alone : Bool → List Choice
alone throws = enters ∷ goes_on 0 throws ∷ goes_on 0 throws ∷ goes_on 0 throws ∷ []

module _ {Item Subscription Throwable : Type 0}
    (env : Environment Item Subscription Throwable) where
  -- `cleanup` leaves the flag, and finishes the spans as often, as the steps of one thread do that runs
  -- alone, where the same call throws; the thread has then returned.
  cleanup-interleave :
      (state : State Item Subscription Throwable)
      → (let after = (cleanup env state).1 in
          let throws = is_some (env.throws state.calls span_finish) in
          let last = interleave env.has_root (alone throws) (record {
            flag = state.cleaned;
            span_finishes = count is_span_finish state.calls;
            root_span_finishes = count is_root_span_finish state.calls;
            threads = [];
          }) in
          (last.flag ≡ after.cleaned)
          × (last.span_finishes ≡ count is_span_finish after.calls)
          × (last.root_span_finishes ≡ count is_root_span_finish after.calls)
          × (last.threads ≡ returned ∷ []))
  unfolding cleanup interleave advance_at advance
  cleanup-interleave state = elim (Bool-cases state.cleaned) [
    | inl set ↦ rw (cleanup, set) (refl, omega arith, omega arith, refl)
    | inr clear ↦ elim (Option-cases (env.throws state.calls span_finish)) [
      | inr (t, thrown) ↦ rw (cleanup, clear, thrown) (refl, omega arith, omega arith, refl)
      | inl finished ↦ elim (Bool-cases env.has_root) [
        | inl root ↦ rw (cleanup, clear, finished, root) (refl, omega arith, omega arith, refl)
        | inr no_root ↦
            rw (cleanup, clear, finished, no_root) (refl, omega arith, omega arith, refl)
      ]
    ]
  ]
