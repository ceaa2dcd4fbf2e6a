-- ===== src/Runtime/Subscriber/Threads.antt =====
-- `cleanup` of TraceSubscriber.kt run by several threads at once: each of its atomic steps, in any
-- interleaving.
use mathlib.Core.Path.{subst}
use rsocket_rpc_kotlin.Base.{
  ◌<◌, ℕ, zero, suc, ◌+◌, ◌≤◌, Bool, true, false, List, [], ◌∷◌, ◌≡◌, refl, ap, arith,
  if◌then◌else◌, All, length,
}

-- Where a thread stands in `cleanup`.
pub data Place : Type 0 where
  at_compare_and_set : Place
  at_span_finish : Place
  at_root_span_finish : Place
  returned : Place

-- The AtomicBoolean, how often each span was finished, and the threads.
pub record Shared : Type 0 where
  pub flag : Bool
  pub span_finishes : ℕ
  pub root_span_finishes : ℕ
  pub threads : List Place

-- A thread begins with `cleanup`, or the thread of that number goes on, where `span.finish()` may throw.
pub data Choice : Type 0 where
  enters : Choice
  goes_on : ℕ → Bool → Choice

module _ (has_root : Bool) where
  -- One step of a thread: its next place, the flag, and how often it finishes each span.
  unfoldable pub advance : Bool → Place → Bool → Place × Bool × ℕ × ℕ
  advance throws at_compare_and_set flag =
      if flag then (returned, true, 0, 0) else (at_span_finish, true, 0, 0)
  advance throws at_span_finish flag =
      (if throws then returned else if has_root then at_root_span_finish else returned, flag, 1, 0)
  advance throws at_root_span_finish flag = (returned, flag, 0, 1)
  advance throws returned flag = (returned, flag, 0, 0)

  unfoldable pub advance_at : Bool → ℕ → List Place → Bool → List Place × Bool × ℕ × ℕ
  unfolding advance
  advance_at throws number [] flag = ([], flag, 0, 0)
  advance_at throws zero (place ∷ threads) flag =
      let (place', flag', span, root) = advance throws place flag in
      (place' ∷ threads, flag', span, root)
  advance_at throws (suc number) (place ∷ threads) flag =
      let (threads', flag', span, root) = advance_at throws number threads flag in
      (place ∷ threads', flag', span, root)

  unfoldable pub interleave : List Choice → Shared → Shared
  unfolding advance_at
  interleave [] shared = shared
  interleave (enters ∷ choices) shared =
      interleave choices (record shared { threads = at_compare_and_set ∷ shared.threads })
  interleave (goes_on number throws ∷ choices) shared =
      let (threads, flag, span, root) = advance_at throws number shared.threads shared.flag in
      interleave choices (record {
        flag = flag;
        span_finishes = span + shared.span_finishes;
        root_span_finishes = root + shared.root_span_finishes;
        threads = threads;
      })

abbrev pub no_threads : Shared
no_threads = record { flag = false; span_finishes = 0; root_span_finishes = 0; threads = [] }

abbrev count_at : (Place → ℕ) → List Place → ℕ
count_at weight [] = 0
count_at weight (place ∷ threads) = weight place + count_at weight threads

abbrev before_span : Place → ℕ
before_span at_span_finish = 1
before_span place = 0

abbrev before_root : Place → ℕ
before_root at_root_span_finish = 1
before_root place = 0

abbrev behind_test : Place → ℕ
behind_test at_compare_and_set = 0
behind_test place = 1

abbrev bit : Bool → ℕ
bit b = if b then 1 else 0

bit_bounded : (b : Bool) → bit b ≤ 1
bit_bounded true = omega arith
bit_bounded false = omega arith

module _ (has_root : Bool) where
  advance_lem :
      (throws : Bool) (place : Place) (flag : Bool)
      → behind_test place ≤ bit flag
      → (let (place', flag', span, root) = advance has_root throws place flag in
          (before_span place' + (span + bit flag) ≡ before_span place + bit flag')
          × (before_root place' + root ≤ before_root place + span)
          × (behind_test place' ≤ bit flag')
          × (bit flag ≤ bit flag'))
  unfolding advance
  advance_lem throws at_compare_and_set flag h = ground arith
  advance_lem throws at_span_finish flag h = ground arith
  advance_lem throws at_root_span_finish flag h = ground arith
  advance_lem throws returned flag h = ground arith

  -- No thread is behind the test while the flag is not set.
  abbrev IsTested : Bool → List Place → Type 0
  IsTested flag threads = All (λ place. behind_test place ≤ bit flag) threads

  set_later :
      (flag flag' : Bool) (threads : List Place)
      → bit flag ≤ bit flag'
      → IsTested flag threads
      → IsTested flag' threads
  set_later flag flag' [] h t = tt
  set_later flag flag' (place ∷ threads) h (t, ts) =
      (omega arith, set_later flag flag' threads h ts)

  advance_at_lem :
      (throws : Bool) (number : ℕ) (threads : List Place) (flag : Bool)
      → IsTested flag threads
      → (let (threads', flag', span, root) = advance_at has_root throws number threads flag in
          (count_at before_span threads' + (span + bit flag)
            ≡ count_at before_span threads + bit flag')
          × (count_at before_root threads' + root ≤ count_at before_root threads + span)
          × IsTested flag' threads'
          × (bit flag ≤ bit flag'))
  unfolding advance_at
  advance_at_lem throws number [] flag t = (omega arith, omega arith, tt, omega arith)
  advance_at_lem throws zero (place ∷ threads) flag (t, ts) =
      let (a, b, c, d) = advance_lem throws place flag t in
      (omega arith, omega arith, (c, set_later flag _ threads d ts), d)
  advance_at_lem throws (suc number) (place ∷ threads) flag (t, ts) =
      let (a, b, c, d) = advance_at_lem throws number threads flag ts in
      (omega arith, omega arith, (omega arith, c), d)

  abbrev pub IsOrderly : Shared → Type 0
  IsOrderly shared =
      (count_at before_span shared.threads + shared.span_finishes ≡ bit shared.flag)
      × (count_at before_root shared.threads + shared.root_span_finishes ≤ shared.span_finishes)
      × IsTested shared.flag shared.threads

  interleave-IsOrderly :
      (choices : List Choice) (shared : Shared)
      → IsOrderly shared
      → IsOrderly (interleave has_root choices shared)
  unfolding interleave
  interleave-IsOrderly [] shared h = h
  interleave-IsOrderly (enters ∷ choices) shared (a, b, c) =
      interleave-IsOrderly choices _ (omega arith, omega arith, (omega arith, c))
  interleave-IsOrderly (goes_on number throws ∷ choices) shared (a, b, c) =
      let (a', b', c', d') = advance_at_lem throws number shared.threads shared.flag c in
      interleave-IsOrderly choices _ (omega arith, omega arith, c')

  nobody_at :
      (weight : Place → ℕ) (threads : List Place)
      → weight returned ≡ 0
      → All (λ place. place ≡ returned) threads
      → count_at weight threads ≡ 0
  nobody_at weight [] w h = refl
  nobody_at weight (place ∷ threads) w (h, hs) =
      omega (arith, ap weight h, w, nobody_at weight threads w hs)

  tested :
      (flag : Bool) (threads : List Place)
      → IsTested flag threads
      → All (λ place. place ≡ returned) threads
      → 0 < length threads
      → bit flag ≡ 1
  tested flag [] t h l = absurd (omega arith)
  tested flag (place ∷ threads) (t, _) (h, _) l = omega (arith, ap behind_test h, bit_bounded flag)

  -- Whatever number of threads run `cleanup` at once, in whatever interleaving of their steps, and
  -- whichever calls of `finish` on the span throw: once all threads that came have returned, and one
  -- came at least, the span has been finished exactly once and the root span at most once.
  threads_finish_once :
      (choices : List Choice) (last : Shared)
      → interleave has_root choices no_threads ≡ last
      → All (λ place. place ≡ returned) last.threads
      → 0 < length last.threads
      → (last.span_finishes ≡ 1) × (last.root_span_finishes ≤ 1)
  threads_finish_once choices last e h l =
      let (a, b, c) : IsOrderly last =
        subst IsOrderly e
          (interleave-IsOrderly choices no_threads (omega arith, omega arith, tt)) in
      let none_before = nobody_at before_span last.threads refl h in
      let set = tested last.flag last.threads c h l in (omega arith, omega arith)

  -- At any moment, whatever number of threads run `cleanup` at once and in whatever interleaving of
  -- their steps, each span has been finished at most once, the root span no more often than the span,
  -- and neither while the flag is not set.
  pub threads_finish_at_most_once :
      (choices : List Choice)
      → (let shared = interleave has_root choices no_threads in
          (shared.span_finishes ≤ (if shared.flag then 1 else 0))
          × (shared.root_span_finishes ≤ shared.span_finishes))
  threads_finish_at_most_once choices =
      let (a, b, _) = interleave-IsOrderly choices no_threads (omega arith, omega arith, tt) in
      (omega arith, omega arith)
