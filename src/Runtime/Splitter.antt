-- ===== src/Runtime/Splitter.antt =====
-- `StreamSplitter.split` of util/StreamSplitter.kt
-- (rsocket-rpc-core/src/main/kotlin/io/rsocket/rpc/kotlin/util/StreamSplitter.kt): the first payload of
-- a stream, with the others as a stream of their own. The state is what the callbacks share; what they
-- do is a list of effects in order. How many payloads are asked for is left to RxJava.
pub mod Laws
use rsocket_rpc_kotlin.Base.{
  Bool, true, false, List, [], ◌∷◌, ◌++◌, Option, none, some, if◌then◌else◌,
}

-- What a publisher signals.
pub data Signal (E A : Type 0) : Type 0 where
  on_next : A → Signal E A
  on_complete : Signal E A
  on_error : E → Signal E A

-- `Split`; the tail is the processor `rest`, as a stream.
pub record Split (Payload Flow : Type 0) : Type 0 where
  pub head : Payload
  pub tail : Flow

-- A signal to the processor `rest`, and one to the subscriber.
pub data Effect (E Payload Flow : Type 0) : Type 0 where
  to_rest : Signal E Payload → Effect E Payload Flow
  downstream : Signal E (Split Payload Flow) → Effect E Payload Flow

module _ {E Payload Flow : Type 0} (rest : Flow) where
  -- The function given to `map`, with `first` before and behind; `none` is `noopSplit`.
  unfoldable pub split_payload :
      Bool → Payload → Option (Split Payload Flow) × Bool × List (Effect E Payload Flow)
  split_payload first payload =
      if first
      then (some (record { head = payload; tail = rest }), false, [])
      else (none, first, to_rest (on_next payload) ∷ [])

  -- The test of `filter`.
  unfoldable pub without_noop_split : Option (Split Payload Flow) → List (Effect E Payload Flow)
  without_noop_split none = []
  without_noop_split (some split) = downstream (on_next split) ∷ []

  -- One signal through `doOnComplete`, `doOnError`, `map` and `filter`.
  unfoldable pub split_signal : Bool → Signal E Payload → Bool × List (Effect E Payload Flow)
  unfolding split_payload without_noop_split
  split_signal first (on_next payload) =
      let (split, first', effects) = split_payload first payload in
      (first', effects ++ without_noop_split split)
  split_signal first on_complete = (first, to_rest on_complete ∷ downstream on_complete ∷ [])
  split_signal first (on_error t) = (first, to_rest (on_error t) ∷ downstream (on_error t) ∷ [])

  unfoldable pub split_signals : Bool → List (Signal E Payload) → List (Effect E Payload Flow)
  unfolding split_signal
  split_signals first [] = []
  split_signals first (signal ∷ signals) =
      let (first', effects) = split_signal first signal in effects ++ split_signals first' signals

  unfoldable pub split : List (Signal E Payload) → List (Effect E Payload Flow)
  unfolding split_signals
  split signals = split_signals true signals
