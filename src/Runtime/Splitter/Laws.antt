-- ===== src/Runtime/Splitter/Laws.antt =====
-- What the subscriber and the other stream get.
use rsocket_rpc_kotlin.Base.{false, List, [], ◌∷◌, map, ◌≡◌, refl, ap, take, drop}
use rsocket_rpc_kotlin.Runtime.Splitter.{
  Signal, on_next, on_complete, on_error, Split, Effect, to_rest, downstream, split_signals, split,
}

-- How far a stream is.
pub data End (E : Type 0) : Type 0 where
  running : End E
  completed : End E
  failed : E → End E

module _ {E A : Type 0} where
  abbrev pub ending : End E → List (Signal E A)
  ending running = []
  ending completed = on_complete ∷ []
  ending (failed t) = on_error t ∷ []

  -- The signals of a stream with these elements.
  abbrev pub stream : List A → End E → List (Signal E A)
  stream [] end = ending end
  stream (x ∷ xs) end = on_next x ∷ stream xs end

module _ {E Payload Flow : Type 0} where
  abbrev pub rest_signals : List (Effect E Payload Flow) → List (Signal E Payload)
  rest_signals [] = []
  rest_signals (to_rest signal ∷ effects) = signal ∷ rest_signals effects
  rest_signals (downstream signal ∷ effects) = rest_signals effects

  abbrev pub downstream_signals :
      List (Effect E Payload Flow) → List (Signal E (Split Payload Flow))
  downstream_signals [] = []
  downstream_signals (to_rest signal ∷ effects) = downstream_signals effects
  downstream_signals (downstream signal ∷ effects) = signal ∷ downstream_signals effects

  module _ (rest : Flow) where
    later_signals :
        (payloads : List Payload) (end : End E)
        → (rest_signals (split_signals rest false (stream payloads end)) ≡ stream payloads end)
          × (downstream_signals (split_signals rest false (stream payloads end)) ≡ ending end)
    unfolding split_signals
    later_signals [] running = (refl, refl)
    later_signals [] completed = (refl, refl)
    later_signals [] (failed t) = (refl, refl)
    later_signals (payload ∷ payloads) end =
        let (r, d) = later_signals payloads end in (ap (λ l. on_next payload ∷ l) r, d)

    -- Of a stream that runs, completes or fails after any number of payloads, the subscriber gets one
    -- split with the first payload and the stream of the others, none if there is no payload, and that
    -- other stream gets all payloads behind the first, in order; both then end as the stream does.
    pub splits_first :
        (payloads : List Payload) (end : End E)
        → (downstream_signals (split rest (stream payloads end))
            ≡ stream
                (map (λ payload. record { head = payload; tail = rest }) (take 1 payloads))
                end)
          × (rest_signals (split rest (stream payloads end)) ≡ stream (drop 1 payloads) end)
    unfolding split
    splits_first [] running = (refl, refl)
    splits_first [] completed = (refl, refl)
    splits_first [] (failed t) = (refl, refl)
    splits_first (payload ∷ payloads) end =
        let (r, d) = later_signals payloads end in
        (ap (λ l. on_next (record { head = payload; tail = rest }) ∷ l) d, r)
