-- ===== src/Runtime/Router/Channel.antt =====
-- A channel's request: the splitter and the handler behind one another.
use rsocket_rpc_kotlin.Base.{false, List, [], ◌∷◌, ◌++◌, map, ◌≡◌, ◌≢◌, refl, ap, ◌∙◌, take, All}
use rsocket_rpc_kotlin.Runtime.Common.{ok}
use rsocket_rpc_kotlin.Runtime.Netty.{Netty, Documented}
use rsocket_rpc_kotlin.Runtime.Splitter.{split_signals, split}
use rsocket_rpc_kotlin.Runtime.Splitter.Laws.{
  End, running, completed, failed, stream, rest_signals, splits_first,
}
use rsocket_rpc_kotlin.Runtime.Router.{
  Reactive, RSocketRpcService, RegisteredServices, request_handling_rsocket, requested_service,
  handle_split, handle_effects, handle_request_channel,
}
use rsocket_rpc_kotlin.Runtime.Router.Routing.{settle, requests_reach_last}

module _ (n : Netty) (r : Reactive n) where
  module _ (table : RegisteredServices n r) (rest : r.Flowable) where
    later_payloads :
        (payloads : List r.Payload) (end : End n.Throwable)
        → handle_effects n r table (split_signals rest false (stream payloads end)) ≡ []
    unfolding handle_effects split_signals
    later_payloads [] running = refl
    later_payloads [] completed = refl
    later_payloads [] (failed t) = refl
    later_payloads (payload ∷ payloads) end = later_payloads payloads end

    channel-split :
        (payloads : List r.Payload) (end : End n.Throwable)
        → handle_request_channel n r table rest (stream payloads end)
          ≡ map
              (λ payload. handle_split n r table (record { head = payload; tail = rest }))
              (take 1 payloads)
    unfolding handle_request_channel handle_effects split split_signals
    channel-split [] running = refl
    channel-split [] completed = refl
    channel-split [] (failed t) = refl
    channel-split (payload ∷ payloads) end =
        ap (λ l. handle_split n r table (record { head = payload; tail = rest }) ∷ l)
          (later_payloads payloads end)

  -- A channel whose first payload names a service is answered by one stream, however many payloads
  -- follow and however the channel ends: what the service of that name that was registered last gives
  -- for the first payload and the splitter's other stream, and that stream has all payloads behind the
  -- first, in order, and the end of the channel. The first payload is released if and only if the
  -- service's function throws.
  pub channel_reaches_last :
      (laws : Documented n) (before after : List (RSocketRpcService n r))
      (s : RSocketRpcService n r) (rest : r.Flowable) (payload : r.Payload)
      (payloads : List r.Payload) (end : End n.Throwable)
      → All (λ s'. s'.service ≢ s.service) after
      → requested_service n r payload ≡ ok s.service
      → (handle_request_channel n r
            (request_handling_rsocket n r (before ++ (s ∷ after)))
            rest
            (stream (payload ∷ payloads) end)
          ≡ settle n r r.flowable_error payload (s.request_channel payload rest) ∷ [])
        × (rest_signals (split rest (stream (payload ∷ payloads) end)) ≡ stream payloads end)
  channel_reaches_last laws before after s rest payload payloads end h e =
      let table = request_handling_rsocket n r (before ++ (s ∷ after)) in
      let (_, _, _, handled) = requests_reach_last n r laws before after s payload rest h e in
      (
        channel-split table rest (payload ∷ payloads) end ∙ ap (λ x. x ∷ []) handled,
        (splits_first rest (payload ∷ payloads) end).1,
      )
