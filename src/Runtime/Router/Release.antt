-- ===== src/Runtime/Router/Release.antt =====
-- A request's payload is released, or left to a service, and never both.
use mathlib.Core.Path.{subst}
use rsocket_rpc_kotlin.Base.{List, [], ◌∷◌, Option, none, some, ◌≡◌, refl, sym, inl, inr, ◌⊎◌}
use rsocket_rpc_kotlin.Runtime.Common.{Result, ok, threw}
use rsocket_rpc_kotlin.Runtime.Netty.{Netty}
use rsocket_rpc_kotlin.Runtime.Splitter.{Split}
use rsocket_rpc_kotlin.Runtime.Router.{
  Reactive, RSocketRpcService, RegisteredServices, requested_service, handle_fire_and_forget,
  handle_request_response, handle_request_stream, handle_split,
}
use rsocket_rpc_kotlin.Runtime.Router.Routing.{
  settle, route, fire_and_forget-route, request_response-route, request_stream-route, split-route,
}

module _ (n : Netty) (r : Reactive n) (table : RegisteredServices n r) where
  -- Either a failure and the payload released once, or the answer of the registered service that was
  -- asked for and the payload not released.
  abbrev pub IsAccounted :
      {X : Type 0}
      → (n.Throwable → X)
      → (RSocketRpcService n r → Result n.Throwable X)
      → r.Payload
      → X × List r.Payload
      → Type 0
  IsAccounted error call payload outcome =
      ((t : n.Throwable) × (outcome ≡ (error t, payload ∷ [])))
      ⊎ ((name : n.Text) × (s : RSocketRpcService n r) × (result : _) × (requested_service n r
              payload
            ≡ ok name)
          × (table name ≡ some s)
          × (call s ≡ ok result)
          × (outcome ≡ (result, [])))

  settle-IsAccounted :
      {X : Type 0} (error : n.Throwable → X) (call : RSocketRpcService n r → Result n.Throwable X)
      (payload : r.Payload) (name : n.Text) (s : RSocketRpcService n r)
      (answer : Result n.Throwable X)
      → requested_service n r payload ≡ ok name
      → table name ≡ some s
      → call s ≡ answer
      → IsAccounted error call payload (settle n r error payload answer)
  settle-IsAccounted error call payload name s (ok result) e t c =
      inr (name, s, result, e, t, c, refl)
  settle-IsAccounted error call payload name s (threw t') e t c = inl (t', refl)

  found-IsAccounted :
      {X : Type 0} (error : n.Throwable → X) (call : RSocketRpcService n r → Result n.Throwable X)
      (payload : r.Payload) (name : n.Text) (found : Option (RSocketRpcService n r))
      → requested_service n r payload ≡ ok name
      → table name ≡ found
      → IsAccounted error call payload (elim found [
        | none ↦ (error (r.service_not_found name), payload ∷ [])
        | some s ↦ settle n r error payload (call s)
      ])
  found-IsAccounted error call payload name none e t = inl (r.service_not_found name, refl)
  found-IsAccounted error call payload name (some s) e t =
      settle-IsAccounted error call payload name s (call s) e t refl

  asked-IsAccounted :
      {X : Type 0} (error : n.Throwable → X) (call : RSocketRpcService n r → Result n.Throwable X)
      (payload : r.Payload) (asked : Result n.Throwable n.Text)
      → requested_service n r payload ≡ asked
      → IsAccounted error call payload (route n r error call table payload)
  asked-IsAccounted error call payload (threw t) e = inl (t, rw (route, e) refl)
  asked-IsAccounted error call payload (ok name) e =
      subst (IsAccounted error call payload) (sym (rw (route, e) refl))
        (found-IsAccounted error call payload name (table name) e refl)

  -- Whatever services are registered and whatever the payload is, each of the four handlers either fails
  -- and has released the payload exactly once, or gives what the service asked for has answered to it and
  -- has not released it.
  pub payload_released_or_handed :
      (split : Split r.Payload r.Flowable)
      → (let payload = split.head in
          IsAccounted r.completable_error
            (λ s. s.fire_and_forget payload)
            payload
            (handle_fire_and_forget n r table payload)
          × IsAccounted r.single_error
              (λ s. s.request_response payload)
              payload
              (handle_request_response n r table payload)
          × IsAccounted r.flowable_error
              (λ s. s.request_stream payload)
              payload
              (handle_request_stream n r table payload)
          × IsAccounted r.flowable_error
              (λ s. s.request_channel payload split.tail)
              payload
              (handle_split n r table split))
  payload_released_or_handed split =
      let payload = split.head in
      (
        rw (fire_and_forget-route n r table payload)
            (asked-IsAccounted r.completable_error (λ s. s.fire_and_forget payload) payload _ refl),
        rw (request_response-route n r table payload)
            (asked-IsAccounted r.single_error (λ s. s.request_response payload) payload _ refl),
        rw (request_stream-route n r table payload)
            (asked-IsAccounted r.flowable_error (λ s. s.request_stream payload) payload _ refl),
        rw (split-route n r table split) (
            asked-IsAccounted r.flowable_error (λ s. s.request_channel payload split.tail) payload _
              refl),
      )
