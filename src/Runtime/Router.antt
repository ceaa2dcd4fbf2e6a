-- ===== src/Runtime/Router.antt =====
-- `RequestHandlingRSocket` of rsocket/RequestHandlingRSocket.kt
-- (rsocket-rpc-core/src/main/kotlin/io/rsocket/rpc/kotlin/rsocket/RequestHandlingRSocket.kt): which
-- service takes a request, and whether the request's payload is released.
pub mod Routing
pub mod Release
pub mod Channel
pub mod Delivery
use rsocket_rpc_kotlin.Base.{
  Bool, true, false, List, [], ◌∷◌, ◌++◌, Option, none, some, if◌then◌else◌,
}
use rsocket_rpc_kotlin.Runtime.Common.{Result, ok, threw, ◌>>=◌}
use rsocket_rpc_kotlin.Runtime.Netty.{Netty}
use rsocket_rpc_kotlin.Runtime.Metadata.{get_service}
use rsocket_rpc_kotlin.Runtime.Splitter.{Signal, on_next, Split, Effect, to_rest, downstream, split}

-- io.reactivex and io.rsocket: what a request gives, the streams that only fail, a payload's metadata
-- as a buffer (`byteBufMetadata`), and the exception ServiceNotFound.
pub record Reactive (n : Netty) : Type 1 where
  pub Payload : Type 0
  pub Completable : Type 0
  pub Single : Type 0
  pub Flowable : Type 0
  pub completable_error : n.Throwable → Completable
  pub single_error : n.Throwable → Single
  pub flowable_error : n.Throwable → Flowable
  pub byte_buf_metadata : Payload → Result n.Throwable n.ByteBuf
  pub service_not_found : n.Text → n.Throwable

-- `RSocketRpcService`: a service's functions may throw.
pub record RSocketRpcService (n : Netty) (r : Reactive n) : Type 0 where
  pub service : n.Text
  pub fire_and_forget : r.Payload → Result n.Throwable r.Completable
  pub request_response : r.Payload → Result n.Throwable r.Single
  pub request_stream : r.Payload → Result n.Throwable r.Flowable
  pub request_channel : r.Payload → r.Flowable → Result n.Throwable r.Flowable

module _ (n : Netty) (r : Reactive n) where
  -- The map of registered services, as its function `get`.
  abbrev pub RegisteredServices : Type 0
  RegisteredServices = n.Text → Option (RSocketRpcService n r)

  unfoldable pub no_services : RegisteredServices
  no_services service = none

  unfoldable pub add_service : RSocketRpcService n r → RegisteredServices → RegisteredServices
  add_service rpc_service registered_services service =
      if n.same_text rpc_service.service service
      then some rpc_service
      else registered_services service

  -- The loop of `init`.
  unfoldable pub add_services :
      List (RSocketRpcService n r) → RegisteredServices → RegisteredServices
  unfolding add_service
  add_services [] registered_services = registered_services
  add_services (rpc_service ∷ services) registered_services =
      add_services services (add_service rpc_service registered_services)

  unfoldable pub request_handling_rsocket : List (RSocketRpcService n r) → RegisteredServices
  unfolding add_services no_services
  request_handling_rsocket services = add_services services no_services

  -- The service's name in a payload's metadata.
  unfoldable pub requested_service : r.Payload → Result n.Throwable n.Text
  requested_service payload = do metadata ← r.byte_buf_metadata payload; get_service n metadata

  -- Each of these gives its result and the payloads released by `ReferenceCountUtil.safeRelease`.
  unfoldable pub handle_fire_and_forget :
      RegisteredServices → r.Payload → r.Completable × List r.Payload
  unfolding requested_service
  handle_fire_and_forget registered_services payload = elim (requested_service payload) [
    | threw t ↦ (r.completable_error t, payload ∷ [])
    | ok service ↦ elim (registered_services service) [
      | none ↦ (r.completable_error (r.service_not_found service), payload ∷ [])
      | some rpc_service ↦ elim (rpc_service.fire_and_forget payload) [
        | ok result ↦ (result, [])
        | threw t ↦ (r.completable_error t, payload ∷ [])
      ]
    ]
  ]

  unfoldable pub handle_request_response :
      RegisteredServices → r.Payload → r.Single × List r.Payload
  unfolding requested_service
  handle_request_response registered_services payload = elim (requested_service payload) [
    | threw t ↦ (r.single_error t, payload ∷ [])
    | ok service ↦ elim (registered_services service) [
      | none ↦ (r.single_error (r.service_not_found service), payload ∷ [])
      | some rpc_service ↦ elim (rpc_service.request_response payload) [
        | ok result ↦ (result, [])
        | threw t ↦ (r.single_error t, payload ∷ [])
      ]
    ]
  ]

  unfoldable pub handle_request_stream :
      RegisteredServices → r.Payload → r.Flowable × List r.Payload
  unfolding requested_service
  handle_request_stream registered_services payload = elim (requested_service payload) [
    | threw t ↦ (r.flowable_error t, payload ∷ [])
    | ok service ↦ elim (registered_services service) [
      | none ↦ (r.flowable_error (r.service_not_found service), payload ∷ [])
      | some rpc_service ↦ elim (rpc_service.request_stream payload) [
        | ok result ↦ (result, [])
        | threw t ↦ (r.flowable_error t, payload ∷ [])
      ]
    ]
  ]

  -- The function given to `flatMap`.
  unfoldable pub handle_split :
      RegisteredServices → Split r.Payload r.Flowable → r.Flowable × List r.Payload
  unfolding requested_service
  handle_split registered_services split =
      let payload = split.head in
      let flow = split.tail in
      elim (requested_service payload) [
        | threw t ↦ (r.flowable_error t, payload ∷ [])
        | ok service ↦ elim (registered_services service) [
          | none ↦ (r.flowable_error (r.service_not_found service), payload ∷ [])
          | some rpc_service ↦ elim (rpc_service.request_channel payload flow) [
            | ok result ↦ (result, [])
            | threw t ↦ (r.flowable_error t, payload ∷ [])
          ]
        ]
      ]

  -- What `flatMap` is given for the effects of the splitter, one stream for each split.
  unfoldable pub handle_effects :
      RegisteredServices
      → List (Effect n.Throwable r.Payload r.Flowable)
      → List (r.Flowable × List r.Payload)
  unfolding handle_split
  handle_effects registered_services [] = []
  handle_effects registered_services (downstream (on_next split) ∷ effects) =
      handle_split registered_services split ∷ handle_effects registered_services effects
  handle_effects registered_services (effect ∷ effects) = handle_effects registered_services effects

  -- `rest` is the splitter's processor, `signals` what the publisher of the payloads signals.
  unfoldable pub handle_request_channel :
      RegisteredServices
      → r.Flowable
      → List (Signal n.Throwable r.Payload)
      → List (r.Flowable × List r.Payload)
  unfolding handle_effects
  handle_request_channel registered_services rest signals =
      handle_effects registered_services (split rest signals)
