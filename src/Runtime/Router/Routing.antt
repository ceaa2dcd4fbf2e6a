-- ===== src/Runtime/Router/Routing.antt =====
-- Which of the registered services takes a request.
use rsocket_rpc_kotlin.Base.{
  ◌<◌, List, [], ◌∷◌, ◌++◌, none, some, ◌≡◌, ◌≢◌, refl, ap, ◌∙◌, length, All, Bool-cases, inl, inr,
}
use rsocket_rpc_kotlin.Runtime.Common.{Result, ok, threw, ◌^◌}
use rsocket_rpc_kotlin.Runtime.Netty.{Netty, Documented, unread}
use rsocket_rpc_kotlin.Runtime.Metadata.{encode}
use rsocket_rpc_kotlin.Runtime.Metadata.Frame.{bind_ok}
use rsocket_rpc_kotlin.Runtime.Metadata.RoundTrip.{encode_round_trip}
use rsocket_rpc_kotlin.Runtime.Splitter.{Split}
use rsocket_rpc_kotlin.Runtime.Router.{
  Reactive, RSocketRpcService, RegisteredServices, add_service, add_services,
  request_handling_rsocket, no_services, requested_service, handle_fire_and_forget,
  handle_request_response, handle_request_stream, handle_split,
}

module _ (n : Netty) (r : Reactive n) where
  -- A service's answer to a payload, and the payload released where it throws.
  abbrev pub settle {ℓ} :
      {X : Type ℓ} → (n.Throwable → X) → r.Payload → Result n.Throwable X → X × List r.Payload
  settle error payload (ok result) = (result, [])
  settle error payload (threw t) = (error t, payload ∷ [])

  -- The four handlers in one: `call` is what they call of a service.
  abbrev pub route {ℓ} :
      {X : Type ℓ}
      → (n.Throwable → X)
      → (RSocketRpcService n r → Result n.Throwable X)
      → RegisteredServices n r
      → r.Payload
      → X × List r.Payload
  route error call registered_services payload = elim (requested_service n r payload) [
    | threw t ↦ (error t, payload ∷ [])
    | ok service ↦ elim (registered_services service) [
      | none ↦ (error (r.service_not_found service), payload ∷ [])
      | some rpc_service ↦ settle error payload (call rpc_service)
    ]
  ]

  module _ (table : RegisteredServices n r) where
    pub fire_and_forget-route :
        (payload : r.Payload)
        → handle_fire_and_forget n r table payload
          ≡ route r.completable_error (λ s. s.fire_and_forget payload) table payload
    unfolding handle_fire_and_forget
    fire_and_forget-route payload = refl

    pub request_response-route :
        (payload : r.Payload)
        → handle_request_response n r table payload
          ≡ route r.single_error (λ s. s.request_response payload) table payload
    unfolding handle_request_response
    request_response-route payload = refl

    pub request_stream-route :
        (payload : r.Payload)
        → handle_request_stream n r table payload
          ≡ route r.flowable_error (λ s. s.request_stream payload) table payload
    unfolding handle_request_stream
    request_stream-route payload = refl

    pub split-route :
        (split : Split r.Payload r.Flowable)
        → handle_split n r table split
          ≡ route r.flowable_error (λ s. s.request_channel split.head split.tail) table split.head
    unfolding handle_split
    split-route split = refl

  module _ (laws : Documented n) where
    add_service-same :
        (s : RSocketRpcService n r) (table : RegisteredServices n r)
        → add_service n r s table s.service ≡ some s
    unfolding add_service
    add_service-same s table = rw (laws.same_text_complete s.service) refl

    add_service-other :
        (s : RSocketRpcService n r) (table : RegisteredServices n r) (name : n.Text)
        → s.service ≢ name
        → add_service n r s table name ≡ table name
    unfolding add_service
    add_service-other s table name h = elim (Bool-cases (n.same_text s.service name)) [
      | inl e ↦ absurd (h (laws.same_text_sound s.service name e))
      | inr e ↦ rw e refl
    ]

    add_services-other :
        (services : List (RSocketRpcService n r)) (table : RegisteredServices n r) (name : n.Text)
        → All (λ s. s.service ≢ name) services
        → add_services n r services table name ≡ table name
    unfolding add_services
    add_services-other [] table name h = refl
    add_services-other (s ∷ services) table name (h, hs) =
        add_services-other services (add_service n r s table) name hs
        ∙ add_service-other s table name h

    add_services-last :
        (before : List (RSocketRpcService n r)) (s : RSocketRpcService n r)
        (after : List (RSocketRpcService n r)) (table : RegisteredServices n r)
        → All (λ s'. s'.service ≢ s.service) after
        → add_services n r (before ++ (s ∷ after)) table s.service ≡ some s
    unfolding add_services
    add_services-last [] s after table h =
        add_services-other after _ s.service h ∙ add_service-same s table
    add_services-last (s' ∷ before) s after table h = add_services-last before s after _ h

    route-some :
        {X : Type 0} (error : n.Throwable → X) (call : RSocketRpcService n r → Result n.Throwable X)
        (table : RegisteredServices n r) (payload : r.Payload) (name : n.Text)
        (s : RSocketRpcService n r)
        → requested_service n r payload ≡ ok name
        → table name ≡ some s
        → route error call table payload ≡ settle error payload (call s)
    route-some error call table payload name s e t = rw (route, e, t) refl

    route-none :
        {X : Type 0} (error : n.Throwable → X) (call : RSocketRpcService n r → Result n.Throwable X)
        (table : RegisteredServices n r) (payload : r.Payload) (name : n.Text)
        → requested_service n r payload ≡ ok name
        → table name ≡ none
        → route error call table payload ≡ (error (r.service_not_found name), payload ∷ [])
    route-none error call table payload name e t = rw (route, e, t) refl

    -- A payload whose metadata are a frame for a service asks for that service.
    pub requested_service-encode :
        (service method : n.Text) (tracing metadata frame after arrived : n.ByteBuf)
        (payload : r.Payload)
        → length (n.utf8 service) < 2 ^ 15
        → length (n.utf8 method) < 2 ^ 15
        → length (unread n tracing) < 2 ^ 15
        → length (unread n metadata) < 2 ^ 30
        → n.text (n.utf8 service) ≡ service
        → encode n service method tracing metadata ≡ ok (frame, after)
        → r.byte_buf_metadata payload ≡ ok arrived
        → n.content arrived ≡ n.content frame
        → n.reader_index arrived ≡ 0
        → requested_service n r payload ≡ ok service
    unfolding requested_service
    requested_service-encode service method tracing metadata frame after arrived payload hs hm ht hd
          u e p c z =
        let (_, name, _, _, _) =
          encode_round_trip n laws service method tracing metadata frame after arrived hs hm ht hd e
            c in
        bind_ok arrived _ p (name ∙ ap ok u)

    -- A request whose metadata name a service is answered by the service of that name that was
    -- registered last, whatever was registered before: the handler gives what the service's function
    -- gives for the payload, and releases the payload if and only if that function throws, which becomes
    -- the error of the result. A channel's payload goes there with the stream of the others.
    pub requests_reach_last :
        (before after : List (RSocketRpcService n r)) (s : RSocketRpcService n r)
        (payload : r.Payload) (flow : r.Flowable)
        → All (λ s'. s'.service ≢ s.service) after
        → requested_service n r payload ≡ ok s.service
        → (let table = request_handling_rsocket n r (before ++ (s ∷ after)) in
            (handle_fire_and_forget n r table payload
              ≡ settle r.completable_error payload (s.fire_and_forget payload))
            × (handle_request_response n r table payload
                ≡ settle r.single_error payload (s.request_response payload))
            × (handle_request_stream n r table payload
                ≡ settle r.flowable_error payload (s.request_stream payload))
            × (handle_split n r table (record { head = payload; tail = flow })
                ≡ settle r.flowable_error payload (s.request_channel payload flow)))
    unfolding request_handling_rsocket
    requests_reach_last before after s payload flow h e =
        let table = request_handling_rsocket n r (before ++ (s ∷ after)) in
        let found : table s.service ≡ some s =
          add_services-last before s after (no_services n r) h in
        (
          fire_and_forget-route table payload
              ∙ route-some r.completable_error (λ s. s.fire_and_forget payload) table payload
                  s.service s e found,
          request_response-route table payload
              ∙ route-some r.single_error (λ s. s.request_response payload) table payload s.service
                  s e found,
          request_stream-route table payload
              ∙ route-some r.flowable_error (λ s. s.request_stream payload) table payload s.service
                  s e found,
          split-route table (record { head = payload; tail = flow })
              ∙ route-some r.flowable_error (λ s. s.request_channel payload flow) table payload
                  s.service s e found,
        )

    -- A request for a service that is not registered fails with ServiceNotFound of its name, and its
    -- payload is released once, in each of the four handlers.
    pub requests_unknown :
        (services : List (RSocketRpcService n r)) (name : n.Text) (payload : r.Payload)
        (flow : r.Flowable)
        → All (λ s. s.service ≢ name) services
        → requested_service n r payload ≡ ok name
        → (let table = request_handling_rsocket n r services in
            let not_found = r.service_not_found name in
            (handle_fire_and_forget n r table payload
              ≡ (r.completable_error not_found, payload ∷ []))
            × (handle_request_response n r table payload ≡ (r.single_error not_found, payload ∷ []))
            × (handle_request_stream n r table payload ≡ (r.flowable_error not_found, payload ∷ []))
            × (handle_split n r table (record { head = payload; tail = flow })
                ≡ (r.flowable_error not_found, payload ∷ [])))
    unfolding request_handling_rsocket no_services
    requests_unknown services name payload flow h e =
        let table = request_handling_rsocket n r services in
        let missing : table name ≡ none = add_services-other services (no_services n r) name h in
        (
          fire_and_forget-route table payload
              ∙ route-none r.completable_error (λ s. s.fire_and_forget payload) table payload name e
                  missing,
          request_response-route table payload
              ∙ route-none r.single_error (λ s. s.request_response payload) table payload name e
                  missing,
          request_stream-route table payload
              ∙ route-none r.flowable_error (λ s. s.request_stream payload) table payload name e
                  missing,
          split-route table (record { head = payload; tail = flow })
              ∙ route-none r.flowable_error (λ s. s.request_channel payload flow) table payload name
                  e missing,
        )
