-- ===== src/Runtime/Router/Delivery.antt =====
-- From the client's call of `encode` to the service.
use rsocket_rpc_kotlin.Base.{◌<◌, List, ◌∷◌, ◌++◌, ◌≡◌, ◌≢◌, length, All}
use rsocket_rpc_kotlin.Runtime.Common.{ok, ◌^◌}
use rsocket_rpc_kotlin.Runtime.Netty.{Netty, Documented, unread}
use rsocket_rpc_kotlin.Runtime.Metadata.{encode}
use rsocket_rpc_kotlin.Runtime.Router.{
  Reactive, RSocketRpcService, request_handling_rsocket, handle_fire_and_forget,
  handle_request_response, handle_request_stream, handle_split,
}
use rsocket_rpc_kotlin.Runtime.Router.Routing.{
  settle, requested_service-encode, requests_reach_last,
}

-- A request whose metadata `encode` made for a service, whatever its method, tracing and metadata are,
-- is answered at the other end by the service of that name that was registered last, whatever was
-- registered before: the handler gives what the service's function gives for the payload, and releases
-- the payload if and only if that function throws, which becomes the error of the result. A channel's
-- payload goes there with the stream of the others. The service's name is what its bytes in UTF-8 stand
-- for; it, the method and the tracing have less than 2 ^ 15 bytes, the metadata less than 2 ^ 30.
pub encoded_requests_reach_last :
    (n : Netty) (r : Reactive n) (laws : Documented n)
    (before behind : List (RSocketRpcService n r)) (s : RSocketRpcService n r) (method : n.Text)
    (tracing metadata frame after arrived : n.ByteBuf) (payload : r.Payload) (flow : r.Flowable)
    → All (λ s'. s'.service ≢ s.service) behind
    → length (n.utf8 s.service) < 2 ^ 15
    → length (n.utf8 method) < 2 ^ 15
    → length (unread n tracing) < 2 ^ 15
    → length (unread n metadata) < 2 ^ 30
    → n.text (n.utf8 s.service) ≡ s.service
    → encode n s.service method tracing metadata ≡ ok (frame, after)
    → r.byte_buf_metadata payload ≡ ok arrived
    → n.content arrived ≡ n.content frame
    → n.reader_index arrived ≡ 0
    → (let table = request_handling_rsocket n r (before ++ (s ∷ behind)) in
        (handle_fire_and_forget n r table payload
          ≡ settle n r r.completable_error payload (s.fire_and_forget payload))
        × (handle_request_response n r table payload
            ≡ settle n r r.single_error payload (s.request_response payload))
        × (handle_request_stream n r table payload
            ≡ settle n r r.flowable_error payload (s.request_stream payload))
        × (handle_split n r table (record { head = payload; tail = flow })
            ≡ settle n r r.flowable_error payload (s.request_channel payload flow)))
encoded_requests_reach_last n r laws before behind s method tracing metadata frame after arrived
      payload flow others hs hm ht hd u e p c z =
    requests_reach_last n r laws before behind s payload flow others (
      requested_service-encode n r laws s.service method tracing metadata frame after arrived
        payload hs hm ht hd u e p c z)
