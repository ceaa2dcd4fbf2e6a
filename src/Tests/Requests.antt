-- ===== src/Tests/Requests.antt =====
-- The theorems on requests, at services that answer with a number or throw.
use rsocket_rpc_kotlin.Base.{ℕ, ◌+◌, Bytes, codes, List, [], ◌∷◌, ◌≡◌, refl, ap, arith}
use rsocket_rpc_kotlin.Tests.Buffers.{
  Failure, index_out_of_bounds, missing, Buffer, buffers, buffers-Documented,
}
use rsocket_rpc_kotlin.Runtime.Common.{ok, threw}
use rsocket_rpc_kotlin.Runtime.Metadata.{get_service}
use rsocket_rpc_kotlin.Tests.Frames.{
  first_byte, tracing, metadata, frame, read_tracing, frame_encoded,
}
use rsocket_rpc_kotlin.Runtime.Splitter.{on_next, on_error, on_complete, split}
use rsocket_rpc_kotlin.Runtime.Splitter.Laws.{
  completed, failed, rest_signals, downstream_signals, splits_first,
}
use rsocket_rpc_kotlin.Runtime.Router.{
  Reactive, RSocketRpcService, request_handling_rsocket, requested_service, handle_fire_and_forget,
  handle_request_response, handle_request_stream, handle_split, handle_request_channel,
}
use rsocket_rpc_kotlin.Runtime.Router.Routing.{requests_unknown}
use rsocket_rpc_kotlin.Runtime.Router.Delivery.{encoded_requests_reach_last}
use rsocket_rpc_kotlin.Runtime.Router.Release.{IsAccounted, payload_released_or_handed}
use rsocket_rpc_kotlin.Runtime.Router.Channel.{channel_reaches_last}

splits_first_example :
    (downstream_signals {E = ℕ} {Payload = ℕ} {Flow = ℕ}
        (split 0 (on_next 7 ∷ on_next 8 ∷ on_next 9 ∷ on_error 1 ∷ []))
      ≡ on_next (record { head = 7; tail = 0 }) ∷ on_error 1 ∷ [])
    × (rest_signals {E = ℕ} {Payload = ℕ} {Flow = ℕ}
          (split 0 (on_next 7 ∷ on_next 8 ∷ on_next 9 ∷ on_error 1 ∷ []))
        ≡ on_next 8 ∷ on_next 9 ∷ on_error 1 ∷ [])
splits_first_example = splits_first 0 (7 ∷ 8 ∷ 9 ∷ []) (failed 1)

pub data Outcome : Type 0 where
  answered : ℕ → Outcome
  failure : Failure → Outcome
  rest_of_channel : Outcome

abbrev reactive : Reactive buffers
reactive = record {
  Payload = Buffer;
  Completable = Outcome;
  Single = Outcome;
  Flowable = Outcome;
  completable_error = failure;
  single_error = failure;
  flowable_error = failure;
  byte_buf_metadata = ok;
  service_not_found = missing;
}

abbrev service_of : Bytes → ℕ → RSocketRpcService buffers reactive
service_of name number = record {
  service = name;
  fire_and_forget = λ payload. ok (answered number);
  request_response = λ payload. threw index_out_of_bounds;
  request_stream = λ payload. ok (answered (number + 1));
  request_channel = λ payload flow. ok flow;
}

abbrev services : List (RSocketRpcService buffers reactive)
services = service_of (codes "a") 1 ∷ service_of (codes "a") 2 ∷ service_of (codes "b") 3 ∷ []

abbrev others : List (RSocketRpcService buffers reactive)
others = service_of (codes "b") 3 ∷ []

asks_for_a : requested_service buffers reactive frame ≡ ok (codes "a")
unfolding requested_service get_service
asks_for_a = refl

encoded_requests_reach_last_example :
    (let table = request_handling_rsocket buffers reactive services in
      (handle_fire_and_forget buffers reactive table frame ≡ (answered 2, []))
      × (handle_request_response buffers reactive table frame
          ≡ (failure index_out_of_bounds, frame ∷ []))
      × (handle_request_stream buffers reactive table frame ≡ (answered 3, []))
      × (handle_split buffers reactive table (record { head = frame; tail = rest_of_channel })
          ≡ (rest_of_channel, [])))
encoded_requests_reach_last_example =
    encoded_requests_reach_last buffers reactive buffers-Documented (service_of (codes "a") 1 ∷ [])
      others (service_of (codes "a") 2) (codes "b") tracing metadata frame read_tracing frame frame
      rest_of_channel (λ e. absurd (omega (arith, ap first_byte e)), tt) (omega arith) (omega arith)
      (omega arith) (omega arith) refl frame_encoded refl refl refl

requests_unknown_example :
    (let table = request_handling_rsocket buffers reactive others in
      let not_found = failure (missing (codes "a")) in
      (handle_fire_and_forget buffers reactive table frame ≡ (not_found, frame ∷ []))
      × (handle_request_response buffers reactive table frame ≡ (not_found, frame ∷ []))
      × (handle_request_stream buffers reactive table frame ≡ (not_found, frame ∷ []))
      × (handle_split buffers reactive table (record { head = frame; tail = rest_of_channel })
          ≡ (not_found, frame ∷ [])))
requests_unknown_example =
    requests_unknown buffers reactive buffers-Documented others (codes "a") frame rest_of_channel
      (λ e. absurd (omega (arith, ap first_byte e)), tt) asks_for_a

payload_released_or_handed_example :
    (let table = request_handling_rsocket buffers reactive services in
      let answers = IsAccounted buffers reactive table failure in
      answers
        (λ s. s.fire_and_forget frame)
        frame
        (handle_fire_and_forget buffers reactive table frame)
      × answers
          (λ s. s.request_response frame)
          frame
          (handle_request_response buffers reactive table frame)
      × answers
          (λ s. s.request_stream frame)
          frame
          (handle_request_stream buffers reactive table frame)
      × answers
          (λ s. s.request_channel frame rest_of_channel)
          frame
          (handle_split buffers reactive table (record { head = frame; tail = rest_of_channel })))
payload_released_or_handed_example =
    payload_released_or_handed buffers reactive (request_handling_rsocket buffers reactive services)
      (record { head = frame; tail = rest_of_channel })

channel_reaches_last_example :
    (handle_request_channel buffers reactive
        (request_handling_rsocket buffers reactive services)
        rest_of_channel
        (on_next frame ∷ on_next metadata ∷ on_complete ∷ [])
      ≡ (rest_of_channel, []) ∷ [])
    × (rest_signals {E = Failure}
          (split rest_of_channel (on_next frame ∷ on_next metadata ∷ on_complete ∷ []))
        ≡ on_next metadata ∷ on_complete ∷ [])
channel_reaches_last_example =
    channel_reaches_last buffers reactive buffers-Documented (service_of (codes "a") 1 ∷ []) others
      (service_of (codes "a") 2) rest_of_channel frame (metadata ∷ []) completed
      (λ e. absurd (omega (arith, ap first_byte e)), tt) asks_for_a
