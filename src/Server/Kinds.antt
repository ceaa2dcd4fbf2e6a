-- ===== src/Server/Kinds.antt =====
-- The four vectors of methods in `PrintServer` of kotlin_generator.cpp
-- (rsocket-rpc-protobuf/src/kotlin_plugin/cpp/kotlin_generator.cpp).
pub mod Sorted
use rsocket_rpc_kotlin.Base.{Bool, List, [], ◌∷◌, ◌++◌, if◌then◌else◌}
use rsocket_rpc_kotlin.Descriptor.{MethodDescriptor}

pub record Kinds : Type 0 where
  pub fire_and_forget : List MethodDescriptor
  pub request_response : List MethodDescriptor
  pub request_stream : List MethodDescriptor
  pub request_channel : List MethodDescriptor

-- `push_back` into one of the vectors, by `client_streaming`, `server_streaming` and the options.
unfoldable pub push_kind : Bool → Bool → Bool → MethodDescriptor → Kinds → Kinds
push_kind client_streaming server_streaming fire_and_forget method kinds =
    if client_streaming
    then record kinds { request_channel = kinds.request_channel ++ method ∷ [] }
    else if server_streaming
    then record kinds { request_stream = kinds.request_stream ++ method ∷ [] }
    else if fire_and_forget
    then record kinds { fire_and_forget = kinds.fire_and_forget ++ method ∷ [] }
    else record kinds { request_response = kinds.request_response ++ method ∷ [] }

-- One round of the loop.
unfoldable pub push_method : MethodDescriptor → Kinds → Kinds
unfolding push_kind
push_method method =
    push_kind method.client_streaming method.server_streaming method.options.fire_and_forget method

unfoldable pub push_methods : List MethodDescriptor → Kinds → Kinds
push_methods [] kinds = kinds
push_methods (method ∷ methods) kinds = push_methods methods (push_method method kinds)

unfoldable pub sort_methods : List MethodDescriptor → Kinds
unfolding push_methods push_method
sort_methods methods = push_methods methods (record {
  fire_and_forget = [];
  request_response = [];
  request_stream = [];
  request_channel = [];
})
