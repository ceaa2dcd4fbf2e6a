-- ===== src/Tests/Services.antt =====
-- Services, a file and what the build defines.
use rsocket_rpc_kotlin.Base.{
  ℕ, Bytes, codes, Bool, Bool-cases, inl, inr, true, false, [], ◌∷◌, none, some, ◌≡◌, ◌==◌, Lacks,
  arith, if◌then◌else◌,
}
use rsocket_rpc_kotlin.Descriptor.{
  FileDescriptor, MethodDescriptor, ServiceDescriptor, Protobuf, Macros,
}

-- Class names are full names, and a parameter is one key.
abbrev pub protobuf : Protobuf
protobuf = record {
  message_class_name = λ d. d.full_name;
  file_class_name = λ f. codes "io.example.ExampleProto";
  parse_generator_parameter = λ p. (p, []) ∷ [];
}

-- What the build defines.
abbrev pub gradle : Macros
gradle = record { rsocket_rpc_version = none; upper_rsocket_rpc_version = some (codes "0.2.13") }

abbrev pub file : FileDescriptor
file = record { name = codes "example.proto"; package_name = codes "io.example"; java_options = [] }

abbrev pub method : Bytes → Bool → Bool → Bool → MethodDescriptor
method name cs ss ff = record {
  name = name;
  input_type = record { full_name = codes "io.example.Request" };
  output_type = record { full_name = codes "io.example.Response" };
  client_streaming = cs;
  server_streaming = ss;
  options = record { fire_and_forget = ff };
  location =
      some (record { leading_comments = codes " Ends */ here\n/\n"; trailing_comments = [] });
}

abbrev pub channel : MethodDescriptor
channel = method (codes "Channel") true true false

abbrev pub service : ServiceDescriptor
service = record {
  name = codes "Example";
  file = file;
  methods =
      method (codes "RequestResponse") false false false
      ∷ method (codes "RequestStream") false true false
      ∷ method (codes "StreamRequest") true false false
      ∷ channel
      ∷ method (codes "FireAndForget") false false true
      ∷ [];
  location = some (record { leading_comments = []; trailing_comments = codes "/* <b> @see" });
}

-- A service without streams.
abbrev pub plain_service : ServiceDescriptor
plain_service = record service { methods = method (codes "Call") false false false ∷ [] }

-- A service whose second method is a channel.
abbrev pub channel_service : ServiceDescriptor
channel_service = record service {
  methods = method (codes "Call") false false false ∷ channel ∷ [];
}

abbrev lacks_byte : ℕ → Bytes → Bool
lacks_byte b [] = true
lacks_byte b (c ∷ s) = if c == b then false else lacks_byte b s

pub lacks : (b : ℕ) (s : Bytes) → lacks_byte b s ≡ true → Lacks b s
lacks b [] h = tt
lacks b (c ∷ s) h = elim (Bool-cases (c == b)) [
  | inl e ↦ absurd (ground arith)
  | inr e ↦ (ground arith, lacks b s (ground arith))
]
