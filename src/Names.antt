-- ===== src/Names.antt =====
-- The names that kotlin_generator.cpp makes from those of a .proto file
-- (rsocket-rpc-protobuf/src/kotlin_plugin/cpp/kotlin_generator.cpp).
pub mod Laws
use rsocket_rpc_kotlin.Base.{
  ℕ, ◌+◌, ◌-◌, Bytes, codes, Bool, true, false, List, [], ◌∷◌, ◌++◌, ◌==◌, ◌&&◌, leb, if◌then◌else◌,
}
use rsocket_rpc_kotlin.Descriptor.{MethodDescriptor, ServiceDescriptor, Descriptor, Protobuf}

-- The functions of <cctype> in the "C" locale.
unfoldable pub isupper : ℕ → Bool
isupper c = leb b'A' c && leb c b'Z'

unfoldable pub islower : ℕ → Bool
islower c = leb b'a' c && leb c b'z'

unfoldable pub tolower : ℕ → ℕ
unfolding isupper
tolower c = if isupper c then c + 32 else c

unfoldable pub toupper : ℕ → ℕ
unfolding islower
toupper c = if islower c then c - 32 else c

-- The loop of `MixedLower` from the second byte on.
unfoldable pub mixed_lower_loop : Bytes → Bool → Bytes
mixed_lower_loop [] after_underscore = []
mixed_lower_loop (c ∷ s) after_underscore =
    let rest = mixed_lower_loop s (c == b'_') in
    if c == b'_' then rest else (if after_underscore then toupper c else c) ∷ rest

-- `word[0]` of the empty string is the terminating zero byte.
unfoldable pub mixed_lower : Bytes → Bytes
unfolding mixed_lower_loop
mixed_lower [] = tolower 0 ∷ []
mixed_lower (c ∷ s) = tolower c ∷ mixed_lower_loop s false

-- `word[i]` and `word[i + 1]` are a lower and an upper case letter. In the last round there is no
-- `word[i + 1]`.
unfoldable pub breaks_before : ℕ → Bytes → Bool
breaks_before c [] = false
breaks_before c (d ∷ s) = islower c && isupper d

unfoldable pub to_all_upper_case : Bytes → Bytes
unfolding breaks_before
to_all_upper_case [] = []
to_all_upper_case (c ∷ s) =
    let rest = to_all_upper_case s in toupper c ∷ (if breaks_before c s then b'_' ∷ rest else rest)

unfoldable pub lower_method_name : MethodDescriptor → Bytes
lower_method_name method = mixed_lower method.name

unfoldable pub method_field_name : MethodDescriptor → Bytes
method_field_name method = codes "METHOD_" ++ to_all_upper_case method.name

unfoldable pub message_full_kotlin_name : Protobuf → Descriptor → Bytes
message_full_kotlin_name pb desc = pb.message_class_name desc

unfoldable pub service_field_name : ServiceDescriptor → Bytes
service_field_name service = codes "SERVICE"

unfoldable pub client_class_name : ServiceDescriptor → Bytes
client_class_name service = service.name ++ codes "Client"

unfoldable pub server_class_name : ServiceDescriptor → Bytes
server_class_name service = service.name ++ codes "Server"
