-- ===== src/Server/Kinds/Sorted.antt =====
-- What the four vectors hold.
use mathlib.Core.List.{Perm, perm_middle, perm_append_singleton}
use mathlib.Core.List.Perm
use rsocket_rpc_kotlin.Base.{
  Bool, true, false, List, [], ◌∷◌, ◌++◌, ◌≡◌, arith, All, All-append, append_assoc, append-nil,
}
use rsocket_rpc_kotlin.Descriptor.{MethodDescriptor}
use rsocket_rpc_kotlin.Server.Kinds.{Kinds, push_kind, push_method, push_methods, sort_methods}

-- A method that takes no stream and returns none, and whose options say fire-and-forget.
abbrev pub IsFireAndForget : MethodDescriptor → Type 0
IsFireAndForget m =
    (m.client_streaming ≡ false) × (m.server_streaming ≡ false) × (m.options.fire_and_forget ≡ true)

-- The same with other options.
abbrev pub IsRequestResponse : MethodDescriptor → Type 0
IsRequestResponse m =
    (m.client_streaming ≡ false)
    × (m.server_streaming ≡ false)
    × (m.options.fire_and_forget ≡ false)

abbrev pub IsRequestStream : MethodDescriptor → Type 0
IsRequestStream m = (m.client_streaming ≡ false) × (m.server_streaming ≡ true)

abbrev pub IsRequestChannel : MethodDescriptor → Type 0
IsRequestChannel m = m.client_streaming ≡ true

-- All methods that have been sorted.
abbrev pub all_methods : Kinds → List MethodDescriptor
all_methods k = k.fire_and_forget ++ (k.request_response ++ (k.request_stream ++ k.request_channel))

-- Each vector holds methods of its kind.
pub record AreSorted (k : Kinds) : Type 0 where
  pub fire_and_forget : All IsFireAndForget k.fire_and_forget
  pub request_response : All IsRequestResponse k.request_response
  pub request_stream : All IsRequestStream k.request_stream
  pub request_channel : All IsRequestChannel k.request_channel

push_method-AreSorted :
    (m : MethodDescriptor) (k : Kinds) → AreSorted k → AreSorted (push_method m k)
unfolding push_method
push_method-AreSorted m k h = ground (
  arith,
  All-append IsFireAndForget k.fire_and_forget (m ∷ []),
  All-append IsRequestResponse k.request_response (m ∷ []),
  All-append IsRequestStream k.request_stream (m ∷ []),
  All-append IsRequestChannel k.request_channel (m ∷ []),
)

snoc_at :
    (m : MethodDescriptor) (xs ys zs : List MethodDescriptor)
    → Perm (xs ++ ((ys ++ m ∷ []) ++ zs)) (m ∷ (xs ++ (ys ++ zs)))
snoc_at m xs ys zs =
    rw (append_assoc ys (m ∷ []) zs, ← append_assoc xs ys (m ∷ zs), ← append_assoc xs ys zs)
      (perm_middle (xs ++ ys) zs)

push_kind-perm :
    (cs ss ff : Bool) (m : MethodDescriptor) (k : Kinds)
    → Perm (all_methods (push_kind cs ss ff m k)) (m ∷ all_methods k)
unfolding push_kind
push_kind-perm true ss ff m k =
    let xs = k.fire_and_forget in
    let ys = k.request_response in
    let zs = k.request_stream in
    rw
      (
        ← append_assoc ys zs (k.request_channel ++ m ∷ []),
        ← append_assoc xs (ys ++ zs) (k.request_channel ++ m ∷ []),
        ← append_assoc (xs ++ (ys ++ zs)) k.request_channel (m ∷ []),
      )
      (rw (append_assoc xs (ys ++ zs) k.request_channel, append_assoc ys zs k.request_channel)
        (perm_append_singleton m _))
push_kind-perm false true ff m k =
    let xs = k.fire_and_forget in
    let ys = k.request_response in
    rw
      (
        ← append_assoc xs ys ((k.request_stream ++ m ∷ []) ++ k.request_channel),
        ← append_assoc xs ys (k.request_stream ++ k.request_channel),
      )
      (snoc_at m (xs ++ ys) k.request_stream k.request_channel)
push_kind-perm false false true m k = snoc_at m [] k.fire_and_forget _
push_kind-perm false false false m k = snoc_at m k.fire_and_forget k.request_response _

push_method-perm :
    (m : MethodDescriptor) (k : Kinds) → Perm (all_methods (push_method m k)) (m ∷ all_methods k)
unfolding push_method
push_method-perm m k =
    push_kind-perm m.client_streaming m.server_streaming m.options.fire_and_forget m k

push_methods_lem :
    (ms : List MethodDescriptor) (k : Kinds)
    → AreSorted k
    → AreSorted (push_methods ms k) × Perm (all_methods (push_methods ms k)) (ms ++ all_methods k)
unfolding push_methods
push_methods_lem [] k h = (h, Perm.refl _)
push_methods_lem (m ∷ ms) k h =
    let (sorted, perm) = push_methods_lem ms (push_method m k) (push_method-AreSorted m k h) in
    (
      sorted,
      Perm.trans perm (
          Perm.trans (Perm.append_left ms (push_method-perm m k)) (perm_middle ms (all_methods k))),
    )

-- Every method of a service comes into exactly one of the four vectors, as often as it is declared,
-- and each vector holds methods of its kind alone: a method that takes a stream is a channel,
-- whatever it returns and whatever its options say, and the option for fire-and-forget counts only
-- where no side is a stream.
pub sort_methods_lem :
    (methods : List MethodDescriptor)
    → AreSorted (sort_methods methods) × Perm (all_methods (sort_methods methods)) methods
unfolding sort_methods
sort_methods_lem methods =
    let (sorted, perm) =
      push_methods_lem methods
        (record {
          fire_and_forget = [];
          request_response = [];
          request_stream = [];
          request_channel = [];
        })
        (record {
          fire_and_forget = tt;
          request_response = tt;
          request_stream = tt;
          request_channel = tt;
        }) in
    (sorted, rw append-nil at perm)
