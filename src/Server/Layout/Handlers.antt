-- ===== src/Server/Layout/Handlers.antt =====
-- The layout of the request handlers.
use rsocket_rpc_kotlin.Base.{ℕ, suc, Bytes, Bool, true, false, List, [], ◌∷◌, refl}
use rsocket_rpc_kotlin.Printer.Meter.{meter, Runs-append, Runs-each, Lays, layout_step}
use rsocket_rpc_kotlin.Descriptor.{MethodDescriptor, Protobuf}
use rsocket_rpc_kotlin.Server.Kinds.{Kinds}
use rsocket_rpc_kotlin.Server.Handlers.{
  fire_and_forget_begin, fire_and_forget_none, fire_and_forget_try, fire_and_forget_case,
  fire_and_forget_catch, fire_and_forget_handler, request_response_begin, request_response_none,
  request_response_try, request_response_case, request_response_catch, request_response_handler,
  request_stream_begin, request_stream_none, request_stream_try, request_stream_case,
  request_stream_catch, request_stream_handler, server_handlers,
}
use rsocket_rpc_kotlin.Server.Channels.{
  request_channel_begin, request_channel_none, request_channel_try, request_channel_message,
  request_channel_return, request_channel_case_end, request_channel_case, request_channel_catch,
  request_channel_handler, split_channel_begin, split_channel_none, split_channel_call,
  split_channel_handler, handler_end,
}

-- One `Indent()` is left open if there is a method of the kind.
abbrev pub left_open : List MethodDescriptor → ℕ → ℕ
left_open [] n = n
left_open (m ∷ ms) n = suc n

module _ (n u : ℕ) (s : Bytes) where
  handler_end-Lays : Lays (suc n, u, b'{' ∷ s) handler_end (n, u, s)
  unfolding meter layout_step handler_end
  handler_end-Lays = record { ran = refl }

  fire_and_forget_begin-Lays : Lays (n, u, s) fire_and_forget_begin (suc n, u, b'{' ∷ s)
  unfolding meter layout_step fire_and_forget_begin
  fire_and_forget_begin-Lays = record { ran = refl }

  fire_and_forget_none-Lays : Lays (n, u, s) fire_and_forget_none (n, u, s)
  unfolding meter layout_step fire_and_forget_none
  fire_and_forget_none-Lays = record { ran = refl }

  fire_and_forget_try-Lays : Lays (n, u, s) fire_and_forget_try (suc (suc n), u, b'{' ∷ b'{' ∷ s)
  unfolding meter layout_step fire_and_forget_try
  fire_and_forget_try-Lays = record { ran = refl }

  fire_and_forget_case-Lays :
      (pb : Protobuf) (m : MethodDescriptor) → Lays (n, u, s) (fire_and_forget_case pb m) (n, u, s)
  unfolding meter layout_step fire_and_forget_case
  fire_and_forget_case-Lays pb m = record { ran = refl }

  fire_and_forget_catch-Lays :
      Lays (suc (suc n), u, b'{' ∷ b'{' ∷ s) fire_and_forget_catch (n, u, s)
  unfolding meter layout_step fire_and_forget_catch
  fire_and_forget_catch-Lays = record { ran = refl }

  request_response_begin-Lays : Lays (n, u, s) request_response_begin (suc n, u, b'{' ∷ s)
  unfolding meter layout_step request_response_begin
  request_response_begin-Lays = record { ran = refl }

  request_response_none-Lays : Lays (n, u, s) request_response_none (n, u, s)
  unfolding meter layout_step request_response_none
  request_response_none-Lays = record { ran = refl }

  request_response_try-Lays : Lays (n, u, s) request_response_try (suc (suc n), u, b'{' ∷ b'{' ∷ s)
  unfolding meter layout_step request_response_try
  request_response_try-Lays = record { ran = refl }

  request_response_case-Lays :
      (pb : Protobuf) (m : MethodDescriptor) → Lays (n, u, s) (request_response_case pb m) (n, u, s)
  unfolding meter layout_step request_response_case
  request_response_case-Lays pb m = record { ran = refl }

  request_response_catch-Lays :
      Lays (suc (suc n), u, b'{' ∷ b'{' ∷ s) request_response_catch (n, u, s)
  unfolding meter layout_step request_response_catch
  request_response_catch-Lays = record { ran = refl }

  request_stream_begin-Lays : Lays (n, u, s) request_stream_begin (suc n, u, b'{' ∷ s)
  unfolding meter layout_step request_stream_begin
  request_stream_begin-Lays = record { ran = refl }

  request_stream_none-Lays : Lays (n, u, s) request_stream_none (n, u, s)
  unfolding meter layout_step request_stream_none
  request_stream_none-Lays = record { ran = refl }

  request_stream_try-Lays : Lays (n, u, s) request_stream_try (suc (suc n), u, b'{' ∷ b'{' ∷ s)
  unfolding meter layout_step request_stream_try
  request_stream_try-Lays = record { ran = refl }

  request_stream_case-Lays :
      (pb : Protobuf) (m : MethodDescriptor) → Lays (n, u, s) (request_stream_case pb m) (n, u, s)
  unfolding meter layout_step request_stream_case
  request_stream_case-Lays pb m = record { ran = refl }

  request_stream_catch-Lays :
      Lays (suc (suc n), u, b'{' ∷ b'{' ∷ s) request_stream_catch (suc n, u, s)
  unfolding meter layout_step request_stream_catch
  request_stream_catch-Lays = record { ran = refl }

  request_channel_begin-Lays : Lays (n, u, s) request_channel_begin (suc n, u, b'{' ∷ s)
  unfolding meter layout_step request_channel_begin
  request_channel_begin-Lays = record { ran = refl }

  request_channel_none-Lays : Lays (n, u, s) request_channel_none (n, u, s)
  unfolding meter layout_step request_channel_none
  request_channel_none-Lays = record { ran = refl }

  request_channel_try-Lays : Lays (n, u, s) request_channel_try (suc (suc n), u, b'{' ∷ b'{' ∷ s)
  unfolding meter layout_step request_channel_try
  request_channel_try-Lays = record { ran = refl }

  request_channel_return-Lays : (ss : Bool) → Lays (n, u, s) (request_channel_return ss) (n, u, s)
  unfolding meter layout_step request_channel_return
  request_channel_return-Lays true = record { ran = refl }
  request_channel_return-Lays false = record { ran = refl }

  request_channel_message-Lays :
      (pb : Protobuf) (m : MethodDescriptor)
      → Lays (n, u, s) (request_channel_message pb m) (suc n, u, b'{' ∷ s)
  unfolding meter layout_step request_channel_message
  request_channel_message-Lays pb m = record { ran = refl }

  request_channel_case_end-Lays : Lays (suc n, u, b'{' ∷ s) request_channel_case_end (n, u, s)
  unfolding meter layout_step request_channel_case_end
  request_channel_case_end-Lays = record { ran = refl }

  request_channel_catch-Lays :
      Lays (suc (suc n), u, b'{' ∷ b'{' ∷ s) request_channel_catch (suc n, u, s)
  unfolding meter layout_step request_channel_catch
  request_channel_catch-Lays = record { ran = refl }

  split_channel_begin-Lays : Lays (n, u, s) split_channel_begin (suc n, u, b'{' ∷ s)
  unfolding meter layout_step split_channel_begin
  split_channel_begin-Lays = record { ran = refl }

  split_channel_none-Lays : Lays (n, u, s) split_channel_none (n, u, s)
  unfolding meter layout_step split_channel_none
  split_channel_none-Lays = record { ran = refl }

  split_channel_call-Lays : Lays (n, u, s) split_channel_call (suc n, u, s)
  unfolding meter layout_step split_channel_call
  split_channel_call-Lays = record { ran = refl }

module _ (n u : ℕ) (s : Bytes) where
  request_channel_case-Lays :
      (pb : Protobuf) (m : MethodDescriptor) → Lays (n, u, s) (request_channel_case pb m) (n, u, s)
  unfolding request_channel_case
  request_channel_case-Lays pb m = Runs-append (request_channel_message-Lays n u s pb m) (
      Runs-append (request_channel_return-Lays _ _ _ m.server_streaming)
        (request_channel_case_end-Lays n u s))

module _ (n u : ℕ) (s : Bytes) where
  fire_and_forget_handler-Lays :
      (pb : Protobuf) (ms : List MethodDescriptor)
      → Lays (n, u, s) (fire_and_forget_handler pb ms) (n, u, s)
  unfolding fire_and_forget_handler
  fire_and_forget_handler-Lays pb [] =
      Runs-append (fire_and_forget_begin-Lays n u s)
        (Runs-append (fire_and_forget_none-Lays _ _ _) (handler_end-Lays n u s))
  fire_and_forget_handler-Lays pb (m ∷ ms) = Runs-append (fire_and_forget_begin-Lays n u s) (
      Runs-append
        (Runs-append (fire_and_forget_try-Lays (suc n) u (b'{' ∷ s)) (
          Runs-append (Runs-each (m ∷ ms) (fire_and_forget_case-Lays _ _ _ pb))
            (fire_and_forget_catch-Lays (suc n) u (b'{' ∷ s))))
        (handler_end-Lays n u s))

  request_response_handler-Lays :
      (pb : Protobuf) (ms : List MethodDescriptor)
      → Lays (n, u, s) (request_response_handler pb ms) (n, u, s)
  unfolding request_response_handler
  request_response_handler-Lays pb [] =
      Runs-append (request_response_begin-Lays n u s)
        (Runs-append (request_response_none-Lays _ _ _) (handler_end-Lays n u s))
  request_response_handler-Lays pb (m ∷ ms) = Runs-append (request_response_begin-Lays n u s) (
      Runs-append
        (Runs-append (request_response_try-Lays (suc n) u (b'{' ∷ s)) (
          Runs-append (Runs-each (m ∷ ms) (request_response_case-Lays _ _ _ pb))
            (request_response_catch-Lays (suc n) u (b'{' ∷ s))))
        (handler_end-Lays n u s))

  request_stream_handler-Lays :
      (pb : Protobuf) (ms : List MethodDescriptor)
      → Lays (n, u, s) (request_stream_handler pb ms) (left_open ms n, u, s)
  unfolding request_stream_handler
  request_stream_handler-Lays pb [] =
      Runs-append (request_stream_begin-Lays n u s)
        (Runs-append (request_stream_none-Lays _ _ _) (handler_end-Lays n u s))
  request_stream_handler-Lays pb (m ∷ ms) = Runs-append (request_stream_begin-Lays n u s) (
      Runs-append
        (Runs-append (request_stream_try-Lays (suc n) u (b'{' ∷ s)) (
          Runs-append (Runs-each (m ∷ ms) (request_stream_case-Lays _ _ _ pb))
            (request_stream_catch-Lays (suc n) u (b'{' ∷ s))))
        (handler_end-Lays (suc n) u s))

  request_channel_handler-Lays :
      (pb : Protobuf) (ms : List MethodDescriptor)
      → Lays (n, u, s) (request_channel_handler pb ms) (left_open ms n, u, s)
  unfolding request_channel_handler
  request_channel_handler-Lays pb [] =
      Runs-append (request_channel_begin-Lays n u s)
        (Runs-append (request_channel_none-Lays _ _ _) (handler_end-Lays n u s))
  request_channel_handler-Lays pb (m ∷ ms) = Runs-append (request_channel_begin-Lays n u s) (
      Runs-append
        (Runs-append (request_channel_try-Lays (suc n) u (b'{' ∷ s)) (
          Runs-append (Runs-each (m ∷ ms) (request_channel_case-Lays _ _ _ pb))
            (request_channel_catch-Lays (suc n) u (b'{' ∷ s))))
        (handler_end-Lays (suc n) u s))

  split_channel_handler-Lays :
      (ms : List MethodDescriptor)
      → Lays (n, u, s) (split_channel_handler ms) (left_open ms n, u, s)
  unfolding split_channel_handler
  split_channel_handler-Lays [] =
      Runs-append (split_channel_begin-Lays n u s)
        (Runs-append (split_channel_none-Lays _ _ _) (handler_end-Lays n u s))
  split_channel_handler-Lays (m ∷ ms) =
      Runs-append (split_channel_begin-Lays n u s)
        (Runs-append (split_channel_call-Lays _ _ _) (handler_end-Lays (suc n) u s))

pub server_handlers-Lays :
    (n u : ℕ) (s : Bytes) (pb : Protobuf) (kinds : Kinds)
    → Lays
        (n, u, s)
        (server_handlers pb kinds)
        (
          left_open kinds.request_channel
              (left_open kinds.request_channel (left_open kinds.request_stream n)),
          u,
          s,
        )
unfolding server_handlers
server_handlers-Lays n u s pb kinds =
    Runs-append (fire_and_forget_handler-Lays n u s pb kinds.fire_and_forget) (
      Runs-append (request_response_handler-Lays n u s pb kinds.request_response) (
        Runs-append (request_stream_handler-Lays n u s pb kinds.request_stream) (
          Runs-append (request_channel_handler-Lays _ u s pb kinds.request_channel)
            (split_channel_handler-Lays _ u s kinds.request_channel))))
