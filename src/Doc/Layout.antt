-- ===== src/Doc/Layout.antt =====
-- Documentation comments leave the indentation and the brackets as they find them.
use rsocket_rpc_kotlin.Base.{
  Bytes, true, List, [], ◌∷◌, ◌++◌, Option, some, map, ◌≡◌, refl, Bool-cases, inl, inr, ◌∙◌,
}
use rsocket_rpc_kotlin.Printer.{Action, print_raw}
use rsocket_rpc_kotlin.Printer.Meter.{meter, meter_skip, Layout, Lays, layout_step}
use rsocket_rpc_kotlin.Descriptor.{ServiceDescriptor, MethodDescriptor}
use rsocket_rpc_kotlin.Doc.{
  begins_with_slash, write_doc_line, write_doc_comment_body, write_service_doc_comment,
  write_method_doc_comment,
}

-- A machine that no statement of a comment moves out of the state `s`.
record Ignores {S : Type 0} (step : Action → S → Option S) (s : S) : Type 0 where
  line : (text : Bytes) → step (write_doc_line text) s ≡ some s
  begin : step (print_raw "/**\n") s ≡ some s
  pre : step (print_raw " * <pre>\n") s ≡ some s
  pre_end : step (print_raw " * </pre>\n") s ≡ some s
  end : step (print_raw " */\n") s ≡ some s

module _ {S : Type 0} (step : Action → S → Option S) (s : S) (g : Ignores step s) where
  meter-lines : (lines : List Bytes) → meter step (map write_doc_line lines) s ≡ some s
  unfolding meter
  meter-lines [] = refl
  meter-lines (text ∷ lines) = rw (g.line text) (meter-lines lines)

  meter-body : (lines : List Bytes) → meter step (write_doc_comment_body lines true) s ≡ some s
  unfolding write_doc_comment_body meter
  meter-body [] = refl
  meter-body (text ∷ lines) =
      rw (g.pre, g.line text)
        (rw
          (meter_skip step (map write_doc_line lines) (print_raw " * </pre>\n" ∷ []) s
            (meter-lines lines))
          (rw g.pre_end))

  meter-comment :
      (lines : List Bytes)
      → meter step
          (print_raw "/**\n" ∷ (write_doc_comment_body lines true ++ print_raw " */\n" ∷ []))
          s
        ≡ some s
  unfolding meter
  meter-comment lines = rw g.begin (
      meter_skip step (write_doc_comment_body lines true) (print_raw " */\n" ∷ []) s
        (meter-body lines)
      ∙ rw g.end)

layout_step-Ignores : (l : Layout) → Ignores layout_step l
unfolding layout_step write_doc_line
layout_step-Ignores l = record {
  line = λ text. elim (Bool-cases (begins_with_slash text)) [ inl e ↦ rw e | inr e ↦ rw e ];
  begin = refl;
  pre = refl;
  pre_end = refl;
  end = refl;
}

pub write_service_doc_comment-Lays :
    (service : ServiceDescriptor) (l : Layout) → Lays l (write_service_doc_comment service) l
unfolding write_service_doc_comment
write_service_doc_comment-Lays service l = record {
  ran = meter-comment layout_step l (layout_step-Ignores l) _;
}

pub write_method_doc_comment-Lays :
    (method : MethodDescriptor) (l : Layout) → Lays l (write_method_doc_comment method) l
unfolding write_method_doc_comment
write_method_doc_comment-Lays method l = record {
  ran = meter-comment layout_step l (layout_step-Ignores l) _;
}
