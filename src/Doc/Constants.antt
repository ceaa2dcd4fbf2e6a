-- ===== src/Doc/Constants.antt =====
-- Documentation comments do not name a method's constant.
use rsocket_rpc_kotlin.Base.{Bytes, true, List, [], ◌∷◌, ◌++◌, Option, map, ◌≡◌, refl}
use rsocket_rpc_kotlin.Printer.{Action, print_raw}
use rsocket_rpc_kotlin.Printer.Mentions.{scan, Mentions-append}
use rsocket_rpc_kotlin.Descriptor.{ServiceDescriptor, MethodDescriptor}
use rsocket_rpc_kotlin.Package.Constants.{Quiet}
use rsocket_rpc_kotlin.Doc.{
  begins_with_slash, write_doc_line, write_doc_comment_body, write_service_doc_comment,
  write_method_doc_comment,
}
use rsocket_rpc_kotlin.Base.{Bool-cases, inl, inr}

write_doc_line-Quiet : (line : Bytes) → Quiet (write_doc_line line ∷ [])
unfolding write_doc_line scan
write_doc_line-Quiet line = elim (Bool-cases (begins_with_slash line)) [
  | inl e ↦ record { holds = λ v. rw e refl }
  | inr e ↦ record { holds = λ v. rw e refl }
]

lines-Quiet : (lines : List Bytes) → Quiet (map write_doc_line lines)
lines-Quiet [] = record { holds = λ v. unfold scan in refl }
lines-Quiet (line ∷ lines) = Mentions-append (write_doc_line-Quiet line) (lines-Quiet lines)

raw-Quiet :
    (xs : List Action) → ((v : Option Bytes) → scan "method_field_name" v xs ≡ []) → Quiet xs
raw-Quiet xs h = record { holds = h }

body-Quiet : (lines : List Bytes) → Quiet (write_doc_comment_body lines true)
unfolding write_doc_comment_body
body-Quiet [] = record { holds = λ v. unfold scan in refl }
body-Quiet (line ∷ lines) =
    Mentions-append (raw-Quiet (print_raw " * <pre>\n" ∷ []) (λ v. unfold scan in refl)) (
      Mentions-append (lines-Quiet (line ∷ lines))
        (raw-Quiet (print_raw " * </pre>\n" ∷ []) (λ v. unfold scan in refl)))

comment-Quiet :
    (lines : List Bytes)
    → Quiet (print_raw "/**\n" ∷ (write_doc_comment_body lines true ++ print_raw " */\n" ∷ []))
comment-Quiet lines =
    Mentions-append (raw-Quiet (print_raw "/**\n" ∷ []) (λ v. unfold scan in refl)) (
      Mentions-append (body-Quiet lines)
        (raw-Quiet (print_raw " */\n" ∷ []) (λ v. unfold scan in refl)))

pub write_service_doc_comment-Quiet :
    (service : ServiceDescriptor) → Quiet (write_service_doc_comment service)
unfolding write_service_doc_comment
write_service_doc_comment-Quiet service = comment-Quiet _

pub write_method_doc_comment-Quiet :
    (method : MethodDescriptor) → Quiet (write_method_doc_comment method)
unfolding write_method_doc_comment
write_method_doc_comment-Quiet method = comment-Quiet _
