-- ===== src/Doc/Kept.antt =====
-- Documentation comments assign no variables.
use rsocket_rpc_kotlin.Base.{
  String, Bytes, true, List, [], ◌∷◌, ◌++◌, map, refl, Bool-cases, inl, inr,
}
use rsocket_rpc_kotlin.Printer.{print_raw}
use rsocket_rpc_kotlin.Printer.Kept.{keeps, Keeps, Keeps-append, Keeps-nil}
use rsocket_rpc_kotlin.Descriptor.{ServiceDescriptor, MethodDescriptor}
use rsocket_rpc_kotlin.Doc.{
  begins_with_slash, write_doc_line, write_doc_comment_body, write_service_doc_comment,
  write_method_doc_comment,
}

module _ (ks : List String) where
  write_doc_line-Keeps : (line : Bytes) → Keeps ks (write_doc_line line ∷ [])
  unfolding write_doc_line keeps
  write_doc_line-Keeps line = elim (Bool-cases (begins_with_slash line)) [
    | inl e ↦ record { holds = rw e refl }
    | inr e ↦ record { holds = rw e refl }
  ]

  lines-Keeps : (lines : List Bytes) → Keeps ks (map write_doc_line lines)
  lines-Keeps [] = Keeps-nil
  lines-Keeps (line ∷ lines) = Keeps-append (write_doc_line-Keeps line) (lines-Keeps lines)

  raw-Keeps : (t : String) → Keeps ks (print_raw t ∷ [])
  unfolding keeps
  raw-Keeps t = record { holds = refl }

  body-Keeps : (lines : List Bytes) → Keeps ks (write_doc_comment_body lines true)
  unfolding write_doc_comment_body
  body-Keeps [] = Keeps-nil
  body-Keeps (line ∷ lines) =
      Keeps-append (raw-Keeps " * <pre>\n")
        (Keeps-append (lines-Keeps (line ∷ lines)) (raw-Keeps " * </pre>\n"))

  comment-Keeps :
      (lines : List Bytes)
      → Keeps ks (print_raw "/**\n" ∷ (write_doc_comment_body lines true ++ print_raw " */\n" ∷ []))
  comment-Keeps lines =
      Keeps-append (raw-Keeps "/**\n") (Keeps-append (body-Keeps lines) (raw-Keeps " */\n"))

pub write_service_doc_comment-Keeps :
    (ks : List String) (service : ServiceDescriptor) → Keeps ks (write_service_doc_comment service)
unfolding write_service_doc_comment
write_service_doc_comment-Keeps ks service = comment-Keeps ks _

pub write_method_doc_comment-Keeps :
    (ks : List String) (method : MethodDescriptor) → Keeps ks (write_method_doc_comment method)
unfolding write_method_doc_comment
write_method_doc_comment-Keeps ks method = comment-Keeps ks _
