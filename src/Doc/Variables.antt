-- ===== src/Doc/Variables.antt =====
-- The templates of documentation comments find their variables.
use rsocket_rpc_kotlin.Base.{
  String, Bytes, true, List, [], ◌∷◌, ◌++◌, map, ◌≡◌, refl, Bool-cases, inl, inr,
}
use rsocket_rpc_kotlin.Printer.{Action, print_raw}
use rsocket_rpc_kotlin.Printer.Closed.{closed}
use rsocket_rpc_kotlin.Printer.Closes.{Closes, closed-Closes, Closes-append}
use rsocket_rpc_kotlin.Descriptor.{ServiceDescriptor, MethodDescriptor}
use rsocket_rpc_kotlin.Doc.{
  begins_with_slash, write_doc_line, write_doc_comment_body, write_service_doc_comment,
  write_method_doc_comment,
}

module _ (a : List String) where
  closed-lines :
      (lines : List Bytes) (rest : List Action)
      → closed a rest ≡ true
      → closed a (map write_doc_line lines ++ rest) ≡ true
  unfolding closed write_doc_line
  closed-lines [] rest h = h
  closed-lines (line ∷ lines) rest h = elim (Bool-cases (begins_with_slash line)) [
    | inl e ↦ rw e (closed-lines lines rest h)
    | inr e ↦ rw e (closed-lines lines rest h)
  ]

  closed-body : (lines : List Bytes) → closed a (write_doc_comment_body lines true) ≡ true
  unfolding write_doc_comment_body
  closed-body [] = unfold closed in refl
  closed-body (line ∷ lines) =
      unfold closed in closed-lines (line ∷ lines) (print_raw " * </pre>\n" ∷ []) refl

  comment-Closes :
      (lines : List Bytes)
      → Closes a
          (print_raw "/**\n" ∷ (write_doc_comment_body lines true ++ print_raw " */\n" ∷ []))
          a
  comment-Closes lines =
      Closes-append {xs = print_raw "/**\n" ∷ []} (closed-Closes _ (unfold closed in refl)) (
        Closes-append (closed-Closes _ (closed-body lines))
          (closed-Closes (print_raw " */\n" ∷ []) (unfold closed in refl)))

pub write_service_doc_comment-Closes :
    (a : List String) (service : ServiceDescriptor) → Closes a (write_service_doc_comment service) a
unfolding write_service_doc_comment
write_service_doc_comment-Closes a service = comment-Closes a _

pub write_method_doc_comment-Closes :
    (a : List String) (method : MethodDescriptor) → Closes a (write_method_doc_comment method) a
unfolding write_method_doc_comment
write_method_doc_comment-Closes a method = comment-Closes a _
