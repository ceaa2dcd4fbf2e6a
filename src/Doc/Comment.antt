-- ===== src/Doc/Comment.antt =====
-- The text of a documentation comment.
use rsocket_rpc_kotlin.Base.{
  ℕ, Bytes, codes, Bool, true, false, List, [], ◌∷◌, ◌++◌, Option, some, if◌then◌else◌, map, ◌≡◌,
  ◌≢◌, refl, arith, All, append_assoc, Bool-cases, inl, inr, ◌∙◌, ap,
}
use rsocket_rpc_kotlin.Printer.{Action, Vars, calls, print_raw}
use rsocket_rpc_kotlin.Printer.Spell.{spell, ◌>>=◌}
use rsocket_rpc_kotlin.Descriptor.{MethodDescriptor, ServiceDescriptor}
use rsocket_rpc_kotlin.Doc.{
  begins_with_slash, write_doc_line, write_doc_comment_body, write_doc_comment,
  write_service_doc_comment, write_method_doc_comment, get_doc_lines, get_doc_lines_for_descriptor,
}
use rsocket_rpc_kotlin.Doc.Escape.{Avoids, Avoids-append, last}
use rsocket_rpc_kotlin.Doc.Lines.{IsDocLine, get_doc_lines-IsDocLine}

-- The text of one line.
line_text : Bytes → Bytes
unfolding begins_with_slash
line_text line =
    codes " *" ++ ((if begins_with_slash line then codes " " else []) ++ (line ++ codes "\n"))

line_texts : List Bytes → Bytes
line_texts [] = []
line_texts (line ∷ lines) = line_text line ++ line_texts lines

spell-write_doc_line :
    (line : Bytes) (rest : List Action) (m : Vars) (text : Bytes)
    → spell (calls rest m) ≡ some text
    → spell (calls (write_doc_line line ∷ rest) m) ≡ some (line_text line ++ text)
unfolding spell calls write_doc_line line_text
spell-write_doc_line line rest m text h = elim (Bool-cases (begins_with_slash line)) [
  | inl e ↦ rw e (rw h (simp append_assoc))
  | inr e ↦ rw e (rw h (simp append_assoc))
]

-- What stands between `/**` and the last `*/`.
pub inner_text : List Bytes → Bool → Bytes
inner_text [] pre = codes "\n "
inner_text (line ∷ lines) pre =
    codes "\n"
    ++ ((if pre then codes " * <pre>\n" else [])
        ++ (line_texts (line ∷ lines) ++ ((if pre then codes " * </pre>\n" else []) ++ codes " ")))

spell-lines :
    (lines : List Bytes) (rest : List Action) (m : Vars) (text : Bytes)
    → spell (calls rest m) ≡ some text
    → spell (calls (map write_doc_line lines ++ rest) m) ≡ some (line_texts lines ++ text)
unfolding line_texts
spell-lines [] rest m text h = h
spell-lines (line ∷ lines) rest m text h =
    spell-write_doc_line line (map write_doc_line lines ++ rest) m (line_texts lines ++ text)
      (spell-lines lines rest m text h)
    ∙ rw (append_assoc (line_text line) (line_texts lines) text)

spell-body :
    (lines : List Bytes) (pre : Bool) (m : Vars)
    → spell
        (calls (print_raw "/**\n" ∷ (write_doc_comment_body lines pre ++ print_raw " */\n" ∷ [])) m)
      ≡ some (codes "/**" ++ (inner_text lines pre ++ codes "*/\n"))
unfolding spell calls write_doc_comment_body inner_text
spell-body [] pre m = refl
spell-body (line ∷ lines) true m =
    let post = print_raw " * </pre>\n" ∷ [] in
    let end = print_raw " */\n" ∷ [] in
    ap
      (λ o.
        (o >>= λ rest. some (codes " * <pre>\n" ++ rest)) >>= λ rest. some (codes "/**\n" ++ rest))
      (ap (λ as'. spell (calls as' m)) (append_assoc (map write_doc_line (line ∷ lines)) post end)
        ∙ spell-lines (line ∷ lines) (post ++ end) m (codes " * </pre>\n */\n") refl)
    ∙ rw (append_assoc (line_texts (line ∷ lines)) (codes " * </pre>\n ") (codes "*/\n"))
spell-body (line ∷ lines) false m =
    let end = print_raw " */\n" ∷ [] in
    ap (λ o. o >>= λ rest. some (codes "/**\n" ++ rest))
      (ap (λ as'. spell (calls as' m)) (append_assoc (map write_doc_line (line ∷ lines)) [] end)
        ∙ spell-lines (line ∷ lines) end m (codes " */\n") refl)
    ∙ rw (append_assoc (line_texts (line ∷ lines)) (codes " ") (codes "*/\n"))

Avoids-snoc : (a b q : ℕ) (s : Bytes) (x : ℕ) → x ≢ b → Avoids a b q s → Avoids a b q (s ++ x ∷ [])
Avoids-snoc a b q [] x h hs = (ground arith, tt)
Avoids-snoc a b q (c ∷ s) x h (hc, hs) = (hc, Avoids-snoc a b c s x h hs)

line_text-Avoids_close : (line : Bytes) → IsDocLine line → Avoids b'*' b'/' b'\n' (line_text line)
unfolding line_text begins_with_slash
line_text-Avoids_close [] h = ground arith
line_text-Avoids_close (c ∷ line) h = ground (arith, h.no_close, Avoids-snoc b'*' b'/' c line b'\n')

line_text-Avoids_open : (line : Bytes) → IsDocLine line → Avoids b'/' b'*' b'\n' (line_text line)
unfolding line_text begins_with_slash
line_text-Avoids_open [] h = ground arith
line_text-Avoids_open (c ∷ line) h = ground (arith, h.no_open, Avoids-snoc b'/' b'*' c line b'\n')

last-append : (q : ℕ) (s t : Bytes) → last q (s ++ t) ≡ last (last q s) t
last-append q [] t = refl
last-append q (c ∷ s) t = last-append c s t

last-line_text : (line : Bytes) → last b'\n' (line_text line) ≡ b'\n'
unfolding line_text begins_with_slash
last-line_text [] = refl
last-line_text (c ∷ line) = ground (arith, last-append c line (b'\n' ∷ []))

module _ (a b : ℕ) where
  line_texts-Avoids :
      (lines : List Bytes) (t : Bytes)
      → All (λ line. Avoids a b b'\n' (line_text line)) lines
      → Avoids a b b'\n' t
      → Avoids a b b'\n' (line_texts lines ++ t)
  unfolding line_texts
  line_texts-Avoids [] t _ ht = ht
  line_texts-Avoids (line ∷ lines) t (h, hs) ht =
      rw (append_assoc (line_text line) (line_texts lines) t) (
        Avoids-append a b b'\n' (line_text line) _ h
          (rw last-line_text (line_texts-Avoids lines t hs ht)))

All-map_to :
    (P Q : Bytes → Type 0) (lines : List Bytes)
    → ((line : Bytes) → P line → Q line)
    → All P lines
    → All Q lines
All-map_to P Q [] f _ = tt
All-map_to P Q (line ∷ lines) f (h, hs) = (f line h, All-map_to P Q lines f hs)

inner_text-Avoids_close :
    (lines : List Bytes) (pre : Bool)
    → All IsDocLine lines
    → Avoids b'*' b'/' b'*' (inner_text lines pre)
unfolding inner_text
inner_text-Avoids_close [] pre h = ground arith
inner_text-Avoids_close (line ∷ lines) true h =
    Avoids-append b'*' b'/' b'*' (codes "\n * <pre>\n") _ (ground arith) (
      line_texts-Avoids b'*' b'/' (line ∷ lines) (codes " * </pre>\n ")
        (All-map_to _ _ (line ∷ lines) line_text-Avoids_close h) (ground arith))
inner_text-Avoids_close (line ∷ lines) false h =
    Avoids-append b'*' b'/' b'*' (codes "\n") _ (ground arith) (
      line_texts-Avoids b'*' b'/' (line ∷ lines) (codes " ")
        (All-map_to _ _ (line ∷ lines) line_text-Avoids_close h) (ground arith))

inner_text-Avoids_open :
    (lines : List Bytes) (pre : Bool)
    → All IsDocLine lines
    → Avoids b'/' b'*' b'*' (inner_text lines pre ++ codes "*/\n")
unfolding inner_text
inner_text-Avoids_open [] pre h = ground arith
inner_text-Avoids_open (line ∷ lines) true h =
    rw (append_assoc (line_texts (line ∷ lines)) (codes " * </pre>\n ") (codes "*/\n")) (
      Avoids-append b'/' b'*' b'*' (codes "\n * <pre>\n") _ (ground arith) (
        line_texts-Avoids b'/' b'*' (line ∷ lines) (codes " * </pre>\n */\n")
          (All-map_to _ _ (line ∷ lines) line_text-Avoids_open h) (ground arith)))
inner_text-Avoids_open (line ∷ lines) false h =
    rw (append_assoc (line_texts (line ∷ lines)) (codes " ") (codes "*/\n")) (
      Avoids-append b'/' b'*' b'*' (codes "\n") _ (ground arith) (
        line_texts-Avoids b'/' b'*' (line ∷ lines) (codes " */\n")
          (All-map_to _ _ (line ∷ lines) line_text-Avoids_open h) (ground arith)))

-- A text that is one comment of Kotlin, where comments nest: the first `*/` is the last thing
-- before the line break, and only the first two bytes make `/*`.
abbrev pub IsOneComment : Option Bytes → Bytes → Type 0
IsOneComment o inner =
    (o ≡ some (codes "/**" ++ (inner ++ codes "*/\n")))
    × Avoids b'*' b'/' b'*' inner
    × Avoids b'/' b'*' b'*' (inner ++ codes "*/\n")

one_comment :
    (comments : Bytes) (pre : Bool) (m : Vars)
    → IsOneComment
        (spell (
          calls
            (print_raw "/**\n"
              ∷ (write_doc_comment_body (get_doc_lines comments) pre ++ print_raw " */\n" ∷ []))
            m))
        (inner_text (get_doc_lines comments) pre)
one_comment comments pre m =
    let lines = get_doc_lines comments in
    let good = get_doc_lines-IsDocLine comments in
    (
      spell-body lines pre m,
      inner_text-Avoids_close lines pre good,
      inner_text-Avoids_open lines pre good,
    )

-- Whatever a .proto file says above a service and above a method, the text written for each is one
-- comment of Kotlin around its escaped lines: no line closes it or opens another one inside.
pub doc_comments_closed :
    (service : ServiceDescriptor) (method : MethodDescriptor) (m : Vars)
    → IsOneComment
        (spell (calls (write_service_doc_comment service) m))
        (inner_text (get_doc_lines_for_descriptor service.location) true)
      × IsOneComment
          (spell (calls (write_method_doc_comment method) m))
          (inner_text (get_doc_lines_for_descriptor method.location) true)
unfolding write_service_doc_comment write_method_doc_comment get_doc_lines_for_descriptor
doc_comments_closed service method m = (one_comment _ true m, one_comment _ true m)

-- The same for a text that is given, without the tags.
pub write_doc_comment_closed :
    (comments : Bytes) (m : Vars)
    → IsOneComment
        (spell (calls (write_doc_comment comments) m))
        (inner_text (get_doc_lines comments) false)
unfolding write_doc_comment
write_doc_comment_closed comments m = one_comment comments false m
