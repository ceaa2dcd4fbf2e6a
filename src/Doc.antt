-- ===== src/Doc.antt =====
-- Documentation comments: `EscapeKotlindoc` to `WriteMethodDocComment` of kotlin_generator.cpp
-- (rsocket-rpc-protobuf/src/kotlin_plugin/cpp/kotlin_generator.cpp).
pub mod Escape
pub mod Lines
pub mod Comment
pub mod Layout
pub mod Variables
pub mod Constants
pub mod Kept
use rsocket_rpc_kotlin.Base.{
  ℕ, Bytes, codes, Bool, true, false, List, [], ◌∷◌, ◌++◌, Option, none, some, ◌==◌, not, ◌&&◌,
  ◌||◌, if◌then◌else◌, is_empty, map,
}
use rsocket_rpc_kotlin.Printer.{Action, print_with, print_raw}
use rsocket_rpc_kotlin.Descriptor.{SourceLocation, MethodDescriptor, ServiceDescriptor}
use rsocket_rpc_kotlin.Split.{split}

-- The `switch`: what one round appends for `c` behind `prev`.
unfoldable pub escape_char : ℕ → ℕ → Bytes
escape_char prev c =
    if c == b'*'
    then (if prev == b'/' then codes "&#42;" else c ∷ [])
    else if c == b'/'
    then (if prev == b'*' then codes "&#47;" else c ∷ [])
    else if c == b'@'
    then codes "&#64;"
    else if c == b'<'
    then codes "&lt;"
    else if c == b'>'
    then codes "&gt;"
    else if c == b'&'
    then codes "&amp;"
    else if c == b'\\'
    then codes "&#92;"
    else c ∷ []

-- The `for` loop, with `prev` as the round finds it.
unfoldable pub escape_loop : Bytes → ℕ → Bytes
unfolding escape_char
escape_loop [] prev = []
escape_loop (c ∷ input) prev = escape_char prev c ++ escape_loop input c

unfoldable pub escape_kotlindoc : Bytes → Bytes
unfolding escape_loop
escape_kotlindoc input = escape_loop input b'*'

-- `GetCommentsForDescriptor`; `none` where the descriptor has no source location.
unfoldable pub get_comments_for_descriptor : Option SourceLocation → Bytes
get_comments_for_descriptor none = []
get_comments_for_descriptor (some location) =
    if is_empty location.leading_comments
    then location.trailing_comments
    else location.leading_comments

-- `while (!lines.empty() && lines.back().empty()) lines.pop_back();`
unfoldable pub pop_empty_lines : List Bytes → List Bytes
pop_empty_lines [] = []
pop_empty_lines (line ∷ lines) =
    let rest = pop_empty_lines lines in if is_empty line && is_empty rest then [] else line ∷ rest

-- The lines that `Split` returned. It always returns.
unfoldable pub returned : Option (List Bytes) → List Bytes
returned none = []
returned (some lines) = lines

unfoldable pub get_doc_lines : Bytes → List Bytes
unfolding escape_kotlindoc split returned pop_empty_lines
get_doc_lines comments =
    if is_empty comments
    then []
    else pop_empty_lines (returned (split (escape_kotlindoc comments) (codes "\n")))

unfoldable pub get_doc_lines_for_descriptor : Option SourceLocation → List Bytes
get_doc_lines_for_descriptor location = get_doc_lines (get_comments_for_descriptor location)

unfoldable pub begins_with_slash : Bytes → Bool
begins_with_slash [] = false
begins_with_slash (c ∷ line) = c == b'/'

unfoldable pub write_doc_line : Bytes → Action
unfolding begins_with_slash
write_doc_line line =
    if begins_with_slash line
    then print_with " * $line$\n" "line" line
    else print_with " *$line$\n" "line" line

unfoldable pub write_doc_comment_body : List Bytes → Bool → List Action
unfolding write_doc_line
write_doc_comment_body [] surround_with_pre_tag = []
write_doc_comment_body (line ∷ lines) surround_with_pre_tag =
    (if surround_with_pre_tag then print_raw " * <pre>\n" ∷ [] else [])
    ++ (map write_doc_line (line ∷ lines)
        ++ (if surround_with_pre_tag then print_raw " * </pre>\n" ∷ [] else []))

unfoldable pub write_doc_comment : Bytes → List Action
unfolding write_doc_comment_body
write_doc_comment comments =
    print_raw "/**\n"
    ∷ (write_doc_comment_body (get_doc_lines comments) false ++ print_raw " */\n" ∷ [])

unfoldable pub write_service_doc_comment : ServiceDescriptor → List Action
unfolding write_doc_comment_body
write_service_doc_comment service =
    print_raw "/**\n"
    ∷ (write_doc_comment_body (get_doc_lines_for_descriptor service.location) true
        ++ print_raw " */\n" ∷ [])

unfoldable pub write_method_doc_comment : MethodDescriptor → List Action
unfolding write_doc_comment_body
write_method_doc_comment method =
    print_raw "/**\n"
    ∷ (write_doc_comment_body (get_doc_lines_for_descriptor method.location) true
        ++ print_raw " */\n" ∷ [])
