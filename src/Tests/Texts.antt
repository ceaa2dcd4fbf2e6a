-- ===== src/Tests/Texts.antt =====
-- The theorems on comments, names and packages, at concrete ones.
use rsocket_rpc_kotlin.Base.{Bytes, codes, true, List, [], ◌∷◌, none, some, ◌≡◌, refl, arith, All}
use rsocket_rpc_kotlin.Printer.{calls}
use rsocket_rpc_kotlin.Printer.Spell.{spell}
use mathlib.Core.List.{flatten}
use rsocket_rpc_kotlin.Names.{mixed_lower, to_all_upper_case, tolower, toupper, islower, isupper}
use rsocket_rpc_kotlin.Names.Laws.{
  AreHumps, upper_joined, mixed_lower_lem, to_all_upper_case_lem, to_all_upper_case_collision,
}
use rsocket_rpc_kotlin.Split.{split, split_fast, split_general, find_first_not_of}
use rsocket_rpc_kotlin.Split.Fast.{IsToken, Splits, remove, split_lem}
use rsocket_rpc_kotlin.Split.General.{split_general-split_fast, split_total}
use rsocket_rpc_kotlin.Doc.{
  escape_kotlindoc, get_doc_lines, get_doc_lines_for_descriptor, write_service_doc_comment,
  write_method_doc_comment,
}
use rsocket_rpc_kotlin.Doc.Escape.{
  read_html, Avoids, IsPlain, read_html-escape_kotlindoc, escape_kotlindoc_safe,
}
use rsocket_rpc_kotlin.Doc.Lines.{get_doc_lines-split}
use rsocket_rpc_kotlin.Doc.Comment.{IsOneComment, inner_text, doc_comments_closed}
use rsocket_rpc_kotlin.Package.{service_kotlin_package}
use rsocket_rpc_kotlin.Package.Laws.{service_kotlin_package_lem}
use rsocket_rpc_kotlin.Tests.Services.{protobuf, file, service, channel, lacks}

doc_comments_closed_example :
    IsOneComment
      (spell (calls (write_service_doc_comment service) []))
      (inner_text (get_doc_lines_for_descriptor service.location) true)
    × IsOneComment
        (spell (calls (write_method_doc_comment channel) []))
        (inner_text (get_doc_lines_for_descriptor channel.location) true)
doc_comments_closed_example = doc_comments_closed service channel []

split_general-split_fast_example :
    split_general 5 (codes "a,,b") (codes ",") (find_first_not_of (codes "a,,b") (codes ",") 0) []
    ≡ some (split_fast b',' (codes "a,,b") none [])
split_general-split_fast_example = split_general-split_fast (codes "a,,b") b',' 5 [] (omega arith)

split_lem_example :
    (parts : List Bytes) × (split (codes "a,,b") (codes ",") ≡ some parts)
    × Splits b',' (codes "a,,b") parts
    × All (IsToken b',') parts
    × (flatten parts ≡ remove b',' (codes "a,,b"))
split_lem_example = split_lem (codes "a,,b") b','

split_total_example : (parts : List Bytes) × (split (codes "a, b;c") (codes ",; ") ≡ some parts)
split_total_example = split_total (codes "a, b;c") (codes ",; ")

read_html-escape_kotlindoc_example :
    read_html (escape_kotlindoc (codes "/* <b> & */")) none ≡ codes "/* <b> & */"
read_html-escape_kotlindoc_example = read_html-escape_kotlindoc (codes "/* <b> & */")

escape_kotlindoc_safe_example :
    Avoids b'*' b'/' b'*' (escape_kotlindoc (codes "/*/"))
    × Avoids b'/' b'*' b' ' (escape_kotlindoc (codes "/*/"))
    × All IsPlain (escape_kotlindoc (codes "/*/"))
escape_kotlindoc_safe_example = escape_kotlindoc_safe (codes "/*/") b' ' (omega arith)

get_doc_lines-split_example :
    split (escape_kotlindoc (codes " a\n\n b\n")) (codes "\n")
    ≡ some (get_doc_lines (codes " a\n\n b\n"))
get_doc_lines-split_example = get_doc_lines-split (codes " a\n\n b\n") (cc)

service_kotlin_package_lem_example : service_kotlin_package protobuf file ≡ codes "io.example"
service_kotlin_package_lem_example =
    service_kotlin_package_lem protobuf file (codes "io.example") (codes "ExampleProto")
      (omega arith) refl

mixed_lower_lem_example : mixed_lower (codes "Fire_and_forget") ≡ codes "fireAndForget"
unfolding tolower toupper islower isupper
mixed_lower_lem_example =
    mixed_lower_lem b'F' (codes "ire") (codes "and" ∷ codes "forget" ∷ [])
      (lacks b'_' (codes "ire") refl)
      (lacks b'_' (codes "and") refl, (lacks b'_' (codes "forget") refl, tt))

to_all_upper_case_lem_example :
    (humps : List Bytes) × AreHumps humps
    × (flatten humps ≡ codes "RequestStream")
    × (to_all_upper_case (codes "RequestStream") ≡ upper_joined humps)
to_all_upper_case_lem_example = to_all_upper_case_lem (codes "RequestStream")

to_all_upper_case_collision_example :
    to_all_upper_case (codes "GetUser") ≡ to_all_upper_case (codes "Get_User")
unfolding islower isupper
to_all_upper_case_collision_example =
    to_all_upper_case_collision (codes "Ge") b't' b'U' (codes "ser") refl refl
