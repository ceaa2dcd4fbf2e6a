-- ===== src/Split.antt =====
-- `SplitStringToIteratorUsing`, `SplitStringUsing` and `Split` of kotlin_generator.cpp
-- (rsocket-rpc-protobuf/src/kotlin_plugin/cpp/kotlin_generator.cpp). A pointer into `full` is the
-- list of the bytes from it on; a position is a number, and `string::npos` is `none`. A C string is
-- the list of its bytes without the terminating zero byte.
pub mod Fast
pub mod General
use mathlib.Core.Option
use rsocket_rpc_kotlin.Base.{
  ℕ, zero, suc, ◌+◌, ◌-◌, Bytes, Bool, true, false, List, [], ◌∷◌, ◌++◌, Option, none, some, ◌==◌,
  not, ◌||◌, if◌then◌else◌, length, drop, take,
}

-- The loops for a delimiter of one byte. `none` is the test of the outer loop, `some cur` that of
-- the inner one with the bytes from `start` to `p`. Where the inner loop stops at the delimiter, the
-- outer one steps over it.
unfoldable pub split_fast : ℕ → Bytes → Option Bytes → List Bytes → List Bytes
split_fast c [] none result = result
split_fast c [] (some cur) result = result ++ cur ∷ []
split_fast c (x ∷ p) none result = split_fast c p (if x == c then none else some (x ∷ [])) result
split_fast c (x ∷ p) (some cur) result =
    split_fast c p (if x == c then none else some (cur ++ x ∷ []))
      (if x == c then result ++ cur ∷ [] else result)

unfoldable pub one_of : Bytes → ℕ → Bool
one_of [] x = false
one_of (d ∷ delim) x = x == d || one_of delim x

-- The first index at which a byte is (`true`) or is not (`false`) one of `delim`.
unfoldable pub find_index : Bool → Bytes → Bytes → Option ℕ
unfolding one_of
find_index wanted delim [] = none
find_index wanted delim (x ∷ s) =
    let rest = Option.map suc (find_index wanted delim s) in
    if (if wanted then one_of delim x else not (one_of delim x)) then some 0 else rest

-- `full.find_first_of(delim, pos)` and `full.find_first_not_of(delim, pos)`.
unfoldable pub find_first_of : Bytes → Bytes → ℕ → Option ℕ
unfolding find_index
find_first_of full delim pos = Option.map (λ i. pos + i) (find_index true delim (drop pos full))

unfoldable pub find_first_not_of : Bytes → Bytes → ℕ → Option ℕ
unfolding find_index
find_first_not_of full delim pos =
    Option.map (λ i. pos + i) (find_index false delim (drop pos full))

-- The `while` loop over positions, on fuel; the outer `none` means that the fuel ran out.
unfoldable pub split_general : ℕ → Bytes → Bytes → Option ℕ → List Bytes → Option (List Bytes)
split_general zero full delim begin_index result = none
split_general (suc fuel) full delim none result = some result
split_general (suc fuel) full delim (some b) result = elim (find_first_of full delim b) [
  | none ↦ some (result ++ drop b full ∷ [])
  | some e ↦
      split_general fuel full delim (find_first_not_of full delim e)
        (result ++ take (e - b) (drop b full) ∷ [])
]

-- `SplitStringToIteratorUsing` appends to `result`.
unfoldable pub split_string_to_iterator_using : Bytes → Bytes → List Bytes → Option (List Bytes)
unfolding split_fast split_general find_first_of find_first_not_of
split_string_to_iterator_using full (c ∷ []) result = some (split_fast c full none result)
split_string_to_iterator_using full delim result =
    split_general (length full + 2) full delim (find_first_not_of full delim 0) result

unfoldable pub split : Bytes → Bytes → Option (List Bytes)
unfolding split_string_to_iterator_using
split full delim = split_string_to_iterator_using full delim []
