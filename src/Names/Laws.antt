-- ===== src/Names/Laws.antt =====
-- The shape of the generated names.
use mathlib.Core.List.{flatten}
use rsocket_rpc_kotlin.Base.{
  List, sym, ap, ◌∙◌, ◌&&◌, Bool-cases, inl, inr, ℕ, Bytes, Bool, true, false, [], ◌∷◌, ◌++◌, ◌==◌,
  ◌≡◌, ◌≢◌, refl, arith, All, Lacks, map, ap₂,
}
use rsocket_rpc_kotlin.Names.{
  isupper, islower, tolower, toupper, mixed_lower_loop, mixed_lower, to_all_upper_case,
  breaks_before,
}

toupper-ne-underscore : (c : ℕ) → c ≢ b'_' → toupper c ≢ b'_'
unfolding toupper
toupper-ne-underscore c h = ground arith

toupper-toupper : (c : ℕ) → toupper (toupper c) ≡ toupper c
unfolding toupper
toupper-toupper c = ground arith

tolower-tolower : (c : ℕ) → tolower (tolower c) ≡ tolower c
unfolding tolower
tolower-tolower c = ground arith

mixed_lower_loop-Lacks : (s : Bytes) (b : Bool) → Lacks b'_' (mixed_lower_loop s b)
unfolding mixed_lower_loop
mixed_lower_loop-Lacks [] b = tt
mixed_lower_loop-Lacks (c ∷ s) b =
    ground (arith, mixed_lower_loop-Lacks s (c == b'_'), toupper-ne-underscore c)

-- A text with no underscore passes through the loop unchanged.
mixed_lower_loop-id : (s : Bytes) → Lacks b'_' s → mixed_lower_loop s false ≡ s
unfolding mixed_lower_loop
mixed_lower_loop-id [] h = refl
mixed_lower_loop-id (c ∷ s) h = ground (arith, mixed_lower_loop-id s h.1)

-- `MixedLower` applied to its own result changes nothing.
mixed_lower-mixed_lower : (w : Bytes) → mixed_lower (mixed_lower w) ≡ mixed_lower w
unfolding mixed_lower tolower
mixed_lower-mixed_lower [] = refl
mixed_lower-mixed_lower (c ∷ s) =
    ap₂ ◌∷◌ (tolower-tolower c) (mixed_lower_loop-id _ (mixed_lower_loop-Lacks s false))

-- The words of a name, each with its first letter in upper case.
abbrev capitalized : Bytes → Bytes
capitalized [] = []
capitalized (c ∷ word) = toupper c ∷ word

abbrev pub underscored : List Bytes → Bytes
underscored [] = []
underscored (word ∷ words) = b'_' ∷ word ++ underscored words

abbrev pub capitalized_words : List Bytes → Bytes
capitalized_words [] = []
capitalized_words (word ∷ words) = capitalized word ++ capitalized_words words

mixed_lower_loop-append :
    (word rest : Bytes)
    → Lacks b'_' word
    → mixed_lower_loop (word ++ rest) false ≡ word ++ mixed_lower_loop rest false
unfolding mixed_lower_loop
mixed_lower_loop-append [] rest h = refl
mixed_lower_loop-append (c ∷ word) rest (h, hs) =
    ground (arith, mixed_lower_loop-append word rest hs)

mixed_lower_loop-word :
    (word rest : Bytes)
    → Lacks b'_' word
    → (mixed_lower_loop rest true ≡ mixed_lower_loop rest false)
    → mixed_lower_loop (word ++ rest) true ≡ capitalized word ++ mixed_lower_loop rest false
unfolding mixed_lower_loop
mixed_lower_loop-word [] rest h e = e
mixed_lower_loop-word (c ∷ word) rest (h, hs) e =
    ground (arith, mixed_lower_loop-append word rest hs)

mixed_lower_loop-underscored :
    (words : List Bytes) (b : Bool)
    → All (Lacks b'_') words
    → mixed_lower_loop (underscored words) b ≡ capitalized_words words
unfolding mixed_lower_loop
mixed_lower_loop-underscored [] b h = refl
mixed_lower_loop-underscored (word ∷ words) b (h, hs) =
    mixed_lower_loop-word word (underscored words) h (
      mixed_lower_loop-underscored words true hs
      ∙ sym (mixed_lower_loop-underscored words false hs))
    ∙ ap (λ rest. capitalized word ++ rest) (mixed_lower_loop-underscored words false hs)

-- A word is its first byte, then a part without underscores, then any number of parts that each stand
-- behind an underscore. `MixedLower` puts the first byte in lower case and the first byte of each part
-- behind an underscore in upper case, leaves the other bytes as they are, and drops the underscores.
-- Parts may be empty, as between two underscores.
pub mixed_lower_lem :
    (c : ℕ) (part : Bytes) (parts : List Bytes)
    → Lacks b'_' part
    → All (Lacks b'_') parts
    → mixed_lower (c ∷ part ++ underscored parts) ≡ tolower c ∷ part ++ capitalized_words parts
unfolding mixed_lower
mixed_lower_lem c part parts h hs =
    ap (λ rest. tolower c ∷ rest)
      (mixed_lower_loop-append part (underscored parts) h
        ∙ ap (λ rest. part ++ rest) (mixed_lower_loop-underscored parts false hs))

-- Not a lower case letter.
abbrev NotLower : ℕ → Type 0
NotLower c = islower c ≡ false

toupper-NotLower : (c : ℕ) → NotLower (toupper c)
unfolding toupper
toupper-NotLower c = ground arith

underscore-NotLower : NotLower b'_'
unfolding islower
underscore-NotLower = refl

to_all_upper_case-NotLower : (w : Bytes) → All NotLower (to_all_upper_case w)
unfolding to_all_upper_case
to_all_upper_case-NotLower [] = tt
to_all_upper_case-NotLower (c ∷ s) =
    ground (arith, to_all_upper_case-NotLower s, toupper-NotLower c, underscore-NotLower)

-- A lower case letter with an upper case letter behind it.
abbrev breaks : ℕ → ℕ → Bool
breaks c d = islower c && isupper d

-- A part with no such place inside.
abbrev IsUnbroken : Bytes → Type 0
IsUnbroken [] = Unit
IsUnbroken (c ∷ []) = Unit
IsUnbroken (c ∷ d ∷ s) = (breaks c d ≡ false) × IsUnbroken (d ∷ s)

-- Two parts with such a place between them.
abbrev Breaks : Bytes → Bytes → Type 0
Breaks [] t = true ≡ false
Breaks (c ∷ []) [] = true ≡ false
Breaks (c ∷ []) (d ∷ t) = breaks c d ≡ true
Breaks (c ∷ d ∷ s) t = Breaks (d ∷ s) t

-- The parts of a word, cut at all such places.
abbrev pub AreHumps : List Bytes → Type 0
AreHumps [] = Unit
AreHumps (hump ∷ []) = IsUnbroken hump
AreHumps (hump ∷ next ∷ humps) = IsUnbroken hump × Breaks hump next × AreHumps (next ∷ humps)

-- In upper case, with underscores between them.
abbrev pub upper_joined : List Bytes → Bytes
upper_joined [] = []
upper_joined (hump ∷ []) = map toupper hump
upper_joined (hump ∷ next ∷ humps) = map toupper hump ++ b'_' ∷ upper_joined (next ∷ humps)

AreHumps-cons :
    (c d : ℕ) (hump : Bytes) (humps : List Bytes)
    → breaks c d ≡ false
    → AreHumps ((d ∷ hump) ∷ humps)
    → AreHumps ((c ∷ d ∷ hump) ∷ humps)
AreHumps-cons c d hump [] e h = (e, h)
AreHumps-cons c d hump (next ∷ humps) e (h, b, hs) = ((e, h), b, hs)

upper_joined-cons :
    (c : ℕ) (hump : Bytes) (humps : List Bytes)
    → upper_joined ((c ∷ hump) ∷ humps) ≡ toupper c ∷ upper_joined (hump ∷ humps)
upper_joined-cons c hump [] = refl
upper_joined-cons c hump (next ∷ humps) = refl

to_all_upper_case-cons :
    (c : ℕ) (s : Bytes)
    → (hump : Bytes) × (humps : List Bytes) × AreHumps ((c ∷ hump) ∷ humps)
      × (c ∷ hump ++ flatten humps ≡ c ∷ s)
      × (to_all_upper_case (c ∷ s) ≡ upper_joined ((c ∷ hump) ∷ humps))
unfolding to_all_upper_case breaks_before flatten
to_all_upper_case-cons c [] = ([], [], tt, refl, refl)
to_all_upper_case-cons c (d ∷ s) =
    let (hump, humps, h, f, u) = to_all_upper_case-cons d s in
    elim (Bool-cases (breaks c d)) [
      | inl e ↦ ([], (d ∷ hump) ∷ humps, (tt, e, h), ap (λ t. c ∷ t) f, rw (e, u) refl)
      | inr e ↦ (
        d ∷ hump,
        humps,
        AreHumps-cons c d hump humps e h,
        ap (λ t. c ∷ t) f,
        rw (e, u) (sym (upper_joined-cons c (d ∷ hump) humps)),
      )
    ]

-- A word is cut at each place, and only there, where an upper case letter stands behind a lower case
-- one; `ToAllUpperCase` gives the parts in upper case, with one underscore between any two that follow
-- each other and nowhere else.
pub to_all_upper_case_lem :
    (w : Bytes)
    → (humps : List Bytes) × AreHumps humps
      × (flatten humps ≡ w)
      × (to_all_upper_case w ≡ upper_joined humps)
unfolding to_all_upper_case flatten
to_all_upper_case_lem [] = ([], tt, refl, refl)
to_all_upper_case_lem (c ∷ s) =
    let (hump, humps, h, f, u) = to_all_upper_case-cons c s in ((c ∷ hump) ∷ humps, h, f, u)

toupper_of_NotLower : (c : ℕ) → NotLower c → toupper c ≡ c
unfolding toupper
toupper_of_NotLower c h = ground arith

to_all_upper_case_of_NotLower : (w : Bytes) → All NotLower w → to_all_upper_case w ≡ w
unfolding to_all_upper_case
to_all_upper_case_of_NotLower [] h = refl
to_all_upper_case_of_NotLower (c ∷ []) h = ground (arith, toupper_of_NotLower c)
to_all_upper_case_of_NotLower (c ∷ d ∷ s) h =
    ground (arith, to_all_upper_case_of_NotLower (d ∷ s) h.1, toupper_of_NotLower c)

-- `ToAllUpperCase` applied to its own result changes nothing.
to_all_upper_case-to_all_upper_case :
    (w : Bytes) → to_all_upper_case (to_all_upper_case w) ≡ to_all_upper_case w
to_all_upper_case-to_all_upper_case w =
    to_all_upper_case_of_NotLower _ (to_all_upper_case-NotLower w)

-- A name and the same name with an underscore between a lower case letter and the upper case letter
-- behind it give one constant.
pub to_all_upper_case_collision :
    (p : Bytes) (a b : ℕ) (s : Bytes)
    → islower a ≡ true
    → isupper b ≡ true
    → to_all_upper_case (p ++ a ∷ b ∷ s) ≡ to_all_upper_case (p ++ a ∷ b'_' ∷ b ∷ s)
unfolding to_all_upper_case toupper isupper
to_all_upper_case_collision [] a b s lower upper = ground arith
to_all_upper_case_collision (c ∷ []) a b s lower upper =
    ground (arith, to_all_upper_case_collision [] a b s lower upper)
to_all_upper_case_collision (c ∷ d ∷ p) a b s lower upper =
    ground (arith, to_all_upper_case_collision (d ∷ p) a b s lower upper)
