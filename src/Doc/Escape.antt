-- ===== src/Doc/Escape.antt =====
-- What `EscapeKotlindoc` returns.
use rsocket_rpc_kotlin.Base.{
  ℕ, Bytes, codes, Bool, true, false, [], ◌∷◌, ◌++◌, Option, none, some, ◌==◌, ◌&&◌, if◌then◌else◌,
  ◌≡◌, ◌≢◌, refl, arith, All, All-append,
}
use rsocket_rpc_kotlin.Doc.{escape_char, escape_loop, escape_kotlindoc}

test_escape : escape_kotlindoc (codes "/a*/ /* @b") ≡ codes "&#47;a*&#47; /&#42; &#64;b"
unfolding escape_kotlindoc
test_escape = refl

abbrev name_eq : Bytes → Bytes → Bool
name_eq [] [] = true
name_eq [] (y ∷ t) = false
name_eq (x ∷ s) [] = false
name_eq (x ∷ s) (y ∷ t) = x == y && name_eq s t

-- The character references of HTML that stand for one of the escaped bytes, between `&` and `;`.
-- Any other stands for no byte.
reference : Bytes → Bytes
reference name =
    if name_eq name (codes "#42")
    then b'*' ∷ []
    else if name_eq name (codes "#47")
    then b'/' ∷ []
    else if name_eq name (codes "#64")
    then b'@' ∷ []
    else if name_eq name (codes "lt")
    then b'<' ∷ []
    else if name_eq name (codes "gt")
    then b'>' ∷ []
    else if name_eq name (codes "amp")
    then b'&' ∷ []
    else if name_eq name (codes "#92")
    then b'\\' ∷ []
    else []

-- How a reader of HTML shows a text: `some name` is the state inside a reference.
pub read_html : Bytes → Option Bytes → Bytes
unfolding reference
read_html [] mode = []
read_html (c ∷ s) none =
    let plain = read_html s none in
    let inside = read_html s (some []) in if c == b'&' then inside else c ∷ plain
read_html (c ∷ s) (some name) =
    let after = read_html s none in
    let inside = read_html s (some (name ++ c ∷ [])) in
    if c == b';' then reference name ++ after else inside

read_html-escape_char :
    (prev c : ℕ) (rest : Bytes)
    → read_html (escape_char prev c ++ rest) none ≡ c ∷ read_html rest none
unfolding read_html escape_char
read_html-escape_char prev c rest = ground arith

read_html-escape_loop : (s : Bytes) (prev : ℕ) → read_html (escape_loop s prev) none ≡ s
unfolding escape_loop
read_html-escape_loop [] prev = unfold read_html in refl
read_html-escape_loop (c ∷ s) prev =
    rw (read_html-escape_char prev c (escape_loop s c), read_html-escape_loop s c)

-- Read as HTML, an escaped comment shows the comment as it was written.
pub read_html-escape_kotlindoc :
    (comments : Bytes) → read_html (escape_kotlindoc comments) none ≡ comments
unfolding escape_kotlindoc
read_html-escape_kotlindoc comments = read_html-escape_loop comments b'*'

-- No byte `b` directly behind a byte `a`, in a text that follows the byte `q`.
abbrev pub Avoids : ℕ → ℕ → ℕ → Bytes → Type 0
Avoids a b q [] = Unit {0}
Avoids a b q (c ∷ s) = ((q == a && c == b) ≡ false) × Avoids a b c s

abbrev pub last : ℕ → Bytes → ℕ
last q [] = q
last q (c ∷ s) = last c s

pub Avoids-append :
    (a b q : ℕ) (s t : Bytes) → Avoids a b q s → Avoids a b (last q s) t → Avoids a b q (s ++ t)
Avoids-append a b q [] t hs ht = ht
Avoids-append a b q (c ∷ s) t (hc, hs) ht = (hc, Avoids-append a b c s t hs ht)

-- What one round appends, where the text so far ends in a byte `q` that is `*` only if `prev` is.
escape_char-Avoids_close :
    (q prev c : ℕ)
    → (q ≡ b'*' → prev ≡ b'*')
    → Avoids b'*' b'/' q (escape_char prev c) × (last q (escape_char prev c) ≡ b'*' → c ≡ b'*')
unfolding escape_char
escape_char-Avoids_close q prev c h = ground arith

escape_loop-Avoids_close :
    (s : Bytes) (q prev : ℕ) → (q ≡ b'*' → prev ≡ b'*') → Avoids b'*' b'/' q (escape_loop s prev)
unfolding escape_loop
escape_loop-Avoids_close [] q prev h = tt
escape_loop-Avoids_close (c ∷ s) q prev h =
    let (step, next) = escape_char-Avoids_close q prev c h in
    Avoids-append b'*' b'/' q (escape_char prev c) (escape_loop s c) step
      (escape_loop-Avoids_close s _ c next)

escape_char-Avoids_open :
    (q prev c : ℕ)
    → (q ≡ b'/' → prev ≡ b'/')
    → Avoids b'/' b'*' q (escape_char prev c) × (last q (escape_char prev c) ≡ b'/' → c ≡ b'/')
unfolding escape_char
escape_char-Avoids_open q prev c h = ground arith

escape_loop-Avoids_open :
    (s : Bytes) (q prev : ℕ) → (q ≡ b'/' → prev ≡ b'/') → Avoids b'/' b'*' q (escape_loop s prev)
unfolding escape_loop
escape_loop-Avoids_open [] q prev h = tt
escape_loop-Avoids_open (c ∷ s) q prev h =
    let (step, next) = escape_char-Avoids_open q prev c h in
    Avoids-append b'/' b'*' q (escape_char prev c) (escape_loop s c) step
      (escape_loop-Avoids_open s _ c next)

-- Neither a tag of the documentation tool, nor HTML, nor an escape sequence of Kotlin.
abbrev pub IsPlain : ℕ → Type 0
IsPlain c = (c ≢ b'@') × (c ≢ b'<') × (c ≢ b'>') × (c ≢ b'\\')

escape_char-IsPlain : (prev c : ℕ) → All IsPlain (escape_char prev c)
unfolding escape_char
escape_char-IsPlain prev c = ground arith

escape_loop-IsPlain : (s : Bytes) (prev : ℕ) → All IsPlain (escape_loop s prev)
unfolding escape_loop
escape_loop-IsPlain [] prev = tt
escape_loop-IsPlain (c ∷ s) prev =
    All-append _ (escape_char prev c) (escape_loop s c) (escape_char-IsPlain prev c)
      (escape_loop-IsPlain s c)

-- An escaped comment, put behind an asterisk, holds no `*/`; put behind a byte that is no slash, it
-- holds no `/*`; and it holds no `@`, `<`, `>` or backslash.
pub escape_kotlindoc_safe :
    (comments : Bytes) (q : ℕ)
    → q ≢ b'/'
    → Avoids b'*' b'/' b'*' (escape_kotlindoc comments)
      × Avoids b'/' b'*' q (escape_kotlindoc comments)
      × All IsPlain (escape_kotlindoc comments)
unfolding escape_kotlindoc
escape_kotlindoc_safe comments q h = (
  escape_loop-Avoids_close comments b'*' b'*' (λ e. e),
  escape_loop-Avoids_open comments q b'*' (λ e. absurd (h e)),
  escape_loop-IsPlain comments b'*',
)
