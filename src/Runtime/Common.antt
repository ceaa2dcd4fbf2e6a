-- ===== src/Runtime/Common.antt =====
-- What the run-time library's models share: outcomes of code that may throw, and integers of 32 bits.
pub use Prim.Native.Nat.{◌*◌, ◌/◌, ◌%◌, ◌^◌}
use Prim.Native.Nat.{compare, Ordering}
use rsocket_rpc_kotlin.Base.{ℕ, ◌+◌, ◌-◌, Bool, true, false, if◌then◌else◌}

-- What a call gives: a value, or something thrown.
pub data Result {ℓ} (E : Type 0) (A : Type ℓ) : Type ℓ where
  ok : A → Result E A
  threw : E → Result E A

infixl 5 ◌>>=◌
abbrev pub ◌>>=◌ {ℓ κ} :
    {E : Type 0} {A : Type ℓ} {B : Type κ} → Result E A → (A → Result E B) → Result E B
ok a >>= f = f a
threw e >>= f = threw e

abbrev pub ltb : ℕ → ℕ → Bool
ltb a b = elim (compare a b) [ Ordering.lt ↦ true | _ ↦ false ]

-- An Int is its bit pattern, a number below 2 ^ 32; a Short is one below 2 ^ 16.
abbrev pub int_add : ℕ → ℕ → ℕ
int_add a b = (a + b) % 2 ^ 32

abbrev pub int_sub : ℕ → ℕ → ℕ
int_sub a b = (a + 2 ^ 32 - b) % 2 ^ 32

-- `a > b`, on the numbers with sign that the patterns stand for.
abbrev pub int_greater : ℕ → ℕ → Bool
int_greater a b = ltb ((b + 2 ^ 31) % 2 ^ 32) ((a + 2 ^ 31) % 2 ^ 32)

abbrev pub is_negative : ℕ → Bool
is_negative a = int_greater 0 a

-- `Short.toInt()` repeats the sign.
abbrev pub short_to_int : ℕ → ℕ
short_to_int s = if ltb s (2 ^ 15) then s else s + (2 ^ 32 - 2 ^ 16)

abbrev pub is_positive : ℕ → Bool
is_positive a = int_greater a 0
