-- ===== src/Prelude/Int.antt =====
-- Python's `int`: integers and `int(text)` on decimal digits.
use triton_control.Prelude.Tests.{leb, ltb, beq, if◌then◌else◌}
use triton_control.Prelude.Str.{strip}
use Prim.Native.Nat.{ℕ, suc, ◌+◌, ◌*◌, ◌-◌, ◌/◌, ◌%◌, min, max}
use Prim.Native.Char.{Char, code, nul}
use Prim.Native.String.{String, [], ◌∷◌}
use mathlib.Core.Path.{◌≡◌, refl}
use mathlib.Core.Bool.{Bool, true, false, ◌&&◌}
use mathlib.Core.Option
use mathlib.Core.Option.{Option, none, some}

-- `negsuc n` is -(n + 1)
pub data ℤ : Type 0 where
  pos : ℕ → ℤ
  negsuc : ℕ → ℤ

-- The digits that are left, the number so far, and whether the last character was a digit; a
-- single `_` may stand between two digits.
digits : String → ℕ → Bool → Option ℕ
digits [] n last = if last then some n else none
digits (c ∷ s) n last =
    let digit = leb 48 (code c) && leb (code c) 57 in
    let joint = beq (code c) b'_' && last in
    if digit
    then digits s (n * 10 + (code c - 48)) true
    else let rest = digits s n false in if joint then rest else none

abbrev minus : ℕ → ℤ
minus n = elim n [ Prim.Native.Nat.ℕ.zero ↦ pos 0 | suc m ↦ negsuc m ]

signed : String → Option ℤ
unfolding digits
signed [] = none
signed (c ∷ s) =
    if beq (code c) b'-'
    then Option.map minus (digits s 0 false)
    else if beq (code c) b'+'
    then Option.map pos (digits s 0 false)
    else Option.map pos (digits (c ∷ s) 0 false)

-- int(text); none for a ValueError
unfoldable pub int : String → Option ℤ
unfolding signed strip
int s = signed (strip s)

-- max(lo, min(hi, value)) for bounds that are not negative
abbrev pub clamp : ℕ → ℕ → ℤ → ℕ
clamp lo hi (pos n) = max lo (min hi n)
clamp lo hi (negsuc n) = lo

-- max(lo, value)
abbrev pub at_least : ℕ → ℤ → ℕ
at_least lo (pos n) = max lo n
at_least lo (negsuc n) = lo

-- the n-th character of a text, or a space
char_of : String → ℕ → Char
char_of [] n = nul
char_of (c ∷ s) n = elim n [ Prim.Native.Nat.ℕ.zero ↦ c | suc m ↦ char_of s m ]

-- the decimal digits of a number before those that are there, with fuel
decimal_from : ℕ → ℕ → String → String
unfolding char_of
decimal_from Prim.Native.Nat.ℕ.zero n s = s
decimal_from (suc fuel) n s =
    let here = char_of "0123456789" (n % 10) ∷ s in
    let rest = decimal_from fuel (n / 10) here in if ltb n 10 then here else rest

-- str(n); a number has no more digits than n + 1
unfoldable pub decimal : ℕ → String
unfolding decimal_from
decimal n = decimal_from (suc n) n ""

decimal-test : decimal 1440 ≡ "1440"
unfolding decimal
decimal-test = refl

int-test : int " 1_440 " ≡ some (pos 1440)
unfolding int
int-test = refl

int_minus : int "-12" ≡ some (negsuc 11)
unfolding int
int_minus = refl

int_bad : int "12x" ≡ none
unfolding int
int_bad = refl
