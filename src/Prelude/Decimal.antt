-- ===== src/Prelude/Decimal.antt =====
-- `std::to_string` of an integer.
use Prim.Native.Nat.{ℕ, zero, suc, ◌+◌, ◌-◌, ◌*◌, ◌/◌, ◌%◌, ◌<◌}
use mathlib.Core.Path.{◌≡◌, refl, sym, ap, ◌∙◌}
use mathlib.Core.Logic.{◌≢◌}
use mathlib.Core.Logic.{inl, inr}
use mathlib.Core.Bool.{Bool, true, ◌&&◌, ◌||◌}
use mathlib.Core.List.{[], ◌∷◌, ◌++◌}
use native.Mathlib.Omega.{arith}
use aeron_archive_client.Prelude.Tests.{ltb, leb, ◌==◌, if◌then◌else◌, Bool-cases}
use aeron_archive_client.Prelude.Lists.{all, all-append, all_mono}
use aeron_archive_client.Prelude.Text.{Bytes}
use aeron_archive_client.Prelude.Int.{ℤ, pos, negsuc}

-- The digits of `n`, most significant first; `n + 1` rounds are enough.
digits : ℕ → ℕ → Bytes
digits zero n = []
digits (suc fuel) n =
    let more = digits fuel (n / 10) ++ (48 + n % 10) ∷ [] in
    if ltb n 10 then (48 + n) ∷ [] else more

unfoldable pub decimal : ℕ → Bytes
unfolding digits
decimal n = digits (n + 1) n

unfoldable pub to_string : ℤ → Bytes
unfolding decimal
to_string (pos n) = decimal n
to_string (negsuc n) = b'-' ∷ decimal (n + 1)

-- The number that a digit string stands for, read from the left.
abbrev value_from : ℕ → Bytes → ℕ
value_from acc [] = acc
value_from acc (c ∷ cs) = value_from (acc * 10 + (c - 48)) cs

abbrev pub is_digit : ℕ → Bool
is_digit c = leb 48 c && leb c 57

value_from-append :
    (acc : ℕ) (xs ys : Bytes) → value_from acc (xs ++ ys) ≡ value_from (value_from acc xs) ys
value_from-append acc [] ys = refl
value_from-append acc (x ∷ xs) ys = value_from-append (acc * 10 + (x - 48)) xs ys

value_from-digits : (fuel n : ℕ) → n < fuel → value_from 0 (digits fuel n) ≡ n
unfolding digits
value_from-digits zero n h = elim h [ ]
value_from-digits (suc fuel) n h = elim (Bool-cases (ltb n 10)) [
  | inl small ↦ rw small (omega arith)
  | inr big ↦ rw big (
      value_from-append 0 (digits fuel (n / 10)) ((48 + n % 10) ∷ [])
      ∙ omega (arith, value_from-digits fuel (n / 10) (ground arith)))
]

digits_are_digits : (fuel n : ℕ) → all is_digit (digits fuel n) ≡ true
unfolding digits
digits_are_digits zero n = refl
digits_are_digits (suc fuel) n = ground (
  arith,
  digits_are_digits fuel (n / 10),
  all-append is_digit (digits fuel (n / 10)) ((48 + n % 10) ∷ []),
)

pub all-decimal : (n : ℕ) → all is_digit (decimal n) ≡ true
unfolding decimal
all-decimal n = digits_are_digits (n + 1) n

pub value-decimal : (n : ℕ) → value_from 0 (decimal n) ≡ n
unfolding decimal
value-decimal n = value_from-digits (n + 1) n (omega arith)

pub decimal_injective : (n m : ℕ) → decimal n ≡ decimal m → n ≡ m
decimal_injective n m h = sym (value-decimal n) ∙ ap (value_from 0) h ∙ value-decimal m

-- A byte that may stand in a printed integer.
abbrev pub is_numeric : ℕ → Bool
is_numeric c = is_digit c || c == b'-'

pub all-to_string : (z : ℤ) → all is_numeric (to_string z) ≡ true
unfolding to_string
all-to_string (pos n) =
    all_mono is_digit is_numeric (λ c h. ground arith) (decimal n) (all-decimal n)
all-to_string (negsuc n) =
    all_mono is_digit is_numeric (λ c h. ground arith) (decimal (n + 1)) (all-decimal (n + 1))

digit-ne-minus : (n m : ℕ) (rest : Bytes) → decimal n ≢ b'-' ∷ rest
digit-ne-minus n m rest h = let d = all-decimal n in let e = rw h at d in cc e

-- Integers that print alike are equal.
pub to_string_injective : (a b : ℤ) → to_string a ≡ to_string b → a ≡ b
unfolding to_string
to_string_injective (pos n) (pos m) h = ap pos (decimal_injective n m h)
to_string_injective (pos n) (negsuc m) h = absurd (digit-ne-minus n m (decimal (m + 1)) h)
to_string_injective (negsuc n) (pos m) h = absurd (digit-ne-minus m n (decimal (n + 1)) (sym h))
to_string_injective (negsuc n) (negsuc m) h =
    let e = decimal_injective (n + 1) (m + 1) (cc h) in ground arith
