-- ===== src/Prelude/Words.antt =====
-- The operators `&` and `>>` of C++ on 64-bit integers.
use Prim.Native.Nat.{ℕ, zero, suc, ◌+◌, ◌-◌, ◌*◌, ◌/◌, ◌%◌, ◌^◌, ◌≤◌, ◌<◌}
use mathlib.Core.Path.{◌≡◌, refl, ap, ◌∙◌}
use native.Mathlib.Nat.{
  div-add-mod, div-div-eq-div-mul, mul_assoc, pow-succ', one-le-pow, pow-le-pow_right, mod-lt,
}
use native.Mathlib.Omega.{arith}
use aeron_archive_client.Prelude.Tests.{ltb, if◌then◌else◌}
use aeron_archive_client.Prelude.Int.{ℤ, pos, negsuc}
use mathlib.Core.Bool.{true}

-- The `w` low bits that two numbers share.
unfoldable pub bit_and : ℕ → ℕ → ℕ → ℕ
bit_and zero a b = 0
bit_and (suc w) a b = bit_and w (a / 2) (b / 2) * 2 + (a % 2) * (b % 2)

-- An `int64_t` as its two's complement, and back.
abbrev word64 : ℤ → ℕ
word64 (pos n) = n % 2 ^ 64
word64 (negsuc n) = 2 ^ 64 - 1 - n % 2 ^ 64

abbrev signed64 : ℕ → ℤ
signed64 w = if ltb w (2 ^ 63) then pos w else negsuc (2 ^ 64 - w - 1)

unfoldable pub and_int64 : ℤ → ℤ → ℤ
and_int64 a b = signed64 (bit_and 64 (word64 a) (word64 b))

-- `a >> bits`, which rounds down.
unfoldable pub shift_right : ℤ → ℕ → ℤ
shift_right (pos n) bits = pos (n / 2 ^ bits)
shift_right (negsuc n) bits = negsuc (n / 2 ^ bits)

bit_and-zero : (w a : ℕ) → bit_and w a 0 ≡ 0
unfolding bit_and
bit_and-zero zero a = refl
bit_and-zero (suc w) a = omega (arith, bit_and-zero w (a / 2))

half_mod : (a p : ℕ) → a % (2 * p) ≡ (a / 2) % p * 2 + a % 2
half_mod a p = omega (
  arith,
  div-add-mod a (2 * p),
  div-add-mod (a / 2) p,
  div-div-eq-div-mul a 2 p,
  mul_assoc 2 p (a / (2 * p)),
  ap (λ q. p * q) (div-div-eq-div-mul a 2 p),
)

-- Masking with the `k` low bits is the remainder.
bit_and-mask : (w k a : ℕ) → k ≤ w → bit_and w a (2 ^ k - 1) ≡ a % 2 ^ k
unfolding bit_and
bit_and-mask w zero a h = bit_and-zero w a ∙ omega arith
bit_and-mask zero (suc k) a h = absurd (omega arith)
bit_and-mask (suc w) (suc k) a h =
    let p = 2 ^ k in
    let double : 2 ^ suc k ≡ 2 * p = pow-succ' 2 k in
    let some_bit : 1 ≤ p = one-le-pow k 2 (omega arith) in
    let half : (2 ^ suc k - 1) / 2 ≡ p - 1 = omega (arith, double, some_bit) in
    let odd : (2 ^ suc k - 1) % 2 ≡ 1 = omega (arith, double, some_bit) in
    rw (half, odd, bit_and-mask w k (a / 2) (omega arith))
      (omega (arith, half_mod a p, double, ap (λ q. a % q) double))

-- A position masked with a power of two less one.
pub and_int64-mask :
    (n k : ℕ) → n < 2 ^ 63 → k ≤ 62 → and_int64 (pos n) (pos (2 ^ k - 1)) ≡ pos (n % 2 ^ k)
unfolding and_int64
and_int64-mask n k small few =
    let some_bit : 1 ≤ 2 ^ k = one-le-pow k 2 (omega arith) in
    let bounded : 2 ^ k ≤ 2 ^ 62 = pow-le-pow_right {n = 2} (omega arith) few in
    let same_n : n % 2 ^ 64 ≡ n = omega arith in
    let same_mask : (2 ^ k - 1) % 2 ^ 64 ≡ 2 ^ k - 1 = omega (arith, bounded) in
    let below : n % 2 ^ k < 2 ^ k = mod-lt n some_bit in
    let least : ltb (n % 2 ^ k) (2 ^ 63) ≡ true = ground (arith, below, bounded) in
    rw (same_n, same_mask, bit_and-mask 64 k n (omega (arith, few)), least) refl
