-- ===== src/Samples/Publisher/Positions.antt =====
-- Where samples/RecordedBasicPublisher.cpp goes on with a recording: term id and offset.
use native.Mathlib.Nat.{pow-le-pow_right, mod-lt, div-add-mod', one-le-pow}
use aeron_archive_client.Prelude.{
  Bytes, ◌++◌, sym, Bool, true, false, ◌&&◌, ◌==◌, Bool-cases, inl, inr, ◌-◌, all, leb, ℕ, suc,
  zero, ◌+◌, ◌*◌, ◌/◌, ◌%◌, ◌^◌, ◌≤◌, ◌<◌, ◌≡◌, ◌↔◌, refl, ◌∙◌, ap, arith, List, [], ◌∷◌,
}
use aeron_archive_client.Prelude.Int.{ℤ, pos, IsInt32, to_int32-eq_of_range, ◌+ℤ◌, ◌-ℤ◌}
use aeron_archive_client.Prelude.Words.{and_int64-mask, shift_right}
use aeron_archive_client.Prelude.Result.{Result, ok, err}
use aeron_archive_client.Samples.Listings.{RecordingData}
use aeron_archive_client.Samples.Publisher.{
  extend_channel, extension, position_bits_to_shift, select_shift, shift_cases,
  compute_term_id_from_position, term_offset_of,
}

-- A case returns the exponent of its value, a power of two from 64 KiB to 1 GiB.
abbrev is_power : ℕ × ℕ → Bool
is_power (value, bits) = value == 2 ^ bits && (leb 16 bits && leb bits 30)

select_shift_power :
    (n k : ℕ) (cases : List (ℕ × ℕ))
    → all is_power cases ≡ true
    → select_shift (pos n) cases ≡ ok k
    → (16 ≤ k) × (k ≤ 30) × (n ≡ 2 ^ k)
unfolding select_shift
select_shift_power n k [] v h = cc
select_shift_power n k ((value, bits) ∷ more) v h = elim (Bool-cases (n == value)) [
  | inl hit ↦
      let same : bits ≡ k = let h' = rw hit at h in cc h' in
      let n_is : n ≡ 2 ^ bits = ground arith in
      (ground (arith, same), ground (arith, same), n_is ∙ ap (λ b. 2 ^ b) same)
  | inr miss ↦ select_shift_power n k more (ground arith) (rw miss at h)
]

-- The test that the exponents from 16 up to, but not including, 16 + n are found.
abbrev is_shift : Result ℕ → ℕ → Bool
is_shift (ok bits) k = bits == k
is_shift (err e) k = false

abbrev all_found : ℕ → Bool
all_found zero = true
all_found (suc n) = is_shift (position_bits_to_shift (pos (2 ^ (16 + n)))) (16 + n) && all_found n

found_below :
    (n j : ℕ)
    → all_found n ≡ true
    → j < n
    → is_shift (position_bits_to_shift (pos (2 ^ (16 + j)))) (16 + j) ≡ true
found_below zero j h l = absurd (omega arith)
found_below (suc n) j h l = elim (Bool-cases (j == n)) [
  | inl last ↦ let e : j ≡ n = ground arith in rw e (ground arith)
  | inr before ↦ found_below n j (ground arith) (ground arith)
]

is_shift-eq : (r : Result ℕ) (k : ℕ) → is_shift r k ≡ true → r ≡ ok k
is_shift-eq (ok bits) k h = let e : bits ≡ k = ground arith in rw e refl
is_shift-eq (err e) k h = cc

all_are_found : all_found 15 ≡ true
unfolding position_bits_to_shift select_shift
all_are_found = refl

-- The shift of a term length is its exponent, and only the powers of two from 64 KiB to 1 GiB have one.
pub position_bits_to_shift_iff :
    (n k : ℕ) → (position_bits_to_shift (pos n) ≡ ok k) ↔ ((16 ≤ k) × (k ≤ 30) × (n ≡ 2 ^ k))
unfolding position_bits_to_shift
position_bits_to_shift_iff n k = (
  λ h. select_shift_power n k shift_cases refl h,
  λ (low, high, e).
      let j : 16 + (k - 16) ≡ k = omega arith in
      let found =
        is_shift-eq (position_bits_to_shift (pos (2 ^ (16 + (k - 16))))) (16 + (k - 16))
          (found_below 15 (k - 16) all_are_found (omega (arith, low, high))) in
      let at_k = rw j at found in rw e at_k,
)

-- The channel to extend a recording with terms of `length` bytes: the publication starts in the term
-- that is `terms` behind the first one, at `offset`, which is the position where the recording stopped.
pub record GoesOnAt (channel : Bytes) (recording : RecordingData) (length terms offset : ℕ)
    : Type 0 where
  pub text :
      extend_channel channel recording
      ≡ ok (channel ++ extension recording (recording.initial_term_id +ℤ pos terms) (pos offset))
  pub within : offset < length
  pub position : recording.stop_position ≡ pos (terms * length + offset)

plus_commutes : (n : ℕ) (z : ℤ) → pos n +ℤ z ≡ z +ℤ pos n
unfolding ◌+ℤ◌
plus_commutes n z = ground arith

-- If a stopped recording's position fits `int64_t`, its term length is one of the switch's, and its
-- last term's id and distance from the first fit `int32_t`, then the publication starts at the
-- position where the recording stopped.
pub extend_channel-GoesOnAt :
    (channel : Bytes) (recording : RecordingData) (p n k : ℕ)
    → recording.term_buffer_length ≡ pos n
    → position_bits_to_shift (pos n) ≡ ok k
    → recording.stop_position ≡ pos p
    → p < 2 ^ 63
    → IsInt32 (pos (p / n))
    → IsInt32 (recording.initial_term_id +ℤ pos (p / n))
    → GoesOnAt channel recording n (p / n) (p % n)
unfolding extend_channel compute_term_id_from_position shift_right term_offset_of ◌-ℤ◌
extend_channel-GoesOnAt channel recording p n k len shift stops small terms_fit id_fits =
    let (low, high, n_is) = (position_bits_to_shift_iff n k).0 shift in
    let some_byte : 1 ≤ n = rw n_is (one-le-pow k 2 (omega arith)) in
    let n_small : n ≤ 2 ^ 30 = rw n_is (pow-le-pow_right {n = 2} (omega arith) high) in
    let n_fits = to_int32-eq_of_range (pos n) (ground (arith, n_small)) in
    let less : pos n -ℤ pos 1 ≡ pos (n - 1) = ground arith in
    let below : p % n < n = mod-lt p some_byte in
    let masked = and_int64-mask p k small (omega (arith, high)) in
    let mask = rw (sym n_is) at masked in
    let offset_fits = to_int32-eq_of_range (pos (p % n)) (ground (arith, below, n_small)) in
    let id_is = to_int32-eq_of_range (recording.initial_term_id +ℤ pos (p / n)) id_fits in
    let terms_are = to_int32-eq_of_range (pos (p / n)) terms_fit in
    record {
      text =
          rw
            (
              len,
              extend_channel,
              n_fits,
              shift,
              compute_term_id_from_position,
              term_offset_of,
              stops,
              len,
              less,
              mask,
              offset_fits,
              shift_right,
              sym n_is,
              terms_are,
              plus_commutes (p / n) recording.initial_term_id,
              id_is,
            )
            refl;
      within = below;
      position = stops ∙ ap pos (sym (div-add-mod' p n));
    }
