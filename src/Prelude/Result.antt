-- ===== src/Prelude/Result.antt =====
-- The outcome of code that may throw: a value, or the exception with the data its message shows.
use mathlib.Core.Path.{◌≡◌, refl}
use mathlib.Core.Logic.{◌⊎◌, inl, inr}
use aeron_archive_client.Prelude.Text.{Bytes}
use aeron_archive_client.Prelude.Int.{ℤ}
use Prim.Native.Nat.{ℕ}

pub data Error : Type 0 where
  -- `IllegalArgumentException` of ChannelUri.cpp
  missing_scheme : Bytes → Error
  colon_in_media : Error
  no_more_input : ℕ → Error
  -- `std::runtime_error` of util/PropertiesReader
  cannot_open : Bytes → Error
  no_value : Bytes → Error
  key_not_found : Bytes → Error
  -- what `catch (const std::exception& e) { throw e; }` leaves of an exception: its base class
  sliced : Error
  -- an exception of code outside the repository, such as a failed `lexical_cast` or SBE encoder
  foreign : Bytes → Error
  -- `ArchiveException`
  publication_closed not_connected max_position_exceeded not_implemented : Error
  unknown_template : ℕ → Error
  descriptor_failed : ℤ → Bytes → Error
  cannot_connect : Bytes → Error
  error_response : Bytes → ℤ → Error
  already_added : Bytes → ℤ → Error
  no_response_connection : Bytes → ℤ → Error
  unexpected_error : Bytes → ℤ → Error
  unexpected_code : ℤ → Error
  call_failed : ℤ → Bytes → ℤ → Error
  subscription_lost : Error
  awaiting_response : ℤ → Error
  awaiting_descriptors : ℤ → Error
  failed_to_send : Bytes → Error
  -- exceptions of the samples
  invalid_term_length : ℤ → Error
  illegal_state : Bytes → Error
  -- not an exception: the fuel of a loop's model ran out
  out_of_fuel : Error

pub data Result {ℓ} (A : Type ℓ) : Type ℓ where
  ok : A → Result A
  err : Error → Result A

-- The next step is run unless an exception was thrown.
module _ {ℓ κ} {A : Type ℓ} {B : Type κ} where
  infixl 5 ◌>>=◌
  abbrev pub ◌>>=◌ : Result A → (A → Result B) → Result B
  r >>= next = elim r [ err thrown ↦ err thrown | ok value ↦ next value ]

  -- Both steps of a chain that returns have returned.
  pub bind-eq-ok :
      (r : Result A) (next : A → Result B) {y : B}
      → (r >>= next) ≡ ok y
      → (x : A) × (r ≡ ok x) × (next x ≡ ok y)
  bind-eq-ok (err thrown) next chained = cc
  bind-eq-ok (ok x) next chained = (x, refl, chained)

infixl 5 ◌>>◌
abbrev pub ◌>>◌ {ℓ} : {B : Type ℓ} → Result (Unit {0}) → Result B → Result B
first >> second = first >>= λ done. second

pub Result-cases {ℓ} :
    {A : Type ℓ} (r : Result A) → ((a : A) × (r ≡ ok a)) ⊎ ((e : Error) × (r ≡ err e))
Result-cases (err e) = inr (e, refl)
Result-cases (ok a) = inl (a, refl)
