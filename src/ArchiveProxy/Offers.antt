-- ===== src/ArchiveProxy/Offers.antt =====
-- `ArchiveProxy::offer` of src/ArchiveProxy.cpp: how often it calls the publication, and when it
-- gives up.
use aeron_archive_client.Prelude.{
  ℕ, zero, suc, ◌+◌, ◌-◌, ◌≤◌, ◌<◌, ◌≡◌, refl, ap, Bool, true, false, arith,
}
use aeron_archive_client.Prelude.Int.{ℤ, pos, negsuc, pos_part, ◌-ℤ◌, leb_ℤ}
use aeron_archive_client.Prelude.Result.{Error, Result, ok, err}
use aeron_archive_client.Prelude.Exec.{Exec}
use aeron_archive_client.ArchiveProxy.{ArchiveProxy, judge, offer_loop, offer}

pub data Verdict (r : Result Bool) : Type 0 where
  accept : r ≡ ok true → Verdict r
  retry : r ≡ ok false → Verdict r
  fail : (e : Error) → r ≡ err e → Verdict r

pub Verdict-cases : (r : Result Bool) → Verdict r
Verdict-cases (ok true) = accept refl
Verdict-cases (ok false) = retry refl
Verdict-cases (err e) = fail e refl

one_less : (n : ℕ) → pos (suc n) -ℤ pos 1 ≡ pos n
unfolding ◌-ℤ◌
one_less n = ground arith

more_left : (n : ℕ) → leb_ℤ (pos (suc n)) (pos 0) ≡ false
more_left n = ground arith

below_zero : (n : ℕ) → leb_ℤ (negsuc n) (pos 0) ≡ true
below_zero n = ground arith

less_left : (a : ℤ) → leb_ℤ a (pos 0) ≡ true → leb_ℤ (a -ℤ pos 1) (pos 0) ≡ true
unfolding ◌-ℤ◌
less_left (pos n) h = ground arith
less_left (negsuc n) h = ground arith

module _ {W Buffer : Type 0} (p : ArchiveProxy W Buffer) (buffer : Buffer) (length : ℕ) where
  abbrev call : W → ℤ × W
  call = p.publication.offer buffer (p.encoders.header_length + length)

  -- That many calls in a row gave a code after which the client tries again, with an idle after each.
  pub data Refused : ℕ → W → W → Type 0 where
    none_yet : {w : W} → Refused zero w w
    refused :
        {n : ℕ} {w w' : W} (result : ℤ)
        → (call w).0 ≡ result
        → judge p result ≡ ok false
        → Refused n (p.runtime.idle (call w).1) w'
        → Refused (suc n) w w'

  -- The last call, after `n` refused ones of at most `most`, gives the outcome; a `false` only if
  -- all calls were made.
  pub record Outcome (most : ℕ) (w : W) (outcome : Result Bool × W) : Type 0 where
    pub n : ℕ
    pub n_most : n ≤ most
    pub before : W
    pub earlier : Refused n w before
    pub last : judge p (call before).0 ≡ outcome.0
    pub world : (call before).1 ≡ outcome.1
    pub exhausted : outcome.0 ≡ ok false → n ≡ most

  -- One call, and `n` more while the client is told to try again.
  attempts : ℕ → Exec W Bool
  attempts zero w = (judge p (call w).0, (call w).1)
  attempts (suc n) w =
      let rest = attempts n (p.runtime.idle (call w).1) in
      elim (judge p (call w).0) [
        | ok true ↦ (ok true, (call w).1)
        | ok false ↦ rest
        | err e ↦ (err e, (call w).1)
      ]

  offer_loop-attempts :
      (fuel n : ℕ) (w : W)
      → n < fuel
      → offer_loop p fuel buffer length (pos (suc n)) w ≡ attempts n w
  unfolding offer_loop attempts
  offer_loop-attempts zero n w h = absurd (omega arith)
  offer_loop-attempts (suc fuel) zero w h = elim (Verdict-cases (judge p (call w).0)) [
    | accept e ↦ rw e
    | retry e ↦ rw (e, one_less)
    | fail x e ↦ rw e
  ]
  offer_loop-attempts (suc fuel) (suc n) w h = elim (Verdict-cases (judge p (call w).0)) [
    | accept e ↦ rw (e, attempts)
    | retry e ↦
        rw (e, attempts, one_less, more_left)
          (offer_loop-attempts fuel n (p.runtime.idle (call w).1) (omega arith))
    | fail x e ↦ rw (e, attempts)
  ]

  -- With no attempts, or a negative number, there is one call.
  offer_loop-none :
      (fuel : ℕ) (a : ℤ) (w : W)
      → leb_ℤ a (pos 0) ≡ true
      → offer_loop p (suc fuel) buffer length a w ≡ attempts zero w
  unfolding offer_loop attempts
  offer_loop-none fuel a w h = elim (Verdict-cases (judge p (call w).0)) [
    | accept e ↦ rw e
    | retry e ↦ rw (e, less_left a h)
    | fail x e ↦ rw e
  ]

  offer_loop-all :
      (a : ℤ) (w : W)
      → offer_loop p (pos_part a + 1) buffer length a w ≡ attempts (pos_part a - 1) w
  offer_loop-all (pos zero) w = offer_loop-none 0 (pos zero) w refl
  offer_loop-all (pos (suc n)) w =
      let e : suc n - 1 ≡ n = omega arith in
      rw e (offer_loop-attempts (suc n + 1) n w (omega arith))
  offer_loop-all (negsuc n) w = offer_loop-none 0 (negsuc n) w (below_zero n)

  attempts-Outcome : (n : ℕ) (w : W) → Outcome n w (attempts n w)
  unfolding attempts
  attempts-Outcome zero w = record {
    n = zero;
    n_most = omega arith;
    before = w;
    earlier = none_yet;
    last = refl;
    world = refl;
    exhausted = λ e. refl;
  }
  attempts-Outcome (suc n) w = elim (Verdict-cases (judge p (call w).0)) [
    | accept e ↦ record {
      n = zero;
      n_most = omega arith;
      before = w;
      earlier = none_yet;
      last = rw (e, attempts);
      world = rw (e, attempts);
      exhausted = λ q. absurd (ground (arith, e, q));
    }
    | retry e ↦
        let o = attempts-Outcome n (p.runtime.idle (call w).1) in
        record {
          n = suc o.n;
          n_most = omega (arith, o.n_most);
          before = o.before;
          earlier = refused (call w).0 refl e o.earlier;
          last = rw (e, attempts) o.last;
          world = rw (e, attempts) o.world;
          exhausted = λ q. ap suc (o.exhausted (rw (e, attempts) at q));
        }
    | fail x e ↦ record {
      n = zero;
      n_most = omega arith;
      before = w;
      earlier = none_yet;
      last = rw (e, attempts);
      world = rw (e, attempts);
      exhausted = λ q. absurd (ground (arith, e, q));
    }
  ]

  -- `offer` always comes to an end. It makes as many calls as `retryAttempts` says at most, and one
  -- at least; every call but the last gave a code after which it may be tried again, and the last one
  -- decides: a position gives `true`, a closed or disconnected publication or an exceeded position
  -- an exception, any other code `false`, and then all the calls were made.
  pub offer-Outcome : (w : W) → Outcome (pos_part p.retry_attempts - 1) w (offer p buffer length w)
  unfolding offer
  offer-Outcome w =
      rw (offer_loop-all p.retry_attempts w) (attempts-Outcome (pos_part p.retry_attempts - 1) w)
