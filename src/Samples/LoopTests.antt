-- ===== src/Samples/LoopTests.antt =====
-- A replay of three fragments, and runs of the throughput test with two messages.
use aeron_archive_client.Prelude.{ℕ, zero, suc, ◌<◌, ◌≡◌, ◌≢◌, ◌⊎◌, refl, Bool, true, false, arith}
use aeron_archive_client.Prelude.Int.{ℤ, pos}
use aeron_archive_client.Prelude.Result.{ok}
use aeron_archive_client.Samples.Replayer.{ReplayApi, polling_loop}
use aeron_archive_client.Samples.Replayer.Drained.{Drains, Ended, polling_loop-Ended}
use aeron_archive_client.Samples.Throughput.{
  System, Run, waiting, tells_stop, stays, goes_on, on_stop,
}
use aeron_archive_client.Samples.Throughput.Sample.{at_start, at_start-IsInitial}
use aeron_archive_client.Samples.Throughput.Lost.{IsStuck, Run-IsStuck, lost_wake_up}

-- The world is the number of fragments left; a poll reads one.
abbrev read_one : ℕ → ℤ × ℕ
read_one zero = (pos 0, zero)
read_one (suc n) = (pos 1, n)

abbrev ask : ℕ → ℤ
ask zero = pos 1
ask (suc n) = pos 0

abbrev counting : ReplayApi ℕ
counting = record {
  is_running = λ n. true;
  poll = λ i limit n. read_one n;
  poll_end_of_streams = λ i n. (ask n, n);
  idle = λ k n. n;
}

takes_one : (n : ℕ) → 0 < n → ((read_one n).0 ≢ pos 0) × ((read_one n).1 < n)
takes_one zero h = absurd (omega arith)
takes_one (suc n) h = (λ e. cc, omega arith)

nothing_left : (n : ℕ) → n ≡ 0 → (counting.poll (pos 5) 10 n).0 ≡ pos 0
nothing_left zero h = refl
nothing_left (suc n) h = absurd (omega arith)

at_the_end :
    (n : ℕ)
    → n ≡ 0
    → (counting.poll_end_of_streams (pos 5) (counting.poll (pos 5) 10 n).1).0 ≢ pos 0
at_the_end zero h e = cc
at_the_end (suc n) h e = absurd (omega arith)

abbrev counting-Drains : Drains counting (pos 5)
counting-Drains = record {
  left = λ n. n;
  poll_takes = takes_one;
  poll_nothing = nothing_left;
  at_end = at_the_end;
  idle_keeps = λ k n. refl;
}

polling_loop-Ended_example :
    (reached_eos : Bool) × (n : ℕ) × (polling_loop counting 5 (pos 5) false 3 ≡ (ok reached_eos, n))
    × Ended counting (pos 5) reached_eos n
polling_loop-Ended_example = polling_loop-Ended counting (pos 5) counting-Drains 5 3 (omega arith)

lost_wake_up_example :
    (t : System) × Run (pos 2) false at_start t
    × IsStuck t
    × (t.published ≡ 2)
    × (t.stop_told ≡ false)
lost_wake_up_example =
    lost_wake_up (pos 2) false refl 1 at_start refl (omega arith) at_start-IsInitial

-- The wait with all of 64 bytes reported, and the same after a stop event.
abbrev stuck : System
stuck = record {
  phase = waiting;
  shared = record { is_recording = true; stop_position = pos 64 };
  published = 64;
  reported = 64;
  clear_due = false;
  stop_told = false;
  disturbed = false;
}

abbrev freed : System
freed = record stuck { shared = on_stop stuck.shared; stop_told = true }

freeing : Run (pos 2) false stuck freed
freeing = goes_on stuck freed stays (tells_stop refl refl)

Run-IsStuck_example : IsStuck freed ⊎ (freed.stop_told ≡ true) ⊎ (freed.disturbed ≡ true)
Run-IsStuck_example =
    Run-IsStuck (pos 2) false refl stuck freed
      (record { phase = refl; recording = refl; none_due = refl; all_reported = refl }) freeing
