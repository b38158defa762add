-- ===== src/AeronArchive/Finished.antt =====
-- The list requests of src/AeronArchive.cpp end, whatever waits, readable or not.
use aeron_archive_client.Prelude.{
  IsRest, IsRest-drop, [], sym, refl, true, ℕ, zero, suc, ◌+◌, ◌≤◌, ◌<◌, ◌≡◌, inl, inr, ◌∙◌, false,
  not, List, ◌∷◌, drop, length, list_cases, drop_shorter, ltb, Bool-cases, arith, if◌then◌else◌,
}
use aeron_archive_client.Prelude.Int.{ℤ, pos, ltb_ℤ, ◌-ℤ◌, ◌==ℤ◌}
use aeron_archive_client.Prelude.Result.{
  Error, Result, ok, err, subscription_lost, awaiting_descriptors, Result-cases,
}
use aeron_archive_client.Prelude.Exec.{Exec, raise, get_state, ◌>>=◌, ◌>>◌}
use aeron_archive_client.Aeron.Delivered.{deliver_first}
use aeron_archive_client.Aeron.Finite.{Finite, Finite-Silence}
use aeron_archive_client.Aeron.Subscription.{deliver}
use aeron_archive_client.RecordingDescriptorPoller.Kept.{Serves, deliver-Serves}
use aeron_archive_client.RecordingDescriptorPoller
use aeron_archive_client.RecordingDescriptorPoller.{Consumer, DescriptorPoller, on_fragment, reset}
use aeron_archive_client.AeronArchive.Base.{AeronArchive, State, runtime, fragment_limit}
use aeron_archive_client.AeronArchive.Polling.{
  now, invoke, idle, descriptors_loop, poll_for_descriptors,
}
use aeron_archive_client.AeronArchive.Timeouts.{
  GaveUp, lost, timed_out, is_false, descriptors_loop-GaveUp,
}

-- A list request: its correlation id, record count and consumer.
pub record Asked : Type 0 where
  pub correlation_id : ℤ
  pub record_count : ℤ
  pub consumer : Consumer

module _ {W Buffer M : Type 0} (a : AeronArchive W Buffer M)
    (finite : Finite a.subscription (runtime a)) (waiting : List M) where
  open finite use {polls, pending, ticks}

  -- How a list request ends: the dispatch is complete, and the number of the records that came is
  -- returned; or the last poll, with this request's consumer and when some of the messages were taken
  -- that were waiting, throws this exception and leaves this state; or it gives up, not before the time `earliest`.
  pub data Ended (q : Asked) (earliest : ℕ) : Result ℤ × State W → Type 0 where
    returned :
        {s : State W}
        → s.descriptors.is_dispatch_complete ≡ true
        → Ended q earliest (ok (q.record_count -ℤ s.descriptors.remaining_record_count), s)
    threw :
        {e : Error} {s : State W} (d : DescriptorPoller) (w : W)
        → Serves q.correlation_id q.consumer d
        → IsRest waiting (pending w)
        → RecordingDescriptorPoller.poll a.decoders a.control_session_id a.subscription
            fragment_limit d w
          ≡ (err e, s.descriptors, s.world)
        → Ended q earliest (err e, s)
    gave_up :
        {r : Result ℤ × State W} (deadline : ℕ)
        → earliest ≤ deadline
        → GaveUp a (Finite-Silence finite) (awaiting_descriptors q.correlation_id) deadline r
        → Ended q earliest r

  -- A poll with messages at hand takes one at least, and serves the same request afterwards.
  polled :
      (q : Asked) (s : State W) (m : M) (ms : List M)
      → pending s.world ≡ m ∷ ms
      → Serves q.correlation_id q.consumer s.descriptors
      → (r : Result ℤ) × (d : DescriptorPoller) × (n : ℕ) × (RecordingDescriptorPoller.poll
            a.decoders a.control_session_id a.subscription fragment_limit s.descriptors s.world
          ≡ (r, d, polls.after fragment_limit n s.world))
        × (0 < n)
        × Serves q.correlation_id q.consumer d
  unfolding RecordingDescriptorPoller.poll
  polled q s m ms e serves =
      let handler = on_fragment a.decoders a.control_session_id in
      let object = record s.descriptors { is_dispatch_complete = false } in
      let (rest, offered) = finite.offers fragment_limit s.world m ms (omega arith) e in
      let law = polls.controlled_poll_lem DescriptorPoller handler fragment_limit object s.world in
      let d = deliver handler (polls.available fragment_limit s.world) 0 object in
      (
        _,
        d.object,
        d.handed,
        law,
        rw offered (deliver_first handler m rest 0 object),
        deliver-Serves a.decoders a.control_session_id q.correlation_id q.consumer
            (polls.available fragment_limit s.world) s.descriptors serves,
      )

  abbrev Ready : Asked → ℕ → ℕ → ℕ → State W → Type 0
  Ready q earliest fuel deadline s =
      (earliest ≤ deadline)
      × (deadline ≤ ticks.time s.world + a.message_timeout_ns)
      × (length (pending s.world) + a.message_timeout_ns + 2 ≤ fuel)
      × Serves q.correlation_id q.consumer s.descriptors
      × IsRest waiting (pending s.world)

  -- The end of a round, which `poll_for_descriptors` calls `go_on`, after a poll with this result.
  abbrev go_on : ℕ → ℤ → ℤ → ℤ → ℤ → ℕ → Exec (State W) ℤ
  go_on fuel fragments correlation_id record_count remaining deadline = do
    invoke a
    s ← get_state
    let more = descriptors_loop a fuel correlation_id record_count remaining deadline
    let wait = do
      t ← now a
      let again = do idle a; more
      if ltb deadline t then raise (awaiting_descriptors correlation_id) else again
    if ltb_ℤ (pos 0) fragments
        then more
        else if not (a.subscription.is_connected s.world)
        then raise subscription_lost
        else wait

  go_on-Ended :
      (q : Asked) (earliest fuel : ℕ) (fragments : ℤ) (deadline : ℕ) (s : State W)
      → ((s' : State W)
          → Ready q earliest fuel deadline s'
          → Ended q earliest (
              descriptors_loop a fuel q.correlation_id q.record_count
                s'.descriptors.remaining_record_count deadline s'))
      → Ready q earliest fuel deadline s
      → Ended q earliest (
          go_on fuel fragments q.correlation_id q.record_count s.descriptors.remaining_record_count
            deadline s)
  go_on-Ended q earliest fuel fragments dl s more (l, u, f, serves, rest) =
      let rt = runtime a in
      let w = rt.invoke s.world in
      let read = rt.now w in
      let same : pending w ≡ pending s.world = finite.invoke_keeps s.world in
      elim (Bool-cases (ltb_ℤ (pos 0) fragments)) [
        | inl some_read ↦ rw some_read (
            more (record s { world = w })
              (l, omega (arith, u, ticks.invoke_keeps s.world), rw same f, serves, rw same rest))
        | inr none_read ↦ elim (Bool-cases (not (a.subscription.is_connected w))) [
          | inl gone ↦
              rw (none_read, gone) (gave_up dl l (lost (is_false a (Finite-Silence finite) _ gone)))
          | inr there ↦ elim (Bool-cases (ltb dl read.0)) [
            | inl late ↦
                rw (none_read, there, late)
                  (gave_up dl l (timed_out (ground (arith, ticks.now_reads w, ticks.now_keeps w))))
            | inr early ↦
                let next = rt.idle read.1 in
                let same' : pending next ≡ pending s.world =
                  finite.idle_keeps read.1 ∙ finite.now_keeps w ∙ same in
                rw (none_read, there, early)
                  (more (record s { world = next })
                    (
                      l,
                      omega (
                        arith,
                        u,
                        ticks.invoke_keeps s.world,
                        ticks.now_keeps w,
                        ticks.idle_ticks read.1,
                      ),
                      rw same' f,
                      serves,
                      rw same' rest,
                    ))
          ]
        ]
      ]

  descriptors_loop-Ended :
      (q : Asked) (earliest fuel : ℕ) (deadline : ℕ) (s : State W)
      → Ready q earliest fuel deadline s
      → Ended q earliest (
          descriptors_loop a fuel q.correlation_id q.record_count
            s.descriptors.remaining_record_count deadline s)
  unfolding descriptors_loop
  descriptors_loop-Ended q earliest zero dl s (l, u, f, serves, rest) = absurd (omega (arith, f))
  descriptors_loop-Ended q earliest (suc fuel) dl s (l, u, f, serves, rest) =
      elim (list_cases (pending s.world)) [
        | inl none_left ↦ gave_up dl l (
            descriptors_loop-GaveUp a (Finite-Silence finite) (suc fuel) q.correlation_id
              q.record_count dl s none_left (omega arith) (omega (arith, u, f)))
        | inr (m, ms, e) ↦
            let (r, d, j, poll_is, some_taken, serves1) = polled q s m ms e serves in
            let w = polls.after fragment_limit j s.world in
            let s1 : State W = record s { descriptors = d; world = w } in
            let read = (runtime a).now w in
            let s2 : State W = record s1 { world = read.1 } in
            let left : pending w ≡ drop j (pending s.world) =
              finite.takes fragment_limit j s.world in
            let fewer : length (pending w) < length (pending s.world) =
              rw left (drop_shorter j (pending s.world) ms m some_taken e) in
            let later = finite.after_keeps fragment_limit j s.world in
            let rest1 : IsRest waiting (pending w) =
              rw left (IsRest-drop waiting (pending s.world) j rest) in
            let more = λ (dl' : ℕ) (s' : State W). descriptors_loop-Ended q earliest fuel dl' s' in
            elim (Result-cases r) [
              | inr (x, bad) ↦
                  rw (poll_is, bad)
                    (threw s.descriptors s.world serves rest (rw (poll_is, bad) refl))
              | inl (k, good) ↦ elim (Bool-cases d.is_dispatch_complete) [
                | inl complete ↦ rw (poll_is, good, complete) (returned complete)
                | inr open_yet ↦
                    elim (Bool-cases
                      (not (s.descriptors.remaining_record_count ==ℤ d.remaining_record_count))) [
                        | inr unchanged ↦
                            rw (poll_is, good, open_yet, unchanged)
                              (go_on-Ended q earliest fuel k dl s1 (more dl) (
                                l,
                                omega (arith, u, later),
                                omega (arith, f, fewer),
                                serves1,
                                rest1,
                              ))
                        | inl changed ↦
                            let same : pending read.1 ≡ pending w = finite.now_keeps w in
                            let ready : Ready q earliest fuel (read.0 + a.message_timeout_ns) s2 = (
                              omega (arith, l, u, later, ticks.now_reads w),
                              omega (arith, ticks.now_reads w, ticks.now_keeps w),
                              rw same (omega (arith, f, fewer)),
                              serves1,
                              rw same rest1,
                            ) in
                            rw (poll_is, good, open_yet, changed)
                              (go_on-Ended q earliest fuel k (read.0 + a.message_timeout_ns) s2
                                (more _) ready)
                      ]
              ]
            ]
      ]

module _ {W Buffer M : Type 0} (a : AeronArchive W Buffer M)
    (finite : Finite a.subscription (runtime a)) where
  open finite use {pending, ticks}

  -- If finitely many messages wait, of whatever kind, and no more arrive, then a list request ends, for any
  -- consumer and any record count: it returns, its dispatch complete, with the number of the records
  -- that came; or with the exception of its last poll, while some of the waiting messages are taken,
  -- made with its own consumer; or it gives up: with the exception for a lost
  -- subscription or, after the message timeout, for the request. A round of fuel for each message and
  -- each nanosecond of the timeout, and two more, are enough.
  pub poll_for_descriptors-Ended :
      (fuel : ℕ) (correlation_id record_count : ℤ) (consumer : Consumer) (s : State W)
      → length (pending s.world) + a.message_timeout_ns + 2 ≤ fuel
      → Ended a finite
          (pending s.world)
          (record {
            correlation_id = correlation_id;
            record_count = record_count;
            consumer = consumer;
          })
          (ticks.time s.world + a.message_timeout_ns)
          (poll_for_descriptors a fuel correlation_id record_count consumer s)
  unfolding poll_for_descriptors reset
  poll_for_descriptors-Ended fuel correlation_id record_count consumer s f =
      let t = (runtime a).now s.world in
      let same : pending t.1 ≡ pending s.world = finite.now_keeps s.world in
      let begun : State W = record s {
        descriptors = reset correlation_id record_count consumer s.descriptors;
        world = t.1;
      } in
      rw (ticks.now_reads s.world) (
        descriptors_loop-Ended a finite (pending s.world)
          (record {
            correlation_id = correlation_id;
            record_count = record_count;
            consumer = consumer;
          })
          (ticks.time s.world + a.message_timeout_ns) fuel
          (ticks.time s.world + a.message_timeout_ns) begun
          (
            omega arith,
            omega (arith, ticks.now_keeps s.world),
            rw same f,
            record { correlation_is = refl; consumer_is = refl },
            ([], sym same),
          ))
