-- ===== src/Aeron/Sample.antt =====
-- A clock and a subscription for the tests, and that they keep the contracts on streams and silence.
use aeron_archive_client.Prelude.{
  length, ap, ◌∙◌, drop-append, take-append-drop, zero, suc, ◌<◌, ◌≡◌, [], ◌∷◌, ◌++◌, sym,
  append-nil, ℕ, ◌+◌, refl, true, List, codes, take, drop, arith,
}
use aeron_archive_client.Prelude.Int.{pos}
use aeron_archive_client.Prelude.Result.{err}
use aeron_archive_client.Aeron.{Runtime, Ticks}
use aeron_archive_client.Aeron.Subscription.{Subscription, Polls, deliver, returned}
use aeron_archive_client.Codecs.Sample.{Message}
use aeron_archive_client.Aeron.Stream.{Flows, Streams}
use aeron_archive_client.Aeron.Finite.{Finite}
use aeron_archive_client.Aeron.Silence.{Silence}

-- The time, and the messages to come.
pub record World : Type 0 where
  pub time : ℕ
  pub inbox : List Message

abbrev pub clock : Runtime World
clock = record {
  now = λ w. (w.time, w);
  idle = λ w. record w { time = w.time + 1 };
  invoke = λ w. w;
}

abbrev pub clock-Ticks : Ticks clock
clock-Ticks = record {
  time = λ w. w.time;
  now_reads = λ w. refl;
  now_keeps = λ w. omega arith;
  idle_ticks = λ w. omega arith;
  invoke_keeps = λ w. omega arith;
}

abbrev pub inbox_subscription : Subscription World Message
inbox_subscription = record {
  controlled_poll = λ S handler limit s w.
      let d = deliver handler (take limit w.inbox) 0 s in
      (
        returned (λ e. err e) (pos d.handed) d.thrown,
        d.object,
        record w { inbox = drop d.handed w.inbox },
      );
  is_connected = λ w. true;
  channel = codes "aeron:ipc";
  stream_id = pos 20;
}

abbrev pub inbox-Polls : Polls inbox_subscription
inbox-Polls = record {
  available = λ limit w. take limit w.inbox;
  after = λ limit n w. record w { inbox = drop n w.inbox };
  fragments = λ limit n w. n;
  fragments_enough = λ limit n w h. h;
  on_throw = λ e w. err e;
  controlled_poll_lem = λ S handler limit s w. refl;
}

pub first_offered :
    (limit : ℕ) (inbox : List Message) (m : Message) (ms : List Message)
    → 0 < limit
    → inbox ≡ m ∷ ms
    → (rest : List Message) × (take limit inbox ≡ m ∷ rest)
first_offered zero inbox m ms h e = absurd (omega arith)
first_offered (suc limit) [] m ms h e = cc
first_offered (suc limit) (x ∷ xs) m ms h e = (take limit xs, cc)

pub first_taken :
    (inbox : List Message) (m : Message) (ms : List Message)
    → inbox ≡ m ∷ ms
    → (new : List Message) × (drop 1 inbox ≡ ms ++ new)
first_taken [] m ms e = cc
first_taken (x ∷ xs) m ms e = ([], cc (e, append-nil ms))

pub all_kept : (inbox : List Message) → (new : List Message) × (inbox ≡ inbox ++ new)
all_kept inbox = ([], sym (append-nil inbox))

pub none_taken : (limit : ℕ) (inbox : List Message) → inbox ≡ [] → take limit inbox ≡ []
none_taken zero inbox e = refl
none_taken (suc limit) inbox e = rw e

abbrev pub inbox-Streams : Streams inbox_subscription clock
inbox-Streams = record {
  polls = inbox-Polls;
  pending = λ w. w.inbox;
  offers = λ limit w m ms h e. first_offered limit w.inbox m ms h e;
  takes_one = λ limit w m ms e. first_taken w.inbox m ms e;
  now_keeps = λ w. all_kept w.inbox;
  idle_keeps = λ w. all_kept w.inbox;
  invoke_keeps = λ w. all_kept w.inbox;
}

abbrev pub inbox-Silence : Silence inbox_subscription clock
inbox-Silence = record {
  polls = inbox-Polls;
  ticks = clock-Ticks;
  IsSilent = λ w. w.inbox ≡ [];
  nothing = λ limit w e. none_taken limit w.inbox e;
  no_fragment = λ limit w e. refl;
  after_silent = λ limit w e. e;
  after_keeps = λ limit w. omega arith;
  now_silent = λ w e. e;
  idle_silent = λ w e. e;
  invoke_silent = λ w e. e;
}

pub some_taken :
    (limit : ℕ) (inbox : List Message) (m : Message) (ms : List Message)
    → 0 < limit
    → inbox ≡ m ∷ ms
    → 0 < length (take limit inbox)
some_taken limit inbox m ms h e =
    let (rest, first) = first_offered limit inbox m ms h e in rw first (omega arith)

pub all_taken :
    (limit : ℕ) (inbox rest : List Message)
    → inbox ≡ take limit inbox ++ rest
    → (new : List Message) × (drop (length (take limit inbox)) inbox ≡ rest ++ new)
all_taken limit inbox rest e = (
  [],
  ap (drop (length (take limit inbox))) e
      ∙ drop-append (take limit inbox) rest
      ∙ sym (append-nil rest),
)

abbrev pub inbox-Flows : Flows inbox_subscription clock
inbox-Flows = record {
  polls = inbox-Polls;
  pending = λ w. w.inbox;
  pieces = λ limit w. (drop limit w.inbox, sym (take-append-drop limit w.inbox));
  some_offered = λ limit w m ms h e. some_taken limit w.inbox m ms h e;
  takes_all = λ limit w rest e. all_taken limit w.inbox rest e;
  now_keeps = λ w. all_kept w.inbox;
  idle_keeps = λ w. all_kept w.inbox;
  invoke_keeps = λ w. all_kept w.inbox;
}

abbrev pub inbox-Finite : Finite inbox_subscription clock
inbox-Finite = record {
  polls = inbox-Polls;
  ticks = clock-Ticks;
  pending = λ w. w.inbox;
  offers = λ limit w m ms h e. first_offered limit w.inbox m ms h e;
  nothing = λ limit w e. none_taken limit w.inbox e;
  no_fragment = λ limit w e. refl;
  takes = λ limit n w. refl;
  after_keeps = λ limit n w. omega arith;
  now_keeps = λ w. refl;
  idle_keeps = λ w. refl;
  invoke_keeps = λ w. refl;
}
