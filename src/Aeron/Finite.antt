-- ===== src/Aeron/Finite.antt =====
-- A subscription on which so many messages wait, and nothing more arrives.
use aeron_archive_client.Prelude.{
  ℕ, ◌≤◌, ◌<◌, ◌≡◌, ◌∙◌, ap, List, [], ◌∷◌, ◌++◌, drop, append-nil, sym,
}
use aeron_archive_client.Aeron.{Runtime, Ticks}
use aeron_archive_client.Aeron.Stream.{Streams}
use aeron_archive_client.Aeron.Silence.{Silence}
use aeron_archive_client.Aeron.Subscription.{Subscription, Polls}

-- A poll with a positive limit offers the first of the messages that wait, if any, and the messages
-- that were handed over wait no longer.
pub record Finite {W M : Type 0} (sub : Subscription W M) (rt : Runtime W) : Type 1 where
  pub polls : Polls sub
  pub ticks : Ticks rt
  pub pending : W → List M
  pub offers :
      (limit : ℕ) (w : W) (m : M) (ms : List M)
      → 0 < limit
      → pending w ≡ m ∷ ms
      → (rest : List M) × (polls.available limit w ≡ m ∷ rest)
  pub nothing : (limit : ℕ) (w : W) → pending w ≡ [] → polls.available limit w ≡ []
  pub no_fragment : (limit : ℕ) (w : W) → pending w ≡ [] → polls.fragments limit 0 w ≡ 0
  pub takes : (limit n : ℕ) (w : W) → pending (polls.after limit n w) ≡ drop n (pending w)
  pub after_keeps : (limit n : ℕ) (w : W) → ticks.time w ≤ ticks.time (polls.after limit n w)
  pub now_keeps : (w : W) → pending (rt.now w).1 ≡ pending w
  pub idle_keeps : (w : W) → pending (rt.idle w) ≡ pending w
  pub invoke_keeps : (w : W) → pending (rt.invoke w) ≡ pending w

module _ {W M : Type 0} {sub : Subscription W M} {rt : Runtime W} (finite : Finite sub rt) where
  open finite use {polls, pending}

  pub no_more : (ms : List M) (w : W) → pending w ≡ ms → (new : List M) × (pending w ≡ ms ++ new)
  no_more ms w e = ([], e ∙ sym (append-nil ms))

  abbrev pub Finite-Streams : Streams sub rt
  Finite-Streams = record {
    polls = polls;
    pending = pending;
    offers = finite.offers;
    takes_one = λ limit w m ms e.
        no_more ms (polls.after limit 1 w) (finite.takes limit 1 w ∙ ap (drop 1) e);
    now_keeps = λ w. no_more (pending w) (rt.now w).1 (finite.now_keeps w);
    idle_keeps = λ w. no_more (pending w) (rt.idle w) (finite.idle_keeps w);
    invoke_keeps = λ w. no_more (pending w) (rt.invoke w) (finite.invoke_keeps w);
  }

  abbrev pub Finite-Silence : Silence sub rt
  Finite-Silence = record {
    polls = polls;
    ticks = finite.ticks;
    IsSilent = λ w. pending w ≡ [];
    nothing = finite.nothing;
    no_fragment = finite.no_fragment;
    after_silent = λ limit w e. finite.takes limit 0 w ∙ e;
    after_keeps = λ limit w. finite.after_keeps limit 0 w;
    now_silent = λ w e. finite.now_keeps w ∙ e;
    idle_silent = λ w e. finite.idle_keeps w ∙ e;
    invoke_silent = λ w e. finite.invoke_keeps w ∙ e;
  }
