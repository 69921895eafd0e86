-- ===== src/Mailbox/Delivery.antt =====
-- What `pop_locked` returns, and in which order.
use tdlua.Prelude.{
  ℕ, suc, ◌+◌, ◌≡◌, ◌≢◌, refl, ap, ◌⊎◌, inl, inr, true, false, Option, none, some, List, [], ◌∷◌,
  ◌++◌, arith, length, Bool-cases,
}
use tdlua.Ticket.{Buffers}
use tdlua.Mailbox.{
  Mailbox, Envelope, Popped, item, empty_status, discard, deliver, stale_at, refresh_at,
  release_ticket, pop_from, pop_locked,
}

-- Only an envelope with a ticket can be skipped.
abbrev pub AllTicketed : {A : Type 0} → List (Envelope A) → Type 0
AllTicketed [] = Unit {0}
AllTicketed (e ∷ es) = (e.generic_ticket ≢ none) × AllTicketed es

-- The store after the envelopes were asked for their tickets and skipped, one reading of the clock
-- for each; and that each of them was stale when it was asked.
abbrev pub after_skips : {A : Type 0} → (ℕ → ℕ) → Buffers → List (Envelope A) → Buffers
after_skips clock b [] = b
after_skips clock b (e ∷ es) =
    after_skips (λ k. clock (suc k))
      (release_ticket e.generic_ticket (refresh_at e.generic_ticket (clock 0) b)) es

abbrev pub AllStale : {A : Type 0} → (ℕ → ℕ) → Buffers → List (Envelope A) → Type 0
AllStale clock b [] = Unit {0}
AllStale clock b (e ∷ es) =
    (stale_at e.generic_ticket (clock 0) b ≡ true)
    × AllStale (λ k. clock (suc k))
        (release_ticket e.generic_ticket (refresh_at e.generic_ticket (clock 0) b)) es

-- The front of the queue was skipped, ticket by ticket; then the next envelope was delivered.
pub record Delivers {A : Type 0} (clock : ℕ → ℕ) (b : Buffers) (m : Mailbox A)
    (q : List (Envelope A)) (p : Popped A) : Type 0 where
  pub skipped : List (Envelope A)
  pub envelope : Envelope A
  pub split : q ≡ skipped ++ envelope ∷ p.box.queue
  pub ticketed : AllTicketed skipped
  pub stale : AllStale clock b skipped
  pub live :
      stale_at envelope.generic_ticket (clock (length skipped)) (after_skips clock b skipped)
      ≡ false
  pub status : p.status ≡ item
  pub result : p.item ≡ some envelope
  pub dropped : p.box.stats.generic_dropped ≡ m.stats.generic_dropped + length skipped
  pub dequeued : p.box.stats.dequeued ≡ suc m.stats.dequeued

-- Every envelope was skipped, and the answer is that of the flags.
pub record Exhausts {A : Type 0} (clock : ℕ → ℕ) (b : Buffers) (m : Mailbox A)
    (q : List (Envelope A)) (p : Popped A) : Type 0 where
  pub emptied : p.box.queue ≡ []
  pub ticketed : AllTicketed q
  pub stale : AllStale clock b q
  pub status : p.status ≡ empty_status m
  pub result : p.item ≡ none
  pub dropped : p.box.stats.generic_dropped ≡ m.stats.generic_dropped + length q
  pub dequeued : p.box.stats.dequeued ≡ m.stats.dequeued

stale-ticketed : (o : Option ℕ) (now : ℕ) (b : Buffers) → stale_at o now b ≡ true → o ≢ none
stale-ticketed none now b h e = cc
stale-ticketed (some i) now b h e = cc

module _ {A : Type 0} where
  skip-Delivers :
      (clock : ℕ → ℕ) (b : Buffers) (m : Mailbox A) (e : Envelope A) (es : List (Envelope A))
      (p : Popped A)
      → stale_at e.generic_ticket (clock 0) b ≡ true
      → Delivers
          (λ k. clock (suc k))
          (release_ticket e.generic_ticket (refresh_at e.generic_ticket (clock 0) b))
          (discard m es)
          es
          p
      → Delivers clock b m (e ∷ es) p
  unfolding discard
  skip-Delivers clock b m e es p h d = record {
    skipped = e ∷ d.skipped;
    envelope = d.envelope;
    split = ap (λ t. e ∷ t) d.split;
    ticketed = (stale-ticketed e.generic_ticket (clock 0) b h, d.ticketed);
    stale = (h, d.stale);
    live = d.live;
    status = d.status;
    result = d.result;
    dropped = omega (arith, d.dropped);
    dequeued = d.dequeued;
  }

  skip-Exhausts :
      (clock : ℕ → ℕ) (b : Buffers) (m : Mailbox A) (e : Envelope A) (es : List (Envelope A))
      (p : Popped A)
      → stale_at e.generic_ticket (clock 0) b ≡ true
      → Exhausts
          (λ k. clock (suc k))
          (release_ticket e.generic_ticket (refresh_at e.generic_ticket (clock 0) b))
          (discard m es)
          es
          p
      → Exhausts clock b m (e ∷ es) p
  unfolding discard
  skip-Exhausts clock b m e es p h x = record {
    emptied = x.emptied;
    ticketed = (stale-ticketed e.generic_ticket (clock 0) b h, x.ticketed);
    stale = (h, x.stale);
    status = x.status;
    result = x.result;
    dropped = omega (arith, x.dropped);
    dequeued = x.dequeued;
  }

  abbrev Outcome : (ℕ → ℕ) → Buffers → Mailbox A → List (Envelope A) → Popped A → Type 0
  Outcome clock b m q p = Delivers clock b m q p ⊎ Exhausts clock b m q p

  skip-Outcome :
      (clock : ℕ → ℕ) (b : Buffers) (m : Mailbox A) (e : Envelope A) (es : List (Envelope A))
      (p : Popped A)
      → stale_at e.generic_ticket (clock 0) b ≡ true
      → Outcome
          (λ k. clock (suc k))
          (release_ticket e.generic_ticket (refresh_at e.generic_ticket (clock 0) b))
          (discard m es)
          es
          p
      → Outcome clock b m (e ∷ es) p
  skip-Outcome clock b m e es p h (inl d) = inl (skip-Delivers clock b m e es p h d)
  skip-Outcome clock b m e es p h (inr x) = inr (skip-Exhausts clock b m e es p h x)

  pop_from-Outcome :
      (clock : ℕ → ℕ) (b : Buffers) (m : Mailbox A) (q : List (Envelope A))
      → Outcome clock b m q (pop_from clock b m q)
  unfolding pop_from
  pop_from-Outcome clock b m [] = inr (record {
    emptied = refl;
    ticketed = tt;
    stale = tt;
    status = refl;
    result = refl;
    dropped = omega arith;
    dequeued = refl;
  })
  pop_from-Outcome clock b m (e ∷ es) =
      let seen = refresh_at e.generic_ticket (clock 0) b in
      elim (Bool-cases (stale_at e.generic_ticket (clock 0) b)) [
        | inl stale ↦
            rw (stale, pop_from)
              (skip-Outcome clock b m e es _ stale (
                pop_from-Outcome (λ k. clock (suc k)) (release_ticket e.generic_ticket seen)
                  (discard m es) es))
        | inr live ↦
            rw (live, pop_from)
              (inl (record {
                skipped = [];
                envelope = e;
                split = unfold deliver in refl;
                ticketed = tt;
                stale = tt;
                live = live;
                status = refl;
                result = refl;
                dropped = unfold deliver in omega arith;
                dequeued = unfold deliver in refl;
              }))
      ]

  -- A pop delivers the oldest envelope behind those whose tickets have gone, and keeps the rest in
  -- order; only envelopes with a ticket are skipped, and each is counted. It answers failed, closed
  -- or timeout only once the queue is exhausted, so a failure never hides what was posted before.
  pub pop_locked-Outcome :
      (clock : ℕ → ℕ) (b : Buffers) (m : Mailbox A)
      → Delivers clock b m m.queue (pop_locked clock b m)
        ⊎ Exhausts clock b m m.queue (pop_locked clock b m)
  unfolding pop_locked
  pop_locked-Outcome clock b m = pop_from-Outcome clock b m m.queue
