-- ===== src/Mailbox.antt =====
-- include/tdlua/common/receiver.h, classes Envelope and Mailbox: the queue between the receiver's
-- worker and one client. Each function is one critical section under the mailbox's mutex. The
-- tickets of the envelopes live in the store of Ticket, which a section takes and returns; a
-- dropped envelope destroys its ticket. `notify_all` has no effect on the state: a waiter is
-- another call of `pop_locked`.
pub mod Invariant
pub mod Delivery
pub mod Waiting
use Prim.Native.String.{String}
use tdlua.Prelude.{
  ℕ, suc, ◌+◌, ◌≤◌, ◌≡◌, Bool, true, false, ◌||◌, Option, none, some, List, [], ◌∷◌, ◌++◌, ◌==◌,
  ltb, leb, length, if◌then◌else◌,
}
use tdlua.Ticket.{Buffers, is_active, refresh, destroy}

pub data Failure : Type 0 where
  no_failure source routing out_of_memory : Failure

pub data Pop : Type 0 where
  item timeout closed failed : Pop

-- include/tdlua/common/transport.h
pub data ResponseClass : Type 0 where
  generic_raw managed_protected lifecycle : ResponseClass

pub record Envelope (A : Type 0) : Type 0 where
  pub client : ℕ
  pub terminal : Bool
  pub request_id : ℕ
  pub sequence : ℕ
  pub response_class : ResponseClass
  pub event_type : String
  pub acquired_at : ℕ
  pub generic_ticket : Option ℕ
  pub value : A

pub record MailboxStats : Type 0 where
  pub enqueued : ℕ
  pub dequeued : ℕ
  pub abandoned : ℕ
  pub generic_dropped : ℕ
  pub depth : ℕ
  pub high_water : ℕ

pub record Mailbox (A : Type 0) : Type 0 where
  pub queue : List (Envelope A)
  pub stats : MailboxStats
  pub failure : Failure
  pub terminal : Bool
  pub orphan : Bool

abbrev pub is_failure : Failure → Bool
is_failure no_failure = false
is_failure source = true
is_failure routing = true
is_failure out_of_memory = true

-- The end of an envelope's life: its share in a ticket goes.
abbrev pub release_ticket : Option ℕ → Buffers → Buffers
release_ticket none b = b
release_ticket (some i) b = destroy i b

abbrev pub same_ticket : Option ℕ → ℕ → Bool
same_ticket none i = false
same_ticket (some j) i = j == i

pub record Popped (A : Type 0) : Type 0 where
  pub status : Pop
  pub item : Option (Envelope A)
  pub buffers : Buffers
  pub box : Mailbox A

abbrev pub stale_at : Option ℕ → ℕ → Buffers → Bool
stale_at none now b = false
stale_at (some i) now b = if is_active i (refresh i now b) then false else true

abbrev pub refresh_at : Option ℕ → ℕ → Buffers → Buffers
refresh_at none now b = b
refresh_at (some i) now b = refresh i now b

-- A wake-up of `popUntil`: its readings of the clock, and what the other threads do after it.
pub record Round (A : Type 0) : Type 0 where
  pub clock : ℕ → ℕ
  pub now : ℕ
  pub others : Buffers × Mailbox A → Buffers × Mailbox A

abbrev pub settled : Pop → ℕ → ℕ → Bool
settled timeout now deadline = leb deadline now
settled item now deadline = true
settled closed now deadline = true
settled failed now deadline = true

module _ {A : Type 0} where
  unfoldable pub empty : Mailbox A
  empty = record {
    queue = [];
    stats = record {
      enqueued = 0;
      dequeued = 0;
      abandoned = 0;
      generic_dropped = 0;
      depth = 0;
      high_water = 0;
    };
    failure = no_failure;
    terminal = false;
    orphan = false;
  }

  unfoldable pub release_all : List (Envelope A) → Buffers → Buffers
  release_all [] b = b
  release_all (e ∷ es) b = release_all es (release_ticket e.generic_ticket b)

  -- `push_back` with the counters.
  unfoldable pub enqueue : Mailbox A → Envelope A → Mailbox A
  enqueue m e = record m {
    queue = m.queue ++ e ∷ [];
    stats = record m.stats {
      enqueued = suc m.stats.enqueued;
      depth = suc (length m.queue);
      high_water =
          if ltb m.stats.high_water (suc (length m.queue))
          then suc (length m.queue)
          else m.stats.high_water;
    };
  }

  unfoldable pub publish : Buffers → Mailbox A → Envelope A → Buffers × Mailbox A
  unfolding enqueue
  publish b m e =
      if m.orphan
      then (
        release_ticket e.generic_ticket b,
        record m { stats = record m.stats { abandoned = suc m.stats.abandoned } },
      )
      else (b, enqueue m e)

  -- The queue without the first envelope that holds the ticket, if there is one.
  unfoldable pub without_ticket : ℕ → List (Envelope A) → Option (List (Envelope A))
  without_ticket i [] = none
  without_ticket i (e ∷ es) = elim (same_ticket e.generic_ticket i) [
    | true ↦ some es
    | false ↦ elim (without_ticket i es) [ none ↦ none | some rest ↦ some (e ∷ rest) ]
  ]

  abbrev pub shrink_to : Option (List (Envelope A)) → Mailbox A → Mailbox A × Bool
  shrink_to none m = (m, false)
  shrink_to (some rest) m = (
    record m {
      queue = rest;
      stats = record m.stats { generic_dropped = suc m.stats.generic_dropped; depth = length rest };
    },
    true,
  )

  -- The ticket outlives the envelope in the caller's hands.
  unfoldable pub erase_generic : ℕ → Mailbox A → Mailbox A × Bool
  erase_generic i m = shrink_to (without_ticket i m.queue) m

  -- `terminal()`
  unfoldable pub end_stream : Mailbox A → Mailbox A
  end_stream m = record m { terminal = true }

  unfoldable pub fail : Failure → Mailbox A → Mailbox A
  fail f m = record m { failure = if is_failure m.failure then m.failure else f }

  unfoldable pub abandon : Buffers → Mailbox A → Buffers × Mailbox A
  abandon b m = (
    release_all m.queue b,
    record m {
      queue = [];
      stats = record m.stats { abandoned = m.stats.abandoned + length m.queue; depth = 0 };
      orphan = true;
    },
  )

  -- The answer of an empty queue.
  abbrev pub empty_status : Mailbox A → Pop
  empty_status m =
      if is_failure m.failure then failed else if m.terminal || m.orphan then closed else timeout

  -- `pop_front` of an envelope whose ticket is no longer active, and of one that is delivered.
  unfoldable pub discard : Mailbox A → List (Envelope A) → Mailbox A
  discard m rest = record m {
    queue = rest;
    stats = record m.stats { generic_dropped = suc m.stats.generic_dropped; depth = length rest };
  }

  unfoldable pub deliver : Mailbox A → List (Envelope A) → Mailbox A
  deliver m rest = record m {
    queue = rest;
    stats = record m.stats { dequeued = suc m.stats.dequeued; depth = length rest };
  }

  -- The loop of `popLocked` over the queue; the clock is read once for each ticket that is asked.
  unfoldable pub pop_from : (ℕ → ℕ) → Buffers → Mailbox A → List (Envelope A) → Popped A
  unfolding discard deliver
  pop_from clock b m [] = record {
    status = empty_status m;
    item = none;
    buffers = b;
    box = record m { queue = [] };
  }
  pop_from clock b m (e ∷ es) =
      let seen = refresh_at e.generic_ticket (clock 0) b in
      elim (stale_at e.generic_ticket (clock 0) b) [
        | true ↦
            pop_from (λ n. clock (suc n)) (release_ticket e.generic_ticket seen) (discard m es) es
        | false ↦ record { status = item; item = some e; buffers = seen; box = deliver m es }
      ]

  unfoldable pub pop_locked : (ℕ → ℕ) → Buffers → Mailbox A → Popped A
  unfolding pop_from
  pop_locked clock b m = pop_from clock b m m.queue

  -- `popUntil`: each round is a wake-up with its own clock and its own reading of the deadline; the
  -- other threads act between the rounds. `none` when the rounds run out, while the thread waits.
  unfoldable pub pop_until : ℕ → List (Round A) → Buffers × Mailbox A → Option (Popped A)
  unfolding pop_locked
  pop_until deadline [] (b, m) = none
  pop_until deadline (r ∷ rs) (b, m) =
      let p = pop_locked r.clock b m in
      elim (settled p.status r.now deadline) [
        | true ↦ some p
        | false ↦ pop_until deadline rs (r.others (p.buffers, p.box))
      ]
