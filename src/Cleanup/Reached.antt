-- ===== src/Cleanup/Reached.antt =====
-- The ledgers that a receiver reaches before it fails.
use tdlua.Prelude.{
  ℕ, suc, ◌≤◌, ◌≡◌, refl, ◌∙◌, sym, ap, Bool, true, false, ◌&&◌, ◌||◌, not, Option, none, some,
  List, [], ◌∷◌, arith, nonzero, lookup,
}
use tdlua.Cleanup.{error, no_work, close, notify, Record, Cleanup}
use tdlua.Cleanup.Queues.{same_work, is_ready}
use tdlua.Cleanup.Queues.Chain.{mem}
use tdlua.Cleanup.Queues.Represents.{Lines, Represents}
use tdlua.Cleanup.Queues.Requeue.{wanted}
use tdlua.Cleanup.Counters.{Counted}
use tdlua.Cleanup.Counters.{total, Counter, of_active, count, lookup-Covers}
use tdlua.Cleanup.Invariant.{Invariant, keeps_law}
use tdlua.Cleanup.Ledger.{break_accounting, end_at, end_send, observe}
use tdlua.Cleanup.Steps.{observe-Invariant}
use tdlua.Cleanup.Drain.{Action}
use tdlua.Cleanup.Drain.Hold.{all}
use tdlua.Cleanup.{init}
use tdlua.Cleanup.Entry.{act-Invariant}
use tdlua.Cleanup.Drain.{act}

-- A use of the ledger before any drain: an operation, or an observation of TDLib.
pub data Use : Type 0 where
  acts : Action → Use
  observes : ℕ → Bool → Use

abbrev pub used : Use → Cleanup → Cleanup
used (acts a) l = act l a
used (observes i terminal) l = (observe i terminal l).1

-- The ledger after uses, the newest first.
unfoldable pub life : List Use → Cleanup
life [] = init
life (u ∷ us) = used u (life us)

init-Invariant : Invariant no_work none all init
unfolding init lookup
init-Invariant = (
  (0, tt),
  λ c. ground arith,
  λ j. refl,
  λ j e. cc,
  (
    record { closing = []; notifying = [] },
    (
      (tt, refl, refl, λ j. refl, λ j e. cc, λ j e. cc),
      (tt, refl, refl, λ j. refl, λ j e. cc, λ j e. cc),
      λ j e. refl,
    ),
    λ j e. (refl, refl),
  ),
)

pub life-Invariant : (us : List Use) → Invariant no_work none all (life us)
unfolding life
life-Invariant [] = init-Invariant
life-Invariant (acts a ∷ us) =
    act-Invariant no_work none all (life us) (life-Invariant us) (λ e. absurd (ground (arith, e))) a
life-Invariant (observes i terminal ∷ us) =
    observe-Invariant no_work none all (life us) (life-Invariant us) i terminal refl

-- After any uses of a new ledger, each of its six counters is the sum over its records: the
-- records, those not materialized, those materialized and not terminal, those uncertain, those
-- terminal, and the active sends.
pub life-Counted :
    (us : List Use) (c : Counter) → count c (life us).stats ≡ total c (life us).records
life-Counted us = (life-Invariant us).1

-- After any uses of a new ledger, the two intrusive queues are lists without repetition, linked
-- both ways, of exactly the clients that need a close and exactly those that need a notification.
pub life-Waiting :
    (us : List Use)
    → (a : Lines) × Represents (life us) a
      × ((j : ℕ)
          → (same_work close (wanted (life us) (lookup j (life us).records)) ≡ mem j a.closing)
            × (same_work notify (wanted (life us) (lookup j (life us).records))
                ≡ mem j a.notifying))
life-Waiting us = let (a, h, v) = (life-Invariant us).4 in (a, h, λ j. v j refl)

lawful_parts :
    (r : Record)
    → keeps_law no_work none 0 (some r) ≡ true
    → ((not r.terminal || r.materialized && not r.uncertain) ≡ true)
      × ((not r.notified || r.terminal) ≡ true)
      × (r.busy ≡ false)
      × (is_ready r ≡ false)
lawful_parts r h = (ground (arith, h), ground (arith, h), ground (arith, h), ground (arith, h))

unbegun :
    (i : ℕ) (closing success : Bool) (l : Cleanup)
    → Counted l
    → l.stats.active_sends ≡ 0
    → end_send i closing success l ≡ break_accounting l
unfolding end_send
unbegun i closing success l c z = split (lookup i l.records) refl
  where
    no_send_of : (r : Record) → r.active ≤ l.stats.active_sends → nonzero r.active ≡ false
    no_send_of r h = ground (arith, z)

    split :
        (o : Option Record)
        → lookup i l.records ≡ o
        → end_at i closing success o l ≡ break_accounting l
    split none e = refl
    split (some r) e = rw (no_send_of r (lookup-Covers i r l e c of_active)) refl

-- After any uses of a new ledger, a record that is terminal is materialized and not uncertain, one
-- that is notified is terminal, none is busy, and none is ready to retire.
pub life-lawful :
    (us : List Use) (i : ℕ) (r : Record)
    → lookup i (life us).records ≡ some r
    → ((not r.terminal || r.materialized && not r.uncertain) ≡ true)
      × ((not r.notified || r.terminal) ≡ true)
      × (r.busy ≡ false)
      × (is_ready r ≡ false)
life-lawful us i r e =
    lawful_parts r (ap (keeps_law no_work none i) (sym e) ∙ (life-Invariant us).2 i)

-- Where no send is active, after any uses, `endSend` counts one more accounting error, marks the
-- accounting as broken (`invariant_broken_`), sets the phase to `Error`, and changes nothing else:
-- no record, no queue and no other counter.
pub end_send-unbegun :
    (us : List Use) (i : ℕ) (closing success : Bool)
    → (life us).stats.active_sends ≡ 0
    → end_send i closing success (life us) ≡ record (life us) {
      invariant_broken = true;
      stats = record (life us).stats {
        accounting_errors = suc (life us).stats.accounting_errors;
        phase = error;
      };
    }
end_send-unbegun us i closing success z =
    unbegun i closing success (life us) (life-Invariant us).1 z
