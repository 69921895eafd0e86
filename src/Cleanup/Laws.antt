-- ===== src/Cleanup/Laws.antt =====
-- The laws of one record, and that the changes of a record keep them.
use tdlua.Prelude.{suc, ◌≡◌, Bool, true, false, ◌&&◌, ◌||◌, not, arith, nonzero}
use tdlua.Cleanup.{Work, no_work, close, notify, Record, Stats}
use tdlua.Cleanup.Queues.{same_work, is_ready}
use tdlua.Cleanup.Ledger.{
  materialize, mark_close_sent, set_uncertain, conclude, unpinned, witness, waive, is_used,
}
use tdlua.Cleanup.Drain.{work_done}

-- The links of a record, which only the queues change.
abbrev pub Linked : Record → Record → Type 0
Linked r r' = (r'.work ≡ r.work) × (r'.next ≡ r.next) × (r'.previous ≡ r.previous)

pub conclude-Linked :
    (closing success : Bool) (r : Record) (s : Stats)
    → Linked r (conclude closing success (unpinned (r, s))).0
unfolding materialize mark_close_sent set_uncertain
conclude-Linked closing success r s = (ground arith, ground arith, ground arith)

pub witness-Linked :
    (terminal : Bool) (r : Record) (s : Stats) → Linked r (witness terminal (r, s)).0
unfolding materialize set_uncertain
witness-Linked terminal r s = (ground arith, ground arith, ground arith)

pub waive-Linked : (r : Record) (s : Stats) → Linked r (waive (r, s)).0
waive-Linked r s = (ground arith, ground arith, ground arith)

pub work_done-Linked :
    (throws : Bool) (w : Work) (r : Record) (s : Stats) → Linked r (work_done throws w (r, s)).0
unfolding mark_close_sent set_uncertain
work_done-Linked throws w r s = (ground arith, ground arith, ground arith)

-- A terminal client has been seen, and no send of it is uncertain.
abbrev pub is_witnessed : Record → Bool
is_witnessed r = not r.terminal || r.materialized && not r.uncertain

-- Nobody waits for a client that is not terminal, but one without any use whose record the drain
-- holds.
abbrev pub is_awaited : Record → Bool
is_awaited r = not r.notified || r.terminal || r.busy && not (is_used r)

-- The record that the drain holds: one to close has been seen; one to notify of is terminal or
-- unused.
abbrev pub suits : Work → Record → Bool
suits no_work r = true
suits close r = r.materialized
suits notify r = r.terminal || not (is_used r)

abbrev pub is_lawful : Work → Record → Bool
is_lawful w r = is_witnessed r && is_awaited r && (not r.busy || suits w r) && not (is_ready r)

-- Before `retireIfReady`.
abbrev pub is_settling : Work → Record → Bool
is_settling w r = is_witnessed r && (not r.busy || suits w r) && (is_ready r || is_awaited r)

module _ (w : Work) (r : Record) (s : Stats) (h : is_lawful w r ≡ true) where
  pub conclude-settling :
      (closing success : Bool)
      → nonzero r.active ≡ true
      → is_settling w (conclude closing success (unpinned (r, s))).0 ≡ true
  unfolding is_ready materialize mark_close_sent set_uncertain
  conclude-settling closing success e = ground arith

  pub conclude-busy :
      (closing success : Bool) → (conclude closing success (unpinned (r, s))).0.busy ≡ r.busy
  unfolding materialize mark_close_sent set_uncertain
  conclude-busy closing success = ground arith

  pub admit-lawful :
      (r.terminal || r.notified) ≡ false
      → same_work w notify ≡ false
      → is_lawful w (record r { active = suc r.active }) ≡ true
  unfolding is_ready
  admit-lawful e f = ground arith

  pub witness-lawful :
      (terminal : Bool) → r.busy ≡ false → is_lawful w (witness terminal (r, s)).0 ≡ true
  unfolding is_ready materialize set_uncertain
  witness-lawful terminal e = ground arith

  pub witness-busy : (terminal : Bool) → (witness terminal (r, s)).0.busy ≡ r.busy
  unfolding materialize set_uncertain
  witness-busy terminal = ground arith

  pub acknowledge-settling : r.terminal ≡ true → is_settling w (record r { notified = true }) ≡ true
  unfolding is_ready
  acknowledge-settling e = ground arith

  pub waive-settling : is_used r ≡ false → is_settling w (waive (r, s)).0 ≡ true
  unfolding is_ready
  waive-settling e = ground arith

  pub waive-busy : (waive (r, s)).0.busy ≡ r.busy
  waive-busy = ground arith

  pub reject-lawful : is_lawful w (record r { close_sent = false; close_uncertain = false }) ≡ true
  unfolding is_ready
  reject-lawful = ground arith

  pub work_done-settling :
      (throws : Bool) → r.busy ≡ true → is_settling no_work (work_done throws w (r, s)).0 ≡ true
  unfolding is_ready mark_close_sent set_uncertain
  work_done-settling throws e = ground arith

  pub work_done-busy : (throws : Bool) → (work_done throws w (r, s)).0.busy ≡ false
  unfolding mark_close_sent set_uncertain
  work_done-busy throws = ground arith
