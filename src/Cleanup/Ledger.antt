-- ===== src/Cleanup/Ledger.antt =====
-- The operations of FailureCleanup that clients, the receiver and the observers of TDLib call.
use tdlua.Prelude.{
  ℕ, suc, Bool, true, false, ◌&&◌, ◌||◌, not, Option, none, some, lookup, insert, nonzero,
  decrement, if◌then◌else◌,
}
use tdlua.Prelude.Int.{pos}
use tdlua.Identity.{History, contains, insert_id, block_count}
use tdlua.Cleanup.{error, Record, new_record, Stats, Cleanup}
use tdlua.Cleanup.Queues.{refresh_work, retire_if_ready}

-- The exceptions: a runtime_error of the failed ledger, and logic_errors.
pub data Fault : Type 0 where
  ledger_failed invalid_id client_closed unknown_client ack_before_terminal still_in_use : Fault

pub data Reply (B : Type 0) : Type 0 where
  returns : B → Reply B
  raises : Fault → Reply B

unfoldable pub materialize : Record × Stats → Record × Stats
materialize (r, s) = if r.materialized then (r, s) else (
  record r { materialized = true },
  record s {
    reserved = decrement s.reserved;
    materialized = suc s.materialized;
    remaining = if r.terminal then s.remaining else suc s.remaining;
  },
)

unfoldable pub mark_close_sent : Record × Stats → Record × Stats
mark_close_sent (r, s) = if r.close_sent then (record r { close_uncertain = false }, s) else (
  record r { close_sent = true; close_uncertain = false },
  record s { closes = suc s.closes },
)

unfoldable pub set_uncertain : Bool → Record × Stats → Record × Stats
set_uncertain true (r, s) =
    if r.uncertain
    then (r, s)
    else (record r { uncertain = true }, record s { uncertain = suc s.uncertain })
set_uncertain false (r, s) =
    if r.uncertain
    then (record r { uncertain = false }, record s { uncertain = decrement s.uncertain })
    else (r, s)

-- A record that is there, and the counters, are changed together.
abbrev pub put : ℕ → Record × Stats → Cleanup → Cleanup
put id (r, s) l = record l { records = insert id r l.records; stats = s }

abbrev pub add_record : ℕ → Option History → Cleanup → Reply (Unit {0}) × Cleanup
add_record id none l = (raises invalid_id, l)
add_record id (some h) l = (
  returns tt,
  record l {
    history = h;
    records = insert id new_record l.records;
    stats = record l.stats { records = suc l.stats.records; reserved = suc l.stats.reserved };
  },
)

unfoldable pub register_client : ℕ → Cleanup → Reply (Unit {0}) × Cleanup
register_client id l =
    if l.failed then (raises ledger_failed, l) else add_record id (insert_id l.history (pos id)) l

abbrev pub refuse_send : ℕ → Bool → Cleanup → Reply Bool × Cleanup
refuse_send id close l =
    if close && contains l.history (pos id) then (returns false, l) else (raises client_closed, l)

abbrev pub admit_at : ℕ → Bool → Option Record → Cleanup → Reply Bool × Cleanup
admit_at id close none l = refuse_send id close l
admit_at id close (some r) l = if r.terminal || r.notified then refuse_send id close l else (
  returns true,
  put id
      (
        record r { active = suc r.active },
        record l.stats { active_sends = suc l.stats.active_sends },
      )
      l,
)

unfoldable pub begin_send : ℕ → Bool → Cleanup → Reply Bool × Cleanup
begin_send id close l =
    if l.failed
    then (if close then (returns false, l) else (raises ledger_failed, l))
    else admit_at id close (lookup id l.records) l

abbrev pub break_accounting : Cleanup → Cleanup
break_accounting l = record l {
  invariant_broken = true;
  stats = record l.stats { accounting_errors = suc l.stats.accounting_errors; phase = error };
}

-- The send that ends: whether it succeeded, and whether it was a close.
abbrev pub conclude : Bool → Bool → Record × Stats → Record × Stats
conclude close true p = let q = materialize p in if close then mark_close_sent q else q
conclude close false (r, s) =
    if r.terminal
    then (r, s)
    else (let (r', s') = set_uncertain true (r, s) in
        (record r' { close_uncertain = close || r'.close_uncertain }, s'))

abbrev pub unpinned : Record × Stats → Record × Stats
unpinned (r, s) =
    (record r { active = decrement r.active }, record s { active_sends = decrement s.active_sends })

abbrev pub settle : ℕ → Cleanup → Cleanup
settle id l = retire_if_ready id (refresh_work id l)

abbrev pub end_at : ℕ → Bool → Bool → Option Record → Cleanup → Cleanup
end_at id close success none l = break_accounting l
end_at id close success (some r) l =
    if nonzero r.active
    then settle id (put id (conclude close success (unpinned (r, l.stats))) l)
    else break_accounting l

unfoldable pub end_send : ℕ → Bool → Bool → Cleanup → Cleanup
unfolding materialize mark_close_sent set_uncertain refresh_work retire_if_ready
end_send id close success l = end_at id close success (lookup id l.records) l

abbrev pub terminate : Record × Stats → Record × Stats
terminate (r, s) = if r.terminal then (r, s) else (
  record r { terminal = true },
  record s {
    remaining = decrement s.remaining;
    terminals = suc s.terminals;
    terminal_records = suc s.terminal_records;
  },
)

abbrev pub witness : Bool → Record × Stats → Record × Stats
witness terminal p =
    let q = materialize p in
    let q' = if terminal then terminate q else q in
    if terminal || not q'.0.close_uncertain then set_uncertain false q' else q'

abbrev pub observe_at : ℕ → Bool → Option Record → Cleanup → Reply Bool × Cleanup
observe_at id terminal none l =
    if contains l.history (pos id)
    then (returns false, record l { stats = record l.stats { late = suc l.stats.late } })
    else (raises unknown_client, l)
observe_at id terminal (some r) l =
    (returns true, refresh_work id (put id (witness terminal (r, l.stats)) l))

unfoldable pub observe : ℕ → Bool → Cleanup → Reply Bool × Cleanup
unfolding materialize set_uncertain refresh_work
observe id terminal l = observe_at id terminal (lookup id l.records) l

abbrev pub acknowledge_at : ℕ → Option Record → Cleanup → Reply (Unit {0}) × Cleanup
acknowledge_at id none l = (returns tt, l)
acknowledge_at id (some r) l =
    if r.terminal
    then (returns tt, settle id (put id (record r { notified = true }, l.stats) l))
    else (raises ack_before_terminal, l)

unfoldable pub acknowledge_terminal : ℕ → Cleanup → Reply (Unit {0}) × Cleanup
unfolding refresh_work retire_if_ready
acknowledge_terminal id l = acknowledge_at id (lookup id l.records) l

abbrev pub is_used : Record → Bool
is_used r = r.materialized || r.uncertain || nonzero r.active

abbrev pub waive : Record × Stats → Record × Stats
waive (r, s) =
    if r.notified
    then (r, s)
    else (record r { notified = true }, record s { unused = suc s.unused })

abbrev pub retire_unused_at : ℕ → Option Record → Cleanup → Reply (Unit {0}) × Cleanup
retire_unused_at id none l = (returns tt, l)
retire_unused_at id (some r) l =
    if is_used r
    then (raises still_in_use, l)
    else (returns tt, settle id (put id (waive (r, l.stats)) l))

unfoldable pub retire_unused : ℕ → Cleanup → Reply (Unit {0}) × Cleanup
unfolding refresh_work retire_if_ready
retire_unused id l = retire_unused_at id (lookup id l.records) l

abbrev pub retire_reserved_at : ℕ → Option Record → Cleanup → Bool × Cleanup
retire_reserved_at id none l = (contains l.history (pos id), l)
retire_reserved_at id (some r) l =
    if is_used r then (false, l) else (true, settle id (put id (waive (r, l.stats)) l))

unfoldable pub retire_reserved : ℕ → Cleanup → Bool × Cleanup
unfolding refresh_work retire_if_ready
retire_reserved id l = retire_reserved_at id (lookup id l.records) l

abbrev pub reject_at : ℕ → Option Record → Cleanup → Cleanup
reject_at id none l = l
reject_at id (some r) l =
    if l.failed || r.terminal
    then l
    else refresh_work id
        (put id (record r { close_sent = false; close_uncertain = false }, l.stats) l)

unfoldable pub reject_shutdown : ℕ → Cleanup → Cleanup
unfolding refresh_work
reject_shutdown id l = reject_at id (lookup id l.records) l

abbrev pub asked {ℓ} : {B : Type ℓ} → B → (Record → B) → Option Record → B
asked d f none = d
asked d f (some r) = f r

unfoldable pub is_materialized : ℕ → Cleanup → Bool
is_materialized id l = asked false (λ r. r.materialized) (lookup id l.records)

unfoldable pub shutdown_pending : ℕ → Cleanup → Bool
shutdown_pending id l = asked false (λ r. r.close_sent || r.close_uncertain) (lookup id l.records)

-- `stats`
pub record Snapshot : Type 0 where
  pub counters : Stats
  pub identities : ℕ
  pub history_blocks : ℕ

unfoldable pub snapshot : Cleanup → Snapshot
snapshot l = record {
  counters = l.stats;
  identities = l.history.identities;
  history_blocks = block_count l.history;
}
