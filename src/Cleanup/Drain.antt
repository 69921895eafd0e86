-- ===== src/Cleanup/Drain.antt =====
-- `drain` and `performWork`: what the failed receiver's thread does, in steps between which other
-- threads hold the mutex. TDLib is observed by this thread alone.
pub mod Hold
pub mod Rounds
pub mod Quiescence
pub mod Outcome
use tdlua.Prelude.{
  ℕ, suc, ◌==◌, Bool, true, false, ◌&&◌, ◌||◌, not, Option, none, some, List, [], ◌∷◌, Map, lookup,
  insert, nonzero, is_some, if◌then◌else◌,
}
use tdlua.Cleanup.{
  Phase, running, quiescent, deadline, error, Work, no_work, close, notify, Record, Stats, Cleanup,
}
use tdlua.Cleanup.Queues.{modify, unlink, refresh_work, retire_if_ready}
use tdlua.Cleanup.Ledger.{
  Reply, returns, raises, mark_close_sent, set_uncertain, put, settle, register_client, begin_send,
  end_send, observe, acknowledge_terminal, retire_unused, retire_reserved, reject_shutdown,
}

-- What the other threads do.
pub data Action : Type 0 where
  registers acknowledges retires_unused retires_reserved rejects_shutdown : ℕ → Action
  begins_send : ℕ → Bool → Action
  ends_send : ℕ → Bool → Bool → Action

unfoldable pub act : Cleanup → Action → Cleanup
act l (registers id) = (register_client id l).1
act l (begins_send id closing) = (begin_send id closing l).1
act l (ends_send id closing success) = end_send id closing success l
act l (acknowledges id) = (acknowledge_terminal id l).1
act l (retires_unused id) = (retire_unused id l).1
act l (retires_reserved id) = (retire_reserved id l).1
act l (rejects_shutdown id) = reject_shutdown id l

unfoldable pub act_all : Cleanup → List Action → Cleanup
unfolding act
act_all l [] = l
act_all l (a ∷ as') = act_all (act l a) as'

abbrev pub set_phase : Phase → Cleanup → Cleanup
set_phase p l = record l { stats = record l.stats { phase = p } }

abbrev pub one_error : Cleanup → Cleanup
one_error l = record l { stats = record l.stats { errors = suc l.stats.errors } }

-- The end of `performWork`, on the record as it is then; `busy` has pinned it.
abbrev pub finish_work : Work → Record × Stats → Record × Stats
finish_work no_work (r, s) = (record r { busy = false }, s)
finish_work close (r, s) = let (r', s') = mark_close_sent (r, s) in (record r' { busy = false }, s')
finish_work notify (r, s) = if r.notified then (record r { busy = false }, s) else (
  record r { busy = false; notified = true },
  record s { unused = if r.materialized then s.unused else suc s.unused },
)

-- The handler of an effect that throws.
abbrev pub fail_work : Work → Record × Stats → Record × Stats
fail_work no_work (r, s) = (record r { busy = false }, s)
fail_work notify (r, s) = (record r { busy = false }, s)
fail_work close (r, s) =
    if r.terminal
    then (record r { busy = false }, s)
    else set_uncertain true (record r { busy = false; close_uncertain = true }, s)

abbrev pub work_done : Bool → Work → Record × Stats → Record × Stats
work_done true w p = fail_work w p
work_done false w p = finish_work w p

abbrev pub end_work_at : ℕ → Work → Bool → Option Record → Cleanup → Cleanup
end_work_at id w throws none l = l
end_work_at id w throws (some r) l = settle id (put id (work_done throws w (r, l.stats)) l)

unfoldable pub end_work : ℕ → Work → Bool → Cleanup → Cleanup
unfolding mark_close_sent set_uncertain refresh_work retire_if_ready
end_work id w throws l = end_work_at id w throws (lookup id l.records) l

-- The answer of `Transport::receive`.
pub data Received : Type 0 where
  nothing receive_throws : Received
  item : ℕ → Bool → Received

-- One round of the loop: what others do before it, whether the deadline is over, what they do
-- during the effect of the work or the receive call, whether the effect throws, and what is
-- received.
pub record Round : Type 0 where
  pub before : List Action
  pub late : Bool
  pub during : List Action
  pub throws : Bool
  pub received : Received

-- How a round ends: the drain is over, or it goes on.
pub data Turn : Type 0 where
  over goes_on : Turn

abbrev pub stop_drain : Cleanup → Turn × Cleanup
stop_drain l = (over, set_phase error (one_error l))

abbrev pub is_quiet : Cleanup → Bool
is_quiet l =
    not (is_some l.notifies.head)
    && not (is_some l.closes.head)
    && not (nonzero l.stats.remaining)
    && not (nonzero l.stats.uncertain)
    && not (nonzero l.stats.reserved)

abbrev pub first_work : Option ℕ → Option ℕ → Option ℕ
first_work none c = c
first_work (some id) c = some id

abbrev pub count_abandoned : Cleanup → Cleanup
count_abandoned l = record l { stats = record l.stats { abandoned = suc l.stats.abandoned } }

abbrev pub observed : Reply Bool × Cleanup → Turn × Cleanup
observed (returns b, l) = (goes_on, count_abandoned l)
observed (raises e, l) = stop_drain l

abbrev pub received_in : Received → Cleanup → Turn × Cleanup
received_in nothing l = (goes_on, l)
received_in receive_throws l = stop_drain l
received_in (item id terminal) l = observed (observe id terminal l)

abbrev pub occupy : ℕ → Cleanup → Cleanup
occupy id l =
    let l' = modify id (λ r. record r { busy = true }) (unlink id l) in
    record l' { stats = record l'.stats { record_visits = suc l'.stats.record_visits } }

abbrev pub work_of : Option Record → Work
work_of none = no_work
work_of (some r) = r.work

abbrev pub performed : Bool → Cleanup → Turn × Cleanup
performed throws l = if throws then stop_drain l else (goes_on, l)

abbrev pub take_work : Round → Option ℕ → Cleanup → Turn × Cleanup
take_work s none l = received_in s.received (act_all l s.during)
take_work s (some id) l =
    performed s.throws
      (end_work id (work_of (lookup id l.records)) s.throws (act_all (occupy id l) s.during))

unfoldable pub drain_round : Round → Cleanup → Turn × Cleanup
unfolding act_all unlink modify end_work observe
drain_round s l₀ =
    let l = act_all l₀ s.before in
    if l.invariant_broken
    then (over, set_phase error l)
    else if is_quiet l
    then (over, set_phase quiescent l)
    else if s.late
    then (over, set_phase deadline l)
    else take_work s (first_work l.notifies.head l.closes.head) l

abbrev pub is_over : Turn → Bool
is_over over = true
is_over goes_on = false

-- The loop; `none` when the rounds run out, while the drain goes on.
unfoldable pub drain_loop : List Round → Cleanup → Option Cleanup
unfolding drain_round
drain_loop [] l = none
drain_loop (s ∷ rest) l =
    let (turn, l') = drain_round s l in
    let later = drain_loop rest l' in if is_over turn then some l' else later

-- The visit of every live record, in the order of the map.
unfoldable pub visit_all : Map Record → Cleanup → Cleanup
unfolding refresh_work
visit_all [] l = l
visit_all ((id, r) ∷ rest) l = visit_all rest (
    refresh_work id
      (record l { stats = record l.stats { record_visits = suc l.stats.record_visits } }))

abbrev pub begin_drain : Cleanup → Cleanup
begin_drain l = record (set_phase running l) { draining = true; failed = true }

-- `~DrainLease`
abbrev pub end_lease : Option Cleanup → Option Cleanup
end_lease none = none
end_lease (some l) = some (record l { draining = false })

-- After the wait for the active sends, during which others `act`: `in_time` says that the wait
-- ended before the deadline.
abbrev pub drain_waited : Bool → List Round → Cleanup → Option Cleanup
drain_waited in_time rounds l =
    if l.invariant_broken
    then some (set_phase error l)
    else if nonzero l.stats.active_sends
    then (if in_time then none else some (set_phase deadline l))
    else drain_loop rounds (visit_all l.records l)

unfoldable pub drain : List Action → Bool → List Round → Cleanup → Option Cleanup
unfolding act_all drain_loop visit_all
drain waiting in_time rounds l =
    if l.invariant_broken
    then some (set_phase error l)
    else if l.draining
    then some (one_error l)
    else end_lease (drain_waited in_time rounds (act_all (begin_drain l) waiting))
