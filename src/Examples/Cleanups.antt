-- ===== src/Examples/Cleanups.antt =====
-- Runs of the ledger of the clients to close.
use tdlua.Prelude.{
  suc, ◌≡◌, refl, ℕ, true, false, not, ◌&&◌, ◌||◌, List, [], ◌∷◌, ◌++◌, some, is_some, lookup,
  insert, erase,
}
use tdlua.Identity.{contains, insert_id, register, empty}
use tdlua.Cleanup.{
  error, quiescent, init, Cleanup, Record, new_record, no_queue, no_stats, close, notify,
}
use tdlua.Cleanup.Queues.{
  same_work, modify, take_out, unlink, push_back, desired, refresh_work, is_ready, retire_if_ready,
}
use tdlua.Cleanup.Queues.Chain.{mem}
use tdlua.Cleanup.Queues.Effects.{work_at}
use tdlua.Cleanup.Queues.Represents.{Lines, Represents}
use tdlua.Cleanup.Queues.Refinement.{requeue}
use tdlua.Cleanup.Queues.Requeue.{wanted, refresh_work-Represents}
use tdlua.Cleanup.Ledger.{
  register_client, begin_send, end_send, observe, materialize, mark_close_sent, set_uncertain,
}
use tdlua.Cleanup.Drain.{
  Action, registers, acknowledges, begins_send, ends_send, retires_reserved, rejects_shutdown, act,
  act_all, Received, nothing, item, Round, occupy, drain_round, drain_loop, visit_all, drain,
  end_work,
}
use tdlua.Cleanup.Counters.{of_active, count, total}
use tdlua.Cleanup.Laws.{suits}
use tdlua.Cleanup.Reached.{
  Use, acts, observes, life, life-Counted, life-Waiting, life-lawful, end_send-unbegun,
}
use tdlua.Cleanup.Drained.{
  after_wait, visited, after_rounds, drain-empty, held_stays, no_send, drain_loop-returns,
}

-- Client 7 has been seen, client 9 has a send under way, client 5 is unused.
abbrev uses : List Use
uses =
    acts (begins_send 9 false)
    ∷ observes 7 false
    ∷ acts (registers 9)
    ∷ acts (registers 7)
    ∷ acts (registers 5)
    ∷ []

abbrev waiting : List Action
waiting = ends_send 9 false true ∷ []

abbrev receives : Received → Round
receives x = record { before = []; late = false; during = []; throws = false; received = x }

abbrev works : Round
works = receives nothing

abbrev rounds : List Round
rounds =
    works
    ∷ works
    ∷ receives nothing
    ∷ works
    ∷ receives (item 7 true)
    ∷ works
    ∷ receives (item 9 true)
    ∷ works
    ∷ works
    ∷ []

abbrev seven : Record
seven = record new_record { materialized = true; work = close }

seven_waits : lookup 7 (life uses).records ≡ some seven
unfolding life init act act_all register_client begin_send end_send observe refresh_work
    retire_if_ready unlink take_out push_back modify desired is_ready lookup insert erase insert_id
    contains register empty materialize mark_close_sent set_uncertain
seven_waits = refl

life-Counted_example : count of_active (life uses).stats ≡ total of_active (life uses).records
life-Counted_example = life-Counted uses of_active

life-Waiting_example :
    (a : Lines) × Represents (life uses) a
    × ((j : ℕ)
        → (same_work close (wanted (life uses) (lookup j (life uses).records)) ≡ mem j a.closing)
          × (same_work notify (wanted (life uses) (lookup j (life uses).records))
              ≡ mem j a.notifying))
life-Waiting_example = life-Waiting uses

life-lawful_example :
    ((not seven.terminal || seven.materialized && not seven.uncertain) ≡ true)
    × ((not seven.notified || seven.terminal) ≡ true)
    × (seven.busy ≡ false)
    × (is_ready seven ≡ false)
life-lawful_example = life-lawful uses 7 seven seven_waits

abbrev quiet_uses : List Use
quiet_uses = acts (registers 7) ∷ []

no_send_yet : (life quiet_uses).stats.active_sends ≡ 0
unfolding life init act act_all register_client begin_send end_send observe refresh_work
    retire_if_ready unlink take_out push_back modify desired is_ready lookup insert erase insert_id
    contains register empty materialize mark_close_sent set_uncertain
no_send_yet = refl

end_send-unbegun_example : end_send 7 true true (life quiet_uses) ≡ record (life quiet_uses) {
  invariant_broken = true;
  stats = record (life quiet_uses).stats {
    accounting_errors = suc (life quiet_uses).stats.accounting_errors;
    phase = error;
  };
}
end_send-unbegun_example = end_send-unbegun quiet_uses 7 true true no_send_yet

refresh_work-Represents_example : Represents (refresh_work 7 (life uses)) (
    requeue 7
      (work_at (lookup 7 (life uses).records))
      (wanted (life uses) (lookup 7 (life uses).records))
      (life-Waiting uses).0)
refresh_work-Represents_example =
    refresh_work-Represents 7 (life uses) (life-Waiting uses).0 (life-Waiting uses).1

-- The ledger after the drain, which has closed 7 and 9 and notified of all three.
abbrev ended : Cleanup
ended = record {
  records = [];
  history = record { blocks = (0, 672) ∷ []; identities = 3 };
  closes = no_queue;
  notifies = no_queue;
  failed = true;
  draining = false;
  invariant_broken = false;
  stats = record no_stats {
    phase = quiescent;
    materialized = 2;
    closes = 2;
    terminals = 2;
    abandoned = 2;
    unused = 1;
    record_visits = 8;
  };
}

not_draining : (life uses).draining ≡ false
unfolding life init act act_all register_client begin_send end_send observe refresh_work
    retire_if_ready unlink take_out push_back modify desired is_ready lookup insert erase insert_id
    contains register empty materialize mark_close_sent set_uncertain
not_draining = refl

drain_ends : drain waiting true rounds (life uses) ≡ some ended
unfolding life init act act_all register_client begin_send end_send observe refresh_work
    retire_if_ready unlink take_out push_back modify desired is_ready lookup insert erase insert_id
    contains register empty materialize mark_close_sent set_uncertain drain drain_loop drain_round
    visit_all end_work
drain_ends = refl

drain-empty_example : ended.records ≡ []
drain-empty_example = drain-empty uses waiting true rounds ended not_draining drain_ends refl

sends_end : (after_wait uses waiting).stats.active_sends ≡ 0
unfolding life init act act_all register_client begin_send end_send observe refresh_work
    retire_if_ready unlink take_out push_back modify desired is_ready lookup insert erase insert_id
    contains register empty materialize mark_close_sent set_uncertain after_wait
sends_end = refl

abbrev early_round : List Round
early_round = works ∷ []

seven_due :
    lookup 7 (after_rounds early_round (visited (after_wait uses waiting))).records
    ≡ some (record seven { next = some 9 })
unfolding life init act act_all register_client begin_send end_send observe refresh_work
    retire_if_ready unlink take_out push_back modify desired is_ready lookup insert erase insert_id
    contains register empty materialize mark_close_sent set_uncertain after_wait after_rounds
    drain_round visit_all end_work
seven_due = refl

abbrev meddling : List Action
meddling = retires_reserved 7 ∷ rejects_shutdown 7 ∷ acknowledges 7 ∷ []

held_stays_example :
    (r' : Record) × (lookup 7
        (act_all
          (occupy 7 (after_rounds early_round (visited (after_wait uses waiting))))
          meddling).records
      ≡ some r')
    × (r'.busy ≡ true)
    × (suits close r' ≡ true)
held_stays_example =
    held_stays uses waiting early_round 7 (record seven { next = some 9 }) meddling sends_end
      seven_due refl

no_send_example :
    (act_all
      (after_rounds early_round (visited (after_wait uses waiting)))
      (begins_send 7 false ∷ [])).stats.active_sends
    ≡ 0
no_send_example = no_send uses waiting early_round (begins_send 7 false ∷ []) sends_end

drain_loop-returns_example :
    is_some (drain_loop (early_round ++ (record works { late = true }) ∷ []) (life uses)) ≡ true
drain_loop-returns_example =
    drain_loop-returns early_round [] (record works { late = true }) (life uses) refl
