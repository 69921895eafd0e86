-- ===== src/Examples/Queues.antt =====
-- Mailboxes.
use tdlua.Prelude.{ℕ, ◌+◌, ◌≡◌, refl, ◌⊎◌, false, none, some, List, [], ◌∷◌, lookup, insert}
use tdlua.Ticket.{
  Buffers, generic, no_buffers, acquire, refresh, retire, retire_active, report, set_pending,
  count_drop, destroy, is_active, pending_of,
}
use tdlua.Mailbox.{
  Mailbox, Envelope, generic_raw, routing, empty, publish, enqueue, pop_from, pop_locked, discard,
  deliver,
}
use tdlua.Mailbox.Invariant.{
  call, Call, publishes, erases, ends, fails, abandons, pops, call_all, IsValid, call_all-accounts,
}
use tdlua.Mailbox.Delivery.{Delivers, Exhausts, pop_locked-Outcome}

abbrev clock : ℕ → ℕ
clock n = 20 + n

-- One ticket of client 1, which expires at 6.
abbrev store : Buffers
store = acquire 1 5 generic 1 no_buffers

abbrev update : ℕ → Envelope ℕ
update n = record {
  client = 1;
  terminal = false;
  request_id = 0;
  sequence = n;
  response_class = generic_raw;
  event_type = "updateNewMessage";
  acquired_at = 1;
  generic_ticket = none;
  value = n;
}

abbrev buffered : Envelope ℕ
buffered = record (update 1) { generic_ticket = some 0 }

-- An expired update and one that cannot expire; the failure comes behind both.
abbrev calls : List (Call ℕ)
calls =
    publishes buffered
    ∷ publishes (update 2)
    ∷ publishes (update 3)
    ∷ fails routing
    ∷ pops clock
    ∷ erases 0
    ∷ ends
    ∷ abandons
    ∷ publishes (update 4)
    ∷ []

call_all-accounts_example : IsValid 4 (call_all (store, empty) calls).1
call_all-accounts_example = call_all-accounts store calls

abbrev box : Mailbox ℕ
box = (call_all (store, empty) (publishes buffered ∷ publishes (update 2) ∷ [])).1

pop_locked-Outcome_example :
    Delivers clock store box box.queue (pop_locked clock store box)
    ⊎ Exhausts clock store box box.queue (pop_locked clock store box)
pop_locked-Outcome_example = pop_locked-Outcome clock store box

pop_test : (pop_locked clock store box).item ≡ some (update 2)
unfolding pop_locked pop_from call_all call acquire refresh retire retire_active report set_pending
    count_drop destroy pending_of lookup insert deliver discard empty publish enqueue no_buffers
    is_active
pop_test = refl
