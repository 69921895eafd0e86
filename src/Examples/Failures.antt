-- ===== src/Examples/Failures.antt =====
-- A runtime before and after the failure of its worker.
use tdlua.Receiver.Status.{stats, stats-demands}
use tdlua.Prelude.{ℕ, ◌+◌, ◌≤◌, ◌≡◌, refl, true, false, [], ◌∷◌, lookup, is_some}
use tdlua.Identity
use tdlua.Ticket.{no_buffers}
use tdlua.Mailbox.{no_failure, routing}
use tdlua.Receiver.State.{Runtime, new_entry, no_counters, running}
use tdlua.Receiver.Lifecycle.{fail}
use tdlua.Receiver.Failure.{IsBroken, first, box_failure, fail-breaks}

abbrev pub healthy : Runtime ℕ
healthy = record {
  timeout = 10;
  generic_capacity = 4;
  generic_ttl = 60;
  entries = (3, record (new_entry 1) { watch_demands = 1 }) ∷ [];
  boxes = [];
  buffers = no_buffers;
  driver_tokens = [];
  watch_tokens = (1, 3) ∷ [];
  sink = true;
  known_ids = Identity.empty;
  owners = (1, tt) ∷ [];
  worker = true;
  stop = false;
  joining = false;
  state = running;
  failure = no_failure;
  next_owner = 1;
  sequence = 0;
  generation = 0;
  next_demand_token = 0;
  next_watch_token = 1;
  receiving = true;
  stats = no_counters;
}

fail-breaks_example :
    IsBroken (fail routing healthy).1
    × ((fail routing healthy).1.failure ≡ routing)
    × ((id : ℕ)
        → is_some (lookup id healthy.entries) ≡ true
        → box_failure id (fail routing healthy).1 ≡ first (box_failure id healthy) routing)
fail-breaks_example = fail-breaks routing healthy refl

stats-demands_example :
    ((stats healthy).active_demands
      ≡ (stats healthy).driver_demands
        + (stats healthy).lifecycle_demands
        + (stats healthy).watch_demands
        + (stats healthy).one_shot_demands
        + (stats healthy).request_demands)
    × ((stats healthy).pending_one_shots ≤ (stats healthy).one_shot_demands)
stats-demands_example = stats-demands healthy
