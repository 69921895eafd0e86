-- ===== src/Examples/Views.antt =====
-- A view of client 3, whose owner is attached to the hub.
use tdlua.Prelude.{◌≡◌, refl, true, false, none, some, lookup, insert}
use tdlua.Receiver.State.{Entry, new_entry}
use tdlua.Wake.{closed_target}
use tdlua.Readiness.{Hub, attach_owner, owner_generation}
use tdlua.Readiness
use tdlua.Receiver.Interest.{no_room}
use tdlua.View.{plentiful, View, new_view, enable_watch}
use tdlua.View.Watch.{Undoes, enable_watch-Undoes}
use tdlua.Examples.Failures.{healthy}

abbrev client : Entry
client = record (new_entry 1) { watch_demands = 1 }

abbrev hub : Hub
hub = attach_owner 1 Readiness.init

abbrev view : View
view = record {
  hub = true;
  engine = true;
  owner = 1;
  client = 3;
  owner_generation = 1;
  next_deadline = false;
  subscription = none;
}

client_there : lookup 3 healthy.entries ≡ some client
unfolding lookup
client_there = refl

-- The view of the owner's first generation.
view_new : new_view true true 1 3 false hub ≡ view
unfolding new_view owner_generation attach_owner Readiness.init lookup insert
view_new = refl

enable_watch-Undoes_example :
    Undoes 3 client (enable_watch plentiful no_room true closed_target view hub healthy).0
enable_watch-Undoes_example =
    enable_watch-Undoes plentiful no_room true closed_target view hub healthy client refl
      client_there
