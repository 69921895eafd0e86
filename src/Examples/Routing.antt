-- ===== src/Examples/Routing.antt =====
-- A runtime with one client.
use tdlua.Prelude.{
  insert, erase, arith, ℕ, ◌≡◌, ◌≢◌, refl, true, false, none, some, List, [], ◌∷◌, lookup,
}
use tdlua.Identity
use tdlua.Ticket.{generic, no_buffers}
use tdlua.Mailbox.{Envelope, no_failure, routing, managed_protected, generic_raw}
use tdlua.Receiver.State.{
  Do, thrown, hook_failed, touch, ring_client, ok, told, broadcast, box_of, Runtime, Entry,
  new_entry, no_counters, stopped,
}
use tdlua.Receiver.Interest.{enough, no_thread, no_room}
use tdlua.Receiver.Leases.{IsBalanced}
use tdlua.Receiver.Leases.History.{
  Event, acquires_driver, releases_driver, acquires_watch, releases_watch, requests_one_shot, ends,
  stops, fails, happen_all, happen_all-IsBalanced,
}
use tdlua.Receiver.Lifecycle.{Environment, stop_and_join}
use tdlua.Receiver.Shutdown.{Rests, stop_and_join-Rests}
use tdlua.Receiver.Publish.{receive_item, route, route_item, publish}
use tdlua.Receiver.Publish.Rings.{Rung, publish-Rung}
use tdlua.Receiver.Publish.Newest.{IsNewest}
use tdlua.Receiver.Publish.Accounting.{Adds, classified, route-Adds}
use tdlua.Receiver.Publish.Decision.{
  decide, handler_filter, preserve, kept, handler_filter, preserve, ticket_channel, generic_update,
  subscription_update, subscription_only, driver_active, generic_consumer, handler_registered,
  selected_handler_update, traditional, class_of,
}
use tdlua.Receiver.Publish.Retention.{decide_owed, decide_protected}

abbrev pub runtime : Runtime ℕ
runtime = record {
  timeout = 10;
  generic_capacity = 4;
  generic_ttl = 60;
  entries = (1, new_entry 1) ∷ [];
  boxes = [];
  buffers = no_buffers;
  driver_tokens = [];
  watch_tokens = [];
  sink = true;
  known_ids = Identity.empty;
  owners = (1, tt) ∷ [];
  worker = false;
  stop = false;
  joining = false;
  state = stopped;
  failure = no_failure;
  next_owner = 1;
  sequence = 0;
  generation = 0;
  next_demand_token = 0;
  next_watch_token = 0;
  receiving = false;
  stats = no_counters;
}

pub runtime-IsBalanced : IsBalanced runtime
unfolding lookup
runtime-IsBalanced = record {
  drivers = λ id. ground arith;
  watches = λ id. ground arith;
  driver_order = tt;
  watch_order = tt;
}

-- Token 1 is released twice, a token finds no memory, and token 2 is cleared by the failure before its release.
abbrev events : List Event
events =
    acquires_driver enough 1
    ∷ acquires_watch enough 1
    ∷ releases_driver 1
    ∷ releases_driver 1
    ∷ acquires_driver enough 1
    ∷ acquires_driver no_room 1
    ∷ requests_one_shot no_thread 1
    ∷ stops
    ∷ fails routing
    ∷ releases_watch 1
    ∷ ends 1
    ∷ []

happen_all-IsBalanced_example : IsBalanced (happen_all runtime events)
happen_all-IsBalanced_example = happen_all-IsBalanced runtime events runtime-IsBalanced

abbrev alone : Environment ℕ
alone = record { waited = λ r. r; joined = λ r. r; join_throws = false }

-- The receiver has run, stopped and failed before it is joined.
stop_and_join-Rests_example :
    ((stop_and_join false alone (happen_all runtime events)).0
      ≡ ok (told (happen_all runtime events).sink (broadcast ∷ [])))
    × Rests (stop_and_join false alone (happen_all runtime events)).1
stop_and_join-Rests_example = stop_and_join-Rests alone runtime events refl refl

-- A client with a managed request 5, a raw request 6 and a generic subscription.
abbrev entry : Entry
entry = record (new_entry 1) {
  subscription_generic = 1;
  pending_requests = (6, 1) ∷ [];
  protected_requests = (5, managed_protected) ∷ [];
}

decide_owed_example :
    decide entry false false 6 "message" ≡ kept (ticket_channel entry false false 6 "message")
decide_owed_example = decide_owed entry false false 6 "message" refl

decide_protected_example : decide entry false false 5 "ok" ≡ kept none
decide_protected_example = decide_protected entry false false 5 "ok" refl managed
  where
    managed : class_of entry false 5 ≢ generic_raw
    managed = unfold class_of lookup in λ e. ground arith

abbrev update : Envelope ℕ
update = record {
  client = 1;
  terminal = false;
  request_id = 6;
  sequence = 1;
  response_class = generic_raw;
  event_type = "message";
  acquired_at = 5;
  generic_ticket = none;
  value = 77;
}

-- A raw answer takes a ticket.
raw_answer :
    decide entry false update.terminal update.request_id update.event_type ≡ kept (some generic)
raw_answer =
    unfold decide handler_filter preserve ticket_channel generic_update subscription_update
      subscription_only traditional driver_active generic_consumer handler_registered
      selected_handler_update lookup class_of in
    refl

route-Adds_example :
    ((route 5 false update entry runtime).0 ≡ true)
    × Adds (kept (some generic)) runtime.stats (route 5 false update entry runtime).1.stats
    × (true ≡ true
        → (box_of update.client runtime).orphan ≡ false
        → IsNewest
            (classified update entry)
            (box_of update.client (route 5 false update entry runtime).1))
route-Adds_example = route-Adds 5 false update entry runtime (kept (some generic)) raw_answer

abbrev quiet_hook : Do ℕ (Unit {0})
quiet_hook r = (ok tt, r)

abbrev failing_hook : Do ℕ (Unit {0})
failing_hook r = (thrown hook_failed, r)

publish-Rung_example : Rung 1 runtime (publish quiet_hook failing_hook 5 [] update runtime)
publish-Rung_example =
    publish-Rung quiet_hook failing_hook (λ r. (refl, refl)) (λ r. (refl, refl)) 5 [] update runtime

-- The ring stays told although the second hook throws.
rung_test : (publish quiet_hook failing_hook 5 [] update runtime).0 ≡ ring_client 1 ∷ []
unfolding publish receive_item route_item route touch lookup insert erase decide handler_filter
    preserve ticket_channel generic_update subscription_update subscription_only traditional
    driver_active generic_consumer handler_registered selected_handler_update class_of
rung_test = refl
