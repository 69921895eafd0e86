-- ===== src/Examples/Sends.antt =====
-- Sends of client 3 through a healthy runtime and the ledger that knows the client.
use tdlua.Prelude.{◌≡◌, refl, true, false, some, List, [], ◌∷◌, lookup, insert}
use tdlua.Identity.{contains, insert_id, register, empty}
use tdlua.Mailbox.{generic_raw, managed_protected}
use tdlua.Receiver.State.{Entry, new_entry, touch, set_entry}
use tdlua.Receiver.Demand.{start_locked}
use tdlua.Receiver.Sends.{plenty, none_to_protect, add_pending, admit_send, end_send}
use tdlua.Receiver.Sends.Rollback.{SameDemand, Fresh}
use tdlua.Receiver.Sends.Refusal.{is_admitted, end_send-admit_send, admit_send-refused}
use tdlua.Cleanup.{init}
use tdlua.Cleanup.Ledger
use tdlua.Cleanup.Drain.{registers, act}
use tdlua.Cleanup.Reached.{Use, acts, life}
use tdlua.Examples.Failures.{healthy}

abbrev client : Entry
client = record (new_entry 1) { watch_demands = 1 }

abbrev registered : List Use
registered = acts (registers 3) ∷ []

is_Fresh : Fresh 8 client
unfolding lookup
is_Fresh = (refl, refl)

client_there : lookup 3 healthy.entries ≡ some client
unfolding lookup
client_there = refl

closing_admitted :
    is_admitted (admit_send 3 true 8 generic_raw plenty healthy (life registered)).0 ≡ true
unfolding admit_send start_locked add_pending touch set_entry life init act Ledger.register_client
    Ledger.begin_send insert_id contains register empty lookup insert
closing_admitted = refl

end_send-admit_send_example :
    (e' : Entry) × (lookup 3
        (end_send 3 true 8 false
          (admit_send 3 true 8 generic_raw plenty healthy (life registered)).1).entries
      ≡ some e')
    × SameDemand client e'
end_send-admit_send_example =
    end_send-admit_send 3 true 8 generic_raw plenty healthy (life registered) client client_there
      is_Fresh closing_admitted

unprotected_refused :
    is_admitted (admit_send 3 false 8 managed_protected none_to_protect healthy (life registered)).0
    ≡ false
unfolding admit_send start_locked add_pending touch set_entry life init act Ledger.register_client
    Ledger.begin_send insert_id contains register empty lookup insert
unprotected_refused = refl

admit_send-refused_example :
    ((e' : Entry) × (lookup 3
          (admit_send 3 false 8 managed_protected none_to_protect healthy
            (life registered)).1.entries
        ≡ some e')
      × SameDemand client e')
    × ((admit_send 3 false 8 managed_protected none_to_protect healthy
          (life registered)).2.stats.active_sends
        ≡ (life registered).stats.active_sends)
admit_send-refused_example =
    admit_send-refused 3 false 8 managed_protected none_to_protect healthy registered client
      client_there is_Fresh unprotected_refused
