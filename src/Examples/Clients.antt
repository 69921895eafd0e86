-- ===== src/Examples/Clients.antt =====
-- The creation of a client beside another one, and the detachment of an owner.
use tdlua.Prelude.{ℕ, ◌≡◌, refl, true, false, ◌||◌, none, [], ◌∷◌, Map, lookup, insert, arith}
use tdlua.Prelude.Keys.{Sorted}
use tdlua.Identity.{empty, contains, insert_id}
use tdlua.Receiver.State.{Entry, new_entry, Runtime, Outcome, ok, thrown, client_id_reused}
use tdlua.Receiver.Lifecycle.{Environment, reap, create_client, leave}
use tdlua.Receiver.Detachment.{Detached, nobody_left, can_finish, leave-Detached}
use tdlua.Receiver.Registration.{Registers, create_client-Registers}
use tdlua.Examples.Failures.{healthy}

abbrev alone : Environment ℕ
alone = record { waited = λ r. r; joined = λ r. r; join_throws = false }

abbrev next_id : Runtime ℕ → Outcome ℕ
next_id r = ok 4

create_client-Registers_example :
    Registers (reap false alone healthy).1 1 (create_client false alone 1 next_id healthy)
create_client-Registers_example = create_client-Registers false alone 1 next_id healthy

abbrev created : Outcome ℕ × Runtime ℕ
created = create_client false alone 1 next_id healthy

created_test : created.0 ≡ ok 4
unfolding create_client lookup insert reap contains insert_id empty
created_test = refl

-- The same id once more.
reused_test : (create_client false alone 1 next_id created.1).0 ≡ thrown client_id_reused
unfolding create_client lookup insert reap contains insert_id empty
reused_test = refl

-- Owner 1 has clients 3, 4 and 6, of which 4 has ended; client 5 is another's.
abbrev shared_clients : Map Entry
shared_clients =
    (3, record (new_entry 1) { watch_demands = 1 })
    ∷ (4, record (new_entry 1) { terminal = true })
    ∷ (5, new_entry 2)
    ∷ (6, record (new_entry 1) { lifecycle_demands = 1; consumer_interests = 2 })
    ∷ []

abbrev shared : Runtime ℕ
shared = record healthy { owners = (1, tt) ∷ (2, tt) ∷ []; entries = shared_clients }

shared-Sorted : Sorted shared_clients
shared-Sorted = (7, ground arith)

leave-Detached_example :
    (lookup 1 (leave 1 shared).owners ≡ none)
    × ((leave 1 shared).stop ≡ (nobody_left 1 shared || shared.stop))
    × Detached
        (nobody_left 1 shared)
        (can_finish 1 shared)
        1
        (lookup 6 shared.entries)
        (lookup 6 (leave 1 shared).entries)
leave-Detached_example = leave-Detached 1 shared 6 shared-Sorted
