-- ===== src/Receiver/Leases/History.antt =====
-- The balance of leases over whole histories: leases, one-shots, terminal clients, stop and
-- failure.
use tdlua.Prelude.{
  ℕ, suc, ◌≡◌, refl, ap, ◌∙◌, Bool, true, Option, none, some, List, [], ◌∷◌, Map, lookup,
  lookup-insert, arith, ==_refl, if_both,
}
use tdlua.Mailbox.{Failure, is_failure}
use tdlua.Receiver.State.{Entry, Runtime, Outcome, ok, thrown, touch, set_entry, set_box}
use tdlua.Receiver.Demand.{
  start_locked, clear_driver_demand, clear_demand, quiet_entry, quiet_drivers,
}
use tdlua.Receiver.Interest.{
  Means, has_thread, acquire_driver, acquire_watch, release_driver, release_watch, request_one_shot,
  request_one_shot_at, one_shot_after,
}
use tdlua.Receiver.Lifecycle.{
  cleanup_terminal, cleanup_terminal_at, end_box, retire_entry, request_stop, fail, fail_boxes,
  count_failure, break_down, no_watch, no_subscription,
}
use tdlua.Receiver.Leases.{
  IsBalanced, SameLeases, same-IsBalanced, start_locked-same, start_locked-IsBalanced,
  acquire_driver-IsBalanced, acquire_watch-IsBalanced, release_driver-IsBalanced,
  release_watch-IsBalanced,
}
use tdlua.Receiver.Leases.Tokens.{
  at_entry, Matches-update, Matches-clear, Matches-erase, Matches-map, Matches-none,
  without_client-Ascending,
}

module _ {A : Type 0} where
  -- Whatever entry is put in its place, a cleared client has no lease.
  pub clear_demand-IsBalanced :
      (id : ℕ) (e : Entry) (r : Runtime A) → IsBalanced r → IsBalanced (clear_demand id e r)
  unfolding clear_demand
  clear_demand-IsBalanced id e r v = record {
    drivers =
        Matches-clear (λ e. e.active_drivers) r.entries r.driver_tokens v.drivers id (quiet_entry e)
          refl;
    watches =
        Matches-clear (λ e. e.watch_demands) r.entries r.watch_tokens v.watches id (quiet_entry e)
          refl;
    driver_order =
        without_client-Ascending id 1 (suc r.next_demand_token) r.driver_tokens v.driver_order;
    watch_order =
        without_client-Ascending id 1 (suc r.next_watch_token) r.watch_tokens v.watch_order;
  }

  pub clear_driver_demand-IsBalanced :
      (id : ℕ) (e : Entry) (r : Runtime A) → IsBalanced r → IsBalanced (clear_driver_demand id e r)
  unfolding clear_driver_demand
  clear_driver_demand-IsBalanced id e r v = record {
    drivers =
        Matches-clear (λ e. e.active_drivers) r.entries r.driver_tokens v.drivers id
          (quiet_drivers e) refl;
    watches =
        Matches-clear (λ e. e.watch_demands) r.entries r.watch_tokens v.watches id (quiet_drivers e)
          refl;
    driver_order =
        without_client-Ascending id 1 (suc r.next_demand_token) r.driver_tokens v.driver_order;
    watch_order =
        without_client-Ascending id 1 (suc r.next_watch_token) r.watch_tokens v.watch_order;
  }

  pub end_box-same : (id : ℕ) (r : Runtime A) → SameLeases r (end_box id r)
  unfolding end_box
  end_box-same id r = (refl, refl, refl, refl, refl)

  pub retire_entry-IsBalanced :
      (id : ℕ) (r : Runtime A)
      → at_entry (λ e. e.active_drivers) (lookup id r.entries) ≡ 0
      → at_entry (λ e. e.watch_demands) (lookup id r.entries) ≡ 0
      → IsBalanced r
      → IsBalanced (retire_entry id r)
  unfolding retire_entry
  retire_entry-IsBalanced id r d w v = record {
    drivers = Matches-erase (λ e. e.active_drivers) r.entries r.driver_tokens v.drivers id d;
    watches = Matches-erase (λ e. e.watch_demands) r.entries r.watch_tokens v.watches id w;
    driver_order = v.driver_order;
    watch_order = v.watch_order;
  }

  -- The entry is cleared, its mailbox told, and an orphan retired.
  pub close_entry-IsBalanced :
      (id : ℕ) (e : Entry) (r : Runtime A)
      → IsBalanced r
      → IsBalanced (retire_entry id (end_box id (clear_demand id e r)))
  close_entry-IsBalanced id e r v =
      retire_entry-IsBalanced id (end_box id (clear_demand id e r))
        (unfold end_box clear_demand in rw (lookup-insert id id, ==_refl id) refl)
        (unfold end_box clear_demand in rw (lookup-insert id id, ==_refl id) refl)
        (same-IsBalanced (clear_demand id e r) (end_box id (clear_demand id e r))
          (end_box-same id (clear_demand id e r)) (clear_demand-IsBalanced id e r v))

  cleanup_terminal_at-IsBalanced :
      (id : ℕ) (o : Option Entry) (r : Runtime A)
      → IsBalanced r
      → IsBalanced (cleanup_terminal_at id o r)
  cleanup_terminal_at-IsBalanced id none r v = v
  cleanup_terminal_at-IsBalanced id (some e) r v =
      let cleared = clear_demand id (record e { terminal = true }) r in
      if_both IsBalanced e.orphan (close_entry-IsBalanced id (record e { terminal = true }) r v) (
        same-IsBalanced cleared (end_box id cleared) (end_box-same id cleared)
          (clear_demand-IsBalanced id (record e { terminal = true }) r v))

  pub cleanup_terminal-IsBalanced :
      (id : ℕ) (r : Runtime A) → IsBalanced r → IsBalanced (cleanup_terminal id r)
  unfolding cleanup_terminal
  cleanup_terminal-IsBalanced id r v = cleanup_terminal_at-IsBalanced id (lookup id r.entries) r v

  pub request_stop-IsBalanced : (r : Runtime A) → IsBalanced r → IsBalanced (request_stop r)
  unfolding request_stop
  request_stop-IsBalanced r v = record {
    drivers =
        Matches-map (λ e. e.active_drivers) no_watch r.entries r.driver_tokens (λ e. refl)
          v.drivers;
    watches = Matches-none (λ e. e.watch_demands) no_watch r.entries (λ e. refl);
    driver_order = v.driver_order;
    watch_order = tt;
  }

  fail_boxes-same :
      (f : Failure) (es : Map Entry) (r : Runtime A) → SameLeases r (fail_boxes f es r)
  unfolding fail_boxes
  fail_boxes-same f [] r = (refl, refl, refl, refl, refl)
  fail_boxes-same f ((id, e) ∷ rest) r = fail_boxes-same f rest (set_box id _ r)

  count_failure-same : (f : Failure) (r : Runtime A) → SameLeases r (count_failure f r)
  count_failure-same f r = if_both (SameLeases r) (is_failure r.failure) same same
    where
      same : SameLeases r r
      same = (refl, refl, refl, refl, refl)

  break_down-IsBalanced : (r : Runtime A) → IsBalanced r → IsBalanced (break_down r)
  break_down-IsBalanced r v = record {
    drivers =
        Matches-map (λ e. e.active_drivers) no_subscription r.entries r.driver_tokens (λ e. refl)
          v.drivers;
    watches = Matches-none (λ e. e.watch_demands) no_subscription r.entries (λ e. refl);
    driver_order = v.driver_order;
    watch_order = tt;
  }

  pub fail-IsBalanced : (f : Failure) (r : Runtime A) → IsBalanced r → IsBalanced (fail f r).1
  unfolding fail
  fail-IsBalanced f r v =
      let r' = count_failure f r in
      same-IsBalanced (break_down r') (fail_boxes r'.failure r'.entries (break_down r'))
        (fail_boxes-same r'.failure r'.entries (break_down r'))
        (break_down-IsBalanced r' (same-IsBalanced r r' (count_failure-same f r) v))

  one_shot_after-IsBalanced :
      (id : ℕ) (e : Entry) (m : Outcome (Unit {0}) × Runtime A)
      → lookup id m.1.entries ≡ some e
      → IsBalanced m.1
      → IsBalanced (one_shot_after id e m).1
  unfolding touch set_entry
  one_shot_after-IsBalanced id e (thrown f, r) found v = v
  one_shot_after-IsBalanced id e (ok u, r) found v = record {
    drivers =
        Matches-update (λ e. e.active_drivers) r.entries r.driver_tokens v.drivers id
          (record e { one_shot_pending = true }) (ground (arith, found));
    watches =
        Matches-update (λ e. e.watch_demands) r.entries r.watch_tokens v.watches id
          (record e { one_shot_pending = true }) (ground (arith, found));
    driver_order = v.driver_order;
    watch_order = v.watch_order;
  }

  request_one_shot_at-IsBalanced :
      (means : Means) (id : ℕ) (o : Option Entry) (r : Runtime A)
      → lookup id r.entries ≡ o
      → IsBalanced r
      → IsBalanced (request_one_shot_at means id o r).1
  request_one_shot_at-IsBalanced means id none r found v = v
  request_one_shot_at-IsBalanced means id (some e) r found v =
      if_both (λ (m : Outcome Bool × Runtime A). IsBalanced m.1) e.terminal v
        (one_shot_after-IsBalanced id e (start_locked (has_thread means) r)
          (ap (lookup id) (start_locked-same (has_thread means) r).0 ∙ found)
          (start_locked-IsBalanced (has_thread means) r v))

  pub request_one_shot-IsBalanced :
      (means : Means) (id : ℕ) (r : Runtime A)
      → IsBalanced r
      → IsBalanced (request_one_shot means id r).1
  unfolding request_one_shot
  request_one_shot-IsBalanced means id r v =
      request_one_shot_at-IsBalanced means id (lookup id r.entries) r refl v

-- What happens to the leases: clients and threads acquire and release, TDLib ends clients, the
-- runtime stops or fails. An acquisition can find no thread or no memory, and then throws. A release may name any token, also one released or cleared before.
pub data Event : Type 0 where
  acquires_driver acquires_watch requests_one_shot : Means → ℕ → Event
  releases_driver releases_watch ends : ℕ → Event
  stops : Event
  fails : Failure → Event

module _ {A : Type 0} where
  unfoldable pub happen : Runtime A → Event → Runtime A
  happen r (acquires_driver means id) = (acquire_driver means id r).1
  happen r (releases_driver token) = release_driver token r
  happen r (acquires_watch means id) = (acquire_watch means id r).1
  happen r (releases_watch token) = release_watch token r
  happen r (requests_one_shot means id) = (request_one_shot means id r).1
  happen r (ends id) = cleanup_terminal id r
  happen r stops = request_stop r
  happen r (fails f) = (fail f r).1

  unfoldable pub happen_all : Runtime A → List Event → Runtime A
  unfolding happen
  happen_all r [] = r
  happen_all r (e ∷ es) = happen_all (happen r e) es

  happen-IsBalanced : (r : Runtime A) (e : Event) → IsBalanced r → IsBalanced (happen r e)
  unfolding happen
  happen-IsBalanced r (acquires_driver means id) v = acquire_driver-IsBalanced means id r v
  happen-IsBalanced r (releases_driver token) v = release_driver-IsBalanced token r v
  happen-IsBalanced r (acquires_watch means id) v = acquire_watch-IsBalanced means id r v
  happen-IsBalanced r (releases_watch token) v = release_watch-IsBalanced token r v
  happen-IsBalanced r (requests_one_shot means id) v = request_one_shot-IsBalanced means id r v
  happen-IsBalanced r (ends id) v = cleanup_terminal-IsBalanced id r v
  happen-IsBalanced r stops v = request_stop-IsBalanced r v
  happen-IsBalanced r (fails f) v = fail-IsBalanced f r v

  -- From a runtime on whose lease counters agree with its tokens, whatever leases are acquired,
  -- released, released again, ended with their client, stopped or failed, each client's driver and
  -- watch counters equal the number of its live tokens, no other client has a token, and no token
  -- is ahead of the counter that numbers them.
  pub happen_all-IsBalanced :
      (r : Runtime A) (es : List Event) → IsBalanced r → IsBalanced (happen_all r es)
  unfolding happen_all
  happen_all-IsBalanced r [] v = v
  happen_all-IsBalanced r (e ∷ es) v =
      happen_all-IsBalanced (happen r e) es (happen-IsBalanced r e v)
