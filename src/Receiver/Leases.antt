-- ===== src/Receiver/Leases.antt =====
-- The leases of the receiver: for each client, the demand counters of its entry count exactly the
-- tokens that stand for it, so that a lease can be released once and never underflows a counter.
mod Tokens
pub mod History
use tdlua.Prelude.{
  ℕ, zero, suc, ◌+◌, ◌-◌, ◌≤◌, ◌<◌, ◌≡◌, refl, ap, ◌∙◌, ◌⊎◌, inl, inr, Bool, true, false, Option,
  none, some, List, [], ◌∷◌, Map, lookup, insert, erase, map_values, arith, ◌==◌, ◌||◌, ◌&&◌, not,
  bit, sum_by, Bool-cases, Option-cases, if◌then◌else◌,
}
use tdlua.Prelude.Keys.{Ascending, insert-Ascending, erase-Ascending, lookup_above, Ascending-widen}
use tdlua.Mailbox.{is_failure}
use tdlua.Receiver.State.{Entry, Runtime, Outcome, ok, thrown, touch, set_entry, Do}
use tdlua.Receiver.Demand.{
  start_locked, clear_driver_demand, clear_demand, drop_tokens, quiet_entry, quiet_drivers,
  is_running, is_broken, is_empty, less_one, is_stopping,
}
use tdlua.Receiver.Interest.{
  Means, enough, no_thread, no_room, has_thread, number_driver, number_watch, acquire_driver,
  acquire_driver_at, lease_after, register_driver, acquire_watch, acquire_watch_at, register_watch,
  release_driver, release_driver_at, lower_drivers, release_watch, release_watch_at, lower_watches,
}
use Tokens.{
  Matches, names, at_entry, Matches-acquire, Matches-release, Matches-registered, Matches-update,
  Matches-clear, Matches-erase, Matches-map, Matches-none, without_client-Ascending, token_fresh,
  token_order,
}

-- Tokens are numbered from 1 and none is ahead of its counter.
pub record IsBalanced {A : Type 0} (r : Runtime A) : Type 0 where
  pub drivers : Matches (λ e. e.active_drivers) r.entries r.driver_tokens
  pub watches : Matches (λ e. e.watch_demands) r.entries r.watch_tokens
  pub driver_order : Ascending 1 (suc r.next_demand_token) r.driver_tokens
  pub watch_order : Ascending 1 (suc r.next_watch_token) r.watch_tokens

less_one_down : (n : ℕ) → (n ≡ suc (less_one n)) ⊎ (n ≡ 0)
less_one_down zero = inr refl
less_one_down (suc n) = inl refl

module _ {A : Type 0} where
  -- Only these members matter.
  abbrev pub SameLeases : Runtime A → Runtime A → Type 0
  SameLeases r r' =
      (r'.entries ≡ r.entries)
      × (r'.driver_tokens ≡ r.driver_tokens)
      × (r'.watch_tokens ≡ r.watch_tokens)
      × (r'.next_demand_token ≡ r.next_demand_token)
      × (r'.next_watch_token ≡ r.next_watch_token)

  pub same-IsBalanced : (r r' : Runtime A) → SameLeases r r' → IsBalanced r → IsBalanced r'
  same-IsBalanced r r' (es, ds, ws, nd, nw) v = record {
    drivers = rw (es, ds) v.drivers;
    watches = rw (es, ws) v.watches;
    driver_order = rw (ds, nd) v.driver_order;
    watch_order = rw (ws, nw) v.watch_order;
  }

  pub start_locked-same : (threads : Bool) (r : Runtime A) → SameLeases r (start_locked threads r).1
  unfolding start_locked
  start_locked-same threads r =
      (ground arith, ground arith, ground arith, ground arith, ground arith)

  pub start_locked-IsBalanced :
      (threads : Bool) (r : Runtime A) → IsBalanced r → IsBalanced (start_locked threads r).1
  start_locked-IsBalanced threads r v =
      same-IsBalanced r (start_locked threads r).1 (start_locked-same threads r) v

  -- A number that no token took.
  number_driver-IsBalanced : (r : Runtime A) → IsBalanced r → IsBalanced (number_driver r)
  number_driver-IsBalanced r v = record {
    drivers = v.drivers;
    watches = v.watches;
    driver_order =
        Ascending-widen 1 (suc r.next_demand_token) 1 (suc (suc r.next_demand_token))
          r.driver_tokens v.driver_order (omega arith) (omega arith);
    watch_order = v.watch_order;
  }

  number_watch-IsBalanced : (r : Runtime A) → IsBalanced r → IsBalanced (number_watch r)
  number_watch-IsBalanced r v = record {
    drivers = v.drivers;
    watches = v.watches;
    driver_order = v.driver_order;
    watch_order =
        Ascending-widen 1 (suc r.next_watch_token) 1 (suc (suc r.next_watch_token)) r.watch_tokens
          v.watch_order (omega arith) (omega arith);
  }

  register_driver-IsBalanced :
      (id : ℕ) (e : Entry) (r : Runtime A)
      → lookup id r.entries ≡ some e
      → IsBalanced r
      → IsBalanced (register_driver id e r)
  unfolding touch set_entry
  register_driver-IsBalanced id e r found v = record {
    drivers =
        Matches-acquire (λ e. e.active_drivers) r.entries r.driver_tokens v.drivers id
          (suc r.next_demand_token) e _ found
          (token_fresh r.next_demand_token r.driver_tokens v.driver_order) refl;
    watches =
        Matches-update (λ e. e.watch_demands) r.entries r.watch_tokens v.watches id
          (record e { active_drivers = suc e.active_drivers }) (ground (arith, found));
    driver_order = token_order r.next_demand_token r.driver_tokens v.driver_order id;
    watch_order = v.watch_order;
  }

  register_watch-IsBalanced :
      (id : ℕ) (e : Entry) (r : Runtime A)
      → lookup id r.entries ≡ some e
      → IsBalanced r
      → IsBalanced (register_watch id e r)
  unfolding touch set_entry
  register_watch-IsBalanced id e r found v = record {
    drivers =
        Matches-update (λ e. e.active_drivers) r.entries r.driver_tokens v.drivers id
          (record e { watch_demands = suc e.watch_demands }) (ground (arith, found));
    watches =
        Matches-acquire (λ e. e.watch_demands) r.entries r.watch_tokens v.watches id
          (suc r.next_watch_token) e _ found
          (token_fresh r.next_watch_token r.watch_tokens v.watch_order) refl;
    driver_order = v.driver_order;
    watch_order = token_order r.next_watch_token r.watch_tokens v.watch_order id;
  }

  lease_after-IsBalanced :
      (means : Means) (m : Outcome (Unit {0}) × Runtime A) (number register : Runtime A → Runtime A)
      (token : Runtime A → ℕ)
      → IsBalanced m.1
      → IsBalanced (number m.1)
      → IsBalanced (register m.1)
      → IsBalanced (lease_after means m number register token).1
  lease_after-IsBalanced enough (ok u, r) number register token v n w = w
  lease_after-IsBalanced no_thread (ok u, r) number register token v n w = w
  lease_after-IsBalanced no_room (ok u, r) number register token v n w = n
  lease_after-IsBalanced means (thrown f, r) number register token v n w = v

  acquire_driver_at-IsBalanced :
      (means : Means) (id : ℕ) (o : Option Entry) (r : Runtime A)
      → lookup id r.entries ≡ o
      → IsBalanced r
      → IsBalanced (acquire_driver_at means id o r).1
  acquire_driver_at-IsBalanced means id none r found v = v
  acquire_driver_at-IsBalanced means id (some e) r found v = elim (Bool-cases e.terminal) [
    | inl over ↦ simp over v
    | inr open_still ↦ simp open_still (
        lease_after-IsBalanced means (start_locked (has_thread means) r) number_driver
          (register_driver id e) _ (start_locked-IsBalanced (has_thread means) r v)
          (number_driver-IsBalanced (start_locked (has_thread means) r).1
            (start_locked-IsBalanced (has_thread means) r v))
          (register_driver-IsBalanced id e (start_locked (has_thread means) r).1
            (ap (lookup id) (start_locked-same (has_thread means) r).0 ∙ found)
            (start_locked-IsBalanced (has_thread means) r v)))
  ]

  pub acquire_driver-IsBalanced :
      (means : Means) (id : ℕ) (r : Runtime A)
      → IsBalanced r
      → IsBalanced (acquire_driver means id r).1
  unfolding acquire_driver
  acquire_driver-IsBalanced means id r v =
      acquire_driver_at-IsBalanced means id (lookup id r.entries) r refl v

  acquire_watch_at-IsBalanced :
      (means : Means) (id : ℕ) (o : Option Entry) (r : Runtime A)
      → lookup id r.entries ≡ o
      → IsBalanced r
      → IsBalanced (acquire_watch_at means id o r).1
  acquire_watch_at-IsBalanced means id none r found v = v
  acquire_watch_at-IsBalanced means id (some e) r found v =
      elim (Bool-cases (e.terminal || e.orphan)) [
        | inl over ↦ simp over v
        | inr live ↦ elim (Bool-cases (not (is_running r.state) && (r.worker || r.joining))) [
          | inl unjoined ↦ simp (live, unjoined) v
          | inr ready ↦
              simp (live, ready)
                (lease_after-IsBalanced means (start_locked (has_thread means) r) number_watch
                  (register_watch id e) _ (start_locked-IsBalanced (has_thread means) r v)
                  (number_watch-IsBalanced (start_locked (has_thread means) r).1
                    (start_locked-IsBalanced (has_thread means) r v))
                  (register_watch-IsBalanced id e (start_locked (has_thread means) r).1
                    (ap (lookup id) (start_locked-same (has_thread means) r).0 ∙ found)
                    (start_locked-IsBalanced (has_thread means) r v)))
        ]
      ]

  pub acquire_watch-IsBalanced :
      (means : Means) (id : ℕ) (r : Runtime A)
      → IsBalanced r
      → IsBalanced (acquire_watch means id r).1
  unfolding acquire_watch
  acquire_watch-IsBalanced means id r v =
      elim (Bool-cases (is_failure r.failure || is_stopping r.state || is_broken r.state)) [
        | inl down ↦ simp down v
        | inr up ↦ simp up (acquire_watch_at-IsBalanced means id (lookup id r.entries) r refl v)
      ]

  release_driver_at-IsBalanced :
      (token : ℕ) (o : Option ℕ) (r : Runtime A)
      → lookup token r.driver_tokens ≡ o
      → IsBalanced r
      → IsBalanced (release_driver_at token o r)
  release_driver_at-IsBalanced token none r held v = v
  release_driver_at-IsBalanced token (some id) r held v = lowered (lookup id r.entries) refl
    where
      lowered :
          (o : Option Entry)
          → lookup id r.entries ≡ o
          → let r' = lower_drivers id o r in
            IsBalanced (touch (record r' { driver_tokens = erase token r'.driver_tokens }))
      lowered none missing = absurd (
          Matches-registered (λ e. e.active_drivers) r.entries r.driver_tokens v.drivers id token 1
            (suc r.next_demand_token) v.driver_order held missing)
      lowered (some e) found =
          unfold touch set_entry in
          record {
            drivers =
                Matches-release (λ e. e.active_drivers) r.entries r.driver_tokens v.drivers id token
                  1 (suc r.next_demand_token) e _ v.driver_order held found
                  (less_one_down e.active_drivers);
            watches =
                Matches-update (λ e. e.watch_demands) r.entries r.watch_tokens v.watches id
                  (record e { active_drivers = less_one e.active_drivers }) (ground (arith, found));
            driver_order =
                erase-Ascending token 1 (suc r.next_demand_token) r.driver_tokens v.driver_order;
            watch_order = v.watch_order;
          }

  pub release_driver-IsBalanced :
      (token : ℕ) (r : Runtime A) → IsBalanced r → IsBalanced (release_driver token r)
  unfolding release_driver
  release_driver-IsBalanced token r v =
      release_driver_at-IsBalanced token (lookup token r.driver_tokens) r refl v

  release_watch_at-IsBalanced :
      (token : ℕ) (o : Option ℕ) (r : Runtime A)
      → lookup token r.watch_tokens ≡ o
      → IsBalanced r
      → IsBalanced (release_watch_at token o r)
  release_watch_at-IsBalanced token none r held v = v
  release_watch_at-IsBalanced token (some id) r held v = lowered (lookup id r.entries) refl
    where
      lowered :
          (o : Option Entry)
          → lookup id r.entries ≡ o
          → let r' = lower_watches id o r in
            IsBalanced (touch (record r' { watch_tokens = erase token r'.watch_tokens }))
      lowered none missing = absurd (
          Matches-registered (λ e. e.watch_demands) r.entries r.watch_tokens v.watches id token 1
            (suc r.next_watch_token) v.watch_order held missing)
      lowered (some e) found =
          unfold touch set_entry in
          record {
            drivers =
                Matches-update (λ e. e.active_drivers) r.entries r.driver_tokens v.drivers id
                  (record e { watch_demands = less_one e.watch_demands }) (ground (arith, found));
            watches =
                Matches-release (λ e. e.watch_demands) r.entries r.watch_tokens v.watches id token 1
                  (suc r.next_watch_token) e _ v.watch_order held found
                  (less_one_down e.watch_demands);
            driver_order = v.driver_order;
            watch_order =
                erase-Ascending token 1 (suc r.next_watch_token) r.watch_tokens v.watch_order;
          }

  pub release_watch-IsBalanced :
      (token : ℕ) (r : Runtime A) → IsBalanced r → IsBalanced (release_watch token r)
  unfolding release_watch
  release_watch-IsBalanced token r v =
      release_watch_at-IsBalanced token (lookup token r.watch_tokens) r refl v
