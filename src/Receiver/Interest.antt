-- ===== src/Receiver/Interest.antt =====
-- Leases on the receiver, and the interests that decide retention.
use Prim.Native.String.{String}
use text.Mathlib.Text.{◌==◌ as str_eq}
use tdlua.Prelude.{
  ℕ, suc, ◌-◌, Bool, true, false, ◌&&◌, ◌||◌, not, Option, none, some, List, [], ◌∷◌, lookup,
  insert, erase, nonzero, ltb, if◌then◌else◌,
}
use tdlua.Mailbox.{is_failure}
use tdlua.Receiver.State.{Outcome, ok, thrown, out_of_heap, Entry, Runtime, Do, touch, set_entry}
use tdlua.Receiver.Demand.{less_one, is_running, is_stopping, is_broken, start_locked}

-- The registration counts of handler types.
unfoldable pub handler_count : String → List (String × ℕ) → Option ℕ
handler_count t [] = none
handler_count t ((u, n) ∷ rest) = if str_eq u t then some n else handler_count t rest

-- `++handler_types[type]`
unfoldable pub add_handler : String → List (String × ℕ) → List (String × ℕ)
add_handler t [] = (t, 1) ∷ []
add_handler t ((u, n) ∷ rest) =
    if str_eq u t then (u, suc n) ∷ rest else (u, n) ∷ add_handler t rest

-- The last registration of a type removes it.
unfoldable pub remove_handler : String → List (String × ℕ) → List (String × ℕ)
remove_handler t [] = []
remove_handler t ((u, n) ∷ rest) =
    if str_eq u t
    then (if ltb 1 n then (u, n - 1) ∷ rest else rest)
    else (u, n) ∷ remove_handler t rest

-- `if (active) ++count; else if (count) --count;`
abbrev pub adjust : Bool → ℕ → ℕ
adjust true n = suc n
adjust false n = less_one n

abbrev pub consumer_change : Bool → Bool → Entry → Entry
consumer_change active true e = record e { consumer_interests = adjust active e.consumer_interests }
consumer_change active false e = record e {
  handler_only_consumers = adjust active e.handler_only_consumers;
}

abbrev pub subscription_change : Bool → Bool → Entry → Entry
subscription_change active true e = record e {
  subscription_generic = adjust active e.subscription_generic;
}
subscription_change active false e = record e {
  subscription_handlers = adjust active e.subscription_handlers;
}

abbrev pub handler_change : String → Bool → Entry → Entry
handler_change t true e = record e { handler_types = add_handler t e.handler_types }
handler_change t false e = record e { handler_types = remove_handler t e.handler_types }

abbrev pub selects_by_type : Option Entry → Bool
selects_by_type none = false
selects_by_type (some e) = nonzero e.handler_only_consumers || nonzero e.subscription_handlers

-- What a call finds that needs a thread and a node of a map: both; no thread; or no memory for the
-- node.
pub data Means : Type 0 where
  enough no_thread no_room : Means

abbrev pub has_thread : Means → Bool
has_thread enough = true
has_thread no_thread = false
has_thread no_room = true

module _ {A : Type 0} where
  abbrev pub number_driver : Runtime A → Runtime A
  number_driver r = record r { next_demand_token = suc r.next_demand_token }

  abbrev pub register_driver : ℕ → Entry → Runtime A → Runtime A
  register_driver id e r = touch (
      set_entry id (record e { active_drivers = suc e.active_drivers })
        (record r {
          next_demand_token = suc r.next_demand_token;
          driver_tokens = insert (suc r.next_demand_token) id r.driver_tokens;
        }))

  -- After `startLocked`: the number of the token is taken, then its node is made, then the demand is
  -- counted. A lease is its token; `none` is the empty lease.
  abbrev pub lease_after :
      Means
      → Outcome (Unit {0}) × Runtime A
      → (Runtime A → Runtime A)
      → (Runtime A → Runtime A)
      → (Runtime A → ℕ)
      → Outcome (Option ℕ) × Runtime A
  lease_after means (thrown f, r) number register token = (thrown f, r)
  lease_after no_room (ok u, r) number register token = (thrown out_of_heap, number r)
  lease_after enough (ok u, r) number register token =
      let r' = register r in (ok (some (token r')), r')
  lease_after no_thread (ok u, r) number register token =
      let r' = register r in (ok (some (token r')), r')

  abbrev pub acquire_driver_at :
      Means → ℕ → Option Entry → Runtime A → Outcome (Option ℕ) × Runtime A
  acquire_driver_at means id none r = (ok none, r)
  acquire_driver_at means id (some e) r =
      if e.terminal
      then (ok none, r)
      else lease_after means (start_locked (has_thread means) r) number_driver
          (register_driver id e) (λ r'. r'.next_demand_token)

  unfoldable pub acquire_driver : Means → ℕ → Do A (Option ℕ)
  unfolding start_locked touch set_entry
  acquire_driver means id r = acquire_driver_at means id (lookup id r.entries) r

  abbrev pub number_watch : Runtime A → Runtime A
  number_watch r = record r { next_watch_token = suc r.next_watch_token }

  abbrev pub register_watch : ℕ → Entry → Runtime A → Runtime A
  register_watch id e r = touch (
      set_entry id (record e { watch_demands = suc e.watch_demands })
        (record r {
          next_watch_token = suc r.next_watch_token;
          watch_tokens = insert (suc r.next_watch_token) id r.watch_tokens;
        }))

  abbrev pub acquire_watch_at :
      Means → ℕ → Option Entry → Runtime A → Outcome (Option ℕ) × Runtime A
  acquire_watch_at means id none r = (ok none, r)
  acquire_watch_at means id (some e) r =
      if e.terminal || e.orphan
      then (ok none, r)
      else if not (is_running r.state) && (r.worker || r.joining)
      then (ok none, r)
      else lease_after means (start_locked (has_thread means) r) number_watch (register_watch id e)
          (λ r'. r'.next_watch_token)

  unfoldable pub acquire_watch : Means → ℕ → Do A (Option ℕ)
  unfolding start_locked touch set_entry
  acquire_watch means id r =
      if is_failure r.failure || is_stopping r.state || is_broken r.state
      then (ok none, r)
      else acquire_watch_at means id (lookup id r.entries) r

  abbrev pub lower_drivers : ℕ → Option Entry → Runtime A → Runtime A
  lower_drivers id none r = r
  lower_drivers id (some e) r =
      set_entry id (record e { active_drivers = less_one e.active_drivers }) r

  abbrev pub release_driver_at : ℕ → Option ℕ → Runtime A → Runtime A
  release_driver_at token none r = r
  release_driver_at token (some id) r =
      let r' = lower_drivers id (lookup id r.entries) r in
      touch (record r' { driver_tokens = erase token r'.driver_tokens })

  unfoldable pub release_driver : ℕ → Runtime A → Runtime A
  unfolding touch set_entry
  release_driver token r = release_driver_at token (lookup token r.driver_tokens) r

  abbrev pub lower_watches : ℕ → Option Entry → Runtime A → Runtime A
  lower_watches id none r = r
  lower_watches id (some e) r =
      set_entry id (record e { watch_demands = less_one e.watch_demands }) r

  abbrev pub release_watch_at : ℕ → Option ℕ → Runtime A → Runtime A
  release_watch_at token none r = r
  release_watch_at token (some id) r =
      let r' = lower_watches id (lookup id r.entries) r in
      touch (record r' { watch_tokens = erase token r'.watch_tokens })

  unfoldable pub release_watch : ℕ → Runtime A → Runtime A
  unfolding touch set_entry
  release_watch token r = release_watch_at token (lookup token r.watch_tokens) r

  abbrev pub set_consumer_at : ℕ → Bool → Bool → Option Entry → Runtime A → Bool × Runtime A
  set_consumer_at id active generic none r = (false, r)
  set_consumer_at id active generic (some e) r =
      if e.terminal
      then (false, r)
      else (true, touch (set_entry id (consumer_change active generic e) r))

  unfoldable pub set_consumer_interest : ℕ → Bool → Bool → Runtime A → Bool × Runtime A
  unfolding touch set_entry
  set_consumer_interest id active generic r =
      set_consumer_at id active generic (lookup id r.entries) r

  abbrev pub set_subscription_at : ℕ → Bool → Bool → Option Entry → Runtime A → Bool × Runtime A
  set_subscription_at id active generic none r = (false, r)
  set_subscription_at id active generic (some e) r =
      if e.terminal || e.orphan
      then (false, r)
      else (true, touch (set_entry id (subscription_change active generic e) r))

  unfoldable pub set_subscription_interest : ℕ → Bool → Bool → Runtime A → Bool × Runtime A
  unfolding touch set_entry
  set_subscription_interest id active generic r =
      set_subscription_at id active generic (lookup id r.entries) r

  abbrev pub set_handler_at : ℕ → String → Bool → Option Entry → Runtime A → Bool × Runtime A
  set_handler_at id t active none r = (false, r)
  set_handler_at id t active (some e) r =
      if e.terminal then (false, r) else (true, touch (set_entry id (handler_change t active e) r))

  unfoldable pub set_handler_registered : ℕ → String → Bool → Runtime A → Bool × Runtime A
  unfolding touch set_entry add_handler remove_handler
  set_handler_registered id t active r = set_handler_at id t active (lookup id r.entries) r

  unfoldable pub needs_handler_type : ℕ → Runtime A → Bool
  needs_handler_type id r = selects_by_type (lookup id r.entries)

  abbrev pub one_shot_after : ℕ → Entry → Outcome (Unit {0}) × Runtime A → Outcome Bool × Runtime A
  one_shot_after id e (thrown f, r) = (thrown f, r)
  one_shot_after id e (ok u, r) =
      (ok true, touch (set_entry id (record e { one_shot_pending = true }) r))

  abbrev pub request_one_shot_at : Means → ℕ → Option Entry → Runtime A → Outcome Bool × Runtime A
  request_one_shot_at means id none r = (ok false, r)
  request_one_shot_at means id (some e) r =
      if e.terminal then (ok false, r) else one_shot_after id e (start_locked (has_thread means) r)

  unfoldable pub request_one_shot : Means → ℕ → Do A Bool
  unfolding start_locked touch set_entry
  request_one_shot means id r = request_one_shot_at means id (lookup id r.entries) r

  abbrev pub settle_one_shot : ℕ → Option Entry → Runtime A → Runtime A
  settle_one_shot id none r = r
  settle_one_shot id (some e) r = set_entry id (record e { one_shot_in_flight = false }) r

  unfoldable pub complete_one_shot : ℕ → Runtime A → Runtime A
  unfolding touch set_entry
  complete_one_shot id r = touch (settle_one_shot id (lookup id r.entries) r)
