-- ===== src/Receiver/Demand.antt =====
-- Receiver demand and retention interest: leases, one-shots, consumers, subscriptions, handlers.
use tdlua.Prelude.{
  ℕ, zero, suc, ◌+◌, Bool, true, false, ◌&&◌, ◌||◌, not, Option, none, some, List, [], ◌∷◌, Map,
  lookup, insert, erase, ◌==◌, nonzero, bit, sum_by, decrement, if◌then◌else◌,
}
use tdlua.Receiver.State.{
  State, stopped, running, stopping, broken, receiver_failed, generation_not_joined, thread_failed,
  ok, thrown, Entry, Runtime, Do, touch, set_entry,
}

-- `if (count) --count`
abbrev pub less_one : ℕ → ℕ
less_one zero = zero
less_one (suc n) = n

abbrev pub is_running : State → Bool
is_running running = true
is_running stopped = false
is_running stopping = false
is_running broken = false

abbrev pub is_broken : State → Bool
is_broken broken = true
is_broken stopped = false
is_broken running = false
is_broken stopping = false

abbrev pub is_stopping : State → Bool
is_stopping stopping = true
is_stopping stopped = false
is_stopping running = false
is_stopping broken = false

abbrev pub is_empty {ℓ} : {B : Type ℓ} → List B → Bool
is_empty [] = true
is_empty (x ∷ xs) = false

-- The tokens whose client is another one.
unfoldable pub without_client : ℕ → Map ℕ → Map ℕ
without_client id [] = []
without_client id ((token, client) ∷ rest) =
    let kept = without_client id rest in if client == id then kept else (token, client) ∷ kept

abbrev pub request_sum : Map ℕ → ℕ
request_sum = sum_by (λ p. p.1)

-- The demands of one entry, as `demandCountLocked` adds them up.
abbrev pub entry_demand : Entry → ℕ
entry_demand e =
    e.active_drivers
    + e.lifecycle_demands
    + e.watch_demands
    + bit e.one_shot_pending
    + bit e.one_shot_in_flight
    + request_sum e.pending_requests

abbrev pub is_continuous : Entry → Bool
is_continuous e =
    nonzero e.active_drivers
    || nonzero e.lifecycle_demands
    || nonzero e.watch_demands
    || not (is_empty e.pending_requests)

abbrev pub wants_more_than_watch : Entry → Bool
wants_more_than_watch e =
    nonzero e.active_drivers
    || nonzero e.lifecycle_demands
    || e.one_shot_pending
    || e.one_shot_in_flight
    || not (is_empty e.pending_requests)

unfoldable pub any_entry : (Entry → Bool) → Map Entry → Bool
any_entry p [] = false
any_entry p ((id, e) ∷ rest) = p e || any_entry p rest

-- `clearDriverDemandLocked` and `clearDemandLocked`, on the entry.
unfoldable pub quiet_drivers : Entry → Entry
quiet_drivers e = record e {
  active_drivers = 0;
  one_shot_pending = false;
  one_shot_in_flight = false;
  watch_demands = 0;
}

unfoldable pub quiet_interests : Entry → Entry
quiet_interests e = record e {
  consumer_interests = 0;
  handler_only_consumers = 0;
  handler_types = [];
  subscription_generic = 0;
  subscription_handlers = 0;
}

unfoldable pub quiet_entry : Entry → Entry
unfolding quiet_drivers quiet_interests
quiet_entry e = record (quiet_interests (quiet_drivers e)) {
  lifecycle_demands = 0;
  pending_requests = [];
  protected_requests = [];
}

-- `erasePendingRequestLocked`: the count of a request falls, and a request at 0 goes.
abbrev pub lower : ℕ → Option ℕ → Map ℕ → Map ℕ
lower id none m = m
lower id (some n) m = if decrement n == 0 then erase id m else insert id (decrement n) m

unfoldable pub erase_pending_request : ℕ → Entry → Entry
erase_pending_request request_id e = record e {
  pending_requests = lower request_id (lookup request_id e.pending_requests) e.pending_requests;
}

module _ {A : Type 0} where
  unfoldable pub demand_count : Runtime A → ℕ
  demand_count r = sum_by (λ p. entry_demand p.1) r.entries

  unfoldable pub one_shot_count : Runtime A → ℕ
  one_shot_count r = sum_by (λ p. bit p.1.one_shot_pending) r.entries

  unfoldable pub has_continuous_demand : Runtime A → Bool
  unfolding any_entry
  has_continuous_demand r = any_entry is_continuous r.entries

  unfoldable pub only_watch_demand : Runtime A → Bool
  unfolding any_entry
  only_watch_demand r =
      not (any_entry wants_more_than_watch r.entries)
      && any_entry (λ e. nonzero e.watch_demands) r.entries

  unfoldable pub drop_tokens : ℕ → Runtime A → Runtime A
  unfolding touch without_client
  drop_tokens id r = touch (record r {
    driver_tokens = without_client id r.driver_tokens;
    watch_tokens = without_client id r.watch_tokens;
  })

  unfoldable pub clear_driver_demand : ℕ → Entry → Runtime A → Runtime A
  unfolding drop_tokens set_entry quiet_drivers
  clear_driver_demand id e r = drop_tokens id (set_entry id (quiet_drivers e) r)

  unfoldable pub clear_demand : ℕ → Entry → Runtime A → Runtime A
  unfolding drop_tokens set_entry quiet_entry touch
  clear_demand id e r = touch (drop_tokens id (set_entry id (quiet_entry e) r))

  -- `threads` says whether the system creates a thread. Where it does not, the constructor of
  -- `std::thread` throws, after `stop_` has been cleared.
  unfoldable pub start_locked : Bool → Do A (Unit {0})
  start_locked threads r =
      if is_broken r.state
      then (thrown (receiver_failed r.failure), r)
      else if is_running r.state || is_empty r.entries
      then (ok tt, r)
      else if r.worker || r.joining
      then (thrown generation_not_joined, r)
      else if threads
      then (ok tt, started)
      else (thrown thread_failed, record r { stop = false })
    where
      started : Runtime A
      started = record r {
        stop = false;
        worker = true;
        state = running;
        stats = record r.stats { generations = suc r.stats.generations };
      }
