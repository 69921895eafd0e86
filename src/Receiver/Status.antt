-- ===== src/Receiver/Status.antt =====
-- `stats`: the counters of the runtime with what it adds up over the clients and their mailboxes.
use tdlua.Prelude.{
  ℕ, ◌+◌, ◌≡◌, ◌≤◌, refl, Bool, ◌&&◌, ◌||◌, not, [], ◌∷◌, Map, bit, sum_by, ltb, ◌==◌, length,
  arith, if◌then◌else◌,
}
use tdlua.Identity.{block_count}
use tdlua.Ticket.{Metrics, pending_of}
use tdlua.Mailbox.{MailboxStats}
use tdlua.Receiver.State.{State, Entry, Counters, Runtime, box_of}
use tdlua.Receiver.Demand.{request_sum, entry_demand, demand_count, one_shot_count, is_running}

-- RuntimeStats. Its counters of the mailboxes add to those of the class.
pub record RuntimeStats : Type 0 where
  pub state : State
  pub counters : Counters
  pub owners : ℕ
  pub clients : ℕ
  pub tombstones : ℕ
  pub depth : ℕ
  pub identities : ℕ
  pub identity_blocks : ℕ
  pub watch_leases : ℕ
  pub joinable : Bool
  pub active_demands : ℕ
  pub pending_one_shots : ℕ
  pub idle : Bool
  pub driver_demands : ℕ
  pub consumer_interests : ℕ
  pub handler_only_consumers : ℕ
  pub lifecycle_demands : ℕ
  pub watch_demands : ℕ
  pub subscription_interests : ℕ
  pub one_shot_demands : ℕ
  pub request_demands : ℕ
  pub generic_pending : ℕ
  pub generic_drops : Metrics
  pub subscription_drops : Metrics

-- The loops over `entries_`.
abbrev pub over_entries : (Entry → ℕ) → Map Entry → ℕ
over_entries f m = sum_by (λ p. f p.1) m

module _ {A : Type 0} where
  abbrev pub over_boxes : (MailboxStats → ℕ) → Runtime A → ℕ
  over_boxes f r = sum_by (λ p. f (box_of p.0 r).stats) r.entries

  -- The highest mark of the mailboxes, from a first one.
  unfoldable pub highest : ℕ → Map Entry → Runtime A → ℕ
  highest n [] r = n
  highest n ((id, e) ∷ rest) r =
      let mark = (box_of id r).stats.high_water in highest (if ltb n mark then mark else n) rest r

  abbrev pub counters_with_boxes : Runtime A → Counters
  counters_with_boxes r = record r.stats {
    abandoned = r.stats.abandoned + over_boxes (λ s. s.abandoned) r;
    enqueued = r.stats.enqueued + over_boxes (λ s. s.enqueued) r;
    dequeued = r.stats.dequeued + over_boxes (λ s. s.dequeued) r;
    high_water = highest r.stats.high_water r.entries r;
  }

  unfoldable pub stats : Runtime A → RuntimeStats
  unfolding demand_count one_shot_count box_of pending_of highest block_count
  stats r = record {
    state = r.state;
    counters = counters_with_boxes r;
    owners = length r.owners;
    clients = length r.entries;
    tombstones = over_entries (λ e. bit (e.orphan && not e.terminal)) r.entries;
    depth = over_boxes (λ s. s.depth) r;
    identities = r.known_ids.identities;
    identity_blocks = block_count r.known_ids;
    watch_leases = length r.watch_tokens;
    joinable = r.joining || r.worker;
    active_demands = demand_count r;
    pending_one_shots = one_shot_count r;
    idle = is_running r.state && (demand_count r == 0) && not r.receiving;
    driver_demands = over_entries (λ e. e.active_drivers) r.entries;
    consumer_interests = over_entries (λ e. e.consumer_interests) r.entries;
    handler_only_consumers = over_entries (λ e. e.handler_only_consumers) r.entries;
    lifecycle_demands = over_entries (λ e. e.lifecycle_demands) r.entries;
    watch_demands = over_entries (λ e. e.watch_demands) r.entries;
    subscription_interests =
        over_entries (λ e. e.subscription_generic + e.subscription_handlers) r.entries;
    one_shot_demands =
        over_entries (λ e. bit e.one_shot_pending + bit e.one_shot_in_flight) r.entries;
    request_demands = over_entries (λ e. request_sum e.pending_requests) r.entries;
    generic_pending = sum_by (λ p. pending_of r.buffers p.0) r.entries;
    generic_drops = r.buffers.generic_metrics;
    subscription_drops = r.buffers.subscription_metrics;
  }

  unfoldable pub set_readiness_sink : Bool → Runtime A → Runtime A
  set_readiness_sink sink r = record r { sink = sink }

kinds_of_demand :
    (m : Map Entry)
    → sum_by (λ p. entry_demand p.1) m
      ≡ over_entries (λ e. e.active_drivers) m
        + over_entries (λ e. e.lifecycle_demands) m
        + over_entries (λ e. e.watch_demands) m
        + over_entries (λ e. bit e.one_shot_pending + bit e.one_shot_in_flight) m
        + over_entries (λ e. request_sum e.pending_requests) m
kinds_of_demand [] = refl
kinds_of_demand ((id, e) ∷ m) = omega (arith, kinds_of_demand m)

pending_le :
    (m : Map Entry)
    → sum_by (λ p. bit p.1.one_shot_pending) m
      ≤ over_entries (λ e. bit e.one_shot_pending + bit e.one_shot_in_flight) m
pending_le [] = omega arith
pending_le ((id, e) ∷ m) = omega (arith, pending_le m)

-- In any snapshot the active demands are the sum of the driver, lifecycle, watch, one-shot and
-- request demands that it reports, and the pending one-shots are no more than the one-shot
-- demands.
pub stats-demands :
    {A : Type 0} (r : Runtime A)
    → ((stats r).active_demands
        ≡ (stats r).driver_demands
          + (stats r).lifecycle_demands
          + (stats r).watch_demands
          + (stats r).one_shot_demands
          + (stats r).request_demands)
      × ((stats r).pending_one_shots ≤ (stats r).one_shot_demands)
unfolding stats demand_count one_shot_count
stats-demands r = (kinds_of_demand r.entries, pending_le r.entries)
