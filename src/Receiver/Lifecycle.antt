-- ===== src/Receiver/Lifecycle.antt =====
-- Owners, clients, failure and the worker thread's start and end.
use tdlua.Prelude.{
  ℕ, suc, ◌+◌, Bool, true, false, ◌&&◌, ◌||◌, not, Option, none, some, List, [], ◌∷◌, Map, lookup,
  insert, erase, map_values, ◌==◌, ltb, if◌then◌else◌,
}
use tdlua.Prelude.Int.{pos}
use tdlua.Identity.{History, insert_id, contains}
use tdlua.Mailbox.{Mailbox, MailboxStats, Failure, no_failure, ResponseClass, lifecycle, is_failure}
use tdlua.Mailbox
use tdlua.Receiver.State.{
  State, stopped, stopping, broken, receiver_failed, owner_unavailable, client_id_reused,
  invalid_id, self_join_forbidden, join_failed, Outcome, ok, thrown, Entry, new_entry, Counters,
  Runtime, Do, touch, erase_entry, box_of, set_box, set_store, SinkCall, ring_owner, unbind_client,
  unbind_owner, broadcast, told, and_then,
}
use tdlua.Receiver.Demand.{
  is_empty, is_running, is_stopping, is_broken, quiet_interests, clear_driver_demand, clear_demand,
}

-- What the other threads, the worker's last round among them, do while a coordinator has released
-- the lock: before another's join is over, and during its own; and whether `join` itself throws.
pub record Environment (A : Type 0) : Type 0 where
  pub waited : Runtime A → Runtime A
  pub joined : Runtime A → Runtime A
  pub join_throws : Bool

-- The protected requests that remain when an owner leaves: accepted close and destroy requests.
abbrev pub is_lifecycle : ResponseClass → Bool
is_lifecycle ResponseClass.lifecycle = true
is_lifecycle ResponseClass.generic_raw = false
is_lifecycle ResponseClass.managed_protected = false

unfoldable pub only_lifecycle : Map ResponseClass → Map ResponseClass
only_lifecycle [] = []
only_lifecycle ((k, c) ∷ rest) =
    let kept = only_lifecycle rest in if is_lifecycle c then (k, c) ∷ kept else kept

abbrev pub is_present {ℓ} : {B : Type ℓ} → Option B → Bool
is_present none = false
is_present (some b) = true

-- An entry whose owner is leaving while another owner can finish its shutdown.
unfoldable pub leave_lifecycle : Entry → Entry
unfolding only_lifecycle
leave_lifecycle e = record e {
  consumer_interests = 0;
  handler_only_consumers = 0;
  handler_types = [];
  subscription_generic = 0;
  subscription_handlers = 0;
  pending_requests = [];
  protected_requests = only_lifecycle e.protected_requests;
}

abbrev pub no_watch : Entry → Entry
no_watch e = record e { watch_demands = 0 }

abbrev pub no_subscription : Entry → Entry
no_subscription e = record e {
  watch_demands = 0;
  subscription_generic = 0;
  subscription_handlers = 0;
}

abbrev pub add_stats : MailboxStats → Counters → Counters
add_stats m c = record c {
  abandoned = c.abandoned + m.abandoned;
  enqueued = c.enqueued + m.enqueued;
  dequeued = c.dequeued + m.dequeued;
  high_water = if ltb c.high_water m.high_water then m.high_water else c.high_water;
}

abbrev pub joined_state : State → State
joined_state s = if is_broken s then broken else stopped

abbrev pub terminal_at : Option Entry → Bool
terminal_at none = true
terminal_at (some e) = e.terminal

abbrev pub known_at : Option Entry → Bool
known_at none = false
known_at (some e) = not e.orphan

module _ {A : Type 0} where
  unfoldable pub abandon_box : ℕ → Runtime A → Runtime A
  unfolding set_store box_of
  abandon_box id r = set_store id (Mailbox.abandon r.buffers (box_of id r)) r

  unfoldable pub end_box : ℕ → Runtime A → Runtime A
  unfolding set_box box_of
  end_box id r = set_box id (Mailbox.end_stream (box_of id r)) r

  unfoldable pub accumulate_retired : ℕ → Runtime A → Runtime A
  unfolding box_of
  accumulate_retired id r = record r { stats = add_stats (Mailbox.stats (box_of id r)) r.stats }

  unfoldable pub retire_entry : ℕ → Runtime A → Runtime A
  unfolding accumulate_retired erase_entry
  retire_entry id r = erase_entry id (accumulate_retired id r)

  unfoldable pub request_stop : Runtime A → Runtime A
  request_stop r = record r {
    stop = true;
    state = if is_running r.state then stopping else r.state;
    watch_tokens = [];
    entries = map_values no_watch r.entries;
  }

  abbrev pub wait_for_join : Environment A → Runtime A → Runtime A
  wait_for_join env r = if r.joining then record (env.waited r) { joining = false } else r

  abbrev pub join_worker : Environment A → Runtime A → Outcome (Unit {0}) × Runtime A
  join_worker env r =
      let r' = env.joined (record r { joining = true }) in
      if env.join_throws
      then (thrown join_failed, record r' { joining = false })
      else (ok tt, record r' { worker = false; joining = false; state = joined_state r'.state })

  abbrev pub reap_joined : Environment A → Runtime A → Outcome (Unit {0}) × Runtime A
  reap_joined env r =
      if not (is_stopping r.state || is_broken r.state) || not r.worker
      then (ok tt, r)
      else join_worker env r

  -- `reapLocked`; `self` says that the calling thread is this runtime's worker.
  unfoldable pub reap : Bool → Environment A → Do A (Unit {0})
  reap self env r =
      if self then (thrown self_join_forbidden, r) else reap_joined env (wait_for_join env r)

  abbrev pub check_failure : Do A (Unit {0})
  check_failure r =
      if is_failure r.failure then (thrown (receiver_failed r.failure), r) else (ok tt, r)

  -- `checkHealthy`
  unfoldable pub check_healthy : Do A (Unit {0})
  check_healthy r = check_failure r

  abbrev pub add_owner : Do A ℕ
  add_owner r = (
    ok (suc r.next_owner),
    record r { next_owner = suc r.next_owner; owners = insert (suc r.next_owner) tt r.owners },
  )

  unfoldable pub attach_owner : Bool → Environment A → Do A ℕ
  unfolding reap
  attach_owner self env r =
      and_then (check_failure r)
        λ _ r₁. and_then (reap self env r₁) λ _ r₂. and_then (check_failure r₂) λ _ r₃. add_owner r₃

  abbrev pub cleanup_terminal_at : ℕ → Option Entry → Runtime A → Runtime A
  cleanup_terminal_at id none r = r
  cleanup_terminal_at id (some e) r =
      let r' = end_box id (clear_demand id (record e { terminal = true }) r) in
      if e.orphan then retire_entry id r' else r'

  unfoldable pub cleanup_terminal : ℕ → Runtime A → Runtime A
  unfolding clear_demand end_box retire_entry
  cleanup_terminal id r = cleanup_terminal_at id (lookup id r.entries) r

  -- The loop of `detachOwner`, one registry entry after the other.
  abbrev pub orphan_entry : Bool → ℕ → Entry → Runtime A → Runtime A
  orphan_entry another id e r =
      let left = record e { orphan = true } in
      abandon_box id (
        if another
        then touch (clear_driver_demand id (leave_lifecycle left) r)
        else clear_demand id left r)

  unfoldable pub detach_entry : ℕ → Bool → ℕ → Entry → Runtime A → Runtime A
  unfolding abandon_box clear_driver_demand clear_demand retire_entry leave_lifecycle touch
  detach_entry owner another id e r =
      let r' = if e.owner == owner && not e.orphan then orphan_entry another id e r else r in
      if e.owner == owner && e.terminal then retire_entry id r' else r'

  unfoldable pub detach_entries : ℕ → Bool → Map Entry → Runtime A → Runtime A
  unfolding detach_entry
  detach_entries owner another [] r = r
  detach_entries owner another ((id, e) ∷ rest) r =
      detach_entries owner another rest (detach_entry owner another id e r)

  abbrev pub leave : ℕ → Runtime A → Runtime A
  leave owner r =
      let r₁ = record r { owners = erase owner r.owners } in
      let r₂ =
        detach_entries owner (not (is_empty r₁.owners) && not (is_broken r₁.state)) r₁.entries r₁ in
      if is_empty r₂.owners then request_stop r₂ else r₂

  -- The sink is rung and unbound after the lock is released.
  unfoldable pub detach_owner :
      Bool → Environment A → ℕ → Runtime A → Outcome (List SinkCall) × Runtime A
  unfolding detach_entries request_stop reap
  detach_owner self env owner r =
      and_then (reap self env (leave owner r))
        λ _ r'. (ok (told r.sink (ring_owner owner ∷ unbind_owner owner ∷ [])), r')

  abbrev pub publish_client : ℕ → ℕ → Option History → Do A ℕ
  publish_client owner id none r = (thrown invalid_id, r)
  publish_client owner id (some h) r = (
    ok id,
    record r {
      known_ids = h;
      entries = insert id (new_entry owner) r.entries;
      boxes = insert id Mailbox.empty r.boxes;
      buffers = record r.buffers { pending = insert id 0 r.buffers.pending };
    },
  )

  abbrev pub add_client : ℕ → (Runtime A → Outcome ℕ) → Do A ℕ
  add_client owner create_id r =
      if not (is_present (lookup owner r.owners))
      then (thrown owner_unavailable, r)
      else and_then (check_failure r) λ _ r'.
        and_then (create_id r', r')
          λ id r''.
            if contains r''.known_ids (pos id)
            then (thrown client_id_reused, r'')
            else publish_client owner id (insert_id r''.known_ids (pos id)) r''

  -- `create_id` is the backend's allocator; it may throw.
  unfoldable pub create_client : Bool → Environment A → ℕ → (Runtime A → Outcome ℕ) → Do A ℕ
  unfolding reap
  create_client self env owner create_id r =
      and_then (check_failure r)
        λ _ r₁. and_then (reap self env r₁) λ _ r₂. add_client owner create_id r₂

  abbrev pub count_timeout : Bool → Entry → Runtime A → Runtime A
  count_timeout timed_out e r =
      if timed_out && not e.terminal
      then record r { stats = record r.stats { close_timeouts = suc r.stats.close_timeouts } }
      else r

  abbrev pub forget_at : ℕ → Bool → Option Entry → Runtime A → Runtime A
  forget_at id timed_out none r = r
  forget_at id timed_out (some e) r =
      if e.orphan
      then r
      else let left = record e { orphan = true } in
        let r₁ =
          if e.terminal
          then clear_demand id left r
          else clear_driver_demand id (quiet_interests left) r in
        let r₂ = count_timeout timed_out e (abandon_box id r₁) in
        if e.terminal then retire_entry id r₂ else r₂

  unfoldable pub forget :
      Bool → Environment A → ℕ → Bool → Runtime A → Outcome (List SinkCall) × Runtime A
  unfolding reap clear_demand clear_driver_demand abandon_box retire_entry quiet_interests
  forget self env id timed_out r =
      let r' = forget_at id timed_out (lookup id r.entries) r in
      and_then
        (if not (is_broken r'.state) || is_empty r'.owners then reap self env r' else (ok tt, r'))
        λ _ r''. (ok (told r.sink (unbind_client id ∷ [])), r'')

  unfoldable pub client_terminal : ℕ → Runtime A → Bool
  client_terminal id r = terminal_at (lookup id r.entries)

  unfoldable pub client_known : ℕ → Runtime A → Bool
  client_known id r = known_at (lookup id r.entries)

  unfoldable pub stop_and_join :
      Bool → Environment A → Runtime A → Outcome (List SinkCall) × Runtime A
  unfolding request_stop reap
  stop_and_join self env r =
      and_then (reap self env (request_stop r)) λ _ r'. (ok (told r.sink (broadcast ∷ [])), r')

  -- `fail`, on the worker: the first failure stays.
  abbrev pub count_failure : Failure → Runtime A → Runtime A
  count_failure f r =
      if is_failure r.failure
      then r
      else record r { failure = f; stats = record r.stats { failures = suc r.stats.failures } }

  -- The mailboxes of the registered clients alone are told.
  unfoldable pub fail_boxes : Failure → Map Entry → Runtime A → Runtime A
  unfolding set_box box_of
  fail_boxes f [] r = r
  fail_boxes f ((id, e) ∷ rest) r = fail_boxes f rest (set_box id (Mailbox.fail f (box_of id r)) r)

  abbrev pub break_down : Runtime A → Runtime A
  break_down r = record r {
    state = broken;
    stop = true;
    receiving = false;
    watch_tokens = [];
    entries = map_values no_subscription r.entries;
  }

  unfoldable pub fail : Failure → Runtime A → List SinkCall × Runtime A
  unfolding fail_boxes
  fail f r =
      let r' = count_failure f r in
      (told r.sink (broadcast ∷ []), fail_boxes r'.failure r'.entries (break_down r'))
