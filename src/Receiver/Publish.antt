-- ===== src/Receiver/Publish.antt =====
-- The routing of one envelope: its class, whether it is retained, and the commit to the mailbox.
pub mod Decision
pub mod Retention
pub mod Newest
pub mod Accounting
pub mod Rings
use tdlua.Prelude.{
  ℕ, zero, suc, ◌+◌, Bool, true, false, ◌&&◌, ◌||◌, not, Option, none, some, List, [], ◌∷◌, Map,
  lookup, insert, erase, ◌==◌, nonzero, is_some, if◌then◌else◌,
}
use tdlua.Prelude.Int.{pos}
use tdlua.Identity.{contains}
use tdlua.Ticket.{Channel, generic, subscription}
use tdlua.Mailbox.{Mailbox, Envelope, ResponseClass, generic_raw, managed_protected, lifecycle}
use tdlua.Mailbox
use tdlua.Receiver.State.{
  Fault, unknown_client, Outcome, ok, thrown, Entry, Counters, Runtime, Do, touch, set_entry,
  box_of, set_store, SinkCall, ring_client, told, and_then,
}
use tdlua.Receiver.Demand.{clear_demand, erase_pending_request}
use tdlua.Receiver.Lifecycle.{end_box, retire_entry}
use tdlua.Receiver.Generic.{Pruned, add_generic}
use Decision.{Verdict, filtered, dropped, kept, class_of, decide}

abbrev pub one_abandoned : Counters → Counters
one_abandoned c = record c { abandoned = suc c.abandoned }

abbrev pub one_received : Counters → Counters
one_received c = record c { received = suc c.received }

abbrev pub one_dropped : Counters → Counters
one_dropped c = record c { dropped_unsolicited = suc c.dropped_unsolicited }

abbrev pub one_filtered : Counters → Counters
one_filtered c = record c {
  dropped_unsolicited = suc c.dropped_unsolicited;
  dropped_by_handler_filter = suc c.dropped_by_handler_filter;
}

abbrev pub one_published : Counters → Counters
one_published c = record c { published = suc c.published }

-- `box->publish` of the finished envelope, and the requests that it answers.
abbrev pub answer : ℕ → Entry → Entry
answer request_id e =
    if nonzero request_id
    then (let e' = erase_pending_request request_id e in
        record e' { protected_requests = erase request_id e'.protected_requests })
    else e

abbrev pub is_kept : Verdict → Bool
is_kept filtered = false
is_kept dropped = false
is_kept (kept c) = true

module _ {A : Type 0} where
  abbrev pub count : (Counters → Counters) → Runtime A → Runtime A
  count f r = record r { stats = f r.stats }

  -- An id that is not registered: retired, or never this runtime's.
  abbrev pub miss : ℕ → Runtime A → Outcome Bool × Runtime A
  miss id r =
      if contains r.known_ids (pos id)
      then (ok false, count one_abandoned r)
      else (thrown unknown_client, r)

  -- The first critical section of `publish`: true if the envelope is to be routed.
  abbrev pub screen : ℕ → Option Entry → Runtime A → Outcome Bool × Runtime A
  screen id none r = miss id r
  screen id (some e) r = if e.terminal then (ok false, count one_abandoned r) else (ok true, r)

  unfoldable pub receive_item : Envelope A → Runtime A → Outcome Bool × Runtime A
  receive_item i r =
      let r' = count one_received (record r { sequence = suc r.sequence }) in
      screen i.client (lookup i.client r'.entries) r'

  abbrev pub count_class : Entry → Envelope A → Counters → Counters
  count_class e i c = elim (class_of e i.terminal i.request_id) [
    | lifecycle ↦ record c { lifecycle_objects = suc c.lifecycle_objects }
    | managed_protected ↦ record c { managed_protecteds = suc c.managed_protecteds }
    | generic_raw ↦
        if nonzero i.request_id
        then record c {
          generic_raws = suc c.generic_raws;
          unknown_correlated =
              if is_some (lookup i.request_id e.pending_requests)
              then c.unknown_correlated
              else suc c.unknown_correlated;
        }
        else c
  ]

  -- `if (item.acquired_at == time_point()) item.acquired_at = now();`
  abbrev pub acquired_at : ℕ → Envelope A → ℕ
  acquired_at now i = if i.acquired_at == 0 then now else i.acquired_at

  -- The envelope with its ticket, the entry with the ticket in its fifo, and the store.
  abbrev pub ticketed :
      ℕ → ℕ → Channel → Entry → Envelope A → Pruned A × ℕ → Envelope A × Entry × Pruned A
  ticketed now time c e i (p, address) = (
    record i { acquired_at = time; generic_ticket = some address },
    record e { generic_fifo = p.fifo },
    p,
  )

  abbrev pub finish : ℕ → Bool → Entry → Runtime A → Runtime A
  finish id terminal e r =
      if terminal
      then (let r' = end_box id (clear_demand id (record e { terminal = true }) r) in
          if e.orphan then retire_entry id r' else r')
      else set_entry id e r

  abbrev pub deliver_to : Envelope A → Entry → Runtime A → Runtime A
  deliver_to i e r =
      finish i.client i.terminal (answer i.request_id e) (
        count one_published
          (set_store i.client (Mailbox.publish r.buffers (box_of i.client r) i) r))

  abbrev pub deliver_ticketed : ℕ → Channel → Envelope A → Entry → Runtime A → Runtime A
  deliver_ticketed now c i e r =
      let time = acquired_at now i in
      let (i', e', p) = ticketed now time c e i (
        add_generic r.generic_capacity r.generic_ttl now time c i.client e.generic_fifo
          (r.buffers, box_of i.client r)) in
      deliver_to i' e' (set_store i.client p.store r)

  abbrev pub commit : ℕ → Verdict → Envelope A → Entry → Runtime A → Runtime A
  commit now filtered i e r = count one_filtered r
  commit now dropped i e r = count one_dropped r
  commit now (kept none) i e r = deliver_to i e r
  commit now (kept (some c)) i e r = deliver_ticketed now c i e r

  -- The second critical section on a registered client; `interested` says that the client had a
  -- generic consumer when the receive call began. True if the envelope was published.
  unfoldable pub route : ℕ → Bool → Envelope A → Entry → Runtime A → Bool × Runtime A
  unfolding add_generic set_store box_of end_box clear_demand retire_entry set_entry
  route now interested i e r =
      let verdict = decide e interested i.terminal i.request_id i.event_type in
      let sorted = record i { response_class = class_of e i.terminal i.request_id } in
      (is_kept verdict, commit now verdict sorted e (count (count_class e i) r))

  abbrev pub published_by : Bool × Runtime A → Outcome Bool × Runtime A
  published_by (done, r) = (ok done, touch r)

  abbrev pub routed : ℕ → Bool → Envelope A → Option Entry → Runtime A → Outcome Bool × Runtime A
  routed now interested i none r = and_then (miss i.client r) λ done r'. (ok done, touch r')
  routed now interested i (some e) r =
      if e.terminal
      then (ok false, touch (count one_abandoned r))
      else published_by (route now interested i e r)

  unfoldable pub route_item : ℕ → Map (Unit {0}) → Envelope A → Do A Bool
  unfolding route touch
  route_item now interests i r =
      routed now (is_some (lookup i.client interests)) i (lookup i.client r.entries) r

  -- What a publication has told the sink, beside its end: the sink stays told where a hook throws.
  abbrev pub and_publish :
      {B : Type 0}
      → Outcome B × Runtime A
      → (B → Runtime A → List SinkCall × Outcome (Unit {0}) × Runtime A)
      → List SinkCall × Outcome (Unit {0}) × Runtime A
  and_publish (ok b, r) rest = rest b r
  and_publish (thrown e, r) rest = ([], thrown e, r)

  abbrev pub announce :
      Do A (Unit {0}) → ℕ → Bool → Bool → Runtime A → List SinkCall × Outcome (Unit {0}) × Runtime A
  announce after id sink done r =
      let (o, r') = after r in
      if done then (told sink (ring_client id ∷ []), o, r') else ([], ok tt, r)

  abbrev pub publish_wanted :
      Do A (Unit {0})
      → Do A (Unit {0})
      → ℕ
      → Map (Unit {0})
      → Envelope A
      → Runtime A
      → List SinkCall × Outcome (Unit {0}) × Runtime A
  publish_wanted before after now interests i r₁ = and_publish (before r₁) λ _ r₂.
      and_publish (route_item now interests (record i { sequence = r₁.sequence }) r₂)
        λ done r₃. announce after i.client r₂.sink done r₃

  -- `publish`. `before` and `after` are the hooks, with what other threads do meanwhile; the sink
  -- is rung between the commit and the second hook.
  unfoldable pub publish :
      Do A (Unit {0})
      → Do A (Unit {0})
      → ℕ
      → Map (Unit {0})
      → Envelope A
      → Runtime A
      → List SinkCall × Outcome (Unit {0}) × Runtime A
  unfolding receive_item route_item
  publish before after now interests i r = and_publish (receive_item i r) λ wanted r₁.
      if wanted then publish_wanted before after now interests i r₁ else ([], ok tt, r₁)
