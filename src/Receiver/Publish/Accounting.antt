-- ===== src/Receiver/Publish/Accounting.antt =====
-- Every routed envelope is counted once.
use tdlua.Prelude.{
  ℕ, suc, ◌≡◌, refl, ap, ◌∙◌, Bool, true, false, Option, none, some, nonzero, if_both,
}
use tdlua.Ticket.{Channel}
use tdlua.Mailbox.{
  Mailbox, Envelope, ResponseClass, generic_raw, managed_protected, lifecycle, enqueue, end_stream,
}
use tdlua.Mailbox
use tdlua.Receiver.State.{
  Runtime, Entry, Counters, box_of, set_box, set_store, set_entry, touch, erase_entry,
}
use tdlua.Receiver.Demand.{clear_demand, drop_tokens}
use tdlua.Receiver.Lifecycle.{end_box, retire_entry, accumulate_retired}
use tdlua.Receiver.Publish.{answer, finish, deliver_to, commit, route, count_class, is_kept, count}
use tdlua.Receiver.Publish.Decision.{Verdict, filtered, dropped, kept, decide, class_of}
use tdlua.Receiver.Publish.Newest.{IsNewest, buffered, commit-IsNewest}

-- The counters of routing.
pub record SameTally (c c' : Counters) : Type 0 where
  pub published : c'.published ≡ c.published
  pub dropped : c'.dropped_unsolicited ≡ c.dropped_unsolicited
  pub filtered : c'.dropped_by_handler_filter ≡ c.dropped_by_handler_filter

same : (c : Counters) → SameTally c c
same c = record { published = refl; dropped = refl; filtered = refl }

-- What a verdict adds to the counters.
abbrev pub Adds : Verdict → Counters → Counters → Type 0
Adds filtered c c' =
    (c'.published ≡ c.published)
    × (c'.dropped_unsolicited ≡ suc c.dropped_unsolicited)
    × (c'.dropped_by_handler_filter ≡ suc c.dropped_by_handler_filter)
Adds dropped c c' =
    (c'.published ≡ c.published)
    × (c'.dropped_unsolicited ≡ suc c.dropped_unsolicited)
    × (c'.dropped_by_handler_filter ≡ c.dropped_by_handler_filter)
Adds (kept channel) c c' =
    (c'.published ≡ suc c.published)
    × (c'.dropped_unsolicited ≡ c.dropped_unsolicited)
    × (c'.dropped_by_handler_filter ≡ c.dropped_by_handler_filter)

Adds-after : (v : Verdict) (c d d' : Counters) → SameTally c d → Adds v d d' → Adds v c d'
Adds-after filtered c d d' t a =
    (a.0 ∙ t.published, a.1 ∙ ap suc t.dropped, a.2 ∙ ap suc t.filtered)
Adds-after dropped c d d' t a = (a.0 ∙ t.published, a.1 ∙ ap suc t.dropped, a.2 ∙ t.filtered)
Adds-after (kept k) c d d' t a = (a.0 ∙ ap suc t.published, a.1 ∙ t.dropped, a.2 ∙ t.filtered)

module _ {A : Type 0} where
  end_box-SameTally :
      (id : ℕ) (e : Entry) (r : Runtime A)
      → SameTally r.stats (end_box id (clear_demand id e r)).stats
  unfolding end_box clear_demand drop_tokens set_entry set_box touch
  end_box-SameTally id e r = same r.stats

  retire_entry-SameTally : (id : ℕ) (r : Runtime A) → SameTally r.stats (retire_entry id r).stats
  unfolding retire_entry accumulate_retired erase_entry
  retire_entry-SameTally id r = record { published = refl; dropped = refl; filtered = refl }

  finish-SameTally :
      (id : ℕ) (terminal : Bool) (e : Entry) (r : Runtime A)
      → SameTally r.stats (finish id terminal e r).stats
  unfolding end_box clear_demand drop_tokens set_entry set_box touch retire_entry accumulate_retired
      erase_entry
  finish-SameTally id terminal e r =
      if_both (λ (s : Runtime A). SameTally r.stats s.stats) terminal
        (if_both (λ (s : Runtime A). SameTally r.stats s.stats) e.orphan
          (record { published = refl; dropped = refl; filtered = refl })
          (record { published = refl; dropped = refl; filtered = refl }))
        (same r.stats)

  deliver_to-Adds :
      (channel : Option Channel) (i : Envelope A) (e : Entry) (r : Runtime A)
      → Adds (kept channel) r.stats (deliver_to i e r).stats
  unfolding set_store
  deliver_to-Adds channel i e r = (counts.published, counts.dropped, counts.filtered)
    where
      counts :
          SameTally (record r.stats { published = suc r.stats.published }) (deliver_to i e r).stats
      counts = finish-SameTally i.client i.terminal (answer i.request_id e) (
          count (λ c. record c { published = suc c.published })
            (set_store i.client (Mailbox.publish r.buffers (box_of i.client r) i) r))

  commit-Adds :
      (now : ℕ) (v : Verdict) (i : Envelope A) (e : Entry) (r : Runtime A)
      → Adds v r.stats (commit now v i e r).stats
  unfolding set_store
  commit-Adds now filtered i e r = (refl, refl, refl)
  commit-Adds now dropped i e r = (refl, refl, refl)
  commit-Adds now (kept none) i e r = deliver_to-Adds none i e r
  commit-Adds now (kept (some c)) i e r =
      let t = buffered now c i e r in
      deliver_to-Adds (some c) t.0 t.1 (set_store i.client t.2.store r)

  count_class-SameTally :
      (e : Entry) (i : Envelope A) (c : Counters) → SameTally c (count_class e i c)
  count_class-SameTally e i c = cases (class_of e i.terminal i.request_id) refl
    where
      cases :
          (k : ResponseClass)
          → class_of e i.terminal i.request_id ≡ k
          → SameTally c (count_class e i c)
      cases lifecycle k =
          rw (k, count_class) (record { published = refl; dropped = refl; filtered = refl })
      cases managed_protected k =
          rw (k, count_class) (record { published = refl; dropped = refl; filtered = refl })
      cases generic_raw k =
          rw (k, count_class)
            (if_both (SameTally c) (nonzero i.request_id)
              (record { published = refl; dropped = refl; filtered = refl }) (same c))

  -- The envelope with the class that it is given.
  abbrev pub classified : Envelope A → Entry → Envelope A
  classified i e = record i { response_class = class_of e i.terminal i.request_id }

  -- Routing adds one to exactly the counter of its verdict, published or dropped, and to the
  -- filter's counter if the filter dropped the envelope; it says truly whether it published; and a
  -- kept envelope is, with its value, sequence and class, the last in its client's mailbox, unless
  -- that one is closed, whatever the bounded buffer has evicted before it.
  pub route-Adds :
      (now : ℕ) (interested : Bool) (i : Envelope A) (e : Entry) (r : Runtime A) (v : Verdict)
      → decide e interested i.terminal i.request_id i.event_type ≡ v
      → ((route now interested i e r).0 ≡ is_kept v)
        × Adds v r.stats (route now interested i e r).1.stats
        × (is_kept v ≡ true
            → (box_of i.client r).orphan ≡ false
            → IsNewest (classified i e) (box_of i.client (route now interested i e r).1))
  unfolding route
  route-Adds now interested i e r v decided = (
    ap is_kept decided,
    rw decided (
        Adds-after v r.stats (count_class e i r.stats) _ (count_class-SameTally e i r.stats)
          (commit-Adds now v (classified i e) e counted)),
    λ k open_box.
        rw decided (commit-IsNewest now v (classified i e) e counted k (unfold box_of in open_box)),
  )
    where
      counted : Runtime A
      counted = count (count_class e i) r
