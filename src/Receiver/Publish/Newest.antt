-- ===== src/Receiver/Publish/Newest.antt =====
-- A kept envelope is the newest of its mailbox.
use tdlua.Prelude.{
  ℕ, suc, ◌≡◌, refl, ap, ◌∙◌, Bool, true, false, none, some, List, [], ◌∷◌, ◌++◌, lookup-insert,
  arith, ==_refl, if_both,
}
use tdlua.Ticket.{Buffers, Channel}
use tdlua.Mailbox.{
  Mailbox, Envelope, ResponseClass, generic_raw, managed_protected, lifecycle, enqueue, end_stream,
}
use tdlua.Mailbox
use tdlua.Receiver.State.{
  Runtime, Entry, box_or_new, box_of, set_box, set_store, set_entry, touch, erase_entry,
}
use tdlua.Receiver.Demand.{clear_demand, drop_tokens}
use tdlua.Receiver.Lifecycle.{end_box, retire_entry, accumulate_retired}
use tdlua.Receiver.Generic.{add_generic, Pruned}
use tdlua.Receiver.Generic.Orphans.{add_generic-orphan}
use tdlua.Receiver.Publish.{
  answer, finish, deliver_to, deliver_ticketed, commit, is_kept, count, acquired_at, ticketed,
}
use tdlua.Receiver.Publish.Decision.{Verdict, filtered, dropped, kept}

module _ {A : Type 0} where
  -- The envelope with its ticket, the entry, and the store.
  abbrev pub buffered : ℕ → Channel → Envelope A → Entry → Runtime A → Envelope A × Entry × Pruned A
  buffered now c i e r = ticketed now (acquired_at now i) c e i (
      add_generic r.generic_capacity r.generic_ttl now (acquired_at now i) c i.client e.generic_fifo
        (r.buffers, box_of i.client r))

  -- The newest envelope of a mailbox.
  pub record IsNewest (i : Envelope A) (m : Mailbox A) : Type 0 where
    pub older : List (Envelope A)
    pub envelope : Envelope A
    pub queue : m.queue ≡ older ++ envelope ∷ []
    pub value : envelope.value ≡ i.value
    pub sequence : envelope.sequence ≡ i.sequence
    pub request_id : envelope.request_id ≡ i.request_id
    pub response_class : envelope.response_class ≡ i.response_class

  box_of-set_box : (id : ℕ) (m : Mailbox A) (r : Runtime A) → box_of id (set_box id m r) ≡ m
  unfolding box_of set_box
  box_of-set_box id m r =
      ground (arith, ap (λ o. box_or_new o) (lookup-insert id id m r.boxes), ==_refl id)

  box_of-set_store :
      (id : ℕ) (s : Buffers × Mailbox A) (r : Runtime A) → box_of id (set_store id s r) ≡ s.1
  unfolding set_store set_box box_of
  box_of-set_store id (b, m) r = box_of-set_box id m r

  end_box-queue : (id : ℕ) (r : Runtime A) → (box_of id (end_box id r)).queue ≡ (box_of id r).queue
  unfolding end_box end_stream
  end_box-queue id r =
      ap (λ (m : Mailbox A). m.queue) (box_of-set_box id (end_stream (box_of id r)) r)

  finish-queue :
      (id : ℕ) (terminal : Bool) (e : Entry) (r : Runtime A)
      → (box_of id (finish id terminal e r)).queue ≡ (box_of id r).queue
  unfolding box_of clear_demand drop_tokens set_entry touch retire_entry accumulate_retired
      erase_entry
  finish-queue id terminal e r =
      if_both (λ (s : Runtime A). (box_of id s).queue ≡ (box_of id r).queue) terminal
        (if_both (λ (s : Runtime A). (box_of id s).queue ≡ (box_of id r).queue) e.orphan
          (end_box-queue id (clear_demand id (record e { terminal = true }) r))
          (end_box-queue id (clear_demand id (record e { terminal = true }) r)))
        refl

  deliver_to-queue :
      (i : Envelope A) (e : Entry) (r : Runtime A)
      → (box_of i.client r).orphan ≡ false
      → (box_of i.client (deliver_to i e r)).queue ≡ (box_of i.client r).queue ++ i ∷ []
  unfolding set_store set_box box_of
  deliver_to-queue i e r open_box =
      finish-queue i.client i.terminal (answer i.request_id e) posted
      ∙ ap (λ (m : Mailbox A). m.queue) (box_of-set_box i.client _ r)
      ∙ (unfold Mailbox.publish enqueue in rw open_box refl)
    where
      posted : Runtime A
      posted =
          count (λ c. record c { published = suc c.published })
            (set_store i.client (Mailbox.publish r.buffers (box_of i.client r) i) r)

  posted-IsNewest :
      (i : Envelope A) (e : Entry) (r : Runtime A)
      → (box_of i.client r).orphan ≡ false
      → IsNewest i (box_of i.client (deliver_to i e r))
  posted-IsNewest i e r open_box = record {
    older = (box_of i.client r).queue;
    envelope = i;
    queue = deliver_to-queue i e r open_box;
    value = refl;
    sequence = refl;
    request_id = refl;
    response_class = refl;
  }

  buffered-IsNewest :
      (now : ℕ) (c : Channel) (i : Envelope A) (e : Entry) (r : Runtime A)
      → (box_of i.client r).orphan ≡ false
      → IsNewest i (box_of i.client (deliver_ticketed now c i e r))
  buffered-IsNewest now c i e r open_box = record {
    older = (box_of i.client stored).queue;
    envelope = t.0;
    queue = deliver_to-queue t.0 t.1 stored still_open;
    value = refl;
    sequence = refl;
    request_id = refl;
    response_class = refl;
  }
    where
      t : Envelope A × Entry × Pruned A
      t = buffered now c i e r

      stored : Runtime A
      stored = set_store i.client t.2.store r

      still_open : (box_of i.client stored).orphan ≡ false
      still_open =
          ap (λ (m : Mailbox A). m.orphan) (box_of-set_store i.client t.2.store r)
          ∙ add_generic-orphan r.generic_capacity r.generic_ttl now (acquired_at now i) c i.client
              e.generic_fifo (r.buffers, box_of i.client r)
          ∙ open_box

  pub commit-IsNewest :
      (now : ℕ) (v : Verdict) (i : Envelope A) (e : Entry) (r : Runtime A)
      → is_kept v ≡ true
      → (box_of i.client r).orphan ≡ false
      → IsNewest i (box_of i.client (commit now v i e r))
  commit-IsNewest now filtered i e r k open_box = cc
  commit-IsNewest now dropped i e r k open_box = cc
  commit-IsNewest now (kept none) i e r k open_box = posted-IsNewest i e r open_box
  commit-IsNewest now (kept (some c)) i e r k open_box = buffered-IsNewest now c i e r open_box
