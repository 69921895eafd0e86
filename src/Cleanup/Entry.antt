-- ===== src/Cleanup/Entry.antt =====
-- `registerClient`, `beginSend` and any sequence of the operations keep the invariant.
use tdlua.Prelude.{
  ℕ, zero, suc, ◌≡◌, refl, ◌∙◌, sym, ap, Bool, true, false, ◌&&◌, ◌||◌, Option, none, some, List,
  arith, ◌==◌, is_some, if_split, Option-cases, Map, lookup, insert, lookup-insert,
}
use tdlua.Prelude.Int.{pos}
use tdlua.Prelude.Keys.{insert-Sorted, sum_by-insert}
use tdlua.Identity.{History, contains, insert_id}
use tdlua.Cleanup.{Work, no_work, close, notify, Record, Queue, Cleanup}
use tdlua.Cleanup.Queues.{same_work, desired, is_ready}
use tdlua.Cleanup.Queues.Effects.{work_at, next_at, previous_at}
use tdlua.Cleanup.Queues.Represents.{Lines, Chained, Chained-frame, at_same}
use tdlua.Cleanup.Queues.Requeue.{wanted}
use tdlua.Cleanup.Counters.{weight_of}
use tdlua.Cleanup.Invariant.{Invariant, Waiting, keeps_law}
use tdlua.Cleanup.Change.{put-Invariant}
use tdlua.Cleanup.Laws.{admit-lawful}
use tdlua.Cleanup.Ledger.{Reply, add_record, register_client, refuse_send, admit_at, begin_send}
use tdlua.Identity.Membership.{step_contains, or_keep}
use tdlua.Cleanup.{new_record}
use tdlua.Cleanup.Drain.{
  Action, registers, acknowledges, retires_unused, retires_reserved, rejects_shutdown, begins_send,
  ends_send, act,
}
use tdlua.Cleanup.Steps.{
  end_send-Invariant, acknowledge_terminal-Invariant, retire_unused-Invariant,
  retire_reserved-Invariant, reject_shutdown-Invariant,
}

-- Where sends are open, the drain notifies of no client.
abbrev pub Closed : Work → Cleanup → Type 0
Closed w l = same_work w notify ≡ true → l.failed ≡ true

accepted :
    (h : History) (i : ℕ) (h' : History)
    → insert_id h (pos i) ≡ some h'
    → ((i == 0) ≡ false) × (contains h (pos i) ≡ false)
unfolding insert_id
accepted h zero h' e = (ground (arith, e), ground (arith, e))
accepted h (suc i) h' e = (ground arith, ground (arith, e))

contains-inserted :
    (h : History) (i : ℕ) (h' : History)
    → insert_id h (pos i) ≡ some h'
    → (j : ℕ) → contains h' (pos j) ≡ (i == j || contains h (pos j))
unfolding contains
contains-inserted h i h' e zero = ground (arith, (accepted h i h' e).0)
contains-inserted h i h' e (suc j) =
    sym (ap (λ o. contains (or_keep h o) (pos (suc j))) e) ∙ step_contains h i j

still_open : (w : Work) (l : Cleanup) → Closed w l → l.failed ≡ false → same_work w notify ≡ false
still_open w l c e = ground (arith, c)

wanted_active :
    (l : Cleanup) (r : Record)
    → l.failed ≡ false
    → wanted l (some (record r { active = suc r.active })) ≡ wanted l (some r)
unfolding desired
wanted_active l r e = rw e refl

new-Chained :
    (v : Work) (q : Queue) (xs : List ℕ) (i : ℕ) (m : Map Record)
    → lookup i m ≡ none
    → same_work v no_work ≡ false
    → Chained v q xs m
    → Chained v q xs (insert i new_record m)
new-Chained v q xs i m e n c =
    Chained-frame v q q xs m (insert i new_record m) c refl
      (λ j.
        ap (λ x. same_work v (work_at x)) (lookup-insert i j new_record m)
        ∙ ground (arith, at_same (λ x. work_at (lookup x m)) no_work i (ap work_at e) j))
      (λ j h.
        ap next_at (lookup-insert i j new_record m)
        ∙ ground (arith, at_same (λ x. next_at (lookup x m)) none i (ap next_at e) j))
      (λ j h.
        ap previous_at (lookup-insert i j new_record m)
        ∙ ground (arith, at_same (λ x. previous_at (lookup x m)) none i (ap previous_at e) j))

new-Waiting :
    (seen : ℕ → Bool) (l : Cleanup) (a : Lines) (i : ℕ)
    → l.failed ≡ false
    → lookup i l.records ≡ none
    → Waiting seen l a
    → Waiting seen (record l { records = insert i new_record l.records }) a
unfolding desired
new-Waiting seen l a i f e v j g = (
  ap (λ x. same_work close (wanted l x)) (lookup-insert i j new_record l.records)
      ∙ ground (
        arith,
        f,
        v j g,
        at_same (λ x. wanted l (lookup x l.records)) no_work i (ap (wanted l) e) j,
      ),
  ap (λ x. same_work notify (wanted l x)) (lookup-insert i j new_record l.records)
      ∙ ground (
        arith,
        f,
        v j g,
        at_same (λ x. wanted l (lookup x l.records)) no_work i (ap (wanted l) e) j,
      ),
)

registered-Invariant :
    (w : Work) (held : Option ℕ) (seen : ℕ → Bool) (l : Cleanup)
    → Invariant w held seen l
    → (i : ℕ) (h : History) → l.failed ≡ false
    → lookup i l.records ≡ none
    → ((j : ℕ) → contains h (pos j) ≡ (i == j || contains l.history (pos j)))
    → Invariant w held seen (add_record i (some h) l).1
unfolding is_ready
registered-Invariant w held seen l (s, c, k, n, (a, (close', notify', d), v)) i h f e g = (
  insert-Sorted i new_record l.records s,
  λ x. ground (arith, c x, sum_by-insert (weight_of x) i new_record l.records e),
  λ j.
      ap (keeps_law w held j) (lookup-insert i j new_record l.records)
      ∙ ground (
        arith,
        k j,
        at_same (λ x. keeps_law w held x none) true i (ap (keeps_law w held i) (sym e) ∙ k i) j,
      ),
  λ j x. ground (arith, g j, n j, x, ap is_some (lookup-insert i j new_record l.records)),
  (
    a,
    (
      new-Chained close l.closes a.closing i l.records e refl close',
      new-Chained notify l.notifies a.notifying i l.records e refl notify',
      λ j x.
          ap next_at (lookup-insert i j new_record l.records)
          ∙ ground (
            arith,
            x,
            d j,
            ap (λ y. same_work no_work (work_at y)) (lookup-insert i j new_record l.records),
          ),
    ),
    new-Waiting seen l a i f e v,
  ),
)

module _ (w : Work) (held : Option ℕ) (seen : ℕ → Bool) (l : Cleanup)
    (inv : Invariant w held seen l) (closed : Closed w l) where
  begin_send-Invariant : (i : ℕ) (closing : Bool) → Invariant w held seen (begin_send i closing l).1
  unfolding begin_send
  begin_send-Invariant i closing =
      if_split (λ (x : Reply Bool × Cleanup). Invariant w held seen x.1) l.failed
        (λ f.
          if_split (λ (x : Reply Bool × Cleanup). Invariant w held seen x.1) closing (λ g. inv)
            (λ g. inv))
        (split (lookup i l.records) refl)
    where
      refused : Invariant w held seen (refuse_send i closing l).1
      refused =
          if_split (λ (x : Reply Bool × Cleanup). Invariant w held seen x.1)
            (closing && contains l.history (pos i)) (λ g. inv) (λ g. inv)

      split :
          (o : Option Record)
          → lookup i l.records ≡ o
          → l.failed ≡ false
          → Invariant w held seen (admit_at i closing o l).1
      split none e f = refused
      split (some r) e f =
          if_split (λ (x : Reply Bool × Cleanup). Invariant w held seen x.1)
            (r.terminal || r.notified) (λ n. refused)
            (λ n.
              put-Invariant w held seen i r
                (
                  record r { active = suc r.active },
                  record l.stats { active_sends = suc l.stats.active_sends },
                )
                l inv e (λ c. ground arith) (refl, refl, refl)
                (ground (
                  arith,
                  ap (keeps_law w held i) e,
                  inv.2 i,
                  admit-lawful w r l.stats,
                  still_open w l closed f,
                ))
                (wanted_active l r f))

  register_client-Invariant : (i : ℕ) → Invariant w held seen (register_client i l).1
  unfolding register_client
  register_client-Invariant i =
      if_split (λ (x : Reply (Unit {0}) × Cleanup). Invariant w held seen x.1) l.failed (λ f. inv)
        (λ f. split (insert_id l.history (pos i)) refl f)
    where
      split :
          (o : Option History)
          → insert_id l.history (pos i) ≡ o
          → l.failed ≡ false
          → Invariant w held seen (add_record i o l).1
      split none e f = inv
      split (some h) e f =
          registered-Invariant w held seen l inv i h f
            (ground
              (arith, inv.3 i, (accepted l.history i h e).1, Option-cases (lookup i l.records)))
            (contains-inserted l.history i h e)

  pub act-Invariant : (a : Action) → Invariant w held seen (act l a)
  unfolding act
  act-Invariant (registers i) = register_client-Invariant i
  act-Invariant (begins_send i closing) = begin_send-Invariant i closing
  act-Invariant (ends_send i closing success) =
      end_send-Invariant w held seen l inv i closing success
  act-Invariant (acknowledges i) = acknowledge_terminal-Invariant w held seen l inv i
  act-Invariant (retires_unused i) = retire_unused-Invariant w held seen l inv i
  act-Invariant (retires_reserved i) = retire_reserved-Invariant w held seen l inv i
  act-Invariant (rejects_shutdown i) = reject_shutdown-Invariant w held seen l inv i
