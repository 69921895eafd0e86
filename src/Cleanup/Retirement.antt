-- ===== src/Cleanup/Retirement.antt =====
-- `retireIfReady` restores the invariant: the record is without use, or keeps the laws.
use tdlua.Prelude.{
  ℕ, ◌≡◌, refl, ◌∙◌, sym, ap, subst, Bool, true, false, not, Option, none, some, List, arith,
  ==_refl, is_some, if_split, Map, lookup, erase, lookup-erase,
}
use tdlua.Prelude.Keys.{erase-Sorted}
use tdlua.Cleanup.{Work, no_work, close, notify, Record, Queue, Cleanup}
use tdlua.Cleanup.Queues.{
  same_work, idle_record, unlink, is_ready, remove, retire_at, retire_if_ready,
}
use tdlua.Cleanup.Queues.Chain.{points}
use tdlua.Cleanup.Queues.Effects.{work_at, next_at, previous_at, changed}
use tdlua.Cleanup.Queues.Represents.{Lines, Chained, Represents, Chained-frame, at_same}
use tdlua.Cleanup.Queues.Refinement.{leave_line, requeue, unlink-Represents}
use tdlua.Cleanup.Queues.Requeue.{wanted}
use tdlua.Cleanup.Cores.{Kept, unlink-Kept}
use tdlua.Cleanup.Counters.{Counted, Kept-Counted}
use tdlua.Cleanup.Laws.{is_witnessed}
use tdlua.Cleanup.Counters.{Counter, weight, weight_at, total-erase, uncount_record_lem}
use tdlua.Cleanup.Queues.Requeue.{unlink-Waits}
use tdlua.Cleanup.Invariant.{
  Upheld, Invariant, Waiting, keeps_law, settles_at, same_lookup, same_wanted, Kept-Known,
  requeue-closing, requeue-notifying,
}

erased-Chained :
    (w : Work) (i : ℕ) (q : Queue) (xs : List ℕ) (m : Map Record)
    → Chained w q xs m
    → same_work w no_work ≡ false
    → same_work no_work (work_at (lookup i m)) ≡ true
    → Chained w q xs (erase i m)
erased-Chained w i q xs m c nw e =
    Chained-frame w q q xs m (erase i m) c refl
      (λ j.
        ap (λ x. same_work w (work_at x)) (lookup-erase i j m)
        ∙ ground (arith, at_same (λ x. same_work no_work (work_at (lookup x m))) true i e j))
      (λ j h.
        ap next_at (lookup-erase i j m)
        ∙ ground (arith, at_same (λ x. same_work no_work (work_at (lookup x m))) true i e j, c.3 j))
      (λ j h.
        ap previous_at (lookup-erase i j m)
        ∙ ground (arith, at_same (λ x. same_work no_work (work_at (lookup x m))) true i e j, c.3 j))

remove-Represents :
    (i : ℕ) (r : Record) (l : Cleanup) (a : Lines)
    → Represents l a
    → same_work no_work (work_at (lookup i l.records)) ≡ true
    → Represents (remove i r l) a
remove-Represents i r l a (c, n, d) e = (
  erased-Chained close i l.closes a.closing l.records c refl e,
  erased-Chained notify i l.notifies a.notifying l.records n refl e,
  λ j h.
      ap next_at (lookup-erase i j l.records)
      ∙ ground
          (arith, ap (λ x. same_work no_work (work_at x)) (lookup-erase i j l.records), d j, h),
)

-- The lines of a ledger in which an id that waits for nothing has no record.
remove-Waiting :
    (seen : ℕ → Bool) (i : ℕ) (r : Record) (l l' : Cleanup) (a : Lines)
    → Kept l l'
    → Represents l a
    → Waiting seen l a
    → Waiting seen (remove i r l') (requeue i (work_at (lookup i l.records)) no_work a)
remove-Waiting seen i r l l' a k h v j e = (
  ap (λ x. same_work close (wanted l' x)) (lookup-erase i j l'.records)
      ∙ ground (
        arith,
        requeue-closing i j (work_at (lookup i l.records)) no_work a h.0.0 (sym (h.0.3 i)),
        same_wanted j l l' k,
        v j,
      ),
  ap (λ x. same_work notify (wanted l' x)) (lookup-erase i j l'.records)
      ∙ ground (
        arith,
        requeue-notifying i j (work_at (lookup i l.records)) no_work a h.1.0 (sym (h.1.3 i)),
        same_wanted j l l' k,
        v j,
      ),
)

weight-core :
    (c : Counter) (o : Option Record) → weight_at c o ≡ weight_at c (changed true idle_record o)
weight-core c o = ground arith

remove-Counted :
    (i : ℕ) (r : Record) (l l' : Cleanup)
    → Kept l l'
    → Counted l'
    → lookup i l.records ≡ some r
    → is_witnessed r ≡ true
    → is_ready r ≡ true
    → Counted (remove i r l')
remove-Counted i r l l' k c e p q x = omega (
  arith,
  c x,
  total-erase x i l'.records k.0,
  same_weight x,
  uncount_record_lem x r l'.stats p q
      (λ y. omega (arith, c y, total-erase y i l'.records k.0, same_weight y)),
)
  where
    same_weight : (y : Counter) → weight_at y (lookup i l'.records) ≡ weight y r
    same_weight y = same_lookup (weight_at y) i l l' k (weight-core y) ∙ ap (weight_at y) e

pub only_leaves : (i : ℕ) (from : Work) (a : Lines) → leave_line from i a ≡ requeue i from no_work a
only_leaves i no_work a = refl
only_leaves i close a = refl
only_leaves i notify a = refl

pub law-core :
    (w : Work) (held : Option ℕ) (j : ℕ) (o : Option Record)
    → keeps_law w held j o ≡ keeps_law w held j (changed true idle_record o)
unfolding is_ready
law-core w held j o = ground arith

ready_idle : (r : Record) → is_ready r ≡ true → r.busy ≡ false
unfolding is_ready
ready_idle r h = ground arith

removed-Invariant :
    (w : Work) (held : Option ℕ) (seen : ℕ → Bool) (i : ℕ) (r : Record) (l : Cleanup)
    → Upheld (settles_at i w held) seen l
    → lookup i l.records ≡ some r
    → is_ready r ≡ true
    → Invariant w held seen (remove i r (unlink i l))
removed-Invariant w held seen i r l (s, c, k, n, (a, h, v)) e y =
    let kept = unlink-Kept i l s in
    let l' = unlink i l in
    let c' = Kept-Counted l l' kept c in
    let free : not (points held i) ≡ true =
      ground (arith, ap (settles_at i w held i) e, k i, ==_refl i, ready_idle r y) in
    let witnessed : is_witnessed r ≡ true =
      ground (arith, ap (settles_at i w held i) e, k i, ==_refl i) in
    (
      erase-Sorted i l'.records kept.0,
      remove-Counted i r l l' kept c' e witnessed y,
      λ j.
          ap (keeps_law w held j) (lookup-erase i j l'.records)
          ∙ ground (
            arith,
            at_same (λ x. not (points held x)) true i free j,
            same_lookup (keeps_law w held j) j l l' kept (law-core w held j),
            k j,
          ),
      λ j g. Kept-Known l l' kept n j (ground (arith, g, ap is_some (lookup-erase i j l'.records))),
      (
        requeue i (work_at (lookup i l.records)) no_work a,
        remove-Represents i r l' (requeue i (work_at (lookup i l.records)) no_work a)
            (subst (Represents l') (only_leaves i (work_at (lookup i l.records)) a)
              (unlink-Represents i l a h))
            (unlink-Waits i l (ap is_some e)).1,
        remove-Waiting seen i r l l' a kept h v,
      ),
    )

pub retire-Invariant :
    (w : Work) (held : Option ℕ) (seen : ℕ → Bool) (i : ℕ) (l : Cleanup)
    → Upheld (settles_at i w held) seen l
    → Invariant w held seen (retire_if_ready i l)
unfolding retire_if_ready
retire-Invariant w held seen i l u = split (lookup i l.records) refl
  where
    stays :
        (o : Option Record)
        → lookup i l.records ≡ o
        → keeps_law w held i o ≡ true
        → Invariant w held seen l
    stays o e h = (
      u.0,
      u.1,
      λ j. ground (
        arith,
        u.2 j,
        at_same (λ x. keeps_law w held x (lookup x l.records)) true i
            (ap (keeps_law w held i) e ∙ h) j,
      ),
      u.3,
      u.4,
    )

    split : (o : Option Record) → lookup i l.records ≡ o → Invariant w held seen (retire_at i o l)
    split none e = stays none e (ground (arith, ap (settles_at i w held i) e, u.2 i, ==_refl i))
    split (some r) e =
        if_split (Invariant w held seen) (is_ready r)
          (λ y. removed-Invariant w held seen i r l u e y)
          (λ y. stays (some r) e (ground (arith, ap (settles_at i w held i) e, u.2 i, ==_refl i)))
