-- ===== src/Cleanup/Change.antt =====
-- The change of one record and of the counters, up to the invariant.
use tdlua.Prelude.{
  ℕ, ◌≡◌, refl, ◌∙◌, sym, ap, Bool, true, Option, some, arith, ◌==◌, is_some, if◌then◌else◌, lookup,
  lookup-insert,
}
use tdlua.Prelude.Keys.{insert-Sorted}
use tdlua.Cleanup.{Work, no_work, close, notify, Record, Stats, Cleanup}
use tdlua.Cleanup.Queues.{same_work, idle_record, refresh_work, is_ready}
use tdlua.Cleanup.Queues.Effects.{work_at, next_at, previous_at, changed}
use tdlua.Cleanup.Queues.Represents.{Lines, Represents, Chained-frame, at_same}
use tdlua.Cleanup.Queues.Requeue.{wanted}
use tdlua.Cleanup.Laws.{Linked}
use tdlua.Cleanup.Ledger.{put, settle}
use tdlua.Cleanup.Counters.{Balanced, put-Counted}
use tdlua.Cleanup.Invariant.{
  Upheld, Invariant, Waiting, keeps_law, may_settle, settles_at, but, refresh-Upheld,
}
use tdlua.Cleanup.Retirement.{law-core, retire-Invariant}

lookup-put :
    (i j : ℕ) (p : Record × Stats) (l : Cleanup)
    → lookup j (put i p l).records ≡ (if i == j then some p.0 else lookup j l.records)
lookup-put i j (r, s) l = lookup-insert i j r l.records

same_links :
    (i : ℕ) (r : Record) (p : Record × Stats) (l : Cleanup)
    → lookup i l.records ≡ some r
    → Linked r p.0
    → (j : ℕ)
    → (work_at (lookup j (put i p l).records) ≡ work_at (lookup j l.records))
      × (next_at (lookup j (put i p l).records) ≡ next_at (lookup j l.records))
      × (previous_at (lookup j (put i p l).records) ≡ previous_at (lookup j l.records))
same_links i r p l e (w, n, q) j = (
  ap work_at (lookup-put i j p l)
      ∙ ground (arith, w, at_same (λ x. work_at (lookup x l.records)) r.work i (ap work_at e) j),
  ap next_at (lookup-put i j p l)
      ∙ ground (arith, n, at_same (λ x. next_at (lookup x l.records)) r.next i (ap next_at e) j),
  ap previous_at (lookup-put i j p l)
      ∙ ground (
        arith,
        q,
        at_same (λ x. previous_at (lookup x l.records)) r.previous i (ap previous_at e) j,
      ),
)

put-Represents :
    (i : ℕ) (r : Record) (p : Record × Stats) (l : Cleanup) (a : Lines)
    → lookup i l.records ≡ some r
    → Linked r p.0
    → Represents l a
    → Represents (put i p l) a
put-Represents i r p l a e k (c, n, d) = (
  Chained-frame close l.closes l.closes a.closing l.records (put i p l).records c refl
      (λ j. ap (same_work close) (same_links i r p l e k j).0) (λ j h. (same_links i r p l e k j).1)
      (λ j h. (same_links i r p l e k j).2),
  Chained-frame notify l.notifies l.notifies a.notifying l.records (put i p l).records n refl
      (λ j. ap (same_work notify) (same_links i r p l e k j).0)
      (λ j h. (same_links i r p l e k j).1) (λ j h. (same_links i r p l e k j).2),
  λ j h.
      (same_links i r p l e k j).1
      ∙ d j (ap (same_work no_work) (sym (same_links i r p l e k j).0) ∙ h),
)

pub settles-core :
    (i : ℕ) (w : Work) (held : Option ℕ) (j : ℕ) (o : Option Record)
    → settles_at i w held j o ≡ settles_at i w held j (changed true idle_record o)
unfolding is_ready
settles-core i w held j o = ground arith

module _ (w : Work) (held : Option ℕ) (seen : ℕ → Bool) (i : ℕ) (r : Record) (p : Record × Stats)
    (l : Cleanup) (inv : Invariant w held seen l) (e : lookup i l.records ≡ some r)
    (balanced : Balanced (r, l.stats) p) (linked : Linked r p.0) where
  pub put-Upheld :
      (keeps : ℕ → Option Record → Bool) (seen' : ℕ → Bool)
      → ((j : ℕ) → keeps j (lookup j (put i p l).records) ≡ true)
      → ((a : Lines) → Represents l a → Waiting seen l a → Waiting seen' (put i p l) a)
      → Upheld keeps seen' (put i p l)
  put-Upheld keeps seen' k v = (
    insert-Sorted i p.0 l.records inv.0,
    put-Counted i r p l inv.0 e inv.1 balanced,
    k,
    λ j g. inv.3 j (
        ground (
          arith,
          g,
          ap is_some (lookup-put i j p l),
          at_same (λ x. is_some (lookup x l.records)) true i (ap is_some e) j,
        )),
    (inv.4.0, put-Represents i r p l inv.4.0 e linked inv.4.1, v inv.4.0 inv.4.1 inv.4.2),
  )

  pub others_wait :
      (a : Lines) → Represents l a → Waiting seen l a → Waiting (but i seen) (put i p l) a
  others_wait a h v j g = (
    ap (λ x. same_work close (wanted l x)) (lookup-put i j p l) ∙ ground (arith, g, v j),
    ap (λ x. same_work notify (wanted l x)) (lookup-put i j p l) ∙ ground (arith, g, v j),
  )

  pub settle-Invariant :
      may_settle w held i (some p.0) ≡ true → Invariant w held seen (settle i (put i p l))
  settle-Invariant m = retire-Invariant w held seen i (refresh_work i (put i p l)) (
      refresh-Upheld (settles_at i w held) seen i (put i p l) (settles-core i w held) (
        put-Upheld (settles_at i w held) (but i seen)
          (λ j.
            ap (settles_at i w held j) (lookup-put i j p l)
            ∙ ground (arith, at_same (λ x. may_settle w held x (some p.0)) true i m j, inv.2 j))
          others_wait))

  pub refresh-Invariant :
      keeps_law w held i (some p.0) ≡ true → Invariant w held seen (refresh_work i (put i p l))
  refresh-Invariant m = refresh-Upheld (keeps_law w held) seen i (put i p l) (law-core w held) (
      put-Upheld (keeps_law w held) (but i seen)
        (λ j.
          ap (keeps_law w held j) (lookup-put i j p l)
          ∙ ground (arith, at_same (λ x. keeps_law w held x (some p.0)) true i m j, inv.2 j))
        others_wait)

  pub put-Invariant :
      keeps_law w held i (some p.0) ≡ true
      → wanted l (some p.0) ≡ wanted l (some r)
      → Invariant w held seen (put i p l)
  put-Invariant m same =
      put-Upheld (keeps_law w held) seen
        (λ j.
          ap (keeps_law w held j) (lookup-put i j p l)
          ∙ ground (arith, at_same (λ x. keeps_law w held x (some p.0)) true i m j, inv.2 j))
        (λ a h v j g. (
          ap (λ x. same_work close (wanted l x)) (lookup-put i j p l)
              ∙ ground (
                arith,
                v j g,
                ap (same_work close) same,
                at_same (λ x. same_work close (wanted l (lookup x l.records)))
                    (same_work close (wanted l (some r))) i
                    (ap (λ o. same_work close (wanted l o)) e) j,
              ),
          ap (λ x. same_work notify (wanted l x)) (lookup-put i j p l)
              ∙ ground (
                arith,
                v j g,
                ap (same_work notify) same,
                at_same (λ x. same_work notify (wanted l (lookup x l.records)))
                    (same_work notify (wanted l (some r))) i
                    (ap (λ o. same_work notify (wanted l o)) e) j,
              ),
        ))
