-- ===== src/Cleanup/Drain/Hold.antt =====
-- The drain takes hold of a record with work, and gives it back when the work is done.
use tdlua.Prelude.{
  ℕ, suc, ◌≡◌, refl, ◌∙◌, sym, ap, subst, Bool, true, false, Option, none, some, arith, ◌==◌,
  ==_refl, is_some, Option-cases, inl, inr, lookup, lookup-insert,
}
use tdlua.Cleanup.{Work, no_work, close, notify, Record, Cleanup}
use tdlua.Cleanup.Queues.{same_work, idle_record, desired, unlink, refresh_work, is_ready}
use tdlua.Cleanup.Queues.Chain.{mem}
use tdlua.Cleanup.Queues.Effects.{work_at, changed}
use tdlua.Cleanup.Queues.Represents.{Lines, Represents, at_same}
use tdlua.Cleanup.Queues.Refinement.{one_work, requeue, unlink-Represents}
use tdlua.Cleanup.Queues.Requeue.{wanted}
use tdlua.Cleanup.Cores.{unlink-Kept}
use tdlua.Cleanup.Counters.{Kept-Counted}
use tdlua.Cleanup.Laws.{is_lawful, is_settling}
use tdlua.Cleanup.Ledger.{put}
use tdlua.Cleanup.Counters.{lookup-Covers}
use tdlua.Cleanup.Queues.Requeue.{unlink-Waits}
use tdlua.Cleanup.Invariant.{
  same_bit, Invariant, Waiting, keeps_law, may_settle, settles_at, but, same_lookup, same_wanted,
  Kept-Known, requeue-closing, requeue-notifying, refresh-Upheld,
}
use tdlua.Cleanup.Retirement.{only_leaves, law-core, retire-Invariant}
use tdlua.Cleanup.Change.{put-Upheld, others_wait, settles-core}
use tdlua.Cleanup.Queues.{modify, modify_at}
use tdlua.Cleanup.Laws.{work_done-settling, work_done-busy, work_done-Linked}
use tdlua.Cleanup.Counters.{work_done-Balanced}
use tdlua.Cleanup.Drain.{work_done, end_work_at, end_work, occupy}
use tdlua.Cleanup.Steps.{restat-Invariant, and_left, and_right, and_both}

-- Every id.
abbrev pub all : ℕ → Bool
all j = true

-- Where the drain holds no other record, the laws of the others say the same.
given_back :
    (w : Work) (i j : ℕ) (o : Option Record)
    → (i == j) ≡ false
    → keeps_law w (some i) j o ≡ true
    → keeps_law no_work none j o ≡ true
given_back w i j none n h = refl
given_back w i j (some r) n h = ground (arith, n, h)

taken_hold :
    (w : Work) (i j : ℕ) (o : Option Record)
    → (i == j) ≡ false
    → keeps_law no_work none j o ≡ true
    → keeps_law w (some i) j o ≡ true
taken_hold w i j none n h = ground (arith, n)
taken_hold w i j (some r) n h = ground (arith, n, h)

pub end_work-Invariant :
    (w : Work) (i : ℕ) (throws : Bool) (l : Cleanup)
    → Invariant w (some i) all l
    → Invariant no_work none all (end_work i w throws l)
unfolding end_work
end_work-Invariant w i throws l inv = split (lookup i l.records) refl
  where
    done :
        (r : Record)
        → lookup i l.records ≡ some r
        → may_settle no_work none i (some (work_done throws w (r, l.stats)).0) ≡ true
    done r e =
        let h = ap (keeps_law w (some i) i) (sym e) ∙ inv.2 i in
        let lawful = and_left (is_lawful w r) (same_bit r.busy (i == i)) h in
        and_both (is_settling no_work (work_done throws w (r, l.stats)).0)
          (same_bit (work_done throws w (r, l.stats)).0.busy false)
          (work_done-settling w r l.stats lawful throws
            (ground (arith, and_right (is_lawful w r) (same_bit r.busy (i == i)) h, ==_refl i)))
          (ap (λ b. same_bit b false) (work_done-busy w r l.stats lawful throws))

    split :
        (o : Option Record)
        → lookup i l.records ≡ o
        → Invariant no_work none all (end_work_at i w throws o l)
    split none e = absurd (ground (arith, ap (keeps_law w (some i) i) e, inv.2 i, ==_refl i))
    split (some r) e =
        let p = work_done throws w (r, l.stats) in
        let b = work_done-Balanced throws w (r, l.stats) (lookup-Covers i r l e inv.1) in
        let k = work_done-Linked throws w r l.stats in
        retire-Invariant no_work none all i (refresh_work i (put i p l)) (
          refresh-Upheld (settles_at i no_work none) all i (put i p l) (settles-core i no_work none)
            (put-Upheld w (some i) all i r p l inv e b k (settles_at i no_work none) (but i all)
              (λ j.
                ap (settles_at i no_work none j) (lookup-insert i j p.0 l.records)
                ∙ ground (
                  arith,
                  at_same (λ x. may_settle no_work none x (some p.0)) true i (done r e) j,
                  given_back w i j (lookup j l.records),
                  inv.2 j,
                ))
              (others_wait w (some i) all i r p l inv e b k)))

suitable :
    (l : Cleanup) (r : Record)
    → is_lawful no_work r ≡ true
    → r.busy ≡ false
    → same_work no_work (desired l.failed r) ≡ false
    → is_lawful (desired l.failed r) (record r { busy = true }) ≡ true
unfolding desired is_ready
suitable l r h b n = ground (arith, h)

-- The record after `unlink`, which leaves it without work, and where the drain marks it busy.
abbrev busy : Record → Record
busy r = record r { busy = true }

marked :
    (i : ℕ) (l : Cleanup) (r : Record)
    → lookup i l.records ≡ some r
    → modify i busy l ≡ put i (busy r, l.stats) l
unfolding modify
marked i l r e = ap (λ o. record l { records = modify_at i busy o l.records }) e

unlinked-Invariant :
    (i : ℕ) (l : Cleanup)
    → Invariant no_work none all l
    → is_some (lookup i l.records) ≡ true
    → Invariant no_work none (but i all) (unlink i l)
unlinked-Invariant i l (s, c, k, n, (a, h, v)) e =
    let kept = unlink-Kept i l s in
    (
      kept.0,
      Kept-Counted l (unlink i l) kept c,
      λ j.
          same_lookup (keeps_law no_work none j) j l (unlink i l) kept (law-core no_work none j)
          ∙ k j,
      Kept-Known l (unlink i l) kept n,
      (
        requeue i (work_at (lookup i l.records)) no_work a,
        subst (Represents (unlink i l)) (only_leaves i (work_at (lookup i l.records)) a)
            (unlink-Represents i l a h),
        λ j g. (
          ap (same_work close) (same_wanted j l (unlink i l) kept)
              ∙ ground (
                arith,
                g,
                v j refl,
                requeue-closing i j (work_at (lookup i l.records)) no_work a h.0.0 (sym (h.0.3 i)),
              ),
          ap (same_work notify) (same_wanted j l (unlink i l) kept)
              ∙ ground (
                arith,
                g,
                v j refl,
                requeue-notifying i j (work_at (lookup i l.records)) no_work a h.1.0
                    (sym (h.1.3 i)),
              ),
        ),
      ),
    )

busy-Waiting :
    (i : ℕ) (r : Record) (l : Cleanup) (a : Lines)
    → lookup i l.records ≡ some r
    → same_work no_work r.work ≡ true
    → Represents l a
    → Waiting (but i all) l a
    → Waiting all (put i (busy r, l.stats) l) a
unfolding desired
busy-Waiting i r l a e f h v j g = (
  ap (λ x. same_work close (wanted l x)) (lookup-insert i j (busy r) l.records)
      ∙ ground (
        arith,
        v j,
        at_same (λ x. mem x a.closing) false i
            (sym (h.0.3 i)
              ∙ ap (λ o. same_work close (work_at o)) e
              ∙ one_work no_work close (some r) refl f)
            j,
      ),
  ap (λ x. same_work notify (wanted l x)) (lookup-insert i j (busy r) l.records)
      ∙ ground (
        arith,
        v j,
        at_same (λ x. mem x a.notifying) false i
            (sym (h.1.3 i)
              ∙ ap (λ o. same_work notify (work_at o)) e
              ∙ one_work no_work notify (some r) refl f)
            j,
      ),
)

fits : Work → Option Record → Bool
fits w none = false
fits w (some r) = is_lawful w (busy r)

fits-core : (w : Work) (o : Option Record) → fits w o ≡ fits w (changed true idle_record o)
unfolding fits is_ready
fits-core w o = ground arith

marked-Invariant :
    (w : Work) (i : ℕ) (r : Record) (l : Cleanup)
    → Invariant no_work none (but i all) l
    → lookup i l.records ≡ some r
    → same_work no_work r.work ≡ true
    → is_lawful w (busy r) ≡ true
    → Invariant w (some i) all (put i (busy r, l.stats) l)
marked-Invariant w i r l inv e f m =
    put-Upheld no_work none (but i all) i r (busy r, l.stats) l inv e (λ c. ground arith)
      (refl, refl, refl) (keeps_law w (some i)) all
      (λ j.
        ap (keeps_law w (some i) j) (lookup-insert i j (busy r) l.records)
        ∙ ground (arith, m, inv.2 j, taken_hold w i j (lookup j l.records)))
      (λ a. busy-Waiting i r l a e f)

-- `occupy` holds the record for the work that it had.
pub occupy-Invariant :
    (w : Work) (i : ℕ) (l : Cleanup) (r : Record)
    → Invariant no_work none all l
    → lookup i l.records ≡ some r
    → same_work no_work w ≡ false
    → desired l.failed r ≡ w
    → Invariant w (some i) all (occupy i l)
unfolding fits
occupy-Invariant w i l r inv e n f =
    let h = ap (keeps_law no_work none i) (sym e) ∙ inv.2 i in
    let fit =
      subst (λ x. is_lawful x (busy r) ≡ true) f
        (suitable l r (and_left (is_lawful no_work r) (same_bit r.busy false) h)
          (ground (arith, and_right (is_lawful no_work r) (same_bit r.busy false) h))
          (ap (same_work no_work) f ∙ n)) in
    let there = unlink-Waits i l (ap is_some e) in
    elim (Option-cases (lookup i (unlink i l).records)) [
      | inl g ↦ absurd (ground (arith, ap is_some g, there.0))
      | inr (r', g) ↦
          restat-Invariant w (some i) all (modify i busy (unlink i l))
            (record (modify i busy (unlink i l)).stats {
              record_visits = suc (modify i busy (unlink i l)).stats.record_visits;
            })
            (modify i busy (unlink i l)).invariant_broken
            (subst (Invariant w (some i) all) (sym (marked i (unlink i l) r' g)) (
              marked-Invariant w i r' (unlink i l) (unlinked-Invariant i l inv (ap is_some e)) g
                (ap (λ o. same_work no_work (work_at o)) (sym g) ∙ there.1)
                (ap (fits w) (sym g)
                  ∙ same_lookup (fits w) i l (unlink i l) (unlink-Kept i l inv.0) (fits-core w)
                  ∙ ap (fits w) e
                  ∙ fit)))
            (λ c. ground arith)
    ]
