-- ===== src/Cleanup/Drained.antt =====
-- What the drain of a failed ledger does.
use tdlua.Prelude.{
  ℕ, ◌≡◌, refl, ◌∙◌, sym, ap, subst, Bool, true, false, ◌&&◌, Option, none, some, List, [], ◌∷◌,
  ◌++◌, arith, ==_refl, is_some, if◌then◌else◌, if_both, if_split, lookup,
}
use tdlua.Cleanup.{Work, no_work, close, notify, Record, Cleanup}
use tdlua.Cleanup.Queues.{same_work, desired}
use tdlua.Cleanup.Queues.Effects.{work_at}
use tdlua.Cleanup.Queues.Refinement.{swapped}
use tdlua.Cleanup.Queues.Requeue.{wanted}
use tdlua.Cleanup.Laws.{is_lawful}
use tdlua.Cleanup.Invariant.{same_bit, Invariant, keeps_law}
use tdlua.Cleanup.Laws.{suits}
use tdlua.Cleanup.Drain.{occupy}
use tdlua.Cleanup.{quiescent}
use tdlua.Cleanup.Shut.{act_all-Shut}
use tdlua.Cleanup.Drain.{Action, act_all, is_quiet, drain_round, Round, Turn, over}
use tdlua.Cleanup.Drain.Hold.{all, occupy-Invariant}
use tdlua.Cleanup.Drain.{is_over, drain_loop, visit_all, begin_drain, drain}
use tdlua.Cleanup.Drain.Rounds.{Draining, occupy-Shut}
use tdlua.Cleanup.Drain.Outcome.{drain-Done}
use tdlua.Cleanup.Reached.{Use, life, life-Invariant}
use tdlua.Cleanup.Shut.{act_all-failed, act_all-Invariant}
use tdlua.Cleanup.Drain.Rounds.{drain_round-Draining}
use tdlua.Cleanup.Drain.Quiescence.{
  visit_all-Invariant, visit_all-Shut, nothing_missing, begin_drain-Invariant,
}

-- Where the ledger has been used in any way and no other drain runs, a drain that returns in the
-- phase `Quiescent` has retired every record: whatever other threads, which do not observe TDLib,
-- do while it waits and in each of its rounds, and whatever TDLib sends or throws.
pub drain-empty :
    (us : List Use) (waiting : List Action) (in_time : Bool) (rounds : List Round) (l : Cleanup)
    → (life us).draining ≡ false
    → drain waiting in_time rounds (life us) ≡ some l
    → l.stats.phase ≡ quiescent
    → l.records ≡ []
drain-empty us waiting in_time rounds l =
    drain-Done waiting in_time rounds (life us) l (life-Invariant us)

same_both :
    (x y : Work)
    → same_work close x ≡ same_work close y
    → same_work notify x ≡ same_work notify y
    → x ≡ y
same_both x y e f = ground (arith, e, f)

-- A record has the work that it needs.
due :
    (l : Cleanup) (i : ℕ) (r : Record)
    → Invariant no_work none all l
    → lookup i l.records ≡ some r
    → desired l.failed r ≡ r.work
due l i r inv e =
    let (a, h, v) = inv.4 in
    same_both (desired l.failed r) r.work
      (ap (λ o. same_work close (wanted l o)) (sym e)
        ∙ (v i refl).0
        ∙ sym (h.0.3 i)
        ∙ ap (λ o. same_work close (work_at o)) e)
      (ap (λ o. same_work notify (wanted l o)) (sym e)
        ∙ (v i refl).1
        ∙ sym (h.1.3 i)
        ∙ ap (λ o. same_work notify (work_at o)) e)

held_law :
    (w : Work) (r : Record)
    → (is_lawful w r && same_bit r.busy true) ≡ true
    → (r.busy ≡ true) × (suits w r ≡ true)
held_law w r h = (ground (arith, h), ground (arith, h))

held_lem :
    (w : Work) (i : ℕ) (l : Cleanup)
    → Invariant w (some i) all l
    → ((r : Record) × (lookup i l.records ≡ some r) × (r.busy ≡ true) × (suits w r ≡ true))
held_lem w i l inv = split (lookup i l.records) refl
  where
    split :
        (o : Option Record)
        → lookup i l.records ≡ o
        → ((r : Record) × (lookup i l.records ≡ some r) × (r.busy ≡ true) × (suits w r ≡ true))
    split none e = absurd (ground (arith, ap (keeps_law w (some i) i) e, inv.2 i, ==_refl i))
    split (some r) e =
        let h = held_law w r (
          ap (λ b. is_lawful w r && same_bit r.busy b) (sym (==_refl i))
          ∙ ap (keeps_law w (some i) i) (sym e)
          ∙ inv.2 i) in
        (r, e, h.0, h.1)

held_work :
    (l : Cleanup) (i : ℕ) (r : Record) (actions : List Action)
    → Draining l
    → lookup i l.records ≡ some r
    → same_work r.work no_work ≡ false
    → ((r' : Record) × (lookup i (act_all (occupy i l) actions).records ≡ some r')
        × (r'.busy ≡ true)
        × (suits r.work r' ≡ true))
held_work l i r actions (inv, shut) e n =
    let w = r.work in
    let held = occupy-Invariant w i l r inv e (swapped w no_work n) (due l i r inv e) in
    held_lem w i (act_all (occupy i l) actions)
      (act_all-Shut w (some i) all (occupy i l) actions held (occupy-Shut i l inv.0 shut)).0

-- The drain after its begin, the operations of others while it waits, its visit of every record,
-- and rounds that went on.
unfoldable pub after_wait : List Use → List Action → Cleanup
after_wait us waiting = act_all (begin_drain (life us)) waiting

abbrev pub visited : Cleanup → Cleanup
visited l = visit_all l.records l

unfoldable pub after_rounds : List Round → Cleanup → Cleanup
after_rounds [] l = l
after_rounds (s ∷ rest) l = after_rounds rest (drain_round s l).1

after_rounds-Draining :
    (rounds : List Round) (l : Cleanup) → Draining l → Draining (after_rounds rounds l)
unfolding after_rounds
after_rounds-Draining [] l h = h
after_rounds-Draining (s ∷ rest) l h =
    after_rounds-Draining rest (drain_round s l).1 (drain_round-Draining s l h)

visited-Draining :
    (us : List Use) (waiting : List Action)
    → (after_wait us waiting).stats.active_sends ≡ 0
    → Draining (visited (after_wait us waiting))
unfolding after_wait
visited-Draining us waiting z =
    let l = begin_drain (life us) in
    let b = begin_drain-Invariant (life us) (life-Invariant us) in
    let inv = act_all-Invariant none (λ j. false) l waiting b in
    let l' = act_all l waiting in
    (
      visit_all-Invariant l'.records l' (nothing_missing (λ j. false) l' inv),
      visit_all-Shut l'.records l' inv.0 (act_all-failed (λ j. false) l waiting b refl, z),
    )

-- While a drain that has waited for the active sends performs the work of a record, in any round,
-- the operations of other threads, which do not observe TDLib, neither erase that record nor end
-- its hold, and the work stays due: a client to close is materialized, and one to notify of is
-- terminal, or neither materialized nor uncertain and without active sends.
pub held_stays :
    (us : List Use) (waiting : List Action) (rounds : List Round) (i : ℕ) (r : Record)
    (actions : List Action)
    → (after_wait us waiting).stats.active_sends ≡ 0
    → lookup i (after_rounds rounds (visited (after_wait us waiting))).records ≡ some r
    → same_work r.work no_work ≡ false
    → ((r' : Record) × (lookup i
            (act_all
              (occupy i (after_rounds rounds (visited (after_wait us waiting))))
              actions).records
          ≡ some r')
        × (r'.busy ≡ true)
        × (suits r.work r' ≡ true))
held_stays us waiting rounds i r actions z =
    held_work (after_rounds rounds (visited (after_wait us waiting))) i r actions (
      after_rounds-Draining rounds (visited (after_wait us waiting))
        (visited-Draining us waiting z))

-- Once a drain has waited for the active sends, no operation of other threads, in any round, makes
-- a send active.
pub no_send :
    (us : List Use) (waiting : List Action) (rounds : List Round) (actions : List Action)
    → (after_wait us waiting).stats.active_sends ≡ 0
    → (act_all (after_rounds rounds (visited (after_wait us waiting))) actions).stats.active_sends
      ≡ 0
no_send us waiting rounds actions z =
    let (inv, h) =
      after_rounds-Draining rounds (visited (after_wait us waiting))
        (visited-Draining us waiting z) in
    (act_all-Shut no_work none all (after_rounds rounds (visited (after_wait us waiting))) actions
      inv h).1.1

late_over : (s : Round) (l : Cleanup) → s.late ≡ true → (drain_round s l).0 ≡ over
unfolding drain_round
late_over s l₀ h =
    let l = act_all l₀ s.before in
    if_both P l.invariant_broken refl (
      if_both P (is_quiet l) refl
        (if_split P s.late (λ e. refl) (λ e. absurd (ground (arith, e, h)))))
  where
    P : Turn × Cleanup → Type 0
    P x = x.0 ≡ over

-- A drain loop returns where one of its rounds finds that the deadline has passed, whatever happens
-- in the rounds before it.
pub drain_loop-returns :
    (rounds rest : List Round) (s : Round) (l : Cleanup)
    → s.late ≡ true
    → is_some (drain_loop (rounds ++ s ∷ rest) l) ≡ true
unfolding drain_loop
drain_loop-returns [] rest s l h =
    subst
      (λ t.
        is_some
          (if is_over t then some (drain_round s l).1 else drain_loop rest (drain_round s l).1)
        ≡ true)
      (sym (late_over s l h)) refl
drain_loop-returns (x ∷ rounds) rest s l h =
    if_both (λ (o : Option Cleanup). is_some o ≡ true) (is_over (drain_round x l).0) refl
      (drain_loop-returns rounds rest s (drain_round x l).1 h)
