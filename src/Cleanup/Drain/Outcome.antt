-- ===== src/Cleanup/Drain/Outcome.antt =====
-- `drain` ends quiescent only where it has retired every record.
use tdlua.Prelude.{
  ℕ, ◌≡◌, refl, ap, subst, Bool, true, false, Option, none, some, List, [], ◌∷◌, arith,
  if◌then◌else◌, if_both, if_split, nonzero, lookup,
}
use tdlua.Cleanup.{no_work, Cleanup}
use tdlua.Cleanup.Invariant.{Invariant}
use tdlua.Cleanup.Ledger.{Reply, returns, raises, observe}
use tdlua.Cleanup.Drain.{end_work, occupy, work_of}
use tdlua.Cleanup.{quiescent, deadline, error}
use tdlua.Cleanup.Shut.{act_all-Shut}
use tdlua.Cleanup.Drain.{
  Action, act_all, set_phase, stop_drain, is_quiet, first_work, count_abandoned, observed,
  received_in, take_work, drain_round, Received, nothing, receive_throws, item, Round, Turn, over,
  goes_on,
}
use tdlua.Cleanup.Drain.Hold.{all}
use tdlua.Cleanup.Shut.{act_all-Invariant}
use tdlua.Cleanup.Drain.{
  is_over, drain_loop, visit_all, begin_drain, end_lease, drain_waited, drain,
}
use tdlua.Cleanup.Drain.Rounds.{Draining, drain_round-Draining}
use tdlua.Cleanup.Shut.{act_all-failed}
use tdlua.Cleanup.Drain.Quiescence.{
  visit_all-Invariant, visit_all-Shut, nothing_missing, begin_drain-Invariant, quiet-empty,
}

-- A ledger that is quiescent has no record.
abbrev pub Done : Cleanup → Type 0
Done l = l.stats.phase ≡ quiescent → l.records ≡ []

failed-Done : (l : Cleanup) → l.stats.phase ≡ error → Done l
failed-Done l e h = absurd (ground (arith, e, h))

late-Done : (l : Cleanup) → l.stats.phase ≡ deadline → Done l
late-Done l e h = absurd (ground (arith, e, h))

-- Work and receives end a drain by an error alone.
abbrev OverDone : Turn × Cleanup → Type 0
OverDone x = x.0 ≡ over → Done x.1

stop-OverDone : (l : Cleanup) → OverDone (stop_drain l)
stop-OverDone l e = failed-Done (stop_drain l).1 refl

on-OverDone : (l : Cleanup) → OverDone (goes_on, l)
on-OverDone l e = absurd (ground (arith, e))

received-OverDone : (x : Received) (l : Cleanup) → OverDone (received_in x l)
received-OverDone nothing l = on-OverDone l
received-OverDone receive_throws l = stop-OverDone l
received-OverDone (item i terminal) l = split (observe i terminal l).0 (observe i terminal l).1
  where
    split : (x : Reply Bool) (l' : Cleanup) → OverDone (observed (x, l'))
    split (returns b) l' = on-OverDone (count_abandoned l')
    split (raises e) l' = stop-OverDone l'

take-OverDone : (s : Round) (x : Option ℕ) (l : Cleanup) → OverDone (take_work s x l)
take-OverDone s none l = received-OverDone s.received (act_all l s.during)
take-OverDone s (some i) l =
    let l' = end_work i (work_of (lookup i l.records)) s.throws (act_all (occupy i l) s.during) in
    if_both OverDone s.throws (stop-OverDone l') (on-OverDone l')

round-OverDone : (s : Round) (l : Cleanup) → Draining l → OverDone (drain_round s l)
unfolding drain_round
round-OverDone s l₀ h =
    let l = act_all l₀ s.before in
    let d = act_all-Shut no_work none all l₀ s.before h.0 h.1 in
    if_both OverDone l.invariant_broken (λ e. failed-Done (set_phase error l) refl)
      (if_split OverDone (is_quiet l) (λ q e f. quiet-empty l d q)
        (λ q.
          if_both OverDone s.late (λ e. late-Done (set_phase deadline l) refl)
            (take-OverDone s (first_work l.notifies.head l.closes.head) l)))

inside : Cleanup → Option Cleanup → Cleanup
inside l none = l
inside l (some l') = l'

same_inside : (l l' : Cleanup) → some l ≡ some l' → l ≡ l'
unfolding inside
same_inside l l' e = ap (inside l) e

drain_loop-Done :
    (rounds : List Round) (l l' : Cleanup) → Draining l → drain_loop rounds l ≡ some l' → Done l'
unfolding drain_loop
drain_loop-Done [] l l' d e = cc
drain_loop-Done (s ∷ rest) l l' d e =
    split (drain_round s l).0 refl
      (drain_loop-Done rest (drain_round s l).1 l' (drain_round-Draining s l d))
  where
    ended : Turn → Type 0
    ended t =
        (if is_over t then some (drain_round s l).1 else drain_loop rest (drain_round s l).1)
        ≡ some l'

    split :
        (t : Turn)
        → (drain_round s l).0 ≡ t
        → (drain_loop rest (drain_round s l).1 ≡ some l' → Done l')
        → Done l'
    split over t ih =
        subst Done (same_inside (drain_round s l).1 l' (subst ended t e)) (round-OverDone s l d t)
    split goes_on t ih = ih (subst ended t e)

-- The drain after its begin: the ledger has failed, and the lists are not yet those of the records.
waited-Done :
    (in_time : Bool) (rounds : List Round) (l l' : Cleanup)
    → Invariant no_work none (λ j. false) l
    → l.failed ≡ true
    → drain_waited in_time rounds l ≡ some l'
    → Done l'
waited-Done in_time rounds l l' inv f =
    if_split D l.invariant_broken
      (λ b e.
        subst Done (same_inside (set_phase error l) l' e) (failed-Done (set_phase error l) refl))
      (λ b.
        if_split D (nonzero l.stats.active_sends)
          (λ n.
            if_both D in_time (λ e. cc)
              (λ e.
                subst Done (same_inside (set_phase deadline l) l' e)
                  (late-Done (set_phase deadline l) refl)))
          (λ n. drain_loop-Done rounds (visit_all l.records l) l' (
            visit_all-Invariant l.records l (nothing_missing (λ j. false) l inv),
            visit_all-Shut l.records l inv.0 (f, ground (arith, n)),
          )))
  where
    D : Option Cleanup → Type 0
    D x = x ≡ some l' → Done l'

leased-Done :
    (o : Option Cleanup) (l' : Cleanup)
    → ((l : Cleanup) → o ≡ some l → Done l)
    → end_lease o ≡ some l'
    → Done l'
leased-Done none l' h e = cc
leased-Done (some l) l' h e =
    subst Done (same_inside (record l { draining = false }) l' e) (h l refl)

pub drain-Done :
    (waiting : List Action) (in_time : Bool) (rounds : List Round) (l l' : Cleanup)
    → Invariant no_work none all l
    → l.draining ≡ false
    → drain waiting in_time rounds l ≡ some l'
    → l'.stats.phase ≡ quiescent
    → l'.records ≡ []
unfolding drain
drain-Done waiting in_time rounds l l' inv f =
    if_both D l.invariant_broken
      (λ e.
        subst Done (same_inside (set_phase error l) l' e) (failed-Done (set_phase error l) refl))
      (if_split D l.draining (λ b. absurd (ground (arith, b, f)))
        (λ b. leased-Done (drain_waited in_time rounds (act_all (begin_drain l) waiting)) l' (λ x.
          waited-Done in_time rounds (act_all (begin_drain l) waiting) x
            (act_all-Invariant none (λ j. false) (begin_drain l) waiting
              (begin_drain-Invariant l inv))
            (act_all-failed (λ j. false) (begin_drain l) waiting (begin_drain-Invariant l inv)
              refl))))
  where
    D : Option Cleanup → Type 0
    D x = x ≡ some l' → Done l'
