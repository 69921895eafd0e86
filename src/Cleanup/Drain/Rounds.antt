-- ===== src/Cleanup/Drain/Rounds.antt =====
-- A round of the drain keeps the invariant.
use tdlua.Prelude.{
  ℕ, ◌≡◌, refl, ◌∙◌, sym, Bool, true, false, Option, none, some, List, [], ◌∷◌, arith,
  if◌then◌else◌, if_both, if_split, lookup,
}
use tdlua.Prelude.Keys.{Sorted, insert-Sorted}
use tdlua.Cleanup.{Work, no_work, close, notify, Record, Stats, Cleanup}
use tdlua.Cleanup.Queues.{same_work, desired, unlink}
use tdlua.Cleanup.Queues.Chain.{mem, first}
use tdlua.Cleanup.Queues.Effects.{work_at}
use tdlua.Cleanup.Queues.Requeue.{wanted}
use tdlua.Cleanup.Cores.{unlink-Kept}
use tdlua.Cleanup.Ledger.{put, settle}
use tdlua.Cleanup.Counters.{Counter, of_active, count}
use tdlua.Cleanup.Invariant.{Invariant}
use tdlua.Cleanup.Ledger.{Reply, returns, raises, mark_close_sent, set_uncertain, observe}
use tdlua.Cleanup.Queues.{modify}
use tdlua.Cleanup.Drain.{work_done, end_work_at, end_work, occupy, work_of}
use tdlua.Cleanup.Steps.{restat-Invariant}
use tdlua.Cleanup.{quiescent, deadline, error}
use tdlua.Cleanup.Steps.{observe-Invariant}
use tdlua.Cleanup.Shut.{Shut, settle-Steady, observe-Steady, act_all-Shut, Kept-Steady, Steady-Shut}
use tdlua.Cleanup.Drain.{
  Action, act_all, set_phase, stop_drain, is_quiet, first_work, count_abandoned, observed,
  received_in, performed, take_work, drain_round, Received, nothing, receive_throws, item, Round,
  Turn, over,
}
use tdlua.Cleanup.Drain.Hold.{all, end_work-Invariant, occupy-Invariant}

-- What a drain that goes on keeps.
abbrev pub Draining : Cleanup → Type 0
Draining l = Invariant no_work none all l × Shut l

restat-Draining :
    (l : Cleanup) (s : Stats)
    → Draining l
    → ((c : Counter) → count c s ≡ count c l.stats)
    → Draining (record l { stats = s })
restat-Draining l s (inv, (f, z)) e =
    (restat-Invariant no_work none all l s l.invariant_broken inv e, (f, e of_active ∙ z))

stop_drain-Draining : (l : Cleanup) → Draining l → Draining (stop_drain l).1
stop_drain-Draining l h = restat-Draining l (stop_drain l).1.stats h (λ c. ground arith)

work_done-sends :
    (throws : Bool) (w : Work) (r : Record) (s : Stats)
    → (work_done throws w (r, s)).1.active_sends ≡ s.active_sends
unfolding mark_close_sent set_uncertain
work_done-sends throws w r s = ground arith

end_work-Shut :
    (w : Work) (i : ℕ) (throws : Bool) (l : Cleanup)
    → Sorted l.records
    → Shut l
    → Shut (end_work i w throws l)
unfolding end_work
end_work-Shut w i throws l s h = split (lookup i l.records)
  where
    split : (o : Option Record) → Shut (end_work_at i w throws o l)
    split none = h
    split (some r) =
        let p = work_done throws w (r, l.stats) in
        Steady-Shut l (settle i (put i p l))
          (settle-Steady i l (put i p l) (insert-Sorted i p.0 l.records s)
            (refl, work_done-sends throws w r l.stats))
          h

pub occupy-Shut : (i : ℕ) (l : Cleanup) → Sorted l.records → Shut l → Shut (occupy i l)
unfolding modify
occupy-Shut i l s h = Steady-Shut l (occupy i l) (Kept-Steady l (unlink i l) (unlink-Kept i l s)) h

worked-Draining :
    (w : Work) (i : ℕ) (r : Record) (l : Cleanup) (during : List Action) (throws : Bool)
    → Draining l
    → lookup i l.records ≡ some r
    → same_work no_work w ≡ false
    → desired l.failed r ≡ w
    → Draining (end_work i w throws (act_all (occupy i l) during))
worked-Draining w i r l during throws (inv, h) e n f =
    let held = occupy-Invariant w i l r inv e n f in
    let (later, shut) =
      act_all-Shut w (some i) all (occupy i l) during held (occupy-Shut i l inv.0 h) in
    (
      end_work-Invariant w i throws (act_all (occupy i l) during) later,
      end_work-Shut w i throws (act_all (occupy i l) during) later.0 shut,
    )

received-Draining : (x : Received) (l : Cleanup) → Draining l → Draining (received_in x l).1
received-Draining nothing l h = h
received-Draining receive_throws l h = stop_drain-Draining l h
received-Draining (item i terminal) l (inv, h) =
    split (observe i terminal l).0 (observe i terminal l).1 (
      observe-Invariant no_work none all l inv i terminal refl,
      Steady-Shut l (observe i terminal l).1 (observe-Steady l inv.0 i terminal) h,
    )
  where
    split : (x : Reply Bool) (l' : Cleanup) → Draining l' → Draining (observed (x, l')).1
    split (returns b) l' h = restat-Draining l' (count_abandoned l').stats h (λ c. ground arith)
    split (raises e) l' h = stop_drain-Draining l' h

-- The record at the head of a queue has its work, and needs it.
pub first-mem : (i : ℕ) (xs : List ℕ) → first xs ≡ some i → mem i xs ≡ true
first-mem i [] h = cc
first-mem i (x ∷ xs) h = ground (arith, h)

headed-Draining :
    (w : Work) (i : ℕ) (l : Cleanup) (during : List Action) (throws : Bool)
    → Draining l
    → same_work w no_work ≡ false
    → same_work w (work_at (lookup i l.records)) ≡ true
    → same_work w (wanted l (lookup i l.records)) ≡ true
    → Draining
        (performed throws
          (end_work i (work_of (lookup i l.records)) throws (act_all (occupy i l) during))).1
headed-Draining w i l during throws h n g f = split (lookup i l.records) refl g f
  where
    differs :
        (w v : Work)
        → same_work w v ≡ true
        → same_work w no_work ≡ false
        → same_work no_work v ≡ false
    differs w v e n = ground (arith, e, n)

    same : (w v : Work) → same_work w v ≡ true → v ≡ w
    same w v e = ground (arith, e)

    split :
        (o : Option Record)
        → lookup i l.records ≡ o
        → same_work w (work_at o) ≡ true
        → same_work w (wanted l o) ≡ true
        → Draining
            (performed throws (end_work i (work_of o) throws (act_all (occupy i l) during))).1
    split none e g f = absurd (ground (arith, g, n))
    split (some r) e g f =
        let d =
          worked-Draining r.work i r l during throws h e (differs w r.work g n)
            (same w (desired l.failed r) f ∙ sym (same w r.work g)) in
        if_split (λ (x : Turn × Cleanup). Draining x.1) throws
          (λ t. stop_drain-Draining (end_work i r.work throws (act_all (occupy i l) during)) d)
          (λ t. d)

take_work-Draining :
    (s : Round) (l : Cleanup)
    → Draining l
    → Draining (take_work s (first_work l.notifies.head l.closes.head) l).1
take_work-Draining s l ((o, c, k, n, (a, (close', notify', d), v)), shut) =
    split l.notifies.head l.closes.head refl refl
  where
    h : Draining l
    h = ((o, c, k, n, (a, (close', notify', d), v)), shut)

    split :
        (x y : Option ℕ)
        → l.notifies.head ≡ x
        → l.closes.head ≡ y
        → Draining (take_work s (first_work x y) l).1
    split (some i) y e f =
        let m = first-mem i a.notifying (sym notify'.1 ∙ e) in
        headed-Draining notify i l s.during s.throws h refl (notify'.3 i ∙ m) ((v i refl).1 ∙ m)
    split none (some i) e f =
        let m = first-mem i a.closing (sym close'.1 ∙ f) in
        headed-Draining close i l s.during s.throws h refl (close'.3 i ∙ m) ((v i refl).0 ∙ m)
    split none none e f =
        let (inv, later) = act_all-Shut no_work none all l s.during h.0 h.1 in
        received-Draining s.received (act_all l s.during) (inv, later)

pub drain_round-Draining : (s : Round) (l : Cleanup) → Draining l → Draining (drain_round s l).1
unfolding drain_round
drain_round-Draining s l h =
    drain_turn s (act_all l s.before) (act_all-Shut no_work none all l s.before h.0 h.1)
  where
    D : Turn × Cleanup → Type 0
    D x = Draining x.1

    drain_turn :
        (s : Round) (l : Cleanup)
        → Draining l
        → Draining
            (if l.invariant_broken
              then (over, set_phase error l)
              else if is_quiet l
              then (over, set_phase quiescent l)
              else if s.late
              then (over, set_phase deadline l)
              else take_work s (first_work l.notifies.head l.closes.head) l).1
    drain_turn s l h =
        if_both D l.invariant_broken
          (restat-Draining l (set_phase error l).stats h (λ c. ground arith))
          (if_both D (is_quiet l)
            (restat-Draining l (set_phase quiescent l).stats h (λ c. ground arith))
            (if_both D s.late (restat-Draining l (set_phase deadline l).stats h (λ c. ground arith))
              (take_work-Draining s l h)))
