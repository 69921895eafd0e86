-- ===== src/Cleanup/Shut.antt =====
-- After the ledger has failed and its sends have ended, no send comes again.
use tdlua.Prelude.{
  ℕ, ◌≤◌, ◌≡◌, refl, ◌∙◌, ap, Bool, true, false, Option, none, some, List, [], ◌∷◌, arith, if_both,
  if_split, nonzero, lookup,
}
use tdlua.Prelude.Int.{pos}
use tdlua.Prelude.Keys.{Sorted, insert-Sorted}
use tdlua.Identity.{contains}
use tdlua.Cleanup.{Work, no_work, Record, Stats, Cleanup}
use tdlua.Cleanup.Queues.{unlink, refresh_work, is_ready, retire_at, retire_if_ready}
use tdlua.Cleanup.Cores.{Kept, unlink-Kept, refresh_work-Kept}
use tdlua.Cleanup.Counters.{Counted}
use tdlua.Cleanup.Ledger.{put, settle}
use tdlua.Cleanup.Counters.{of_active, lookup-Covers}
use tdlua.Cleanup.Invariant.{Invariant}
use tdlua.Cleanup.Ledger.{
  Reply, materialize, set_uncertain, register_client, begin_send, conclude, unpinned, end_at,
  end_send, witness, observe_at, observe, acknowledge_at, acknowledge_terminal, is_used, waive,
  retire_unused_at, retire_unused, retire_reserved_at, retire_reserved, reject_at, reject_shutdown,
}
use tdlua.Cleanup.Drain.{
  Action, registers, acknowledges, retires_unused, retires_reserved, rejects_shutdown, begins_send,
  ends_send, act, act_all,
}
use tdlua.Cleanup.Entry.{act-Invariant}

abbrev pub Shut : Cleanup → Type 0
Shut l = (l.failed ≡ true) × (l.stats.active_sends ≡ 0)

-- What no step but the sends' own touches.
abbrev pub Steady : Cleanup → Cleanup → Type 0
Steady l l' = (l'.failed ≡ l.failed) × (l'.stats.active_sends ≡ l.stats.active_sends)

pub Kept-Steady : (l l' : Cleanup) → Kept l l' → Steady l l'
Kept-Steady l l' k = (ap (λ x. x.failed) k.2, ap (λ x. x.stats.active_sends) k.2)

pub refresh-Steady :
    (i : ℕ) (l l' : Cleanup) → Sorted l'.records → Steady l l' → Steady l (refresh_work i l')
refresh-Steady i l l' s (f, a) =
    let k = Kept-Steady l' (refresh_work i l') (refresh_work-Kept i l' s) in (k.0 ∙ f, k.1 ∙ a)

retire-Steady : (i : ℕ) (l : Cleanup) → Sorted l.records → Steady l (retire_if_ready i l)
unfolding retire_if_ready
retire-Steady i l s = split (lookup i l.records)
  where
    split : (o : Option Record) → Steady l (retire_at i o l)
    split none = (refl, refl)
    split (some r) =
        if_split (Steady l) (is_ready r) (λ e. Kept-Steady l (unlink i l) (unlink-Kept i l s))
          (λ e. (refl, refl))

pub settle-Steady :
    (i : ℕ) (l l' : Cleanup) → Sorted l'.records → Steady l l' → Steady l (settle i l')
settle-Steady i l l' s h =
    let k = refresh-Steady i l l' s h in
    let m = retire-Steady i (refresh_work i l') (refresh_work-Kept i l' s).0 in
    (m.0 ∙ k.0, m.1 ∙ k.1)

witness-sends :
    (terminal : Bool) (r : Record) (s : Stats)
    → (witness terminal (r, s)).1.active_sends ≡ s.active_sends
unfolding materialize set_uncertain
witness-sends terminal r s = ground arith

module _ (l : Cleanup) (s : Sorted l.records) where
  put_settled :
      (i : ℕ) (p : Record × Stats)
      → p.1.active_sends ≡ l.stats.active_sends
      → Steady l (settle i (put i p l))
  put_settled i p e = settle-Steady i l (put i p l) (insert-Sorted i p.0 l.records s) (refl, e)

  waived : (i : ℕ) (r : Record) → Steady l (settle i (put i (waive (r, l.stats)) l))
  waived i r = put_settled i (waive (r, l.stats)) (ground arith)

  acknowledge-Steady : (i : ℕ) → Steady l (acknowledge_terminal i l).1
  unfolding acknowledge_terminal
  acknowledge-Steady i = split (lookup i l.records)
    where
      split : (o : Option Record) → Steady l (acknowledge_at i o l).1
      split none = (refl, refl)
      split (some r) =
          if_split (λ (x : Reply (Unit {0}) × Cleanup). Steady l x.1) r.terminal
            (λ e. put_settled i (record r { notified = true }, l.stats) refl) (λ e. (refl, refl))

  retire_unused-Steady : (i : ℕ) → Steady l (retire_unused i l).1
  unfolding retire_unused
  retire_unused-Steady i = split (lookup i l.records)
    where
      split : (o : Option Record) → Steady l (retire_unused_at i o l).1
      split none = (refl, refl)
      split (some r) =
          if_split (λ (x : Reply (Unit {0}) × Cleanup). Steady l x.1) (is_used r)
            (λ e. (refl, refl)) (λ e. waived i r)

  retire_reserved-Steady : (i : ℕ) → Steady l (retire_reserved i l).1
  unfolding retire_reserved
  retire_reserved-Steady i = split (lookup i l.records)
    where
      split : (o : Option Record) → Steady l (retire_reserved_at i o l).1
      split none = (refl, refl)
      split (some r) =
          if_split (λ (x : Bool × Cleanup). Steady l x.1) (is_used r) (λ e. (refl, refl))
            (λ e. waived i r)

  reject-Steady : (i : ℕ) → l.failed ≡ true → Steady l (reject_shutdown i l)
  unfolding reject_shutdown
  reject-Steady i f = split (lookup i l.records)
    where
      split : (o : Option Record) → Steady l (reject_at i o l)
      split none = (refl, refl)
      split (some r) = rw f (refl, refl)

  pub observe-Steady : (i : ℕ) (terminal : Bool) → Steady l (observe i terminal l).1
  unfolding observe
  observe-Steady i terminal = split (lookup i l.records)
    where
      split : (o : Option Record) → Steady l (observe_at i terminal o l).1
      split none =
          if_split (λ (x : Reply Bool × Cleanup). Steady l x.1) (contains l.history (pos i))
            (λ e. (refl, refl)) (λ e. (refl, refl))
      split (some r) =
          refresh-Steady i l (put i (witness terminal (r, l.stats)) l)
            (insert-Sorted i (witness terminal (r, l.stats)).0 l.records s)
            (refl, witness-sends terminal r l.stats)

-- With no send active, an end of a send is one that never began.
end_send-Steady :
    (i : ℕ) (closing success : Bool) (l : Cleanup)
    → Counted l
    → l.stats.active_sends ≡ 0
    → Steady l (end_send i closing success l)
unfolding end_send
end_send-Steady i closing success l c z = split (lookup i l.records) refl
  where
    split : (o : Option Record) → lookup i l.records ≡ o → Steady l (end_at i closing success o l)
    split none e = (refl, refl)
    split (some r) e = rw (no_send r (lookup-Covers i r l e c of_active)) (refl, refl)
      where
        no_send : (r : Record) → r.active ≤ l.stats.active_sends → nonzero r.active ≡ false
        no_send r h = ground (arith, z)

register-Shut : (i : ℕ) (l : Cleanup) → Shut l → Shut (register_client i l).1
unfolding register_client
register-Shut i l (f, z) = rw f (refl, z)

begin-Shut : (i : ℕ) (closing : Bool) (l : Cleanup) → Shut l → Shut (begin_send i closing l).1
unfolding begin_send
begin-Shut i true l (f, z) = rw f (refl, z)
begin-Shut i false l (f, z) = rw f (refl, z)

pub Steady-Shut : (l l' : Cleanup) → Steady l l' → Shut l → Shut l'
Steady-Shut l l' (f, a) (g, z) = (f ∙ g, a ∙ z)

pub act-Shut :
    (w : Work) (held : Option ℕ) (seen : ℕ → Bool) (l : Cleanup) (a : Action)
    → Invariant w held seen l
    → Shut l
    → Shut (act l a)
unfolding act
act-Shut w held seen l (registers i) inv (f, z) = register-Shut i l (f, z)
act-Shut w held seen l (begins_send i closing) inv (f, z) = begin-Shut i closing l (f, z)
act-Shut w held seen l (ends_send i closing success) inv (f, z) =
    Steady-Shut l (end_send i closing success l) (end_send-Steady i closing success l inv.1 z)
      (f, z)
act-Shut w held seen l (acknowledges i) inv h =
    Steady-Shut l (acknowledge_terminal i l).1 (acknowledge-Steady l inv.0 i) h
act-Shut w held seen l (retires_unused i) inv h =
    Steady-Shut l (retire_unused i l).1 (retire_unused-Steady l inv.0 i) h
act-Shut w held seen l (retires_reserved i) inv h =
    Steady-Shut l (retire_reserved i l).1 (retire_reserved-Steady l inv.0 i) h
act-Shut w held seen l (rejects_shutdown i) inv h =
    Steady-Shut l (reject_shutdown i l) (reject-Steady l inv.0 i h.0) h

-- Any sequence of the others' operations.
pub act_all-Invariant :
    (held : Option ℕ) (seen : ℕ → Bool) (l : Cleanup) (actions : List Action)
    → Invariant no_work held seen l
    → Invariant no_work held seen (act_all l actions)
unfolding act_all
act_all-Invariant held seen l [] inv = inv
act_all-Invariant held seen l (a ∷ rest) inv =
    act_all-Invariant held seen (act l a) rest
      (act-Invariant no_work held seen l inv (λ e. absurd (ground (arith, e))) a)

pub act_all-Shut :
    (w : Work) (held : Option ℕ) (seen : ℕ → Bool) (l : Cleanup) (actions : List Action)
    → Invariant w held seen l
    → Shut l
    → Invariant w held seen (act_all l actions) × Shut (act_all l actions)
unfolding act_all
act_all-Shut w held seen l [] inv h = (inv, h)
act_all-Shut w held seen l (a ∷ rest) inv h =
    act_all-Shut w held seen (act l a) rest (act-Invariant w held seen l inv (λ e. h.0) a)
      (act-Shut w held seen l a inv h)

-- Sends may end while the drain waits for them, but the ledger stays failed.
end_send-failed :
    (i : ℕ) (closing success : Bool) (l : Cleanup)
    → Sorted l.records
    → (end_send i closing success l).failed ≡ l.failed
unfolding end_send
end_send-failed i closing success l s = split (lookup i l.records)
  where
    split : (o : Option Record) → (end_at i closing success o l).failed ≡ l.failed
    split none = refl
    split (some r) =
        let l' = put i (conclude closing success (unpinned (r, l.stats))) l in
        if_both (λ (x : Cleanup). x.failed ≡ l.failed) (nonzero r.active)
          (settle-Steady i l' l'
            (insert-Sorted i (conclude closing success (unpinned (r, l.stats))).0 l.records s)
            (refl, refl)).0
          refl

act-failed :
    (l : Cleanup) (a : Action) → Sorted l.records → l.failed ≡ true → (act l a).failed ≡ true
unfolding act register_client begin_send
act-failed l (registers i) s f = rw f refl
act-failed l (begins_send i true) s f = rw f refl
act-failed l (begins_send i false) s f = rw f refl
act-failed l (ends_send i closing success) s f = end_send-failed i closing success l s ∙ f
act-failed l (acknowledges i) s f = (acknowledge-Steady l s i).0 ∙ f
act-failed l (retires_unused i) s f = (retire_unused-Steady l s i).0 ∙ f
act-failed l (retires_reserved i) s f = (retire_reserved-Steady l s i).0 ∙ f
act-failed l (rejects_shutdown i) s f = (reject-Steady l s i f).0 ∙ f

pub act_all-failed :
    (seen : ℕ → Bool) (l : Cleanup) (actions : List Action)
    → Invariant no_work none seen l
    → l.failed ≡ true
    → (act_all l actions).failed ≡ true
unfolding act_all
act_all-failed seen l [] inv f = f
act_all-failed seen l (a ∷ rest) inv f =
    act_all-failed seen (act l a) rest (act-Invariant no_work none seen l inv (λ e. f) a)
      (act-failed l a inv.0 f)
