-- ===== src/Cleanup/Steps.antt =====
-- Each operation of the ledger keeps the invariant.
use tdlua.Prelude.{
  ℕ, suc, ◌≡◌, refl, ◌∙◌, sym, ap, Bool, true, false, ◌&&◌, ◌||◌, Option, none, some, arith,
  if_split, nonzero, lookup,
}
use tdlua.Prelude.Int.{pos}
use tdlua.Identity.{contains}
use tdlua.Cleanup.{Work, Record, Stats, Cleanup}
use tdlua.Cleanup.Queues.Chain.{points}
use tdlua.Cleanup.Laws.{is_lawful, is_settling}
use tdlua.Cleanup.Ledger.{put, settle}
use tdlua.Cleanup.Counters.{Counter, count, lookup-Covers}
use tdlua.Cleanup.Invariant.{same_bit, Invariant, keeps_law, may_settle}
use tdlua.Cleanup.Change.{settle-Invariant, refresh-Invariant}
use tdlua.Cleanup.Counters.{end-Balanced, witness-Balanced, waive-Balanced}
use tdlua.Cleanup.Laws.{
  conclude-Linked, witness-Linked, waive-Linked, conclude-settling, conclude-busy, witness-lawful,
  witness-busy, acknowledge-settling, waive-settling, waive-busy, reject-lawful,
}
use tdlua.Cleanup.Ledger.{
  Reply, break_accounting, conclude, unpinned, end_at, end_send, witness, observe_at, observe,
  acknowledge_at, acknowledge_terminal, is_used, waive, retire_unused_at, retire_unused,
  retire_reserved_at, retire_reserved, reject_at, reject_shutdown,
}

-- Counters besides the sums, and the mark of broken accounting, are free.
pub restat-Invariant :
    (w : Work) (held : Option ℕ) (seen : ℕ → Bool) (l : Cleanup) (s : Stats) (b : Bool)
    → Invariant w held seen l
    → ((c : Counter) → count c s ≡ count c l.stats)
    → Invariant w held seen (record l { stats = s; invariant_broken = b })
restat-Invariant w held seen l s b (o, c, k, n, a) e = (o, λ x. e x ∙ c x, k, n, a)

pub and_left : (b c : Bool) → (b && c) ≡ true → b ≡ true
and_left b c h = ground arith

pub and_right : (b c : Bool) → (b && c) ≡ true → c ≡ true
and_right b c h = ground arith

pub and_both : (b c : Bool) → b ≡ true → c ≡ true → (b && c) ≡ true
and_both b c h g = ground arith

module _ (w : Work) (held : Option ℕ) (seen : ℕ → Bool) (l : Cleanup)
    (inv : Invariant w held seen l) where
  -- The law of a record that is there.
  law_at : (i : ℕ) (r : Record) → lookup i l.records ≡ some r → keeps_law w held i (some r) ≡ true
  law_at i r e = ap (keeps_law w held i) (sym e) ∙ inv.2 i

  settling_at :
      (i : ℕ) (r r' : Record)
      → lookup i l.records ≡ some r
      → (is_lawful w r ≡ true → is_settling w r' ≡ true)
      → (is_lawful w r ≡ true → r'.busy ≡ r.busy)
      → may_settle w held i (some r') ≡ true
  settling_at i r r' e f g =
      let h = and_left (is_lawful w r) (same_bit r.busy (points held i)) (law_at i r e) in
      and_both (is_settling w r') (same_bit r'.busy (points held i)) (f h) (
        ap (λ b. same_bit b (points held i)) (g h)
        ∙ and_right (is_lawful w r) (same_bit r.busy (points held i)) (law_at i r e))

  lawful_at :
      (i : ℕ) (r r' : Record)
      → lookup i l.records ≡ some r
      → (is_lawful w r ≡ true → is_lawful w r' ≡ true)
      → (is_lawful w r ≡ true → r'.busy ≡ r.busy)
      → keeps_law w held i (some r') ≡ true
  lawful_at i r r' e f g =
      let h = and_left (is_lawful w r) (same_bit r.busy (points held i)) (law_at i r e) in
      and_both (is_lawful w r') (same_bit r'.busy (points held i)) (f h) (
        ap (λ b. same_bit b (points held i)) (g h)
        ∙ and_right (is_lawful w r) (same_bit r.busy (points held i)) (law_at i r e))

  break_accounting-Invariant : Invariant w held seen (break_accounting l)
  break_accounting-Invariant =
      restat-Invariant w held seen l (break_accounting l).stats true inv (λ c. ground arith)

  pub end_send-Invariant :
      (i : ℕ) (closing success : Bool) → Invariant w held seen (end_send i closing success l)
  unfolding end_send
  end_send-Invariant i closing success = split (lookup i l.records) refl
    where
      split :
          (o : Option Record)
          → lookup i l.records ≡ o
          → Invariant w held seen (end_at i closing success o l)
      split none e = break_accounting-Invariant
      split (some r) e =
          if_split (Invariant w held seen) (nonzero r.active)
            (λ n.
              settle-Invariant w held seen i r (conclude closing success (unpinned (r, l.stats))) l
                inv e
                (end-Balanced closing success (r, l.stats) (lookup-Covers i r l e inv.1)
                  (ground arith))
                (conclude-Linked closing success r l.stats)
                (settling_at i r (conclude closing success (unpinned (r, l.stats))).0 e
                  (λ h. conclude-settling w r l.stats h closing success n)
                  (λ h. conclude-busy w r l.stats h closing success)))
            (λ n. break_accounting-Invariant)

  pub acknowledge_terminal-Invariant : (i : ℕ) → Invariant w held seen (acknowledge_terminal i l).1
  unfolding acknowledge_terminal
  acknowledge_terminal-Invariant i = split (lookup i l.records) refl
    where
      split :
          (o : Option Record)
          → lookup i l.records ≡ o
          → Invariant w held seen (acknowledge_at i o l).1
      split none e = inv
      split (some r) e =
          if_split (λ (x : Reply (Unit {0}) × Cleanup). Invariant w held seen x.1) r.terminal
            (λ n.
              settle-Invariant w held seen i r (record r { notified = true }, l.stats) l inv e
                (λ c. ground arith) (refl, refl, refl)
                (settling_at i r (record r { notified = true }) e
                  (λ h. acknowledge-settling w r l.stats h n) (λ h. refl)))
            (λ n. inv)

  waive_at :
      (i : ℕ) (r : Record)
      → lookup i l.records ≡ some r
      → is_used r ≡ false
      → Invariant w held seen (settle i (put i (waive (r, l.stats)) l))
  waive_at i r e n =
      settle-Invariant w held seen i r (waive (r, l.stats)) l inv e (waive-Balanced (r, l.stats))
        (waive-Linked r l.stats)
        (settling_at i r (waive (r, l.stats)).0 e (λ h. waive-settling w r l.stats h n)
          (λ h. waive-busy w r l.stats h))

  pub retire_unused-Invariant : (i : ℕ) → Invariant w held seen (retire_unused i l).1
  unfolding retire_unused
  retire_unused-Invariant i = split (lookup i l.records) refl
    where
      split :
          (o : Option Record)
          → lookup i l.records ≡ o
          → Invariant w held seen (retire_unused_at i o l).1
      split none e = inv
      split (some r) e =
          if_split (λ (x : Reply (Unit {0}) × Cleanup). Invariant w held seen x.1) (is_used r)
            (λ n. inv) (waive_at i r e)

  pub retire_reserved-Invariant : (i : ℕ) → Invariant w held seen (retire_reserved i l).1
  unfolding retire_reserved
  retire_reserved-Invariant i = split (lookup i l.records) refl
    where
      split :
          (o : Option Record)
          → lookup i l.records ≡ o
          → Invariant w held seen (retire_reserved_at i o l).1
      split none e = inv
      split (some r) e =
          if_split (λ (x : Bool × Cleanup). Invariant w held seen x.1) (is_used r) (λ n. inv)
            (waive_at i r e)

  pub reject_shutdown-Invariant : (i : ℕ) → Invariant w held seen (reject_shutdown i l)
  unfolding reject_shutdown
  reject_shutdown-Invariant i = split (lookup i l.records) refl
    where
      split : (o : Option Record) → lookup i l.records ≡ o → Invariant w held seen (reject_at i o l)
      split none e = inv
      split (some r) e =
          if_split (Invariant w held seen) (l.failed || r.terminal) (λ n. inv)
            (λ n.
              refresh-Invariant w held seen i r
                (record r { close_sent = false; close_uncertain = false }, l.stats) l inv e
                (λ c. ground arith) (refl, refl, refl)
                (lawful_at i r (record r { close_sent = false; close_uncertain = false }) e
                  (λ h. reject-lawful w r l.stats h) (λ h. refl)))

  pub observe-Invariant :
      (i : ℕ) (terminal : Bool)
      → points held i ≡ false
      → Invariant w held seen (observe i terminal l).1
  unfolding observe
  observe-Invariant i terminal free = split (lookup i l.records) refl
    where
      split :
          (o : Option Record)
          → lookup i l.records ≡ o
          → Invariant w held seen (observe_at i terminal o l).1
      split none e =
          if_split (λ (x : Reply Bool × Cleanup). Invariant w held seen x.1)
            (contains l.history (pos i))
            (λ n.
              restat-Invariant w held seen l (record l.stats { late = suc l.stats.late })
                l.invariant_broken inv (λ c. ground arith))
            (λ n. inv)
      split (some r) e =
          refresh-Invariant w held seen i r (witness terminal (r, l.stats)) l inv e
            (witness-Balanced terminal (r, l.stats) (lookup-Covers i r l e inv.1))
            (witness-Linked terminal r l.stats)
            (lawful_at i r (witness terminal (r, l.stats)).0 e
              (λ h. witness-lawful w r l.stats h terminal (
                ground (
                  arith,
                  and_right (is_lawful w r) (same_bit r.busy (points held i)) (law_at i r e),
                  free,
                )))
              (λ h. witness-busy w r l.stats h terminal))
