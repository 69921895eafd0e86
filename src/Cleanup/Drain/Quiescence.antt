-- ===== src/Cleanup/Drain/Quiescence.antt =====
-- A drain that ends quiescent has retired every record.
use tdlua.Prelude.{
  ℕ, suc, ◌≤◌, ◌≡◌, refl, ◌∙◌, sym, ap, Bool, true, false, not, none, some, List, [], ◌∷◌, arith,
  ==_refl, is_some, Map, lookup,
}
use tdlua.Prelude.Keys.{Sorted}
use tdlua.Cleanup.{no_work, notify, Record, Cleanup}
use tdlua.Cleanup.Queues.{same_work, desired, refresh_work, is_ready}
use tdlua.Cleanup.Queues.Chain.{mem, first}
use tdlua.Cleanup.Queues.Requeue.{wanted}
use tdlua.Cleanup.Cores.{refresh_work-Kept}
use tdlua.Cleanup.Laws.{is_lawful}
use tdlua.Cleanup.Counters.{of_reserved, of_remaining, of_active, weight, lookup-Covers}
use tdlua.Cleanup.Invariant.{same_bit, Invariant, keeps_law, but, refresh-Upheld}
use tdlua.Cleanup.Retirement.{law-core}
use tdlua.Cleanup.Steps.{restat-Invariant, and_left, and_right}
use tdlua.Cleanup.Shut.{Shut, refresh-Steady, Steady-Shut}
use tdlua.Cleanup.Drain.{is_quiet}
use tdlua.Cleanup.Drain.Hold.{all}
use tdlua.Cleanup.Drain.{visit_all, begin_drain}
use tdlua.Cleanup.Drain.Rounds.{Draining}

-- The ids without a record in a part of the map.
abbrev pub missing : Map Record → ℕ → Bool
missing m j = not (is_some (lookup j m))

weaken-Waiting :
    (seen seen' : ℕ → Bool) (l : Cleanup)
    → ((j : ℕ) → seen' j ≡ true → seen j ≡ true)
    → Invariant no_work none seen l
    → Invariant no_work none seen' l
weaken-Waiting seen seen' l e (s, c, k, n, (a, h, v)) = (s, c, k, n, (a, h, λ j g. v j (e j g)))

pub visit_all-Invariant :
    (m : Map Record) (l : Cleanup)
    → Invariant no_work none (missing m) l
    → Invariant no_work none all (visit_all m l)
unfolding visit_all lookup
visit_all-Invariant [] l inv = inv
visit_all-Invariant ((i, r) ∷ m) l inv =
    let l' = record l { stats = record l.stats { record_visits = suc l.stats.record_visits } } in
    visit_all-Invariant m (refresh_work i l') (
      refresh-Upheld (keeps_law no_work none) (missing m) i l' (law-core no_work none) (
        restat-Invariant no_work none (but i (missing m)) l l'.stats l.invariant_broken
          (weaken-Waiting (missing ((i, r) ∷ m)) (but i (missing m)) l (λ j e. ground (arith, e))
            inv)
          (λ c. ground arith)))

pub visit_all-Shut :
    (m : Map Record) (l : Cleanup) → Sorted l.records → Shut l → Shut (visit_all m l)
unfolding visit_all
visit_all-Shut [] l s h = h
visit_all-Shut ((i, r) ∷ m) l s h =
    let l' = record l { stats = record l.stats { record_visits = suc l.stats.record_visits } } in
    visit_all-Shut m (refresh_work i l') (refresh_work-Kept i l' s).0
      (Steady-Shut l (refresh_work i l') (refresh-Steady i l l' s (refl, refl)) h)

-- No list holds an id without a record.
pub nothing_missing :
    (seen : ℕ → Bool) (l : Cleanup)
    → Invariant no_work none seen l
    → Invariant no_work none (missing l.records) l
nothing_missing seen l (s, c, k, n, (a, (close', notify', d), v)) = (
  s,
  c,
  k,
  n,
  (a, (close', notify', d), λ j g. (ground (arith, g, close'.3 j), ground (arith, g, notify'.3 j))),
)

pub begin_drain-Invariant :
    (l : Cleanup)
    → Invariant no_work none all l
    → Invariant no_work none (λ j. false) (begin_drain l)
begin_drain-Invariant l (s, c, k, n, (a, h, v)) =
    (s, λ x. ground (arith, c x), k, n, (a, h, λ j e. absurd (ground (arith, e))))

unlisted : (j : ℕ) (xs : List ℕ) → is_some (first xs) ≡ false → mem j xs ≡ false
unlisted j [] h = refl
unlisted j (x ∷ xs) h = cc

-- A record that counts for nothing and needs no notification is ready to retire.
no_lawful :
    (l : Cleanup) (r : Record)
    → is_lawful no_work r ≡ true
    → same_bit r.busy false ≡ true
    → same_work notify (desired l.failed r) ≡ false
    → r.materialized ≡ true
    → r.terminal ≡ true
    → r.active ≡ 0
    → ⊥
unfolding is_ready desired
no_lawful l r h b w m t a = absurd (ground (arith, h, b, w, m, t, a))

-- What `is_quiet` tells.
quiet_lem :
    (l : Cleanup)
    → is_quiet l ≡ true
    → (is_some l.notifies.head ≡ false) × (l.stats.remaining ≡ 0) × (l.stats.reserved ≡ 0)
quiet_lem l q = (ground (arith, q), ground (arith, q), ground (arith, q))

materialized_lem : (r : Record) (n : ℕ) → weight of_reserved r ≤ n → n ≡ 0 → r.materialized ≡ true
materialized_lem r n h z = ground (arith, h, z)

terminal_lem :
    (r : Record) (n : ℕ)
    → weight of_remaining r ≤ n
    → n ≡ 0
    → r.materialized ≡ true
    → r.terminal ≡ true
terminal_lem r n h z m = ground (arith, h, z, m)

active_lem : (r : Record) (n : ℕ) → r.active ≤ n → n ≡ 0 → r.active ≡ 0
active_lem r n h z = omega (arith, h, z)

not_wanted :
    (l : Cleanup) (j : ℕ) (r : Record)
    → Invariant no_work none all l
    → is_some l.notifies.head ≡ false
    → lookup j l.records ≡ some r
    → same_work notify (desired l.failed r) ≡ false
not_wanted l j r inv q e =
    ap (λ o. same_work notify (wanted l o)) (sym e)
    ∙ (inv.4.2 j refl).1
    ∙ unlisted j inv.4.0.notifying (ap is_some (sym inv.4.1.1.1) ∙ q)

-- A quiet ledger without sends has no record.
no_record :
    (l : Cleanup) (j : ℕ) (r : Record)
    → Draining l
    → is_quiet l ≡ true
    → lookup j l.records ≡ some r
    → ⊥
no_record l j r d q e =
    let weights = lookup-Covers j r l e d.0.1 in
    let law = ap (keeps_law no_work none j) (sym e) ∙ d.0.2 j in
    let quiet = quiet_lem l q in
    let seen = materialized_lem r l.stats.reserved (weights of_reserved) quiet.2 in
    no_lawful l r (and_left (is_lawful no_work r) (same_bit r.busy false) law)
      (and_right (is_lawful no_work r) (same_bit r.busy false) law) (not_wanted l j r d.0 quiet.0 e)
      seen (terminal_lem r l.stats.remaining (weights of_remaining) quiet.1 seen)
      (active_lem r l.stats.active_sends (weights of_active) d.1.1)

no_records : (m : Map Record) → ((j : ℕ) (r : Record) → lookup j m ≡ some r → ⊥) → m ≡ []
unfolding lookup
no_records [] h = refl
no_records ((i, r) ∷ m) h = absurd (h i r (ground (arith, ==_refl i)))

pub quiet-empty : (l : Cleanup) → Draining l → is_quiet l ≡ true → l.records ≡ []
quiet-empty l d q = no_records l.records (λ j r e. no_record l j r d q e)
