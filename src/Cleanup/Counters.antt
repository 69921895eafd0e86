-- ===== src/Cleanup/Counters.antt =====
-- The counters of the ledger as sums over its records, and what the changes of one record do to
-- them.
use tdlua.Prelude.{
  ℕ, ◌+◌, ◌≤◌, ◌≡◌, refl, ◌∙◌, ap, Bool, true, false, ◌&&◌, ◌||◌, not, Option, none, some, [], ◌∷◌,
  arith, if◌then◌else◌, if_both, Map, lookup, erase, map_values, sum_by, bit,
}
use tdlua.Prelude.Keys.{Sorted, sum_by-update, sum_by-lookup_le, sum_by-erase, erase-absent}
use tdlua.Cleanup.{Work, no_work, close, notify, Record, Stats, Cleanup}
use tdlua.Cleanup.Drain.{work_done}
use tdlua.Cleanup.Queues.{idle_record, is_ready, uncount_record}
use tdlua.Cleanup.Cores.{cores, outside, Kept}
use tdlua.Cleanup.Ledger.{
  materialize, mark_close_sent, set_uncertain, put, conclude, unpinned, terminate, witness, waive,
}

pub data Counter : Type 0 where
  of_records of_reserved of_remaining of_uncertain of_terminal of_active : Counter

abbrev pub count : Counter → Stats → ℕ
count of_records s = s.records
count of_reserved s = s.reserved
count of_remaining s = s.remaining
count of_uncertain s = s.uncertain
count of_terminal s = s.terminal_records
count of_active s = s.active_sends

abbrev pub weight : Counter → Record → ℕ
weight of_records r = 1
weight of_reserved r = bit (not r.materialized)
weight of_remaining r = bit (r.materialized && not r.terminal)
weight of_uncertain r = bit r.uncertain
weight of_terminal r = bit r.terminal
weight of_active r = r.active

abbrev pub weight_of : Counter → ℕ × Record → ℕ
weight_of c (i, r) = weight c r

abbrev pub total : Counter → Map Record → ℕ
total c m = sum_by (weight_of c) m

-- Every counter is the sum over the records.
abbrev pub Counted : Cleanup → Type 0
Counted l = (c : Counter) → count c l.stats ≡ total c l.records

abbrev pub Balanced : Record × Stats → Record × Stats → Type 0
Balanced p p' = (c : Counter) → count c p'.1 + weight c p.0 ≡ count c p.1 + weight c p'.0

abbrev pub Covers : Record × Stats → Type 0
Covers p = (c : Counter) → weight c p.0 ≤ count c p.1

total-cores : (c : Counter) (m : Map Record) → total c (cores m) ≡ total c m
unfolding map_values
total-cores c [] = refl
total-cores c ((i, r) ∷ m) = omega (arith, total-cores c m, core_weight c)
  where
    core_weight : (c : Counter) → weight c (idle_record r) ≡ weight c r
    core_weight of_records = refl
    core_weight of_reserved = refl
    core_weight of_remaining = refl
    core_weight of_uncertain = refl
    core_weight of_terminal = refl
    core_weight of_active = refl

count-outside : (c : Counter) (l : Cleanup) → count c (outside l).stats ≡ count c l.stats
count-outside of_records l = refl
count-outside of_reserved l = refl
count-outside of_remaining l = refl
count-outside of_uncertain l = refl
count-outside of_terminal l = refl
count-outside of_active l = refl

pub Kept-Counted : (l l' : Cleanup) → Kept l l' → Counted l → Counted l'
Kept-Counted l l' (s, e, o) h c = omega (
  arith,
  h c,
  count-outside c l,
  count-outside c l',
  ap (λ x. count c x.stats) o,
  total-cores c l.records,
  total-cores c l'.records,
  ap (total c) e,
)

pub Balanced-trans : (p p' p'' : Record × Stats) → Balanced p p' → Balanced p' p'' → Balanced p p''
Balanced-trans p p' p'' h h' c = omega (arith, h c, h' c)

pub Balanced-Covers : (p p' : Record × Stats) → Balanced p p' → Covers p → Covers p'
Balanced-Covers p p' h h' c = omega (arith, h c, h' c)

pub lookup-Covers :
    (i : ℕ) (r : Record) (l : Cleanup)
    → lookup i l.records ≡ some r
    → Counted l
    → Covers (r, l.stats)
lookup-Covers i r l e h c = omega (arith, h c, sum_by-lookup_le (weight_of c) i r l.records e)

pub put-Counted :
    (i : ℕ) (r : Record) (p : Record × Stats) (l : Cleanup)
    → Sorted l.records
    → lookup i l.records ≡ some r
    → Counted l
    → Balanced (r, l.stats) p
    → Counted (put i p l)
put-Counted i r (r', s') l (hi, a) e h b c =
    omega (arith, h c, b c, sum_by-update (weight_of c) i r r' 0 hi l.records a e)

-- `retireIfReady` takes the record's weight from each counter.
pub uncount_record_lem :
    (c : Counter) (r : Record) (s : Stats)
    → (not r.terminal || r.materialized && not r.uncertain) ≡ true
    → is_ready r ≡ true
    → Covers (r, s)
    → count c (uncount_record r s) + weight c r ≡ count c s
unfolding is_ready
uncount_record_lem c r s h e v = ground (arith, v c)

abbrev pub weight_at : Counter → Option Record → ℕ
weight_at c none = 0
weight_at c (some r) = weight c r

pub total-erase :
    (c : Counter) (i : ℕ) (m : Map Record)
    → Sorted m
    → total c (erase i m) + weight_at c (lookup i m) ≡ total c m
total-erase c i m (hi, a) = split (lookup i m) refl
  where
    split : (o : Option Record) → lookup i m ≡ o → total c (erase i m) + weight_at c o ≡ total c m
    split none e = ap (λ x. total c x + 0) (erase-absent i m e) ∙ omega arith
    split (some r) e = sum_by-erase (weight_of c) i r 0 hi m a e

pub materialize-Balanced : (p : Record × Stats) → Covers p → Balanced p (materialize p)
unfolding materialize
materialize-Balanced (r, s) h c = ground (arith, h c)

pub mark_close_sent-Balanced : (p : Record × Stats) → Balanced p (mark_close_sent p)
unfolding mark_close_sent
mark_close_sent-Balanced (r, s) c = ground arith

pub set_uncertain-Balanced :
    (b : Bool) (p : Record × Stats) → Covers p → Balanced p (set_uncertain b p)
unfolding set_uncertain
set_uncertain-Balanced true (r, s) h c = ground (arith, h c)
set_uncertain-Balanced false (r, s) h c = ground (arith, h c)

pub unpinned-Balanced : (p : Record × Stats) → Covers p → 1 ≤ p.0.active → Balanced p (unpinned p)
unpinned-Balanced (r, s) h n c = ground (arith, h c)

pub terminate-Balanced :
    (p : Record × Stats) → Covers p → p.0.materialized ≡ true → Balanced p (terminate p)
terminate-Balanced (r, s) h n c = ground (arith, h c)

pub waive-Balanced : (p : Record × Stats) → Balanced p (waive p)
waive-Balanced (r, s) c = ground arith

materialized-materialize : (p : Record × Stats) → (materialize p).0.materialized ≡ true
unfolding materialize
materialized-materialize (r, s) = ground arith

conclude-Balanced :
    (closing success : Bool) (p : Record × Stats)
    → Covers p
    → Balanced p (conclude closing success p)
conclude-Balanced closing true p h =
    if_both (Balanced p) closing
      (Balanced-trans p (materialize p) (mark_close_sent (materialize p)) (materialize-Balanced p h)
        (mark_close_sent-Balanced (materialize p)))
      (materialize-Balanced p h)
conclude-Balanced closing false (r, s) h =
    if_both (Balanced (r, s)) r.terminal (λ c. refl)
      (λ c. ground (arith, set_uncertain-Balanced true (r, s) h c))

pub end-Balanced :
    (closing success : Bool) (p : Record × Stats)
    → Covers p
    → 1 ≤ p.0.active
    → Balanced p (conclude closing success (unpinned p))
end-Balanced closing success p h n =
    let b = unpinned-Balanced p h n in
    Balanced-trans p (unpinned p) (conclude closing success (unpinned p)) b
      (conclude-Balanced closing success (unpinned p) (Balanced-Covers p (unpinned p) b h))

pub witness-Balanced :
    (terminal : Bool) (p : Record × Stats) → Covers p → Balanced p (witness terminal p)
witness-Balanced terminal p h =
    if_both (Balanced p) (terminal || not q'.0.close_uncertain)
      (Balanced-trans p q' (set_uncertain false q') b
        (set_uncertain-Balanced false q' (Balanced-Covers p q' b h)))
      b
  where
    q : Record × Stats
    q = materialize p

    q' : Record × Stats
    q' = if terminal then terminate q else q

    b : Balanced p q'
    b =
        if_both (Balanced p) terminal
          (Balanced-trans p q (terminate q) (materialize-Balanced p h) (
            terminate-Balanced q (Balanced-Covers p q (materialize-Balanced p h) h)
              (materialized-materialize p)))
          (materialize-Balanced p h)

flags-Covers :
    (p : Record × Stats)
    → Covers p
    → Covers (record (p.0) { busy = false; close_uncertain = true }, p.1)
flags-Covers (r, s) h c = ground (arith, h c)

pub work_done-Balanced :
    (throws : Bool) (w : Work) (p : Record × Stats) → Covers p → Balanced p (work_done throws w p)
unfolding mark_close_sent
work_done-Balanced false no_work (r, s) h c = ground arith
work_done-Balanced false close (r, s) h c = ground arith
work_done-Balanced false notify (r, s) h c = ground arith
work_done-Balanced true no_work (r, s) h c = ground arith
work_done-Balanced true close (r, s) h c = ground (
  arith,
  set_uncertain-Balanced true (record r { busy = false; close_uncertain = true }, s)
      (flags-Covers (r, s) h) c,
)
work_done-Balanced true notify (r, s) h c = ground arith
