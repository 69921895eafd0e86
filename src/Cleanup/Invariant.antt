-- ===== src/Cleanup/Invariant.antt =====
-- The invariant of the ledger, and what restores it after the change of one record.
use tdlua.Prelude.{
  ℕ, ◌≡◌, refl, ◌∙◌, sym, ap, Bool, true, false, ◌&&◌, not, Option, none, some, [], ◌∷◌, arith,
  ◌==◌, is_some, if◌then◌else◌, Map, lookup, map_values,
}
use tdlua.Prelude.Int.{pos}
use tdlua.Prelude.Keys.{Sorted}
use tdlua.Identity.{contains}
use tdlua.Cleanup.{Work, close, notify, Record, Cleanup}
use tdlua.Cleanup.Queues.{same_work, idle_record, desired, refresh_work}
use tdlua.Cleanup.Queues.Chain.{mem, Distinct, without, points, mem-without}
use tdlua.Cleanup.Queues.Append.{mem-snoc}
use tdlua.Cleanup.Queues.Effects.{work_at, changed}
use tdlua.Cleanup.Queues.Represents.{Lines, Represents, at_same}
use tdlua.Cleanup.Queues.Refinement.{requeue}
use tdlua.Cleanup.Queues.Requeue.{wanted, refresh_work-Represents}
use tdlua.Cleanup.Cores.{cores, Kept, refresh_work-Kept}
use tdlua.Cleanup.Counters.{Counted, Kept-Counted}
use tdlua.Cleanup.Laws.{is_lawful, is_settling}

abbrev pub same_bit : Bool → Bool → Bool
same_bit true b = b
same_bit false b = not b

-- A record keeps the laws, and is busy exactly when the drain holds it.
abbrev pub keeps_law : Work → Option ℕ → ℕ → Option Record → Bool
keeps_law w held j none = not (points held j)
keeps_law w held j (some r) = is_lawful w r && same_bit r.busy (points held j)

abbrev pub may_settle : Work → Option ℕ → ℕ → Option Record → Bool
may_settle w held j none = not (points held j)
may_settle w held j (some r) = is_settling w r && same_bit r.busy (points held j)

abbrev pub Known : Cleanup → Type 0
Known l = (j : ℕ) → is_some (lookup j l.records) ≡ true → contains l.history (pos j) ≡ true

-- The lists hold what needs work, at the ids that `seen` picks.
abbrev pub Waiting : (ℕ → Bool) → Cleanup → Lines → Type 0
Waiting seen l a =
    (j : ℕ)
    → seen j ≡ true
    → (same_work close (wanted l (lookup j l.records)) ≡ mem j a.closing)
      × (same_work notify (wanted l (lookup j l.records)) ≡ mem j a.notifying)

-- The invariant where the law of each record is `keeps`.
abbrev pub Upheld : (ℕ → Option Record → Bool) → (ℕ → Bool) → Cleanup → Type 0
Upheld keeps seen l =
    Sorted l.records
    × Counted l
    × ((j : ℕ) → keeps j (lookup j l.records) ≡ true)
    × Known l
    × ((a : Lines) × Represents l a × Waiting seen l a)

-- `held` is the record that the drain works on, to do the work `w`.
abbrev pub Invariant : Work → Option ℕ → (ℕ → Bool) → Cleanup → Type 0
Invariant w held seen l = Upheld (keeps_law w held) seen l

-- All ids but one.
abbrev pub but : ℕ → (ℕ → Bool) → ℕ → Bool
but i seen j = seen j && not (i == j)

-- One record may be about to settle.
abbrev pub settles_at : ℕ → Work → Option ℕ → ℕ → Option Record → Bool
settles_at i w held j o = if i == j then may_settle w held j o else keeps_law w held j o

lookup-cores : (j : ℕ) (m : Map Record) → lookup j (cores m) ≡ changed true idle_record (lookup j m)
unfolding lookup map_values
lookup-cores j [] = refl
lookup-cores j ((i, r) ∷ m) = ground (arith, lookup-cores j m)

-- A test that reads no pointers.
pub same_lookup {ℓ} :
    {C : Type ℓ} (f : Option Record → C) (j : ℕ) (l l' : Cleanup)
    → Kept l l'
    → ((o : Option Record) → f o ≡ f (changed true idle_record o))
    → f (lookup j l'.records) ≡ f (lookup j l.records)
same_lookup f j l l' (s, c, o) e =
    e (lookup j l'.records)
    ∙ ap f (sym (lookup-cores j l'.records) ∙ ap (lookup j) c ∙ lookup-cores j l.records)
    ∙ sym (e (lookup j l.records))

wanted-core : (l : Cleanup) (o : Option Record) → wanted l o ≡ wanted l (changed true idle_record o)
unfolding desired
wanted-core l none = refl
wanted-core l (some r) = refl

pub same_wanted :
    (j : ℕ) (l l' : Cleanup)
    → Kept l l'
    → wanted l' (lookup j l'.records) ≡ wanted l (lookup j l.records)
same_wanted j l l' k =
    same_lookup (wanted l') j l l' k (wanted-core l') ∙ at_failed (lookup j l.records)
  where
    at_failed : (o : Option Record) → wanted l' o ≡ wanted l o
    at_failed none = refl
    at_failed (some r) = ap (λ x. desired x.failed r) k.2

pub same_some :
    (j : ℕ) (l l' : Cleanup)
    → Kept l l'
    → is_some (lookup j l'.records) ≡ is_some (lookup j l.records)
same_some j l l' k = same_lookup is_some j l l' k (λ o. ground arith)

pub Kept-Known : (l l' : Cleanup) → Kept l l' → Known l → Known l'
Kept-Known l l' k n j e =
    ap (λ x. contains x.history (pos j)) k.2 ∙ n j (sym (same_some j l l' k) ∙ e)

-- Where an id stands after it is moved from one list to another.
pub requeue-closing :
    (i j : ℕ) (from want : Work) (a : Lines)
    → Distinct a.closing
    → mem i a.closing ≡ same_work close from
    → mem j (requeue i from want a).closing
      ≡ (if i == j then same_work close want else mem j a.closing)
requeue-closing i j from want a d m = ground (
  arith,
  at_same (λ x. mem x a.closing) (same_work close from) i m j,
  mem-without i j a.closing d,
  mem-snoc i j a.closing,
  mem-snoc i j (without i a.closing),
)

pub requeue-notifying :
    (i j : ℕ) (from want : Work) (a : Lines)
    → Distinct a.notifying
    → mem i a.notifying ≡ same_work notify from
    → mem j (requeue i from want a).notifying
      ≡ (if i == j then same_work notify want else mem j a.notifying)
requeue-notifying i j from want a d m = ground (
  arith,
  at_same (λ x. mem x a.notifying) (same_work notify from) i m j,
  mem-without i j a.notifying d,
  mem-snoc i j a.notifying,
  mem-snoc i j (without i a.notifying),
)

requeue-Waiting :
    (seen : ℕ → Bool) (i : ℕ) (l l' : Cleanup) (a : Lines)
    → Kept l l'
    → Represents l a
    → Waiting (but i seen) l a
    → Waiting seen l' (requeue i (work_at (lookup i l.records)) (wanted l (lookup i l.records)) a)
requeue-Waiting seen i l l' a k h v j e = (
  ap (same_work close) (same_wanted j l l' k)
      ∙ ground (
        arith,
        requeue-closing i j (work_at (lookup i l.records)) (wanted l (lookup i l.records)) a h.0.0
            (sym (h.0.3 i)),
        at_same (λ x. same_work close (wanted l (lookup x l.records)))
            (same_work close (wanted l (lookup i l.records))) i refl j,
        v j,
      ),
  ap (same_work notify) (same_wanted j l l' k)
      ∙ ground (
        arith,
        requeue-notifying i j (work_at (lookup i l.records)) (wanted l (lookup i l.records)) a h.1.0
            (sym (h.1.3 i)),
        at_same (λ x. same_work notify (wanted l (lookup x l.records)))
            (same_work notify (wanted l (lookup i l.records))) i refl j,
        v j,
      ),
)

pub refresh-Upheld :
    (keeps : ℕ → Option Record → Bool) (seen : ℕ → Bool) (i : ℕ) (l : Cleanup)
    → ((j : ℕ) (o : Option Record) → keeps j o ≡ keeps j (changed true idle_record o))
    → Upheld keeps (but i seen) l
    → Upheld keeps seen (refresh_work i l)
refresh-Upheld keeps seen i l e (s, c, k, n, (a, h, w)) =
    let kept = refresh_work-Kept i l s in
    (
      kept.0,
      Kept-Counted l (refresh_work i l) kept c,
      λ j. same_lookup (keeps j) j l (refresh_work i l) kept (e j) ∙ k j,
      Kept-Known l (refresh_work i l) kept n,
      (
        requeue i (work_at (lookup i l.records)) (wanted l (lookup i l.records)) a,
        refresh_work-Represents i l a h,
        requeue-Waiting seen i l (refresh_work i l) a kept h w,
      ),
    )
