-- ===== src/Cleanup/Queues/Represents.antt =====
-- The two queues as lists: each stands for the ids with its work, in the order of arrival, and the
-- pointers are the neighbours in the list.
use tdlua.Prelude.{
  ℕ, ◌≡◌, refl, ◌∙◌, sym, ap, Bool, true, false, ◌&&◌, Option, none, some, List, [], ◌∷◌, ◌++◌,
  arith, ◌==◌, is_some, if◌then◌else◌, Map, lookup,
}
use tdlua.Cleanup.{Work, no_work, close, notify, Record, Queue, Cleanup}
use tdlua.Cleanup.Queues.{same_work, idle_record}
use tdlua.Cleanup.Queues.Chain.{
  mem, Distinct, first, last, next_in, previous_in, without, points, mem-without, without-Distinct,
}
use tdlua.Cleanup.Queues.Unlink.{next-without, first-without, previous-without, last-without}
use tdlua.Cleanup.Queues.Append.{
  mem-snoc, snoc-Distinct, first-snoc, last-snoc, last-mem, next-snoc, next-snoc_self,
  previous-snoc, previous-snoc_self,
}
use tdlua.Cleanup.Queues.Effects.{
  changed, work_at, next_at, previous_at, with_next, with_previous, with_work,
}
use tdlua.Cleanup.Queues.Ends.{closed_up, joined}

pub record Lines : Type 0 where
  pub closing : List ℕ
  pub notifying : List ℕ

abbrev pub Chained : Work → Queue → List ℕ → Map Record → Type 0
Chained w q xs m =
    Distinct xs
    × (q.head ≡ first xs)
    × (q.tail ≡ last xs)
    × ((j : ℕ) → same_work w (work_at (lookup j m)) ≡ mem j xs)
    × ((j : ℕ) → mem j xs ≡ true → next_at (lookup j m) ≡ next_in xs j)
    × ((j : ℕ) → mem j xs ≡ true → previous_at (lookup j m) ≡ previous_in xs j)

-- A record without work points to no next one.
abbrev pub Detached : Map Record → Type 0
Detached m = (j : ℕ) → same_work no_work (work_at (lookup j m)) ≡ true → next_at (lookup j m) ≡ none

abbrev pub Represents : Cleanup → Lines → Type 0
Represents l a =
    Chained close l.closes a.closing l.records
    × Chained notify l.notifies a.notifying l.records
    × Detached l.records

-- What `unlink` and `push_back` leave in a record.
abbrev pub taken : Bool → Option ℕ → Option ℕ → ℕ → Option Record → Option Record
taken here p n j o =
    changed here idle_record
      (changed (points n j) (with_previous p) (changed (points p j) (with_next n) o))

abbrev pub added : Bool → Work → Option ℕ → ℕ → ℕ → Option Record → Option Record
added here w t i j o = changed (points t j) (with_next (some i)) (changed here (with_work w t) o)

module _ (p n : Option ℕ) (j : ℕ) where
  pub work-taken :
      (b : Bool) (o : Option Record)
      → work_at (taken b p n j o) ≡ (if b then no_work else work_at o)
  work-taken b o = ground arith

  pub next-taken :
      (b : Bool) (o : Option Record)
      → next_at (taken b p n j o)
        ≡ (if b then none else if points p j && is_some o then n else next_at o)
  next-taken b o = ground arith

  pub previous-taken :
      (b : Bool) (o : Option Record)
      → previous_at (taken b p n j o)
        ≡ (if b then none else if points n j && is_some o then p else previous_at o)
  previous-taken b o = ground arith

pub has_record :
    (w : Work) (o : Option Record)
    → same_work w no_work ≡ false
    → same_work w (work_at o) ≡ true
    → is_some o ≡ true
has_record w none h e = cc
has_record w (some r) h e = refl

pub Chained-frame :
    (w : Work) (q q' : Queue) (xs : List ℕ) (m m' : Map Record)
    → Chained w q xs m
    → q' ≡ q
    → ((j : ℕ) → same_work w (work_at (lookup j m')) ≡ same_work w (work_at (lookup j m)))
    → ((j : ℕ) → mem j xs ≡ true → next_at (lookup j m') ≡ next_at (lookup j m))
    → ((j : ℕ) → mem j xs ≡ true → previous_at (lookup j m') ≡ previous_at (lookup j m))
    → Chained w q' xs m'
Chained-frame w q q' xs m m' (d, h, t, work, next, previous) e ew en ep = (
  d,
  ap (λ x. x.head) e ∙ h,
  ap (λ x. x.tail) e ∙ t,
  λ j. ew j ∙ work j,
  λ j i. en j i ∙ next j i,
  λ j i. ep j i ∙ previous j i,
)

pub without-Chained :
    (w : Work) (i : ℕ) (q q' : Queue) (xs : List ℕ) (m m' : Map Record)
    → Chained w q xs m
    → same_work w no_work ≡ false
    → mem i xs ≡ true
    → q' ≡ closed_up (previous_in xs i) (next_in xs i) q
    → ((j : ℕ) → lookup j m' ≡ taken (i == j) (previous_in xs i) (next_in xs i) j (lookup j m))
    → Chained w q' (without i xs) m'
without-Chained w i q q' xs m m' (d, h, t, work, next, previous) nw mi e el = (
  without-Distinct i xs d,
  ap (λ x. x.head) e ∙ ground (arith, first-without i xs mi),
  ap (λ x. x.tail) e ∙ ground (arith, last-without none i xs mi),
  λ j.
      ap (λ x. same_work w (work_at x)) (el j)
      ∙ ap (same_work w) (work-taken (previous_in xs i) (next_in xs i) j (i == j) (lookup j m))
      ∙ ground (arith, work j, mem-without i j xs d),
  λ j mj.
      ap next_at (el j)
      ∙ next-taken (previous_in xs i) (next_in xs i) j (i == j) (lookup j m)
      ∙ ground (
        arith,
        next j,
        work j,
        mem-without i j xs d,
        next-without i j xs d mi,
        has_record w (lookup j m) nw,
      ),
  λ j mj.
      ap previous_at (el j)
      ∙ previous-taken (previous_in xs i) (next_in xs i) j (i == j) (lookup j m)
      ∙ ground (
        arith,
        previous j,
        work j,
        mem-without i j xs d,
        previous-without none i j xs d mi,
        has_record w (lookup j m) nw,
      ),
)

module _ (w : Work) (t : Option ℕ) (i j : ℕ) where
  pub work-added :
      (b : Bool) (o : Option Record)
      → work_at (added b w t i j o) ≡ (if b && is_some o then w else work_at o)
  work-added b o = ground arith

  pub next-added :
      (b : Bool) (o : Option Record)
      → next_at (added b w t i j o) ≡ (if points t j && is_some o then some i else next_at o)
  next-added b o = ground arith

  pub previous-added :
      (b : Bool) (o : Option Record)
      → previous_at (added b w t i j o) ≡ (if b && is_some o then t else previous_at o)
  previous-added b o = ground arith

pub at_same {ℓ} :
    {C : Type ℓ} (f : ℕ → C) (c : C) (i : ℕ) → f i ≡ c → (j : ℕ) → (i == j) ≡ true → f j ≡ c
at_same f c i h j e = ap f (ground arith) ∙ h

pub same_work_refl : (w : Work) → same_work w w ≡ true
same_work_refl no_work = refl
same_work_refl close = refl
same_work_refl notify = refl

pub snoc-Chained :
    (w : Work) (i : ℕ) (q q' : Queue) (xs : List ℕ) (m m' : Map Record)
    → Chained w q xs m
    → same_work w no_work ≡ false
    → mem i xs ≡ false
    → is_some (lookup i m) ≡ true
    → next_at (lookup i m) ≡ none
    → q' ≡ joined i q
    → ((j : ℕ) → lookup j m' ≡ added (i == j) w q.tail i j (lookup j m))
    → Chained w q' (xs ++ i ∷ []) m'
snoc-Chained w i q q' xs m m' (d, h, t, work, next, previous) nw fresh here alone e el = (
  snoc-Distinct i xs d fresh,
  ap (λ x. x.head) e ∙ ground (arith, first-snoc i xs),
  ap (λ x. x.tail) e ∙ sym (last-snoc none i xs),
  λ j.
      ap (λ x. same_work w (work_at x)) (el j)
      ∙ ap (same_work w) (work-added w q.tail i j (i == j) (lookup j m))
      ∙ ground (
        arith,
        work j,
        mem-snoc i j xs,
        at_same (λ x. is_some (lookup x m)) true i here j,
        same_work_refl w,
      ),
  λ j mj.
      ap next_at (el j)
      ∙ next-added w q.tail i j (i == j) (lookup j m)
      ∙ ground (
        arith,
        ap (λ x. points x j) t,
        last-mem j xs,
        at_same (λ x. mem x xs) false i fresh j,
        at_same (λ x. next_at (lookup x m)) none i alone j,
        at_same (λ x. next_in (xs ++ i ∷ []) x) none i (next-snoc_self i xs fresh) j,
        next-snoc i j xs d,
        mem-snoc i j xs,
        next j,
        work j,
        has_record w (lookup j m) nw,
      ),
  λ j mj.
      ap previous_at (el j)
      ∙ previous-added w q.tail i j (i == j) (lookup j m)
      ∙ ground (
        arith,
        t,
        at_same (λ x. is_some (lookup x m)) true i here j,
        at_same (λ x. previous_in (xs ++ i ∷ []) x) (last xs) i (previous-snoc_self none i xs fresh)
            j,
        previous-snoc none i j xs,
        mem-snoc i j xs,
        previous j,
      ),
)
