-- ===== src/Cleanup/Queues/Bystanders.antt =====
-- What a record that comes to one queue, or leaves it, does to the other queue and to the records
-- without work.
use tdlua.Prelude.{
  ℕ, ◌≡◌, ◌∙◌, ap, true, false, ◌||◌, Option, List, arith, ◌==◌, is_some, Map, lookup,
}
use tdlua.Cleanup.{Work, no_work, Record, Queue}
use tdlua.Cleanup.Queues.{same_work}
use tdlua.Cleanup.Queues.Chain.{mem, points}
use tdlua.Cleanup.Queues.Effects.{work_at, next_at, previous_at}
use tdlua.Cleanup.Queues.Represents.{
  Chained, Detached, Chained-frame, taken, added, at_same, work-taken, next-taken, previous-taken,
  work-added, next-added, previous-added,
}

-- The queue that the record does not stand in.
pub other-taken :
    (v : Work) (i : ℕ) (q q' : Queue) (ys : List ℕ) (p n : Option ℕ) (m m' : Map Record)
    → Chained v q ys m
    → same_work v no_work ≡ false
    → mem i ys ≡ false
    → ((j : ℕ) → mem j ys ≡ true → (points p j || points n j) ≡ false)
    → q' ≡ q
    → ((j : ℕ) → lookup j m' ≡ taken (i == j) p n j (lookup j m))
    → Chained v q' ys m'
other-taken v i q q' ys p n m m' (d, h, t, work, next, previous) nw away apart e el =
    Chained-frame v q q' ys m m' (d, h, t, work, next, previous) e
      (λ j.
        ap (λ x. same_work v (work_at x)) (el j)
        ∙ ap (same_work v) (work-taken p n j (i == j) (lookup j m))
        ∙ ground (arith, work j, at_same (λ x. mem x ys) false i away j))
      (λ j mj.
        ap next_at (el j)
        ∙ next-taken p n j (i == j) (lookup j m)
        ∙ ground (arith, apart j mj, at_same (λ x. mem x ys) false i away j))
      (λ j mj.
        ap previous_at (el j)
        ∙ previous-taken p n j (i == j) (lookup j m)
        ∙ ground (arith, apart j mj, at_same (λ x. mem x ys) false i away j))

pub other-added :
    (w v : Work) (i : ℕ) (q q' : Queue) (ys : List ℕ) (p : Option ℕ) (m m' : Map Record)
    → Chained v q ys m
    → same_work v no_work ≡ false
    → same_work v w ≡ false
    → mem i ys ≡ false
    → ((j : ℕ) → mem j ys ≡ true → points p j ≡ false)
    → q' ≡ q
    → ((j : ℕ) → lookup j m' ≡ added (i == j) w p i j (lookup j m))
    → Chained v q' ys m'
other-added w v i q q' ys p m m' (d, h, t, work, next, previous) nw nv away apart e el =
    Chained-frame v q q' ys m m' (d, h, t, work, next, previous) e
      (λ j.
        ap (λ x. same_work v (work_at x)) (el j)
        ∙ ap (same_work v) (work-added w p i j (i == j) (lookup j m))
        ∙ ground (arith, work j, at_same (λ x. mem x ys) false i away j))
      (λ j mj.
        ap next_at (el j) ∙ next-added w p i j (i == j) (lookup j m) ∙ ground (arith, apart j mj))
      (λ j mj.
        ap previous_at (el j)
        ∙ previous-added w p i j (i == j) (lookup j m)
        ∙ ground (arith, at_same (λ x. mem x ys) false i away j))

pub taken-Detached :
    (i : ℕ) (w : Work) (p n : Option ℕ) (m m' : Map Record)
    → Detached m
    → ((j : ℕ) → points p j ≡ true → same_work no_work (work_at (lookup j m)) ≡ false)
    → ((j : ℕ) → lookup j m' ≡ taken (i == j) p n j (lookup j m))
    → Detached m'
taken-Detached i w p n m m' d busy el j h =
    ap next_at (el j)
    ∙ next-taken p n j (i == j) (lookup j m)
    ∙ ground (
      arith,
      ap (λ x. same_work no_work (work_at x)) (el j),
      work-taken p n j (i == j) (lookup j m),
      ap (same_work no_work) (work-taken p n j (i == j) (lookup j m)),
      busy j,
      d j,
      h,
    )

pub added-Detached :
    (i : ℕ) (w : Work) (p : Option ℕ) (m m' : Map Record)
    → Detached m
    → same_work no_work w ≡ false
    → is_some (lookup i m) ≡ true
    → ((j : ℕ) → points p j ≡ true → same_work no_work (work_at (lookup j m)) ≡ false)
    → ((j : ℕ) → lookup j m' ≡ added (i == j) w p i j (lookup j m))
    → Detached m'
added-Detached i w p m m' d nw here busy el j h =
    ap next_at (el j)
    ∙ next-added w p i j (i == j) (lookup j m)
    ∙ ground (
      arith,
      ap (λ x. same_work no_work (work_at x)) (el j),
      ap (same_work no_work) (work-added w p i j (i == j) (lookup j m)),
      at_same (λ x. is_some (lookup x m)) true i here j,
      busy j,
      d j,
      h,
    )
