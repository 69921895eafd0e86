-- ===== src/Cleanup/Queues/Requeue.antt =====
-- `refreshWork` and `retireIfReady` move one id between two lists.
use tdlua.Prelude.{
  ℕ, ◌≡◌, refl, ◌∙◌, ap, subst, Bool, true, Option, none, some, arith, ◌==◌, ==_refl, is_some,
  if◌then◌else◌, lookup, Bool-cases, if_split, inl, inr,
}
use tdlua.Cleanup.{Work, no_work, close, notify, Record, Cleanup}
use tdlua.Cleanup.Queues.{
  same_work, unlink_at, unlink, push_back, desired, move_to, refresh_at, refresh_work,
}
use tdlua.Cleanup.Queues.Effects.{work_at, lookup-take_out}
use tdlua.Cleanup.Queues.Represents.{Lines, Represents, taken, work-taken}
use tdlua.Cleanup.Queues.Refinement.{
  leave_line, join_line, requeue, Waits, unlink-Represents, push_back-Represents,
}

abbrev pub wanted : Cleanup → Option Record → Work
wanted l none = no_work
wanted l (some r) = desired l.failed r

some-taken :
    (p n : Option ℕ) (j : ℕ) (b : Bool) (o : Option Record) → is_some (taken b p n j o) ≡ is_some o
some-taken p n j b o = ground arith

unlink_at-Waits :
    (i : ℕ) (l : Cleanup) (o : Option Record)
    → lookup i l.records ≡ o
    → is_some o ≡ true
    → Waits i (unlink_at i o l)
unlink_at-Waits i l none e h = cc
unlink_at-Waits i l (some r) e h =
    if_split (Waits i) (same_work r.work no_work)
      (λ w. (ap is_some e, ap (λ x. same_work no_work (work_at x)) e ∙ ground arith))
      (λ w. (
        ap is_some (lookup-take_out i i r.work r.previous r.next l)
            ∙ ground
                (arith, some-taken r.previous r.next i (i == i) (lookup i l.records), ap is_some e),
        ap (λ x. same_work no_work (work_at x)) (lookup-take_out i i r.work r.previous r.next l)
            ∙ ap (same_work no_work) (work-taken r.previous r.next i (i == i) (lookup i l.records))
            ∙ ground (arith, ==_refl i),
      ))

pub unlink-Waits :
    (i : ℕ) (l : Cleanup) → is_some (lookup i l.records) ≡ true → Waits i (unlink i l)
unfolding unlink
unlink-Waits i l h = unlink_at-Waits i l (lookup i l.records) refl h

pushed :
    (w want : Work) (i : ℕ) (l : Cleanup) (a : Lines)
    → Represents (unlink i l) (leave_line w i a)
    → is_some (lookup i l.records) ≡ true
    → Represents
        (if same_work want no_work then unlink i l else push_back i want (unlink i l))
        (join_line want i (leave_line w i a))
pushed w no_work i l a h e = h
pushed w close i l a h e =
    push_back-Represents close i (unlink i l) (leave_line w i a) h (unlink-Waits i l e) refl
pushed w notify i l a h e =
    push_back-Represents notify i (unlink i l) (leave_line w i a) h (unlink-Waits i l e) refl

move_to-Represents :
    (i : ℕ) (l : Cleanup) (a : Lines) (w want : Work)
    → Represents l a
    → is_some (lookup i l.records) ≡ true
    → work_at (lookup i l.records) ≡ w
    → Represents (move_to i w want l) (requeue i w want a)
move_to-Represents i l a w want h e g = elim (Bool-cases (same_work w want)) [
  | inl y ↦ rw y h
  | inr n ↦ rw n (
      pushed w want i l a
        (subst (λ x. Represents (unlink i l) (leave_line x i a)) g (unlink-Represents i l a h)) e)
]

refresh_at-Represents :
    (i : ℕ) (l : Cleanup) (a : Lines) (o : Option Record)
    → Represents l a
    → lookup i l.records ≡ o
    → Represents (refresh_at i o l) (requeue i (work_at o) (wanted l o) a)
refresh_at-Represents i l a none h e = h
refresh_at-Represents i l a (some r) h e =
    move_to-Represents i l a r.work (desired l.failed r) h (ap is_some e) (ap work_at e)

-- `refreshWork` refines `requeue`: where the pointers stand for two lists of ids, it takes the id
-- out of the list of the work that it has and appends it to the list of the work that it needs,
-- unless they are the same, and the pointers stand for the lists that result.
pub refresh_work-Represents :
    (i : ℕ) (l : Cleanup) (a : Lines)
    → Represents l a
    → Represents
        (refresh_work i l)
        (requeue i (work_at (lookup i l.records)) (wanted l (lookup i l.records)) a)
unfolding refresh_work
refresh_work-Represents i l a h = refresh_at-Represents i l a (lookup i l.records) h refl
