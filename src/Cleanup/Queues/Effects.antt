-- ===== src/Cleanup/Queues/Effects.antt =====
-- What `unlink` and `refreshWork` leave in each record.
use tdlua.Prelude.{
  ℕ, ◌≡◌, refl, ◌∙◌, ap, Bool, true, false, Option, none, some, arith, ◌==◌, if◌then◌else◌, Map,
  lookup, lookup-insert,
}
use tdlua.Cleanup.{Work, no_work, close, notify, Record, Queue, Cleanup}
use tdlua.Cleanup.Queues.{
  modify_at, modify, queue_of, set_queue, link_next, link_previous, idle_record, take_out,
  push_back,
}
use tdlua.Cleanup.Queues.Chain.{points}

abbrev pub changed : Bool → (Record → Record) → Option Record → Option Record
changed b f none = none
changed b f (some r) = if b then some (f r) else some r

abbrev pub work_at : Option Record → Work
work_at none = no_work
work_at (some r) = r.work

abbrev pub next_at : Option Record → Option ℕ
next_at none = none
next_at (some r) = r.next

abbrev pub previous_at : Option Record → Option ℕ
previous_at none = none
previous_at (some r) = r.previous

abbrev pub with_next : Option ℕ → Record → Record
with_next n r = record r { next = n }

abbrev pub with_previous : Option ℕ → Record → Record
with_previous p r = record r { previous = p }

abbrev Modified : Option Record → ℕ → ℕ → (Record → Record) → Cleanup → Type 0
Modified o i j f l = lookup j (modify_at i f o l.records) ≡ changed (i == j) f (lookup j l.records)

same_key : (i j : ℕ) (m : Map Record) → (i == j) ≡ true → lookup i m ≡ lookup j m
same_key i j m e = ap (λ x. lookup x m) (ground arith)

lookup-modify_at :
    (i j : ℕ) (f : Record → Record) (l : Cleanup) (o : Option Record)
    → lookup i l.records ≡ o
    → Modified o i j f l
lookup-modify_at i j f l none e = ground (arith, e, same_key i j l.records)
lookup-modify_at i j f l (some r) e =
    ground (arith, e, lookup-insert i j (f r) l.records, same_key i j l.records)

pub lookup-modify :
    (i j : ℕ) (f : Record → Record) (l : Cleanup)
    → lookup j (modify i f l).records ≡ changed (i == j) f (lookup j l.records)
unfolding modify
lookup-modify i j f l = lookup-modify_at i j f l (lookup i l.records) refl

unchanged : (f : Record → Record) (o : Option Record) → o ≡ changed false f o
unchanged f none = refl
unchanged f (some r) = refl

set_queue-records : (w : Work) (q : Queue) (l : Cleanup) → (set_queue w q l).records ≡ l.records
set_queue-records no_work q l = refl
set_queue-records close q l = refl
set_queue-records notify q l = refl

lookup-link_next :
    (j : ℕ) (w : Work) (p n : Option ℕ) (l : Cleanup)
    → lookup j (link_next w p n l).records ≡ changed (points p j) (with_next n) (lookup j l.records)
lookup-link_next j w none n l =
    ap (lookup j) (set_queue-records w (record (queue_of w l) { head = n }) l)
    ∙ unchanged (with_next n) (lookup j l.records)
lookup-link_next j w (some p) n l = lookup-modify p j (with_next n) l

lookup-link_previous :
    (j : ℕ) (w : Work) (n p : Option ℕ) (l : Cleanup)
    → lookup j (link_previous w n p l).records
      ≡ changed (points n j) (with_previous p) (lookup j l.records)
lookup-link_previous j w none p l =
    ap (lookup j) (set_queue-records w (record (queue_of w l) { tail = p }) l)
    ∙ unchanged (with_previous p) (lookup j l.records)
lookup-link_previous j w (some n) p l = lookup-modify n j (with_previous p) l

-- The records after `unlink` of a record with work, and after the appending of one.
pub lookup-take_out :
    (i j : ℕ) (w : Work) (p n : Option ℕ) (l : Cleanup)
    → lookup j (take_out i w p n l).records
      ≡ changed (i == j) idle_record (
          changed
            (points n j)
            (with_previous p)
            (changed (points p j) (with_next n) (lookup j l.records)))
unfolding take_out
lookup-take_out i j w p n l =
    lookup-modify i j idle_record (link_previous w n p (link_next w p n l))
    ∙ ap (changed (i == j) idle_record) (
        lookup-link_previous j w n p (link_next w p n l)
        ∙ ap (changed (points n j) (with_previous p)) (lookup-link_next j w p n l))

abbrev pub with_work : Work → Option ℕ → Record → Record
with_work w p r = record r { work = w; previous = p }

pub lookup-push_back :
    (i j : ℕ) (w : Work) (l : Cleanup)
    → lookup j (push_back i w l).records
      ≡ changed
          (points (queue_of w l).tail j)
          (with_next (some i))
          (changed (i == j) (with_work w (queue_of w l).tail) (lookup j l.records))
unfolding push_back
lookup-push_back i j w l =
    ap (lookup j) (
      set_queue-records w
        (record (queue_of w (
          link_next w (queue_of w l).tail (some i)
            (modify i (with_work w (queue_of w l).tail) l))) { tail = some i })
        (link_next w (queue_of w l).tail (some i) (modify i (with_work w (queue_of w l).tail) l)))
    ∙ lookup-link_next j w (queue_of w l).tail (some i)
        (modify i (with_work w (queue_of w l).tail) l)
    ∙ ap (changed (points (queue_of w l).tail j) (with_next (some i)))
        (lookup-modify i j (with_work w (queue_of w l).tail) l)
