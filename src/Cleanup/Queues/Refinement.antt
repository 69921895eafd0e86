-- ===== src/Cleanup/Queues/Refinement.antt =====
-- `unlink`, `refreshWork` and `retireIfReady` are operations of two lists.
use tdlua.Prelude.{
  ℕ, ◌≡◌, refl, ◌∙◌, sym, ap, subst, true, false, Option, none, some, List, [], ◌∷◌, ◌++◌, arith,
  ◌==◌, is_some, if◌then◌else◌, Map, lookup,
}
use tdlua.Cleanup.{Work, no_work, close, notify, Record, Queue, Cleanup}
use tdlua.Cleanup.Queues.{same_work, take_out, unlink_at, unlink, push_back}
use tdlua.Cleanup.Queues.Chain.{mem, next_in, previous_in, without, points, next-mem, previous-mem}
use tdlua.Cleanup.Queues.Append.{last-mem}
use tdlua.Cleanup.Queues.Effects.{work_at, next_at, previous_at, lookup-take_out, lookup-push_back}
use tdlua.Cleanup.Queues.Ends.{closed_up, joined, queue-take_out, queue-push_back}
use tdlua.Cleanup.Queues.Represents.{
  Lines, Chained, Detached, Represents, taken, added, without-Chained, snoc-Chained,
}
use tdlua.Cleanup.Queues.Bystanders.{other-taken, other-added, taken-Detached, added-Detached}

-- The abstract queues.
abbrev pub leave_line : Work → ℕ → Lines → Lines
leave_line no_work i a = a
leave_line close i a = record a { closing = without i a.closing }
leave_line notify i a = record a { notifying = without i a.notifying }

abbrev pub join_line : Work → ℕ → Lines → Lines
join_line no_work i a = a
join_line close i a = record a { closing = a.closing ++ i ∷ [] }
join_line notify i a = record a { notifying = a.notifying ++ i ∷ [] }

abbrev pub requeue : ℕ → Work → Work → Lines → Lines
requeue i from want a = if same_work from want then a else join_line want i (leave_line from i a)

-- A record with one kind of work has no other.
pub one_work :
    (w v : Work) (o : Option Record)
    → same_work w v ≡ false
    → same_work w (work_at o) ≡ true
    → same_work v (work_at o) ≡ false
one_work w v o h e = ground arith

pub swapped : (w v : Work) → same_work w v ≡ false → same_work v w ≡ false
swapped w v h = ground arith

module _ (w v : Work) (nw : same_work w no_work ≡ false) (nv : same_work v no_work ≡ false)
    (wv : same_work w v ≡ false) (q : Queue) (xs : List ℕ) (q₂ : Queue) (ys : List ℕ)
    (m : Map Record) (own : Chained w q xs m) (other : Chained v q₂ ys m) (rest : Detached m) where
  apart :
      (p : Option ℕ)
      → ((j : ℕ) → points p j ≡ true → mem j xs ≡ true)
      → (j : ℕ) → mem j ys ≡ true
      → points p j ≡ false
  apart p h j e = ground (arith, h j, own.3 j, other.3 j, one_work w v (lookup j m) wv)

  has_work :
      (p : Option ℕ)
      → ((j : ℕ) → points p j ≡ true → mem j xs ≡ true)
      → (j : ℕ) → points p j ≡ true
      → same_work no_work (work_at (lookup j m)) ≡ false
  has_work p h j e = one_work w no_work (lookup j m) nw (own.3 j ∙ h j e)

  taken_both :
      (i : ℕ) (q' q₂' : Queue) (m' : Map Record)
      → mem i xs ≡ true
      → q' ≡ closed_up (previous_in xs i) (next_in xs i) q
      → q₂' ≡ q₂
      → ((j : ℕ) → lookup j m' ≡ taken (i == j) (previous_in xs i) (next_in xs i) j (lookup j m))
      → Chained w q' (without i xs) m' × Chained v q₂' ys m' × Detached m'
  taken_both i q' q₂' m' h e e₂ el = (
    without-Chained w i q q' xs m m' own nw h e el,
    other-taken v i q₂ q₂' ys (previous_in xs i) (next_in xs i) m m' other nv
        (sym (other.3 i) ∙ one_work w v (lookup i m) wv (own.3 i ∙ h))
        (λ j g. ground (
          arith,
          apart (previous_in xs i) (λ k. previous-mem i k xs) j g,
          apart (next_in xs i) (λ k. next-mem i k xs) j g,
        ))
        e₂ el,
    taken-Detached i w (previous_in xs i) (next_in xs i) m m' rest
        (has_work (previous_in xs i) (λ k. previous-mem i k xs)) el,
  )

  added_both :
      (i : ℕ) (q' q₂' : Queue) (m' : Map Record)
      → is_some (lookup i m) ≡ true
      → same_work no_work (work_at (lookup i m)) ≡ true
      → q' ≡ joined i q
      → q₂' ≡ q₂
      → ((j : ℕ) → lookup j m' ≡ added (i == j) w q.tail i j (lookup j m))
      → Chained w q' (xs ++ i ∷ []) m' × Chained v q₂' ys m' × Detached m'
  added_both i q' q₂' m' here free e e₂ el = (
    snoc-Chained w i q q' xs m m' own nw
        (sym (own.3 i) ∙ one_work no_work w (lookup i m) (swapped w no_work nw) free) here
        (rest i free) e el,
    other-added w v i q₂ q₂' ys q.tail m m' other nv (swapped w v wv)
        (sym (other.3 i) ∙ one_work no_work v (lookup i m) (swapped v no_work nv) free)
        (apart q.tail (λ k g. last-mem k xs (ap (λ x. points x k) (sym own.2) ∙ g))) e₂ el,
    added-Detached i w q.tail m m' rest (swapped w no_work nw) here
        (has_work q.tail (λ k g. last-mem k xs (ap (λ x. points x k) (sym own.2) ∙ g))) el,
  )

taken_close :
    (i : ℕ) (l : Cleanup) (a : Lines)
    → Represents l a
    → mem i a.closing ≡ true
    → Represents
        (take_out i close (previous_in a.closing i) (next_in a.closing i) l)
        (leave_line close i a)
taken_close i l a (c, n, d) h =
    let p = previous_in a.closing i in
    let x = next_in a.closing i in
    taken_both close notify refl refl refl l.closes a.closing l.notifies a.notifying l.records c n d
      i (take_out i close p x l).closes (take_out i close p x l).notifies
      (take_out i close p x l).records h (queue-take_out i close close p x l)
      (queue-take_out i close notify p x l) (λ j. lookup-take_out i j close p x l)

taken_notify :
    (i : ℕ) (l : Cleanup) (a : Lines)
    → Represents l a
    → mem i a.notifying ≡ true
    → Represents
        (take_out i notify (previous_in a.notifying i) (next_in a.notifying i) l)
        (leave_line notify i a)
taken_notify i l a (c, n, d) h =
    let p = previous_in a.notifying i in
    let x = next_in a.notifying i in
    let t =
      taken_both notify close refl refl refl l.notifies a.notifying l.closes a.closing l.records n c
        d i (take_out i notify p x l).notifies (take_out i notify p x l).closes
        (take_out i notify p x l).records h (queue-take_out i notify notify p x l)
        (queue-take_out i notify close p x l) (λ j. lookup-take_out i j notify p x l) in
    (t.1, t.0, t.2)

pair : {p p' n n' : Option ℕ} → p ≡ p' → n ≡ n' → ◌≡◌ {A = Option ℕ × Option ℕ} (p, n) (p', n')
pair e f = rw (e, f) refl

take_out-Represents :
    (w : Work) (i : ℕ) (l : Cleanup) (a : Lines) (r : Record)
    → Represents l a
    → lookup i l.records ≡ some r
    → r.work ≡ w
    → same_work w no_work ≡ false
    → Represents (take_out i w r.previous r.next l) (leave_line w i a)
take_out-Represents no_work i l a r h e g nw = cc
take_out-Represents close i l a r (c, n, d) e g nw =
    let h = sym (c.3 i) ∙ ap (λ x. same_work close (work_at x)) e ∙ ap (same_work close) g in
    subst
      (λ (x : Option ℕ × Option ℕ). Represents (take_out i close x.0 x.1 l) (leave_line close i a))
      (pair (sym (c.5 i h) ∙ ap previous_at e) (sym (c.4 i h) ∙ ap next_at e))
      (taken_close i l a (c, n, d) h)
take_out-Represents notify i l a r (c, n, d) e g nw =
    let h = sym (n.3 i) ∙ ap (λ x. same_work notify (work_at x)) e ∙ ap (same_work notify) g in
    subst
      (λ (x : Option ℕ × Option ℕ).
        Represents (take_out i notify x.0 x.1 l) (leave_line notify i a))
      (pair (sym (n.5 i h) ∙ ap previous_at e) (sym (n.4 i h) ∙ ap next_at e))
      (taken_notify i l a (c, n, d) h)

unlink_at-Represents :
    (i : ℕ) (l : Cleanup) (a : Lines) (o : Option Record)
    → Represents l a
    → lookup i l.records ≡ o
    → Represents (unlink_at i o l) (leave_line (work_at o) i a)
unlink_at-Represents i l a none h e = h
unlink_at-Represents i l a (some r) h e = if_work r.work refl
  where
    if_work :
        (w : Work)
        → r.work ≡ w
        → Represents
            (if same_work w no_work then l else take_out i w r.previous r.next l)
            (leave_line w i a)
    if_work no_work g = h
    if_work close g = take_out-Represents close i l a r h e g refl
    if_work notify g = take_out-Represents notify i l a r h e g refl

pub unlink-Represents :
    (i : ℕ) (l : Cleanup) (a : Lines)
    → Represents l a
    → Represents (unlink i l) (leave_line (work_at (lookup i l.records)) i a)
unfolding unlink
unlink-Represents i l a h = unlink_at-Represents i l a (lookup i l.records) h refl

-- What appending keeps: that the record is there, and has no work yet.
abbrev pub Waits : ℕ → Cleanup → Type 0
Waits i l =
    (is_some (lookup i l.records) ≡ true)
    × (same_work no_work (work_at (lookup i l.records)) ≡ true)

pub push_back-Represents :
    (w : Work) (i : ℕ) (l : Cleanup) (a : Lines)
    → Represents l a
    → Waits i l
    → same_work w no_work ≡ false
    → Represents (push_back i w l) (join_line w i a)
push_back-Represents no_work i l a h f nw = cc
push_back-Represents close i l a (c, n, d) (here, free) nw =
    added_both close notify refl refl refl l.closes a.closing l.notifies a.notifying l.records c n d
      i (push_back i close l).closes (push_back i close l).notifies (push_back i close l).records
      here free (queue-push_back i close close l) (queue-push_back i close notify l)
      (λ j. lookup-push_back i j close l)
push_back-Represents notify i l a (c, n, d) (here, free) nw =
    let t =
      added_both notify close refl refl refl l.notifies a.notifying l.closes a.closing l.records n c
        d i (push_back i notify l).notifies (push_back i notify l).closes
        (push_back i notify l).records here free (queue-push_back i notify notify l)
        (queue-push_back i notify close l) (λ j. lookup-push_back i j notify l) in
    (t.1, t.0, t.2)
