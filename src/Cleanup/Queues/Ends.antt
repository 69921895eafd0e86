-- ===== src/Cleanup/Queues/Ends.antt =====
-- What `unlink` and `refreshWork` leave of the heads and tails of the queues.
use tdlua.Prelude.{
  ℕ, ◌≡◌, refl, ◌∙◌, ap, Bool, true, false, not, Option, none, some, is_some, if◌then◌else◌,
}
use tdlua.Cleanup.{Work, no_work, close, notify, Record, Queue, Stats, Cleanup}
use tdlua.Cleanup.Queues.{
  modify, queue_of, set_queue, link_next, link_previous, uncount_work, count_work, idle_record,
  take_out, push_back,
}
use tdlua.Cleanup.Queues.Effects.{with_next, with_previous, with_work}

-- The queues: `queue(Work::None)` is the one of close work.
abbrev pub is_notify : Work → Bool
is_notify notify = true
is_notify _ = false

abbrev pub same_queue : Work → Work → Bool
same_queue w v = if is_notify w then is_notify v else not (is_notify v)

queue-set_queue :
    (w v : Work) (q : Queue) (l : Cleanup)
    → queue_of v (set_queue w q l) ≡ (if same_queue w v then q else queue_of v l)
queue-set_queue no_work no_work q l = refl
queue-set_queue no_work close q l = refl
queue-set_queue no_work notify q l = refl
queue-set_queue close no_work q l = refl
queue-set_queue close close q l = refl
queue-set_queue close notify q l = refl
queue-set_queue notify no_work q l = refl
queue-set_queue notify close q l = refl
queue-set_queue notify notify q l = refl

queue-modify :
    (v : Work) (i : ℕ) (f : Record → Record) (l : Cleanup)
    → queue_of v (modify i f l) ≡ queue_of v l
unfolding modify
queue-modify no_work i f l = refl
queue-modify close i f l = refl
queue-modify notify i f l = refl

abbrev headed : Option ℕ → Option ℕ → Queue → Queue
headed p n q = record { head = if is_some p then q.head else n; tail = q.tail }

abbrev tailed : Option ℕ → Option ℕ → Queue → Queue
tailed n p q = record { head = q.head; tail = if is_some n then q.tail else p }

abbrev pub rejoined : Bool → (Queue → Queue) → Queue → Queue
rejoined b f q = if b then f q else q

own_queue :
    (w v : Work) (f : Queue → Queue) (l : Cleanup)
    → (if same_queue w v then f (queue_of w l) else queue_of v l)
      ≡ rejoined (same_queue w v) f (queue_of v l)
own_queue no_work no_work f l = refl
own_queue no_work close f l = refl
own_queue no_work notify f l = refl
own_queue close no_work f l = refl
own_queue close close f l = refl
own_queue close notify f l = refl
own_queue notify no_work f l = refl
own_queue notify close f l = refl
own_queue notify notify f l = refl

same_rejoined : (b : Bool) (q : Queue) → q ≡ rejoined b (λ x. x) q
same_rejoined true q = refl
same_rejoined false q = refl

queue-link_next :
    (w v : Work) (p n : Option ℕ) (l : Cleanup)
    → queue_of v (link_next w p n l) ≡ rejoined (same_queue w v) (headed p n) (queue_of v l)
queue-link_next w v none n l =
    queue-set_queue w v (record (queue_of w l) { head = n }) l ∙ own_queue w v (headed none n) l
queue-link_next w v (some p) n l =
    queue-modify v p (with_next n) l ∙ same_rejoined (same_queue w v) (queue_of v l)

queue-link_previous :
    (w v : Work) (n p : Option ℕ) (l : Cleanup)
    → queue_of v (link_previous w n p l) ≡ rejoined (same_queue w v) (tailed n p) (queue_of v l)
queue-link_previous w v none p l =
    queue-set_queue w v (record (queue_of w l) { tail = p }) l ∙ own_queue w v (tailed none p) l
queue-link_previous w v (some n) p l =
    queue-modify v n (with_previous p) l ∙ same_rejoined (same_queue w v) (queue_of v l)

queue-with_stats :
    (v : Work) (s : Stats) (l : Cleanup) → queue_of v (record l { stats = s }) ≡ queue_of v l
queue-with_stats no_work s l = refl
queue-with_stats close s l = refl
queue-with_stats notify s l = refl

abbrev pub closed_up : Option ℕ → Option ℕ → Queue → Queue
closed_up p n q = record {
  head = if is_some p then q.head else n;
  tail = if is_some n then q.tail else p;
}

both_ends :
    (b : Bool) (p n : Option ℕ) (q : Queue)
    → rejoined b (tailed n p) (rejoined b (headed p n) q) ≡ rejoined b (closed_up p n) q
both_ends true p n q = refl
both_ends false p n q = refl

abbrev linked_past : Work → Option ℕ → Option ℕ → Cleanup → Cleanup
linked_past w p n l = link_previous w n p (link_next w p n l)

pub queue-take_out :
    (i : ℕ) (w v : Work) (p n : Option ℕ) (l : Cleanup)
    → queue_of v (take_out i w p n l) ≡ rejoined (same_queue w v) (closed_up p n) (queue_of v l)
unfolding take_out modify
queue-take_out i w v p n l =
    queue-modify v i idle_record
      (record (linked_past w p n l) { stats = uncount_work w (linked_past w p n l).stats })
    ∙ queue-with_stats v (uncount_work w (linked_past w p n l).stats) (linked_past w p n l)
    ∙ queue-link_previous w v n p (link_next w p n l)
    ∙ ap (rejoined (same_queue w v) (tailed n p)) (queue-link_next w v p n l)
    ∙ both_ends (same_queue w v) p n (queue_of v l)

abbrev pub joined : ℕ → Queue → Queue
joined i q = record { head = if is_some q.tail then q.head else some i; tail = some i }

-- The steps of `push_back`: the record's own fields, and the link to it.
abbrev joining : ℕ → Work → Cleanup → Cleanup
joining i w l =
    link_next w (queue_of w l).tail (some i) (modify i (with_work w (queue_of w l).tail) l)

queue-push_back_of :
    (i : ℕ) (w v : Work) (l : Cleanup)
    → rejoined
        (same_queue w v)
        (λ q. record q { tail = some i })
        (rejoined (same_queue w v) (headed (queue_of w l).tail (some i)) (queue_of v l))
      ≡ rejoined (same_queue w v) (joined i) (queue_of v l)
queue-push_back_of i no_work no_work l = refl
queue-push_back_of i no_work close l = refl
queue-push_back_of i no_work notify l = refl
queue-push_back_of i close no_work l = refl
queue-push_back_of i close close l = refl
queue-push_back_of i close notify l = refl
queue-push_back_of i notify no_work l = refl
queue-push_back_of i notify close l = refl
queue-push_back_of i notify notify l = refl

pub queue-push_back :
    (i : ℕ) (w v : Work) (l : Cleanup)
    → queue_of v (push_back i w l) ≡ rejoined (same_queue w v) (joined i) (queue_of v l)
unfolding push_back
queue-push_back i w v l =
    queue-with_stats v
      (count_work w
        (set_queue w (record (queue_of w (joining i w l)) { tail = some i }) (joining i w l)).stats)
      (set_queue w (record (queue_of w (joining i w l)) { tail = some i }) (joining i w l))
    ∙ queue-set_queue w v (record (queue_of w (joining i w l)) { tail = some i }) (joining i w l)
    ∙ own_queue w v (λ q. record q { tail = some i }) (joining i w l)
    ∙ ap (rejoined (same_queue w v) (λ q. record q { tail = some i })) (
        queue-link_next w v (queue_of w l).tail (some i)
          (modify i (with_work w (queue_of w l).tail) l)
        ∙ ap (rejoined (same_queue w v) (headed (queue_of w l).tail (some i)))
            (queue-modify v i (with_work w (queue_of w l).tail) l))
    ∙ queue-push_back_of i w v l
