-- ===== src/Cleanup/Cores.antt =====
-- What a ledger holds besides its two queues: linking and unlinking keeps it.
use tdlua.Prelude.{
  ℕ, suc, ◌≡◌, refl, ◌∙◌, Option, none, some, [], ◌∷◌, arith, if_split, Map, lookup, insert,
  map_values,
}
use tdlua.Prelude.Keys.{Ascending, Sorted, insert-Sorted, lookup_below}
use tdlua.Cleanup.{Work, no_work, close, notify, Record, Queue, no_queue, Cleanup}
use tdlua.Cleanup.Queues.{
  same_work, idle_record, modify_at, modify, queue_of, set_queue, link_next, link_previous,
  uncount_work, count_work, take_out, unlink_at, unlink, push_back, desired, move_to, refresh_at,
  refresh_work,
}

abbrev pub cores : Map Record → Map Record
cores m = map_values idle_record m

abbrev pub outside : Cleanup → Cleanup
outside l = record l {
  records = [];
  closes = no_queue;
  notifies = no_queue;
  stats = record l.stats { close_work = 0; notification_work = 0; record_visits = 0 };
}

-- `l'` differs from `l` in the queues alone.
abbrev pub Kept : Cleanup → Cleanup → Type 0
Kept l l' = Sorted l'.records × (cores l'.records ≡ cores l.records) × (outside l' ≡ outside l)

pub Kept-trans : (l l' l'' : Cleanup) → Kept l l' → Kept l' l'' → Kept l l''
Kept-trans l l' l'' (s, c, o) (s', c', o') = (s', c' ∙ c, o' ∙ o)

cores-insert :
    (i : ℕ) (r r' : Record) (lo hi : ℕ) (m : Map Record)
    → Ascending lo hi m
    → lookup i m ≡ some r
    → idle_record r' ≡ idle_record r
    → cores (insert i r' m) ≡ cores m
unfolding lookup insert map_values
cores-insert i r r' lo hi [] a h e = cc
cores-insert i r r' lo hi ((j, x) ∷ m) a h e =
    ground (arith, cores-insert i r r' (suc j) hi m a.2, lookup_below i (suc j) hi m a.2, e)

modify_at-Kept :
    (i : ℕ) (f : Record → Record) (l : Cleanup) (o : Option Record)
    → Sorted l.records
    → lookup i l.records ≡ o
    → ((r : Record) → idle_record (f r) ≡ idle_record r)
    → Kept l (record l { records = modify_at i f o l.records })
modify_at-Kept i f l none s h e = (s, refl, refl)
modify_at-Kept i f l (some r) s h e =
    (insert-Sorted i (f r) l.records s, cores-insert i r (f r) 0 s.0 l.records s.1 h (e r), refl)

pub modify-Kept :
    (i : ℕ) (f : Record → Record) (l : Cleanup)
    → Sorted l.records
    → ((r : Record) → idle_record (f r) ≡ idle_record r)
    → Kept l (modify i f l)
unfolding modify
modify-Kept i f l s e = modify_at-Kept i f l (lookup i l.records) s refl e

set_queue-Kept : (w : Work) (q : Queue) (l : Cleanup) → Sorted l.records → Kept l (set_queue w q l)
set_queue-Kept no_work q l s = (s, refl, refl)
set_queue-Kept close q l s = (s, refl, refl)
set_queue-Kept notify q l s = (s, refl, refl)

uncount_work-Kept :
    (w : Work) (l : Cleanup)
    → Sorted l.records
    → Kept l (record l { stats = uncount_work w l.stats })
uncount_work-Kept no_work l s = (s, refl, refl)
uncount_work-Kept close l s = (s, refl, refl)
uncount_work-Kept notify l s = (s, refl, refl)

count_work-Kept :
    (w : Work) (l : Cleanup) → Sorted l.records → Kept l (record l { stats = count_work w l.stats })
count_work-Kept no_work l s = (s, refl, refl)
count_work-Kept close l s = (s, refl, refl)
count_work-Kept notify l s = (s, refl, refl)

link_next-Kept :
    (w : Work) (p n : Option ℕ) (l : Cleanup) → Sorted l.records → Kept l (link_next w p n l)
link_next-Kept w none n l s = set_queue-Kept w (record (queue_of w l) { head = n }) l s
link_next-Kept w (some p) n l s = modify-Kept p (λ r. record r { next = n }) l s (λ r. refl)

link_previous-Kept :
    (w : Work) (n p : Option ℕ) (l : Cleanup) → Sorted l.records → Kept l (link_previous w n p l)
link_previous-Kept w none p l s = set_queue-Kept w (record (queue_of w l) { tail = p }) l s
link_previous-Kept w (some n) p l s = modify-Kept n (λ r. record r { previous = p }) l s (λ r. refl)

-- One more step that keeps all.
Kept-then : (l l' l'' : Cleanup) → Kept l l' → (Sorted l'.records → Kept l' l'') → Kept l l''
Kept-then l l' l'' k f = Kept-trans l l' l'' k (f k.0)

take_out-Kept :
    (i : ℕ) (w : Work) (p n : Option ℕ) (l : Cleanup)
    → Sorted l.records
    → Kept l (take_out i w p n l)
unfolding take_out
take_out-Kept i w p n l s =
    let l₁ = link_next w p n l in
    let l₂ = link_previous w n p l₁ in
    let l₃ = record l₂ { stats = uncount_work w l₂.stats } in
    Kept-then l l₃ (modify i idle_record l₃)
      (Kept-then l l₂ l₃
        (Kept-then l l₁ l₂ (link_next-Kept w p n l s) (link_previous-Kept w n p l₁))
        (uncount_work-Kept w l₂))
      (λ t. modify-Kept i idle_record l₃ t (λ r. refl))

unlink_at-Kept :
    (i : ℕ) (o : Option Record) (l : Cleanup) → Sorted l.records → Kept l (unlink_at i o l)
unlink_at-Kept i none l s = (s, refl, refl)
unlink_at-Kept i (some r) l s =
    if_split (Kept l) (same_work r.work no_work) (λ e. (s, refl, refl))
      (λ e. take_out-Kept i r.work r.previous r.next l s)

pub unlink-Kept : (i : ℕ) (l : Cleanup) → Sorted l.records → Kept l (unlink i l)
unfolding unlink
unlink-Kept i l s = unlink_at-Kept i (lookup i l.records) l s

push_back-Kept : (i : ℕ) (w : Work) (l : Cleanup) → Sorted l.records → Kept l (push_back i w l)
unfolding push_back
push_back-Kept i w l s =
    let t = (queue_of w l).tail in
    let l₀ = modify i (λ r. record r { work = w; previous = t }) l in
    let l₁ = link_next w t (some i) l₀ in
    let l₂ = set_queue w (record (queue_of w l₁) { tail = some i }) l₁ in
    Kept-then l l₂ (record l₂ { stats = count_work w l₂.stats })
      (Kept-then l l₁ l₂
        (Kept-then l l₀ l₁
          (modify-Kept i (λ r. record r { work = w; previous = t }) l s (λ r. refl))
          (link_next-Kept w t (some i) l₀))
        (set_queue-Kept w (record (queue_of w l₁) { tail = some i }) l₁))
      (count_work-Kept w l₂)

move_to-Kept :
    (i : ℕ) (w want : Work) (l : Cleanup) → Sorted l.records → Kept l (move_to i w want l)
move_to-Kept i w want l s =
    let k = unlink-Kept i l s in
    if_split (Kept l) (same_work w want) (λ e. (s, refl, refl))
      (λ e.
        if_split (Kept l) (same_work want no_work) (λ f. k)
          (λ f.
            Kept-then l (unlink i l) (push_back i want (unlink i l)) k
              (push_back-Kept i want (unlink i l))))

pub refresh_work-Kept : (i : ℕ) (l : Cleanup) → Sorted l.records → Kept l (refresh_work i l)
unfolding refresh_work
refresh_work-Kept i l s = split (lookup i l.records)
  where
    split : (o : Option Record) → Kept l (refresh_at i o l)
    split none = (s, refl, refl)
    split (some r) = move_to-Kept i r.work (desired l.failed r) l s
