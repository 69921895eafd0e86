-- ===== src/Cleanup/Queues.antt =====
-- `unlink`, `refreshWork` and `retireIfReady`: the two queues of records with work, linked through
-- the records themselves.
pub mod Chain
pub mod Unlink
pub mod Append
pub mod Effects
pub mod Ends
pub mod Represents
pub mod Bystanders
pub mod Refinement
pub mod Requeue
use tdlua.Prelude.{
  ℕ, suc, Bool, true, false, ◌&&◌, ◌||◌, not, Option, none, some, Map, lookup, insert, erase,
  nonzero, decrement, if◌then◌else◌,
}
use tdlua.Cleanup.{Work, no_work, close, notify, Record, Queue, Stats, Cleanup}

abbrev pub same_work : Work → Work → Bool
same_work no_work no_work = true
same_work close close = true
same_work notify notify = true
same_work _ _ = false

-- `*pointer`, for a write to a record that is there.
abbrev pub modify_at : ℕ → (Record → Record) → Option Record → Map Record → Map Record
modify_at id f none m = m
modify_at id f (some r) m = insert id (f r) m

unfoldable pub modify : ℕ → (Record → Record) → Cleanup → Cleanup
modify id f l = record l { records = modify_at id f (lookup id l.records) l.records }

-- `queue(work)`
abbrev pub queue_of : Work → Cleanup → Queue
queue_of no_work l = l.closes
queue_of close l = l.closes
queue_of notify l = l.notifies

abbrev pub set_queue : Work → Queue → Cleanup → Cleanup
set_queue no_work q l = record l { closes = q }
set_queue close q l = record l { closes = q }
set_queue notify q l = record l { notifies = q }

-- `previous->next = next`, or the head of the queue where there is no previous record.
abbrev pub link_next : Work → Option ℕ → Option ℕ → Cleanup → Cleanup
link_next w none next l = set_queue w (record (queue_of w l) { head = next }) l
link_next w (some p) next l = modify p (λ r. record r { next = next }) l

-- `next->previous = previous`, or the tail of the queue where there is no next record.
abbrev pub link_previous : Work → Option ℕ → Option ℕ → Cleanup → Cleanup
link_previous w none previous l = set_queue w (record (queue_of w l) { tail = previous }) l
link_previous w (some n) previous l = modify n (λ r. record r { previous = previous }) l

abbrev pub uncount_work : Work → Stats → Stats
uncount_work no_work s = s
uncount_work close s = record s { close_work = decrement s.close_work }
uncount_work notify s = record s { notification_work = decrement s.notification_work }

abbrev pub count_work : Work → Stats → Stats
count_work no_work s = s
count_work close s = record s { close_work = suc s.close_work }
count_work notify s = record s { notification_work = suc s.notification_work }

abbrev pub idle_record : Record → Record
idle_record r = record r { work = no_work; previous = none; next = none }

-- The body of `unlink` for a record with work.
unfoldable pub take_out : ℕ → Work → Option ℕ → Option ℕ → Cleanup → Cleanup
unfolding modify
take_out id w previous next l =
    let l' = link_previous w next previous (link_next w previous next l) in
    modify id idle_record (record l' { stats = uncount_work w l'.stats })

abbrev pub unlink_at : ℕ → Option Record → Cleanup → Cleanup
unlink_at id none l = l
unlink_at id (some r) l =
    if same_work r.work no_work then l else take_out id r.work r.previous r.next l

unfoldable pub unlink : ℕ → Cleanup → Cleanup
unfolding take_out
unlink id l = unlink_at id (lookup id l.records) l

-- The end of `refreshWork`: at the tail of the queue.
unfoldable pub push_back : ℕ → Work → Cleanup → Cleanup
unfolding modify
push_back id w l =
    let tail = (queue_of w l).tail in
    let l₁ =
      link_next w tail (some id) (modify id (λ r. record r { work = w; previous = tail }) l) in
    let l₂ = set_queue w (record (queue_of w l₁) { tail = some id }) l₁ in
    record l₂ { stats = count_work w l₂.stats }

-- What a record needs, where the ledger has failed or not.
unfoldable pub desired : Bool → Record → Work
desired failed r =
    if not r.busy
      && not r.notified
      && (r.terminal || failed && not r.materialized && not r.uncertain && not (nonzero r.active))
    then notify
    else if not r.busy
        && r.materialized
        && not r.terminal
        && not r.close_sent
        && not r.close_uncertain
    then close
    else no_work

abbrev pub move_to : ℕ → Work → Work → Cleanup → Cleanup
move_to id from want l =
    if same_work from want
    then l
    else (let l' = unlink id l in if same_work want no_work then l' else push_back id want l')

abbrev pub refresh_at : ℕ → Option Record → Cleanup → Cleanup
refresh_at id none l = l
refresh_at id (some r) l = move_to id r.work (desired l.failed r) l

unfoldable pub refresh_work : ℕ → Cleanup → Cleanup
unfolding unlink push_back desired
refresh_work id l = refresh_at id (lookup id l.records) l

-- No client call, effect or terminal update is to come.
unfoldable pub is_ready : Record → Bool
is_ready r = not (
    not r.notified
    || nonzero r.active
    || r.busy
    || not r.terminal && (r.materialized || r.uncertain))

abbrev pub uncount_record : Record → Stats → Stats
uncount_record r s = record s {
  reserved = if r.materialized then s.reserved else decrement s.reserved;
  terminal_records = if r.terminal then decrement s.terminal_records else s.terminal_records;
  records = decrement s.records;
}

abbrev pub remove : ℕ → Record → Cleanup → Cleanup
remove id r l = record l { records = erase id l.records; stats = uncount_record r l.stats }

abbrev pub retire_at : ℕ → Option Record → Cleanup → Cleanup
retire_at id none l = l
retire_at id (some r) l = if is_ready r then remove id r (unlink id l) else l

unfoldable pub retire_if_ready : ℕ → Cleanup → Cleanup
unfolding unlink is_ready
retire_if_ready id l = retire_at id (lookup id l.records) l
