-- ===== src/Receiver/Sends.antt =====
-- `admitSend` and `endSend`: a send enters the ledger of the clients to close and the demand of the
-- receiver in one critical section of both.
pub mod Rollback
pub mod Refusal
use tdlua.Prelude.{
  ℕ, suc, Bool, true, false, ◌&&◌, ◌||◌, not, Option, none, some, Map, lookup, insert, erase,
  nonzero, if◌then◌else◌,
}
use tdlua.Mailbox.{ResponseClass, generic_raw, managed_protected, lifecycle, is_failure}
use tdlua.Receiver.State.{Entry, Runtime, Outcome, ok, thrown, touch, set_entry, receiver_failed}
use tdlua.Receiver.State
use tdlua.Receiver.Demand.{less_one, start_locked, erase_pending_request}
use tdlua.Cleanup.{Cleanup}
use tdlua.Cleanup.Ledger
use tdlua.Cleanup.Ledger.{Reply, returns, raises}

-- The answer of the call: whether the send is admitted, or the exception, of this class or of the
-- ledger.
pub data Admission : Type 0 where
  answers : Bool → Admission
  runtime_throws : State.Fault → Admission
  ledger_throws : Ledger.Fault → Admission
  no_memory : Admission

-- Whether the worker's thread can be created, where it has to be, and the two maps of the entry can
-- grow.
pub data Memory : Type 0 where
  plenty none_to_start none_to_pend none_to_protect : Memory

abbrev pub may_start : Memory → Bool
may_start plenty = true
may_start none_to_start = false
may_start none_to_pend = true
may_start none_to_protect = true

abbrev pub is_protected : ResponseClass → Bool
is_protected generic_raw = false
is_protected managed_protected = true
is_protected lifecycle = true

-- `++pending_requests[request_id]`
abbrev pub raise : ℕ → Option ℕ → Map ℕ → Map ℕ
raise request none m = insert request 1 m
raise request (some n) m = insert request (suc n) m

unfoldable pub add_pending : ℕ → Entry → Entry
add_pending request e = record e {
  pending_requests = raise request (lookup request e.pending_requests) e.pending_requests;
}

abbrev pub protect : ℕ → Bool → ResponseClass → Entry → Entry
protect request closing response_class e = record e {
  protected_requests =
      insert request (if closing then lifecycle else response_class) e.protected_requests;
}

abbrev pub unprotect : ℕ → Entry → Entry
unprotect request e = record e { protected_requests = erase request e.protected_requests }

-- The handler of an exception, on the entry; no lifecycle demand has been added by then.
abbrev pub rolled_back : Bool → ℕ → Entry → Entry
rolled_back pending_added request e =
    let e' = if pending_added then erase_pending_request request e else e in
    if nonzero request then unprotect request e' else e'

abbrev pub add_lifecycle : Bool → Entry → Entry
add_lifecycle closing e =
    if closing then record e { lifecycle_demands = suc e.lifecycle_demands } else e

abbrev pub unsent : Bool → ℕ → Entry → Entry
unsent closing request e =
    let e' = unprotect request (if nonzero request then erase_pending_request request e else e) in
    if closing then record e' { lifecycle_demands = less_one e'.lifecycle_demands } else e'

module _ {A : Type 0} where
  -- The entry and the ledger after an exception.
  abbrev pub undo :
      ℕ → Bool → Admission → Entry → Runtime A → Cleanup → Admission × Runtime A × Cleanup
  undo id closing a e r l = (a, set_entry id e r, Ledger.end_send id closing false l)

  abbrev pub track :
      ℕ
      → Bool
      → ℕ
      → ResponseClass
      → Memory
      → Entry
      → Runtime A
      → Cleanup
      → Admission × Runtime A × Cleanup
  track id closing request response_class none_to_pend e r l =
      undo id closing no_memory (rolled_back false request e) r l
  track id closing request response_class none_to_protect e r l =
      undo id closing no_memory (rolled_back true request (add_pending request e)) r l
  track id closing request response_class plenty e r l = (
    answers true,
    touch (
        set_entry id
          (add_lifecycle closing (protect request closing response_class (add_pending request e)))
          r),
    l,
  )
  track id closing request response_class none_to_start e r l = (
    answers true,
    touch (
        set_entry id
          (add_lifecycle closing (protect request closing response_class (add_pending request e)))
          r),
    l,
  )

  -- The request that the demand follows, where it has an id.
  abbrev pub track_request :
      ℕ
      → Bool
      → ℕ
      → ResponseClass
      → Memory
      → Entry
      → Runtime A
      → Cleanup
      → Admission × Runtime A × Cleanup
  track_request id closing request response_class memory e r l =
      if nonzero request
      then track id closing request response_class memory e r l
      else (answers true, touch (set_entry id (add_lifecycle closing e) r), l)

  abbrev pub demand_started :
      ℕ
      → Bool
      → ℕ
      → ResponseClass
      → Memory
      → Entry
      → Outcome (Unit {0}) × Runtime A
      → Cleanup
      → Admission × Runtime A × Cleanup
  demand_started id closing request response_class memory e (ok u, r) l =
      track_request id closing request response_class memory e r l
  demand_started id closing request response_class memory e (thrown f, r) l =
      undo id closing (runtime_throws f) (rolled_back false request e) r l

  -- The part inside `try`, for the entry that was found.
  abbrev pub admit_entry :
      ℕ
      → Bool
      → ℕ
      → ResponseClass
      → Memory
      → Option Entry
      → Runtime A
      → Cleanup
      → Admission × Runtime A × Cleanup
  admit_entry id closing request response_class memory none r l = (answers true, r, l)
  admit_entry id closing request response_class memory (some e) r l =
      if closing || is_protected response_class
      then demand_started id closing request response_class memory e
          (start_locked (may_start memory) r) l
      else (answers true, touch r, l)

  abbrev pub admit_begun :
      ℕ
      → Bool
      → ℕ
      → ResponseClass
      → Memory
      → Runtime A
      → Reply Bool × Cleanup
      → Admission × Runtime A × Cleanup
  admit_begun id closing request response_class memory r (raises f, l) = (ledger_throws f, r, l)
  admit_begun id closing request response_class memory r (returns false, l) = (answers false, r, l)
  admit_begun id closing request response_class memory r (returns true, l) =
      admit_entry id closing request response_class memory (lookup id r.entries) r l

  unfoldable pub admit_send :
      ℕ → Bool → ℕ → ResponseClass → Memory → Runtime A → Cleanup → Admission × Runtime A × Cleanup
  unfolding touch set_entry start_locked add_pending erase_pending_request Ledger.end_send
  admit_send id closing request response_class memory r l =
      if is_failure r.failure
      then ((if closing then answers false else runtime_throws (receiver_failed r.failure)), r, l)
      else admit_begun id closing request response_class memory r (Ledger.begin_send id closing l)

  abbrev pub end_send_at : ℕ → Bool → ℕ → Bool → Option Entry → Runtime A → Runtime A
  end_send_at id closing request sent none r = r
  end_send_at id closing request sent (some e) r =
      if sent then r else touch (set_entry id (unsent closing request e) r)

  unfoldable pub end_send : ℕ → Bool → ℕ → Bool → Runtime A → Runtime A
  unfolding touch set_entry erase_pending_request
  end_send id closing request sent r = end_send_at id closing request sent (lookup id r.entries) r
