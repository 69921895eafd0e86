-- ===== src/Receiver/Sends/Refusal.antt =====
-- A send that is refused late, or not sent, leaves no demand behind.
use tdlua.Prelude.{
  ℕ, ◌≡◌, refl, sym, ap, ◌∙◌, subst, Bool, true, false, ◌||◌, Option, none, some, lookup,
  lookup-insert, nonzero, arith, ==_refl, if_both, if_split, if◌then◌else◌,
}
use tdlua.Mailbox.{ResponseClass, is_failure}
use tdlua.Receiver.State.{Entry, Runtime, Outcome, ok, thrown, touch, set_entry}
use tdlua.Receiver.Demand.{start_locked}
use tdlua.Receiver.Sends.{
  Admission, answers, runtime_throws, ledger_throws, no_memory, Memory, plenty, none_to_start,
  may_start, none_to_pend, none_to_protect, is_protected, add_pending, protect, rolled_back,
  add_lifecycle, unsent, undo, track, demand_started, admit_entry, admit_begun, admit_send,
  end_send_at, end_send,
}
use tdlua.Prelude.{List}
use tdlua.Prelude.Keys.{Sorted}
use tdlua.Cleanup.{Cleanup}
use tdlua.Cleanup.Pins.{Pins, begin_send-Pins}
use tdlua.Cleanup.Reached.{Use, life, life-Invariant}
use tdlua.Cleanup.Ledger
use tdlua.Cleanup.Ledger.{Reply, returns, raises}
use tdlua.Receiver.Sends.Rollback.{
  SameDemand, Fresh, unsent-track, unsent-untracked, rolled_back-Fresh, rolled_back-pending,
}

abbrev pub is_admitted : Admission → Bool
is_admitted (answers b) = b
is_admitted (runtime_throws f) = false
is_admitted (ledger_throws f) = false
is_admitted no_memory = false

module _ {A : Type 0} where
  -- The client's entry has the demand that it had.
  abbrev pub Keeps : ℕ → Entry → Runtime A → Type 0
  Keeps id e r = (e' : Entry) × (lookup id r.entries ≡ some e') × SameDemand e e'

  stored : (id : ℕ) (e : Entry) (r : Runtime A) → lookup id (set_entry id e r).entries ≡ some e
  unfolding set_entry
  stored id e r =
      lookup-insert id id e r.entries
      ∙ ap (λ b. if b then some e else lookup id r.entries) (==_refl id)

  -- The end of an unsent send, on the entry that is found.
  ended :
      (id : ℕ) (closing : Bool) (request : ℕ) (e e' : Entry) (r : Runtime A)
      → lookup id r.entries ≡ some e'
      → SameDemand e (unsent closing request e')
      → Keeps id e (end_send id closing request false r)
  unfolding end_send touch
  ended id closing request e e' r h k = (
    unsent closing request e',
    ap (λ o. lookup id (end_send_at id closing request false o r).entries) h
        ∙ stored id (unsent closing request e') r,
    k,
  )

module _ {A : Type 0} (id : ℕ) (closing : Bool) (request : ℕ) (e : Entry)
    (fresh : Fresh request e) where
  -- What an answer of `admitSend` leaves: a demand that the end of an unsent send takes back, or no
  -- demand.
  abbrev Leaves : Admission × Runtime A × Cleanup → Type 0
  Leaves x =
      if is_admitted x.0 then Keeps id e (end_send id closing request false x.1) else Keeps id e x.1

  undone :
      (a : Admission) (e' : Entry) (r : Runtime A) (l : Cleanup)
      → is_admitted a ≡ false
      → SameDemand e e'
      → Leaves (undo id closing a e' r l)
  undone a e' r l h k =
      subst
        (λ b.
          if b
          then Keeps id e (end_send id closing request false (set_entry id e' r))
          else Keeps id e (set_entry id e' r))
        (sym h) (e', stored id e' r, k)

  made :
      (response_class : ResponseClass) (r : Runtime A) (l : Cleanup)
      → nonzero request ≡ true
      → Leaves (track id closing request response_class plenty e r l)
  unfolding touch
  made response_class r l n =
      let e' =
        add_lifecycle closing (protect request closing response_class (add_pending request e)) in
      ended id closing request e e' (touch (set_entry id e' r)) (stored id e' r)
        (unsent-track closing request response_class e fresh n)

  tracked :
      (response_class : ResponseClass) (memory : Memory) (r : Runtime A) (l : Cleanup)
      → nonzero request ≡ true
      → Leaves (track id closing request response_class memory e r l)
  unfolding touch
  tracked response_class none_to_pend r l n =
      undone no_memory (rolled_back false request e) r l refl (rolled_back-Fresh request e fresh)
  tracked response_class none_to_protect r l n =
      undone no_memory (rolled_back true request (add_pending request e)) r l refl
        (rolled_back-pending request e fresh n)
  tracked response_class plenty r l n = made response_class r l n
  tracked response_class none_to_start r l n = made response_class r l n

  started :
      (response_class : ResponseClass) (memory : Memory) (o : Outcome (Unit {0})) (r : Runtime A)
      (l : Cleanup)
      → Leaves (demand_started id closing request response_class memory e (o, r) l)
  unfolding touch
  started response_class memory (ok u) r l =
      if_split Leaves (nonzero request) (tracked response_class memory r l) (λ n.
        ended id closing request e (add_lifecycle closing e)
          (touch (set_entry id (add_lifecycle closing e) r)) (stored id (add_lifecycle closing e) r)
          (unsent-untracked closing request e fresh))
  started response_class memory (thrown f) r l =
      undone (runtime_throws f) (rolled_back false request e) r l refl
        (rolled_back-Fresh request e fresh)

  entered :
      (response_class : ResponseClass) (memory : Memory) (r : Runtime A) (l : Cleanup)
      → lookup id r.entries ≡ some e
      → Leaves (admit_entry id closing request response_class memory (some e) r l)
  unfolding touch
  entered response_class memory r l h =
      if_split Leaves (closing || is_protected response_class)
        (λ p.
          started response_class memory (start_locked (may_start memory) r).0
            (start_locked (may_start memory) r).1 l)
        (λ p. ended id closing request e e (touch r) h (
          subst (λ x. SameDemand e (unsent closing request x)) (no_lifecycle p)
            (unsent-untracked closing request e fresh)))
    where
      no_lifecycle : (closing || is_protected response_class) ≡ false → add_lifecycle closing e ≡ e
      no_lifecycle p = ground (arith, p)

  left :
      (response_class : ResponseClass) (memory : Memory) (r : Runtime A) (l : Cleanup)
      → lookup id r.entries ≡ some e
      → Leaves (admit_send id closing request response_class memory r l)
  unfolding admit_send
  left response_class memory r l h =
      if_both Leaves (is_failure r.failure)
        (if_both (λ (a : Admission). Leaves (a, r, l)) closing same same)
        (begun (Ledger.begin_send id closing l).0 (Ledger.begin_send id closing l).1)
    where
      same : Keeps id e r
      same = (e, h, (refl, refl, refl, λ k. refl, λ k. refl))

      begun :
          (x : Reply Bool) (l' : Cleanup)
          → Leaves (admit_begun id closing request response_class memory r (x, l'))
      begun (raises f) l' = same
      begun (returns false) l' = same
      begun (returns true) l' =
          subst (λ o. Leaves (admit_entry id closing request response_class memory o r l')) (sym h)
            (entered response_class memory r l' h)

module _ {A : Type 0} where
  -- Where `admitSend` admits a send of a registered client, whose request id the client's
  -- entry does not know yet, and the send is then not made, `endSend` restores the demand of
  -- the entry: its lifecycle, driver and watch counters, and both maps of requests, at each
  -- key.
  pub end_send-admit_send :
      (id : ℕ) (closing : Bool) (request : ℕ) (response_class : ResponseClass) (memory : Memory)
      (r : Runtime A) (l : Cleanup) (e : Entry)
      → lookup id r.entries ≡ some e
      → Fresh request e
      → is_admitted (admit_send id closing request response_class memory r l).0 ≡ true
      → (e' : Entry) × (lookup id
            (end_send id closing request false
              (admit_send id closing request response_class memory r l).1).entries
          ≡ some e')
        × SameDemand e e'
  end_send-admit_send id closing request response_class memory r l e h fresh y =
      let x = admit_send id closing request response_class memory r l in
      subst (λ b. if b then Keeps id e (end_send id closing request false x.1) else Keeps id e x.1)
        y (left id closing request e fresh response_class memory r l h)

  -- Of the ledger: a send that is not admitted is not active.
  abbrev Releases : ℕ → Admission × Runtime A × Cleanup → Type 0
  Releases n x = is_admitted x.0 ≡ false → x.2.stats.active_sends ≡ n

  released :
      (id : ℕ) (closing : Bool) (request : ℕ) (response_class : ResponseClass) (memory : Memory)
      (r : Runtime A) (l : Cleanup) (n : ℕ)
      → (Ledger.end_send id closing false l).stats.active_sends ≡ n
      → Releases n (admit_entry id closing request response_class memory (lookup id r.entries) r l)
  released id closing request response_class memory r l n h = at_entry (lookup id r.entries)
    where
      P : Admission × Runtime A × Cleanup → Type 0
      P x = Releases n x

      request_tracked :
          (memory : Memory) (e : Entry) (r : Runtime A)
          → P (track id closing request response_class memory e r l)
      request_tracked plenty e r y = cc
      request_tracked none_to_start e r y = cc
      request_tracked none_to_pend e r y = h
      request_tracked none_to_protect e r y = h

      after_start :
          (e : Entry) (o : Outcome (Unit {0})) (r : Runtime A)
          → P (demand_started id closing request response_class memory e (o, r) l)
      after_start e (ok u) r = if_both P (nonzero request) (request_tracked memory e r) (λ y. cc)
      after_start e (thrown f) r = λ y. h

      at_entry : (o : Option Entry) → P (admit_entry id closing request response_class memory o r l)
      at_entry none = λ y. cc
      at_entry (some e) =
          if_both P (closing || is_protected response_class)
            (after_start e (start_locked (may_start memory) r).0
              (start_locked (may_start memory) r).1)
            (λ y. cc)

  ledger_kept :
      (id : ℕ) (closing : Bool) (request : ℕ) (response_class : ResponseClass) (memory : Memory)
      (r : Runtime A) (l : Cleanup)
      → Sorted l.records
      → Releases l.stats.active_sends (admit_send id closing request response_class memory r l)
  unfolding admit_send
  ledger_kept id closing request response_class memory r l s =
      if_both P (is_failure r.failure) (λ y. refl)
        (begun (Ledger.begin_send id closing l).0 (Ledger.begin_send id closing l).1
          (begin_send-Pins id closing l s))
    where
      P : Admission × Runtime A × Cleanup → Type 0
      P x = Releases l.stats.active_sends x

      begun :
          (x : Reply Bool) (l' : Cleanup)
          → Pins id closing l (x, l')
          → P (admit_begun id closing request response_class memory r (x, l'))
      begun (raises f) l' k = λ y. ap (λ z. z.stats.active_sends) k
      begun (returns false) l' k = λ y. ap (λ z. z.stats.active_sends) k
      begun (returns true) l' k =
          released id closing request response_class memory r l' l.stats.active_sends (k false)

  -- Where `admitSend` refuses a send of a registered client, by an answer or by any
  -- exception, after the ledger's admission or before, the entry's lifecycle, driver and
  -- watch counters and both maps of requests, at each key, are as before (the request id
  -- being new to the entry), and the ledger, after any uses, counts as many active sends as
  -- before.
  pub admit_send-refused :
      (id : ℕ) (closing : Bool) (request : ℕ) (response_class : ResponseClass) (memory : Memory)
      (r : Runtime A) (us : List Use) (e : Entry)
      → lookup id r.entries ≡ some e
      → Fresh request e
      → is_admitted (admit_send id closing request response_class memory r (life us)).0 ≡ false
      → ((e' : Entry) × (lookup id
              (admit_send id closing request response_class memory r (life us)).1.entries
            ≡ some e')
          × SameDemand e e')
        × ((admit_send id closing request response_class memory r (life us)).2.stats.active_sends
            ≡ (life us).stats.active_sends)
  admit_send-refused id closing request response_class memory r us e h fresh y =
      let x = admit_send id closing request response_class memory r (life us) in
      (
        subst
            (λ b. if b then Keeps id e (end_send id closing request false x.1) else Keeps id e x.1)
            y (left id closing request e fresh response_class memory r (life us) h),
        ledger_kept id closing request response_class memory r (life us) (life-Invariant us).0 y,
      )
