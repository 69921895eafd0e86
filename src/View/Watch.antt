-- ===== src/View/Watch.antt =====
-- Enabling the watch of a client and disabling it again, or failing to enable it, leaves the client
-- as it was.
use tdlua.Prelude.{
  ℕ, suc, ◌≡◌, refl, sym, ap, ◌∙◌, subst, Bool, true, false, ◌&&◌, ◌||◌, not, Option, none, some,
  lookup, insert, lookup-insert, arith, ==_refl, if_both, Bool-cases, inl, inr, if◌then◌else◌,
}
use tdlua.Mailbox.{is_failure}
use tdlua.Receiver.State.{Entry, Runtime, Outcome, ok, thrown, touch, set_entry}
use tdlua.Receiver.Demand.{start_locked, is_running, is_stopping, is_broken}
use tdlua.Receiver.Interest.{
  Means, enough, no_thread, no_room, has_thread, number_watch, set_subscription_interest,
  set_subscription_at, subscription_change, acquire_watch, acquire_watch_at, register_watch,
  lease_after, release_watch, release_watch_at, lower_watches,
}
use tdlua.Receiver.Leases.{start_locked-same}
use tdlua.Wake.{WakeTarget}
use tdlua.Readiness.{Hub}
use tdlua.View.{
  View, Heap, plentiful, none_to_wake, none_to_subscribe, cannot_wake, makes_wake, owner_valid,
  roll_back, subscribe, enable_interest, enable_with, enable_watch, disable_watch,
}

undone_interest :
    (generic : Bool) (e : Entry)
    → subscription_change false generic (subscription_change true generic e) ≡ e
undone_interest true e = refl
undone_interest false e = refl

subscribed-open :
    (generic : Bool) (e : Entry)
    → (e.terminal || e.orphan) ≡ false
    → ((subscription_change true generic e).terminal || (subscription_change true generic e).orphan)
      ≡ false
subscribed-open true e h = h
subscribed-open false e h = h

abbrev watched : Entry → Entry
watched e = record e { watch_demands = suc e.watch_demands }

module _ {A : Type 0} where
  Is : ℕ → Entry → Runtime A → Type 0
  Is c e r = lookup c r.entries ≡ some e

  stored : (c : ℕ) (e : Entry) (r : Runtime A) → lookup c (set_entry c e r).entries ≡ some e
  unfolding set_entry
  stored c e r =
      lookup-insert c c e r.entries ∙ ap (λ b. if b then some e else lookup c r.entries) (==_refl c)

  -- A client that may change its interests changes the one that is meant.
  changed_interest :
      (c : ℕ) (active generic : Bool) (e : Entry) (r : Runtime A)
      → lookup c r.entries ≡ some e
      → (e.terminal || e.orphan) ≡ false
      → lookup c (set_subscription_interest c active generic r).1.entries
        ≡ some (subscription_change active generic e)
  unfolding set_subscription_interest touch
  changed_interest c active generic e r h open_still =
      ap (λ o. lookup c (set_subscription_at c active generic o r).1.entries) h
      ∙ ap (λ b. lookup c (chosen b).1.entries) open_still
      ∙ stored c (subscription_change active generic e) r
    where
      chosen : Bool → Bool × Runtime A
      chosen b =
          if b
          then (false, r)
          else (true, touch (set_entry c (subscription_change active generic e) r))

  interest_lem :
      (c : ℕ) (active generic : Bool) (e : Entry) (r : Runtime A)
      → lookup c r.entries ≡ some e
      → (set_subscription_interest c active generic r).0 ≡ not (e.terminal || e.orphan)
  unfolding set_subscription_interest
  interest_lem c active generic e r h =
      ap (λ o. (set_subscription_at c active generic o r).0) h ∙ ground arith

  -- What `acquireWatch` does to the entry of the client.
  abbrev Acquires : ℕ → Entry → Outcome (Option ℕ) × Runtime A → Type 0
  Acquires c e (thrown f, r) = lookup c r.entries ≡ some e
  Acquires c e (ok none, r) = lookup c r.entries ≡ some e
  Acquires c e (ok (some token), r) =
      (lookup c r.entries ≡ some (watched e)) × (lookup token r.watch_tokens ≡ some c)

  registered :
      (c : ℕ) (e : Entry) (r : Runtime A)
      → lookup c r.entries ≡ some e
      → Acquires c e (ok (some (suc r.next_watch_token)), register_watch c e r)
  unfolding touch set_entry
  registered c e r h = (
    stored c (watched e) (record r {
      next_watch_token = suc r.next_watch_token;
      watch_tokens = insert (suc r.next_watch_token) c r.watch_tokens;
    }),
    lookup-insert (suc r.next_watch_token) (suc r.next_watch_token) c r.watch_tokens
        ∙ ap (λ b. if b then some c else lookup (suc r.next_watch_token) r.watch_tokens)
            (==_refl (suc r.next_watch_token)),
  )

  leased :
      (means : Means) (c : ℕ) (e : Entry) (o : Outcome (Unit {0})) (r : Runtime A)
      → lookup c r.entries ≡ some e
      → Acquires c e
          (lease_after means (o, r) number_watch (register_watch c e) (λ r'. r'.next_watch_token))
  unfolding touch set_entry
  leased means c e (thrown f) r h = h
  leased no_room c e (ok u) r h = h
  leased no_thread c e (ok u) r h = registered c e r h
  leased enough c e (ok u) r h = registered c e r h

  acquire_watch-Acquires :
      (means : Means) (c : ℕ) (e : Entry) (r : Runtime A)
      → lookup c r.entries ≡ some e
      → Acquires c e (acquire_watch means c r)
  unfolding acquire_watch
  acquire_watch-Acquires means c e r h =
      if_both P (is_failure r.failure || is_stopping r.state || is_broken r.state) h (
        subst (λ o. P (acquire_watch_at means c o r)) (sym h)
          (if_both P (e.terminal || e.orphan) h (
            if_both P (not (is_running r.state) && (r.worker || r.joining)) h (
              leased means c e (start_locked (has_thread means) r).0
                (start_locked (has_thread means) r).1
                (ap (lookup c) (start_locked-same (has_thread means) r).0 ∙ h)))))
    where
      P : Outcome (Option ℕ) × Runtime A → Type 0
      P x = Acquires c e x

  released :
      (c token : ℕ) (e : Entry) (r : Runtime A)
      → lookup c r.entries ≡ some (watched e)
      → lookup token r.watch_tokens ≡ some c
      → lookup c (release_watch token r).entries ≡ some e
  unfolding release_watch touch
  released c token e r h t =
      ap (λ o. lookup c (release_watch_at token o r).entries) t
      ∙ ap (λ o. lookup c (lower_watches c o r).entries) h
      ∙ stored c e r

  -- What the answers of `enableWatch` leave for the client: a subscription that `disableWatch`
  -- undoes, or nothing.
  abbrev pub Undoes : ℕ → Entry → Outcome Bool × View × Runtime A → Type 0
  Undoes c e (thrown f, v, r) = lookup c r.entries ≡ some e
  Undoes c e (ok false, v, r) = lookup c r.entries ≡ some e
  Undoes c e (ok true, v, r) = lookup c (disable_watch v r).1.entries ≡ some e

  module _ (generic : Bool) (v : View) (e : Entry) (live : (e.terminal || e.orphan) ≡ false) where
    rolled :
        (r : Runtime A)
        → lookup v.client r.entries ≡ some (subscription_change true generic e)
        → lookup v.client (roll_back v generic r).entries ≡ some e
    rolled r h =
        changed_interest v.client false generic (subscription_change true generic e) r h
          (subscribed-open generic e live)
        ∙ ap some (undone_interest generic e)

    subscribe-Undoes :
        (heap : Heap) (o : Outcome (Option ℕ)) (r : Runtime A)
        → Acquires v.client (subscription_change true generic e) (o, r)
        → Undoes v.client e (subscribe heap generic v (o, r))
    unfolding disable_watch
    subscribe-Undoes heap (thrown f) r h = rolled r h
    subscribe-Undoes heap (ok none) r h = rolled r h
    subscribe-Undoes plentiful (ok (some token)) r (h, t) =
        rolled (release_watch token r)
          (released v.client token (subscription_change true generic e) r h t)
    subscribe-Undoes none_to_wake (ok (some token)) r (h, t) =
        rolled (release_watch token r)
          (released v.client token (subscription_change true generic e) r h t)
    subscribe-Undoes none_to_subscribe (ok (some token)) r (h, t) =
        rolled (release_watch token r)
          (released v.client token (subscription_change true generic e) r h t)

  interested-Undoes :
      (heap : Heap) (means : Means) (generic : Bool) (v : View) (e : Entry) (r : Runtime A)
      → lookup v.client r.entries ≡ some e
      → Undoes v.client e
          (enable_interest heap means generic v (set_subscription_interest v.client true generic r))
  unfolding set_subscription_interest
  interested-Undoes heap means generic v e r h = elim (Bool-cases (e.terminal || e.orphan)) [
    | inl over ↦
        subst
          (λ o.
            Undoes v.client e (
              enable_interest heap means generic v (set_subscription_at v.client true generic o r)))
          (sym h) (rw over h)
    | inr live ↦
        subst
          (λ b. Undoes v.client e (
            enable_interest heap means generic v
              (b, (set_subscription_interest v.client true generic r).1)))
          (sym (interest_lem v.client true generic e r h ∙ ap not live)) (granted live)
  ]
    where
      granted :
          (e.terminal || e.orphan) ≡ false
          → Undoes v.client e (
              enable_interest heap means generic v
                (true, (set_subscription_interest v.client true generic r).1))
      granted live =
          let r' = (set_subscription_interest v.client true generic r).1 in
          subscribe-Undoes generic v e live heap (acquire_watch means v.client r').0
            (acquire_watch means v.client r').1
            (acquire_watch-Acquires means v.client (subscription_change true generic e) r'
              (changed_interest v.client true generic e r h live))

  -- Where a view has no subscription and its client is registered, `enableWatch` leaves the
  -- client's entry exactly as it was when it answers false, and when it throws: where the
  -- doorbell, the token's node or the subscription cannot be allocated, the worker's thread cannot
  -- be created, or the receiver cannot be started; and when it answers true, `disableWatch`
  -- restores the entry exactly.
  pub enable_watch-Undoes :
      (heap : Heap) (means : Means) (generic : Bool) (made : WakeTarget) (v : View) (h : Hub)
      (r : Runtime A) (e : Entry)
      → v.subscription ≡ none
      → lookup v.client r.entries ≡ some e
      → Undoes v.client e (enable_watch heap means generic made v h r).0
  unfolding enable_watch
  enable_watch-Undoes heap means generic made v h r e n found =
      subst (λ o. Undoes v.client e (enable_with o heap means generic made v h r).0) (sym n)
        (if_both P (not v.hub || not v.engine || not (owner_valid v h)) found (
          if_both P (cannot_wake heap && makes_wake (lookup v.owner h.owners)) found
            (interested-Undoes heap means generic v e r found)))
    where
      P : (Outcome Bool × View × Runtime A) × Hub → Type 0
      P x = Undoes v.client e x.0
