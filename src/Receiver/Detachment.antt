-- ===== src/Receiver/Detachment.antt =====
-- What an owner that leaves does to the clients: `detachOwner` up to its join.
use tdlua.Prelude.{
  ℕ, suc, ◌≡◌, refl, ap, sym, ◌∙◌, subst, Bool, true, false, ◌&&◌, not, Option, none, some, [], ◌∷◌,
  Map, lookup, erase, map_values, lookup-insert, lookup-erase, arith, ◌==◌, ==_refl, if◌then◌else◌,
  Bool-cases, inl, inr, ◌||◌,
}
use mathlib.Core.Option.{map as map_option}
use tdlua.Prelude.Keys.{Ascending, Sorted, lookup_below}
use tdlua.Receiver.State.{Entry, Runtime, touch, set_entry, erase_entry}
use tdlua.Receiver.Demand.{
  is_empty, is_broken, quiet_drivers, quiet_interests, quiet_entry, drop_tokens,
  clear_driver_demand, clear_demand,
}
use tdlua.Receiver.Lifecycle.{
  only_lifecycle, leave_lifecycle, no_watch, abandon_box, accumulate_retired, retire_entry,
  orphan_entry, detach_entry, detach_entries, request_stop, leave,
}

-- The entry of a client of the owner: nobody's any more, without a driver, a watch, a one-shot, a
-- pending request or an interest; its lifecycle demand and the protection of its lifecycle requests
-- stay if another owner can finish them.
pub record Orphaned (finish : Bool) (e e' : Entry) : Type 0 where
  pub owner : e'.owner ≡ e.owner
  pub terminal : e'.terminal ≡ e.terminal
  pub orphan : e'.orphan ≡ true
  pub drivers : e'.active_drivers ≡ 0
  pub watches : e'.watch_demands ≡ 0
  pub pending : e'.one_shot_pending ≡ false
  pub in_flight : e'.one_shot_in_flight ≡ false
  pub requests : e'.pending_requests ≡ []
  pub protected :
      e'.protected_requests ≡ (if finish then only_lifecycle e.protected_requests else [])
  pub consumers : e'.consumer_interests ≡ 0
  pub handler_only : e'.handler_only_consumers ≡ 0
  pub handlers : e'.handler_types ≡ []
  pub generic : e'.subscription_generic ≡ 0
  pub typed : e'.subscription_handlers ≡ 0
  pub lifecycle : e'.lifecycle_demands ≡ (if finish then e.lifecycle_demands else 0)

unfoldable left : Bool → Entry → Entry
left true e = quiet_drivers (leave_lifecycle (record e { orphan = true }))
left false e = quiet_entry (record e { orphan = true })

left-Orphaned : (finish : Bool) (e : Entry) → Orphaned finish e (left finish e)
unfolding left quiet_drivers quiet_entry quiet_interests leave_lifecycle
left-Orphaned true e = record {
  owner = refl;
  terminal = refl;
  orphan = refl;
  drivers = refl;
  watches = refl;
  pending = refl;
  in_flight = refl;
  requests = refl;
  protected = refl;
  consumers = refl;
  handler_only = refl;
  handlers = refl;
  generic = refl;
  typed = refl;
  lifecycle = refl;
}
left-Orphaned false e = record {
  owner = refl;
  terminal = refl;
  orphan = refl;
  drivers = refl;
  watches = refl;
  pending = refl;
  in_flight = refl;
  requests = refl;
  protected = refl;
  consumers = refl;
  handler_only = refl;
  handlers = refl;
  generic = refl;
  typed = refl;
  lifecycle = refl;
}

-- What the loop finds at a key after the entry that it met there.
abbrev met : ℕ → Bool → Option Entry → Option Entry → Option Entry
met owner finish none o = o
met owner finish (some e) o =
    if e.owner == owner && e.terminal
    then none
    else if e.owner == owner && not e.orphan
    then some (left finish e)
    else o

module _ {A : Type 0} where
  orphan_entry-lookup :
      (finish : Bool) (id j : ℕ) (e : Entry) (r : Runtime A)
      → lookup j (orphan_entry finish id e r).entries
        ≡ (if id == j then some (left finish e) else lookup j r.entries)
  unfolding abandon_box clear_driver_demand clear_demand touch drop_tokens set_entry left
  orphan_entry-lookup true id j e r = lookup-insert id j (left true e) r.entries
  orphan_entry-lookup false id j e r = lookup-insert id j (left false e) r.entries

  retire_entry-lookup :
      (id j : ℕ) (r : Runtime A)
      → lookup j (retire_entry id r).entries ≡ (if id == j then none else lookup j r.entries)
  unfolding retire_entry accumulate_retired erase_entry
  retire_entry-lookup id j r = lookup-erase id j r.entries

  detach_entry-lookup :
      (owner : ℕ) (finish : Bool) (id j : ℕ) (e : Entry) (r : Runtime A)
      → lookup j (detach_entry owner finish id e r).entries
        ≡ (if id == j then met owner finish (some e) (lookup j r.entries) else lookup j r.entries)
  unfolding detach_entry
  detach_entry-lookup owner finish id j e r = ground (
    arith,
    orphan_entry-lookup finish id j e r,
    retire_entry-lookup id j (orphan_entry finish id e r),
    retire_entry-lookup id j r,
  )

  -- The owners and the stop request stay as they are.
  abbrev SameStop : Runtime A → Runtime A → Type 0
  SameStop r r' = (r'.owners ≡ r.owners) × (r'.stop ≡ r.stop)

  detach_entry-same :
      (owner : ℕ) (finish : Bool) (id : ℕ) (e : Entry) (r : Runtime A)
      → SameStop r (detach_entry owner finish id e r)
  unfolding detach_entry retire_entry accumulate_retired erase_entry abandon_box clear_driver_demand
      clear_demand touch drop_tokens set_entry
  detach_entry-same owner finish id e r = (ground arith, ground arith)

  detach_entries-same :
      (owner : ℕ) (finish : Bool) (es : Map Entry) (r : Runtime A)
      → SameStop r (detach_entries owner finish es r)
  unfolding detach_entries
  detach_entries-same owner finish [] r = (refl, refl)
  detach_entries-same owner finish ((id, e) ∷ rest) r =
      let (owners, stop) = detach_entry-same owner finish id e r in
      let (owners', stop') =
        detach_entries-same owner finish rest (detach_entry owner finish id e r) in
      (owners' ∙ owners, stop' ∙ stop)

  detach_entries-lookup :
      (owner : ℕ) (finish : Bool) (j lo hi : ℕ) (es : Map Entry) (r : Runtime A)
      → Ascending lo hi es
      → lookup j (detach_entries owner finish es r).entries
        ≡ met owner finish (lookup j es) (lookup j r.entries)
  unfolding detach_entries lookup
  detach_entries-lookup owner finish j lo hi [] r a = refl
  detach_entries-lookup owner finish j lo hi ((id, e) ∷ rest) r a =
      let r' = detach_entry owner finish id e r in
      ground (
        arith,
        detach_entries-lookup owner finish j (suc id) hi rest r' a.2,
        detach_entry-lookup owner finish id j e r,
        lookup_below id (suc id) hi rest a.2,
      )

lookup-mapped :
    (f : Entry → Entry) (j : ℕ) (es : Map Entry)
    → lookup j (map_values f es) ≡ map_option f (lookup j es)
unfolding lookup map_values
lookup-mapped f j [] = refl
lookup-mapped f j ((id, e) ∷ rest) = ground (arith, lookup-mapped f j rest)

-- The client after the owner has left: a client of the owner that is terminal is gone, one that was
-- not an orphan before is orphaned, and any other entry is as it was, without its watches if the
-- receiver is to stop.
abbrev pub Detached : Bool → Bool → ℕ → Option Entry → Option Entry → Type 0
Detached stops finish owner none o = o ≡ none
Detached stops finish owner (some e) o =
    if e.owner == owner && e.terminal
    then (o ≡ none)
    else if e.owner == owner && not e.orphan
    then ((e' : Entry) × (o ≡ some e') × Orphaned finish e e')
    else (o ≡ some (if stops then no_watch e else e))

unwatched-Orphaned :
    (finish : Bool) (e e' : Entry) → Orphaned finish e e' → Orphaned finish e (no_watch e')
unwatched-Orphaned finish e e' o = record {
  owner = o.owner;
  terminal = o.terminal;
  orphan = o.orphan;
  drivers = o.drivers;
  watches = refl;
  pending = o.pending;
  in_flight = o.in_flight;
  requests = o.requests;
  protected = o.protected;
  consumers = o.consumers;
  handler_only = o.handler_only;
  handlers = o.handlers;
  generic = o.generic;
  typed = o.typed;
  lifecycle = o.lifecycle;
}

-- The stop takes the watches of all.
abbrev stopped_watches : Bool → Option Entry → Option Entry
stopped_watches stops o = if stops then map_option no_watch o else o

met-Detached :
    (stops finish : Bool) (owner : ℕ) (o : Option Entry)
    → Detached stops finish owner o (stopped_watches stops (met owner finish o o))
met-Detached true finish owner none = refl
met-Detached false finish owner none = refl
met-Detached true finish owner (some e) = elim (Bool-cases (e.owner == owner && e.terminal)) [
  | inl over ↦ simp over refl
  | inr live ↦ elim (Bool-cases (e.owner == owner && not e.orphan)) [
    | inl own ↦
        simp (live, own)
          (
            no_watch (left finish e),
            refl,
            unwatched-Orphaned finish e (left finish e) (left-Orphaned finish e),
          )
    | inr other ↦ simp (live, other) refl
  ]
]
met-Detached false finish owner (some e) = elim (Bool-cases (e.owner == owner && e.terminal)) [
  | inl over ↦ simp over refl
  | inr live ↦ elim (Bool-cases (e.owner == owner && not e.orphan)) [
    | inl own ↦ simp (live, own) (left finish e, refl, left-Orphaned finish e)
    | inr other ↦ simp (live, other) refl
  ]
]

module _ {A : Type 0} (owner : ℕ) (r : Runtime A) where
  abbrev pub nobody_left : Bool
  nobody_left = is_empty (erase owner r.owners)

  abbrev pub can_finish : Bool
  can_finish = not nobody_left && not (is_broken r.state)

  -- The runtime after the loop of `detachOwner`.
  abbrev detached : Runtime A
  detached = detach_entries owner can_finish r.entries (record r { owners = erase owner r.owners })

  detached-same : SameStop (record r { owners = erase owner r.owners }) detached
  detached-same =
      detach_entries-same owner can_finish r.entries (record r { owners = erase owner r.owners })

  leave-lookup :
      (id : ℕ)
      → Sorted r.entries
      → lookup id (leave owner r).entries
        ≡ stopped_watches nobody_left
            (met owner can_finish (lookup id r.entries) (lookup id r.entries))
  unfolding request_stop
  leave-lookup id (hi, a) = ground (
    arith,
    ap is_empty detached-same.0,
    lookup-mapped no_watch id detached.entries,
    detach_entries-lookup owner can_finish id 0 hi r.entries
        (record r { owners = erase owner r.owners }) a,
  )

  -- When an owner leaves, the registry being in the order of the ids: the owner is no longer
  -- registered; the stop flag is set if it was the last one, and otherwise stays as it was; each
  -- terminal client of the owner is gone from the registry; each other client of the owner that
  -- was no orphan is an orphan without a driver, a watch, a one-shot, a pending request or any
  -- interest, with its lifecycle demand and the protection of its lifecycle requests if another
  -- owner is there and the receiver has not failed, and else without; every other client is as it was, but without its watches if the last owner
  -- left; and no client is new.
  pub leave-Detached :
      (id : ℕ)
      → Sorted r.entries
      → (lookup owner (leave owner r).owners ≡ none)
        × ((leave owner r).stop ≡ (nobody_left || r.stop))
        × Detached nobody_left can_finish owner
            (lookup id r.entries)
            (lookup id (leave owner r).entries)
  unfolding request_stop
  leave-Detached id s = (
    ground (
      arith,
      detached-same.0,
      ap (lookup owner) detached-same.0,
      lookup-erase owner owner r.owners,
      ==_refl owner,
    ),
    ground (arith, ap is_empty detached-same.0, detached-same.1),
    subst (Detached nobody_left can_finish owner (lookup id r.entries)) (sym (leave-lookup id s))
        (met-Detached nobody_left can_finish owner (lookup id r.entries)),
  )
