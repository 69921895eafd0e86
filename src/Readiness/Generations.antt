-- ===== src/Readiness/Generations.antt =====
-- The generation of an owner tells a view whether its owner was detached meanwhile.
use tdlua.Prelude.{
  ℕ, suc, ◌≤◌, ◌<◌, ◌≡◌, ◌≢◌, refl, ap, ◌⊎◌, inl, Bool, Option, none, some, List, [], ◌∷◌, Map,
  lookup, insert, erase, lookup-insert, lookup-erase, arith, ==_refl, is_some, if_both,
}
use tdlua.Wake.{WakeTarget, Written, Drained, clear}
use tdlua.Readiness.{
  Hub, Owner, BindError, init, attach_owner, attach_at, detach_owner, detach_at, wake_at,
  bind_client, bind_at, enable_wake, enable_at, set_wake, ring_owner, ring_at, ring_wake,
  ring_client, ring_client_at, ring_each, broadcast, unbind_client, unbind_at, drop_client,
  clear_wake, clear_at, clear_with, owner_generation, generation_at,
}
use tdlua.Readiness.History.{
  Call, call, call_all, or_hub, attaches, detaches, unbinds, binds, enables, rings_owner,
  rings_client, broadcasts, clears,
}

-- From `h` to `h'` an owner keeps its generation, is detached, or gets one that was never given.
record Ages (h h' : Hub) : Type 0 where
  rises : h.next_generation ≤ h'.next_generation
  owner :
      (o : ℕ)
      → (generation_at (lookup o h'.owners) ≡ generation_at (lookup o h.owners))
        ⊎ ((generation_at (lookup o h'.owners) ≡ 0)
            ⊎ ((h.next_generation < generation_at (lookup o h'.owners))
                × (generation_at (lookup o h'.owners) ≤ h'.next_generation)))

same-Ages : (h : Hub) → Ages h h
same-Ages h = record { rises = omega arith; owner = λ o. inl refl }

-- The owner is written back with other clients or another doorbell.
written-Ages :
    (h : Hub) (flag : Bool) (owners : Map ℕ) (o : ℕ) (w w' : Owner)
    → lookup o h.owners ≡ some w
    → w'.generation ≡ w.generation
    → Ages h (record h { any_wake = flag; client_owner = owners; owners = insert o w' h.owners })
written-Ages h flag owners o w w' found same = record {
  rises = omega arith;
  owner =
      λ j. inl (rw (lookup-insert o j w' h.owners) (ground (arith, same, ap generation_at found)));
}

attach_at-Ages : (o : ℕ) (x : Option Owner) (h : Hub) → Ages h (attach_at o x h)
attach_at-Ages o (some w) h = same-Ages h
attach_at-Ages o none h = record {
  rises = omega arith;
  owner = λ j. ground (arith, ap generation_at (lookup-insert o j fresh h.owners));
}
  where
    fresh : Owner
    fresh = record { generation = suc h.next_generation; clients = []; wake = none }

detach_at-Ages : (o : ℕ) (x : Option Owner) (h : Hub) → Ages h (detach_at o x h)
detach_at-Ages o none h = same-Ages h
detach_at-Ages o (some w) h = record {
  rises = omega arith;
  owner = λ j. ground (arith, ap generation_at (lookup-erase o j h.owners));
}

bind_at-Ages :
    (o c : ℕ) (room : Bool) (x : Option Owner) (h : Hub)
    → lookup o h.owners ≡ x
    → Ages h (bind_at o c room x h).1
bind_at-Ages o c room none h found = same-Ages h
bind_at-Ages o c room (some w) h found =
    if_both (λ (r : Option BindError × Hub). Ages h r.1) (is_some (lookup c h.client_owner))
      (same-Ages h)
      (if_both (λ (r : Option BindError × Hub). Ages h r.1) room
        (written-Ages h h.any_wake _ o w _ found refl)
        (written-Ages h h.any_wake h.client_owner o w _ found refl))

enable_at-Ages :
    (o : ℕ) (fresh : WakeTarget) (x : Option Owner) (h : Hub)
    → lookup o h.owners ≡ x
    → Ages h (enable_at o fresh x h).1
enable_at-Ages o fresh none h found = same-Ages h
enable_at-Ages o fresh (some w) h found = written-Ages h _ h.client_owner o w _ found refl

ring_wake-Ages :
    (o : ℕ) (answers : ℕ → Written) (w : Owner) (t : Option WakeTarget) (h : Hub)
    → lookup o h.owners ≡ some w
    → Ages h (ring_wake o answers w t h)
unfolding set_wake
ring_wake-Ages o answers w none h found = same-Ages h
ring_wake-Ages o answers w (some t) h found =
    written-Ages h h.any_wake h.client_owner o w _ found refl

ring_at-Ages :
    (o : ℕ) (answers : ℕ → Written) (x : Option Owner) (h : Hub)
    → lookup o h.owners ≡ x
    → Ages h (ring_at o answers x h)
ring_at-Ages o answers none h found = same-Ages h
ring_at-Ages o answers (some w) h found = ring_wake-Ages o answers w w.wake h found

ring_client_at-Ages :
    (answers : ℕ → Written) (x : Option ℕ) (h : Hub) → Ages h (ring_client_at answers x h)
ring_client_at-Ages answers none h = same-Ages h
ring_client_at-Ages answers (some o) h = ring_at-Ages o answers (lookup o h.owners) h refl

Ages-then : (h i j : Hub) → Ages h i → Ages i j → Ages h j
Ages-then h i j a b = record {
  rises = omega (arith, a.rises, b.rises);
  owner = λ o. grind (arith, a.owner o, b.owner o, a.rises, b.rises);
}

ring_each-Ages :
    (answers : ℕ → ℕ → Written) (m : Map Owner) (h : Hub) → Ages h (ring_each answers m h)
unfolding ring_each
ring_each-Ages answers [] h = same-Ages h
ring_each-Ages answers ((o, w) ∷ rest) h =
    let rung = ring_at o (answers o) (lookup o h.owners) h in
    Ages-then h rung (ring_each answers rest rung)
      (ring_at-Ages o (answers o) (lookup o h.owners) h refl) (ring_each-Ages answers rest rung)

dropped-Ages :
    (c o : ℕ) (x : Option Owner) (h : Hub)
    → lookup o h.owners ≡ x
    → Ages h
        (record h { owners = drop_client c o x h.owners; client_owner = erase c h.client_owner })
dropped-Ages c o none h found = record { rises = omega arith; owner = λ j. inl refl }
dropped-Ages c o (some w) h found = written-Ages h h.any_wake _ o w _ found refl

unbind_at-Ages : (c : ℕ) (x : Option ℕ) (h : Hub) → Ages h (unbind_at c x h)
unbind_at-Ages c none h = same-Ages h
unbind_at-Ages c (some o) h = dropped-Ages c o (lookup o h.owners) h refl

clear_with-Ages :
    (o : ℕ) (w : Owner) (x : Option WakeTarget) (h : Hub)
    → lookup o h.owners ≡ some w
    → Ages h (or_hub h (clear_with o w h x))
unfolding set_wake
clear_with-Ages o w none h found = same-Ages h
clear_with-Ages o w (some t) h found = written-Ages h h.any_wake h.client_owner o w _ found refl

clear_at-Ages :
    (o : ℕ) (answers : List Drained) (x : Option Owner) (t : Option WakeTarget) (h : Hub)
    → lookup o h.owners ≡ x
    → Ages h (or_hub h (clear_at o answers x t h))
clear_at-Ages o answers none t h found = same-Ages h
clear_at-Ages o answers (some w) none h found = same-Ages h
clear_at-Ages o answers (some w) (some t) h found = clear_with-Ages o w (clear answers t) h found

call-Ages : (h : Hub) (c : Call) → Ages h (call h c)
unfolding call attach_owner detach_owner unbind_client bind_client enable_wake ring_owner
    ring_client broadcast clear_wake
call-Ages h (attaches o) = attach_at-Ages o (lookup o h.owners) h
call-Ages h (detaches o) = detach_at-Ages o (lookup o h.owners) h
call-Ages h (unbinds c) = unbind_at-Ages c (lookup c h.client_owner) h
call-Ages h (binds o c room) = bind_at-Ages o c room (lookup o h.owners) h refl
call-Ages h (enables o fresh) = enable_at-Ages o fresh (lookup o h.owners) h refl
call-Ages h (rings_owner o answers) =
    if_both (Ages h) h.any_wake (ring_at-Ages o answers (lookup o h.owners) h refl) (same-Ages h)
call-Ages h (rings_client c answers) =
    if_both (Ages h) h.any_wake (ring_client_at-Ages answers (lookup c h.client_owner) h)
      (same-Ages h)
call-Ages h (broadcasts answers) =
    if_both (Ages h) h.any_wake (ring_each-Ages answers h.owners h) (same-Ages h)
call-Ages h (clears o answers) =
    clear_at-Ages o answers (lookup o h.owners) (wake_at (lookup o h.owners)) h refl

call_all-Ages : (h : Hub) (cs : List Call) → Ages h (call_all h cs)
unfolding call_all
call_all-Ages h [] = same-Ages h
call_all-Ages h (c ∷ cs) =
    Ages-then h (call h c) (call_all (call h c) cs) (call-Ages h c) (call_all-Ages (call h c) cs)

detached-generation :
    (o : ℕ) (x : Option Owner) (h : Hub)
    → lookup o h.owners ≡ x
    → generation_at (lookup o (detach_at o x h).owners) ≡ 0
detached-generation o none h found = ap generation_at found
detached-generation o (some w) h found =
    ground (arith, ap generation_at (lookup-erase o o h.owners), ==_refl o)

-- Once an owner is detached, no later calls, another attach of the same owner included, bring back
-- the generation that it had: a view that compares generations never takes the new owner for the
-- old one.
pub owner_generation-detach_owner :
    (before after : List Call) (o : ℕ)
    → owner_generation o (call_all init before) ≢ 0
    → owner_generation o (call_all (detach_owner o (call_all init before)) after)
      ≢ owner_generation o (call_all init before)
unfolding owner_generation detach_owner
owner_generation-detach_owner before after o attached again = grind (
  arith,
  attached,
  again,
  started,
  first.rises,
  first.owner o,
  gone.rises,
  later.owner o,
  detached-generation o (lookup o h.owners) h refl,
)
  where
    h : Hub
    h = call_all init before

    d : Hub
    d = detach_at o (lookup o h.owners) h

    first : Ages init h
    first = call_all-Ages init before

    gone : Ages h d
    gone = detach_at-Ages o (lookup o h.owners) h

    later : Ages d (call_all d after)
    later = call_all-Ages d after

    started : generation_at (lookup o init.owners) ≡ 0
    started = unfold init lookup in refl
