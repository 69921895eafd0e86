-- ===== src/Readiness/Binding.antt =====
-- Clients and owners know each other: the hub's two maps agree, and its fast path skips no doorbell
-- that could be heard.
use tdlua.Prelude.{
  ℕ, zero, suc, ◌≡◌, refl, ap, Bool, true, false, Option, none, some, [], ◌∷◌, Map, lookup, insert,
  erase, lookup-insert, lookup-erase, arith, ◌==◌, is_some, if◌then◌else◌, if_split,
}
use tdlua.Prelude.Keys.{
  Sorted, Ascending, insert-Sorted, erase-Sorted, lookup_below, Ascending-widen,
}
use tdlua.Wake.{WakeTarget, Written, ring, attempt, valid}
use tdlua.Readiness.{
  Hub, Owner, init, attach_at, without_owner, any_target, detach_at, clients_at, wake_at, asked,
  bind_at, with_client, enable_at, set_wake, ring_at, ring_wake, ring_client_at, unbind_at,
  drop_client, BindError,
}

-- The owner lists the client.
abbrev pub lists : ℕ → ℕ → Map Owner → Bool
lists c o owners = is_some (lookup c (clients_at (lookup o owners)))

abbrev pub audible : Option WakeTarget → Bool
audible t = asked false valid t

pub record IsConsistent (h : Hub) : Type 0 where
  pub order : Sorted h.client_owner
  pub listed : (c o : ℕ) → lookup c h.client_owner ≡ some o → lists c o h.owners ≡ true
  pub owned : (c o : ℕ) → lists c o h.owners ≡ true → lookup c h.client_owner ≡ some o
  pub quiet : (o : ℕ) → h.any_wake ≡ false → audible (wake_at (lookup o h.owners)) ≡ false

pub init-IsConsistent : IsConsistent init
unfolding init lookup
init-IsConsistent = record {
  order = (0, tt);
  listed = λ c o e. cc;
  owned = λ c o e. cc;
  quiet = λ o e. refl;
}

lists-insert :
    (c o j : ℕ) (w : Owner) (m : Map Owner)
    → lists c j (insert o w m) ≡ (if o == j then is_some (lookup c w.clients) else lists c j m)
lists-insert c o j w m = rw (lookup-insert o j) (ground arith)

wake-insert :
    (o j : ℕ) (w : Owner) (m : Map Owner)
    → wake_at (lookup j (insert o w m)) ≡ (if o == j then w.wake else wake_at (lookup j m))
wake-insert o j w m = rw (lookup-insert o j) (ground arith)

-- A change of one owner that keeps its clients, and its doorbell inaudible if no flag is set.
pub same_clients :
    (h : Hub) (flag : Bool) (o : ℕ) (w w' : Owner)
    → lookup o h.owners ≡ some w
    → ((c : ℕ) → is_some (lookup c w'.clients) ≡ is_some (lookup c w.clients))
    → (flag ≡ false → (h.any_wake ≡ false) × (audible w'.wake ≡ false))
    → IsConsistent h
    → IsConsistent (record h { any_wake = flag; owners = insert o w' h.owners })
same_clients h flag o w w' found same still v = record {
  order = v.order;
  listed = λ c j e.
      rw (lists-insert c o j)
        (ground (arith, v.listed c j e, ap (λ x. is_some (lookup c (clients_at x))) found, same c));
  owned = λ c j e. ground (
    arith,
    lists-insert c o j w' h.owners,
    v.owned c j,
    ap (λ x. is_some (lookup c (clients_at x))) found,
    same c,
  );
  quiet = λ j e. rw (wake-insert o j) (ground (arith, still e, v.quiet j));
}

pub attach_at-IsConsistent :
    (o : ℕ) (x : Option Owner) (h : Hub)
    → lookup o h.owners ≡ x
    → IsConsistent h
    → IsConsistent (attach_at o x h)
attach_at-IsConsistent o (some w) h found v = v
attach_at-IsConsistent o none h free v = record {
  order = v.order;
  listed = λ c j e.
      rw (lists-insert c o j)
        (ground (arith, v.listed c j e, ap (λ x. is_some (lookup c (clients_at x))) free));
  owned = λ c j e. ground (arith, lists-insert c o j fresh h.owners, v.owned c j, absent c);
  quiet = λ j e. rw (wake-insert o j) (ground (arith, v.quiet j e));
}
  where
    fresh : Owner
    fresh = record { generation = suc h.next_generation; clients = []; wake = none }

    absent : (c : ℕ) → is_some (lookup c fresh.clients) ≡ false
    absent c = unfold lookup in refl

-- The doorbells of the owners that are left.
any_target_sound : (o : ℕ) (m : Map Owner) → any_target m ≡ false → wake_at (lookup o m) ≡ none
unfolding any_target lookup
any_target_sound o [] e = refl
any_target_sound o ((j, w) ∷ m) e = ground (arith, any_target_sound o m)

abbrev unless_owner : ℕ → Option ℕ → Option ℕ
unless_owner o none = none
unless_owner o (some j) = if j == o then none else some j

lookup-without :
    (c o lo hi : ℕ) (m : Map ℕ)
    → Ascending lo hi m
    → lookup c (without_owner o m) ≡ unless_owner o (lookup c m)
unfolding without_owner lookup
lookup-without c o lo hi [] a = refl
lookup-without c o lo hi ((k, j) ∷ m) a =
    ground (arith, lookup-without c o (suc k) hi m a.2, lookup_below c (suc k) hi m a.2)

without-Ascending :
    (o lo hi : ℕ) (m : Map ℕ) → Ascending lo hi m → Ascending lo hi (without_owner o m)
unfolding without_owner
without-Ascending o lo hi [] a = tt
without-Ascending o lo hi ((k, j) ∷ m) a = ground (
  arith,
  without-Ascending o (suc k) hi m a.2,
  Ascending-widen (suc k) hi lo hi (without_owner o m),
)

lists-erase :
    (c o j : ℕ) (m : Map Owner) → lists c j (erase o m) ≡ (if o == j then false else lists c j m)
unfolding lookup
lists-erase c o j m = rw (lookup-erase o j) (ground arith)

pub detach_at-IsConsistent :
    (o : ℕ) (x : Option Owner) (h : Hub) → IsConsistent h → IsConsistent (detach_at o x h)
detach_at-IsConsistent o none h v = v
detach_at-IsConsistent o (some w) h v = record {
  order = (v.order.0, without-Ascending o 0 v.order.0 h.client_owner v.order.1);
  listed = λ c j e. ground (
    arith,
    lists-erase c o j h.owners,
    v.listed c j,
    lookup-without c o 0 v.order.0 h.client_owner v.order.1,
  );
  owned = λ c j e. ground (
    arith,
    lists-erase c o j h.owners,
    v.owned c j,
    lookup-without c o 0 v.order.0 h.client_owner v.order.1,
  );
  quiet = λ j e. rw (any_target_sound j (erase o h.owners) e) refl;
}

pub bind_at-IsConsistent :
    (o c : ℕ) (room : Bool) (x : Option Owner) (h : Hub)
    → lookup o h.owners ≡ x
    → IsConsistent h
    → IsConsistent (bind_at o c room x h).1
bind_at-IsConsistent o c room none h found v = v
bind_at-IsConsistent o c room (some w) h found v =
    if_split (λ (r : Option BindError × Hub). IsConsistent r.1) (is_some (lookup c h.client_owner))
      (λ _. v)
      (λ free.
        if_split (λ (r : Option BindError × Hub). IsConsistent r.1) room (λ _. bound free)
          (λ _. undone free))
  where
    unlisted : is_some (lookup c h.client_owner) ≡ false → is_some (lookup c w.clients) ≡ false
    unlisted free = ground (arith, v.owned c o, ap (λ x. is_some (lookup c (clients_at x))) found)

    bound :
        is_some (lookup c h.client_owner) ≡ false
        → IsConsistent (record h {
          owners = insert o (with_client c w) h.owners;
          client_owner = insert c o h.client_owner;
        })
    bound free = record {
      order = insert-Sorted c o h.client_owner v.order;
      listed = λ k j e. rw (lists-insert k o j) (
          ground (
            arith,
            unlisted free,
            lookup-insert c k o h.client_owner,
            lookup-insert c k tt w.clients,
            v.listed k j,
            ap (λ x. is_some (lookup k (clients_at x))) found,
          ));
      owned = λ k j e. rw (lookup-insert c k) (
          ground (
            arith,
            unlisted free,
            lists-insert k o j (with_client c w) h.owners,
            lookup-insert c k tt w.clients,
            v.owned k j,
            ap (λ x. is_some (lookup k (clients_at x))) found,
          ));
      quiet = λ j e. rw (wake-insert o j) (ground (arith, v.quiet j e, ap wake_at found));
    }

    undone :
        is_some (lookup c h.client_owner) ≡ false
        → IsConsistent (record h {
          owners = insert o (record w { clients = erase c (with_client c w).clients }) h.owners;
        })
    undone free =
        same_clients h h.any_wake o w _ found
          (λ k. ground (
            arith,
            unlisted free,
            lookup-erase c k (with_client c w).clients,
            lookup-insert c k tt w.clients,
          ))
          (λ e. (e, ground (arith, v.quiet o e, ap wake_at found))) v

pub enable_at-IsConsistent :
    (o : ℕ) (fresh : WakeTarget) (x : Option Owner) (h : Hub)
    → lookup o h.owners ≡ x
    → IsConsistent h
    → IsConsistent (enable_at o fresh x h).1
enable_at-IsConsistent o fresh none h found v = v
enable_at-IsConsistent o fresh (some w) h found v =
    same_clients h _ o w _ found (λ c. refl) (λ e. (ground arith, ground arith)) v

attempt-valid :
    (n : ℕ) (answers : ℕ → Written) (i : ℕ) (t : WakeTarget)
    → valid (attempt n answers i t) ≡ valid t
unfolding attempt valid
attempt-valid zero answers i t = refl
attempt-valid (suc n) answers i t = ground (arith, attempt-valid n answers (suc i) t)

ring-valid : (answers : ℕ → Written) (t : WakeTarget) → valid (ring answers t) ≡ valid t
unfolding ring valid
ring-valid answers t = ground (
  arith,
  attempt-valid 8 answers 0
      (record t { rings = suc t.rings; asserted = true; writes = suc t.writes }),
)

ring_wake-IsConsistent :
    (o : ℕ) (answers : ℕ → Written) (w : Owner) (t : Option WakeTarget) (h : Hub)
    → lookup o h.owners ≡ some w
    → w.wake ≡ t
    → IsConsistent h
    → IsConsistent (ring_wake o answers w t h)
unfolding set_wake
ring_wake-IsConsistent o answers w none h found e v = v
ring_wake-IsConsistent o answers w (some t) h found e v =
    same_clients h h.any_wake o w _ found (λ c. refl)
      (λ off. (off, ground (arith, ring-valid answers t, v.quiet o off, ap wake_at found))) v

pub ring_at-IsConsistent :
    (o : ℕ) (answers : ℕ → Written) (x : Option Owner) (h : Hub)
    → lookup o h.owners ≡ x
    → IsConsistent h
    → IsConsistent (ring_at o answers x h)
ring_at-IsConsistent o answers none h found v = v
ring_at-IsConsistent o answers (some w) h found v =
    ring_wake-IsConsistent o answers w w.wake h found refl v

pub ring_client_at-IsConsistent :
    (answers : ℕ → Written) (x : Option ℕ) (h : Hub)
    → IsConsistent h
    → IsConsistent (ring_client_at answers x h)
ring_client_at-IsConsistent answers none h v = v
ring_client_at-IsConsistent answers (some o) h v =
    ring_at-IsConsistent o answers (lookup o h.owners) h refl v

pub unbind_at-IsConsistent :
    (c : ℕ) (x : Option ℕ) (h : Hub)
    → lookup c h.client_owner ≡ x
    → IsConsistent h
    → IsConsistent (unbind_at c x h)
unbind_at-IsConsistent c none h bound v = v
unbind_at-IsConsistent c (some o) h bound v = dropped (lookup o h.owners) refl
  where
    dropped :
        (x : Option Owner)
        → lookup o h.owners ≡ x
        → IsConsistent (record h {
          owners = drop_client c o x h.owners;
          client_owner = erase c h.client_owner;
        })
    dropped none found = absurd (
        ground
          (arith, v.listed c o, ap (λ x. is_some (lookup c (clients_at x))) found, no_client c))
      where
        no_client : (c : ℕ) → is_some (lookup {V = Unit {0}} c []) ≡ false
        no_client c = unfold lookup in refl
    dropped (some w) found = record {
      order = erase-Sorted c h.client_owner v.order;
      listed = λ k j e. rw (lists-insert k o j) (
          ground (
            arith,
            lookup-erase c k h.client_owner,
            lookup-erase c k w.clients,
            v.listed k j,
            ap (λ x. is_some (lookup k (clients_at x))) found,
          ));
      owned = λ k j e. rw (lookup-erase c k) (
          ground (
            arith,
            bound,
            lists-insert k o j (record w { clients = erase c w.clients }) h.owners,
            lookup-erase c k w.clients,
            v.owned k j,
            ap (λ x. is_some (lookup k (clients_at x))) found,
          ));
      quiet = λ j e. rw (wake-insert o j) (ground (arith, v.quiet j e, ap wake_at found));
    }
