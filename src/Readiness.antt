-- ===== src/Readiness.antt =====
-- include/tdlua/common/readiness.h, class ReadinessHub: which client belongs to which owner (a VM),
-- and the owner's doorbell. An `Owner` object is named by its token, since a detach leaves no
-- pointer to it; a mailbox by its client, in the receiver's store. Each function is one critical
-- section under the hub's mutex.
pub mod Binding
pub mod History
pub mod Generations
use tdlua.Prelude.{
  ℕ, zero, suc, ◌+◌, Bool, true, false, ◌&&◌, ◌||◌, not, Option, none, some, List, [], ◌∷◌, Map,
  lookup, insert, erase, ◌==◌, nonzero, is_some, length, if◌then◌else◌,
}
use tdlua.Prelude.Int.{ℤ, pos, negsuc}
use tdlua.Mailbox.{Mailbox, is_failure}
use tdlua.Wake.{WakeTarget, Written, Drained, Polled, ring, valid, is_reliable, clear, wait}

pub record Owner : Type 0 where
  pub generation : ℕ
  pub clients : Map (Unit {0})
  pub wake : Option WakeTarget

pub record Hub : Type 0 where
  pub any_wake : Bool
  pub next_generation : ℕ
  pub owners : Map Owner
  pub client_owner : Map ℕ

unfoldable pub init : Hub
init = record { any_wake = false; next_generation = 0; owners = []; client_owner = [] }

-- The exceptions of `bindClient`.
pub data BindError : Type 0 where
  owner_unavailable already_bound out_of_memory : BindError

abbrev pub attach_at : ℕ → Option Owner → Hub → Hub
attach_at o (some w) h = h
attach_at o none h = record h {
  next_generation = suc h.next_generation;
  owners =
      insert o (record { generation = suc h.next_generation; clients = []; wake = none }) h.owners;
}

unfoldable pub attach_owner : ℕ → Hub → Hub
attach_owner o h = attach_at o (lookup o h.owners) h

-- The clients whose owner is another one.
unfoldable pub without_owner : ℕ → Map ℕ → Map ℕ
without_owner o [] = []
without_owner o ((client, owner) ∷ rest) =
    let kept = without_owner o rest in if owner == o then kept else (client, owner) ∷ kept

unfoldable pub any_target : Map Owner → Bool
any_target [] = false
any_target ((o, w) ∷ rest) = is_some w.wake || any_target rest

abbrev pub detach_at : ℕ → Option Owner → Hub → Hub
detach_at o none h = h
detach_at o (some w) h = record h {
  any_wake = any_target (erase o h.owners);
  owners = erase o h.owners;
  client_owner = without_owner o h.client_owner;
}

-- `detachOwner` and `unbindOwner`
unfoldable pub detach_owner : ℕ → Hub → Hub
unfolding without_owner any_target
detach_owner o h = detach_at o (lookup o h.owners) h

unfoldable pub has_owner : ℕ → Hub → Bool
has_owner o h = is_some (lookup o h.owners)

abbrev pub generation_at : Option Owner → ℕ
generation_at none = 0
generation_at (some w) = w.generation

unfoldable pub owner_generation : ℕ → Hub → ℕ
owner_generation o h = generation_at (lookup o h.owners)

abbrev pub with_client : ℕ → Owner → Owner
with_client c w = record w {
  clients = if is_some (lookup c w.clients) then w.clients else insert c tt w.clients;
}

-- `room` is false if the second `emplace` throws; the first one is then undone.
abbrev pub bind_at : ℕ → ℕ → Bool → Option Owner → Hub → Option BindError × Hub
bind_at o c room none h = (some owner_unavailable, h)
bind_at o c room (some w) h =
    if is_some (lookup c h.client_owner)
    then (some already_bound, h)
    else if room
    then (
      none,
      record h {
        owners = insert o (with_client c w) h.owners;
        client_owner = insert c o h.client_owner;
      },
    )
    else (
      some out_of_memory,
      record h {
        owners = insert o (record w { clients = erase c (with_client c w).clients }) h.owners;
      },
    )

unfoldable pub bind_client : ℕ → ℕ → Bool → Hub → Option BindError × Hub
bind_client o c room h = bind_at o c room (lookup o h.owners) h

abbrev pub target_or : Option WakeTarget → WakeTarget → WakeTarget
target_or none fresh = fresh
target_or (some w) fresh = w

-- `fresh` is the target that the constructor makes, if one is needed.
abbrev pub enable_at : ℕ → WakeTarget → Option Owner → Hub → Bool × Hub
enable_at o fresh none h = (false, h)
enable_at o fresh (some w) h =
    let target = target_or w.wake fresh in
    (
      valid target,
      record h {
        any_wake = valid target || h.any_wake;
        owners = insert o (record w { wake = some target }) h.owners;
      },
    )

unfoldable pub enable_wake : ℕ → WakeTarget → Hub → Bool × Hub
unfolding valid
enable_wake o fresh h = enable_at o fresh (lookup o h.owners) h

abbrev pub wake_at : Option Owner → Option WakeTarget
wake_at none = none
wake_at (some w) = w.wake

-- `found->second->wake`, if the owner is attached and has one.
unfoldable pub wake_of : ℕ → Hub → Option WakeTarget
wake_of o h = wake_at (lookup o h.owners)

abbrev pub asked {ℓ} : {B : Type ℓ} → B → (WakeTarget → B) → Option WakeTarget → B
asked d f none = d
asked d f (some w) = f w

unfoldable pub wake_valid : ℕ → Hub → Bool
unfolding wake_of valid
wake_valid o h = asked false valid (wake_of o h)

unfoldable pub wake_reliable : ℕ → Hub → Bool
unfolding wake_of is_reliable
wake_reliable o h = asked false is_reliable (wake_of o h)

unfoldable pub wake_rings : ℕ → Hub → ℕ
unfolding wake_of
wake_rings o h = asked 0 (λ w. w.rings) (wake_of o h)

unfoldable pub wake_writes : ℕ → Hub → ℕ
unfolding wake_of
wake_writes o h = asked 0 (λ w. w.writes) (wake_of o h)

unfoldable pub wait_owner : ℕ → Polled → Hub → ℤ
unfolding wake_of wait
wait_owner o answer h = asked (negsuc 0) (wait answer) (wake_of o h)

unfoldable pub set_wake : ℕ → WakeTarget → Owner → Hub → Hub
set_wake o target w h = record h { owners = insert o (record w { wake = some target }) h.owners }

-- `none` while the reads of the drain go on.
abbrev pub clear_with : ℕ → Owner → Hub → Option WakeTarget → Option Hub
clear_with o w h none = none
clear_with o w h (some target) = some (set_wake o target w h)

abbrev pub clear_at : ℕ → List Drained → Option Owner → Option WakeTarget → Hub → Option Hub
clear_at o answers none t h = some h
clear_at o answers (some w) none h = some h
clear_at o answers (some w) (some target) h = clear_with o w h (clear answers target)

unfoldable pub clear_wake : ℕ → List Drained → Hub → Option Hub
unfolding set_wake clear
clear_wake o answers h = clear_at o answers (lookup o h.owners) (wake_at (lookup o h.owners)) h

abbrev pub ring_wake : ℕ → (ℕ → Written) → Owner → Option WakeTarget → Hub → Hub
ring_wake o answers w none h = h
ring_wake o answers w (some target) h = set_wake o (ring answers target) w h

abbrev pub ring_at : ℕ → (ℕ → Written) → Option Owner → Hub → Hub
ring_at o answers none h = h
ring_at o answers (some w) h = ring_wake o answers w w.wake h

-- The answers of the writes to the doorbell of each owner.
unfoldable pub ring_owner : ℕ → (ℕ → Written) → Hub → Hub
unfolding set_wake ring
ring_owner o answers h = if h.any_wake then ring_at o answers (lookup o h.owners) h else h

abbrev pub ring_client_at : (ℕ → Written) → Option ℕ → Hub → Hub
ring_client_at answers none h = h
ring_client_at answers (some o) h = ring_at o answers (lookup o h.owners) h

unfoldable pub ring_client : ℕ → (ℕ → Written) → Hub → Hub
unfolding set_wake ring
ring_client c answers h =
    if h.any_wake then ring_client_at answers (lookup c h.client_owner) h else h

-- Over the owners that were attached when the broadcast began.
unfoldable pub ring_each : (ℕ → ℕ → Written) → Map Owner → Hub → Hub
unfolding set_wake ring
ring_each answers [] h = h
ring_each answers ((o, w) ∷ rest) h =
    ring_each answers rest (ring_at o (answers o) (lookup o h.owners) h)

unfoldable pub broadcast : (ℕ → ℕ → Written) → Hub → Hub
unfolding ring_each
broadcast answers h = if h.any_wake then ring_each answers h.owners h else h

abbrev pub drop_client : ℕ → ℕ → Option Owner → Map Owner → Map Owner
drop_client c o none owners = owners
drop_client c o (some w) owners = insert o (record w { clients = erase c w.clients }) owners

abbrev pub unbind_at : ℕ → Option ℕ → Hub → Hub
unbind_at c none h = h
unbind_at c (some o) h = record h {
  owners = drop_client c o (lookup o h.owners) h.owners;
  client_owner = erase c h.client_owner;
}

unfoldable pub unbind_client : ℕ → Hub → Hub
unbind_client c h = unbind_at c (lookup c h.client_owner) h

-- `hasWork(box)`: something is queued, the mailbox has failed, or its client has ended.
abbrev pub box_has_work : {A : Type 0} → Mailbox A → Bool
box_has_work m = nonzero m.stats.depth || is_failure m.failure || m.terminal

unfoldable pub any_work : {A : Type 0} → (ℕ → Mailbox A) → Map (Unit {0}) → Bool
any_work boxes [] = false
any_work boxes ((c, u) ∷ rest) = box_has_work (boxes c) || any_work boxes rest

abbrev pub clients_at : Option Owner → Map (Unit {0})
clients_at none = []
clients_at (some w) = w.clients

unfoldable pub has_work : {A : Type 0} → (ℕ → Mailbox A) → ℕ → Hub → Bool
unfolding any_work
has_work boxes o h = any_work boxes (clients_at (lookup o h.owners))

abbrev pub client_work : {A : Type 0} → (ℕ → Mailbox A) → ℕ → Option ℕ → Hub → Bool
client_work boxes c none h = false
client_work boxes c (some o) h =
    is_some (lookup c (clients_at (lookup o h.owners))) && box_has_work (boxes c)

unfoldable pub has_work_for_client : {A : Type 0} → (ℕ → Mailbox A) → ℕ → Hub → Bool
has_work_for_client boxes c h = client_work boxes c (lookup c h.client_owner) h

unfoldable pub client_count : ℕ → Hub → ℕ
client_count o h = length (clients_at (lookup o h.owners))
