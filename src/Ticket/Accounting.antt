-- ===== src/Ticket/Accounting.antt =====
-- The counters that tickets share agree with the tickets.
use tdlua.Prelude.{
  ℕ, ◌+◌, leb, [], ◌≡◌, refl, inl, inr, Bool, true, false, Option, none, some, List, ◌∷◌, ◌&&◌, not,
  arith, ◌==◌, bit, get_elem?, sum_by, sum_by-set, sum_by_snoc, sum_by-get_le, lookup-insert,
  Bool-cases, lookup,
}
use tdlua.Ticket.{
  Buffers, fresh, Ticket, DropReason, no_drop, overflow, expired, Channel, generic, subscription,
  no_buffers, pending_of, count_drop, report, set_pending, acquire, retire_active, retire, refresh,
  retire_found, refresh_found, bury_found, destroy,
}

-- The active tickets of a client, and the tickets dropped for a reason on a channel.
abbrev pub holds_place : ℕ → Ticket → ℕ
holds_place client t = bit (t.active && (t.client == client))

abbrev pub dropped_by : DropReason → DropReason → Bool
dropped_by no_drop no_drop = true
dropped_by overflow overflow = true
dropped_by expired expired = true
dropped_by _ _ = false

abbrev pub on_channel : Channel → Channel → Bool
on_channel generic generic = true
on_channel subscription subscription = true
on_channel _ _ = false

abbrev pub drop_of : Channel → DropReason → Ticket → ℕ
drop_of c r t = bit (on_channel t.channel c && dropped_by t.reason r)

-- An active ticket with a reason: there is none.
abbrev pub spent : Ticket → ℕ
spent t = bit (t.active && not (dropped_by t.reason no_drop))

-- Each shared counter is the number of tickets that it counts.
pub record IsExact (b : Buffers) : Type 0 where
  pub places : (client : ℕ) → pending_of b client ≡ sum_by (holds_place client) b.tickets
  pub generic_overflow :
      b.generic_metrics.dropped_overflow ≡ sum_by (drop_of generic overflow) b.tickets
  pub generic_expired :
      b.generic_metrics.dropped_expired ≡ sum_by (drop_of generic expired) b.tickets
  pub subscription_overflow :
      b.subscription_metrics.dropped_overflow ≡ sum_by (drop_of subscription overflow) b.tickets
  pub subscription_expired :
      b.subscription_metrics.dropped_expired ≡ sum_by (drop_of subscription expired) b.tickets
  pub unspent : sum_by spent b.tickets ≡ 0

pub no_buffers-IsExact : IsExact no_buffers
unfolding no_buffers pending_of lookup
no_buffers-IsExact = record {
  places = λ c. refl;
  generic_overflow = refl;
  generic_expired = refl;
  subscription_overflow = refl;
  subscription_expired = refl;
  unspent = refl;
}

report-tickets : (c : Channel) (r : DropReason) (b : Buffers) → (report c r b).tickets ≡ b.tickets
unfolding report
report-tickets generic r b = refl
report-tickets subscription r b = refl

report-pending : (c : Channel) (r : DropReason) (b : Buffers) → (report c r b).pending ≡ b.pending
unfolding report
report-pending generic r b = refl
report-pending subscription r b = refl

-- Retiring an active ticket, field by field.
module _ (i : ℕ) (t : Ticket) (r : DropReason) (b : Buffers)
    (found : get_elem? b.tickets i ≡ some t) (on : t.active ≡ true) where
  abbrev retired : Ticket
  retired = record t { active = false; reason = r }

  retire_active-sum :
      (w : Ticket → ℕ)
      → sum_by w (retire_active i t r b).tickets + w t ≡ sum_by w b.tickets + w retired
  unfolding retire_active
  retire_active-sum w = rw report-tickets (sum_by-set w b.tickets i t retired found)

  retire_active-places :
      (client : ℕ)
      → ((c : ℕ) → pending_of b c ≡ sum_by (holds_place c) b.tickets)
      → pending_of (retire_active i t r b) client
        ≡ sum_by (holds_place client) (retire_active i t r b).tickets
  unfolding retire_active pending_of set_pending
  retire_active-places client h =
      rw (report-tickets, report-pending)
        (rw (lookup-insert t.client client) (
          ground (
            arith,
            h client,
            h t.client,
            sum_by-set (holds_place client) b.tickets i t retired found,
            sum_by-get_le (holds_place t.client) b.tickets i t found,
          )))

  retire_active-IsExact : IsExact b → IsExact (retire_active i t r b)
  unfolding retire_active report count_drop set_pending
  retire_active-IsExact x = record {
    places = λ client. retire_active-places client x.places;
    generic_overflow = ground (
      arith,
      retire_active-sum (drop_of generic overflow),
      x.generic_overflow,
      x.unspent,
      sum_by-get_le spent b.tickets i t found,
    );
    generic_expired = ground (
      arith,
      retire_active-sum (drop_of generic expired),
      sum_by-get_le spent b.tickets i t found,
    );
    subscription_overflow = ground (
      arith,
      retire_active-sum (drop_of subscription overflow),
      sum_by-get_le spent b.tickets i t found,
    );
    subscription_expired = ground (
      arith,
      retire_active-sum (drop_of subscription expired),
      sum_by-get_le spent b.tickets i t found,
    );
    unspent = ground (arith, retire_active-sum spent);
  }

retire_found-IsExact :
    (i : ℕ) (r : DropReason) (b : Buffers) (o : Option Ticket)
    → get_elem? b.tickets i ≡ o
    → IsExact b
    → IsExact (retire_found i o r b)
unfolding retire_active
retire_found-IsExact i r b none e x = x
retire_found-IsExact i r b (some t) e x = elim (Bool-cases t.active) [
  | inl on ↦ rw on (retire_active-IsExact i t r b e on x)
  | inr off ↦ rw off x
]

pub retire-IsExact : (i : ℕ) (r : DropReason) (b : Buffers) → IsExact b → IsExact (retire i r b)
unfolding retire
retire-IsExact i r b x = retire_found-IsExact i r b (get_elem? b.tickets i) refl x

refresh_found-IsExact :
    (i : ℕ) (o : Option Ticket) (now : ℕ) (b : Buffers)
    → IsExact b
    → IsExact (refresh_found i o now b)
refresh_found-IsExact i none now b x = x
refresh_found-IsExact i (some t) now b x = elim (Bool-cases t.active) [
  | inl on ↦ rw on (elim (Bool-cases (leb t.expires now)) [
    | inl late ↦ rw late (retire-IsExact i expired b x)
    | inr early ↦ rw early x
  ])
  | inr off ↦ rw off x
]

pub refresh-IsExact : (i now : ℕ) (b : Buffers) → IsExact b → IsExact (refresh i now b)
unfolding refresh
refresh-IsExact i now b x = refresh_found-IsExact i (get_elem? b.tickets i) now b x

-- The end of a ticket's life changes no weight that the counters read.
bury-sum :
    (w : Ticket → ℕ) (i : ℕ) (o : Option Ticket) (b : Buffers)
    → ((t : Ticket) → w (record t { alive = false }) ≡ w t)
    → get_elem? b.tickets i ≡ o
    → sum_by w (bury_found i o b).tickets ≡ sum_by w b.tickets
bury-sum w i none b same e = refl
bury-sum w i (some t) b same e =
    omega (arith, same t, sum_by-set w b.tickets i t (record t { alive = false }) e)

bury-IsExact :
    (i : ℕ) (o : Option Ticket) (b : Buffers)
    → get_elem? b.tickets i ≡ o
    → IsExact b
    → IsExact (bury_found i o b)
unfolding pending_of
bury-IsExact i none b e x = x
bury-IsExact i (some t) b e x = record {
  places =
      λ client. rw (bury-sum (holds_place client) i (some t) b (λ t. refl) e) (x.places client);
  generic_overflow =
      rw (bury-sum (drop_of generic overflow) i (some t) b (λ t. refl) e) x.generic_overflow;
  generic_expired =
      rw (bury-sum (drop_of generic expired) i (some t) b (λ t. refl) e) x.generic_expired;
  subscription_overflow =
      rw (bury-sum (drop_of subscription overflow) i (some t) b (λ t. refl) e)
        x.subscription_overflow;
  subscription_expired =
      rw (bury-sum (drop_of subscription expired) i (some t) b (λ t. refl) e)
        x.subscription_expired;
  unspent = rw (bury-sum spent i (some t) b (λ t. refl) e) x.unspent;
}

pub destroy-IsExact : (i : ℕ) (b : Buffers) → IsExact b → IsExact (destroy i b)
unfolding destroy
destroy-IsExact i b x =
    bury-IsExact i (get_elem? (retire i no_drop b).tickets i) (retire i no_drop b) refl
      (retire-IsExact i no_drop b x)

pub acquire-IsExact :
    (acquired ttl : ℕ) (c : Channel) (client : ℕ) (b : Buffers)
    → IsExact b
    → IsExact (acquire acquired ttl c client b)
unfolding acquire set_pending pending_of
acquire-IsExact acquired ttl c client b x = record {
  places = λ k. rw (lookup-insert client k) (
      ground (
        arith,
        x.places k,
        x.places client,
        sum_by_snoc (holds_place k) b.tickets (fresh acquired ttl c client),
      ));
  generic_overflow =
      ground
        (arith, sum_by_snoc (drop_of generic overflow) b.tickets (fresh acquired ttl c client));
  generic_expired =
      ground (arith, sum_by_snoc (drop_of generic expired) b.tickets (fresh acquired ttl c client));
  subscription_overflow =
      ground (
        arith,
        sum_by_snoc (drop_of subscription overflow) b.tickets (fresh acquired ttl c client),
      );
  subscription_expired =
      ground
        (arith, sum_by_snoc (drop_of subscription expired) b.tickets (fresh acquired ttl c client));
  unspent = ground (arith, sum_by_snoc spent b.tickets (fresh acquired ttl c client));
}

-- What the program does with tickets.
pub data Action : Type 0 where
  acquires : ℕ → ℕ → Channel → ℕ → Action
  refreshes : ℕ → ℕ → Action
  retires : ℕ → DropReason → Action
  destroys : ℕ → Action

unfoldable pub act : Buffers → Action → Buffers
act b (acquires acquired ttl c client) = acquire acquired ttl c client b
act b (refreshes i now) = refresh i now b
act b (retires i r) = retire i r b
act b (destroys i) = destroy i b

unfoldable pub act_all : Buffers → List Action → Buffers
unfolding act
act_all b [] = b
act_all b (a ∷ as') = act_all (act b a) as'

act-IsExact : (b : Buffers) (a : Action) → IsExact b → IsExact (act b a)
unfolding act
act-IsExact b (acquires acquired ttl c client) x = acquire-IsExact acquired ttl c client b x
act-IsExact b (refreshes i now) x = refresh-IsExact i now b x
act-IsExact b (retires i r) x = retire-IsExact i r b x
act-IsExact b (destroys i) x = destroy-IsExact i b x

act_all_keeps : (b : Buffers) (as' : List Action) → IsExact b → IsExact (act_all b as')
unfolding act_all
act_all_keeps b [] x = x
act_all_keeps b (a ∷ as') x = act_all_keeps (act b a) as' (act-IsExact b a x)

-- After any sequence of ticket operations from the start, in any order and with any repetitions,
-- the pending counter of each client is the number of its active tickets, each drop metric is the
-- number of tickets dropped for that reason on that channel, and no active ticket has a reason.
pub act_all-IsExact : (as' : List Action) → IsExact (act_all no_buffers as')
act_all-IsExact as' = act_all_keeps no_buffers as' no_buffers-IsExact
