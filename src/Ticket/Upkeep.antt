-- ===== src/Ticket/Upkeep.antt =====
-- Asking, ending and admitting a ticket keep the fifo of a client.
use tdlua.Prelude.{
  ℕ, zero, suc, ◌+◌, ◌≤◌, ◌≡◌, refl, ap, ◌∙◌, false, Option, none, some, List, [], ◌∷◌, ◌++◌, arith,
  ◌==◌, bit, if◌then◌else◌, get_elem?, set, length, length-set, length-append, sum_by, sum_by_snoc,
  leb, if_both, if_split, lookup-insert, lookup, ==_refl,
}
use tdlua.Ticket.{
  no_buffers, Buffers, Ticket, DropReason, expired, no_drop, Channel, active_at, alive_at, retire,
  retire_found, refresh, refresh_found, destroy, bury_found, acquire, fresh, set_pending,
  pending_of,
}
use tdlua.Ticket.Accounting.{IsExact, no_buffers-IsExact, destroy-IsExact, acquire-IsExact}
use tdlua.Ticket.Cover.{
  Rising, client_at, AllOf, live, Covers, Keeps, get-set, live-set, owned-set, alive-set, unchanged,
  retire_active-tickets, retire-Keeps,
}

pub Keeps-then :
    (c : ℕ) (fifo : List ℕ) (a b d : Buffers)
    → Keeps c fifo a b
    → Keeps c fifo b d
    → Keeps c fifo a d
Keeps-then c fifo a b d k l = record { covers = l.covers; fewer = omega (arith, k.fewer, l.fewer) }

refresh_found-Keeps :
    (c : ℕ) (fifo : List ℕ) (i : ℕ) (o : Option Ticket) (now : ℕ) (b : Buffers)
    → Covers c fifo b
    → Keeps c fifo b (refresh_found i o now b)
refresh_found-Keeps c fifo i none now b v = unchanged c fifo b v
refresh_found-Keeps c fifo i (some t) now b v =
    if_both (Keeps c fifo b) t.active
      (if_both (Keeps c fifo b) (leb t.expires now) (retire-Keeps c fifo i expired b v)
        (unchanged c fifo b v))
      (unchanged c fifo b v)

pub refresh-Keeps :
    (c : ℕ) (fifo : List ℕ) (i now : ℕ) (b : Buffers)
    → Covers c fifo b
    → Keeps c fifo b (refresh i now b)
unfolding refresh
refresh-Keeps c fifo i now b v = refresh_found-Keeps c fifo i (get_elem? b.tickets i) now b v

retire_found-inactive :
    (i : ℕ) (o : Option Ticket) (r : DropReason) (b : Buffers)
    → get_elem? b.tickets i ≡ o
    → active_at (get_elem? (retire_found i o r b).tickets i) ≡ false
retire_found-inactive i none r b found = ap active_at found
retire_found-inactive i (some t) r b found =
    if_split (λ (b' : Buffers). active_at (get_elem? b'.tickets i) ≡ false) t.active
      (λ on.
        ap (λ ts. active_at (get_elem? ts i)) (retire_active-tickets i t r b found)
        ∙ ground (
          arith,
          ap active_at (get-set b.tickets i i t (record t { active = false; reason = r }) found),
          ==_refl i,
        ))
      (λ off. ap active_at found ∙ off)

pub retire-inactive :
    (i : ℕ) (r : DropReason) (b : Buffers) → active_at (get_elem? (retire i r b).tickets i) ≡ false
unfolding retire
retire-inactive i r b = retire_found-inactive i (get_elem? b.tickets i) r b refl

bury-Keeps :
    (c : ℕ) (fifo : List ℕ) (i : ℕ) (o : Option Ticket) (b : Buffers)
    → get_elem? b.tickets i ≡ o
    → active_at o ≡ false
    → IsExact (bury_found i o b)
    → Covers c fifo b
    → Keeps c fifo b (bury_found i o b)
unfolding pending_of
bury-Keeps c fifo i none b found off x v = unchanged c fifo b v
bury-Keeps c fifo i (some t) b found off x v = record {
  covers = record {
    exact = x;
    rising = rw length-set v.rising;
    owned = owned-set b.tickets i t _ found c fifo refl v.owned;
    cover = omega (arith, v.cover, same_live fifo);
    alive = alive-set b.tickets i t _ found (λ e. cc) v.alive;
  };
  fewer = omega arith;
}
  where
    same_live :
        (js : List ℕ)
        → sum_by (live (set b.tickets i (record t { alive = false }))) js
          ≡ sum_by (live b.tickets) js
    same_live [] = refl
    same_live (j ∷ js) = ground (
      arith,
      live-set b.tickets i t (record t { alive = false }) found j,
      same_live js,
      ap active_at found,
      off,
    )

pub destroy-Keeps :
    (c : ℕ) (fifo : List ℕ) (i : ℕ) (b : Buffers) → Covers c fifo b → Keeps c fifo b (destroy i b)
unfolding destroy
destroy-Keeps c fifo i b v =
    let k = retire-Keeps c fifo i no_drop b v in
    Keeps-then c fifo b (retire i no_drop b) _ k (
      bury-Keeps c fifo i (get_elem? (retire i no_drop b).tickets i) (retire i no_drop b) refl
        (retire-inactive i no_drop b) (unfold destroy in destroy-IsExact i b v.exact) k.covers)

Rising-snoc : (lo hi : ℕ) (fifo : List ℕ) → Rising lo hi fifo → Rising lo (suc hi) (fifo ++ hi ∷ [])
Rising-snoc lo hi [] r = (r, omega arith)
Rising-snoc lo hi (i ∷ rest) r = (r.0, Rising-snoc (suc i) hi rest r.1)

-- A ticket at the end of the store changes no read before it.
get-snoc :
    (ts : List Ticket) (t : Ticket) (j : ℕ)
    → get_elem? (ts ++ t ∷ []) j ≡ (if length ts == j then some t else get_elem? ts j)
get-snoc [] t zero = ground arith
get-snoc [] t (suc j) = ground arith
get-snoc (u ∷ ts) t zero = ground arith
get-snoc (u ∷ ts) t (suc j) = ground (arith, get-snoc ts t j)

get_beyond : (ts : List Ticket) → get_elem? ts (length ts) ≡ none
get_beyond [] = refl
get_beyond (t ∷ ts) = get_beyond ts

AllOf-snoc :
    (c : ℕ) (ts : List Ticket) (t : Ticket) (fifo : List ℕ)
    → t.client ≡ c
    → AllOf c ts fifo
    → AllOf c (ts ++ t ∷ []) (fifo ++ length ts ∷ [])
AllOf-snoc c ts t [] own o =
    (ground (arith, ap client_at (get-snoc ts t (length ts)), ==_refl (length ts), own), tt)
AllOf-snoc c ts t (i ∷ rest) own o =
    (ground (arith, ap client_at (get-snoc ts t i), own, o.0), AllOf-snoc c ts t rest own o.1)

live-snoc :
    (ts : List Ticket) (t : Ticket) (fifo : List ℕ)
    → sum_by (live ts) fifo ≤ sum_by (live (ts ++ t ∷ [])) fifo
live-snoc ts t [] = omega arith
live-snoc ts t (i ∷ rest) = ground (
  arith,
  live-snoc ts t rest,
  ap (λ o. bit (active_at o)) (get-snoc ts t i),
  ap (λ o. bit (active_at o)) (get_beyond ts),
)

pub acquire-Covers :
    (c acquired ttl : ℕ) (k : Channel) (fifo : List ℕ) (b : Buffers)
    → Covers c fifo b
    → Covers c (fifo ++ length b.tickets ∷ []) (acquire acquired ttl k c b)
      × (pending_of (acquire acquired ttl k c b) c ≡ suc (pending_of b c))
unfolding acquire set_pending pending_of
acquire-Covers c acquired ttl k fifo b v = (
  record {
    exact = unfold acquire set_pending pending_of in acquire-IsExact acquired ttl k c b v.exact;
    rising =
        rw (length-append b.tickets (t ∷ []))
          (rw one_more (Rising-snoc 0 (length b.tickets) fifo v.rising));
    owned = AllOf-snoc c b.tickets t fifo refl v.owned;
    cover = ground (
      arith,
      counted,
      v.cover,
      live-snoc b.tickets t fifo,
      sum_by_snoc (live (b.tickets ++ t ∷ [])) fifo (length b.tickets),
      ap (λ o. bit (active_at o)) (get-snoc b.tickets t (length b.tickets)),
      ==_refl (length b.tickets),
    );
    alive = λ i. ground (
      arith,
      v.alive i,
      ap active_at (get-snoc b.tickets t i),
      ap alive_at (get-snoc b.tickets t i),
    );
  },
  counted,
)
  where
    t : Ticket
    t = fresh acquired ttl k c

    one_more : length b.tickets + 1 ≡ suc (length b.tickets)
    one_more = omega arith

    counted : pending_of (acquire acquired ttl k c b) c ≡ suc (pending_of b c)
    counted = rw (lookup-insert c c) (ground (arith, ==_refl c))

pub no_buffers-Covers : (c : ℕ) → Covers c [] no_buffers
unfolding no_buffers pending_of lookup
no_buffers-Covers c = record {
  exact = no_buffers-IsExact;
  rising = omega arith;
  owned = tt;
  cover = omega arith;
  alive = λ i e. cc;
}

Rising-raise : (lo hi : ℕ) (fifo : List ℕ) → Rising lo hi fifo → Rising lo (suc hi) fifo
Rising-raise lo hi [] r = omega arith
Rising-raise lo hi (i ∷ rest) r = (r.0, Rising-raise (suc i) hi rest r.1)

AllOf-grow :
    (c : ℕ) (ts : List Ticket) (t : Ticket) (fifo : List ℕ)
    → AllOf c ts fifo
    → AllOf c (ts ++ t ∷ []) fifo
AllOf-grow c ts t [] o = tt
AllOf-grow c ts t (i ∷ rest) o = (
  ground (arith, o.0, ap client_at (get-snoc ts t i), ap client_at (get_beyond ts)),
  AllOf-grow c ts t rest o.1,
)

-- Another client's ticket.
pub acquire_other-Keeps :
    (c other acquired ttl : ℕ) (k : Channel) (fifo : List ℕ) (b : Buffers)
    → (other == c) ≡ false
    → Covers c fifo b
    → Keeps c fifo b (acquire acquired ttl k other b)
unfolding acquire set_pending pending_of
acquire_other-Keeps c other acquired ttl k fifo b ne v = record {
  covers = record {
    exact = unfold acquire set_pending pending_of in acquire-IsExact acquired ttl k other b v.exact;
    rising =
        rw (length-append b.tickets (t ∷ []))
          (rw one_more (Rising-raise 0 (length b.tickets) fifo v.rising));
    owned = AllOf-grow c b.tickets t fifo v.owned;
    cover = omega (arith, unmoved, v.cover, live-snoc b.tickets t fifo);
    alive = λ i. ground (
      arith,
      v.alive i,
      ap active_at (get-snoc b.tickets t i),
      ap alive_at (get-snoc b.tickets t i),
    );
  };
  fewer = omega (arith, unmoved);
}
  where
    t : Ticket
    t = fresh acquired ttl k other

    one_more : length b.tickets + 1 ≡ suc (length b.tickets)
    one_more = omega arith

    unmoved : pending_of (acquire acquired ttl k other b) c ≡ pending_of b c
    unmoved = rw (lookup-insert other c) (ground (arith, ne))
