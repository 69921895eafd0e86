-- ===== src/Ticket/Cover.antt =====
-- A fifo that names every active ticket of one client: what each ticket operation does to it.
use tdlua.Prelude.{
  ℕ, zero, suc, ◌+◌, ◌≤◌, ◌<◌, ◌≡◌, refl, ap, true, false, Option, none, some, List, [], ◌∷◌, arith,
  ◌==◌, bit, if◌then◌else◌, get_elem?, set, length, length-set, sum_by, sum_by-set, Bool-cases, ◌⊎◌,
  inl, inr, decrement,
}
use tdlua.Ticket.{
  Buffers, Ticket, DropReason, Channel, generic, subscription, active_at, alive_at, retire,
  retire_active, retire_found, report, set_pending, pending_of,
}
use tdlua.Ticket.Accounting.{IsExact, holds_place, retire-IsExact}

-- The addresses of a fifo rise, from `lo` and below `hi`.
abbrev pub Rising : ℕ → ℕ → List ℕ → Type 0
Rising lo hi [] = lo ≤ hi
Rising lo hi (i ∷ rest) = (lo ≤ i) × Rising (suc i) hi rest

abbrev pub client_at : Option Ticket → Option ℕ
client_at none = none
client_at (some t) = some t.client

abbrev pub AllOf : ℕ → List Ticket → List ℕ → Type 0
AllOf c ts [] = Unit {0}
AllOf c ts (i ∷ rest) = (client_at (get_elem? ts i) ≡ some c) × AllOf c ts rest

-- A live ticket as a summand.
abbrev pub live : List Ticket → ℕ → ℕ
live ts i = bit (active_at (get_elem? ts i))

-- The fifo of a client names tickets of that client, in the order of their addresses, and has at
-- least as many active ones as the client has; and an active ticket is alive.
pub record Covers (c : ℕ) (fifo : List ℕ) (b : Buffers) : Type 0 where
  pub exact : IsExact b
  pub rising : Rising 0 (length b.tickets) fifo
  pub owned : AllOf c b.tickets fifo
  pub cover : pending_of b c ≤ sum_by (live b.tickets) fifo
  pub alive :
      (i : ℕ) → active_at (get_elem? b.tickets i) ≡ true → alive_at (get_elem? b.tickets i) ≡ true

pub get-set {ℓ} :
    {A : Type ℓ} (xs : List A) (i j : ℕ) (u v : A)
    → get_elem? xs i ≡ some u
    → get_elem? (set xs i v) j ≡ (if i == j then some v else get_elem? xs j)
get-set [] i j u v h = cc
get-set (x ∷ xs) zero zero u v h = ground arith
get-set (x ∷ xs) zero (suc j) u v h = ground arith
get-set (x ∷ xs) (suc i) zero u v h = ground arith
get-set (x ∷ xs) (suc i) (suc j) u v h = ground (arith, get-set xs i j u v h)

module _ (ts : List Ticket) (i : ℕ) (t t' : Ticket) (found : get_elem? ts i ≡ some t) where
  -- What is read at `j` after the write at `i`.
  pub live-set : (j : ℕ) → live (set ts i t') j ≡ (if i == j then bit t'.active else live ts j)
  live-set j = ground (arith, ap (λ x. bit (active_at x)) (get-set ts i j t t' found))

  untouched :
      (lo hi : ℕ) (fifo : List ℕ)
      → i < lo
      → Rising lo hi fifo
      → sum_by (live (set ts i t')) fifo ≡ sum_by (live ts) fifo
  untouched lo hi [] lt r = refl
  untouched lo hi (j ∷ rest) lt r = ground (arith, live-set j, untouched (suc j) hi rest)

  lost_one :
      (lo hi : ℕ) (fifo : List ℕ)
      → Rising lo hi fifo
      → sum_by (live ts) fifo ≤ suc (sum_by (live (set ts i t')) fifo)
  lost_one lo hi [] r = omega arith
  lost_one lo hi (j ∷ rest) r =
      ground (arith, live-set j, lost_one (suc j) hi rest r.1, untouched (suc j) hi rest)

  foreign :
      (c : ℕ) (fifo : List ℕ)
      → AllOf c ts fifo
      → (t.client == c) ≡ false
      → sum_by (live (set ts i t')) fifo ≡ sum_by (live ts) fifo
  foreign c [] o ne = refl
  foreign c (j ∷ rest) o ne = ground (arith, live-set j, foreign c rest o.1 ne, ap client_at found)

  pub owned-set :
      (c : ℕ) (fifo : List ℕ) → t'.client ≡ t.client → AllOf c ts fifo → AllOf c (set ts i t') fifo
  owned-set c [] same o = tt
  owned-set c (j ∷ rest) same o = (
    ground (arith, o.0, ap client_at (get-set ts i j t t' found), ap client_at found),
    owned-set c rest same o.1,
  )

  pub alive-set :
      (t'.active ≡ true → t'.alive ≡ true)
      → ((j : ℕ) → active_at (get_elem? ts j) ≡ true → alive_at (get_elem? ts j) ≡ true)
      → (j : ℕ) → active_at (get_elem? (set ts i t') j) ≡ true
      → alive_at (get_elem? (set ts i t') j) ≡ true
  alive-set h a j = ground (
    arith,
    a j,
    h,
    ap active_at (get-set ts i j t t' found),
    ap alive_at (get-set ts i j t t' found),
  )

-- The store after the retirement of an active ticket.
module _ (i : ℕ) (t : Ticket) (r : DropReason) (b : Buffers)
    (found : get_elem? b.tickets i ≡ some t) where
  abbrev gone : Ticket
  gone = record t { active = false; reason = r }

  pub retire_active-tickets : (retire_active i t r b).tickets ≡ set b.tickets i gone
  unfolding retire_active report set_pending
  retire_active-tickets = reported t.channel
    where
      reported :
          (k : Channel)
          → (report k r (record (set_pending t.client (decrement (pending_of b t.client)) b) {
            tickets = set b.tickets i gone;
          })).tickets
            ≡ set b.tickets i gone
      reported generic = refl
      reported subscription = refl

  pub retire_active-pending :
      (c : ℕ)
      → IsExact b
      → IsExact (retire_active i t r b)
      → t.active ≡ true
      → pending_of (retire_active i t r b) c + bit (t.client == c) ≡ pending_of b c
  retire_active-pending c v x on = ground (
    arith,
    on,
    x.places c,
    v.places c,
    sum_by-set (holds_place c) b.tickets i t gone found,
    ap (sum_by (holds_place c)) retire_active-tickets,
  )

  retire_active-Covers :
      (c : ℕ) (fifo : List ℕ)
      → t.active ≡ true
      → Covers c fifo b
      → IsExact (retire_active i t r b)
      → Covers c fifo (retire_active i t r b)
  retire_active-Covers c fifo on v x = record {
    exact = x;
    rising = rw retire_active-tickets (rw length-set v.rising);
    owned = rw retire_active-tickets (owned-set b.tickets i t gone found c fifo refl v.owned);
    cover = omega (
      arith,
      fewer (Bool-cases (t.client == c)),
      ap (λ ts. sum_by (live ts) fifo) retire_active-tickets,
    );
    alive = rw retire_active-tickets (alive-set b.tickets i t gone found (λ e. cc) v.alive);
  }
    where
      fewer :
          ((t.client == c) ≡ true) ⊎ ((t.client == c) ≡ false)
          → pending_of (retire_active i t r b) c ≤ sum_by (live (set b.tickets i gone)) fifo
      fewer (inl own) = ground (
        arith,
        retire_active-pending c v.exact x on,
        own,
        v.cover,
        lost_one b.tickets i t gone found 0 (length b.tickets) fifo v.rising,
      )
      fewer (inr other) = ground (
        arith,
        retire_active-pending c v.exact x on,
        other,
        v.cover,
        foreign b.tickets i t gone found c fifo v.owned other,
      )

-- The store covers, and the client has no more tickets than before.
pub record Keeps (c : ℕ) (fifo : List ℕ) (b b' : Buffers) : Type 0 where
  pub covers : Covers c fifo b'
  pub fewer : pending_of b' c ≤ pending_of b c

pub unchanged : (c : ℕ) (fifo : List ℕ) (b : Buffers) → Covers c fifo b → Keeps c fifo b b
unchanged c fifo b v = record { covers = v; fewer = omega arith }

retire_found-Keeps :
    (c : ℕ) (fifo : List ℕ) (i : ℕ) (o : Option Ticket) (r : DropReason) (b : Buffers)
    → get_elem? b.tickets i ≡ o
    → IsExact (retire_found i o r b)
    → Covers c fifo b
    → Keeps c fifo b (retire_found i o r b)
unfolding retire_active
retire_found-Keeps c fifo i none r b found x v = unchanged c fifo b v
retire_found-Keeps c fifo i (some t) r b found x v = decided (Bool-cases t.active) x
  where
    decided :
        (t.active ≡ true) ⊎ (t.active ≡ false)
        → IsExact (if t.active then retire_active i t r b else b)
        → Keeps c fifo b (if t.active then retire_active i t r b else b)
    decided (inl on) = rw on (λ y. record {
      covers = retire_active-Covers i t r b found c fifo on v y;
      fewer = omega (arith, retire_active-pending i t r b found c v.exact y on);
    })
    decided (inr off) = rw off (λ y. unchanged c fifo b v)

pub retire-Keeps :
    (c : ℕ) (fifo : List ℕ) (i : ℕ) (r : DropReason) (b : Buffers)
    → Covers c fifo b
    → Keeps c fifo b (retire i r b)
unfolding retire
retire-Keeps c fifo i r b v =
    retire_found-Keeps c fifo i (get_elem? b.tickets i) r b refl (retire-IsExact i r b v.exact) v
