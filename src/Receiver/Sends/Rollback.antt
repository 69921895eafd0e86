-- ===== src/Receiver/Sends/Rollback.antt =====
-- What `admitSend` changes in an entry, and what takes it back.
use tdlua.Prelude.{
  ℕ, ◌≡◌, sym, ap, ◌∙◌, Bool, true, false, none, some, Map, lookup, insert, erase, lookup-insert,
  lookup-erase, nonzero, arith, ◌==◌, ==_refl, if◌then◌else◌,
}
use tdlua.Mailbox.{ResponseClass, lifecycle}
use tdlua.Receiver.State.{Entry}
use tdlua.Receiver.Demand.{erase_pending_request, lower}
use tdlua.Receiver.Sends.{raise, add_pending, protect, rolled_back, add_lifecycle, unsent}

-- The demands of two entries agree, and their requests.
abbrev pub SameDemand : Entry → Entry → Type 0
SameDemand e e' =
    (e'.lifecycle_demands ≡ e.lifecycle_demands)
    × (e'.active_drivers ≡ e.active_drivers)
    × (e'.watch_demands ≡ e.watch_demands)
    × ((k : ℕ) → lookup k e'.pending_requests ≡ lookup k e.pending_requests)
    × ((k : ℕ) → lookup k e'.protected_requests ≡ lookup k e.protected_requests)

-- A request that the entry does not know.
abbrev pub Fresh : ℕ → Entry → Type 0
Fresh request e =
    (lookup request e.pending_requests ≡ none) × (lookup request e.protected_requests ≡ none)

module _ {ℓ} {V : Type ℓ} where
  same_key : (k j : ℕ) (m : Map V) → lookup k m ≡ none → (k == j) ≡ true → none ≡ lookup j m
  same_key k j m h e = sym (ap (λ x. lookup x m) (ground (arith, e)) ∙ h)

  -- A key that is absent may be erased.
  erased : (k j : ℕ) (m : Map V) → lookup k m ≡ none → lookup j (erase k m) ≡ lookup j m
  erased k j m h = lookup-erase k j m ∙ ground (arith, same_key k j m h)

  -- A key that was absent, inserted and erased.
  passed :
      (k j : ℕ) (v : V) (m : Map V)
      → lookup k m ≡ none
      → lookup j (erase k (insert k v m)) ≡ lookup j m
  passed k j v m h =
      lookup-erase k j (insert k v m) ∙ ground (arith, same_key k j m h, lookup-insert k j v m)

-- The request is pending once, and then not.
pending_passed :
    (request : ℕ) (e : Entry)
    → lookup request e.pending_requests ≡ none
    → (k : ℕ)
    → lookup k (erase_pending_request request (add_pending request e)).pending_requests
      ≡ lookup k e.pending_requests
unfolding erase_pending_request add_pending
pending_passed request e h k =
    ap
      (λ o.
        lookup k
          (erase_pending_request request
            (record e { pending_requests = raise request o e.pending_requests })).pending_requests)
      h
    ∙ ap (λ o. lookup k (lower request o (insert request 1 e.pending_requests)))
        (lookup-insert request request 1 e.pending_requests
          ∙ ap (λ b. if b then some 1 else lookup request e.pending_requests) (==_refl request))
    ∙ passed request k 1 e.pending_requests h

pending_absent :
    (request : ℕ) (e : Entry)
    → lookup request e.pending_requests ≡ none
    → erase_pending_request request e ≡ e
unfolding erase_pending_request
pending_absent request e h =
    ap (λ o. record e { pending_requests = lower request o e.pending_requests }) h

pub unsent-track :
    (closing : Bool) (request : ℕ) (response_class : ResponseClass) (e : Entry)
    → Fresh request e
    → nonzero request ≡ true
    → SameDemand e (
        unsent closing request
          (add_lifecycle closing (protect request closing response_class (add_pending request e))))
unfolding erase_pending_request add_pending
unsent-track closing request response_class e (p, q) n = (
  ground arith,
  ground arith,
  ground arith,
  λ k. ground (arith, n, pending_passed request e p k),
  λ k. ground (
    arith,
    n,
    passed request k (if closing then lifecycle else response_class) e.protected_requests q,
  ),
)

pub unsent-untracked :
    (closing : Bool) (request : ℕ) (e : Entry)
    → Fresh request e
    → SameDemand e (unsent closing request (add_lifecycle closing e))
unfolding erase_pending_request add_pending
unsent-untracked closing request e (p, q) = (
  ground arith,
  ground arith,
  ground arith,
  λ k. ground (arith, ap (λ x. lookup k x.pending_requests) (pending_absent request e p)),
  λ k. ground (arith, erased request k e.protected_requests q),
)

pub rolled_back-Fresh :
    (request : ℕ) (e : Entry) → Fresh request e → SameDemand e (rolled_back false request e)
unfolding erase_pending_request add_pending
rolled_back-Fresh request e (p, q) = (
  ground arith,
  ground arith,
  ground arith,
  λ k. ground arith,
  λ k. ground (arith, erased request k e.protected_requests q),
)

pub rolled_back-pending :
    (request : ℕ) (e : Entry)
    → Fresh request e
    → nonzero request ≡ true
    → SameDemand e (rolled_back true request (add_pending request e))
unfolding erase_pending_request add_pending
rolled_back-pending request e (p, q) n = (
  ground arith,
  ground arith,
  ground arith,
  λ k. ground (arith, n, pending_passed request e p k),
  λ k. ground (arith, n, erased request k e.protected_requests q),
)
