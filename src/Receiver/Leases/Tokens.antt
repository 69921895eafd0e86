-- ===== src/Receiver/Leases/Tokens.antt =====
-- A map of entries beside a map of tokens, each naming a client.
use tdlua.Prelude.{
  ℕ, suc, ◌≡◌, refl, ap, ◌⊎◌, Option, none, some, [], ◌∷◌, Map, lookup, insert, erase, map_values,
  lookup-insert, lookup-erase, arith, ◌==◌, bit, sum_by, if◌then◌else◌,
}
use tdlua.Prelude.Keys.{
  Ascending, sum_by-insert, sum_by-erase, Ascending-widen, insert-Ascending, lookup_above,
}
use tdlua.Receiver.State.{Entry}
use tdlua.Receiver.Demand.{without_client}

-- The token is one of this client.
abbrev pub names : ℕ → ℕ × ℕ → ℕ
names id p = bit (p.1 == id)

abbrev pub at_entry : (Entry → ℕ) → Option Entry → ℕ
at_entry count none = 0
at_entry count (some e) = count e

-- The counter of each client's entry is the number of its tokens; no other client has a token.
abbrev pub Matches : (Entry → ℕ) → Map Entry → Map ℕ → Type 0
Matches count es ts = (id : ℕ) → at_entry count (lookup id es) ≡ sum_by (names id) ts

sum_by-without :
    (id j : ℕ) (ts : Map ℕ)
    → sum_by (names j) (without_client id ts) ≡ (if id == j then 0 else sum_by (names j) ts)
unfolding without_client
sum_by-without id j [] = ground arith
sum_by-without id j ((t, client) ∷ ts) = ground (arith, sum_by-without id j ts)

pub without_client-Ascending :
    (id lo hi : ℕ) (ts : Map ℕ) → Ascending lo hi ts → Ascending lo hi (without_client id ts)
unfolding without_client
without_client-Ascending id lo hi [] a = tt
without_client-Ascending id lo hi ((t, client) ∷ ts) a = ground (
  arith,
  without_client-Ascending id (suc t) hi ts a.2,
  Ascending-widen (suc t) hi lo hi (without_client id ts),
)

lookup-map_values :
    (f : Entry → Entry) (id : ℕ) (es : Map Entry) (count : Entry → ℕ) (k : ℕ → ℕ)
    → ((e : Entry) → count (f e) ≡ k (count e))
    → k 0 ≡ 0
    → at_entry count (lookup id (map_values f es)) ≡ k (at_entry count (lookup id es))
unfolding lookup map_values
lookup-map_values f id [] count k h z = ground arith
lookup-map_values f id ((j, e) ∷ es) count k h z =
    ground (arith, h e, lookup-map_values f id es count k h z)

module _ (count : Entry → ℕ) (es : Map Entry) (ts : Map ℕ) (m : Matches count es ts) where
  -- A new token for a client whose counter rises.
  pub Matches-acquire :
      (id token : ℕ) (e e' : Entry)
      → lookup id es ≡ some e
      → lookup token ts ≡ none
      → count e' ≡ suc (count e)
      → Matches count (insert id e' es) (insert token id ts)
  Matches-acquire id token e e' found free up j =
      rw (lookup-insert id j)
        (ground (arith, m j, sum_by-insert (names j) token id ts free, ap (at_entry count) found))

  pub Matches-release :
      (id token lo hi : ℕ) (e e' : Entry)
      → Ascending lo hi ts
      → lookup token ts ≡ some id
      → lookup id es ≡ some e
      → (count e ≡ suc (count e') ⊎ (count e ≡ 0))
      → Matches count (insert id e' es) (erase token ts)
  Matches-release id token lo hi e e' a held found down j = rw (lookup-insert id j) (
      ground
        (arith, m j, sum_by-erase (names j) token id lo hi ts a held, ap (at_entry count) found))

  -- A token names a registered client.
  pub Matches-registered :
      (id token lo hi : ℕ)
      → Ascending lo hi ts
      → lookup token ts ≡ some id
      → lookup id es ≡ none
      → ⊥
  Matches-registered id token lo hi a held missing =
      ground
        (arith, m id, sum_by-erase (names id) token id lo hi ts a held, ap (at_entry count) missing)

  pub Matches-update :
      (id : ℕ) (e' : Entry)
      → count e' ≡ at_entry count (lookup id es)
      → Matches count (insert id e' es) ts
  Matches-update id e' same j = rw (lookup-insert id j) (ground (arith, m j))

  pub Matches-clear :
      (id : ℕ) (e' : Entry) → count e' ≡ 0 → Matches count (insert id e' es) (without_client id ts)
  Matches-clear id e' gone j = rw (lookup-insert id j, sum_by-without id j) (ground (arith, m j))

  pub Matches-erase : (id : ℕ) → at_entry count (lookup id es) ≡ 0 → Matches count (erase id es) ts
  Matches-erase id gone j = rw (lookup-erase id j) (ground (arith, m j))

pub Matches-map :
    (count : Entry → ℕ) (f : Entry → Entry) (es : Map Entry) (ts : Map ℕ)
    → ((e : Entry) → count (f e) ≡ count e)
    → Matches count es ts
    → Matches count (map_values f es) ts
Matches-map count f es ts same m j =
    omega (arith, lookup-map_values f j es count (λ n. n) same refl, m j)

pub Matches-none :
    (count : Entry → ℕ) (f : Entry → Entry) (es : Map Entry)
    → ((e : Entry) → count (f e) ≡ 0)
    → Matches count (map_values f es) []
Matches-none count f es gone j = omega (arith, lookup-map_values f j es count (λ _. 0) gone refl)

-- The next token is unused, and keeps the order.
module _ (n : ℕ) (ts : Map ℕ) (a : Ascending 1 (suc n) ts) where
  pub token_fresh : lookup (suc n) ts ≡ none
  token_fresh = lookup_above (suc n) 1 (suc n) ts a (omega arith)

  pub token_order : (id : ℕ) → Ascending 1 (suc (suc n)) (insert (suc n) id ts)
  token_order id =
      insert-Ascending (suc n) id 1 (suc (suc n)) ts
        (Ascending-widen 1 (suc n) 1 (suc (suc n)) ts a (omega arith) (omega arith)) (omega arith)
        (omega arith)
