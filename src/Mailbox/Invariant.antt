-- ===== src/Mailbox/Invariant.antt =====
-- The counters of a mailbox agree with its queue and with the history of its calls.
use tdlua.Prelude.{
  ℕ, suc, ◌+◌, ◌≤◌, ◌≡◌, refl, inl, inr, Bool, true, false, Option, none, some, List, [], ◌∷◌,
  arith, ap, length, sum_by, subst, length-append, Bool-cases,
}
use tdlua.Ticket.{Buffers}
use tdlua.Mailbox.{
  Mailbox, Envelope, Failure, empty, publish, without_ticket, same_ticket, shrink_to, erase_generic,
  end_stream, fail, abandon, discard, deliver, stale_at, refresh_at, release_ticket, pop_from,
  pop_locked,
}

-- `posted` is the number of calls of `publish` so far. Every envelope posted is in the queue, was
-- delivered, was dropped for its ticket, or was abandoned.
pub record IsValid {A : Type 0} (posted : ℕ) (m : Mailbox A) : Type 0 where
  pub depth : m.stats.depth ≡ length m.queue
  pub peak : m.stats.depth ≤ m.stats.high_water
  pub balance :
      posted ≡ m.stats.dequeued + m.stats.generic_dropped + m.stats.abandoned + m.stats.depth
  pub accepted : m.stats.enqueued ≤ posted
  pub deserted : m.orphan ≡ true → length m.queue ≡ 0

module _ {A : Type 0} where
  empty-IsValid : IsValid {A = A} 0 empty
  unfolding empty
  empty-IsValid = ground arith

  pub publish-IsValid :
      (n : ℕ) (b : Buffers) (m : Mailbox A) (e : Envelope A)
      → IsValid n m
      → IsValid (suc n) (publish b m e).1
  unfolding publish
  publish-IsValid n b m e v = ground (arith, length-append m.queue (e ∷ []))

  abbrev Shorter : List (Envelope A) → Option (List (Envelope A)) → Type 0
  Shorter q none = Unit {0}
  Shorter q (some rest) = suc (length rest) ≡ length q

  without_ticket-Shorter : (i : ℕ) (q : List (Envelope A)) → Shorter q (without_ticket i q)
  unfolding without_ticket
  without_ticket-Shorter i [] = tt
  without_ticket-Shorter i (e ∷ es) =
      grow (same_ticket e.generic_ticket i) (without_ticket i es) (without_ticket-Shorter i es)
    where
      grow :
          (hit : Bool) (o : Option (List (Envelope A)))
          → Shorter es o
          → Shorter (e ∷ es) (elim hit [
            | true ↦ some es
            | false ↦ elim o [ none ↦ none | some rest ↦ some (e ∷ rest) ]
          ])
      grow true o s = refl
      grow false none s = tt
      grow false (some rest) s = omega arith

  shrink-IsValid :
      (n : ℕ) (m : Mailbox A) (o : Option (List (Envelope A)))
      → Shorter m.queue o
      → IsValid n m
      → IsValid n (shrink_to o m).0
  shrink-IsValid n m none s v = v
  shrink-IsValid n m (some rest) s v = ground arith

  pub erase_generic-IsValid :
      (n i : ℕ) (m : Mailbox A) → IsValid n m → IsValid n (erase_generic i m).0
  unfolding erase_generic
  erase_generic-IsValid n i m v =
      shrink-IsValid n m (without_ticket i m.queue) (without_ticket-Shorter i m.queue) v

  pub end_stream-IsValid : (n : ℕ) (m : Mailbox A) → IsValid n m → IsValid n (end_stream m)
  unfolding end_stream
  end_stream-IsValid n m v = ground arith

  pub fail-IsValid : (n : ℕ) (f : Failure) (m : Mailbox A) → IsValid n m → IsValid n (fail f m)
  unfolding fail
  fail-IsValid n f m v = ground arith

  pub abandon-IsValid :
      (n : ℕ) (b : Buffers) (m : Mailbox A) → IsValid n m → IsValid n (abandon b m).1
  unfolding abandon
  abandon-IsValid n b m v = ground arith

  discard-IsValid :
      (m : Mailbox A) (e : Envelope A) (es : List (Envelope A)) (n : ℕ)
      → m.queue ≡ e ∷ es
      → IsValid n m
      → IsValid n (discard m es)
  unfolding discard
  discard-IsValid m e es n h v = ground (arith, ap length h)

  deliver-IsValid :
      (m : Mailbox A) (e : Envelope A) (es : List (Envelope A)) (n : ℕ)
      → m.queue ≡ e ∷ es
      → IsValid n m
      → IsValid n (deliver m es)
  unfolding deliver
  deliver-IsValid m e es n h v = ground (arith, ap length h)

  pop_from-IsValid :
      (clock : ℕ → ℕ) (b : Buffers) (m : Mailbox A) (q : List (Envelope A)) (n : ℕ)
      → m.queue ≡ q
      → IsValid n m
      → IsValid n (pop_from clock b m q).box
  unfolding pop_from
  pop_from-IsValid clock b m [] n h v = ground (arith, ap length h)
  pop_from-IsValid clock b m (e ∷ es) n h v =
      elim (Bool-cases (stale_at e.generic_ticket (clock 0) b)) [
        | inl stale ↦
            rw (stale, pop_from)
              (pop_from-IsValid (λ k. clock (suc k))
                (release_ticket e.generic_ticket (refresh_at e.generic_ticket (clock 0) b))
                (discard m es) es n (unfold discard in refl) (discard-IsValid m e es n h v))
        | inr live ↦ rw (live, pop_from) (deliver-IsValid m e es n h v)
      ]

  pub pop_locked-IsValid :
      (clock : ℕ → ℕ) (b : Buffers) (m : Mailbox A) (n : ℕ)
      → IsValid n m
      → IsValid n (pop_locked clock b m).box
  unfolding pop_locked
  pop_locked-IsValid clock b m n v = pop_from-IsValid clock b m m.queue n refl v

-- What happens to a mailbox: the calls of the worker, of the receiver and of the client.
pub data Call (A : Type 0) : Type 0 where
  publishes : Envelope A → Call A
  erases : ℕ → Call A
  ends : Call A
  fails : Failure → Call A
  abandons : Call A
  pops : (ℕ → ℕ) → Call A

module _ {A : Type 0} where
  abbrev pub posts : Call A → ℕ
  posts (publishes e) = 1
  posts (erases i) = 0
  posts ends = 0
  posts (fails f) = 0
  posts abandons = 0
  posts (pops clock) = 0

  unfoldable pub call : Buffers × Mailbox A → Call A → Buffers × Mailbox A
  call (b, m) (publishes e) = publish b m e
  call (b, m) (erases i) = (b, (erase_generic i m).0)
  call (b, m) ends = (b, end_stream m)
  call (b, m) (fails f) = (b, fail f m)
  call (b, m) abandons = abandon b m
  call (b, m) (pops clock) = let p = pop_locked clock b m in (p.buffers, p.box)

  unfoldable pub call_all : Buffers × Mailbox A → List (Call A) → Buffers × Mailbox A
  unfolding call
  call_all s [] = s
  call_all s (c ∷ cs) = call_all (call s c) cs

  recount : {k n : ℕ} {m : Mailbox A} → k ≡ n → IsValid k m → IsValid n m
  recount {m} e v = subst (λ i. IsValid i m) e v

  call-IsValid :
      (n : ℕ) (s : Buffers × Mailbox A) (c : Call A)
      → IsValid n s.1
      → IsValid (posts c + n) (call s c).1
  unfolding call
  call-IsValid n (b, m) (publishes e) v = recount (omega arith) (publish-IsValid n b m e v)
  call-IsValid n (b, m) (erases i) v = recount (omega arith) (erase_generic-IsValid n i m v)
  call-IsValid n (b, m) ends v = recount (omega arith) (end_stream-IsValid n m v)
  call-IsValid n (b, m) (fails f) v = recount (omega arith) (fail-IsValid n f m v)
  call-IsValid n (b, m) abandons v = recount (omega arith) (abandon-IsValid n b m v)
  call-IsValid n (b, m) (pops clock) v = recount (omega arith) (pop_locked-IsValid clock b m n v)

  call_all-IsValid :
      (n : ℕ) (s : Buffers × Mailbox A) (cs : List (Call A))
      → IsValid n s.1
      → IsValid (sum_by posts cs + n) (call_all s cs).1
  unfolding call_all
  call_all-IsValid n s [] v = recount (omega arith) v
  call_all-IsValid n s (c ∷ cs) v =
      recount (omega arith) (call_all-IsValid (posts c + n) (call s c) cs (call-IsValid n s c v))

  -- After any calls on a new mailbox its depth is the length of its queue and at most the high-
  -- water mark, each envelope posted was delivered, dropped, abandoned or is queued, exactly once,
  -- and an orphan is empty.
  pub call_all-accounts :
      (b : Buffers) (cs : List (Call A)) → IsValid (sum_by posts cs) (call_all (b, empty) cs).1
  call_all-accounts b cs = recount (omega arith) (call_all-IsValid 0 (b, empty) cs empty-IsValid)
