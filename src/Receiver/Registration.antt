-- ===== src/Receiver/Registration.antt =====
-- A client that is created has an id that nobody had before.
use tdlua.Prelude.{
  ℕ, zero, suc, ◌≡◌, refl, ap, sym, ◌∙◌, Bool, true, false, not, Option, none, some, lookup,
  lookup-insert, arith, ==_refl, if◌then◌else◌, if_both, if_split,
}
use tdlua.Prelude.Int.{pos}
use tdlua.Identity.{History, contains, insert_id}
use tdlua.Identity.Membership.{or_keep, step_contains}
use tdlua.Ticket.{pending_of}
use tdlua.Mailbox.{is_failure}
use tdlua.Mailbox
use tdlua.Receiver.State.{
  Runtime, new_entry, Outcome, ok, thrown, and_then, client_id_reused, receiver_failed, box_or_new,
  box_of,
}
use tdlua.Receiver.Lifecycle.{
  Environment, is_present, publish_client, add_client, reap, create_client,
}

-- In `before` nobody has had the id, in `r` it is remembered, its entry is that of a new client of
-- the owner, its mailbox is empty, and no ticket is pending.
pub record Registered {A : Type 0} (before : Runtime A) (owner id : ℕ) (r : Runtime A)
    : Type 0 where
  pub new : contains before.known_ids (pos id) ≡ false
  pub known : contains r.known_ids (pos id) ≡ true
  pub entry : lookup id r.entries ≡ some (new_entry owner)
  pub mailbox : box_of id r ≡ Mailbox.empty
  pub pending : pending_of r.buffers id ≡ 0

module _ {A : Type 0} where
  abbrev pub Registers : Runtime A → ℕ → Outcome ℕ × Runtime A → Type 0
  Registers before owner (thrown e, r) = Unit {0}
  Registers before owner (ok id, r) = Registered before owner id r

  publish_client-Registers :
      (owner id : ℕ) (o : Option History) (r : Runtime A)
      → insert_id r.known_ids (pos id) ≡ o
      → contains r.known_ids (pos id) ≡ false
      → Registers r owner (publish_client owner id o r)
  publish_client-Registers owner id none r e n = tt
  publish_client-Registers owner zero (some h) r e n = absurd (unfold insert_id in cc)
  publish_client-Registers owner (suc id) (some h) r e n = record {
    new = n;
    known =
        ap (λ o. contains (or_keep r.known_ids o) (pos (suc id))) (sym e)
        ∙ step_contains r.known_ids (suc id) id
        ∙ ground (arith, ==_refl (suc id));
    entry = rw (lookup-insert (suc id) (suc id)) (ground (arith, ==_refl (suc id)));
    mailbox =
        unfold box_of in
        ground (
          arith,
          ap box_or_new (lookup-insert (suc id) (suc id) Mailbox.empty r.boxes),
          ==_refl (suc id),
        );
    pending =
        unfold pending_of in
        rw (lookup-insert (suc id) (suc id)) (ground (arith, ==_refl (suc id)));
  }

  assigned-Registers :
      (owner : ℕ) (o : Outcome ℕ) (r : Runtime A)
      → Registers r owner (
          and_then
            (o, r)
            λ id r''.
              if contains r''.known_ids (pos id)
              then (thrown client_id_reused, r'')
              else publish_client owner id (insert_id r''.known_ids (pos id)) r'')
  assigned-Registers owner (thrown e) r = tt
  assigned-Registers owner (ok id) r =
      if_split (Registers r owner) (contains r.known_ids (pos id)) (λ used. tt)
        (λ unused. publish_client-Registers owner id (insert_id r.known_ids (pos id)) r refl unused)

  add_client-Registers :
      (owner : ℕ) (create_id : Runtime A → Outcome ℕ) (r : Runtime A)
      → Registers r owner (add_client owner create_id r)
  add_client-Registers owner create_id r =
      if_both (Registers r owner) (not (is_present (lookup owner r.owners))) tt
        (checked (is_failure r.failure))
    where
      checked :
          (b : Bool)
          → Registers r owner (
              and_then (if b then (thrown (receiver_failed r.failure), r) else (ok tt, r)) λ _ r'.
                and_then
                  (create_id r', r')
                  λ id r''.
                    if contains r''.known_ids (pos id)
                    then (thrown client_id_reused, r'')
                    else publish_client owner id (insert_id r''.known_ids (pos id)) r'')
      checked true = tt
      checked false = assigned-Registers owner (create_id r) r

  -- If `createClient` returns an id, nobody had it when the wait for an old worker was over, it is
  -- remembered from then on, and its client starts with a fresh entry of the owner, an empty
  -- mailbox and no pending ticket, whatever the allocator and the other threads do.
  pub create_client-Registers :
      (self : Bool) (env : Environment A) (owner : ℕ) (create_id : Runtime A → Outcome ℕ)
      (r : Runtime A)
      → Registers (reap self env r).1 owner (create_client self env owner create_id r)
  unfolding create_client
  create_client-Registers self env owner create_id r = checked (is_failure r.failure)
    where
      reaped :
          (m : Outcome (Unit {0}) × Runtime A)
          → Registers m.1 owner (and_then m λ _ r₂. add_client owner create_id r₂)
      reaped (thrown e, r') = tt
      reaped (ok u, r') = add_client-Registers owner create_id r'

      checked :
          (b : Bool)
          → Registers (reap self env r).1 owner (
              and_then
                (if b then (thrown (receiver_failed r.failure), r) else (ok tt, r))
                λ _ r₁. and_then (reap self env r₁) λ _ r₂. add_client owner create_id r₂)
      checked true = tt
      checked false = reaped (reap self env r)
