-- ===== src/Receiver/Publish/Rings.antt =====
-- What `publish` tells the sink: state first, and a ring for each envelope that was published.
use tdlua.Prelude.{
  ℕ, suc, ◌≡◌, refl, ap, ◌∙◌, ◌⊎◌, inl, inr, Bool, true, false, Option, none, some, List, [], ◌∷◌,
  Map, lookup, arith, is_some, if_both, if◌then◌else◌,
}
use tdlua.Prelude.Int.{pos}
use tdlua.Identity.{contains}
use tdlua.Mailbox.{Envelope}
use tdlua.Receiver.State.{
  Runtime, Entry, Outcome, ok, thrown, and_then, Do, touch, SinkCall, ring_client, told,
}
use tdlua.Receiver.Publish.{
  is_kept, receive_item, route, published_by, routed, route_item, and_publish, announce,
  publish_wanted, publish,
}
use tdlua.Receiver.Publish.Decision.{Verdict, filtered, dropped, kept, decide}
use tdlua.Receiver.Publish.Accounting.{Adds, route-Adds}

module _ {A : Type 0} where
  -- Nothing was published meanwhile, and the sink is the same.
  abbrev pub SameSink : Runtime A → Runtime A → Type 0
  SameSink r r' = (r'.stats.published ≡ r.stats.published) × (r'.sink ≡ r.sink)

  receive_item-SameSink : (i : Envelope A) (r : Runtime A) → SameSink r (receive_item i r).1
  unfolding receive_item
  receive_item-SameSink i r = (ground arith, ground arith)

  -- The count of published envelopes, by the answer of the second critical section.
  abbrev Counts : Runtime A → Outcome Bool × Runtime A → Type 0
  Counts r (thrown e, r') = r'.stats.published ≡ r.stats.published
  Counts r (ok false, r') = r'.stats.published ≡ r.stats.published
  Counts r (ok true, r') = r'.stats.published ≡ suc r.stats.published

  published_by-Counts :
      (v : Verdict) (done : Bool) (r r' : Runtime A)
      → done ≡ is_kept v
      → Adds v r.stats r'.stats
      → Counts r (published_by (done, r'))
  unfolding touch
  published_by-Counts filtered true r r' e a = cc
  published_by-Counts filtered false r r' e a = a.0
  published_by-Counts dropped true r r' e a = cc
  published_by-Counts dropped false r r' e a = a.0
  published_by-Counts (kept c) true r r' e a = a.0
  published_by-Counts (kept c) false r r' e a = cc

  routed-Counts :
      (now : ℕ) (interested : Bool) (i : Envelope A) (o : Option Entry) (r : Runtime A)
      → Counts r (routed now interested i o r)
  unfolding touch
  routed-Counts now interested i none r =
      if_both
        (λ (m : Outcome Bool × Runtime A).
          Counts r (and_then {C = Bool} m λ done r'. (ok done, touch r')))
        (contains r.known_ids (pos i.client)) refl refl
  routed-Counts now interested i (some e) r =
      let v = decide e interested i.terminal i.request_id i.event_type in
      let (said, adds, _) = route-Adds now interested i e r v refl in
      if_both (Counts r) e.terminal refl (
        published_by-Counts v (route now interested i e r).0 r (route now interested i e r).1 said
          adds)

  -- Either nothing was published, and nobody is told; or one envelope was, and the sink, where it
  -- was set, has been told to ring its client, and nothing else.
  abbrev pub Rung : ℕ → Runtime A → List SinkCall × Outcome (Unit {0}) × Runtime A → Type 0
  Rung id r (calls, o, r') =
      ((calls ≡ []) × (r'.stats.published ≡ r.stats.published))
      ⊎ ((calls ≡ told r.sink (ring_client id ∷ [])) × (r'.stats.published ≡ suc r.stats.published))

  Rung-from :
      (id : ℕ) (r r' : Runtime A) (p : List SinkCall × Outcome (Unit {0}) × Runtime A)
      → SameSink r r'
      → Rung id r' p
      → Rung id r p
  Rung-from id r r' p s (inl (calls, count)) = inl (calls, count ∙ s.0)
  Rung-from id r r' p s (inr (calls, count)) =
      inr (calls ∙ ap (λ b. told b (ring_client id ∷ [])) s.1, count ∙ ap suc s.0)

  -- What follows a step that published nothing.
  and_publish-Rung :
      {B : Type 0} (id : ℕ) (r : Runtime A) (m : Outcome B × Runtime A)
      (rest : B → Runtime A → List SinkCall × Outcome (Unit {0}) × Runtime A)
      → SameSink r m.1
      → ((b : B) (r' : Runtime A) → SameSink r r' → Rung id r (rest b r'))
      → Rung id r (and_publish m rest)
  and_publish-Rung id r (ok b, r') rest s h = h b r' s
  and_publish-Rung id r (thrown e, r') rest s h = inl (refl, s.0)

  module _ (before after : Do A (Unit {0}))
      (quiet_before : (r : Runtime A) → SameSink r (before r).1)
      (quiet_after : (r : Runtime A) → SameSink r (after r).1) where
    announced :
        (id : ℕ) (r r' : Runtime A) (done : Bool)
        → Counts r (ok done, r')
        → Rung id r (announce after id r.sink done r')
    announced id r r' false c = inl (refl, c)
    announced id r r' true c = inr (refl, (quiet_after r').0 ∙ c)

    committed :
        (i : Envelope A) (r : Runtime A) (m : Outcome Bool × Runtime A)
        → Counts r m
        → Rung i.client r (and_publish m λ done r₃. announce after i.client r.sink done r₃)
    committed i r (ok done, r') c = announced i.client r r' done c
    committed i r (thrown e, r') c = inl (refl, c)

    wanted :
        (now : ℕ) (interests : Map (Unit {0})) (i : Envelope A) (r : Runtime A)
        → Rung i.client r (publish_wanted before after now interests i r)
    unfolding route_item
    wanted now interests i r =
        let i' = record i { sequence = r.sequence } in
        let rest : Runtime A → List SinkCall × Outcome (Unit {0}) × Runtime A = λ r₂.
          and_publish (route_item now interests i' r₂)
            λ done r₃. announce after i.client r₂.sink done r₃ in
        and_publish-Rung i.client r (before r) (λ _ r₂. rest r₂) (quiet_before r)
          (λ _ r₂ s. Rung-from i.client r r₂ (rest r₂) s (
            committed i r₂ (route_item now interests i' r₂) (
              routed-Counts now (is_some (lookup i.client interests)) i'
                (lookup i.client r₂.entries) r₂)))

    -- Where the hooks publish nothing and do not set the sink, and whether or not one of them
    -- throws: `publish` has either published nothing and told nobody, or published one envelope
    -- and told the sink, where there is one, to ring the envelope's client, and nothing else.
    pub publish-Rung :
        (now : ℕ) (interests : Map (Unit {0})) (i : Envelope A) (r : Runtime A)
        → Rung i.client r (publish before after now interests i r)
    unfolding publish
    publish-Rung now interests i r =
        let rest : Bool → Runtime A → List SinkCall × Outcome (Unit {0}) × Runtime A =
          λ go r₁. if go then publish_wanted before after now interests i r₁ else ([], ok tt, r₁) in
        and_publish-Rung i.client r (receive_item i r) rest (receive_item-SameSink i r) (λ go r₁ s.
          Rung-from i.client r r₁ (rest go r₁) s
            (if_both (Rung i.client r₁) go (wanted now interests i r₁) (inl (refl, refl))))
