-- ===== src/Proxy/Routing/Attempts.antt =====
-- What the attempts of a request are: few, of different backends, and all of eligible ones.
use p2p_gossip_lb.Prelude.{
  ◌∙◌, sym, ap, ℕ, zero, suc, ◌≤◌, ◌≡◌, ◌≢◌, ◌⊎◌, inl, inr, refl, true, false, not, Option, none,
  some, List, [], ◌∷◌, length, In, In-keep, arith, Option-cases,
}
use p2p_gossip_lb.Prelude.Text.{Text}
use p2p_gossip_lb.Selector.Floats.{Floats}
use p2p_gossip_lb.Selector.Request.{RequestContext}
use p2p_gossip_lb.Selector.Filter.{Candidate, Config, Environment}
use p2p_gossip_lb.Selector.Filter.Sound.{Eligible}
use p2p_gossip_lb.Selector.Pick.{Draws, Picked, no_backend, picked}
use p2p_gossip_lb.Selector.Pick.Outcome.{pick_lem}
use p2p_gossip_lb.Proxy.Routing.{
  Outcome, responded, unavailable, panicked, seen, pick_left, pick_candidate, attempt_loop, handle,
}

module _ (floats : Floats) (bucket : Text → Text) (ctx : RequestContext) (env : Environment)
    (pool : List (Candidate floats)) (cfg : Config floats) where
  -- The backend and the measurements of a candidate of the pool that can take the request.
  pub record Admissible (c : Candidate floats) : Type 0 where
    pub origin : Candidate floats
    pub pooled : In origin pool
    pub eligible : Eligible floats ctx env cfg origin
    pub same_meta : c.meta ≡ origin.meta
    pub same_metrics : c.metrics ≡ origin.metrics

  -- Each candidate is admissible, and its ID is not among those tried before.
  abbrev pub Fresh : List Text → List (Candidate floats) → Type 0
  Fresh tried [] = Unit
  Fresh tried (c ∷ cs) =
      (seen c.meta.id tried ≡ false) × Admissible c × Fresh (c.meta.id ∷ tried) cs

  abbrev Choice : List Text → Picked floats → Type 0
  Choice tried out =
      (out ≡ no_backend)
      ⊎ ((c : Candidate floats) × (out ≡ picked c) × (seen c.meta.id tried ≡ false) × Admissible c)

  pick_left_cases :
      (draws : Draws floats.Float) (tried : List Text) (l : List (Candidate floats))
      → ((c : Candidate floats) → In c l → In c pool × (not (seen c.meta.id tried) ≡ true))
      → Choice tried (pick_left floats bucket ctx env cfg draws l)
  unfolding pick_left
  pick_left_cases draws tried [] sub = inl refl
  pick_left_cases draws tried (x ∷ l) sub =
      elim (pick_lem floats bucket ctx env (x ∷ l) cfg draws) [
        | inl (none_left, _) ↦ inl none_left
        | inr (c, c0, e, i, el, m, n) ↦
            let (pooled, unseen) = sub c0 i in
            inr (
              c,
              e,
              rw m (ground (arith, unseen)),
              record {
                origin = c0;
                pooled = pooled;
                eligible = el;
                same_meta = m;
                same_metrics = n;
              },
            )
      ]

  pick_candidate_cases :
      (draws : Draws floats.Float) (tried : List Text)
      → Choice tried (pick_candidate floats bucket ctx env pool cfg tried draws)
  unfolding pick_candidate
  pick_candidate_cases draws tried =
      pick_left_cases draws tried _
        (In-keep (λ (cand : Candidate floats). not (seen cand.meta.id tried)) pool)

  -- What a run of the loop with `left` attempts leaves.
  abbrev Ran : {R : Type 0} → ℕ → List Text → Outcome floats R × List (Candidate floats) → Type 0
  Ran left tried out = (out.0 ≢ panicked) × (length out.1 ≤ left) × Fresh tried out.1

  -- One round of the loop, by what was picked and what the network did.
  attempt_loop_none :
      {R : Type 0} (draws : ℕ → Draws floats.Float) (forward : ℕ → Candidate floats → Option R)
      (left : ℕ) (tried : List Text)
      → pick_candidate floats bucket ctx env pool cfg tried (draws left) ≡ no_backend
      → attempt_loop floats bucket ctx env pool cfg draws forward (suc left) tried
        ≡ (unavailable, [])
  unfolding attempt_loop
  attempt_loop_none draws forward left tried e = ground (arith, e)

  attempt_loop_responded :
      {R : Type 0} (draws : ℕ → Draws floats.Float) (forward : ℕ → Candidate floats → Option R)
      (left : ℕ) (tried : List Text) (c : Candidate floats) (r : R)
      → pick_candidate floats bucket ctx env pool cfg tried (draws left) ≡ picked c
      → forward left c ≡ some r
      → attempt_loop floats bucket ctx env pool cfg draws forward (suc left) tried
        ≡ (responded c r, c ∷ [])
  unfolding attempt_loop
  attempt_loop_responded draws forward left tried c r e f = ground (arith, e, f)

  attempt_loop_failed :
      {R : Type 0} (draws : ℕ → Draws floats.Float) (forward : ℕ → Candidate floats → Option R)
      (left : ℕ) (tried : List Text) (c : Candidate floats)
      → pick_candidate floats bucket ctx env pool cfg tried (draws left) ≡ picked c
      → forward left c ≡ none
      → attempt_loop floats bucket ctx env pool cfg draws forward (suc left) tried ≡ (
          let rest =
            attempt_loop floats bucket ctx env pool cfg draws forward left (c.meta.id ∷ tried) in
          (rest.0, c ∷ rest.1))
  unfolding attempt_loop
  attempt_loop_failed draws forward left tried c e f = ground (arith, e, f)

  attempt_loop-Ran :
      {R : Type 0} (draws : ℕ → Draws floats.Float) (forward : ℕ → Candidate floats → Option R)
      (left : ℕ) (tried : List Text)
      → Ran left tried (attempt_loop floats bucket ctx env pool cfg draws forward left tried)
  unfolding attempt_loop
  attempt_loop-Ran draws forward zero tried = ((λ e. cc), omega arith, tt)
  attempt_loop-Ran draws forward (suc left) tried = elim (pick_candidate_cases (draws left) tried) [
    | inl e ↦ rw (attempt_loop_none draws forward left tried e) ((λ x. cc), omega arith, tt)
    | inr (c, e, unseen, good) ↦ elim (Option-cases (forward left c)) [
      | inr (r, f) ↦
          rw (attempt_loop_responded draws forward left tried c r e f)
            ((λ x. cc), omega arith, (unseen, good, tt))
      | inl f ↦
          let (calm, few, fresh) = attempt_loop-Ran draws forward left (c.meta.id ∷ tried) in
          rw (attempt_loop_failed draws forward left tried c e f)
            (calm, omega (arith, few), (unseen, good, fresh))
    ]
  ]

  -- Whatever is drawn and whatever the network does, the attempts of a request end, with no index out
  -- of range and after two at most. Each attempt goes to a candidate of the pool that can take the request, and no
  -- backend ID is tried twice.
  pub handle_lem :
      {R : Type 0} (draws : ℕ → Draws floats.Float) (forward : ℕ → Candidate floats → Option R)
      → ((handle floats bucket ctx env pool cfg draws forward).0 ≢ panicked)
        × (length (handle floats bucket ctx env pool cfg draws forward).1 ≤ 2)
        × Fresh [] (handle floats bucket ctx env pool cfg draws forward).1
  unfolding handle
  handle_lem draws forward = attempt_loop-Ran draws forward 2 []

  attempt_loop_responded-Admissible :
      {R : Type 0} (draws : ℕ → Draws floats.Float) (forward : ℕ → Candidate floats → Option R)
      (left : ℕ) (tried : List Text) (c : Candidate floats) (r : R)
      → (attempt_loop floats bucket ctx env pool cfg draws forward left tried).0 ≡ responded c r
      → Admissible c
  unfolding attempt_loop
  attempt_loop_responded-Admissible draws forward zero tried c r h = cc
  attempt_loop_responded-Admissible draws forward (suc left) tried c r h =
      elim (pick_candidate_cases (draws left) tried) [
        | inl e ↦ absurd (cc (attempt_loop_none draws forward left tried e))
        | inr (x, e, unseen, good) ↦ elim (Option-cases (forward left x)) [
          | inr (y, f) ↦
              let one =
                ap (λ out. out.0) (attempt_loop_responded draws forward left tried x y e f) in
              let same : x ≡ c = cc in rw (sym same) good
          | inl f ↦
              attempt_loop_responded-Admissible draws forward left (x.meta.id ∷ tried) c r
                (sym (ap (λ out. out.0) (attempt_loop_failed draws forward left tried x e f)) ∙ h)
        ]
      ]

  -- A backend that has responded is a candidate of the pool that can take the request.
  pub handle_responded-Admissible :
      {R : Type 0} (draws : ℕ → Draws floats.Float) (forward : ℕ → Candidate floats → Option R)
      (c : Candidate floats) (r : R)
      → (handle floats bucket ctx env pool cfg draws forward).0 ≡ responded c r
      → Admissible c
  unfolding handle
  handle_responded-Admissible draws forward = attempt_loop_responded-Admissible draws forward 2 []

  attempt_loop_forwarded :
      {R : Type 0} (draws : ℕ → Draws floats.Float) (forward : ℕ → Candidate floats → Option R)
      (left : ℕ) (tried : List Text) (c : Candidate floats) (r : R)
      → (attempt_loop floats bucket ctx env pool cfg draws forward left tried).0 ≡ responded c r
      → (attempt : ℕ) × (forward attempt c ≡ some r)
  unfolding attempt_loop
  attempt_loop_forwarded draws forward zero tried c r h = cc
  attempt_loop_forwarded draws forward (suc left) tried c r h =
      elim (pick_candidate_cases (draws left) tried) [
        | inl e ↦ absurd (cc (attempt_loop_none draws forward left tried e))
        | inr (x, e, unseen, good) ↦ elim (Option-cases (forward left x)) [
          | inr (y, f) ↦
              let one : responded x y ≡ responded c r =
                sym (ap (λ out. out.0) (attempt_loop_responded draws forward left tried x y e f))
                ∙ h in
              (left, cc)
          | inl f ↦
              attempt_loop_forwarded draws forward left (x.meta.id ∷ tried) c r
                (sym (ap (λ out. out.0) (attempt_loop_failed draws forward left tried x e f)) ∙ h)
        ]
      ]

  -- What a backend has responded with, it gave in one of the attempts.
  pub handle_forwarded :
      {R : Type 0} (draws : ℕ → Draws floats.Float) (forward : ℕ → Candidate floats → Option R)
      (c : Candidate floats) (r : R)
      → (handle floats bucket ctx env pool cfg draws forward).0 ≡ responded c r
      → (attempt : ℕ) × (forward attempt c ≡ some r)
  unfolding handle
  handle_forwarded draws forward = attempt_loop_forwarded draws forward 2 []
