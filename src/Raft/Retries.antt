-- ===== src/Raft/Retries.antt =====
-- What the loop of RaftClient::Apply of src/raft/client/client.cpp promises.
use metamorphosis.Prelude.{
  ◌↔◌, Bool-cases, inl, ap, sym, subst, ◌∙◌, ◌≢◌, ◌⊎◌, false, arith, inr, true, ◌+◌, ◌≤◌, ◌≡◌, ℕ,
  zero, suc, refl,
}
use metamorphosis.Raft.Messages.{Any, Request}
use metamorphosis.Raft.Client.{
  Network, RaftClient, Result, start_attempt, has_error, advance, attempts,
}

-- The client after a number of errors.
unfoldable pub rotate : ℕ → RaftClient → RaftClient
rotate zero c = c
rotate (suc k) c = rotate k (advance c)

Result-cases : (s : Result) → (has_error s ≡ true) ⊎ ((y : Any) × (s ≡ inr y))
Result-cases (inl e) = inl refl
Result-cases (inr y) = inr (y, refl)

no_error : (s : Result) (x : Any) → has_error s ≡ true → s ≢ inr x
no_error (inl e) x h p = cc
no_error (inr y) x h p = cc

module _ (network : Network) (r : Request) where
  -- The result of attempt `attempt_id` at the client's present leader.
  abbrev pub attempted : ℕ → RaftClient → Result
  attempted attempt_id c =
      let a = network attempt_id c.current_leader r in start_attempt a.rpc_timed_out a.reply

  -- The first `k` attempts fail, and no stop is requested after them.
  unfoldable pub Failing : ℕ → ℕ → RaftClient → Type 0
  Failing zero attempt_id c = Unit {0}
  Failing (suc k) attempt_id c =
      (has_error (attempted attempt_id c) ≡ true)
      × ((network attempt_id c.current_leader r).stop_requested ≡ false)
      × Failing k (suc attempt_id) (advance c)

  answered_here :
      (retries attempt_id : ℕ) (c c' : RaftClient) (x y : Any)
      → attempted attempt_id c ≡ inr y
      → (let p : RaftClient × Result = (c, inr y) in p) ≡ (c', inr x)
      → (k : ℕ) × (k ≤ retries)
        × Failing k attempt_id c
        × (c' ≡ rotate k c)
        × (attempted (attempt_id + k) c' ≡ inr x)
  unfolding rotate Failing
  answered_here retries attempt_id c c' x y answered e =
      let kept : c' ≡ c = sym (ap (λ p. p.0) e) in
      let value : attempted attempt_id c ≡ inr x = answered ∙ ap (λ p. p.1) e in
      let z : attempt_id ≡ attempt_id + 0 = omega arith in
      (
        0,
        omega arith,
        tt,
        kept,
        subst (λ i. attempted i c' ≡ inr x) z
            (subst (λ d. attempted attempt_id d ≡ inr x) (sym kept) value),
      )

  -- A result that is no error is the answer to the request by one node, after the attempts before
  -- have failed; the client keeps that node as its leader.
  attempts-answered :
      (retries attempt_id : ℕ) (c c' : RaftClient) (x : Any)
      → attempts network r retries attempt_id c ≡ (c', inr x)
      → (k : ℕ) × (k ≤ retries)
        × Failing k attempt_id c
        × (c' ≡ rotate k c)
        × (attempted (attempt_id + k) c' ≡ inr x)
  unfolding attempts rotate Failing
  attempts-answered zero attempt_id c c' x e = elim (Result-cases (attempted attempt_id c)) [
    | inl failed ↦
        let same : attempted attempt_id c ≡ inr x = ap (λ p. p.1) (rw failed at e) in
        absurd (no_error (attempted attempt_id c) x failed same)
    | inr (y, answered) ↦ answered_here zero attempt_id c c' x y answered (rw answered at e)
  ]
  attempts-answered (suc n) attempt_id c c' x e = elim (Result-cases (attempted attempt_id c)) [
    | inl failed ↦ elim (Bool-cases (network attempt_id c.current_leader r).stop_requested) [
      | inl stopped ↦
          let same : attempted attempt_id c ≡ inr x = ap (λ p. p.1) (rw (failed, stopped) at e) in
          absurd (no_error (attempted attempt_id c) x failed same)
      | inr going ↦
          let (k, l, fails, keeps, got) =
            attempts-answered n (suc attempt_id) (advance c) c' x (rw (failed, going) at e) in
          let shift : suc attempt_id + k ≡ attempt_id + suc k = omega arith in
          (
            suc k,
            omega arith,
            (failed, going, fails),
            keeps,
            subst (λ i. attempted i c' ≡ inr x) shift got,
          )
    ]
    | inr (y, answered) ↦ answered_here (suc n) attempt_id c c' x y answered (rw answered at e)
  ]

  -- If an attempt within the retries is answered, and those before have failed without a stop
  -- request, the loop returns the answer.
  attempts-answer :
      (retries k attempt_id : ℕ) (c : RaftClient) (x : Any)
      → k ≤ retries
      → Failing k attempt_id c
      → attempted (attempt_id + k) (rotate k c) ≡ inr x
      → attempts network r retries attempt_id c ≡ (rotate k c, inr x)
  unfolding attempts rotate Failing
  attempts-answer zero zero attempt_id c x h f e =
      let z : attempt_id + 0 ≡ attempt_id = omega arith in
      let here = subst (λ i. attempted i c ≡ inr x) z e in rw here refl
  attempts-answer zero (suc k) attempt_id c x h f e = absurd (omega arith)
  attempts-answer (suc n) zero attempt_id c x h f e =
      let z : attempt_id + 0 ≡ attempt_id = omega arith in
      let here = subst (λ i. attempted i c ≡ inr x) z e in rw here refl
  attempts-answer (suc n) (suc k) attempt_id c x h f e =
      let shift : attempt_id + suc k ≡ suc attempt_id + k = omega arith in
      let later = subst (λ i. attempted i (rotate k (advance c)) ≡ inr x) shift e in
      let ih = attempts-answer n k (suc attempt_id) (advance c) x (omega arith) f.2 later in
      rw (f.0, f.1, ih) refl

  -- The loop returns a result that is no error just if one attempt within the retries is answered with
  -- it, those before have failed without a stop request, and the client keeps the node that answered.
  pub attempts_iff :
      (retries attempt_id : ℕ) (c c' : RaftClient) (x : Any)
      → (attempts network r retries attempt_id c ≡ (c', inr x)) ↔ (
          (k : ℕ) × (k ≤ retries)
          × Failing k attempt_id c
          × (c' ≡ rotate k c)
          × (attempted (attempt_id + k) c' ≡ inr x))
  attempts_iff retries attempt_id c c' x = (
    attempts-answered retries attempt_id c c' x,
    λ (k, l, fails, keeps, got).
        let here = subst (λ d. attempted (attempt_id + k) d ≡ inr x) keeps got in
        rw keeps (attempts-answer retries k attempt_id c x l fails here),
  )
