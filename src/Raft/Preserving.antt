-- ===== src/Raft/Preserving.antt =====
-- The steps of a cluster of nodes of src/raft/node/node.cpp in which no node campaigns: they keep
-- what is known of the votes.
use metamorphosis.Prelude.{
  ℕ, ◌<◌, ◌≡◌, ◌≢◌, inl, Option, some, none, done, arith, refl, Bool, subst, sym,
}
use metamorphosis.Raft.Messages.{RequestVoteRequest, RequestVoteResult}
use metamorphosis.Raft.Node.{Node}
use metamorphosis.Raft.Voting.{request_vote, end_follower}
use metamorphosis.Raft.Steady.{Steady, request_vote-Steady}
use metamorphosis.Raft.Turns.{at-same, at-other, request_vote_grants, end_follower_keeps}
use metamorphosis.Raft.Cluster.{Election, Cluster, at, add_vote}
use metamorphosis.Raft.Elected.{IsPlaced, IsRunning, IsSafe, Change, Change-IsSafe, IsRunning-more}

module _ {M : Type 0} (n i : ℕ) (granted : ℕ → ℕ → ℕ → Bool) (elected : ℕ → ℕ → Bool)
    (s s' : Node M) (p : Steady s s') where
  pub IsPlaced-steady : IsPlaced n granted elected i s → IsPlaced n granted elected i s'
  IsPlaced-steady q = record {
    config = ground arith;
    held = λ t d g. ground (arith, q.held t d g, p.vote d);
    leads = λ l. ground arith;
  }

  pub IsRunning-steady :
      (o : Option Election) → IsRunning n granted i s o → IsRunning n granted i s' o
  IsRunning-steady none r = tt
  IsRunning-steady (some e) r = ground arith

module _ {M : Type 0} (n : ℕ) (c : Cluster M) (h : IsSafe n c) (i : ℕ) (l : i < n) where
  abbrev old : Node M
  old = c.nodes i

  -- A change of one node that grants no vote and makes no leader.
  quiet :
      (s' : Node M) (elections : ℕ → Option Election)
      → ((j : ℕ) → j ≢ i → elections j ≡ c.elections j)
      → IsPlaced n c.granted c.elected i s'
      → IsRunning n c.granted i s' (elections i)
      → IsSafe n (record c { nodes = at i s' c.nodes; elections = elections })
  quiet s' elections same p r =
      let d : Cluster M = record c { nodes = at i s' c.nodes; elections = elections } in
      Change-IsSafe n i c d h
        (record {
          nodes = λ j. at-other i j s' c.nodes;
          elections = same;
          others = λ v t e k. refl;
          more = λ v t e g. g;
          fresh = λ t e g. inl g;
          elected = λ j t k. refl;
          wins = λ t g. inl g;
        })
        (subst (IsPlaced n c.granted c.elected i) (sym (at-same i s' c.nodes)) p)
        (subst (λ s. IsRunning n c.granted i s (elections i)) (sym (at-same i s' c.nodes)) r)

  pub Steady-step : (s' : Node M) → Steady old s' → IsSafe n (record c { nodes = at i s' c.nodes })
  Steady-step s' p =
      quiet s' c.elections (λ j k. refl)
        (IsPlaced-steady n i c.granted c.elected old s' p (h.placed i l))
        (IsRunning-steady n i c.granted c.elected old s' p (c.elections i) (h.running i l))

  pub timeout_step :
      (s' : Node M)
      → c.elections i ≡ none
      → end_follower old ≡ done s'
      → IsSafe n (record c { nodes = at i s' c.nodes })
  timeout_step s' idle e =
      let q = h.placed i l in
      let k = end_follower_keeps old s' e in
      quiet s' c.elections (λ j k. refl)
        (record {
          config = ground arith;
          held = λ t d g. ground (arith, q.held t d g);
          leads = λ w. ground arith;
        })
        (rw idle tt)

  pub join_step : IsSafe n (record c { elections = at i none c.elections })
  join_step =
      let d : Cluster M = record c { elections = at i none c.elections } in
      Change-IsSafe n i c d h
        (record {
          nodes = λ j k. refl;
          elections = λ j. at-other i j none c.elections;
          others = λ v t e k. refl;
          more = λ v t e g. g;
          fresh = λ t e g. inl g;
          elected = λ j t k. refl;
          wins = λ t g. inl g;
        })
        (h.placed i l) (rw (at-same i none c.elections) tt)

  pub restart_step :
      (s' : Node M)
      → Steady old s'
      → IsSafe n (record c { nodes = at i s' c.nodes; elections = at i none c.elections })
  restart_step s' p =
      quiet s' (at i none c.elections) (λ j. at-other i j none c.elections)
        (IsPlaced-steady n i c.granted c.elected old s' p (h.placed i l))
        (rw (at-same i none c.elections) tt)

  pub vote_step :
      (r : RequestVoteRequest) (a : RequestVoteResult) (s' : Node M)
      → request_vote r old ≡ done (s', a)
      → IsSafe n (record c {
        nodes = at i s' c.nodes;
        granted = add_vote i r.term r.candidate_id a.vote_granted c.granted;
      })
  vote_step r a s' e =
      let p = request_vote-Steady r old s' a e in
      let g = request_vote_grants r old s' a e in
      let granted = add_vote i r.term r.candidate_id a.vote_granted c.granted in
      let d : Cluster M = record c { nodes = at i s' c.nodes; granted = granted } in
      let q = IsPlaced-steady n i c.granted c.elected old s' p (h.placed i l) in
      let change : Change n i c d = record {
        nodes = λ j. at-other i j s' c.nodes;
        elections = λ j k. refl;
        others = λ v t e k. ground arith;
        more = λ v t e k. ground arith;
        fresh = λ t e k. rw (at-same i s' c.nodes) (ground arith);
        elected = λ j t k. refl;
        wins = λ t k. inl k;
      } in
      let placed : IsPlaced n granted c.elected i s' = record {
        config = q.config;
        held = λ t e k. ground (arith, q.held t e);
        leads = q.leads;
      } in
      let running =
        IsRunning-more n i c d h change i s' (c.elections i)
          (IsRunning-steady n i c.granted c.elected old s' p (c.elections i) (h.running i l)) in
      Change-IsSafe n i c d h change (rw (at-same i s' c.nodes) placed)
        (rw (at-same i s' c.nodes) running)
