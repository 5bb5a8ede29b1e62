-- ===== src/Raft/Campaigns.antt =====
-- StartCandidate in a cluster of nodes of src/raft/node/node.cpp: its start, and the return of the RPC
-- to one peer, keep what is known of the votes.
use metamorphosis.Prelude.{
  ◌∙◌, Bool-cases, ℕ, ◌+◌, ◌/◌, ◌≤◌, ◌<◌, ◌≡◌, ◌==◌, ◌⊎◌, inl, inr, ◌&&◌, not, true, false, Option,
  some, done, arith, refl, Bool, subst, sym,
}
use metamorphosis.Raft.Messages.{RequestVoteRequest, RequestVoteResult}
use metamorphosis.Raft.Node.{Config, Node, leader, candidate, is_leader, majority_count}
use metamorphosis.Raft.Voting.{start_candidate, on_vote}
use metamorphosis.Raft.Quorum.{count_nodes, count_nodes_mono, count_nodes_add}
use metamorphosis.Raft.Steady.{Steady}
use metamorphosis.Raft.Turns.{at-same, at-other, start_candidate_votes, on_vote_cases}
use metamorphosis.Raft.Cluster.{Election, Cluster, at, add_vote, add_leader}
use metamorphosis.Raft.Elected.{IsPlaced, IsRunning, IsSafe, Change, Change-IsSafe}
use metamorphosis.Raft.Preserving.{IsPlaced-steady, IsRunning-steady}

majority_of :
    (n i : ℕ) (c : Config)
    → c ≡ record { node_id = i; node_count = n }
    → majority_count c ≡ n / 2 + 1
unfolding majority_count
majority_of n i c e = ground arith

module _ {M : Type 0} (n : ℕ) (c : Cluster M) (h : IsSafe n c) (i : ℕ) (l : i < n) where
  abbrev old : Node M
  old = c.nodes i

  pub candidate_step :
      (votes : ℕ) (r : RequestVoteRequest) (s' : Node M)
      → old.state ≡ candidate
      → start_candidate old ≡ done (s', votes, r)
      → let e : Election = record { term = r.term; waiting = λ j. not (j == i); votes = votes } in
        IsSafe n (record c {
          nodes = at i s' c.nodes;
          elections = at i (some e) c.elections;
          granted = add_vote i r.term i true c.granted;
        })
  candidate_step votes r s' state started =
      let k = start_candidate_votes old s' votes r started in
      let q = h.placed i l in
      let e : Election = record { term = r.term; waiting = λ j. not (j == i); votes = votes } in
      let granted = add_vote i r.term i true c.granted in
      let d : Cluster M = record c {
        nodes = at i s' c.nodes;
        elections = at i (some e) c.elections;
        granted = granted;
      } in
      let change : Change n i c d = record {
        nodes = λ j. at-other i j s' c.nodes;
        elections = λ j. at-other i j (some e) c.elections;
        others = λ v t e k. ground arith;
        more = λ v t e k. ground arith;
        fresh = λ t e f. rw (at-same i s' c.nodes) (ground arith);
        elected = λ j t k. refl;
        wins = λ t k. inl k;
      } in
      let own : 0 < count_nodes n (λ v. granted v r.term i && not (not (v == i))) = omega (
        arith,
        count_nodes_add n i (λ v. false) (λ v. granted v r.term i && not (not (v == i))) l refl
            (ground arith) (λ j k f. cc),
      ) in
      let placed : IsPlaced n granted c.elected i s' = record {
        config = ground arith;
        held = λ t e f. ground (arith, q.held t e);
        leads = λ w. ground arith;
      } in
      let running : IsRunning n granted i s' (some e) =
        (ground arith, (λ w. ground arith), ground arith) in
      Change-IsSafe n i c d h change (rw (at-same i s' c.nodes) placed)
        (rw (at-same i s' c.nodes, at-same i (some e) c.elections) running)

  -- After the return of the RPC to a peer, for whom the election no longer waits.
  module _ (p : ℕ) (m : p < n) (e : Election) (runs : c.elections i ≡ some e)
      (waits : e.waiting p ≡ true) where
    abbrev counted : (ℕ → Bool) → ℕ
    counted waiting = count_nodes n (λ v. c.granted v e.term i && not (waiting v))

    run : IsRunning n c.granted i old (some e)
    run = rw runs at (h.running i l)

    returned : counted e.waiting ≤ counted (at p false e.waiting)
    returned =
        count_nodes_mono n (λ v. c.granted v e.term i && not (e.waiting v))
          (λ v. c.granted v e.term i && not (at p false e.waiting v)) (λ v k f. ground arith)

    gained : c.granted p e.term i ≡ true → counted e.waiting < counted (at p false e.waiting)
    gained g =
        count_nodes_add n p (λ v. c.granted v e.term i && not (e.waiting v))
          (λ v. c.granted v e.term i && not (at p false e.waiting v)) m (ground arith)
          (ground arith) (λ v k f. ground arith)

    all_counted : (w : ℕ → Bool) → counted w ≤ count_nodes n (λ v. c.granted v e.term i)
    all_counted w =
        count_nodes_mono n (λ v. c.granted v e.term i && not (w v)) (λ v. c.granted v e.term i)
          (λ v k f. ground arith)

    return_step :
        (s' : Node M) (votes' : ℕ)
        → IsPlaced n c.granted (add_leader i s' c.elected) i s'
        → IsRunning n c.granted i s'
            (some (record e { waiting = at p false e.waiting; votes = votes' }))
        → (s'.state ≡ leader
            → (c.elected i s'.current_term ≡ true)
              ⊎ (n / 2 + 1 ≤ count_nodes n (λ v. c.granted v s'.current_term i)))
        → IsSafe n (record c {
          nodes = at i s' c.nodes;
          elections =
              at i (some (record e { waiting = at p false e.waiting; votes = votes' })) c.elections;
          elected = add_leader i s' c.elected;
        })
    return_step s' votes' placed running wins =
        let e' : Election = record e { waiting = at p false e.waiting; votes = votes' } in
        let d : Cluster M = record c {
          nodes = at i s' c.nodes;
          elections = at i (some e') c.elections;
          elected = add_leader i s' c.elected;
        } in
        let change : Change n i c d = record {
          nodes = λ j. at-other i j s' c.nodes;
          elections = λ j. at-other i j (some e') c.elections;
          others = λ v t e k. refl;
          more = λ v t e g. g;
          fresh = λ t e g. inl g;
          elected = λ j t k. ground arith;
          wins = λ t f. elim (Bool-cases (is_leader s'.state && t == s'.current_term)) [
            | inl now ↦
                let leads : s'.state ≡ leader = ground arith in
                let here : s'.current_term ≡ t = ground arith in
                subst
                  (λ u. (c.elected i u ≡ true) ⊎ (n / 2 + 1 ≤ count_nodes n (λ v. c.granted v u i)))
                  here (wins leads)
            | inr before ↦ inl (ground arith)
          ];
        } in
        Change-IsSafe n i c d h change (rw (at-same i s' c.nodes) placed)
          (rw (at-same i s' c.nodes, at-same i (some e') c.elections) running)

    Steady-return :
        (s' : Node M) (votes' : ℕ)
        → Steady old s'
        → votes' ≤ counted (at p false e.waiting)
        → IsSafe n (record c {
          nodes = at i s' c.nodes;
          elections =
              at i (some (record e { waiting = at p false e.waiting; votes = votes' })) c.elections;
          elected = add_leader i s' c.elected;
        })
    Steady-return s' votes' steady bound =
        let q = IsPlaced-steady n i c.granted c.elected old s' steady (h.placed i l) in
        let r = IsRunning-steady n i c.granted c.elected old s' steady (some e) run in
        return_step s' votes'
          (record { config = q.config; held = q.held; leads = λ w. ground (arith, q.leads) })
          (r.0, r.1, bound) (λ w. inl (q.leads w))

    pub reply_step :
        (o : Option RequestVoteResult) (s' : Node M) (votes' : ℕ)
        → ((a : RequestVoteResult)
            → o ≡ some a
            → a.vote_granted ≡ true
            → c.granted p e.term i ≡ true)
        → on_vote o e.votes old ≡ done (s', votes')
        → IsSafe n (record c {
          nodes = at i s' c.nodes;
          elections =
              at i (some (record e { waiting = at p false e.waiting; votes = votes' })) c.elections;
          elected = add_leader i s' c.elected;
        })
    reply_step o s' votes' sent handled = elim (on_vote_cases o e.votes old s' votes' handled) [
      | inl (same, steady) ↦ Steady-return s' votes' steady (omega (arith, same, run, returned))
      | inr (a, from, yes_vote, more, outcome) ↦
          let g = sent a from yes_vote in
          let bound : votes' ≤ counted (at p false e.waiting) =
            omega (arith, more, run, gained g) in
          elim outcome [
            | inl steady ↦ Steady-return s' votes' steady bound
            | inr (stood, full, config, term, vote, leads) ↦
                let q = h.placed i l in
                let same : e.term ≡ s'.current_term = run.1 stood ∙ sym term in
                let size = majority_of n i old.config q.config in
                let all : n / 2 + 1 ≤ count_nodes n (λ v. c.granted v e.term i) =
                  omega (arith, bound, more, full, size, all_counted (at p false e.waiting)) in
                return_step s' votes'
                  (record {
                    config = config ∙ q.config;
                    held = λ t d f. ground (arith, q.held t d f);
                    leads = λ w. ground arith;
                  })
                  ((ground (arith, run), (λ w. ground (arith, leads)), bound))
                  (λ w.
                    inr (subst (λ u. n / 2 + 1 ≤ count_nodes n (λ v. c.granted v u i)) same all))
          ]
    ]
