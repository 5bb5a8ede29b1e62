-- ===== src/Raft/Safety.antt =====
-- Election safety of a cluster of nodes of src/raft/node/node.cpp: no two leaders in one term, in any
-- run of any length, with restarts and a network that loses, delays and repeats messages.
use metamorphosis.Prelude.{inr, ◌⊎◌, inl, ℕ, ◌<◌, ◌≡◌, true, arith}
use metamorphosis.Raft.Machine.{Externals}
use metamorphosis.Raft.Node.{State, leader, candidate, next_session, candidate_session}
use metamorphosis.Raft.Quorum.{majorities_meet}
use metamorphosis.Raft.Turns.{Local-Steady, start_node-Steady}
use metamorphosis.Raft.Cluster.{
  Cluster, Step, on_local, on_request_vote, on_timeout, on_candidate, on_reply, on_join, on_restart,
  Reach, here, next, IsInitial,
}
use metamorphosis.Raft.Elected.{IsSafe}
use metamorphosis.Raft.Preserving.{Steady-step, timeout_step, join_step, restart_step, vote_step}
use metamorphosis.Raft.Campaigns.{candidate_step, reply_step}

pub candidate-next_session : (s : State) → next_session s ≡ candidate_session → s ≡ candidate
candidate-next_session s e = ground arith

module _ {M : Type 0} (x : Externals M) (n : ℕ) where
  pub Step-IsSafe : {c d : Cluster M} → IsSafe n c → Step x n c d → IsSafe n d
  Step-IsSafe h (on_local i l step) = Steady-step n _ h i l _ (Local-Steady step)
  Step-IsSafe h (on_request_vote i r a l e) = vote_step n _ h i l r a _ e
  Step-IsSafe h (on_timeout i l idle e) = timeout_step n _ h i l _ idle e
  Step-IsSafe h (on_candidate i votes r l idle state e) =
      candidate_step n _ h i l votes r _ (candidate-next_session _ state) e
  Step-IsSafe h (on_reply i p votes e o l m runs waits sent handled) =
      reply_step n _ h i l p m e runs waits o _ votes sent handled
  Step-IsSafe h (on_join i e l runs) = join_step n _ h i l
  Step-IsSafe h (on_restart i machine l) = restart_step n _ h i l _ (start_node-Steady _ machine)

  pub initial-IsSafe : (c : Cluster M) → IsInitial n c → IsSafe n c
  initial-IsSafe c h = record {
    placed = λ i l. record {
      config = h.config i l;
      held = λ t d g. ground (arith, h.granted i t d);
      leads = λ g. ground (arith, h.state i l);
    };
    running = λ i l. rw (h.elections i l) tt;
    once = λ v t d e l g k. ground (arith, h.granted v t d);
    backed = λ d t g. ground (arith, h.elected d t);
  }

  Reach-IsSafe : {c d : Cluster M} → IsSafe n c → Reach x n c d → IsSafe n d
  Reach-IsSafe h here = h
  Reach-IsSafe h (next r s) = Step-IsSafe (Reach-IsSafe h r) s

  -- Node i leads in term t now, or became the leader of term t at some time.
  abbrev pub HasLed : Cluster M → ℕ → ℕ → Type 0
  HasLed d i t =
      (d.elected i t ≡ true)
      ⊎ ((i < n) × ((d.nodes i).state ≡ leader) × ((d.nodes i).current_term ≡ t))

  pub HasLed-elected :
      {d : Cluster M} → IsSafe n d → (i t : ℕ) → HasLed d i t → d.elected i t ≡ true
  HasLed-elected s i t (inl e) = e
  HasLed-elected s i t (inr (l, state, term)) = rw term at ((s.placed i l).leads state)

  -- Two majorities have a node in common, and it has one vote.
  pub elected_once :
      {d : Cluster M}
      → IsSafe n d
      → (i j t : ℕ) → d.elected i t ≡ true
      → d.elected j t ≡ true
      → i ≡ j
  elected_once {d} s i j t a b =
      let (v, l, f, g) =
        majorities_meet n (λ v. d.granted v t i) (λ v. d.granted v t j) (s.backed i t a)
          (s.backed j t b) in
      s.once v t i j l f g

  -- However a cluster of n nodes runs, a node that leads in a term, or became its leader at some time
  -- before, is the only one that leads or has ever been elected in that term.
  pub one_leader :
      (c d : Cluster M)
      → IsInitial n c
      → Reach x n c d
      → (i j t : ℕ) → HasLed d i t
      → HasLed d j t
      → i ≡ j
  one_leader c d h r i j t p q =
      let s = Reach-IsSafe (initial-IsSafe c h) r in
      elected_once s i j t (HasLed-elected s i t p) (HasLed-elected s j t q)
