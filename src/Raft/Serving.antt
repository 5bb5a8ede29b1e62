-- ===== src/Raft/Serving.antt =====
-- A new leader of src/raft/node/node.cpp takes requests: StartLeader, then Execute up to its await.
use metamorphosis.Prelude.{
  arith, ℕ, ◌<◌, ◌≡◌, refl, sym, ap, ◌∙◌, List, [], ◌∷◌, ◌++◌, map, append_assoc, append-nil, done,
}
use metamorphosis.Kv.Numbered.{numbered}
use metamorphosis.Raft.Messages.{Request, LogEntry}
use metamorphosis.Raft.Node.{Node, candidate, leader, become_leader}
use metamorphosis.Raft.Leading.{entry_of, execute, start_main_session}
use metamorphosis.Raft.Leadership.{Leads, execute-Leads, start-Leads}

-- Requests that are taken one after the other, each with the address of its frame.
abbrev pub execute_all : {M : Type 0} → List (ℕ × Request) → Node M → Node M
execute_all [] s = s
execute_all ((address, r) ∷ rs) s = execute_all rs (execute address r s).0

abbrev pub entries_of : ℕ → List (ℕ × Request) → List LogEntry
entries_of term rs = map (λ p. entry_of term p.1) rs

module _ {M : Type 0} where
  become_leader_lem :
      (s s' : Node M)
      → become_leader s ≡ done s'
      → (s'.pending_log ≡ []) × (s'.current_term ≡ s.current_term)
  unfolding become_leader
  become_leader_lem s s' e = ground arith

  session_lem :
      (s : Node M)
      → ((start_main_session s).pending_log ≡ s.pending_log)
        × ((start_main_session s).current_term ≡ s.current_term)
  unfolding start_main_session
  session_lem s = (refl, refl)

  execute_pending :
      (s : Node M) (address : ℕ) (r : Request)
      → s.state ≡ leader
      → ((execute address r s).0.pending_log ≡ s.pending_log ++ entry_of s.current_term r ∷ [])
        × ((execute address r s).0.current_term ≡ s.current_term)
  unfolding execute
  execute_pending s address r e = rw e (refl, refl)

  execute_all-Leads :
      (s : Node M) (xs : List LogEntry) (rs : List (ℕ × Request))
      → Leads s xs
      → Leads (execute_all rs s) xs
        × ((execute_all rs s).pending_log ≡ s.pending_log ++ entries_of s.current_term rs)
  execute_all-Leads s xs [] l = (l, sym (append-nil s.pending_log))
  execute_all-Leads s xs ((address, r) ∷ rs) l =
      let s' = (execute address r s).0 in
      let (p, t) = execute_pending s address r l.state in
      let (l', q) = execute_all-Leads s' xs rs (execute-Leads s xs l address r) in
      (
        l',
        q
            ∙ rw (p, t)
                (append_assoc s.pending_log (entry_of s.current_term r ∷ [])
                  (entries_of s.current_term rs)),
      )

  -- A candidate that becomes the leader, starts its main session and takes requests leads with its saved
  -- log; its pending log holds just the entries of the requests, in their order and in its term.
  pub serving-Leads :
      (s : Node M) (xs : List LogEntry) (rs : List (ℕ × Request))
      → s.state ≡ candidate
      → s.node_id < s.node_count
      → s.raft_log ≡ numbered 1 xs
      → (s' : Node M) × (become_leader s ≡ done s')
        × Leads (execute_all rs (start_main_session s')) xs
        × ((execute_all rs (start_main_session s')).pending_log ≡ entries_of s.current_term rs)
  serving-Leads s xs rs c n log =
      let (s', e, l) = start-Leads s xs c n log in
      let (empty, term) = become_leader_lem s s' e in
      let (kept, same) = session_lem s' in
      let (l', q) = execute_all-Leads (start_main_session s') xs rs l in
      (
        s',
        e,
        l',
        q
            ∙ ap (λ p. p ++ entries_of (start_main_session s').current_term rs) (kept ∙ empty)
            ∙ ap (λ t. entries_of t rs) (same ∙ term),
      )
