-- ===== src/Raft/Executing.antt =====
-- Execute in a net of nodes of src/raft/node/node.cpp: a leader adds to what it has written.
use metamorphosis.Raft.Keeping.{handler_turn, Steady-IsTimed, self_known}
use metamorphosis.Raft.Recording.{execute-IsRecorded}
use metamorphosis.Raft.Preserving.{Steady-step}
use metamorphosis.Raft.Steady.{Steady-refl, execute-Steady}
use metamorphosis.Raft.Safety.{elected_once}
use metamorphosis.Raft.Turns.{at-same, at-other}
use metamorphosis.Raft.Traced.{Same, IsTraced, Written}
use metamorphosis.Raft.Messages.{Request}
use metamorphosis.Raft.Machine.{Externals}
use metamorphosis.Raft.Node.{leader, is_leader, Node}
use metamorphosis.Raft.Leading.{entry_of, execute}
use metamorphosis.Prelude.{
  length, ◌≤◌, sym, inr, arith, subst, inl, ◌∙◌, ◌≢◌, [], ◌∷◌, ap, ◌++◌, true, false, Bool-cases,
  ◌≡◌, ◌<◌, ℕ, refl,
}
use metamorphosis.Raft.Net.{Net, node_at, move, wrote}
use metamorphosis.Raft.Matched.{Led, IsMatched, Shift, Shift-IsMatched, Shift-IsTraced}
use metamorphosis.Raft.Writing.{longer_grows, longer-IsTraced}
use metamorphosis.Raft.Cluster.{at}

wrote-longer :
    {M : Type 0} (s : Node M) (r : Request) (w : Written)
    → is_leader s.state ≡ true
    → wrote s r w ≡ at s.current_term (w s.current_term ++ entry_of s.current_term r ∷ []) w
wrote-longer s r w l =
    let e : (t : ℕ)
        → wrote s r w t
          ≡ at s.current_term (w s.current_term ++ entry_of s.current_term r ∷ []) w t =
      λ t. rw l refl in
    λ j t. e t j

wrote-same :
    {M : Type 0} (s : Node M) (r : Request) (w : Written)
    → is_leader s.state ≡ false
    → wrote s r w ≡ w
wrote-same s r w l = let e : (t : ℕ) → wrote s r w t ≡ w t = λ t. rw l refl in λ j t. e t j

execute-same :
    {M : Type 0} (address : ℕ) (r : Request) (s : Node M)
    → is_leader s.state ≡ false
    → (execute address r s).0 ≡ s
unfolding execute
execute-same address r s l = rw l refl

module _ {M : Type 0} (x : Externals M) (n : ℕ) (c : Net M) (h : IsMatched x n c) (i : ℕ)
    (l : i < n) where
  abbrev old : Node M
  old = node_at c i

  execute_leads :
      (address : ℕ) (r : Request)
      → old.state ≡ leader
      → IsMatched x n
          (record (move i (execute address r old).0 c) { written = wrote old r c.written })
  execute_leads address r leads =
      let s' = (execute address r old).0 in
      let t = old.current_term in
      let e = entry_of t r in
      let lead : is_leader old.state ≡ true = ap is_leader leads in
      let made = wrote-longer old r c.written lead in
      let d : Net M = record (move i s' c) { written = wrote old r c.written } in
      let won : c.cluster.elected i t ≡ true = (h.safe.placed i l).leads leads in
      let grow : Shift n i c d = record {
        nodes = λ j. at-other i j s' c.cluster.nodes;
        main = λ j k. refl;
        elections = λ j k. refl;
        elected = λ j u k. refl;
        sent = refl;
        grow = λ u led.
            let (same, more) = longer_grows (Led c) c.written t e u in
            let here = ap (λ w. w u) (sym made) in
            (
              led,
              subst (λ ys. (k : ℕ) → k ≤ length (c.written u) → Same k (c.written u) ys) here same,
              subst (λ ys. length (c.written u) ≤ length ys) here more,
            );
        others = λ j k other state.
            let differs : (node_at c j).current_term ≢ t = λ same.
              other (
                elected_once x n h.safe j i t (rw same at ((h.safe.placed j k).leads state)) won) in
            ap (λ w. w (node_at c j).current_term) made
            ∙ at-other t (node_at c j).current_term (c.written t ++ e ∷ []) c.written differs;
      } in
      let kept = Shift-IsTraced x n i c d h grow in
      let node = at-same i s' c.cluster.nodes in
      let own = h.recorded i l in
      let p = execute-Steady address r old in
      Shift-IsMatched x n i c d h grow (Steady-step n c.cluster h.safe i l s' p)
        (rw node (
          execute-IsRecorded x (Led c) c.written (c.main i) old (self_known x n c h i l) own address
            r leads (kept own.entries own.traced)))
        (rw node (Steady-IsTimed _ _ _ old (h.timed i l) s' p))
        (λ u.
          subst (λ w. IsTraced (Led c) w (w u)) (sym made)
            (longer-IsTraced (Led c) c.written t e refl (i, won)
              (λ xs q. subst (λ w. IsTraced (Led c) w xs) made (kept xs q)) h.writers u))

  pub execute_turn :
      (address : ℕ) (r : Request)
      → IsMatched x n
          (record (move i (execute address r old).0 c) { written = wrote old r c.written })
  execute_turn address r = elim (Bool-cases (is_leader old.state)) [
    | inl lead ↦ execute_leads address r (ground arith)
    | inr other ↦
        subst (λ (p : Node M × Written). IsMatched x n (record (move i p.0 c) { written = p.1 }))
          (λ j.
            (sym (execute-same address r old other) j, sym (wrote-same old r c.written other) j))
          (handler_turn x n c h i l old (Steady-refl old) (h.recorded i l))
  ]
