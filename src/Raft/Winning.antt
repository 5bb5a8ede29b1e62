-- ===== src/Raft/Winning.antt =====
-- The end of an election in a net of nodes of src/raft/node/node.cpp: a new leader begins with its
-- saved log, in a term that had no leader.
use metamorphosis.Raft.Log.{saved_log_size-length}
use metamorphosis.Kv.Numbered.{numbered}
use metamorphosis.Raft.Recorded.{IsRecorded}
use metamorphosis.Raft.Messages.{LogEntry}
use metamorphosis.Raft.Traced.{IsTraced, Written}
use metamorphosis.Raft.Node.{saved_log_size, leader, candidate, is_leader, become_leader, Node}
use metamorphosis.Raft.Machine.{Externals}
use metamorphosis.Prelude.{
  [], ◌∷◌, inl, inr, get_or-replicate, arith, length-replicate, append-nil, ◌+◌, ◌==◌, ◌∙◌, suc,
  sym, Bool-cases, done, not, true, false, ap, ◌<◌, ◌&&◌, ◌≡◌, Bool, List, ℕ, refl,
}
use metamorphosis.Raft.Net.{begun, entries_in}
use metamorphosis.Raft.Cluster.{at, add_leader}
use metamorphosis.Raft.Leadership.{elected}
use metamorphosis.Raft.Recording.{done_same}

entries_in-numbered : (i : ℕ) (xs : List LogEntry) → entries_in (numbered i xs) ≡ xs
entries_in-numbered i [] = refl
entries_in-numbered i (a ∷ xs) = ap (λ ys. a ∷ ys) (entries_in-numbered (suc i) xs)

module _ {M : Type 0} (s s' : Node M) where
  pub begun-same :
      (w : Written) → (is_leader s'.state && not (is_leader s.state)) ≡ false → begun s s' w ≡ w
  begun-same w e = let p : (t : ℕ) → begun s s' w t ≡ w t = λ t. rw e refl in λ j t. p t j

  pub begun-new :
      (w : Written) (xs : List LogEntry)
      → s.state ≡ candidate
      → s' ≡ elected s
      → s.raft_log ≡ numbered 1 xs
      → begun s s' w ≡ at s.current_term xs w
  begun-new w xs stands made log =
      let e : entries_in s.raft_log ≡ xs = rw log (entries_in-numbered 1 xs) in
      let p : (t : ℕ) → begun s s' w t ≡ at s.current_term xs w t =
        λ t. rw (made, stands, e) refl in
      λ j t. p t j

  pub become_leader-elected : s.state ≡ candidate → become_leader s ≡ done s' → s' ≡ elected s
  unfolding become_leader
  become_leader-elected stands e = done_same (sym e ∙ rw stands refl)

  pub add_leader-same :
      (i : ℕ) (f : ℕ → ℕ → Bool)
      → (s'.state ≡ leader → f i s'.current_term ≡ true)
      → add_leader i s' f ≡ f
  add_leader-same i f known =
      let p : (j t : ℕ) → add_leader i s' f j t ≡ f j t = λ j t.
        elim (Bool-cases (is_leader s'.state && j == i && t == s'.current_term)) [
          | inr other ↦ rw other refl
          | inl here ↦ let q : f j t ≡ true = ground (arith, known) in rw (here, q) refl
        ] in
      λ a j t. p j t a

module _ {M : Type 0} (x : Externals M) (led : ℕ → Type 0) (w : Written) (main : Bool) (s : Node M)
    (h : IsRecorded x led w main s) where
  pub become_leader-IsRecorded :
      (led' : ℕ → Type 0) (w' : Written)
      → s.node_id < s.node_count
      → main ≡ false
      → IsTraced led' w' h.entries
      → w' s.current_term ≡ h.entries
      → IsRecorded x led' w' main (elected s)
  become_leader-IsRecorded led' w' self outside traced own =
      let size = saved_log_size-length s h.entries h.valid.log in
      let k = saved_log_size s + 1 in
      record {
        start = h.start;
        entries = h.entries;
        valid = record {
          log = h.valid.log;
          fits = h.valid.fits;
          committed = h.valid.committed;
          applied = h.valid.applied;
        };
        traced = traced;
        leading = λ _. record {
          wrote = own ∙ sym (append-nil h.entries);
          nexts = length-replicate s.node_count k;
          matches = length-replicate s.node_count 0;
          next_self = omega (arith, get_or-replicate s.node_count s.node_id k 0 self, size);
          saved = λ m. absurd (ground arith);
        };
      }
