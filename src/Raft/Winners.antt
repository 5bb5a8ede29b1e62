-- ===== src/Raft/Winners.antt =====
-- The return of a RequestVote RPC in a net of nodes of src/raft/node/node.cpp, whether or not it makes
-- the candidate a leader.
use metamorphosis.Raft.Traced.{IsTraced, Written, Same}
use metamorphosis.Raft.Keeping.{self_known, Steady-IsTimed}
use metamorphosis.Raft.Safety.{elected_once}
use metamorphosis.Raft.Steady.{Steady}
use metamorphosis.Raft.Voting.{on_vote}
use metamorphosis.Raft.Messages.{LogEntry, RequestVoteResult}
use metamorphosis.Raft.Recorded.{on_vote-IsIdle, IsIdle-IsRecorded, IsIdle}
use metamorphosis.Raft.Elected.{IsSafe}
use metamorphosis.Raft.Node.{candidate, Node}
use metamorphosis.Raft.Machine.{Externals}
use metamorphosis.Prelude.{
  inr, inl, length, ◌≤◌, done, subst, sym, Bool-cases, true, ◌≢◌, arith, List, false, Bool, Option,
  some, ◌≡◌, ◌<◌, ℕ, refl, ℕ_discrete,
}
use metamorphosis.Raft.Net.{Net, node_at, begun}
use metamorphosis.Raft.Matched.{
  Led, IsTimed, IsMatched, Shift, Shift-IsMatched, Shift-IsTraced, quiet,
}
use metamorphosis.Raft.Cluster.{Election, Cluster, at, add_leader}
use metamorphosis.Raft.Leadership.{elected}
use metamorphosis.Raft.Winning.{
  begun-same, begun-new, become_leader-elected, add_leader-same, become_leader-IsRecorded,
}
use metamorphosis.Raft.Turns.{at-same, at-other}

module _ {M : Type 0} (x : Externals M) (n : ℕ) (c : Net M) (h : IsMatched x n c) (i : ℕ)
    (l : i < n) (e : Election) (runs : c.cluster.elections i ≡ some e) (e' : Election) where
  abbrev old : Node M
  old = node_at c i

  time : IsTimed (c.main i) (some e) (c.cluster.elected i) old
  time = rw runs at (h.timed i l)

  -- The cluster after the reply, given who has led.
  abbrev after : Node M → (ℕ → ℕ → Bool) → Cluster M
  after s' leaders = record c.cluster {
    nodes = at i s' c.cluster.nodes;
    elections = at i (some e') c.cluster.elections;
    elected = leaders;
  }

  reply_idle :
      (s' : Node M)
      → IsSafe n (after s' (add_leader i s' c.cluster.elected))
      → IsIdle old s'
      → Steady old s'
      → IsMatched x n (record c {
        cluster = after s' (add_leader i s' c.cluster.elected);
        written = begun old s' c.written;
      })
  reply_idle s' safe idle p =
      let leaders = add_leader-same old s' i c.cluster.elected (λ k.
        let (was, term) = p.leader k in
        subst (λ t. c.cluster.elected i t ≡ true) term ((h.safe.placed i l).leads was)) in
      let logs = begun-same old s' c.written (ground (arith, p.leader)) in
      let own =
        IsIdle-IsRecorded x (Led c) c.written (c.main i) old (h.recorded i l) s' (c.main i) idle
          (λ m. m) in
      let timed = Steady-IsTimed (c.main i) (some e) (c.cluster.elected i) old time s' p in
      let place = at-same i (some e') c.cluster.elections in
      subst
        (λ (q : (ℕ → ℕ → Bool) × Written).
          IsMatched x n (record c { cluster = after s' q.0; written = q.1 }))
        (λ j. (sym leaders j, sym logs j))
        (quiet x n c h i s' c.main (at i (some e') c.cluster.elections) c.cluster.granted
          (λ j k. refl) (λ j. at-other i j (some e') c.cluster.elections)
          (subst (λ q. IsSafe n (after s' q)) leaders safe) own
          (record { waits = timed.waits; fresh = λ d q. timed.fresh e refl; past = timed.past }))

  module _ (safe : IsSafe n (after (elected old) (add_leader i (elected old) c.cluster.elected)))
      (stands : old.state ≡ candidate) where
    abbrev t : ℕ
    t = old.current_term

    abbrev xs : List LogEntry
    xs = (h.recorded i l).entries

    abbrev d : Net M
    d = record c {
      cluster = after (elected old) (add_leader i (elected old) c.cluster.elected);
      written = at t xs c.written;
    }

    still_led : (j u : ℕ) → c.cluster.elected j u ≡ true → d.cluster.elected j u ≡ true
    still_led j u q = ground arith

    now_led : d.cluster.elected i t ≡ true
    now_led = ground arith

    -- No node has led in the term before.
    unled : (u : ℕ) → Led c u → u ≢ t
    unled u (j, q) same =
        let q' : c.cluster.elected j t ≡ true = subst (λ v. c.cluster.elected j v ≡ true) same q in
        let own : j ≡ i = elected_once x n safe j i t (still_led j t q') now_led in
        let before : c.cluster.elected i t ≡ true =
          subst (λ k. c.cluster.elected k t ≡ true) own q' in
        let new = time.fresh e refl stands in absurd (ground arith)

    winner_change : Shift n i c d
    winner_change = record {
      nodes = λ j. at-other i j (elected old) c.cluster.nodes;
      main = λ j k. refl;
      elections = λ j. at-other i j (some e') c.cluster.elections;
      elected = λ j u k. ground arith;
      sent = refl;
      grow = λ u led.
          let (j, q) = led in
          let here = sym (at-other t u xs c.written (unled u led)) in
          (
            (j, still_led j u q),
            subst (λ ys. (k : ℕ) → k ≤ length (c.written u) → Same k (c.written u) ys) here
                (λ k b m a. refl),
            subst (λ ys. length (c.written u) ≤ length ys) here (omega arith),
          );
      others = λ j k other state.
          at-other t (node_at c j).current_term xs c.written
            (unled (node_at c j).current_term (j, (h.safe.placed j k).leads state));
    }

    winner_turn : IsMatched x n d
    winner_turn =
        let kept = Shift-IsTraced x n i c d h winner_change in
        let own = h.recorded i l in
        let here = at-same t xs c.written in
        let node = at-same i (elected old) c.cluster.nodes in
        let outside : c.main i ≡ false = elim (Bool-cases (c.main i)) [
          | inl inside ↦ absurd (time.waits inside stands)
          | inr outside ↦ outside
        ] in
        let traced = kept xs own.traced in
        Shift-IsMatched x n i c d h winner_change safe
          (rw node (
            become_leader-IsRecorded x (Led c) c.written (c.main i) old own (Led d) d.written
              (self_known x n c h i l) outside traced here))
          (rw node (record {
            waits = λ m s. cc;
            fresh = λ f q s. cc;
            past = λ u q. ground (arith, time.past u);
          }))
          (λ u. elim (ℕ_discrete u t) [
            | yes same ↦
                subst (λ v. IsTraced (Led d) d.written (d.written v)) (sym same)
                  (subst (IsTraced (Led d) d.written) (sym here) traced)
            | no other ↦
                subst (IsTraced (Led d) d.written) (sym (at-other t u xs c.written other))
                  (kept (c.written u) (h.writers u))
          ])

  pub reply_turn :
      (o : Option RequestVoteResult) (s' : Node M) (votes votes' : ℕ)
      → on_vote o votes old ≡ done (s', votes')
      → IsSafe n (after s' (add_leader i s' c.cluster.elected))
      → IsMatched x n (record c {
        cluster = after s' (add_leader i s' c.cluster.elected);
        written = begun old s' c.written;
      })
  reply_turn o s' votes votes' handled safe = elim (on_vote-IsIdle o votes old s' votes' handled) [
    | inl (idle, p) ↦ reply_idle s' safe idle p
    | inr (stands, won) ↦
        let made = become_leader-elected old s' stands won in
        let logs =
          begun-new old s' c.written (h.recorded i l).entries stands made
            (h.recorded i l).valid.log in
        let safe' = subst (λ s. IsSafe n (after s (add_leader i s c.cluster.elected))) made safe in
        subst
          (λ (q : Node M × Written).
            IsMatched x n (record c {
              cluster = after q.0 (add_leader i q.0 c.cluster.elected);
              written = q.1;
            }))
          (λ j. (sym made j, sym logs j)) (winner_turn safe' stands)
  ]
