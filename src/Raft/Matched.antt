-- ===== src/Raft/Matched.antt =====
-- What a cluster of nodes of src/raft/node/node.cpp and its network keep of what the leaders have
-- written, and how a turn of one node keeps it.
use metamorphosis.Raft.Turns.{at-other, at-same}
use metamorphosis.Raft.Messages.{LogEntry, AppendEntriesRequest}
use metamorphosis.Raft.Traced.{IsPart-grow, IsPart, Same, IsTraced-grow, IsTraced}
use metamorphosis.Raft.Node.{leader, candidate, Node}
use metamorphosis.Raft.Machine.{Externals}
use metamorphosis.Prelude.{
  false, ap, arith, some, sym, subst, get_elem?, ◌∙◌, ℕ_discrete, length, ◌≤◌, true, ◌<◌, Option,
  List, ◌≢◌, ◌≡◌, Bool, ℕ, refl,
}
use metamorphosis.Raft.Cluster.{Election, Cluster, at}
use metamorphosis.Raft.Net.{Net, node_at}
use metamorphosis.Raft.Elected.{IsSafe}
use metamorphosis.Raft.Recorded.{IsRecorded}

-- There has been a leader of the term.
abbrev pub Led : {M : Type 0} → Net M → ℕ → Type 0
Led c t = (d : ℕ) × (c.cluster.elected d t ≡ true)

-- No candidate is in the loop of the main session, a candidate with an election has not led in its
-- term, and a node has led in no later term.
pub record IsTimed {M : Type 0} (main : Bool) (o : Option Election) (elected : ℕ → Bool)
    (s : Node M) : Type 0 where
  pub waits : main ≡ true → s.state ≢ candidate
  pub fresh : (e : Election) → o ≡ some e → s.state ≡ candidate → elected s.current_term ≡ false
  pub past : (t : ℕ) → elected t ≡ true → t ≤ s.current_term

pub record IsMatched {M : Type 0} (x : Externals M) (n : ℕ) (c : Net M) : Type 0 where
  pub safe : IsSafe n c.cluster
  pub recorded : (i : ℕ) → i < n → IsRecorded x (Led c) c.written (c.main i) (node_at c i)
  pub timed :
      (i : ℕ)
      → i < n
      → IsTimed (c.main i) (c.cluster.elections i) (c.cluster.elected i) (node_at c i)
  pub writers : (t : ℕ) → IsTraced (Led c) c.written (c.written t)
  pub sent :
      (k : ℕ) (r : AppendEntriesRequest)
      → get_elem? c.sent k ≡ some r
      → Led c r.term × IsPart (c.written r.term) r

-- A change at node i: other nodes stay, and what was written stays, and may grow.
pub record Shift {M : Type 0} (n i : ℕ) (c d : Net M) : Type 0 where
  pub nodes : (j : ℕ) → j ≢ i → node_at d j ≡ node_at c j
  pub main : (j : ℕ) → j ≢ i → d.main j ≡ c.main j
  pub elections : (j : ℕ) → j ≢ i → d.cluster.elections j ≡ c.cluster.elections j
  pub elected : (j t : ℕ) → j ≢ i → d.cluster.elected j t ≡ c.cluster.elected j t
  pub sent : d.sent ≡ c.sent
  pub grow :
      (t : ℕ)
      → Led c t
      → Led d t
        × ((k : ℕ) → k ≤ length (c.written t) → Same k (c.written t) (d.written t))
        × (length (c.written t) ≤ length (d.written t))
  pub others :
      (j : ℕ)
      → j < n
      → j ≢ i
      → (node_at c j).state ≡ leader
      → d.written (node_at c j).current_term ≡ c.written (node_at c j).current_term

module _ {M : Type 0} (x : Externals M) (n i : ℕ) (c d : Net M) (h : IsMatched x n c)
    (g : Shift n i c d) where
  pub Shift-IsTraced :
      (xs : List LogEntry) → IsTraced (Led c) c.written xs → IsTraced (Led d) d.written xs
  Shift-IsTraced xs =
      IsTraced-grow (Led c) (Led d) c.written d.written xs
        (λ t l. let (l', same, more) = g.grow t l in (l', same))

  other-IsRecorded :
      (j : ℕ) → j < n → j ≢ i → IsRecorded x (Led d) d.written (c.main j) (node_at c j)
  other-IsRecorded j l k =
      let p = h.recorded j l in
      record {
        start = p.start;
        entries = p.entries;
        valid = p.valid;
        traced = Shift-IsTraced p.entries p.traced;
        leading = λ leads.
            let q = p.leading leads in
            record {
              wrote = g.others j l k leads ∙ q.wrote;
              nexts = q.nexts;
              matches = q.matches;
              next_self = q.next_self;
              saved = q.saved;
            };
      }

  other-IsTimed :
      (j : ℕ)
      → j < n
      → j ≢ i
      → IsTimed (c.main j) (c.cluster.elections j) (d.cluster.elected j) (node_at c j)
  other-IsTimed j l k =
      let p = h.timed j l in
      record {
        waits = p.waits;
        fresh = λ e o s. g.elected j (node_at c j).current_term k ∙ p.fresh e o s;
        past = λ t e. p.past t (sym (g.elected j t k) ∙ e);
      }

  pub Shift-IsMatched :
      IsSafe n d.cluster
      → IsRecorded x (Led d) d.written (d.main i) (node_at d i)
      → IsTimed (d.main i) (d.cluster.elections i) (d.cluster.elected i) (node_at d i)
      → ((t : ℕ) → IsTraced (Led d) d.written (d.written t))
      → IsMatched x n d
  Shift-IsMatched safe own time writers = record {
    safe = safe;
    recorded = λ j l. elim (ℕ_discrete j i) [
      | yes e ↦ subst (λ k. IsRecorded x (Led d) d.written (d.main k) (node_at d k)) (sym e) own
      | no k ↦ rw (g.nodes j k, g.main j k) (other-IsRecorded j l k)
    ];
    timed = λ j l. elim (ℕ_discrete j i) [
      | yes e ↦
          subst
            (λ k. IsTimed (d.main k) (d.cluster.elections k) (d.cluster.elected k) (node_at d k))
            (sym e) time
      | no k ↦ rw (g.nodes j k, g.main j k, g.elections j k) (other-IsTimed j l k)
    ];
    writers = writers;
    sent = λ k r e.
        let (l, part) = h.sent k r (ap (λ q. get_elem? q k) (sym g.sent) ∙ e) in
        let (l', same, more) = g.grow r.term l in
        (l', IsPart-grow (c.written r.term) (d.written r.term) r same more part);
  }

module _ {M : Type 0} (x : Externals M) (n : ℕ) (c : Net M) (h : IsMatched x n c) (i : ℕ) where
  -- A turn in which no leader writes and none is elected.
  pub quiet :
      (s' : Node M) (main : ℕ → Bool) (elections : ℕ → Option Election) (granted : ℕ → ℕ → ℕ → Bool)
      → ((j : ℕ) → j ≢ i → main j ≡ c.main j)
      → ((j : ℕ) → j ≢ i → elections j ≡ c.cluster.elections j)
      → let cluster : Cluster M = record c.cluster {
        nodes = at i s' c.cluster.nodes;
        elections = elections;
        granted = granted;
      } in
        IsSafe n cluster
        → IsRecorded x (Led c) c.written (main i) s'
        → IsTimed (main i) (elections i) (c.cluster.elected i) s'
        → IsMatched x n (record c { cluster = cluster; main = main })
  quiet s' main elections granted role same safe own time =
      let cluster : Cluster M = record c.cluster {
        nodes = at i s' c.cluster.nodes;
        elections = elections;
        granted = granted;
      } in
      let d : Net M = record c { cluster = cluster; main = main } in
      let node = at-same i s' c.cluster.nodes in
      Shift-IsMatched x n i c d h
        (record {
          nodes = λ j. at-other i j s' c.cluster.nodes;
          main = role;
          elections = same;
          elected = λ j t k. refl;
          sent = refl;
          grow = λ t l. (l, (λ k b m q. refl), omega arith);
          others = λ j l k s. refl;
        })
        safe (rw node own) (rw node time) h.writers
