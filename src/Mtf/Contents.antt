-- ===== src/Mtf/Contents.antt =====
-- What the requests of StartLeaderNodeSession of src/metamorphosis/node/node.cpp hold, entry by entry.
use metamorphosis.Kv.Numbered.{numbered}
use mathlib.Core.Option
use metamorphosis.Prelude.{
  gt→leb, le→leb, get_elem?-take, ◌∙◌, length-drop, ℕ_discrete, length-take, drop, Bool-cases, take,
  done, ◌≤◌, get_elem?-drop, inr, inl, ◌-◌, get_or, ap, arith, ◌+◌, some, ◌↔◌, ◌≢◌, length,
  get_elem?, ◌/◌, ◌<◌, List, ◌≡◌, ◌⊎◌, ℕ, refl, zero, suc, [], ◌∷◌, true,
}
use metamorphosis.Mtf.Node.{Node, Config, is_main_node, majority_count}
use metamorphosis.Mtf.Messages.{LogEntry, AppendEntriesReq}
use metamorphosis.Mtf.Leading.{strip, last_log_entry_index, build_request}
use metamorphosis.Mtf.Log.{term_of}
use metamorphosis.Mtf.Requests.{stripped, stripped_request, build_request-stripped}

-- The main nodes are the first node_count / 2 + 1 nodes if the own one is among them, and else the own
-- one and the first node_count / 2.
abbrev pub IsMain : Config → ℕ → Type 0
IsMain c node =
    ((c.node_id < c.node_count / 2 + 1) × (node < c.node_count / 2 + 1))
    ⊎ ((c.node_count / 2 < c.node_id) × (node < c.node_count / 2))

is_main_node-IsMain : (c : Config) (node : ℕ) → (is_main_node c node ≡ true) ↔ IsMain c node
unfolding is_main_node majority_count
is_main_node-IsMain c node = (λ e. ground arith, λ e. ground arith)

length-stripped : (c i : ℕ) (es : List LogEntry) → length (stripped c i es) ≡ length es
length-stripped c i [] = refl
length-stripped c i (e ∷ es) = omega (arith, length-stripped c (suc i) es)

get_elem?-stripped :
    (c i m : ℕ) (es : List LogEntry) (e : LogEntry)
    → get_elem? es m ≡ some e
    → get_elem? (stripped c i es) m ≡ some (strip c (suc (i + m)) e)
get_elem?-stripped c i m [] e g = cc
get_elem?-stripped c i zero (d ∷ es) e g =
    let z : i + 0 ≡ i = omega arith in rw z (ap (λ o. Option.map (strip c (suc i)) o) g)
get_elem?-stripped c i (suc m) (d ∷ es) e g =
    let z : i + suc m ≡ suc i + m = omega arith in rw z (get_elem?-stripped c (suc i) m es e g)

module _ (s : Node) where
  ends_at_commit :
      (node : ℕ)
      → ¬ IsMain s.config node
      → s.alive_main_nodes_count ≡ s.node_count / 2 + 1
      → last_log_entry_index node s ≡ s.commit_index
  unfolding last_log_entry_index majority_count
  ends_at_commit node other alive = ground (arith, (is_main_node-IsMain s.config node).0)

  ends_at_last :
      (node : ℕ)
      → IsMain s.config node ⊎ (s.alive_main_nodes_count ≢ s.node_count / 2 + 1)
      → last_log_entry_index node s ≡ get_or s.next_index s.node_id 0 - 1
  unfolding last_log_entry_index majority_count
  ends_at_last node (inl main) = let e = (is_main_node-IsMain s.config node).1 main in ground arith
  ends_at_last node (inr missing) = ground arith

module _ (s : Node) (ls : List LogEntry) (log : s.raft_log ≡ numbered 1 ls) (node i : ℕ) where
  -- The entries of a request that has those of the log from index i + 1 up to `end`.
  abbrev pub HasEntries : ℕ → AppendEntriesReq → Type 0
  HasEntries end r =
      (length r.entries ≡ end - i)
      × ((m : ℕ) (e : LogEntry)
          → i + m < end
          → get_elem? ls (i + m) ≡ some e
          → (i + m < s.commit_index → get_elem? r.entries m ≡ some (record e { content = [] }))
            × (s.commit_index ≤ i + m → get_elem? r.entries m ≡ some e))

  HasEntries-stripped :
      (end : ℕ)
      → end ≤ length ls
      → last_log_entry_index node s ≡ end
      → HasEntries end (stripped_request s ls log node i)
  HasEntries-stripped end h last =
      let part = take (end - i) (drop i ls) in
      let c = s.commit_index in
      let entries : (stripped_request s ls log node i).entries ≡ stripped c i part =
        ap (λ n. stripped c i (take (n - i) (drop i ls))) last in
      let size : length part ≡ end - i =
        omega (arith, length-take (end - i) (drop i ls), length-drop i ls) in
      (
        ap length entries ∙ length-stripped c i part ∙ size,
        λ m e l g.
            let held : get_elem? part m ≡ some e =
              get_elem?-take (end - i) m (drop i ls) (omega arith) ∙ get_elem?-drop i m ls ∙ g in
            let sent = ap (λ es. get_elem? es m) entries ∙ get_elem?-stripped c i m part e held in
            (
              λ old.
                  let bare : strip c (suc (i + m)) e ≡ record e { content = [] } =
                    rw (le→leb (suc (i + m)) c old) refl in
                  sent ∙ ap some bare,
              λ new.
                  let whole : strip c (suc (i + m)) e ≡ e =
                    rw (gt→leb (suc (i + m)) c (omega arith)) refl in
                  sent ∙ ap some whole,
            ),
      )

  -- A leader whose commit index lies in its saved log, whose index for a node lies in it or just behind
  -- it, and that has no pending entry, builds its request without an abort: with the entry before the
  -- index, and the entries from it on, a committed one without its data, the others in full. These go up
  -- to the commit index if the node is no main one and all main nodes are alive, and else up to the end
  -- of the log.
  pub build_request_contents :
      get_or s.next_index node 0 ≡ suc i
      → i ≤ length ls
      → s.commit_index ≤ length ls
      → get_or s.next_index s.node_id 0 ≡ suc (length ls)
      → (r : AppendEntriesReq) × (build_request node s ≡ done r)
        × (r.term ≡ s.current_term)
        × (r.leader_id ≡ s.node_id)
        × (r.prev_log_index ≡ i)
        × (r.prev_log_term ≡ term_of ls i)
        × (r.leader_commit ≡ s.commit_index)
        × (¬ IsMain s.config node
            → s.alive_main_nodes_count ≡ s.node_count / 2 + 1
            → HasEntries s.commit_index r)
        × (IsMain s.config node ⊎ (s.alive_main_nodes_count ≢ s.node_count / 2 + 1)
            → HasEntries (length ls) r)
  build_request_contents next h committed own =
      let r = stripped_request s ls log node i in
      let commit = ends_at_commit s node in
      let whole : IsMain s.config node ⊎ (s.alive_main_nodes_count ≢ s.node_count / 2 + 1)
          → last_log_entry_index node s ≡ length ls =
        λ q. omega (arith, ends_at_last s node q, own) in
      let within : last_log_entry_index node s ≤ length ls =
        elim (Bool-cases (is_main_node s.config node)) [
          | inl main ↦ omega (arith, whole (inl ((is_main_node-IsMain s.config node).0 main)))
          | inr other ↦
              let no_main : ¬ IsMain s.config node =
                λ q. let e = (is_main_node-IsMain s.config node).1 q in cc in
              elim (ℕ_discrete s.alive_main_nodes_count (s.node_count / 2 + 1)) [
                | yes alive ↦ omega (arith, commit no_main alive)
                | no missing ↦ omega (arith, whole (inr missing))
              ]
        ] in
      (
        r,
        build_request-stripped s ls log node i next h within,
        refl,
        refl,
        refl,
        refl,
        refl,
        λ other alive. HasEntries-stripped s.commit_index committed (commit other alive),
        λ q. HasEntries-stripped (length ls) (omega arith) (whole q),
      )
