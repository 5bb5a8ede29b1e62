-- ===== src/Mtf/Tests.antt =====
-- Instances of the theorems about src/metamorphosis/node on small inputs.
use metamorphosis.Mtf.Contents.{build_request_contents, HasEntries, IsMain}
use metamorphosis.Mtf.Pending.{append_all}
use metamorphosis.Prelude.{
  ◌≢◌, get_elem?, suc, ◌⊎◌, ◌<◌, ◌/◌, Option, ◌+◌, ◌-◌, ◌%◌, ◌^◌, inl, aborted, ℕ, List, [], ◌∷◌,
  refl, arith, true, false, Bool, none, some, ℕ_discrete, ◌↔◌, ◌≡◌, done,
}
use metamorphosis.Mtf.Elections.{on_votes, queue_election_won}
use metamorphosis.Mtf.Voting.{end_follower, start_candidate}
use metamorphosis.Mtf.Messages.{
  hash_only, not_found, ReadReq, RequestVoteRsp, RequestVoteReq, parallel_request,
  invalid_sequence_id, LogEntry, AppendEntriesReq, AppendReq, AppendRsp, full_message, Bytes,
}
use metamorphosis.Mtf.Node.{
  next_session, candidate_session, leader_session, saved_log_size, last_saved_log_term, Node,
  leader, follower, counter, is_main_node, majority_count,
}
use metamorphosis.Kv.{get}
use metamorphosis.Kv.Numbered.{numbered}
use metamorphosis.Mtf.Replication.{reply, append_entries}
use metamorphosis.Mtf.Appends.{Waiting, append, end_append, read, contains}
use metamorphosis.Mtf.Leading.{flush, build_request, last_log_entry_index}
use metamorphosis.Mtf.Counting.{count}
use metamorphosis.Mtf.Log.{IsLawful}
use metamorphosis.Mtf.Accepting.{IsValid}
use metamorphosis.Mtf.Appending.{append_entries-overlap, append_entries-IsValid}
use metamorphosis.Mtf.Requests.{stripped_retry_aborts}
use metamorphosis.Mtf.Producers.{append_once, duplicate_accepted}
use metamorphosis.Mtf.MainNodes.{count_main, count_main-majority_count}
use metamorphosis.Mtf.Reads.{read-seen}

Bytes-discrete : Discrete Bytes
Bytes-discrete = hlevel ℕ_discrete

LogEntry-discrete : Discrete LogEntry
LogEntry-discrete = hlevel (ℕ_discrete, Bytes-discrete)

abbrev decided : {A : Type 0} → Dec A → Bool
decided (yes a) = true
decided (no f) = false

decided_iff : {A : Type 0} (d : Dec A) → (decided d ≡ true) ↔ A
decided_iff (yes a) = ((λ _. a), (λ _. refl))
decided_iff (no f) = ((λ e. cc), (λ a. absurd (f a)))

abbrev equals : LogEntry → LogEntry → Bool
equals a b = decided (LogEntry-discrete a b)

equals-IsLawful : IsLawful equals
equals-IsLawful a b = decided_iff (LogEntry-discrete a b)

abbrev md5 : Bytes → Bytes
md5 bytes = 1 ∷ []

-- An entry of producer 4 in term 1.
abbrev entry : ℕ → LogEntry
entry byte = record { term = 1; producer_id = 4; content = byte ∷ []; md5hash = 1 ∷ [] }

abbrev two : List LogEntry
two = entry 10 ∷ entry 11 ∷ []

-- Node 0 of three, a follower in term 1 that has committed two entries.
abbrev node : Node
node = record {
  state = follower;
  config = record { node_id = 0; node_count = 3 };
  current_term = 1;
  voted_for = none;
  raft_log = numbered 1 two;
  commit_index = 2;
  match_index = [];
  next_index = [];
  current_term_start_index = 0;
  pending_requests = [];
  frames = [];
  pending_log = [];
  stop_election = false;
  stop_leader = false;
  reset_election_timeout = false;
  reset_heartbeat_timeout = false;
  wake_up = false;
  producer_next_sequence_id = (4, 2) ∷ [];
  pending_producers = [];
  alive_main_nodes_count = 0;
}

node-IsValid : IsValid node two
unfolding count get
node-IsValid = record {
  log = refl;
  fits = omega arith;
  committed = omega arith;
  counted = λ p. ground arith;
}

-- The same as a leader in term 1, that has committed one entry; an earlier Append of producer 4 at
-- address 8 is finished.
abbrev leading : Node
leading = record node {
  state = leader;
  commit_index = 1;
  match_index = 2 ∷ 0 ∷ 0 ∷ [];
  next_index = 3 ∷ 1 ∷ 1 ∷ [];
  current_term_start_index = 1;
  frames = (8, record { replication_finished = true; offset = 2 }) ∷ [];
  alive_main_nodes_count = 2;
}

abbrev again : AppendEntriesReq
again = record {
  term = 1;
  leader_id = 1;
  prev_log_index = 1;
  prev_log_term = 1;
  entries = entry 11 ∷ entry 12 ∷ [];
  leader_commit = 2;
}

append_entries-overlap_example :
    (s' : Node) × (append_entries equals again node ≡ done (s', reply 1 true))
    × (s'.raft_log ≡ numbered 1 (entry 10 ∷ entry 11 ∷ entry 12 ∷ []))
    × (s'.commit_index ≡ 2)
    × ((p : ℕ)
        → counter p s'.producer_next_sequence_id
          ≡ (count p (entry 10 ∷ entry 11 ∷ entry 12 ∷ []) - count p (entry 11 ∷ [])) % 2 ^ 64)
append_entries-overlap_example =
    append_entries-overlap equals equals-IsLawful again node two node-IsValid (omega arith)
      (omega arith) (omega arith) refl ((λ _. refl), ((λ h. absurd (omega arith)), tt))

append_entries-IsValid_example :
    let r = record again { prev_log_index = 2; entries = entry 12 ∷ [] } in
    (s' : Node) × (append_entries equals r node ≡ done (s', reply 1 true))
    × IsValid s' (entry 10 ∷ entry 11 ∷ entry 12 ∷ [])
append_entries-IsValid_example =
    append_entries-IsValid equals equals-IsLawful
      (record again { prev_log_index = 2; entries = entry 12 ∷ [] }) node two node-IsValid
      (omega arith) (omega arith) (omega arith) (omega arith) refl

build_request_contents_example :
    (r : AppendEntriesReq) × (build_request 1 leading ≡ done r)
    × (r.term ≡ 1)
    × (r.leader_id ≡ 0)
    × (r.prev_log_index ≡ 0)
    × (r.prev_log_term ≡ 0)
    × (r.leader_commit ≡ 1)
    × (¬ IsMain leading.config 1
        → leading.alive_main_nodes_count ≡ leading.node_count / 2 + 1
        → HasEntries leading two refl 1 0 1 r)
    × (IsMain leading.config 1 ⊎ (leading.alive_main_nodes_count ≢ leading.node_count / 2 + 1)
        → HasEntries leading two refl 1 0 2 r)
build_request_contents_example =
    build_request_contents leading two refl 1 0 refl (omega arith) (omega arith) refl

stripped_retry_aborts_example :
    (r : AppendEntriesReq) × (build_request 1 leading ≡ done r)
    × (append_entries equals r node ≡ aborted)
unfolding last_log_entry_index is_main_node majority_count
stripped_retry_aborts_example =
    stripped_retry_aborts equals equals-IsLawful leading node two two refl node-IsValid 1 0
      (entry 10) refl (omega arith) (omega arith) (omega arith) (omega arith) (omega arith) refl
      refl refl (λ e. cc)

abbrev message : AppendReq
message = record { content = 12 ∷ []; producer_id = 4; sequence_id = 2 }

append_once_example :
    let s' = (append md5 0 message leading).0 in
    let t = append_all md5 ((2, record message { producer_id = 5; sequence_id = 0 }) ∷ []) s' in
    ((q : AppendReq)
      → q.producer_id ≡ message.producer_id
      → append md5 1 q t ≡ (t, inl parallel_request))
    × ((append md5 1 message (flush s')).1 ≡ inl (invalid_sequence_id 3))
unfolding contains get count
append_once_example =
    append_once md5 leading message refl refl refl 0 1
      ((2, record message { producer_id = 5; sequence_id = 0 }) ∷ []) refl (omega arith)

abbrev earlier : Waiting
earlier = record { address = 8; new_log_index = 2; term = 1; producer_id = 4 }

duplicate_accepted_example :
    (s' : Node) × (x : AppendRsp) × (end_append earlier (append md5 0 message leading).0
      ≡ done (s', some x))
    × ((append md5 1 message s').0.pending_log ≡ entry 12 ∷ entry 12 ∷ [])
unfolding contains get
duplicate_accepted_example =
    duplicate_accepted md5 leading message refl refl refl 0 1 earlier
      (record { replication_finished = true; offset = 2 }) refl refl refl refl
      (λ e. absurd (omega (arith, e)))

count_main-majority_count_example :
    count_main (record { node_id = 3; node_count = 5 }) 5 + 1
    ≡ majority_count (record { node_id = 3; node_count = 5 })
count_main-majority_count_example =
    count_main-majority_count (record { node_id = 3; node_count = 5 }) (omega arith)

read-seen_example :
    let r : ReadReq = record { offset = 1 } in
    (r.offset ≡ 0 → read r leading ≡ none)
    × (1 < r.offset → read r leading ≡ some not_found)
    × ((i : ℕ)
        → r.offset ≡ suc i
        → i < 1
        → (e : LogEntry) × (get_elem? two i ≡ some e)
          × (e.content ≢ [] → read r leading ≡ some (full_message e.content))
          × (e.content ≡ [] → read r leading ≡ some (hash_only e.md5hash)))
read-seen_example = read-seen leading two refl (omega arith) (record { offset = 1 })

-- An error, a refusal and a grant.
abbrev vote_answers : List (Option RequestVoteRsp)
vote_answers =
    none
    ∷ some (record { term = 1; vote_granted = false })
    ∷ some (record { term = 2; vote_granted = true })
    ∷ []

queue_election_won_example :
    (s' : Node) × (t : Node) × (r : RequestVoteReq) × (u : Node) × (end_follower node ≡ done s')
    × (next_session s'.state ≡ candidate_session)
    × (start_candidate s' ≡ done (t, 1, r))
    × (t.current_term ≡ 2)
    × (t.voted_for ≡ some 0)
    × (r.term ≡ 2)
    × (r.last_log_index ≡ saved_log_size node)
    × (r.last_log_term ≡ last_saved_log_term node)
    × (on_votes vote_answers 1 t ≡ done (u, 2))
    × (next_session u.state ≡ leader_session)
    × (u.current_term ≡ 2)
    × (u.current_term_start_index ≡ saved_log_size node + 1)
    × (u.pending_log ≡ [])
unfolding majority_count
queue_election_won_example =
    queue_election_won node vote_answers refl refl (omega arith) (omega arith) (omega arith)
      (tt, (omega arith, (omega arith, tt)))
