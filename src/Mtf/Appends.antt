-- ===== src/Mtf/Appends.antt =====
-- src/metamorphosis/node/node.cpp: Append and Read. Append awaits, and is two functions, one to the
-- await and one from it.
use mathlib.Core.Option
use metamorphosis.Prelude.{
  Bool, ◌||◌, ℕ, ◌+◌, ◌==◌, inl, inr, ◌⊎◌, ltb, if◌then◌else◌, false, List, [], ◌∷◌, ◌++◌, get_or,
  set, Option, none, some, Outcome, done, ◌>>=◌, ◌>>◌, verify, get_value,
}
use metamorphosis.Kv.{get, put, delete}
use metamorphosis.Mtf.Messages.{
  Bytes, ReadReq, ReadRsp, AppendReq, AppendRsp, commited, invalid_sequence_id, parallel_request,
  not_found, hash_only, full_message, LogEntry, not_a_leader,
}
use metamorphosis.Mtf.Node.{counter, Node, PendingRequest, is_leader, stop_heartbeat}

-- An Append that waits: the address of its PendingRequest, its log index, term and producer.
pub record Waiting : Type 0 where
  pub address : ℕ
  pub new_log_index : ℕ
  pub term : ℕ
  pub producer_id : ℕ

-- pending_producers.contains, insert and erase.
unfoldable pub contains : ℕ → List ℕ → Bool
contains p [] = false
contains p (q ∷ qs) = q == p || contains p qs

unfoldable pub insert : ℕ → List ℕ → List ℕ
unfolding contains
insert p qs = if contains p qs then qs else p ∷ qs

unfoldable pub erase : ℕ → List ℕ → List ℕ
erase p [] = []
erase p (q ∷ qs) = if q == p then erase p qs else q ∷ erase p qs

-- rt::ComputeMd5Hash, of OpenSSL.
module _ (compute_md5_hash : Bytes → Bytes) where
  abbrev pub entry_of : ℕ → AppendReq → LogEntry
  entry_of term r = record {
    term = term;
    producer_id = r.producer_id;
    content = r.content;
    md5hash = compute_md5_hash r.content;
  }

  -- The state of an accepted request at its Await.
  abbrev pub enqueued : ℕ → AppendReq → Node → Node
  enqueued address r s =
      let new_log_index = get_or s.next_index s.node_id 0 in
      record (stop_heartbeat s) {
        next_index = set s.next_index s.node_id (new_log_index + 1);
        pending_log = s.pending_log ++ entry_of s.current_term r ∷ [];
        frames = put address (record { replication_finished = s.stop_leader; offset = 0 }) s.frames;
        pending_requests = put new_log_index address s.pending_requests;
        reset_heartbeat_timeout = false;
        pending_producers = insert r.producer_id s.pending_producers;
      }

  -- Append up to Await, at a fresh `address`: a reply, or the wait. The DEFER erases the producer
  -- at every return after the insertion.
  unfoldable pub append : ℕ → AppendReq → Node → Node × (AppendRsp ⊎ Waiting)
  unfolding insert erase
  append address r s =
      let next_id = counter r.producer_id s.producer_next_sequence_id in
      if is_leader s.state
      then (if contains r.producer_id s.pending_producers
          then (s, inl parallel_request)
          else if r.sequence_id == next_id
          then (
            enqueued address r s,
            inr (record {
              address = address;
              new_log_index = get_or s.next_index s.node_id 0;
              term = s.current_term;
              producer_id = r.producer_id;
            }),
          )
          else (
            record s {
              pending_producers = erase r.producer_id (insert r.producer_id s.pending_producers);
            },
            inl (invalid_sequence_id next_id),
          ))
      else (s, inl not_a_leader)

unfoldable pub answer : Waiting → PendingRequest → Node → Outcome (Node × Option AppendRsp)
answer w p s =
    if w.term == s.current_term
    then (do
      verify (is_leader s.state)
      done (s, some (commited p.offset (counter w.producer_id s.producer_next_sequence_id))))
    else done (s, some not_a_leader)

-- Append from Await: no reply while the signal is missing.
unfoldable pub end_append : Waiting → Node → Outcome (Node × Option AppendRsp)
unfolding answer erase
end_append w s = do
  p ← get_value (get w.address s.frames)
  if p.replication_finished
      then answer w p (record s {
        pending_requests = delete w.new_log_index s.pending_requests;
        frames = delete w.address s.frames;
        pending_producers = erase w.producer_id s.pending_producers;
      })
      else done (s, none)

-- The payload of an entry, and Read. `none` is RpcErrorType::Internal.
abbrev pub read_entry : LogEntry → ReadRsp
read_entry e = elim e.content [ [] ↦ hash_only e.md5hash | b ∷ bs ↦ full_message (b ∷ bs) ]

unfoldable pub read : ReadReq → Node → Option ReadRsp
read r s =
    if ltb s.commit_index r.offset
    then some not_found
    else Option.map read_entry (get r.offset s.raft_log)
