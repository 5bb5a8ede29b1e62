-- ===== src/Mtf/Producers.antt =====
-- Append of src/metamorphosis/node/node.cpp against its promise that a producer's message with a
-- sequence id is appended once: pending_producers before the main session writes the message, and
-- the counters after.
use metamorphosis.Mtf.Pending.{
  contains-erase, Pending, append_all, append_all-Pending, contains-insert, contains-erase_all_last,
}
use metamorphosis.Prelude.{
  ◌%◌, sym, subst, ap, ◌∙◌, ◌-◌, ◌^◌, done, ◌≢◌, ◌<◌, ◌+◌, some, ◌∷◌, inl, ◌++◌, suc, false, true,
  arith, List, ◌≡◌, ℕ, [], zero,
}
use metamorphosis.Kv.{delete, get}
use metamorphosis.Kv.Lookup.{get-put}
use metamorphosis.Mtf.Messages.{
  commited, Bytes, AppendReq, AppendRsp, parallel_request, invalid_sequence_id,
}
use metamorphosis.Mtf.Node.{
  majority_count, saved_log_size, Node, PendingRequest, leader, counter, is_leader,
}
use metamorphosis.Mtf.Appends.{
  Waiting, contains, insert, erase, entry_of, enqueued, append, answer, end_append,
}
use metamorphosis.Mtf.Leading.{
  finish, commit_range, update_commit_index, written, flush, find_commit_index,
}
use metamorphosis.Mtf.Counting.{count, count-append, increment_all-counter}

-- What UpdateCommitIndex leaves alone of the state that Append reads.
record Admits (s s' : Node) : Type 0 where
  state : s'.state ≡ s.state
  counters : s'.producer_next_sequence_id ≡ s.producer_next_sequence_id
  producers : s'.pending_producers ≡ s.pending_producers

finish-Admits : (i : ℕ) (s : Node) → Admits s (finish i s)
unfolding finish
finish-Admits i s = ground arith

commit_range-Admits : (n i : ℕ) (s : Node) → Admits s (commit_range n i s)
unfolding commit_range
commit_range-Admits zero i s = ground arith
commit_range-Admits (suc n) i s =
    ground (arith, finish-Admits i s, commit_range-Admits n (suc i) (finish i s))

update_commit_index-Admits : (s : Node) → Admits s (update_commit_index s)
unfolding update_commit_index
update_commit_index-Admits s =
    let new_commit_index =
      find_commit_index s.commit_index s.current_term_start_index (majority_count s.config)
        s.match_index (saved_log_size s) in
    let h = commit_range-Admits (new_commit_index - s.commit_index) (s.commit_index + 1) s in
    record { state = h.state; counters = h.counters; producers = h.producers }

flush-Admits : (s : Node) → s.state ≡ leader → Admits (written s) (flush s)
unfolding flush
flush-Admits s lead =
    let h = update_commit_index-Admits (written s) in
    let leads : is_leader s.state ≡ true = ap is_leader lead in
    rw leads (record { state = h.state; counters = h.counters; producers = h.producers })

module _ (compute_md5_hash : Bytes → Bytes) (s : Node) (q : AppendReq)
    (lead : s.state ≡ leader) where
  append_while_pending :
      (b : ℕ)
      → contains q.producer_id s.pending_producers ≡ true
      → append compute_md5_hash b q s ≡ (s, inl parallel_request)
  unfolding append
  append_while_pending b h = ground arith

  append_wrong_id :
      (b n : ℕ)
      → contains q.producer_id s.pending_producers ≡ false
      → counter q.producer_id s.producer_next_sequence_id ≡ n
      → q.sequence_id ≢ n
      → (append compute_md5_hash b q s).1 ≡ inl (invalid_sequence_id n)
  unfolding append
  append_wrong_id b n h c d = ground arith

  append_right_id :
      (a : ℕ)
      → contains q.producer_id s.pending_producers ≡ false
      → q.sequence_id ≡ counter q.producer_id s.producer_next_sequence_id
      → (append compute_md5_hash a q s).0 ≡ enqueued compute_md5_hash a q s
  unfolding append
  append_right_id a h e = ground arith

-- The node after an Append that returns.
abbrev returned : Waiting → Node → Node
returned w s = record s {
  pending_requests = delete w.new_log_index s.pending_requests;
  frames = delete w.address s.frames;
  pending_producers = erase w.producer_id s.pending_producers;
}

end_append_commits :
    (w : Waiting) (p : PendingRequest) (s : Node)
    → get w.address s.frames ≡ some p
    → p.replication_finished ≡ true
    → w.term ≡ s.current_term
    → s.state ≡ leader
    → end_append w s
      ≡ done (
        returned w s,
        some (commited p.offset (counter w.producer_id s.producer_next_sequence_id)),
      )
unfolding end_append answer
end_append_commits w p s h finished term lead = rw h (ground arith)

module _ (compute_md5_hash : Bytes → Bytes) (s : Node) (r : AppendReq) (lead : s.state ≡ leader)
    (idle : contains r.producer_id s.pending_producers ≡ false)
    (next : r.sequence_id ≡ counter r.producer_id s.producer_next_sequence_id) where
  next_state : (a : ℕ) → (append compute_md5_hash a r s).0 ≡ enqueued compute_md5_hash a r s
  next_state a = append_right_id compute_md5_hash s r lead a idle next

  written_free :
      (a : ℕ)
      → contains r.producer_id (written (enqueued compute_md5_hash a r s)).pending_producers ≡ false
  unfolding written
  written_free a =
      contains-erase_all_last (entry_of compute_md5_hash s.current_term r) s.pending_log
        (insert r.producer_id s.pending_producers)

  counter-written :
      (a : ℕ)
      → count r.producer_id s.pending_log ≡ 0
      → r.sequence_id + 1 < 2 ^ 64
      → counter r.producer_id (written (enqueued compute_md5_hash a r s)).producer_next_sequence_id
        ≡ r.sequence_id + 1
  unfolding written count
  counter-written a alone fits =
      let p = r.producer_id in
      let e = entry_of compute_md5_hash s.current_term r in
      let added = count-append p s.pending_log (e ∷ []) in
      let start : counter p s.producer_next_sequence_id ≡ r.sequence_id % 2 ^ 64 =
        sym next ∙ omega arith in
      let self : count p (e ∷ []) ≡ 1 = ground arith in
      increment_all-counter p (s.pending_log ++ e ∷ []) s.producer_next_sequence_id r.sequence_id
        start
      ∙ omega (arith, added, alone, self)

  retry_after_flush :
      (a b : ℕ)
      → count r.producer_id s.pending_log ≡ 0
      → r.sequence_id + 1 < 2 ^ 64
      → (append compute_md5_hash b r (flush (append compute_md5_hash a r s).0)).1
        ≡ inl (invalid_sequence_id (r.sequence_id + 1))
  unfolding count written
  retry_after_flush a b alone fits =
      let t = enqueued compute_md5_hash a r s in
      let h = flush-Admits t lead in
      let free = written_free a in
      let known = counter-written a alone fits in
      subst
        (λ u.
          (append compute_md5_hash b r (flush u)).1 ≡ inl (invalid_sequence_id (r.sequence_id + 1)))
        (sym (next_state a))
        (append_wrong_id compute_md5_hash (flush t) r (h.state ∙ lead) b (r.sequence_id + 1)
          (ap (contains r.producer_id) h.producers ∙ free)
          (ap (counter r.producer_id) h.counters ∙ known) (λ e. absurd (omega (arith, e))))

  -- After a leader with no other message of the producer in its pending log has accepted one, whose
  -- sequence id is not the last of uint64, and while only further calls of Append arrive, every request
  -- of the producer is refused as a parallel one, and changes nothing. If the main session writes the
  -- message before anything else happens, the same request is refused with the next sequence id.
  pub append_once :
      (a b : ℕ) (between : List (ℕ × AppendReq))
      → count r.producer_id s.pending_log ≡ 0
      → r.sequence_id + 1 < 2 ^ 64
      → let s' = (append compute_md5_hash a r s).0 in
        let t = append_all compute_md5_hash between s' in
        ((q : AppendReq)
          → q.producer_id ≡ r.producer_id
          → append compute_md5_hash b q t ≡ (t, inl parallel_request))
        × ((append compute_md5_hash b r (flush s')).1
            ≡ inl (invalid_sequence_id (r.sequence_id + 1)))
  append_once a b between alone fits =
      let s' = (append compute_md5_hash a r s).0 in
      let held : Pending r.producer_id s' =
        subst (Pending r.producer_id) (sym (next_state a))
          (lead, contains-insert r.producer_id s.pending_producers) in
      let (leads, waits) = append_all-Pending compute_md5_hash r.producer_id between s' held in
      (
        λ q same.
            let t = append_all compute_md5_hash between s' in
            append_while_pending compute_md5_hash t q leads b
              (ap (λ p. contains p t.pending_producers) same ∙ waits),
        retry_after_flush a b alone fits,
      )

  -- An earlier request of the same producer that was committed and returns now takes the producer
  -- off the pending ones, though the accepted message is not yet written: the same request is
  -- accepted once more, and its entry stands in the pending log twice.
  pub duplicate_accepted :
      (a b : ℕ) (w : Waiting) (p : PendingRequest)
      → w.producer_id ≡ r.producer_id
      → w.term ≡ s.current_term
      → get w.address s.frames ≡ some p
      → p.replication_finished ≡ true
      → w.address ≢ a
      → (s' : Node) × (x : AppendRsp) × (end_append w (append compute_md5_hash a r s).0
          ≡ done (s', some x))
        × ((append compute_md5_hash b r s').0.pending_log
            ≡ (s.pending_log ++ entry_of compute_md5_hash s.current_term r ∷ [])
              ++ entry_of compute_md5_hash s.current_term r ∷ [])
  duplicate_accepted a b w p same term waits finished fresh =
      let t = enqueued compute_md5_hash a r s in
      let new : PendingRequest = record { replication_finished = s.stop_leader; offset = 0 } in
      let found : get w.address t.frames ≡ some p =
        ground (arith, get-put a w.address new s.frames) in
      let free : contains r.producer_id (returned w t).pending_producers ≡ false =
        rw same (contains-erase r.producer_id (insert r.producer_id s.pending_producers)) in
      (
        returned w t,
        commited p.offset (counter w.producer_id s.producer_next_sequence_id),
        subst
            (λ u.
              end_append w u
              ≡ done (
                returned w t,
                some (commited p.offset (counter w.producer_id s.producer_next_sequence_id)),
              ))
            (sym (next_state a)) (end_append_commits w p t found finished term lead),
        ap (λ u. u.pending_log)
            (append_right_id compute_md5_hash (returned w t) r lead b free next),
      )
