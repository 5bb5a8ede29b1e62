-- ===== src/Raft/Sending.antt =====
-- The turns of a net of nodes of src/raft/node/node.cpp in which entries move: AppendEntries, its
-- request, its reply, and the round of the main session. They keep what holds of the logs.
use metamorphosis.Raft.Received.{append_entries-IsRecorded, handle_response-IsRecorded}
use metamorphosis.Raft.Replication.{u64_max, append_entries}
use metamorphosis.Raft.Traced.{IsPart}
use metamorphosis.Raft.Accepting.{Fits}
use metamorphosis.Raft.Steady.{
  start_follower-Steady, flush-Steady, append_entries-Steady, handle_response-Steady,
  end_execute-Steady,
}
use metamorphosis.Raft.Leading.{flush, build_request}
use metamorphosis.Raft.Keeping.{self_known, handler_turn}
use metamorphosis.Raft.Recorded.{
  start_follower-IsIdle, IsIdle-IsRecorded, end_execute-IsIdle, IsRecorded,
}
use metamorphosis.Raft.Messages.{AppendEntriesResult, AppendEntriesRequest}
use metamorphosis.Raft.Node.{is_leader, saved_log_size, leader, Node}
use metamorphosis.Raft.Machine.{IsLawful, Externals}
use metamorphosis.Raft.Recording.{flush-IsRecorded, done_same}
use metamorphosis.Raft.Sent.{build_request-IsPart}
use metamorphosis.Prelude.{
  zero, inr, sym, ◌∙◌, false, ap, arith, suc, inl, Bool-cases, subst, length, ◌+◌, done, some,
  get_elem?, true, ◌≡◌, ◌<◌, ℕ, ◌∷◌,
}
use metamorphosis.Raft.Net.{
  Net, node_at, move, Calm, on_end_execute, on_response, on_start_follower,
}
use metamorphosis.Raft.Matched.{Led, IsMatched}

flush-same :
    {M : Type 0} (x : Externals M) (s s' : Node M)
    → is_leader s.state ≡ false
    → flush x s ≡ done s'
    → s ≡ s'
unfolding flush
flush-same x s s' other e = done_same (rw other at e)

module _ {M : Type 0} (x : Externals M) (n : ℕ) (c : Net M) (h : IsMatched x n c) where
  module _ (i : ℕ) (l : i < n) where
    abbrev old : Node M
    old = node_at c i

    own : IsRecorded x (Led c) c.written (c.main i) old
    own = h.recorded i l

    pub own_turn : {s' : Node M} → Calm x old s' → IsMatched x n (move i s' c)
    own_turn (on_end_execute w o e) =
        let idle = end_execute-IsIdle w old _ o e in
        handler_turn x n c h i l _ (end_execute-Steady w old _ o e)
          (IsIdle-IsRecorded x (Led c) c.written (c.main i) old own _ (c.main i) idle (λ m. m))
    own_turn (on_response node r o other e) =
        handler_turn x n c h i l _ (handle_response-Steady x node r o old _ e) (
          handle_response-IsRecorded x (Led c) c.written (c.main i) old (self_known x n c h i l) own
            node r o _ other e)
    own_turn on_start_follower =
        let idle = start_follower-IsIdle old in
        handler_turn x n c h i l _ (start_follower-Steady old)
          (IsIdle-IsRecorded x (Led c) c.written (c.main i) old own _ (c.main i) idle (λ m. m))

    pub append_entries_turn :
        IsLawful x
        → (k : ℕ) (r : AppendEntriesRequest) (a : AppendEntriesResult) (s' : Node M)
        → get_elem? c.sent k ≡ some r
        → Fits r
        → append_entries x r old ≡ done (s', a)
        → IsMatched x n (move i s' c)
    append_entries_turn law k r a s' from fits e =
        let (led, part) = h.sent k r from in
        handler_turn x n c h i l s' (append_entries-Steady x r old s' a e) (
          append_entries-IsRecorded x law (Led c) c.written (c.main i) r old own (h.writers r.term)
            part fits s' a e)

    pub flush_turn :
        (s' : Node M)
        → c.main i ≡ true
        → saved_log_size old + length old.pending_log < u64_max
        → flush x old ≡ done s'
        → IsMatched x n (move i s' c)
    flush_turn s' inside fits e =
        let p = flush-Steady x old s' e in
        handler_turn x n c h i l s' p (elim (Bool-cases (is_leader old.state)) [
          | inl lead ↦
              let leads : old.state ≡ leader = ground arith in
              flush-IsRecorded x (Led c) c.written (c.main i) old (self_known x n c h i l) own s'
                inside leads (i, (h.safe.placed i l).leads leads) (h.writers old.current_term) fits
                e
          | inr other ↦
              subst (IsRecorded x (Led c) c.written (c.main i)) (flush-same x old s' other e) own
        ])

    pub send_turn :
        (p : ℕ) (r : AppendEntriesRequest)
        → old.state ≡ leader
        → build_request p old ≡ done r
        → IsMatched x n (record c { sent = r ∷ c.sent })
    send_turn p r leads e =
        let (term, part) =
          build_request-IsPart c.written (c.main i) old own.entries own.valid.log
            (own.leading leads) p r e in
        let led : Led c r.term =
          (i, ap (c.cluster.elected i) term ∙ (h.safe.placed i l).leads leads) in
        record {
          safe = h.safe;
          recorded = h.recorded;
          timed = h.timed;
          writers = h.writers;
          sent =
              λ k q g. sent_cases k q g led (subst (λ t. IsPart (c.written t) r) (sym term) part);
        }
      where
        sent_cases :
            (k : ℕ) (q : AppendEntriesRequest)
            → get_elem? (r ∷ c.sent) k ≡ some q
            → Led c r.term
            → IsPart (c.written r.term) r
            → Led c q.term × IsPart (c.written q.term) q
        sent_cases zero q g led part =
            let same : r ≡ q = cc in
            subst (λ u. Led c u.term × IsPart (c.written u.term) u) same (led, part)
        sent_cases (suc k) q g led part = h.sent k q g
