-- ===== src/Raft/Committing.antt =====
-- UpdateCommitIndex of src/raft/node/node.cpp as a whole: the commit index, the state machine and the
-- requests that wait.
use metamorphosis.Raft.Accepting.{IsValid}
use metamorphosis.Raft.Messages.{LogEntry}
use native.Mathlib.Numerals.{add-one}
use metamorphosis.Prelude.{
  subst, arith, ◌+◌, ◌-◌, get_elem?, ◌<◌, ◌≤◌, take, done, ◌≡◌, List, ℕ, suc, refl, some, sym, ◌∙◌,
  ap,
}
use metamorphosis.Kv.{get}
use metamorphosis.Raft.Node.{Node, PendingRequest}
use metamorphosis.Raft.Commit.{
  Applied, new_commit_index, new_commit_index_greatest, commit_to, replay_to,
}
use metamorphosis.Raft.Log.{saved_log_size-length}
use metamorphosis.Raft.Answered.{
  finished, Waitless, IsOnly, result_of, commit_range_untouched, commit_range_answered,
}
use metamorphosis.Raft.Leading.{commit_range, update_commit_index}
use metamorphosis.Raft.Machine.{Externals, ExactlyOnce, apply, replay}

module _ {M : Type 0} (x : Externals M) (start : ExactlyOnce M) (s : Node M) (xs : List LogEntry)
    (v : IsValid x start s xs) where
  abbrev n : ℕ
  n = new_commit_index x start s xs v

  -- UpdateCommitIndex of a valid node does not abort: the commit index moves to the index of the search,
  -- the state machine to that point of the log. Of the rest only the frames of waiting requests change,
  -- and of these only those that wait for an index that is now committed: one that waits for no other
  -- such index is finished, with the result of the entry there, applied after all before it.
  pub update_commit_index_answers :
      (t : Node M) × (update_commit_index x s ≡ done (record t { commit_index = n }))
      × Applied (replay x (take n xs) start) s t
      × IsValid x start (record t { commit_index = n }) xs
      × ((a : ℕ) → Waitless s a s.commit_index n → get a t.frames ≡ get a s.frames)
      × ((j a : ℕ) (f : PendingRequest) (d : LogEntry)
          → s.commit_index ≤ j
          → j < n
          → IsOnly s a (suc j) s.commit_index n
          → get a s.frames ≡ some f
          → get_elem? xs j ≡ some d
          → get a t.frames ≡ some (finished (result_of x start xs j d)))
  unfolding update_commit_index
  update_commit_index_answers =
      let c = s.commit_index in
      let (low, high, _, _) = new_commit_index_greatest x start s xs v in
      let (t, e, p) = commit_to x start s xs v n low high in
      let ran : commit_range x (n - c) (suc c) s ≡ done t = rw (← add-one c) e in
      let total : c + (n - c) ≡ n = omega arith in
      (
        t,
        rw (saved_log_size-length s xs v.log, e) refl,
        p,
        record { log = p.log ∙ v.log; fits = v.fits; committed = high; applied = p.rsm },
        λ a w.
            commit_range_untouched x (n - c) c s t xs a v.log (omega arith) ran
              (subst (Waitless s a c) (sym total) w),
        λ j a f d l h only held entry.
            let got =
              commit_range_answered x (n - c) c s t xs j a f d v.log (omega arith) ran l
                (omega arith) (subst (IsOnly s a (suc j) c) (sym total) only) held entry in
            got ∙ ap (λ m. some (finished (apply x d.request m).1)) (replay_to x start s xs v j l),
      )
