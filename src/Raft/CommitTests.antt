-- ===== src/Raft/CommitTests.antt =====
-- UpdateCommitIndex of src/raft/node on a small input, and instances of the theorems about it.
use metamorphosis.Prelude.{
  get_elem?, some, suc, ◌<◌, ◌≤◌, done, ◌≡◌, false, arith, [], ◌∷◌, ℕ, refl, zero,
}
use metamorphosis.Raft.Messages.{LogEntry}
use metamorphosis.Raft.Appending.{term_of}
use metamorphosis.Kv.{get}
use metamorphosis.Raft.Answered.{result_of, finished, IsOnly, Waitless}
use metamorphosis.Raft.Commit.{Applied}
use metamorphosis.Raft.Accepting.{IsValid}
use metamorphosis.Raft.Majority.{update_commit_index_majority, HasMajority, IsStarted}
use metamorphosis.Raft.Machine.{replay}
use metamorphosis.Raft.Leading.{update_commit_index, match_count, find_commit_index}
use metamorphosis.Raft.Node.{PendingRequest, majority_count, Node}
use metamorphosis.Raft.Committing.{update_commit_index_answers}
use metamorphosis.Raft.Tests.{counter, fresh, entry, leading}

-- The leader, with a call of Execute that waits for index 1 in the frame at address 5.
abbrev awaited : Node ℕ
awaited = record leading {
  pending_requests = (1, 5) ∷ [];
  frames = (5, record { replication_finished = false; result = [] }) ∷ [];
}

awaited-IsValid : IsValid counter fresh awaited (entry 2 10 ∷ [])
unfolding replay
awaited-IsValid = record { log = refl; fits = omega arith; committed = omega arith; applied = refl }

awaited-IsStarted : IsStarted awaited (entry 2 10 ∷ [])
awaited-IsStarted (suc zero) low high = ((λ h. refl), (λ e. omega arith))
awaited-IsStarted zero low high = absurd (omega arith)
awaited-IsStarted (suc (suc i)) low high = absurd (omega arith)

update_commit_index_answers_example :
    (t : Node ℕ) × (update_commit_index counter awaited ≡ done (record t { commit_index = 1 }))
    × Applied (replay counter (entry 2 10 ∷ []) fresh) awaited t
    × IsValid counter fresh (record t { commit_index = 1 }) (entry 2 10 ∷ [])
    × ((a : ℕ) → Waitless awaited a 0 1 → get a t.frames ≡ get a awaited.frames)
    × ((j a : ℕ) (f : PendingRequest) (d : LogEntry)
        → 0 ≤ j
        → j < 1
        → IsOnly awaited a (suc j) 0 1
        → get a awaited.frames ≡ some f
        → get_elem? (entry 2 10 ∷ []) j ≡ some d
        → get a t.frames ≡ some (finished (result_of counter fresh (entry 2 10 ∷ []) j d)))
unfolding find_commit_index match_count majority_count
update_commit_index_answers_example =
    update_commit_index_answers counter fresh awaited (entry 2 10 ∷ []) awaited-IsValid

update_commit_index_majority_example :
    (s' : Node ℕ) × (update_commit_index counter awaited ≡ done s')
    × (0 ≤ s'.commit_index)
    × (s'.commit_index ≤ 1)
    × (0 < s'.commit_index
        → (term_of (entry 2 10 ∷ []) s'.commit_index ≡ 2) × HasMajority awaited s'.commit_index)
    × ((i : ℕ)
        → s'.commit_index < i
        → i ≤ 1
        → term_of (entry 2 10 ∷ []) i ≡ 2
        → ¬ HasMajority awaited i)
update_commit_index_majority_example =
    update_commit_index_majority counter fresh awaited (entry 2 10 ∷ []) awaited-IsValid refl
      awaited-IsStarted
