-- ===== src/Raft/LinearTests.antt =====
-- Two histories for src/raft/test/util/history_checker.cpp, in the order of their sizes.
use metamorphosis.Prelude.{ℕ, [], ◌∷◌, List, done, ◌≡◌, ◌↔◌, refl}
use metamorphosis.Raft.History.{
  RequestInfo, ok, not_linearizable, check_linearizability, check_sorted, are_appended, agrees,
  have_common_prefix, precedes, is_ordered,
}
use metamorphosis.Raft.Linear.{AreAppended, ArePrefixes, AreBefore, check_linearizability-ok}

abbrev info : ℕ → ℕ → ℕ → List ℕ → RequestInfo
info from to command result = record {
  invocation_time = from;
  completion_time = to;
  command = command;
  result = result;
}

abbrev history : List RequestInfo
history = info 0 5 8 (8 ∷ []) ∷ info 3 9 4 (8 ∷ 4 ∷ []) ∷ []

history_ok : check_linearizability (λ h. h) history ≡ done ok
unfolding check_linearizability check_sorted are_appended agrees have_common_prefix precedes
    is_ordered
history_ok = refl

-- The second request was over before the first one began.
late :
    check_linearizability (λ h. h) (info 6 7 8 (8 ∷ []) ∷ info 3 5 4 (8 ∷ 4 ∷ []) ∷ [])
    ≡ done not_linearizable
unfolding check_linearizability check_sorted are_appended agrees have_common_prefix precedes
    is_ordered
late = refl

-- Two requests at once with one result, as if a command that is in the log once was two of them.
shared_result :
    check_linearizability (λ h. h) (info 0 5 8 (8 ∷ []) ∷ info 0 5 8 (8 ∷ []) ∷ []) ≡ done ok
unfolding check_linearizability check_sorted are_appended agrees have_common_prefix precedes
    is_ordered
shared_result = refl

check_linearizability-ok_example :
    (check_linearizability (λ h. h) history ≡ done ok)
    ↔ (AreAppended history × ArePrefixes (8 ∷ 4 ∷ []) history × AreBefore history history 0)
check_linearizability-ok_example = check_linearizability-ok (λ h. h) history
