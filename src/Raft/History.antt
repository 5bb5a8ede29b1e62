-- ===== src/Raft/History.antt =====
-- src/raft/test/util/history_checker.cpp: CheckLinearizability. std::sort is a parameter.
use metamorphosis.Prelude.{
  ℕ, ◌+◌, ◌==◌, ltb, not, ◌&&◌, Bool, true, false, if◌then◌else◌, List, [], ◌∷◌, Outcome, done,
  aborted, ◌>>=◌, get_elem?, get_value, leb,
}

pub record RequestInfo : Type 0 where
  pub invocation_time : ℕ
  pub completion_time : ℕ
  pub command : ℕ
  pub result : List ℕ

-- Status<std::string>, a constructor for each text
pub data Verdict : Type 0 where
  ok not_appended no_common_prefix not_linearizable : Verdict

-- vector::back; undefined, here an abort, where there is none
abbrev pub back {ℓ} : {A : Type ℓ} → List A → Outcome A
back [] = aborted
back (x ∷ []) = done x
back (x ∷ y ∷ ys) = back (y ∷ ys)

-- Whether each command stands at the end of its result.
unfoldable pub are_appended : List RequestInfo → Outcome Bool
are_appended [] = done true
are_appended (info ∷ history) = do
  last ← back info.result
  if last == info.command then are_appended history else done false

-- Whether the log from `index` on agrees with the last log; a read past that aborts.
unfoldable pub agrees : List ℕ → ℕ → List ℕ → Outcome Bool
agrees [] index last = done true
agrees (c ∷ cs) index last = do
  other ← get_value (get_elem? last index)
  if c == other then agrees cs (index + 1) last else done false

-- history.back().result
abbrev pub last_result : List RequestInfo → List ℕ
last_result [] = []
last_result (command ∷ []) = command.result
last_result (command ∷ other ∷ history) = last_result (other ∷ history)

-- The requests but for the last one, each against the last.
unfoldable pub have_common_prefix : List ℕ → List RequestInfo → Outcome Bool
have_common_prefix last [] = done true
have_common_prefix last (command ∷ []) = done true
have_common_prefix last (command ∷ other ∷ history) = do
  same ← agrees command.result 0 last
  if same then have_common_prefix last (other ∷ history) else done false

-- No request from `index` on, if it was invoked after the completion of the one at `command_index`,
-- stands at or before that.
unfoldable pub precedes : RequestInfo → ℕ → List RequestInfo → ℕ → Bool
precedes command command_index [] index = true
precedes command command_index (other ∷ history) index =
    not (ltb command.completion_time other.invocation_time && leb index command_index)
    && precedes command command_index history (index + 1)

unfoldable pub is_ordered : List RequestInfo → List RequestInfo → ℕ → Bool
is_ordered history [] command_index = true
is_ordered history (command ∷ rest) command_index =
    precedes command command_index history 0 && is_ordered history rest (command_index + 1)

-- CheckLinearizability after the sort.
unfoldable pub check_sorted : List RequestInfo → Outcome Verdict
check_sorted history = do
  appended ← are_appended history
  if not appended then done not_appended else (do
    common ← have_common_prefix (last_result history) history
    done (
        if not common
        then no_common_prefix
        else if is_ordered history history 0
        then ok
        else not_linearizable))

unfoldable pub check_linearizability :
    (List RequestInfo → List RequestInfo) → List RequestInfo → Outcome Verdict
check_linearizability sort history = check_sorted (sort history)
