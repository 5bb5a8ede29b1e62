-- ===== src/Raft/Log.antt =====
-- The log database of src/raft/node/node.cpp as a list: the keys are 1, 2, ..., in order.
use metamorphosis.Prelude.{
  gt→leb, le→leb, dec_lt, ℕ, zero, suc, ◌+◌, ◌-◌, ◌<◌, ◌≤◌, ◌≡◌, refl, sym, ap, ◌∙◌, ◌↔◌, Option,
  none, some, List, [], ◌∷◌, ◌++◌, length, get_elem?, take, drop, arith, take-append_add,
  drop-get_elem?, get_elem?-some, done,
}
use metamorphosis.Kv.{seek_to_last}
use metamorphosis.Kv.Numbered.{get-log, last_key-numbered, numbered, seek_to_last-numbered}
use metamorphosis.Raft.Messages.{LogEntry}
use metamorphosis.Raft.Machine.{Externals, ExactlyOnce, IsLawful, apply, replay}
use metamorphosis.Raft.Node.{Node, saved_log_size, last_saved_log_term, entry_term}
use metamorphosis.Raft.Replication.{check_committed, apply_range}

-- The term of an entry that may be missing.
abbrev pub term_at : Option LogEntry → ℕ
term_at none = 0
term_at (some e) = e.term

last_term-numbered :
    (xs : List LogEntry)
    → entry_term (seek_to_last (numbered 1 xs)) ≡ term_at (get_elem? xs (length xs - 1))
unfolding seek_to_last
last_term-numbered [] = refl
last_term-numbered (x ∷ xs) =
    let (v, e, g) = seek_to_last-numbered 1 x xs in
    let n : length (x ∷ xs) - 1 ≡ length xs = omega arith in rw (e, n, g)

module _ {M : Type 0} (s : Node M) (xs : List LogEntry) (h : s.raft_log ≡ numbered 1 xs) where
  pub saved_log_size-length : saved_log_size s ≡ length xs
  unfolding saved_log_size
  saved_log_size-length = rw h (last_key-numbered xs)

  pub last_saved_log_term-last : last_saved_log_term s ≡ term_at (get_elem? xs (length xs - 1))
  unfolding last_saved_log_term
  last_saved_log_term-last = rw h (last_term-numbered xs)

-- Each entry at a committed place, counted from `i`, is the one that the log holds there.
abbrev pub Agrees : ℕ → ℕ → List LogEntry → List LogEntry → Type 0
Agrees commit_index i [] xs = Unit {0}
Agrees commit_index i (e ∷ es) xs =
    (i < commit_index → get_elem? xs i ≡ some e) × Agrees commit_index (suc i) es xs

pub Agrees-beyond : (c i : ℕ) (es xs : List LogEntry) → c ≤ i → Agrees c i es xs
Agrees-beyond c i [] xs h = tt
Agrees-beyond c i (e ∷ es) xs h =
    ((λ l. absurd (omega arith)), Agrees-beyond c (suc i) es xs (omega arith))

module _ {M : Type 0} (x : Externals M) (law : IsLawful x) where
  pub check_committed-Agrees :
      (c i : ℕ) (es xs : List LogEntry)
      → c ≤ length xs
      → (check_committed x.equals c (suc i) es (numbered 1 xs) ≡ done tt) ↔ Agrees c i es xs
  unfolding check_committed
  check_committed-Agrees c i [] xs h = ((λ _. tt), (λ _. refl))
  check_committed-Agrees c i (e ∷ es) xs h =
      let ih = check_committed-Agrees c (suc i) es xs h in
      elim (dec_lt i c) [
        | yes l ↦
            let (d, g) = get_elem?-some xs i (omega arith) in
            rw (le→leb (suc i) c l, get-log i xs, g)
              (
                (λ p. ground (arith, law.equals_iff e d, ih)),
                (λ p. ground (arith, law.equals_iff e d, ih)),
              )
        | no l ↦
            rw (gt→leb (suc i) c (omega arith)) (
              (λ _. ((λ k. absurd (l k)), Agrees-beyond c (suc i) es xs (omega arith))),
              (λ _. refl),
            )
      ]

module _ {M : Type 0} (x : Externals M) where
  pub apply_range-replay :
      (n i : ℕ) (xs : List LogEntry) (m : ExactlyOnce M)
      → i + n ≤ length xs
      → apply_range x n (suc i) (numbered 1 xs) m ≡ done (replay x (take n (drop i xs)) m)
  unfolding apply_range replay
  apply_range-replay zero i xs m h = refl
  apply_range-replay (suc n) i xs m h =
      let (e, g) = get_elem?-some xs i (omega arith) in
      rw (get-log i xs, g, drop-get_elem? i xs e g)
        (apply_range-replay n (suc i) xs (apply x e.request m).0 (omega arith))

  pub replay-append :
      (xs ys : List LogEntry) (m : ExactlyOnce M)
      → replay x (xs ++ ys) m ≡ replay x ys (replay x xs m)
  unfolding replay
  replay-append [] ys m = refl
  replay-append (e ∷ xs) ys m = replay-append xs ys (apply x e.request m).0

  -- The range from `i` continues the replay of the first `i` entries.
  pub apply_range-continues :
      (n i : ℕ) (xs : List LogEntry) (m : ExactlyOnce M)
      → i + n ≤ length xs
      → apply_range x n (suc i) (numbered 1 xs) (replay x (take i xs) m)
        ≡ done (replay x (take (i + n) xs) m)
  apply_range-continues n i xs m h =
      apply_range-replay n i xs (replay x (take i xs) m) h
      ∙ ap done
          (sym (rw (take-append_add i n xs) (replay-append (take i xs) (take n (drop i xs)) m)))
