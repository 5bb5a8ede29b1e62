-- ===== src/Mtf/Log.antt =====
-- The log database of src/metamorphosis/node/node.cpp as a list: the keys are 1, 2, ..., in order.
use metamorphosis.Prelude.{
  Option, none, ◌==◌, zero, [], refl, Bool-cases, inl, inr, drop-get_elem?, gt→leb, le→leb, arith,
  get_elem?-some, ◌∙◌, drop, aborted, ◌≢◌, take, dec_lt, done, some, get_elem?, suc, ◌↔◌, ◌+◌, ◌≤◌,
  true, length, ◌∷◌, ◌<◌, List, ℕ, Bool, ◌≡◌,
}
use metamorphosis.Kv.Numbered.{get-log, last_key-numbered, numbered}
use metamorphosis.Mtf.Messages.{LogEntry, AppendEntriesReq}
use metamorphosis.Mtf.Node.{Node, saved_log_size, get_range}
use metamorphosis.Mtf.Replication.{check_committed, matches_previous}

pub saved_log_size-length :
    (s : Node) (xs : List LogEntry) → s.raft_log ≡ numbered 1 xs → saved_log_size s ≡ length xs
unfolding saved_log_size
saved_log_size-length s xs h = rw h (last_key-numbered xs)

pub get_range-take :
    (n i : ℕ) (xs : List LogEntry)
    → i + n ≤ length xs
    → get_range n (suc i) (numbered 1 xs) ≡ done (take n (drop i xs))
unfolding get_range
get_range-take zero i xs h = refl
get_range-take (suc n) i xs h =
    let (e, g) = get_elem?-some xs i (omega arith) in
    rw (get-log i xs, g, drop-get_elem? i xs e g, get_range-take n (suc i) xs (omega arith)) refl

-- MessageDifferencer::Equals holds of equal entries only.
abbrev pub IsLawful : (LogEntry → LogEntry → Bool) → Type 0
IsLawful equals = (a b : LogEntry) → (equals a b ≡ true) ↔ (a ≡ b)

-- Each entry at a committed place, counted from `i`, is the one that the log holds there.
abbrev pub Agrees : ℕ → ℕ → List LogEntry → List LogEntry → Type 0
Agrees commit_index i [] xs = Unit {0}
Agrees commit_index i (e ∷ es) xs =
    (i < commit_index → get_elem? xs i ≡ some e) × Agrees commit_index (suc i) es xs

pub Agrees-beyond : (c i : ℕ) (es xs : List LogEntry) → c ≤ i → Agrees c i es xs
Agrees-beyond c i [] xs h = tt
Agrees-beyond c i (e ∷ es) xs h =
    ((λ l. absurd (omega arith)), Agrees-beyond c (suc i) es xs (omega arith))

module _ (equals : LogEntry → LogEntry → Bool) (law : IsLawful equals) where
  pub check_committed-done :
      (c i : ℕ) (es xs : List LogEntry)
      → c ≤ length xs
      → Agrees c i es xs
      → check_committed equals c (suc i) es (numbered 1 xs) ≡ done tt
  unfolding check_committed
  check_committed-done c i [] xs h a = refl
  check_committed-done c i (e ∷ es) xs h (here, later) = elim (dec_lt i c) [
    | yes l ↦
        let known = get-log i xs ∙ here l in
        let same : equals e e ≡ true = (law e e).1 refl in
        rw (le→leb (suc i) c l, known, same, check_committed-done c (suc i) es xs h later) refl
    | no l ↦ rw (gt→leb (suc i) c (omega arith)) refl
  ]

  -- An entry that differs from the committed one at its place stops the node.
  pub check_committed-aborted :
      (c i : ℕ) (e d : LogEntry) (es xs : List LogEntry)
      → i < c
      → get_elem? xs i ≡ some d
      → e ≢ d
      → check_committed equals c (suc i) (e ∷ es) (numbered 1 xs) ≡ aborted
  unfolding check_committed
  check_committed-aborted c i e d es xs l g differs =
      let known = get-log i xs ∙ g in
      elim (Bool-cases (equals e d)) [
        | inl same ↦ absurd (differs ((law e d).0 same))
        | inr other ↦ rw (le→leb (suc i) c l, known, other) refl
      ]

-- The term of an entry that may be missing.
abbrev term_at : Option LogEntry → ℕ
term_at none = 0
term_at (some e) = e.term

-- The term of the entry at an index of the log, counted from 1; 0 at index 0.
abbrev pub term_of : List LogEntry → ℕ → ℕ
term_of xs zero = 0
term_of xs (suc i) = term_at (get_elem? xs i)

module _ (r : AppendEntriesReq) (xs : List LogEntry) where
  pub matches_previous-term_of :
      (p : ℕ)
      → r.prev_log_index ≡ p
      → p ≤ length xs
      → (p ≡ 0 → r.prev_log_term ≡ 0)
      → matches_previous r (numbered 1 xs) ≡ done (term_of xs p == r.prev_log_term)
  unfolding matches_previous
  matches_previous-term_of zero e h z = ground (arith, z refl)
  matches_previous-term_of (suc i) e h z =
      let (d, g) = get_elem?-some xs i h in
      let looked = get-log i xs ∙ g in rw (e, looked, g) (ground arith)
