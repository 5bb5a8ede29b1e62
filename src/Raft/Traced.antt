-- ===== src/Raft/Traced.antt =====
-- Logs of src/raft/node/node.cpp against what the leader of each term has written.
use metamorphosis.Prelude.{
  ℕ, zero, suc, ◌+◌, ◌≤◌, ◌<◌, ◌≡◌, refl, sym, ap, ◌∙◌, some, List, [], ◌∷◌, ◌++◌, length,
  get_elem?, arith, dec_lt, get_elem?-append_left, get_elem?-none,
}
use metamorphosis.Raft.Messages.{LogEntry, AppendEntriesRequest}
use metamorphosis.Raft.Log.{Agrees, term_at}
use metamorphosis.Raft.Appending.{term_of}

-- What the leader of each term has written, and in which terms there has been a leader.
abbrev pub Written : Type 0
Written = ℕ → List LogEntry

-- The first `n` entries are the same.
abbrev pub Same : ℕ → List LogEntry → List LogEntry → Type 0
Same n xs ys = (i : ℕ) → i < n → get_elem? xs i ≡ get_elem? ys i

-- Each entry is of a term that has had a leader, who wrote it there, and all before it.
abbrev pub IsTraced : (ℕ → Type 0) → Written → List LogEntry → Type 0
IsTraced led w xs =
    (k : ℕ) (e : LogEntry) → get_elem? xs k ≡ some e → led e.term × Same (suc k) xs (w e.term)

pub get_elem?-length :
    {A : Type 0} (xs : List A) (i : ℕ) (a : A) → get_elem? xs i ≡ some a → i < length xs
get_elem?-length xs i a g = elim (dec_lt i (length xs)) [
  | yes l ↦ l
  | no h ↦ (let n = get_elem?-none xs i (omega arith) in cc)
]

pub Same-append : (n : ℕ) (xs ys : List LogEntry) → n ≤ length xs → Same n xs (xs ++ ys)
Same-append n xs ys h i l = sym (get_elem?-append_left xs ys i (omega arith))

pub nil-IsTraced : (led : ℕ → Type 0) (w : Written) → IsTraced led w []
nil-IsTraced led w k e g = cc

-- Whoever wrote more since, a log is still traced, if no term that it has entries of was begun anew.
pub IsTraced-grow :
    (led led' : ℕ → Type 0) (w w' : Written) (xs : List LogEntry)
    → ((t : ℕ) → led t → led' t × ((n : ℕ) → n ≤ length (w t) → Same n (w t) (w' t)))
    → IsTraced led w xs
    → IsTraced led' w' xs
IsTraced-grow led led' w w' xs grow h k e g =
    let (l, same) = h k e g in
    let (l', more) = grow e.term l in
    let last = sym (same k (omega arith)) ∙ g in
    let inside = get_elem?-length (w e.term) k e last in
    (l', λ i b. same i b ∙ more (suc k) (omega arith) i b)

-- Two traced logs with entries of one term at one place are the same up to there.
pub traced_logs_match :
    (led : ℕ → Type 0) (w : Written) (xs ys : List LogEntry) (k : ℕ) (a b : LogEntry)
    → IsTraced led w xs
    → IsTraced led w ys
    → get_elem? xs k ≡ some a
    → get_elem? ys k ≡ some b
    → a.term ≡ b.term
    → Same (suc k) xs ys
traced_logs_match led w xs ys k a b p q g h same i l =
    (p k a g).1 i l ∙ ap (λ t. get_elem? (w t) i) same ∙ sym ((q k b h).1 i l)

-- A request of the leader who wrote `ws`: its entries, and the term of the entry before them.
pub record IsPart (ws : List LogEntry) (r : AppendEntriesRequest) : Type 0 where
  pub previous : r.prev_log_index ≤ length ws
  pub term : r.prev_log_term ≡ term_of ws r.prev_log_index
  pub entries :
      (m : ℕ) (e : LogEntry)
      → get_elem? r.entries m ≡ some e
      → get_elem? ws (r.prev_log_index + m) ≡ some e

pub term_of-Same : (ws vs : List LogEntry) (n : ℕ) → Same n ws vs → term_of ws n ≡ term_of vs n
term_of-Same ws vs zero h = refl
term_of-Same ws vs (suc n) h = ap term_at (h n (omega arith))

pub IsPart-grow :
    (ws vs : List LogEntry) (r : AppendEntriesRequest)
    → ((n : ℕ) → n ≤ length ws → Same n ws vs)
    → length ws ≤ length vs
    → IsPart ws r
    → IsPart vs r
IsPart-grow ws vs r more longer p = record {
  previous = omega (arith, p.previous);
  term = p.term ∙ term_of-Same ws vs r.prev_log_index (more r.prev_log_index p.previous);
  entries = λ m e g.
      let found = p.entries m e g in
      let inside = get_elem?-length ws (r.prev_log_index + m) e found in
      sym (more (suc (r.prev_log_index + m)) (omega arith) (r.prev_log_index + m) (omega arith))
      ∙ found;
}

pub Agrees-get_elem? :
    (c i : ℕ) (es xs : List LogEntry)
    → Agrees c i es xs
    → (m : ℕ) (e : LogEntry) → get_elem? es m ≡ some e
    → i + m < c
    → get_elem? xs (i + m) ≡ some e
Agrees-get_elem? c i [] xs a m e g l = cc
Agrees-get_elem? c i (d ∷ es) xs (here, later) zero e g l =
    let z : i + 0 ≡ i = omega arith in rw z (here (omega arith) ∙ g)
Agrees-get_elem? c i (d ∷ es) xs (here, later) (suc m) e g l =
    let z : i + suc m ≡ suc i + m = omega arith in
    rw z (Agrees-get_elem? c (suc i) es xs later m e g (omega arith))
