-- ===== src/Mtf/Pending.antt =====
-- pending_producers of src/metamorphosis/node/node.cpp: which producers it holds, and what calls of
-- Append leave of it.
use metamorphosis.Mtf.Messages.{AppendReq, LogEntry, Bytes}
use metamorphosis.Mtf.Node.{leader, Node}
use metamorphosis.Mtf.Leading.{erase_all}
use metamorphosis.Mtf.Appends.{contains, erase, append, insert}
use metamorphosis.Prelude.{
  ap, inr, inl, arith, ◌++◌, Bool-cases, ◌≢◌, ◌≡◌, List, ℕ, [], ◌∷◌, refl, true, false,
}

pub contains-insert : (p : ℕ) (ps : List ℕ) → contains p (insert p ps) ≡ true
unfolding insert contains
contains-insert p ps = ground arith

pub contains-erase : (p : ℕ) (ps : List ℕ) → contains p (erase p ps) ≡ false
unfolding erase contains
contains-erase p [] = refl
contains-erase p (q ∷ ps) = ground (arith, contains-erase p ps)

contains-erase_other :
    (p q : ℕ) (ps : List ℕ) → contains p ps ≡ false → contains p (erase q ps) ≡ false
unfolding erase contains
contains-erase_other p q [] h = refl
contains-erase_other p q (r ∷ ps) h = ground (arith, contains-erase_other p q ps)

pub contains-erase_all :
    (p : ℕ) (es : List LogEntry) (ps : List ℕ)
    → contains p ps ≡ false
    → contains p (erase_all es ps) ≡ false
unfolding erase_all
contains-erase_all p [] ps h = h
contains-erase_all p (e ∷ es) ps h =
    contains-erase_all p es (erase e.producer_id ps) (contains-erase_other p e.producer_id ps h)

pub contains-erase_all_last :
    (e : LogEntry) (es : List LogEntry) (ps : List ℕ)
    → contains e.producer_id (erase_all (es ++ e ∷ []) ps) ≡ false
unfolding erase_all
contains-erase_all_last e [] ps = contains-erase e.producer_id ps
contains-erase_all_last e (d ∷ es) ps = contains-erase_all_last e es (erase d.producer_id ps)

-- Append before its await, of requests that arrive one after another, each at its address.
abbrev pub append_all : (Bytes → Bytes) → List (ℕ × AppendReq) → Node → Node
append_all compute_md5_hash [] s = s
append_all compute_md5_hash ((a, q) ∷ rs) s =
    append_all compute_md5_hash rs (append compute_md5_hash a q s).0

-- A leader that does not take a request of the producer.
abbrev pub Pending : ℕ → Node → Type 0
Pending p s = (s.state ≡ leader) × (contains p s.pending_producers ≡ true)

contains-insert_other :
    (p q : ℕ) (qs : List ℕ) → contains p qs ≡ true → contains p (insert q qs) ≡ true
unfolding insert contains
contains-insert_other p q qs h = ground arith

contains-erase_differs :
    (p q : ℕ) (qs : List ℕ) → p ≢ q → contains p qs ≡ true → contains p (erase q qs) ≡ true
unfolding contains erase
contains-erase_differs p q [] d h = h
contains-erase_differs p q (x ∷ xs) d h = ground (arith, contains-erase_differs p q xs d)

pub append-Pending :
    (compute_md5_hash : Bytes → Bytes) (p a : ℕ) (q : AppendReq) (s : Node)
    → Pending p s
    → Pending p (append compute_md5_hash a q s).0
unfolding append
append-Pending compute_md5_hash p a q s (lead, h) =
    elim (Bool-cases (contains q.producer_id s.pending_producers)) [
      | inl parallel ↦ ground arith
      | inr idle ↦
          let differs : p ≢ q.producer_id =
            λ e. let again = ap (λ r. contains r s.pending_producers) e in cc in
          let kept = contains-insert_other p q.producer_id s.pending_producers h in
          let left =
            contains-erase_differs p q.producer_id (insert q.producer_id s.pending_producers)
              differs kept in
          ground arith
    ]

pub append_all-Pending :
    (compute_md5_hash : Bytes → Bytes) (p : ℕ) (rs : List (ℕ × AppendReq)) (s : Node)
    → Pending p s
    → Pending p (append_all compute_md5_hash rs s)
append_all-Pending compute_md5_hash p [] s h = h
append_all-Pending compute_md5_hash p ((a, q) ∷ rs) s h =
    append_all-Pending compute_md5_hash p rs (append compute_md5_hash a q s).0
      (append-Pending compute_md5_hash p a q s h)
