-- ===== src/Raft/Merging.antt =====
-- The log that AppendEntries of src/raft/node/node.cpp makes, where the logs are those of leaders.
use metamorphosis.Prelude.{
  get_elem?-drop, ℕ, zero, suc, ◌+◌, ◌-◌, ◌≤◌, ◌<◌, ◌≡◌, sym, ap, ◌∙◌, subst, some, List, length,
  get_elem?, take, drop, arith, dec_lt, get_elem?-append_left, get_elem?-append_right,
  get_elem?-some, get_elem?-take, length-take,
}
use metamorphosis.Raft.Messages.{LogEntry, AppendEntriesRequest}
use metamorphosis.Raft.Log.{Agrees, term_at}
use metamorphosis.Raft.Accepting.{kept, merged}
use metamorphosis.Raft.Appending.{term_of}
use metamorphosis.Raft.Traced.{Written, Same, IsTraced, IsPart, get_elem?-length, Agrees-get_elem?}

same_some : {A : Type 0} {a b : A} → some a ≡ some b → a ≡ b
same_some e = cc

module _ (r : AppendEntriesRequest) (c : ℕ) (xs : List LogEntry)
    (prev : r.prev_log_index ≤ length xs) (committed : c ≤ length xs) where
  abbrev k : ℕ
  k = kept r c

  size : length (take k xs) ≡ k
  size = omega (arith, length-take k xs)

  merged_kept : (i : ℕ) → i < k → get_elem? (merged r c xs) i ≡ get_elem? xs i
  merged_kept i l =
      get_elem?-append_left (take k xs) (drop (k - r.prev_log_index) r.entries) i
        (omega (arith, size))
      ∙ get_elem?-take k i xs l

  merged_new :
      (i : ℕ) → k ≤ i → get_elem? (merged r c xs) i ≡ get_elem? r.entries (i - r.prev_log_index)
  merged_new i l =
      let place : length (take k xs) + (i - k) ≡ i = omega (arith, size) in
      let at : (k - r.prev_log_index) + (i - k) ≡ i - r.prev_log_index = omega arith in
      ap (get_elem? (merged r c xs)) (sym place)
      ∙ get_elem?-append_right (take k xs) (drop (k - r.prev_log_index) r.entries) (i - k)
      ∙ get_elem?-drop (k - r.prev_log_index) (i - k) r.entries
      ∙ ap (get_elem? r.entries) at

module _ (led : ℕ → Type 0) (w : Written) (r : AppendEntriesRequest) (xs : List LogEntry)
    (traced : IsTraced led w xs) (writer : IsTraced led w (w r.term))
    (part : IsPart (w r.term) r) where
  -- A log that has the entry before the request has all that the leader wrote up to there.
  before_request :
      (p : ℕ)
      → p ≤ length xs
      → p ≤ length (w r.term)
      → term_of xs p ≡ term_of (w r.term) p
      → Same p xs (w r.term)
  before_request zero h l same i b = absurd (omega arith)
  before_request (suc q) h l same i b =
      let (e, g) = get_elem?-some xs q (omega arith) in
      let (d, f) = get_elem?-some (w r.term) q (omega arith) in
      let t : e.term ≡ d.term = sym (ap term_at g) ∙ same ∙ ap term_at f in
      (traced q e g).1 i b ∙ ap (λ u. get_elem? (w u) i) t ∙ sym ((writer q d f).1 i b)

  pub merged-IsTraced :
      (c : ℕ)
      → r.prev_log_index ≤ length xs
      → c ≤ length xs
      → term_of xs r.prev_log_index ≡ r.prev_log_term
      → Agrees c r.prev_log_index r.entries xs
      → IsTraced led w (merged r c xs)
  merged-IsTraced c prev committed same agrees j e g =
      let p = r.prev_log_index in
      let before = before_request p prev part.previous (same ∙ part.term) in
      elim (dec_lt j (kept r c)) [
        | yes old ↦
            let here : get_elem? xs j ≡ some e =
              sym (merged_kept r c xs prev committed j old) ∙ g in
            let (l, s) = traced j e here in
            (l, λ i b. merged_kept r c xs prev committed i (omega arith) ∙ s i b)
        | no new ↦
            let here : get_elem? r.entries (j - p) ≡ some e =
              sym (merged_new r c xs prev committed j (omega arith)) ∙ g in
            let inside = get_elem?-length r.entries (j - p) e here in
            let sent : (i : ℕ)
                → p ≤ i
                → i ≤ j
                → (d : LogEntry) × (get_elem? r.entries (i - p) ≡ some d)
                  × (get_elem? (w r.term) i ≡ some d) =
              λ i low high.
                let (d, f) = get_elem?-some r.entries (i - p) (omega arith) in
                let place : p + (i - p) ≡ i = omega arith in
                (d, f, ap (get_elem? (w r.term)) (sym place) ∙ part.entries (i - p) d f) in
            let (d, f, found) = sent j (omega arith) (omega arith) in
            let (l, s) = writer j d found in
            let equal : d ≡ e = same_some (sym f ∙ here) in
            let all : Same (suc j) (merged r c xs) (w r.term) = λ i b. elim (dec_lt i (kept r c)) [
              | yes kept_ ↦ elim (dec_lt i p) [
                | yes low ↦ merged_kept r c xs prev committed i kept_ ∙ before i low
                | no high ↦
                    let (a, h, q) = sent i (omega arith) (omega arith) in
                    let place : p + (i - p) ≡ i = omega arith in
                    let own = Agrees-get_elem? c p r.entries xs agrees (i - p) a h (omega arith) in
                    merged_kept r c xs prev committed i kept_ ∙ (rw place at own) ∙ sym q
              ]
              | no fresh ↦
                  let (a, h, q) = sent i (omega arith) (omega arith) in
                  merged_new r c xs prev committed i (omega arith) ∙ h ∙ sym q
            ] in
            (
              subst (λ v. led v.term) equal l,
              λ i b. all i b ∙ s i b ∙ ap (λ v. get_elem? (w v.term) i) equal,
            )
      ]
