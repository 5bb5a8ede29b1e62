-- ===== src/Raft/Answered.antt =====
-- What UpdateCommitIndex of src/raft/node/node.cpp makes of the requests that wait: each that it commits
-- gets its result, no other is touched.
use metamorphosis.Raft.Messages.{LogEntry, Any}
use metamorphosis.Raft.Recording.{done_same}
use metamorphosis.Kv.Numbered.{numbered, get-log}
use metamorphosis.Prelude.{
  ℕ_discrete, ◌-◌, subst, length, drop, done, take, ◌+◌, get_elem?, List, ◌==◌, false, Option-cases,
  Bool-cases, inl, inr, get_elem?-some, >>=-eq-done, drop-get_elem?, arith, ◌≢◌, ◌≤◌, ◌≡◌, ◌<◌, ℕ,
  zero, suc, refl, true, some, sym, ◌∙◌, ap,
}
use metamorphosis.Kv.{get}
use metamorphosis.Kv.Lookup.{get-put}
use metamorphosis.Raft.Node.{Node, PendingRequest}
use metamorphosis.Raft.Commit.{commit_one-Applied}
use metamorphosis.Raft.Leading.{finish, commit_one, commit_range}
use metamorphosis.Raft.Machine.{Externals, ExactlyOnce, apply, replay}

-- The frame of a request that is done.
abbrev pub finished : Any → PendingRequest
finished result = record { replication_finished = true; result = result }

same_some : {A : Type 0} {a b : A} → some a ≡ some b → a ≡ b
same_some e = cc

-- No index in the range waits with the address; only the given one does.
abbrev pub Waitless : {M : Type 0} → Node M → ℕ → ℕ → ℕ → Type 0
Waitless s a low high = (k : ℕ) → low < k → k ≤ high → get k s.pending_requests ≢ some a

abbrev pub IsOnly : {M : Type 0} → Node M → ℕ → ℕ → ℕ → ℕ → Type 0
IsOnly s a k low high =
    (get k s.pending_requests ≡ some a)
    × ((j : ℕ) → low < j → j ≤ high → get j s.pending_requests ≡ some a → j ≡ k)

module _ {M : Type 0} (k : ℕ) (result : Any) (s : Node M) (a : ℕ) where
  finish_other :
      get k s.pending_requests ≢ some a → get a (finish k result s).frames ≡ get a s.frames
  unfolding finish
  finish_other d = elim (Option-cases (get k s.pending_requests)) [
    | inl e ↦ rw (finish, e) refl
    | inr (b, e) ↦
        let differs : (a == b) ≡ false = elim (Bool-cases (a == b)) [
          | inl same ↦ let eq : b ≡ a = ground arith in absurd (d (e ∙ ap some eq))
          | inr other ↦ other
        ] in
        elim (Option-cases (get b s.frames)) [
          | inl f ↦ rw (finish, e, f) refl
          | inr (p, f) ↦
              rw (finish, e, f) (get-put b a (finished result) s.frames ∙ rw differs refl)
        ]
  ]

  finish_own :
      (p : PendingRequest)
      → get k s.pending_requests ≡ some a
      → get a s.frames ≡ some p
      → get a (finish k result s).frames ≡ some (finished result)
  unfolding finish
  finish_own p e f =
      let same : (a == a) ≡ true = ground arith in
      rw (finish, e, f) (get-put a a (finished result) s.frames ∙ rw same refl)

module _ {M : Type 0} (x : Externals M) where
  commit_one-finish :
      (i : ℕ) (s t : Node M) (xs : List LogEntry) (e : LogEntry)
      → s.raft_log ≡ numbered 1 xs
      → get_elem? xs i ≡ some e
      → commit_one x (suc i) s ≡ done t
      → let (m, result) = apply x e.request s.rsm in
        t ≡ finish (suc i) result (record s { rsm = m })
  unfolding commit_one
  commit_one-finish i s t xs e log g ran =
      let found : get (suc i) s.raft_log ≡ some e = rw log (get-log i xs ∙ g) in
      done_same (sym ran ∙ rw found refl)

  -- The result of the entry that follows the first i ones, applied after them.
  abbrev pub result_of : ExactlyOnce M → List LogEntry → ℕ → LogEntry → Any
  result_of start xs i e = (apply x e.request (replay x (take i xs) start)).1

  result_later :
      (xs : List LogEntry) (i j : ℕ) (e d : LogEntry) (m : ExactlyOnce M)
      → get_elem? xs i ≡ some e
      → i < j
      → result_of m (drop i xs) (j - i) d
        ≡ result_of (apply x e.request m).0 (drop (suc i) xs) (j - suc i) d
  unfolding replay
  result_later xs i j e d m g l =
      let more : j - i ≡ suc (j - suc i) = omega arith in rw (drop-get_elem? i xs e g, more) refl

  pub commit_range_untouched :
      (n i : ℕ) (s u : Node M) (xs : List LogEntry) (a : ℕ)
      → s.raft_log ≡ numbered 1 xs
      → i + n ≤ length xs
      → commit_range x n (suc i) s ≡ done u
      → Waitless s a i (i + n)
      → get a u.frames ≡ get a s.frames
  unfolding commit_range
  commit_range_untouched zero i s u xs a log h ran w =
      ap (λ (q : Node M). get a q.frames) (sym (done_same ran))
  commit_range_untouched (suc n) i s u xs a log h ran w =
      let (e, g) = get_elem?-some xs i (omega arith) in
      let (t, one, p) = commit_one-Applied x i s xs e log g in
      let (t', one', rest) = >>=-eq-done (commit_one x (suc i) s) _ ran in
      let same : t' ≡ t = done_same (sym one' ∙ one) in
      let (m, result) = apply x e.request s.rsm in
      let first = commit_one-finish i s t xs e log g one in
      let untouched =
        ap (λ (q : Node M). get a q.frames) first
        ∙ finish_other (suc i) result (record s { rsm = m }) a
            (w (suc i) (omega arith) (omega arith)) in
      let rest' = subst (λ q. commit_range x n (suc (suc i)) q ≡ done u) same rest in
      commit_range_untouched n (suc i) t u xs a (p.log ∙ log) (omega arith) rest'
        (λ k low high q. w k (omega arith) (omega arith) (ap (get k) (sym p.pending_requests) ∙ q))
      ∙ untouched

  pub commit_range_answered :
      (n i : ℕ) (s u : Node M) (xs : List LogEntry) (j a : ℕ) (f : PendingRequest) (d : LogEntry)
      → s.raft_log ≡ numbered 1 xs
      → i + n ≤ length xs
      → commit_range x n (suc i) s ≡ done u
      → i ≤ j
      → j < i + n
      → IsOnly s a (suc j) i (i + n)
      → get a s.frames ≡ some f
      → get_elem? xs j ≡ some d
      → get a u.frames ≡ some (finished (result_of s.rsm (drop i xs) (j - i) d))
  unfolding commit_range replay
  commit_range_answered zero i s u xs j a f d log h ran low high only held entry =
      absurd (omega arith)
  commit_range_answered (suc n) i s u xs j a f d log h ran low high (waits, only) held entry =
      let (e, g) = get_elem?-some xs i (omega arith) in
      let (t, one, p) = commit_one-Applied x i s xs e log g in
      let (t', one', rest) = >>=-eq-done (commit_one x (suc i) s) _ ran in
      let same : t' ≡ t = done_same (sym one' ∙ one) in
      let (m, result) = apply x e.request s.rsm in
      let first = ap (λ (q : Node M). get a q.frames) (commit_one-finish i s t xs e log g one) in
      let rest' = subst (λ q. commit_range x n (suc (suc i)) q ≡ done u) same rest in
      let keeps = λ (k : ℕ) (q : get k t.pending_requests ≡ some a).
        ap (get k) (sym p.pending_requests) ∙ q in
      elim (ℕ_discrete i j) [
        | yes here ↦
            let entry_is : e ≡ d = same_some (sym g ∙ ap (get_elem? xs) here ∙ entry) in
            let zero_is : j - i ≡ 0 = omega arith in
            let own : result ≡ result_of s.rsm (drop i xs) (j - i) d =
              rw (zero_is, ← entry_is) refl in
            commit_range_untouched n (suc i) t u xs a (p.log ∙ log) (omega arith) rest' (λ k l r q.
              let eq = only k (omega arith) (omega arith) (keeps k q) in absurd (omega arith))
            ∙ first
            ∙ finish_own (suc i) result (record s { rsm = m }) a f
                (ap (λ v. get (suc v) s.pending_requests) here ∙ waits) held
            ∙ ap (λ r. some (finished r)) own
        | no later ↦
            let other : get (suc i) s.pending_requests ≢ some a =
              λ q. let eq = only (suc i) (omega arith) (omega arith) q in absurd (omega arith) in
            let still = first ∙ finish_other (suc i) result (record s { rsm = m }) a other ∙ held in
            commit_range_answered n (suc i) t u xs j a f d (p.log ∙ log) (omega arith) rest'
              (omega arith) (omega arith)
              (
                ap (get (suc j)) p.pending_requests ∙ waits,
                λ k l r q. only k (omega arith) (omega arith) (keeps k q),
              )
              still entry
            ∙ ap (λ q. some (finished (result_of q (drop (suc i) xs) (j - suc i) d))) p.rsm
            ∙ ap (λ r. some (finished r)) (sym (result_later xs i j e d s.rsm g (omega arith)))
      ]
