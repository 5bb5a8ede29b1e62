-- ===== src/Raft/Writing.antt =====
-- The turns of a net of nodes of src/raft/node/node.cpp in which a leader writes, sends or is elected:
-- they keep what holds of the logs.
use metamorphosis.Raft.Log.{term_at}
use metamorphosis.Raft.Turns.{at-same, at-other}
use metamorphosis.Raft.Messages.{LogEntry}
use metamorphosis.Raft.Traced.{get_elem?-length, Same-append, IsTraced, Same, Written}
use metamorphosis.Prelude.{
  suc, get_elem?-append_right, ◌+◌, length-append, get_elem?-append_left, arith, some, get_elem?,
  sym, ◌∙◌, ap, subst, ℕ_discrete, [], ◌∷◌, length, List, ◌≡◌, ◌++◌, ◌≤◌, ℕ, refl, dec_lt,
}
use metamorphosis.Raft.Cluster.{at}

-- What a leader adds to what it has written.
module _ (led : ℕ → Type 0) (w : Written) (t : ℕ) (e : LogEntry) where
  abbrev pub longer : Written
  longer = at t (w t ++ e ∷ []) w

  pub longer_grows :
      (u : ℕ)
      → ((k : ℕ) → k ≤ length (w u) → Same k (w u) (longer u)) × (length (w u) ≤ length (longer u))
  longer_grows u = elim (ℕ_discrete u t) [
    | yes same ↦
        let grown : longer u ≡ w u ++ e ∷ [] =
          ap longer same ∙ at-same t (w t ++ e ∷ []) w ∙ ap (λ v. w v ++ e ∷ []) (sym same) in
        rw grown
          ((λ k b. Same-append k (w u) (e ∷ []) b), omega (arith, length-append (w u) (e ∷ [])))
    | no other ↦ rw (at-other t u (w t ++ e ∷ []) w other) ((λ k b i l. refl), omega arith)
  ]

  pub longer-IsTraced :
      e.term ≡ t
      → led t
      → ((xs : List LogEntry) → IsTraced led w xs → IsTraced led longer xs)
      → ((u : ℕ) → IsTraced led w (w u))
      → (u : ℕ) → IsTraced led longer (longer u)
  longer-IsTraced own leads grow writers u = elim (ℕ_discrete u t) [
    | no other ↦
        subst (IsTraced led longer) (sym (at-other t u (w t ++ e ∷ []) w other))
          (grow (w u) (writers u))
    | yes same ↦
        let here = at-same t (w t ++ e ∷ []) w in
        let grown : longer u ≡ w t ++ e ∷ [] = ap longer same ∙ here in
        subst (IsTraced led longer) (sym grown) (λ k a g. elim (dec_lt k (length (w t))) [
          | yes before ↦
              let found : get_elem? (w t) k ≡ some a =
                sym (get_elem?-append_left (w t) (e ∷ []) k before) ∙ g in
              let (l, s) = grow (w t) (writers t) k a found in
              (l, λ i b. get_elem?-append_left (w t) (e ∷ []) i (omega arith) ∙ s i b)
          | no last ↦
              let inside = get_elem?-length (w t ++ e ∷ []) k a g in
              let place : length (w t) + 0 ≡ k = omega (arith, length-append (w t) (e ∷ [])) in
              let added : some e ≡ some a =
                sym (get_elem?-append_right (w t) (e ∷ []) 0)
                ∙ ap (get_elem? (w t ++ e ∷ [])) place
                ∙ g in
              let term : t ≡ a.term = sym own ∙ ap term_at added in
              (
                subst led term leads,
                subst (λ v. Same (suc k) (w t ++ e ∷ []) (longer v)) term
                    (λ i b. ap (λ ys. get_elem? ys i) (sym here)),
              )
        ])
  ]
