-- ===== src/Cancel/Callbacks.antt =====
-- What StopCallback and StopSource of src/runtime/util/cancellation do to the list of callbacks.
use metamorphosis.Prelude.{
  subst, ℕ, suc, sym, ap, ◌∙◌, ◌==◌, ◌≡◌, refl, true, false, if◌then◌else◌, Option, none, some,
  List, [], ◌∷◌, ◌++◌, arith, ==_iff, inl, inr, Bool-cases, length, append_assoc, append-nil,
}
use metamorphosis.Cancel.{StopState, unlink, execute, link, register, run_callbacks, stop}
use metamorphosis.Cancel.Chain.{has, remove, AreDistinct}
use metamorphosis.Cancel.Unlinking.{self_lem}
use metamorphosis.Cancel.Linked.{IsLinked, remove_absent, link-IsLinked, unlink-IsLinked}

execute-IsLinked :
    (s : StopState) (xs : List ℕ) (a : ℕ) → IsLinked s xs → IsLinked (execute a s) (remove a xs)
unfolding execute
execute-IsLinked s xs a h =
    unlink-IsLinked (record s { executed = s.executed ++ a ∷ [] }) xs a
      (record { head = h.head; chain = h.chain; distinct = h.distinct; alone = h.alone })

has-remove_self : (b : ℕ) (xs : List ℕ) → AreDistinct xs → has b (remove b xs) ≡ false
has-remove_self b [] d = refl
has-remove_self b (x ∷ xs) (o, d) = elim (Bool-cases (b == x)) [
  | inl here ↦ let same : b ≡ x = (==_iff b x).0 here in rw here (rw same o)
  | inr there ↦ rw there (let r = has-remove_self b xs d in ground (arith, there, r))
]

execute_lem :
    (a : ℕ) (s : StopState)
    → ((execute a s).executed ≡ s.executed ++ a ∷ []) × ((execute a s).cancelled ≡ s.cancelled)
unfolding execute unlink
execute_lem a s = (refl, refl)

link_lem : (a : ℕ) (s : StopState) → (link a s).executed ≡ s.executed
unfolding link
link_lem a s = refl

run_callbacks-some :
    (n : ℕ) (s : StopState) (x : ℕ)
    → s.callbacks ≡ some x
    → run_callbacks (suc n) s ≡ run_callbacks n (execute x s)
unfolding run_callbacks
run_callbacks-some n s x e =
    ap
      (λ c. elim c as (λ _. Option StopState) [
        | none ↦ some s
        | some this ↦ run_callbacks n (execute this s)
      ])
      e

runs_all :
    (xs : List ℕ) (s : StopState)
    → IsLinked s xs
    → (s' : StopState) × (run_callbacks (suc (length xs)) s ≡ some s')
      × IsLinked s' []
      × (s'.executed ≡ s.executed ++ xs)
      × (s'.cancelled ≡ s.cancelled)
unfolding run_callbacks
runs_all [] s h = (s, rw h.head refl, h, sym (append-nil s.executed), refl)
runs_all (x ∷ xs) s h =
    let h' : IsLinked (execute x s) xs = rw (self_lem x) at (execute-IsLinked s (x ∷ xs) x h) in
    let (s', e, l, run, c) = runs_all xs (execute x s) h' in
    let (ran, kept) = execute_lem x s in
    (
      s',
      run_callbacks-some (suc (length xs)) s x h.head ∙ e,
      l,
      run ∙ rw ran (append_assoc s.executed (x ∷ []) xs),
      c ∙ kept,
    )

-- What is linked, and what has run, after the constructor of a callback.
abbrev pub registered : ℕ → StopState → List ℕ → List ℕ
registered a s xs = if s.cancelled then xs else a ∷ xs

twice :
    (s : StopState) (xs : List ℕ) (b : ℕ)
    → IsLinked s xs
    → IsLinked (unlink b (unlink b s)) (remove b xs)
twice s xs b h =
    let r = unlink-IsLinked (unlink b s) (remove b xs) b (unlink-IsLinked s xs b h) in
    rw (remove_absent b (remove b xs) (has-remove_self b xs h.distinct)) at r

callback_result :
    (s : StopState) (xs : List ℕ) (a b : ℕ)
    → IsLinked s xs
    → {t : StopState} {ys ran : List ℕ} → register a s ≡ t
    → registered a s xs ≡ ys
    → ran ≡ (if s.cancelled then s.executed ++ a ∷ [] else s.executed)
    → IsLinked t ys
    → t.executed ≡ ran
    → IsLinked (register a s) (registered a s xs)
      × ((register a s).executed ≡ (if s.cancelled then s.executed ++ a ∷ [] else s.executed))
      × IsLinked (unlink b (register a s)) (remove b (registered a s xs))
      × IsLinked (unlink b (unlink b s)) (remove b xs)
callback_result s xs a b h {t} {ys} e f g l ran =
    let r' : IsLinked t (registered a s xs) = subst (λ v. IsLinked t v) (sym f) l in
    let r : IsLinked (register a s) (registered a s xs) =
      subst (λ v. IsLinked v (registered a s xs)) (sym e) r' in
    (
      r,
      ap (λ v. v.executed) e ∙ ran ∙ g,
      unlink-IsLinked (register a s) (registered a s xs) b r,
      twice s xs b h,
    )

-- A new callback is linked before the others, or runs at once and is not linked if the source has
-- stopped; its destructor, then or later, takes just that callback out of the list, and once more
-- changes nothing that is linked.
pub callback-IsLinked :
    (s : StopState) (xs : List ℕ) (a b : ℕ)
    → IsLinked s xs
    → has a xs ≡ false
    → IsLinked (register a s) (registered a s xs)
      × ((register a s).executed ≡ (if s.cancelled then s.executed ++ a ∷ [] else s.executed))
      × IsLinked (unlink b (register a s)) (remove b (registered a s xs))
      × IsLinked (unlink b (unlink b s)) (remove b xs)
unfolding register
callback-IsLinked s xs a b h o = elim (Bool-cases s.cancelled) [
  | inl stopped ↦
      let r : IsLinked (execute a s) xs =
        rw (remove_absent a xs o) at (execute-IsLinked s xs a h) in
      let e : register a s ≡ execute a s = ap (λ c. if c then execute a s else link a s) stopped in
      let f : registered a s xs ≡ xs = ap (λ c. if c then xs else a ∷ xs) stopped in
      let g = ap (λ c. if c then s.executed ++ a ∷ [] else s.executed) stopped in
      callback_result s xs a b h e f (sym g) r (execute_lem a s).0
  | inr running ↦
      let e : register a s ≡ link a s = ap (λ c. if c then execute a s else link a s) running in
      let f : registered a s xs ≡ a ∷ xs = ap (λ c. if c then xs else a ∷ xs) running in
      let g = ap (λ c. if c then s.executed ++ a ∷ [] else s.executed) running in
      callback_result s xs a b h e f (sym g) (link-IsLinked s xs a o h) (link_lem a s)
]

-- Stop ends in as many rounds as there are callbacks and one: each has run once, the latest first, none
-- is linked any more, and the source counts as stopped.
pub stop_runs_all :
    (s : StopState) (xs : List ℕ)
    → IsLinked s xs
    → (s' : StopState) × (stop (suc (length xs)) s ≡ some s')
      × IsLinked s' []
      × (s'.executed ≡ s.executed ++ xs)
      × (s'.cancelled ≡ true)
unfolding stop
stop_runs_all s xs h =
    let t : StopState = record s { cancelled = true } in
    runs_all xs t
      (record { head = h.head; chain = h.chain; distinct = h.distinct; alone = h.alone })
