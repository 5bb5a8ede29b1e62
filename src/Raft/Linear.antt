-- ===== src/Raft/Linear.antt =====
-- What CheckLinearizability of src/raft/test/util/history_checker.cpp decides.
use metamorphosis.Prelude.{
  ◌⊎◌, ℕ, suc, ◌+◌, ◌<◌, ◌==◌, ltb, not, Bool, true, false, if◌then◌else◌, Option, none, some, List,
  [], ◌∷◌, Outcome, done, get_elem?, get_value, ◌≡◌, ◌↔◌, refl, sym, ap, ◌∙◌, take, drop, length,
  arith, ==_iff, >>=-eq-done, drop-get_elem?, drop-eq-cons,
}
use metamorphosis.Raft.History.{
  RequestInfo, Verdict, ok, not_appended, no_common_prefix, not_linearizable, back, are_appended,
  agrees, last_result, have_common_prefix, precedes, is_ordered, check_sorted,
  check_linearizability,
}

-- Each request has its command at the end of its result.
abbrev pub AreAppended : List RequestInfo → Type 0
AreAppended [] = Unit {0}
AreAppended (info ∷ history) = (back info.result ≡ done info.command) × AreAppended history

-- Each result but the last is a prefix of a log.
abbrev pub ArePrefixes : List ℕ → List RequestInfo → Type 0
ArePrefixes last [] = Unit {0}
ArePrefixes last (info ∷ []) = Unit {0}
ArePrefixes last (info ∷ other ∷ history) =
    (take (length info.result) last ≡ info.result) × ArePrefixes last (other ∷ history)

-- A request that was invoked after the completion of the one at `command_index` stands behind that.
abbrev pub IsBefore : RequestInfo → ℕ → List RequestInfo → ℕ → Type 0
IsBefore command command_index [] index = Unit {0}
IsBefore command command_index (other ∷ history) index =
    ((ltb command.completion_time other.invocation_time ≡ false) ⊎ (command_index < index))
    × IsBefore command command_index history (index + 1)

abbrev pub AreBefore : List RequestInfo → List RequestInfo → ℕ → Type 0
AreBefore history [] command_index = Unit {0}
AreBefore history (command ∷ rest) command_index =
    IsBefore command command_index history 0 × AreBefore history rest (command_index + 1)

-- A test, and then the rest of a loop.
and_then-true :
    (b : Bool) (m : Outcome Bool)
    → (if b then m else done false) ≡ done true
    → (b ≡ true) × (m ≡ done true)
and_then-true true m e = (refl, e)
and_then-true false m e = cc

get_value-done : {A : Type 0} (o : Option A) {a : A} → get_value o ≡ done a → o ≡ some a
get_value-done none e = cc
get_value-done (some b) e = cc

are_appended_lem : (h : List RequestInfo) → (are_appended h ≡ done true) ↔ AreAppended h
unfolding are_appended
are_appended_lem [] = (λ e. tt, λ u. refl)
are_appended_lem (info ∷ h) =
    let ih = are_appended_lem h in
    (
      λ e.
          let (v, b, t) = >>=-eq-done (back info.result) _ e in
          let (same, rest) = and_then-true (v == info.command) (are_appended h) t in
          (b ∙ ap done ((==_iff v info.command).0 same), ih.0 rest),
      λ (b, r). let same = (==_iff info.command info.command).1 refl in rw (b, same) (ih.1 r),
    )

agrees_take :
    (c : ℕ) (cs : List ℕ) (i : ℕ) (last : List ℕ)
    → agrees (c ∷ cs) i last ≡ done true
    → (get_elem? last i ≡ some c) × (agrees cs (suc i) last ≡ done true)
unfolding agrees
agrees_take c cs i last e =
    let (v, g, t) = >>=-eq-done (get_value (get_elem? last i)) _ e in
    let (same, rest) = and_then-true (c == v) (agrees cs (i + 1) last) t in
    let s : i + 1 ≡ suc i = omega arith in
    (get_value-done (get_elem? last i) g ∙ ap some (sym ((==_iff c v).0 same)), rw s at rest)

agrees_cons :
    (c : ℕ) (cs : List ℕ) (i : ℕ) (last : List ℕ)
    → get_elem? last i ≡ some c
    → agrees cs (suc i) last ≡ done true
    → agrees (c ∷ cs) i last ≡ done true
unfolding agrees
agrees_cons c cs i last g e =
    let s : i + 1 ≡ suc i = omega arith in let same = (==_iff c c).1 refl in rw (g, same, s) e

agrees_nil : (i : ℕ) (last : List ℕ) → agrees [] i last ≡ done true
unfolding agrees
agrees_nil i last = refl

take-cons :
    (i : ℕ) (last z : List ℕ)
    → drop i last ≡ z
    → (c : ℕ) (cs : List ℕ) (n : ℕ) → take (suc n) z ≡ c ∷ cs
    → (get_elem? last i ≡ some c) × (take n (drop (suc i) last) ≡ cs)
take-cons i last [] d c cs n e = cc
take-cons i last (y ∷ ys) d c cs n e =
    let (g, r) = drop-eq-cons i last y ys d in
    let same : y ≡ c = cc in let rest : take n ys ≡ cs = cc in (g ∙ ap some same, rw r rest)

agrees_lem :
    (cs : List ℕ) (i : ℕ) (last : List ℕ)
    → (agrees cs i last ≡ done true) ↔ (take (length cs) (drop i last) ≡ cs)
agrees_lem [] i last = (λ e. refl, λ e. agrees_nil i last)
agrees_lem (c ∷ cs) i last =
    let ih = agrees_lem cs (suc i) last in
    (
      λ e.
          let (g, r) = agrees_take c cs i last e in
          rw (drop-get_elem? i last c g) (ap (◌∷◌ c) (ih.0 r)),
      λ e.
          let (g, r) = take-cons i last (drop i last) refl c cs (length cs) e in
          agrees_cons c cs i last g (ih.1 r),
    )

have_common_prefix_lem :
    (last : List ℕ) (h : List RequestInfo)
    → (have_common_prefix last h ≡ done true) ↔ ArePrefixes last h
unfolding have_common_prefix
have_common_prefix_lem last [] = (λ e. tt, λ u. refl)
have_common_prefix_lem last (info ∷ []) = (λ e. tt, λ u. refl)
have_common_prefix_lem last (info ∷ other ∷ h) =
    let ih = have_common_prefix_lem last (other ∷ h) in
    let a = agrees_lem info.result 0 last in
    (
      λ e.
          let (v, b, t) = >>=-eq-done (agrees info.result 0 last) _ e in
          let (same, rest) = and_then-true v (have_common_prefix last (other ∷ h)) t in
          (a.0 (b ∙ ap done same), ih.0 rest),
      λ (p, r). rw (a.1 p) (ih.1 r),
    )

precedes_lem :
    (a : RequestInfo) (i : ℕ) (h : List RequestInfo) (j : ℕ)
    → (precedes a i h j ≡ true) ↔ IsBefore a i h j
unfolding precedes
precedes_lem a i [] j = (λ e. tt, λ u. refl)
precedes_lem a i (b ∷ h) j =
    let ih = precedes_lem a i h (j + 1) in
    (
      λ e. (ground (arith, e), ih.0 (ground (arith, e))),
      λ (p, q). let r = ih.1 q in ground (arith, p, r),
    )

is_ordered_lem :
    (h rest : List RequestInfo) (i : ℕ) → (is_ordered h rest i ≡ true) ↔ AreBefore h rest i
unfolding is_ordered
is_ordered_lem h [] i = (λ e. tt, λ u. refl)
is_ordered_lem h (a ∷ rest) i =
    let ih = is_ordered_lem h rest (i + 1) in
    let p = precedes_lem a i h 0 in
    (
      λ e. (p.0 (ground (arith, e)), ih.0 (ground (arith, e))),
      λ (x, y). let u = p.1 x in let v = ih.1 y in rw (u, v) refl,
    )

passes_appended :
    (x : Bool) (m : Outcome Verdict)
    → (if not x then done not_appended else m) ≡ done ok
    → (x ≡ true) × (m ≡ done ok)
passes_appended true m e = (refl, e)
passes_appended false m e = cc

passes_rest :
    (y z : Bool)
    → done (if not y then no_common_prefix else if z then ok else not_linearizable) ≡ done ok
    → (y ≡ true) × (z ≡ true)
passes_rest true true e = (refl, refl)
passes_rest true false e = cc
passes_rest false z e = cc

-- The check of a history accepts it if, in the order that the sort gives it, each request has its
-- command at the end of its result, each result is a prefix of the last one, and each request stands
-- behind those that completed before it was invoked; and only then.
pub check_linearizability-ok :
    (sort : List RequestInfo → List RequestInfo) (history : List RequestInfo)
    → (check_linearizability sort history ≡ done ok) ↔ (
        AreAppended (sort history)
        × ArePrefixes (last_result (sort history)) (sort history)
        × AreBefore (sort history) (sort history) 0)
unfolding check_linearizability check_sorted
check_linearizability-ok sort history =
    let h = sort history in
    let a = are_appended_lem h in
    let p = have_common_prefix_lem (last_result h) h in
    let o = is_ordered_lem h h 0 in
    (
      λ e.
          let (x, ax, t) = >>=-eq-done (are_appended h) _ e in
          let (tx, u) = passes_appended x _ t in
          let (y, py, w) = >>=-eq-done (have_common_prefix (last_result h) h) _ u in
          let (ty, tz) = passes_rest y (is_ordered h h 0) w in
          (a.0 (ax ∙ ap done tx), p.0 (py ∙ ap done ty), o.0 tz),
      λ (x, y, z). rw (a.1 x, p.1 y, o.1 z) refl,
    )
