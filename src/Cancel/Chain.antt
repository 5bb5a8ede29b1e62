-- ===== src/Cancel/Chain.antt =====
-- Lists of nodes of src/runtime/util/cancellation that are linked both ways.
use metamorphosis.Prelude.{
  ℕ, sym, ap, ◌∙◌, ◌==◌, ◌≡◌, Bool, true, false, if◌then◌else◌, Option, none, some, List, [], ◌∷◌,
  ◌||◌, arith, ==_iff, inl, inr, ◌⊎◌, Bool-cases,
}
use metamorphosis.Cancel.{Nodes}

abbrev pub first : List ℕ → Option ℕ
first [] = none
first (x ∷ xs) = some x

abbrev pub has : ℕ → List ℕ → Bool
has a [] = false
has a (x ∷ xs) = a == x || has a xs

abbrev pub remove : ℕ → List ℕ → List ℕ
remove a [] = []
remove a (x ∷ xs) = if a == x then xs else x ∷ remove a xs

-- The nodes of a list point to their neighbours, the first one back to `before`.
abbrev pub Chain : Nodes → Option ℕ → List ℕ → Type 0
Chain h before [] = Unit {0}
Chain h before (x ∷ xs) = ((h x).prev ≡ before) × ((h x).next ≡ first xs) × Chain h (some x) xs

abbrev pub AreDistinct : List ℕ → Type 0
AreDistinct [] = Unit {0}
AreDistinct (x ∷ xs) = (has x xs ≡ false) × AreDistinct xs

-- It is no member of the list.
abbrev pub IsOutside : Option ℕ → List ℕ → Type 0
IsOutside none xs = Unit {0}
IsOutside (some p) xs = has p xs ≡ false

pub Chain-frame :
    (h h' : Nodes) (before : Option ℕ) (xs : List ℕ)
    → ((a : ℕ) → has a xs ≡ true → h' a ≡ h a)
    → Chain h before xs
    → Chain h' before xs
Chain-frame h h' before [] same c = tt
Chain-frame h h' before (x ∷ xs) same (p, n, c) =
    let e : h' x ≡ h x = same x (ground arith) in
    (rw e p, rw e n, Chain-frame h h' (some x) xs (λ a m. same a (ground (arith, m))) c)

pub next_inside :
    (h : Nodes) (before : Option ℕ) (xs : List ℕ) (a b : ℕ)
    → Chain h before xs
    → has a xs ≡ true
    → (h a).next ≡ some b
    → has b xs ≡ true
next_inside h before [] a b c m e = cc
next_inside h before (x ∷ []) a b c m e =
    let q : a ≡ x = (==_iff a x).0 (ground (arith, m)) in
    let z : none ≡ some b = sym c.1 ∙ ap (λ v. (h v).next) (sym q) ∙ e in cc
next_inside h before (x ∷ y ∷ ys) a b (p, n, c) m e = elim (Bool-cases (a == x)) [
  | inl here ↦
      let same : a ≡ x = (==_iff a x).0 here in
      let z : some y ≡ some b = sym n ∙ ap (λ v. (h v).next) (sym same) ∙ e in
      let r : b ≡ y = cc in ground (arith, r)
  | inr there ↦ let r = next_inside h (some x) (y ∷ ys) a b c (rw there at m) e in ground (arith, r)
]

pub prev_inside :
    (h : Nodes) (before : Option ℕ) (xs : List ℕ) (a b : ℕ)
    → Chain h before xs
    → has a xs ≡ true
    → (h a).prev ≡ some b
    → (before ≡ some b) ⊎ (has b xs ≡ true)
prev_inside h before [] a b c m e = cc
prev_inside h before (x ∷ xs) a b (p, n, c) m e = elim (Bool-cases (a == x)) [
  | inl here ↦ inl (sym p ∙ ap (λ v. (h v).prev) (sym ((==_iff a x).0 here)) ∙ e)
  | inr there ↦ elim (prev_inside h (some x) xs a b c (rw there at m) e) [
    | inl q ↦ inr (let r : b ≡ x = cc in ground (arith, r))
    | inr q ↦ inr (ground (arith, q))
  ]
]
