-- ===== src/Cancel/Unlinking.antt =====
-- Unlink of src/runtime/util/cancellation/stop_callback.h, on a list of nodes linked both ways.
use metamorphosis.Prelude.{
  ℕ, sym, ap, ◌∙◌, ◌==◌, ◌≡◌, refl, true, false, if◌then◌else◌, Option, none, some, List, [], ◌∷◌,
  arith, ==_iff, inl, inr, Bool-cases,
}
use metamorphosis.Cancel.{Nodes, null_node, points_to, unlink_nodes}
use metamorphosis.Cancel.Chain.{
  first, has, remove, Chain, AreDistinct, IsOutside, Chain-frame, next_inside, prev_inside,
}

pub self_lem : (a : ℕ) → (a == a) ≡ true
self_lem a = ground arith

-- It does not point to itself.
abbrev pub IsLoopless : ℕ → Nodes → Type 0
IsLoopless a h = (points_to (h a).prev a ≡ false) × (points_to (h a).next a ≡ false)

pub unlink_nodes_self : (a : ℕ) (h : Nodes) → unlink_nodes a h a ≡ null_node
unfolding unlink_nodes
unlink_nodes_self a h = rw (self_lem a) refl

pub unlink_nodes_other :
    (a b : ℕ) (h : Nodes)
    → IsLoopless a h
    → (b == a) ≡ false
    → unlink_nodes a h b ≡ record {
      next = if points_to (h a).prev b then (h a).next else (h b).next;
      prev = if points_to (h a).next b then (h a).prev else (h b).prev;
    }
unfolding unlink_nodes
unlink_nodes_other a b h l d =
    rw (d, l.0)
      (elim (Bool-cases (points_to (h a).prev b)) [
        | inl p ↦ elim (Bool-cases (points_to (h a).next b)) [
          | inl n ↦ rw (p, n) refl
          | inr n ↦ rw (p, n) refl
        ]
        | inr p ↦ elim (Bool-cases (points_to (h a).next b)) [
          | inl n ↦ rw (p, n) refl
          | inr n ↦ rw (p, n) refl
        ]
      ])

points_to-inside : (o : Option ℕ) (b : ℕ) → points_to o b ≡ true → o ≡ some b
points_to-inside none b e = cc
points_to-inside (some c) b e = ap some (sym ((==_iff b c).0 e))

-- The neighbours of a member are members, or before the list; so no other node has changed.
member_neighbours :
    (h : Nodes) (before : Option ℕ) (xs : List ℕ) (a b : ℕ)
    → Chain h before xs
    → has a xs ≡ true
    → has b xs ≡ false
    → points_to before b ≡ false
    → (points_to (h a).prev b ≡ false) × (points_to (h a).next b ≡ false)
member_neighbours h before xs a b c m o d = (
  elim (Bool-cases (points_to (h a).prev b)) [
    | inl p ↦ elim (prev_inside h before xs a b c m (points_to-inside (h a).prev b p)) [
      | inl e ↦ (let z : true ≡ false = sym (ap (λ q. points_to q b) e ∙ self_lem b) ∙ d in cc)
      | inr i ↦ cc
    ]
    | inr p ↦ p
  ],
  elim (Bool-cases (points_to (h a).next b)) [
    | inl n ↦ let i = next_inside h before xs a b c m (points_to-inside (h a).next b n) in cc
    | inr n ↦ n
  ],
)

points_to-before :
    (before : Option ℕ) (x : ℕ) (xs : List ℕ)
    → IsOutside before (x ∷ xs)
    → points_to before x ≡ false
points_to-before none x xs o = refl
points_to-before (some b) x xs o = ground arith

pub points_to-first : (x : ℕ) (xs : List ℕ) → has x xs ≡ false → points_to (first xs) x ≡ false
points_to-first x [] o = refl
points_to-first x (y ∷ ys) o = ground arith

Chain-IsLoopless :
    (h : Nodes) (before : Option ℕ) (xs : List ℕ) (a : ℕ)
    → Chain h before xs
    → AreDistinct xs
    → IsOutside before xs
    → has a xs ≡ true
    → IsLoopless a h
Chain-IsLoopless h before [] a c d o m = cc
Chain-IsLoopless h before (x ∷ xs) a (p, n, c) (out, d) o m = elim (Bool-cases (a == x)) [
  | inl here ↦
      let same : a ≡ x = (==_iff a x).0 here in
      let no_prev : points_to (h x).prev x ≡ false = rw p (points_to-before before x xs o) in
      let no_next : points_to (h x).next x ≡ false = rw n (points_to-first x xs out) in
      rw same (no_prev, no_next)
  | inr there ↦ Chain-IsLoopless h (some x) xs a c d out (rw there at m)
]

unlink_nodes_same :
    (a b : ℕ) (h : Nodes)
    → IsLoopless a h
    → (b == a) ≡ false
    → points_to (h a).prev b ≡ false
    → points_to (h a).next b ≡ false
    → unlink_nodes a h b ≡ h b
unlink_nodes_same a b h l d p n = unlink_nodes_other a b h l d ∙ rw (p, n) refl

pub outside_member :
    (before : Option ℕ) (xs : List ℕ) (b : ℕ)
    → IsOutside before xs
    → has b xs ≡ true
    → points_to before b ≡ false
outside_member none xs b o m = refl
outside_member (some p) xs b o m = elim (Bool-cases (b == p)) [
  | inl same ↦ (let e : has b xs ≡ false = rw (sym ((==_iff b p).0 same)) at o in cc)
  | inr different ↦ different
]

-- The first node is taken out: the second takes its place.
Chain-unlink_first :
    (h : Nodes) (before : Option ℕ) (x : ℕ) (xs : List ℕ)
    → Chain h before (x ∷ xs)
    → AreDistinct (x ∷ xs)
    → IsOutside before (x ∷ xs)
    → Chain (unlink_nodes x h) before xs
Chain-unlink_first h before x [] c d o = tt
Chain-unlink_first h before x (y ∷ ys) (px, n, (py, ny, c)) (out, d) o =
    let l =
      Chain-IsLoopless h before (x ∷ y ∷ ys) x (px, n, (py, ny, c)) (out, d) o (ground arith) in
    let ne : (y == x) ≡ false = ground (arith, out) in
    let oth = unlink_nodes_other x y h l ne in
    let no : points_to before y ≡ false = outside_member before (x ∷ y ∷ ys) y o (ground arith) in
    (
      ap (λ v. v.prev) oth ∙ rw (n, self_lem y) px,
      ap (λ v. v.next) oth ∙ rw (px, no) ny,
      Chain-frame h (unlink_nodes x h) (some y) ys
          (λ b m.
            let away : (b == x) ≡ false =
              outside_member (some x) (y ∷ ys) b out (ground (arith, m)) in
            let later : (b == y) ≡ false = outside_member (some y) ys b d.0 m in
            let gone : points_to before b ≡ false =
              outside_member before (x ∷ y ∷ ys) b o (ground (arith, m)) in
            unlink_nodes_same x b h l away (rw px gone) (rw n later))
          c,
    )

next_not :
    (h : Nodes) (before : Option ℕ) (xs : List ℕ) (a b : ℕ)
    → Chain h before xs
    → has a xs ≡ true
    → has b xs ≡ false
    → points_to (h a).next b ≡ false
next_not h before xs a b c m o = elim (Bool-cases (points_to (h a).next b)) [
  | inl n ↦ let i = next_inside h before xs a b c m (points_to-inside (h a).next b n) in cc
  | inr n ↦ n
]

-- The node before a list points to the first that is left.
next_of :
    (h : Nodes) (x : ℕ) (xs : List ℕ) (a : ℕ)
    → Chain h (some x) xs
    → has a xs ≡ true
    → has x xs ≡ false
    → (h x).next ≡ first xs
    → (if points_to (h a).prev x then (h a).next else (h x).next) ≡ first (remove a xs)
next_of h x [] a c m o n = cc
next_of h x (y ∷ ys) a c m o n = elim (Bool-cases (a == y)) [
  | inl here ↦ let same : a ≡ y = (==_iff a y).0 here in rw (here, same, c.0, self_lem x) c.1
  | inr there ↦
      let no =
        member_neighbours h (some y) ys a x c.2 (rw there at m) (ground (arith, o))
          (ground (arith, o)) in
      rw (there, no.0) n
]

pub Chain-unlink_nodes :
    (h : Nodes) (before : Option ℕ) (xs : List ℕ) (a : ℕ)
    → Chain h before xs
    → AreDistinct xs
    → IsOutside before xs
    → has a xs ≡ true
    → Chain (unlink_nodes a h) before (remove a xs)
Chain-unlink_nodes h before [] a c d o m = tt
Chain-unlink_nodes h before (x ∷ xs) a c d o m = elim (Bool-cases (a == x)) [
  | inl here ↦
      rw here
        (let same : a ≡ x = (==_iff a x).0 here in rw same (Chain-unlink_first h before x xs c d o))
  | inr there ↦ rw there (
      let m' : has a xs ≡ true = rw there at m in
      let l = Chain-IsLoopless h before (x ∷ xs) a c d o m in
      let oth = unlink_nodes_other a x h l (ground (arith, there)) in
      (
        ap (λ v. v.prev) oth ∙ rw (next_not h (some x) xs a x c.2 m' d.0) c.0,
        ap (λ v. v.next) oth ∙ next_of h x xs a c.2 m' d.0 c.1,
        Chain-unlink_nodes h (some x) xs a c.2 d.1 d.0 m',
      ))
]

pub unlink_nodes_elsewhere :
    (h : Nodes) (xs : List ℕ) (a b : ℕ)
    → Chain h none xs
    → AreDistinct xs
    → has a xs ≡ true
    → has b xs ≡ false
    → unlink_nodes a h b ≡ h b
unlink_nodes_elsewhere h xs a b c d m o =
    let l = Chain-IsLoopless h none xs a c d tt m in
    let flipped : (a == b) ≡ false = outside_member (some b) xs a o m in
    let away : (b == a) ≡ false = ground (arith, flipped) in
    let (p, n) = member_neighbours h none xs a b c m o refl in unlink_nodes_same a b h l away p n

-- A node without neighbours is not in a list, and to unlink it changes nothing.
pub unlink_nodes_null : (h : Nodes) (a b : ℕ) → h a ≡ null_node → unlink_nodes a h b ≡ h b
unlink_nodes_null h a b e = elim (Bool-cases (b == a)) [
  | inl same ↦ let e' : b ≡ a = (==_iff b a).0 same in rw e' (unlink_nodes_self a h ∙ sym e)
  | inr other ↦ unlink_nodes_same a b h (rw e (refl, refl)) other (rw e refl) (rw e refl)
]
