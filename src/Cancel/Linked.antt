-- ===== src/Cancel/Linked.antt =====
-- A callback of src/runtime/util/cancellation is linked into the list of its source, and unlinked.
use metamorphosis.Prelude.{
  subst, ℕ, sym, ap, ◌∙◌, ◌==◌, ◌≡◌, refl, true, false, if◌then◌else◌, Option, none, some, List, [],
  ◌∷◌, arith, ==_iff, inl, inr, Bool-cases,
}
use metamorphosis.Cancel.{StopState, Nodes, null_node, points_to, unlink, link, set_next, set_prev}
use metamorphosis.Cancel.Chain.{first, has, remove, Chain, AreDistinct, Chain-frame}
use metamorphosis.Cancel.Unlinking.{
  outside_member, unlink_nodes_self, unlink_nodes_elsewhere, unlink_nodes_null, Chain-unlink_nodes,
  self_lem, points_to-first,
}

-- The callbacks that are linked, the latest first; every other node has no neighbours.
pub record IsLinked (s : StopState) (xs : List ℕ) : Type 0 where
  pub head : s.callbacks ≡ first xs
  pub chain : Chain s.nodes none xs
  pub distinct : AreDistinct xs
  pub alone : (a : ℕ) → has a xs ≡ false → s.nodes a ≡ null_node

has-remove : (a b : ℕ) (xs : List ℕ) → has b xs ≡ false → has b (remove a xs) ≡ false
has-remove a b [] o = refl
has-remove a b (x ∷ xs) o = ground (arith, has-remove a b xs)

remove-AreDistinct : (a : ℕ) (xs : List ℕ) → AreDistinct xs → AreDistinct (remove a xs)
remove-AreDistinct a [] d = tt
remove-AreDistinct a (x ∷ xs) (o, d) = elim (Bool-cases (a == x)) [
  | inl here ↦ rw here d
  | inr there ↦ rw there (has-remove a x xs o, remove-AreDistinct a xs d)
]

pub remove_absent : (a : ℕ) (xs : List ℕ) → has a xs ≡ false → remove a xs ≡ xs
remove_absent a [] o = refl
remove_absent a (x ∷ xs) o = ground (arith, remove_absent a xs)

-- Of the linked nodes only those stay outside that were, and the one taken out.
has-remove_other : (a b : ℕ) (xs : List ℕ) → (b == a) ≡ false → has b (remove a xs) ≡ has b xs
has-remove_other a b [] d = refl
has-remove_other a b (x ∷ xs) d = ground (arith, has-remove_other a b xs)

head_of :
    (h : Nodes) (xs : List ℕ) (a : ℕ)
    → Chain h none xs
    → has a xs ≡ true
    → (if points_to (first xs) a then (h a).next else first xs) ≡ first (remove a xs)
head_of h [] a c m = cc
head_of h (x ∷ xs) a (p, n, c) m = elim (Bool-cases (a == x)) [
  | inl here ↦ let same : a ≡ x = (==_iff a x).0 here in rw here (rw same n)
  | inr there ↦ rw there refl
]

pub unlink-IsLinked :
    (s : StopState) (xs : List ℕ) (a : ℕ) → IsLinked s xs → IsLinked (unlink a s) (remove a xs)
unfolding unlink
unlink-IsLinked s xs a h = elim (Bool-cases (has a xs)) [
  | inl linked ↦ record {
    head = (rw h.head (head_of s.nodes xs a h.chain linked));
    chain = Chain-unlink_nodes s.nodes none xs a h.chain h.distinct tt linked;
    distinct = remove-AreDistinct a xs h.distinct;
    alone = λ b o. elim (Bool-cases (b == a)) [
      | inl same ↦ let e : b ≡ a = (==_iff b a).0 same in rw e (unlink_nodes_self a s.nodes)
      | inr other ↦
          (let o' : has b xs ≡ false = sym (has-remove_other a b xs other) ∙ o in
            unlink_nodes_elsewhere s.nodes xs a b h.chain h.distinct linked o' ∙ h.alone b o')
    ];
  }
  | inr alone ↦ record {
    head = (let no = points_to-first a xs alone in rw (h.head, no, remove_absent a xs alone) refl);
    chain = rw (remove_absent a xs alone) (
        Chain-frame s.nodes _ none xs (λ b m. unlink_nodes_null s.nodes a b (h.alone a alone))
          h.chain);
    distinct = remove-AreDistinct a xs h.distinct;
    alone = λ b o.
        unlink_nodes_null s.nodes a b (h.alone a alone)
        ∙ h.alone b (rw (remove_absent a xs alone) at o);
  }
]

link-Chain :
    (h : Nodes) (before : Option ℕ) (a : ℕ) (xs : List ℕ)
    → has a xs ≡ false
    → AreDistinct xs
    → Chain h before xs
    → Chain (set_next (some a) (first xs) (set_prev (first xs) (some a) h)) (some a) xs
link-Chain h before a [] o d c = tt
link-Chain h before a (x ∷ xs) o (out, d) (p, n, c) =
    let ne : (x == a) ≡ false = ground (arith, o) in
    (
      rw (ne, self_lem x) refl,
      rw (ne, self_lem x) n,
      Chain-frame h _ (some x) xs
          (λ b m.
            let later : (b == x) ≡ false = outside_member (some x) xs b out m in
            let o' : has a xs ≡ false = ground (arith, o) in
            let away : (b == a) ≡ false = outside_member (some a) xs b o' m in
            rw (away, later) refl)
          c,
    )

pub link-IsLinked :
    (s : StopState) (xs : List ℕ) (a : ℕ)
    → has a xs ≡ false
    → IsLinked s xs
    → IsLinked (link a s) (a ∷ xs)
unfolding link
link-IsLinked s xs a o h = record {
  head = refl;
  chain = (
    rw (h.head, self_lem a, points_to-first a xs o, h.alone a o) refl,
    rw (h.head, self_lem a) refl,
    subst (λ n. Chain n (some a) xs)
        (ap (λ q. set_next (some a) q (set_prev q (some a) s.nodes)) (sym h.head))
        (link-Chain s.nodes none a xs o h.distinct h.chain),
  );
  distinct = (o, h.distinct);
  alone = λ b out.
      (let ne : (b == a) ≡ false = ground (arith, out) in
        let o' : has b xs ≡ false = ground (arith, out) in
        rw (h.head, ne, points_to-first b xs o') (h.alone b o'));
}
