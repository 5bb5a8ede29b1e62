-- ===== src/Store/Claims.antt =====
-- Open of src/runtime/simulator/database.cpp: what it leaves of the host.
use metamorphosis.Prelude.{
  ◌∙◌, sym, ◌<◌, ◌↔◌, ap, if◌then◌else◌, ◌==◌, leb, ◌≤◌, ◌≡◌, refl, true, false, [], ◌∷◌, Option,
  none, some, done, arith, inl, inr, Bool-cases, ==_iff, ◌⊎◌,
}
use metamorphosis.Store.Serde.{Data}
use metamorphosis.Store.Database.{Map}
use metamorphosis.Store.Open.{
  HostDatabase, Host, Options, Opened, opened, failed, internal, invalid_argument, same_string,
  claim, open_found, open_database, open_storage,
}

same_string_refl : (s : Data) → same_string s s ≡ true
unfolding same_string
same_string_refl [] = refl
same_string_refl (x ∷ xs) =
    let e : (x == x) ≡ true = ground arith in rw (e, same_string_refl xs) refl

-- No database of a host was last opened by a later run than the present one.
abbrev pub IsHost : Host → Type 0
IsHost h = (path : Data) (d : HostDatabase) → h.databases path ≡ some d → d.epoch ≤ h.epoch

same_string-eq : (s t : Data) → same_string s t ≡ true → s ≡ t
unfolding same_string
same_string-eq [] [] h = refl
same_string-eq [] (y ∷ ys) h = cc
same_string-eq (x ∷ xs) [] h = cc
same_string-eq (x ∷ xs) (y ∷ ys) h = elim (Bool-cases (x == y)) [
  | inl q ↦ let r = same_string-eq xs ys (rw q at h) in let e = (==_iff x y).0 q in rw (e, r) refl
  | inr n ↦ let z : false ≡ true = rw n at h in cc
]

-- What a host keeps of the database at a path, but for when it was opened.
abbrev pub contents : Option HostDatabase → Option (Data × Map)
contents none = none
contents (some d) = some (d.comparator_name, d.entries)

-- Whether its present run of the host has opened it.
abbrev pub IsClaimed : Host → Data → Type 0
IsClaimed h path = (d : HostDatabase) × (h.databases path ≡ some d) × (d.epoch ≡ h.epoch)

pub claimed_open :
    (h : Host) (path name : Data) (o : Options)
    → IsClaimed h path
    → o.comparator ≡ none
    → open_storage path name o h ≡ done (h, failed internal)
unfolding open_storage open_database open_found
claimed_open h path name o (d, e, same) c =
    let l : leb d.epoch h.epoch ≡ true = ground arith in
    let q : (d.epoch == h.epoch) ≡ true = ground arith in rw (c, e, l, q) refl

claim-IsClaimed :
    (path name : Data) (d : HostDatabase) (h : Host) → IsClaimed (claim path name d h).0 path
unfolding claim
claim-IsClaimed path name d h = rw (same_string_refl path) (_, refl, refl)

-- A missing database that may be created, or one that an earlier run opened with this comparator.
abbrev pub CanOpen : Host → Data → Data → Options → Type 0
CanOpen h path name o =
    ((h.databases path ≡ none) × (o.create_if_missing ≡ true))
    ⊎ ((d : HostDatabase) × (h.databases path ≡ some d)
        × (d.epoch < h.epoch)
        × (name ≡ d.comparator_name))

-- One Open at a path: what holds of the host `h'` and the result `r` that it ends with.
pub record IsOpening (h : Host) (path : Data) (h' : Host) (r : Opened) : Type 0 where
  pub host : IsHost h'
  pub ends :
      (IsClaimed h' path) ⊎ ((h.databases path ≡ none) × (h' ≡ h) × (r ≡ failed invalid_argument))
  pub kept :
      (h.databases path ≡ none) ⊎ (contents (h'.databases path) ≡ contents (h.databases path))
  pub others :
      (other : Data)
      → h'.databases other
        ≡ (if same_string other path then h'.databases path else h.databases other)

pub same_some : {A : Type 0} {a b : A} → some a ≡ some b → a ≡ b
same_some e = cc

claim-IsHost :
    (path name : Data) (d : HostDatabase) (h : Host) → IsHost h → IsHost (claim path name d h).0
unfolding claim
claim-IsHost path name d h i other e same = elim (Bool-cases (same_string other path)) [
  | inl yes_path ↦
      let q : record d { epoch = h.epoch } ≡ e = same_some (rw yes_path at same) in
      omega (arith, ap (λ x. x.epoch) q)
  | inr no_path ↦ i other e (rw no_path at same)
]

pub claim-IsOpening :
    (path name : Data) (d : HostDatabase) (h : Host)
    → IsHost h
    → (h.databases path ≡ none) ⊎ (h.databases path ≡ some d)
    → IsOpening h path (claim path name d h).0 (claim path name d h).1
unfolding claim
claim-IsOpening path name d h i e = record {
  host = claim-IsHost path name d h i;
  ends = inl (claim-IsClaimed path name d h);
  kept = elim e [
    | inl missing ↦ inl missing
    | inr found ↦ inr (rw (same_string_refl path, found) refl)
  ];
  others = λ other. rw (same_string_refl path) refl;
}

pub refused-IsOpening :
    (path : Data) (h : Host) (r : Opened)
    → IsHost h
    → (IsClaimed h path) ⊎ ((h.databases path ≡ none) × (h ≡ h) × (r ≡ failed invalid_argument))
    → IsOpening h path h r
refused-IsOpening path h r i e = record {
  host = i;
  ends = e;
  kept = inr refl;
  others = λ other. elim (Bool-cases (same_string other path)) [
    | inl same ↦ rw (same, same_string-eq other path same) refl
    | inr different ↦ rw different refl
  ];
}

pub claim-opens :
    (path name : Data) (d : HostDatabase) (h : Host)
    → ((claim path name d h).1 ≡ opened path) ↔ (name ≡ d.comparator_name)
unfolding claim
claim-opens path name d h = elim (Bool-cases (same_string name d.comparator_name)) [
  | inl same ↦ (λ q. same_string-eq name d.comparator_name same, λ e. rw same refl)
  | inr different ↦
      let f : (name ≡ d.comparator_name) → false ≡ true =
        λ e. sym different ∙ ap (same_string name) (sym e) ∙ same_string_refl name in
      (
        λ q. let z : failed invalid_argument ≡ opened path = rw different at q in cc,
        λ e. let z = f e in cc,
      )
]
