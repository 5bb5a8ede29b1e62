-- ===== src/Store/Once.antt =====
-- Open of src/runtime/simulator/database.cpp: a database is opened once by each run of its host.
use metamorphosis.Prelude.{
  ◌∙◌, sym, ◌<◌, ◌↔◌, ap, Option-cases, ◌==◌, leb, ◌≡◌, refl, true, [], none, some, done, arith,
  inl, inr, Bool-cases, ==_iff, ◌⊎◌,
}
use metamorphosis.Store.Serde.{Data}
use metamorphosis.Store.Open.{
  HostDatabase, Host, Options, Opened, opened, failed, internal, invalid_argument, claim,
  open_found, open_database, open_storage,
}
use metamorphosis.Store.Claims.{
  IsHost, claimed_open, claim-IsOpening, IsOpening, refused-IsOpening, same_some, claim-opens,
  CanOpen,
}

abbrev Opening : Host → Data → Data → Options → Type 0
Opening h path name o =
    (h' : Host) × (r : Opened) × (open_storage path name o h ≡ done (h', r))
    × IsOpening h path h' r
    × ((r ≡ opened path) ↔ CanOpen h path name o)

create-Opening :
    (h : Host) (path name : Data) (o : Options)
    → IsHost h
    → o.comparator ≡ none
    → h.databases path ≡ none
    → Opening h path name o
unfolding open_storage open_database open_found
create-Opening h path name o i c e = elim (Bool-cases o.create_if_missing) [
  | inl create ↦
      let d : HostDatabase = record { comparator_name = name; entries = []; epoch = 0 } in
      (
        (claim path name d h).0,
        (claim path name d h).1,
        rw (c, e, create) refl,
        claim-IsOpening path name d h i (inl e),
        (λ q. inl (e, create), λ can. (claim-opens path name d h).1 refl),
      )
  | inr missing ↦ (
    h,
    failed invalid_argument,
    rw (c, e, missing) refl,
    refused-IsOpening path h _ i (inr (e, refl, refl)),
    (λ q. cc, λ can. elim can [ inl (n, t) ↦ cc | inr (d, f, _, _) ↦ cc ]),
  )
]

found-Opening :
    (h : Host) (path name : Data) (o : Options) (d : HostDatabase)
    → IsHost h
    → o.comparator ≡ none
    → h.databases path ≡ some d
    → Opening h path name o
unfolding open_storage open_database open_found
found-Opening h path name o d i c e =
    let l : leb d.epoch h.epoch ≡ true = ground (arith, i path d e) in
    elim (Bool-cases (d.epoch == h.epoch)) [
      | inl again ↦ (
        h,
        failed internal,
        rw (c, e, l, again) refl,
        refused-IsOpening path h _ i (inl (d, e, (==_iff d.epoch h.epoch).0 again)),
        (
          λ q. cc,
          λ can. elim can [
            | inl (n, t) ↦ cc
            | inr (d', f, l', same) ↦ absurd (
                let q : d' ≡ d = same_some (sym f ∙ e) in
                let z : d'.epoch ≡ d.epoch = ap (λ x. x.epoch) q in
                omega (arith, (==_iff d.epoch h.epoch).0 again))
          ],
        ),
      )
      | inr later ↦ (
        (claim path name d h).0,
        (claim path name d h).1,
        rw (c, e, l, later) refl,
        claim-IsOpening path name d h i (inr e),
        (
          λ q.
              let t : d.epoch < h.epoch = ground (arith, i path d e) in
              inr (d, e, t, (claim-opens path name d h).0 q),
          λ can. elim can [
            | inl (n, t) ↦ cc
            | inr (d', f, l', same) ↦
                (let q : d' ≡ d = same_some (sym f ∙ e) in
                  (claim-opens path name d h).1 (same ∙ ap (λ x. x.comparator_name) q))
          ],
        ),
      )
    ]

opening :
    (h : Host) (path name : Data) (o : Options)
    → IsHost h
    → o.comparator ≡ none
    → Opening h path name o
opening h path name o i c = elim (Option-cases (h.databases path)) [
  | inl missing ↦ create-Opening h path name o i c missing
  | inr (d, found) ↦ found-Opening h path name o d i c found
]

-- An Open without a comparator of the user ends without an abort, and keeps what the databases of the
-- host hold; it succeeds if the database is missing and may be created, or an earlier run opened it
-- with this comparator, and only then. A second one at its path in the same run fails with an internal
-- error and changes nothing, whatever the first gave, unless that did not create a missing database.
pub open_once :
    (h : Host) (path name name' : Data) (o o' : Options)
    → IsHost h
    → o.comparator ≡ none
    → o'.comparator ≡ none
    → (h' : Host) × (r : Opened) × (open_storage path name o h ≡ done (h', r))
      × IsOpening h path h' r
      × ((r ≡ opened path) ↔ CanOpen h path name o)
      × ((open_storage path name' o' h' ≡ done (h', failed internal))
          ⊎ ((h.databases path ≡ none) × (h' ≡ h) × (r ≡ failed invalid_argument)))
open_once h path name name' o o' i c c' =
    let (h', r, e, f, g) = opening h path name o i c in
    (
      h',
      r,
      e,
      f,
      g,
      elim f.ends [
        | inl claimed ↦ inl (claimed_open h' path name' o' claimed c')
        | inr missing ↦ inr missing
      ],
    )
