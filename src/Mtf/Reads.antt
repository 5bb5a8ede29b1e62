-- ===== src/Mtf/Reads.antt =====
-- Read of src/metamorphosis/node/node.cpp: what a client sees of the log.
use metamorphosis.Prelude.{
  ap, ◌<◌, ◌≢◌, some, Option, lt→ltb, length-take, get_elem?-none, le→ltb, get_elem?-take,
  get_elem?-some, dec_lt, take, length, ◌≤◌, arith, [], ◌∷◌, refl, ◌∙◌, get_elem?, ◌≡◌, suc, List,
  ℕ, zero, none,
}
use metamorphosis.Kv.{get}
use metamorphosis.Kv.Numbered.{numbered, get-log}
use metamorphosis.Mtf.Messages.{full_message, hash_only, LogEntry, ReadReq, ReadRsp, not_found}
use metamorphosis.Mtf.Node.{Node}
use metamorphosis.Mtf.Appends.{read, read_entry}

abbrev shown : Option LogEntry → ReadRsp
shown none = not_found
shown (some e) = read_entry e

-- The answer at an offset of a list of entries, counted from 1; offset 0 is an error.
abbrev pub seen : ℕ → List LogEntry → Option ReadRsp
seen zero xs = none
seen (suc i) xs = some (shown (get_elem? xs i))

read_entry_full : (e : LogEntry) → e.content ≢ [] → read_entry e ≡ full_message e.content
read_entry_full e full = ground arith

read_entry_bare : (e : LogEntry) → e.content ≡ [] → read_entry e ≡ hash_only e.md5hash
read_entry_bare e bare = rw bare refl

get_zero : (i : ℕ) (xs : List LogEntry) → get 0 (numbered (suc i) xs) ≡ none
unfolding get
get_zero i [] = refl
get_zero i (x ∷ xs) = ground (arith, get_zero (suc i) xs)

module _ (s : Node) (xs : List LogEntry) (log : s.raft_log ≡ numbered 1 xs)
    (committed : s.commit_index ≤ length xs) where
  read_offset : (r : ReadReq) (o : ℕ) → r.offset ≡ o → read r s ≡ seen o (take s.commit_index xs)
  unfolding read
  read_offset r zero e = rw (log, e, get_zero 0 xs, le→ltb s.commit_index 0 (omega arith)) refl
  read_offset r (suc i) e = elim (dec_lt i s.commit_index) [
    | yes l ↦
        let (d, g) = get_elem?-some xs i (omega arith) in
        let found : get (suc i) s.raft_log ≡ some d = rw log (get-log i xs ∙ g) in
        let shows = get_elem?-take s.commit_index i xs l ∙ g in
        rw (e, le→ltb s.commit_index (suc i) l, found, shows) refl
    | no l ↦
        let cut : get_elem? (take s.commit_index xs) i ≡ none =
          get_elem?-none (take s.commit_index xs) i
            (omega (arith, length-take s.commit_index xs)) in
        rw (e, lt→ltb s.commit_index (suc i) (omega arith), cut) refl
  ]

  read_beyond : (r : ReadReq) → s.commit_index < r.offset → read r s ≡ some not_found
  unfolding read
  read_beyond r l = rw (lt→ltb s.commit_index r.offset l) refl

  -- Of a node whose log is `xs`, Read finds every committed entry, from offset 1 on: its data if the
  -- node has any, and else its hash. Nothing is found behind them, and offset 0 is an error.
  pub read-seen :
      (r : ReadReq)
      → (r.offset ≡ 0 → read r s ≡ none)
        × (s.commit_index < r.offset → read r s ≡ some not_found)
        × ((i : ℕ)
            → r.offset ≡ suc i
            → i < s.commit_index
            → (e : LogEntry) × (get_elem? xs i ≡ some e)
              × (e.content ≢ [] → read r s ≡ some (full_message e.content))
              × (e.content ≡ [] → read r s ≡ some (hash_only e.md5hash)))
  read-seen r = (
    read_offset r 0,
    read_beyond r,
    λ i o l.
        let (e, g) = get_elem?-some xs i (omega arith) in
        let shows = read_offset r (suc i) o in
        let found = get_elem?-take s.commit_index i xs l ∙ g in
        (
          e,
          g,
          λ full. shows ∙ ap (λ a. some (shown a)) found ∙ ap some (read_entry_full e full),
          λ bare. shows ∙ ap (λ a. some (shown a)) found ∙ ap some (read_entry_bare e bare),
        ),
  )
