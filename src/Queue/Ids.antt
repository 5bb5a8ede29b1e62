-- ===== src/Queue/Ids.antt =====
-- The ids that src/queue/service.cpp gives to messages, across Trim and a restart.
use metamorphosis.Prelude.{
  ap, sym, subst, ◌∙◌, ◌∷◌, ◌^◌, ◌+◌, ◌%◌, ◌==◌, ltb, if◌then◌else◌, false, some, suc, arith, ◌≡◌,
  ◌≤◌, ◌<◌, ℕ, [], refl,
}
use metamorphosis.Kv.{Kv, seek_to_last}
use metamorphosis.Kv.Lookup.{From, get-put, get-delete_range, put-From, delete_range-From}
use metamorphosis.Kv.Below.{
  Below, put-Below, Below-mono, delete_range-Below, get_above, delete_range_all_keys,
  seek_to_last-Below, seek_to_last_bound,
}
use metamorphosis.Queue.{first_free, Message, QueueService, ok, no_data, start, append, read, trim}

-- The storage is in order, and all its ids lie below the next one, which uint64 holds.
pub record IsValid (q : QueueService) : Type 0 where
  pub order : From 0 q.kv_storage
  pub free : Below q.end_index q.kv_storage
  pub fits : q.end_index < 2 ^ 64

first_free-Below :
    (n : ℕ) (m : Kv Message)
    → From 0 m
    → Below n m
    → n < 2 ^ 64
    → Below (first_free (seek_to_last m)) m × (first_free (seek_to_last m) ≤ n)
unfolding seek_to_last
first_free-Below n [] f b h = (tt, omega arith)
first_free-Below n ((a, v) ∷ m) f b h =
    let (k, w, e, l, below) = seek_to_last-Below a v m f.1 in
    let bound = seek_to_last_bound n a v m b k w e in
    let next : (k + 1) % 2 ^ 64 ≡ suc k = omega arith in
    let value : first_free (seek_to_last ((a, v) ∷ m)) ≡ suc k = ap first_free e ∙ next in
    subst (λ x. Below x ((a, v) ∷ m) × (x ≤ n)) (sym value) (below, bound)

module _ (q : QueueService) (v : IsValid q) where
  append-read :
      (m : Message)
      → q.end_index + 1 < 2 ^ 64
      → (append false m q).1 ≡ some q.end_index
        × IsValid (append false m q).0
        × (read q.end_index q ≡ no_data)
        × ((j : ℕ) → read j (append false m q).0 ≡ (if j == q.end_index then ok m else read j q))
  unfolding append read
  append-read m fits =
      let n = q.end_index in
      let next : (n + 1) % 2 ^ 64 ≡ suc n = omega arith in
      (
        refl,
        record {
          order = put-From 0 n m q.kv_storage (omega arith) v.order;
          free = rw next (
              put-Below (suc n) n m q.kv_storage (omega arith)
                (Below-mono n (suc n) q.kv_storage (omega arith) v.free));
          fits = omega arith;
        },
        rw (get_above n n q.kv_storage v.free (omega arith)) refl,
        (λ j. ground (arith, get-put n j m q.kv_storage)),
      )

  trim-read :
      (id : ℕ)
      → IsValid (trim id q)
        × ((j : ℕ) → read j (trim id q) ≡ (if ltb j id then no_data else read j q))
  unfolding trim read
  trim-read id = (
    record {
      order = delete_range-From 0 0 id q.kv_storage v.order;
      free = delete_range-Below q.end_index 0 id q.kv_storage v.free;
      fits = v.fits;
    },
    (λ j. ground (arith, get-delete_range 0 id j q.kv_storage)),
  )

  -- Below the last id of uint64, an append gives an id at which nothing was stored; afterwards the
  -- message is read there, and every other id reads as before. After Trim the ids below the given one
  -- read as no data, the others as before. Both keep the queue valid.
  pub append-trim-read :
      (m : Message) (id : ℕ)
      → q.end_index + 1 < 2 ^ 64
      → ((append false m q).1 ≡ some q.end_index)
        × (read q.end_index q ≡ no_data)
        × IsValid (append false m q).0
        × IsValid (trim id q)
        × ((j : ℕ) → read j (append false m q).0 ≡ (if j == q.end_index then ok m else read j q))
        × ((j : ℕ) → read j (trim id q) ≡ (if ltb j id then no_data else read j q))
  append-trim-read m id fits =
      let (given, valid, new, reads) = append-read m fits in
      let (valid', reads') = trim-read id in (given, new, valid, valid', reads, reads')

  -- A restart keeps a valid queue in which every id reads as before, but the next id may fall; when
  -- everything was trimmed it falls to 0.
  pub start-IsValid :
      IsValid (start q.kv_storage)
      × ((start q.kv_storage).end_index ≤ q.end_index)
      × ((j : ℕ) → read j (start q.kv_storage) ≡ read j q)
      × ((start (trim q.end_index q).kv_storage).end_index ≡ 0)
  unfolding start trim read seek_to_last
  start-IsValid =
      let (b, l) = first_free-Below q.end_index q.kv_storage v.order v.free v.fits in
      let empty = delete_range_all_keys q.end_index q.kv_storage v.free in
      (
        record { order = v.order; free = b; fits = omega (arith, l, v.fits) },
        l,
        (λ j. refl),
        rw empty refl,
      )
