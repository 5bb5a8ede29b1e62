-- ===== src/Mtf/Counting.antt =====
-- The counters producer_next_sequence_id of src/metamorphosis/node/node.cpp against a log: each
-- holds the number of entries of its producer, modulo 2 ^ 64.
use metamorphosis.Prelude.{
  ℕ, ◌+◌, ◌%◌, ◌^◌, ◌-◌, ◌==◌, if◌then◌else◌, List, [], ◌∷◌, ◌++◌, ◌≡◌, ◌∙◌, ap, arith,
}
use metamorphosis.Kv.{Kv, put}
use metamorphosis.Kv.Lookup.{get-put}
use metamorphosis.Mtf.Messages.{LogEntry}
use metamorphosis.Mtf.Node.{counter, increment, increment_all, decrement, decrement_all}

-- The number of entries of a producer.
unfoldable pub count : ℕ → List LogEntry → ℕ
count p [] = 0
count p (e ∷ es) = (if p == e.producer_id then 1 else 0) + count p es

pub count-append : (p : ℕ) (xs ys : List LogEntry) → count p (xs ++ ys) ≡ count p xs + count p ys
unfolding count
count-append p [] ys = omega arith
count-append p (e ∷ xs) ys = omega (arith, count-append p xs ys)

-- Each counter holds the number that `f` gives, modulo 2 ^ 64.
abbrev pub Counted : Kv ℕ → (ℕ → ℕ) → Type 0
Counted m f = (p : ℕ) → counter p m ≡ f p % 2 ^ 64

counter-put : (p q n : ℕ) (m : Kv ℕ) → counter p (put q n m) ≡ (if p == q then n else counter p m)
counter-put p q n m = ground (arith, get-put q p n m)

up : (n : ℕ) → (n % 2 ^ 64 + 1) % 2 ^ 64 ≡ (1 + n) % 2 ^ 64
up n = omega arith

down : (n : ℕ) → ((1 + n) % 2 ^ 64 + (2 ^ 64 - 1)) % 2 ^ 64 ≡ n % 2 ^ 64
down n = omega arith

abbrev wrap : ℕ → ℕ
wrap n = n % 2 ^ 64

pub increment_all-counter :
    (p : ℕ) (es : List LogEntry) (m : Kv ℕ) (n : ℕ)
    → counter p m ≡ n % 2 ^ 64
    → counter p (increment_all es m) ≡ (n + count p es) % 2 ^ 64
unfolding increment_all increment count
increment_all-counter p [] m n h = h ∙ ap wrap (omega arith)
increment_all-counter p (e ∷ es) m n h =
    let q = e.producer_id in
    let k = (counter q m + 1) % 2 ^ 64 in
    let step : counter p (put q k m) ≡ ((if p == q then 1 else 0) + n) % 2 ^ 64 =
      ground (arith, counter-put p q k m, h, up n) in
    increment_all-counter p es (put q k m) ((if p == q then 1 else 0) + n) step
    ∙ ap wrap (omega arith)

pub increment_all-Counted :
    (es : List LogEntry) (m : Kv ℕ) (f : ℕ → ℕ)
    → Counted m f
    → Counted (increment_all es m) (λ p. f p + count p es)
increment_all-Counted es m f h p = increment_all-counter p es m (f p) (h p)

pub decrement_all-Counted :
    (es : List LogEntry) (m : Kv ℕ) (f : ℕ → ℕ)
    → Counted m (λ p. count p es + f p)
    → Counted (decrement_all es m) f
unfolding decrement_all decrement count
decrement_all-Counted [] m f h = λ p. h p ∙ ap wrap (omega arith)
decrement_all-Counted (e ∷ es) m f h =
    let q = e.producer_id in
    let n = (counter q m + (2 ^ 64 - 1)) % 2 ^ 64 in
    let step : Counted (put q n m) (λ r. count r es + f r) =
      λ r. ground (arith, counter-put r q n m, h r, h q, down (count q es + f q)) in
    decrement_all-Counted es (put q n m) f step
