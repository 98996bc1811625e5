-- ===== src/Dispatch/Queue/Counting.antt =====
-- Membership, removal and appending on the key lists of the queue, by counting.
use failure_prediction.Prelude.{
  ℕ, suc, ◌+◌, ◌<◌, ◌≡◌, refl, true, false, List, [], ◌∷◌, ◌++◌, arith, ◌==◌, if◌then◌else◌,
}
use failure_prediction.Dispatch.Queue.{Row, mem, attempted_keys, discard}

abbrev pub count : ℕ → List ℕ → ℕ
count k [] = 0
count k (x ∷ xs) = let rest = count k xs in if k == x then suc rest else rest

pub count_zero : (k : ℕ) (xs : List ℕ) → mem k xs ≡ false → count k xs ≡ 0
count_zero k [] h = refl
count_zero k (x ∷ xs) h = ground (arith, count_zero k xs)

pub count_pos : (k : ℕ) (xs : List ℕ) → mem k xs ≡ true → 0 < count k xs
count_pos k [] h = cc
count_pos k (x ∷ xs) h = ground (arith, count_pos k xs)

pub count-discard :
    (j k : ℕ) (xs : List ℕ) → count j (discard k xs) ≡ (if j == k then 0 else count j xs)
count-discard j k [] = ground arith
count-discard j k (x ∷ xs) = ground (arith, count-discard j k xs)

pub count-append : (k : ℕ) (xs ys : List ℕ) → count k (xs ++ ys) ≡ count k xs + count k ys
count-append k [] ys = omega arith
count-append k (x ∷ xs) ys = ground (arith, count-append k xs ys)

pub count-attempted_keys :
    (k : ℕ) (rs : List Row) (r : Row)
    → count k (attempted_keys (rs ++ r ∷ []))
      ≡ count k (attempted_keys rs) + (if k == r.episode_key then 1 else 0)
count-attempted_keys k [] r = ground arith
count-attempted_keys k (q ∷ rs) r = ground (arith, count-attempted_keys k rs r)
