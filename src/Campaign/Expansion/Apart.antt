-- ===== src/Campaign/Expansion/Apart.antt =====
-- Lists in which a number tells any two elements apart, as the loops of src/experiments/campaigns.py
-- build them.
use failure_prediction.Prelude.{
  ℕ, suc, ◌+◌, ◌≤◌, ◌<◌, List, [], ◌∷◌, ◌++◌, ◌≡◌, ◌≢◌, ap, arith, All, All-mono, All-append,
  length,
}
use failure_prediction.Campaign.Expansion.{for_each_indexed}

module _ {B : Type 0} (number : B → ℕ) where
  abbrev pub Apart : List B → Type 0
  Apart [] = Unit
  Apart (b ∷ bs) = All (λ c. number b ≢ number c) bs × Apart bs

  Apart-append :
      (bs cs : List B)
      → Apart bs
      → Apart cs
      → All (λ b. All (λ c. number b ≢ number c) cs) bs
      → Apart (bs ++ cs)
  Apart-append [] cs p q r = q
  Apart-append (b ∷ bs) cs (p, ps) q (r, rs) = (All-append _ bs cs p r, Apart-append bs cs ps q rs)

  module _ {A : Type 0} (Q : A → Type 0) (body : ℕ → A → List B) (bound : ℕ) where
    pub for_each_indexed-All :
        (P : B → Type 0)
        → ((i : ℕ) (x : A) → i < bound → Q x → All P (body i x))
        → (i : ℕ) (xs : List A) → All Q xs
        → i + length xs ≤ bound
        → All P (for_each_indexed i xs body)
    unfolding for_each_indexed
    for_each_indexed-All P h i [] q k = tt
    for_each_indexed-All P h i (x ∷ xs) (q, qs) k =
        All-append P (body i x) (for_each_indexed (suc i) xs body) (h i x (ground arith) q)
          (for_each_indexed-All P h (suc i) xs qs (ground arith))

    later_tags :
        (tag : ℕ → ℕ)
        → ((i : ℕ) (x : A) → i < bound → Q x → All (λ b. tag (number b) ≡ i) (body i x))
        → (i : ℕ) (xs : List A) → All Q xs
        → i + length xs ≤ bound
        → All (λ b. i ≤ tag (number b)) (for_each_indexed i xs body)
    unfolding for_each_indexed
    later_tags tag g i [] q k = tt
    later_tags tag g i (x ∷ xs) (q, qs) k =
        All-append _ (body i x) (for_each_indexed (suc i) xs body)
          (All-mono (λ b. tag (number b) ≡ i) (λ b. i ≤ tag (number b)) (λ b e. omega arith)
            (body i x) (g i x (ground arith) q))
          (All-mono (λ b. suc i ≤ tag (number b)) (λ b. i ≤ tag (number b)) (λ b l. omega arith)
            (for_each_indexed (suc i) xs body) (later_tags tag g (suc i) xs qs (ground arith)))

    -- Every element shows the index of its round.
    pub for_each_indexed-Apart :
        (tag : ℕ → ℕ)
        → ((i : ℕ) (x : A) → i < bound → Q x → Apart (body i x))
        → ((i : ℕ) (x : A) → i < bound → Q x → All (λ b. tag (number b) ≡ i) (body i x))
        → (i : ℕ) (xs : List A) → All Q xs
        → i + length xs ≤ bound
        → Apart (for_each_indexed i xs body)
    unfolding for_each_indexed
    for_each_indexed-Apart tag h g i [] q k = tt
    for_each_indexed-Apart tag h g i (x ∷ xs) (q, qs) k =
        let here = g i x (ground arith) q in
        let later = later_tags tag g (suc i) xs qs (ground arith) in
        Apart-append (body i x) (for_each_indexed (suc i) xs body) (h i x (ground arith) q)
          (for_each_indexed-Apart tag h g (suc i) xs qs (ground arith))
          (All-mono (λ b. tag (number b) ≡ i)
            (λ b. All (λ c. number b ≢ number c) (for_each_indexed (suc i) xs body))
            (λ b e.
              All-mono (λ c. suc i ≤ tag (number c)) (λ c. number b ≢ number c)
                (λ c l same. let q = ap tag same in omega arith) (for_each_indexed (suc i) xs body)
                later)
            (body i x) here)
