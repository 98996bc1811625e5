-- ===== src/Alarm/Selection/Best.antt =====
-- The ranking of candidates, and its maximum (src/evaluation/policy.py).
use native.Mathlib.Nat.{mul-le-mul_right, le_of_mul-le-mul_right}
use failure_prediction.Prelude.{
  ℕ, suc, ◌*◌, ◌≤◌, true, false, not, Option, none, some, List, [], ◌∷◌, ◌≡◌, inl, inr, refl, arith,
  All, Among, if_either, ◌&&◌,
}
use failure_prediction.Alarm.Selection.{
  Candidate, recall, less_recall, same_recall, outranked, tied, ranks_below, max_from,
}

-- a / m ≥ b / n and b / n ≥ c / k
fractions_trans :
    (a m b n c k : ℕ) → b * suc m ≤ a * suc n → c * suc n ≤ b * suc k → c * suc m ≤ a * suc k
fractions_trans a m b n c k p q =
    let left = mul-le-mul_right (suc k) p in
    let right = mul-le-mul_right (suc m) q in
    let both : c * suc m * suc n ≤ a * suc k * suc n = grind arith in
    le_of_mul-le-mul_right both (omega arith)

less_recall_trans :
    (x y z : Option (ℕ × ℕ))
    → less_recall x y ≡ false
    → less_recall y z ≡ false
    → less_recall x z ≡ false
unfolding less_recall
less_recall_trans none none z h k = k
less_recall_trans none (some y) z h k = ground arith
less_recall_trans (some x) y none h k = refl
less_recall_trans (some x) none (some z) h k = ground arith
less_recall_trans (some (a, m)) (some (b, n)) (some (c, k)) p q =
    ground (arith, fractions_trans a m b n c k)

same_recall-less :
    (x y : Option (ℕ × ℕ)) → same_recall x y ≡ (not (less_recall x y) && not (less_recall y x))
unfolding less_recall same_recall
same_recall-less none none = refl
same_recall-less none (some y) = refl
same_recall-less (some x) none = refl
same_recall-less (some (a, m)) (some (b, n)) = ground arith

less_recall_asym : (x y : Option (ℕ × ℕ)) → less_recall x y ≡ true → less_recall y x ≡ false
unfolding less_recall
less_recall_asym none none h = refl
less_recall_asym none (some y) h = refl
less_recall_asym (some x) none h = ground arith
less_recall_asym (some (a, m)) (some (b, n)) h = ground arith

module _ (c d e : Candidate) where
  ranks_below_trans : ranks_below c d ≡ false → ranks_below d e ≡ false → ranks_below c e ≡ false
  unfolding ranks_below outranked tied
  ranks_below_trans h k = ground (
    arith,
    less_recall_trans (recall c) (recall d) (recall e),
    less_recall_trans (recall e) (recall c) (recall d),
    less_recall_trans (recall d) (recall e) (recall c),
    same_recall-less (recall c) (recall d),
    same_recall-less (recall d) (recall e),
    same_recall-less (recall c) (recall e),
  )

less_recall_irrefl : (x : Option (ℕ × ℕ)) → less_recall x x ≡ false
unfolding less_recall
less_recall_irrefl none = refl
less_recall_irrefl (some (a, m)) = ground arith

ranks_below_irrefl : (c : Candidate) → ranks_below c c ≡ false
unfolding ranks_below outranked tied
ranks_below_irrefl c =
    ground (arith, less_recall_irrefl (recall c), same_recall-less (recall c) (recall c))

ranks_below_asym : (c d : Candidate) → ranks_below c d ≡ true → ranks_below d c ≡ false
unfolding ranks_below outranked tied
ranks_below_asym c d h = ground (
  arith,
  less_recall_asym (recall c) (recall d),
  same_recall-less (recall c) (recall d),
  same_recall-less (recall d) (recall c),
)

pub max_from-Among : (best : Candidate) (cs : List Candidate) → Among (max_from best cs) (best ∷ cs)
unfolding max_from
max_from-Among best [] = inl refl
max_from-Among best (c ∷ cs) =
    if_either (λ b. Among (max_from b cs) (best ∷ c ∷ cs)) (ranks_below best c)
      (λ _. inr (max_from-Among c cs))
      (λ _. elim (max_from-Among best cs) [ inl e ↦ inl e | inr w ↦ inr (inr w) ])

pub max_from-best :
    (best : Candidate) (cs : List Candidate)
    → All (λ x. ranks_below (max_from best cs) x ≡ false) (best ∷ cs)
unfolding max_from
max_from-best best [] = (ranks_below_irrefl best, tt)
max_from-best best (c ∷ cs) =
    if_either (λ b. All (λ x. ranks_below (max_from b cs) x ≡ false) (best ∷ c ∷ cs))
      (ranks_below best c)
      (λ e.
        let (first, rest) = max_from-best c cs in
        (ranks_below_trans (max_from c cs) c best first (ranks_below_asym best c e), (first, rest)))
      (λ e.
        let (first, rest) = max_from-best best cs in
        (first, (ranks_below_trans (max_from best cs) best c first e, rest)))

pub outranked-ranks_below : (c d : Candidate) → ranks_below c d ≡ false → outranked c d ≡ false
unfolding ranks_below
outranked-ranks_below c d h = ground arith
