-- ===== src/Campaign/Pairing/Ordered.antt =====
-- The order of execution (src/experiments/campaigns.py).
use failure_prediction.Prelude.{ℕ, List, [], ◌∷◌, ◌≢◌, inl, inr, refl, sym, All, Among, if_either}
use failure_prediction.Campaign.Expansion.{Episode}
use failure_prediction.Campaign.Expansion.Apart.{Apart}
use failure_prediction.Campaign.Pairing.{parts_before, insert, sorted}

insert-All :
    (P : Episode → Type 0) (e : Episode) (xs : List Episode) → P e → All P xs → All P (insert e xs)
unfolding insert
insert-All P e [] p ps = (p, tt)
insert-All P e (x ∷ xs) p (q, qs) =
    if_either (All P) (parts_before x e) (λ _. (q, insert-All P e xs p qs)) (λ _. (p, (q, qs)))

pub sorted-All : (P : Episode → Type 0) (es : List Episode) → All P es → All P (sorted es)
unfolding sorted
sorted-All P [] h = tt
sorted-All P (e ∷ es) (p, ps) = insert-All P e (sorted es) p (sorted-All P es ps)

insert_self : (e : Episode) (xs : List Episode) → Among e (insert e xs)
unfolding insert
insert_self e [] = inl refl
insert_self e (x ∷ xs) =
    if_either (Among e) (parts_before x e) (λ _. inr (insert_self e xs)) (λ _. inl refl)

insert-Among : (e z : Episode) (xs : List Episode) → Among z xs → Among z (insert e xs)
unfolding insert
insert-Among e z [] h = absurd h
insert-Among e z (x ∷ xs) h =
    if_either (Among z) (parts_before x e)
      (λ _. elim h [ inl same ↦ inl same | inr w ↦ inr (insert-Among e z xs w) ]) (λ _. inr h)

pub sorted-Among : (z : Episode) (es : List Episode) → Among z es → Among z (sorted es)
unfolding sorted
sorted-Among z [] h = absurd h
sorted-Among z (e ∷ es) (inl same) = rw (sym same) (insert_self e (sorted es))
sorted-Among z (e ∷ es) (inr w) = insert-Among e z (sorted es) (sorted-Among z es w)

module _ (number : Episode → ℕ) where
  insert-Apart :
      (e : Episode) (xs : List Episode)
      → All (λ c. number e ≢ number c) xs
      → Apart number xs
      → Apart number (insert e xs)
  unfolding insert
  insert-Apart e [] far apart = (tt, tt)
  insert-Apart e (x ∷ xs) (d, ds) (away, rest) =
      if_either (Apart number) (parts_before x e)
        (λ _. (
          insert-All (λ c. number x ≢ number c) e xs (λ same. d (sym same)) away,
          insert-Apart e xs ds rest,
        ))
        (λ _. ((d, ds), (away, rest)))

  pub sorted-Apart : (es : List Episode) → Apart number es → Apart number (sorted es)
  unfolding sorted
  sorted-Apart [] h = tt
  sorted-Apart (e ∷ es) (far, apart) =
      insert-Apart e (sorted es) (sorted-All (λ c. number e ≢ number c) es far)
        (sorted-Apart es apart)
