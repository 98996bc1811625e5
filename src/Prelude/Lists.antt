-- ===== src/Prelude/Lists.antt =====
-- Lists measured by native numbers, and predicates on lists by recursion.
use Prim.Native.Nat.{ℕ, zero, suc, ◌+◌}
use mathlib.Core.Path.{◌≡◌, refl, subst}
use mathlib.Core.Logic.{◌⊎◌, inl, inr}
use mathlib.Core.List.{List, [], ◌∷◌, ◌++◌}
use native.Mathlib.Omega.{arith}

module _ {ℓ} {A : Type ℓ} where
  abbrev pub length : List A → ℕ
  length [] = 0
  length (x ∷ xs) = suc (length xs)

  abbrev pub take : ℕ → List A → List A
  take zero xs = []
  take (suc n) [] = []
  take (suc n) (x ∷ xs) = x ∷ take n xs

  abbrev pub drop : ℕ → List A → List A
  drop zero xs = xs
  drop (suc n) [] = []
  drop (suc n) (x ∷ xs) = drop n xs

  pub length-append : (xs ys : List A) → length (xs ++ ys) ≡ length xs + length ys
  length-append [] ys = omega arith
  length-append (x ∷ xs) ys = omega (arith, length-append xs ys)

unfoldable pub for_each {ℓ κ} : {A : Type ℓ} {B : Type κ} → List A → (A → List B) → List B
for_each [] f = []
for_each (x ∷ xs) f = f x ++ for_each xs f

abbrev pub Among : {A : Type 0} → A → List A → Type 0
Among x [] = ⊥
Among x (y ∷ ys) = (y ≡ x) ⊎ Among x ys

pub Among-append_left : {A : Type 0} (x : A) (xs ys : List A) → Among x xs → Among x (xs ++ ys)
Among-append_left x [] ys h = absurd h
Among-append_left x (y ∷ xs) ys (inl e) = inl e
Among-append_left x (y ∷ xs) ys (inr h) = inr (Among-append_left x xs ys h)

pub Among-append_right : {A : Type 0} (x : A) (xs ys : List A) → Among x ys → Among x (xs ++ ys)
Among-append_right x [] ys h = h
Among-append_right x (y ∷ xs) ys h = inr (Among-append_right x xs ys h)

pub Among-for_each :
    {A B : Type 0} (x : A) (y : B) (xs : List A) (f : A → List B)
    → Among x xs
    → Among y (f x)
    → Among y (for_each xs f)
unfolding for_each
Among-for_each x y [] f h k = absurd h
Among-for_each x y (z ∷ xs) f (inl e) k = Among-append_left y (f z) (for_each xs f) (rw e k)
Among-for_each x y (z ∷ xs) f (inr h) k =
    Among-append_right y (f z) (for_each xs f) (Among-for_each x y xs f h k)

-- A predicate by recursion computes to tuples, which the tactics read and build.
abbrev pub All {ℓ κ} : {A : Type ℓ} → (A → Type κ) → List A → Type κ
All P [] = Unit
All P (x ∷ xs) = P x × All P xs

pub All-append {ℓ κ} :
    {A : Type ℓ} (P : A → Type κ) (xs ys : List A) → All P xs → All P ys → All P (xs ++ ys)
All-append P [] ys hx hy = hy
All-append P (x ∷ xs) ys hx hy = (hx.0, All-append P xs ys hx.1 hy)

pub All-mono {ℓ κ} :
    {A : Type ℓ} (P Q : A → Type κ) → ((a : A) → P a → Q a) → (xs : List A) → All P xs → All Q xs
All-mono P Q f [] h = tt
All-mono P Q f (x ∷ xs) h = (f x h.0, All-mono P Q f xs h.1)

pub All-middle {ℓ κ} :
    {A : Type ℓ} (P : A → Type κ) (xs : List A) (y : A) (ys : List A) → All P (xs ++ y ∷ ys) → P y
All-middle P [] y ys h = h.0
All-middle P (x ∷ xs) y ys h = All-middle P xs y ys h.1

pub All-Among {ℓ} :
    {A : Type 0} (P : A → Type ℓ) (xs : List A) (x : A) → All P xs → Among x xs → P x
All-Among P [] x all h = absurd h
All-Among P (y ∷ ys) x (first, rest) (inl e) = subst P e first
All-Among P (y ∷ ys) x (first, rest) (inr h) = All-Among P ys x rest h

pub parts_empty {ℓ} : {A : Type ℓ} (xs ys : List A) → xs ++ ys ≡ [] → (xs ≡ []) × (ys ≡ [])
parts_empty [] ys h = (refl, h)
parts_empty (x ∷ xs) ys h = cc

pub Among-All {ℓ} :
    {A : Type 0} (P : A → Type ℓ) (xs : List A) → ((x : A) → Among x xs → P x) → All P xs
Among-All P [] h = tt
Among-All P (x ∷ xs) h = (h x (inl refl), Among-All P xs (λ y w. h y (inr w)))
