-- ===== src/ResearchLog/Chain.antt =====
-- The chain of the decision log (scripts/research_log.py).
use Prim.Native.String.{String}
use failure_prediction.Prelude.{
  ℕ, suc, some, List, [], ◌∷◌, ◌++◌, ◌≡◌, refl, ap, ◌∙◌, arith, Bool-cases, inl, inr,
}
use failure_prediction.Prelude.Result.{ok}
use failure_prediction.ResearchLog.Dict.{
  string, Record, get, without, is_text, is_text-eq, is_text-same, SameEntries,
}
use failure_prediction.ResearchLog.{present_hash, hash_of, last_hash, verify_from, verify}

module _ {J : Type 0} where
  abbrev pub AllSame : List (Record J) → List (Record J) → Type 0
  AllSame [] [] = Unit
  AllSame [] (s ∷ ss) = ⊥
  AllSame (r ∷ rs) [] = ⊥
  AllSame (r ∷ rs) (s ∷ ss) = SameEntries r s × AllSame rs ss

module _ {J : Type 0} (digest : Record J → String) where
  pub record Links (previous : String) (r : Record J) : Type 0 where
    pub linked : get "previous_hash" (without "record_hash" r) ≡ some (string previous)
    pub signed : get "record_hash" r ≡ some (string (digest (without "record_hash" r)))

  -- The hash that the next record has to name.
  abbrev pub final : String → List (Record J) → String
  final previous [] = previous
  final previous (r ∷ rs) = final (digest (without "record_hash" r)) rs

  pub verify_from-Links :
      (index : ℕ) (previous : String) (r : Record J) (rs : List (Record J))
      → verify_from digest index previous (r ∷ rs) ≡ ok tt
      → Links previous r
        × (verify_from digest (suc index) (digest (without "record_hash" r)) rs ≡ ok tt)
  unfolding verify_from
  verify_from-Links index previous r rs h =
      let u = without "record_hash" r in
      elim (Bool-cases (is_text (get "previous_hash" u) previous)) [
        | inl e ↦ elim (Bool-cases (is_text (get "record_hash" r) (digest u))) [
          | inl q ↦ (
            record {
              linked = is_text-eq (get "previous_hash" u) previous e;
              signed = is_text-eq (get "record_hash" r) (digest u) q;
            },
            rw (e, q) at h,
          )
          | inr q ↦ let bad = rw (e, q) at h in ground arith
        ]
        | inr e ↦ let bad = rw e at h in ground arith
      ]

  verify_from-cons :
      (index : ℕ) (previous : String) (r : Record J) (rs : List (Record J))
      → Links previous r
      → verify_from digest index previous (r ∷ rs)
        ≡ verify_from digest (suc index) (digest (without "record_hash" r)) rs
  unfolding verify_from
  verify_from-cons index previous r rs l =
      let u = without "record_hash" r in
      let first = is_text-same (get "previous_hash" u) previous l.linked in
      let second = is_text-same (get "record_hash" r) (digest u) l.signed in rw (first, second) refl

  pub verify_from-snoc :
      (index : ℕ) (previous : String) (rs : List (Record J)) (r : Record J)
      → verify_from digest index previous rs ≡ ok tt
      → Links (final previous rs) r
      → verify_from digest index previous (rs ++ r ∷ []) ≡ ok tt
  unfolding verify_from
  verify_from-snoc index previous [] r h l = verify_from-cons index previous r [] l ∙ refl
  verify_from-snoc index previous (x ∷ rs) r h l =
      let (first, rest) = verify_from-Links index previous x rs h in
      verify_from-cons index previous x (rs ++ r ∷ []) first
      ∙ verify_from-snoc (suc index) (digest (without "record_hash" x)) rs r rest l

  last_hash-verified :
      (index : ℕ) (previous : String) (r : Record J) (rs : List (Record J))
      → verify_from digest index previous (r ∷ rs) ≡ ok tt
      → last_hash (r ∷ rs) ≡ ok (string (final previous (r ∷ rs)))
  unfolding last_hash hash_of
  last_hash-verified index previous r [] h =
      ap present_hash (verify_from-Links index previous r [] h).0.signed
  last_hash-verified index previous r (s ∷ rs) h =
      last_hash-verified (suc index) (digest (without "record_hash" r)) s rs
        (verify_from-Links index previous r (s ∷ rs) h).1

  pub last_hash-final :
      (rs : List (Record J))
      → verify digest rs ≡ ok tt
      → last_hash rs ≡ ok (string (final "GENESIS" rs))
  unfolding verify last_hash
  last_hash-final [] h = refl
  last_hash-final (r ∷ rs) h = last_hash-verified 1 "GENESIS" r rs h
