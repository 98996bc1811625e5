-- ===== src/ResearchLog/Tampered.antt =====
-- Two logs with the same last hash (scripts/research_log.py).
use Prim.Native.String.{String}
use failure_prediction.Prelude.{
  ℕ, suc, Option, none, some, List, [], ◌∷◌, ◌≡◌, sym, ap, ◌∙◌, arith, length, All, All-mono,
}
use failure_prediction.Prelude.Result.{Result, ok, err}
use failure_prediction.ResearchLog.Dict.{
  Value, string, other, Record, without, SameEntries, get_or_without,
}
use failure_prediction.ResearchLog.{verify_from, verify, last_hash}
use failure_prediction.ResearchLog.Chain.{AllSame, final, Links, verify_from-Links, last_hash-final}

module _ {J : Type 0} where
  abbrev text_of : Option (Value J) → String
  text_of none = ""
  text_of (some (other j)) = ""
  text_of (some (string s)) = s

  abbrev value_of : {E : Type 0} → Result E (Value J) → Option (Value J)
  value_of (err e) = none
  value_of (ok v) = some v

module _ {J : Type 0} (digest : Record J → String) where
  -- The hash of `r` without its signature is no hash of a record of the list with other entries.
  abbrev pub NoCollision : List (Record J) → Record J → Type 0
  NoCollision ss r =
      All
        (λ s.
          digest (without "record_hash" r) ≡ digest (without "record_hash" s)
          → SameEntries (without "record_hash" r) (without "record_hash" s))
        ss

  same_record :
      (previous previous' : String) (r s : Record J)
      → Links digest previous r
      → Links digest previous' s
      → digest (without "record_hash" r) ≡ digest (without "record_hash" s)
      → SameEntries (without "record_hash" r) (without "record_hash" s)
      → (previous ≡ previous') × SameEntries r s
  same_record previous previous' r s l m e same = (
    ap text_of (sym l.linked ∙ same "previous_hash" ∙ m.linked),
    get_or_without "record_hash" r s (l.signed ∙ ap (λ h. some (string h)) e ∙ sym m.signed) same,
  )

  verify_from-AllSame :
      (i j : ℕ) (previous previous' : String) (rs ss : List (Record J))
      → verify_from digest i previous rs ≡ ok tt
      → verify_from digest j previous' ss ≡ ok tt
      → length rs ≡ length ss
      → final digest previous rs ≡ final digest previous' ss
      → All (NoCollision ss) rs
      → (previous ≡ previous') × AllSame rs ss
  verify_from-AllSame i j previous previous' [] [] h k n e c = (e, tt)
  verify_from-AllSame i j previous previous' [] (s ∷ ss) h k n e c = ground arith
  verify_from-AllSame i j previous previous' (r ∷ rs) [] h k n e c = ground arith
  verify_from-AllSame i j previous previous' (r ∷ rs) (s ∷ ss) h k n e c =
      let (l, h') = verify_from-Links digest i previous r rs h in
      let (m, k') = verify_from-Links digest j previous' s ss k in
      let (hash, rest) =
        verify_from-AllSame (suc i) (suc j) (digest (without "record_hash" r))
          (digest (without "record_hash" s)) rs ss h' k' (omega (arith, n)) e
          (All-mono (NoCollision (s ∷ ss)) (NoCollision ss) (λ x w. w.1) rs c.1) in
      let (first, same) = same_record previous previous' r s l m hash (c.0.0 hash) in
      (first, (same, rest))

-- Two logs that verify, have as many records and end in the same hash have the same entries in every
-- record, if no record of the one collides under the hash with a different record of the other.
pub verify-AllSame :
    {J : Type 0} (digest : Record J → String) (rs ss : List (Record J))
    → verify digest rs ≡ ok tt
    → verify digest ss ≡ ok tt
    → length rs ≡ length ss
    → last_hash rs ≡ last_hash ss
    → All (NoCollision digest ss) rs
    → AllSame rs ss
unfolding verify
verify-AllSame digest rs ss h k n e c =
    let hashes = sym (last_hash-final digest rs h) ∙ e ∙ last_hash-final digest ss k in
    (verify_from-AllSame digest 1 1 "GENESIS" "GENESIS" rs ss h k n
      (ap (λ m. text_of (value_of m)) hashes) c).1
