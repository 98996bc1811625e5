-- ===== src/ResearchLog/Appended.antt =====
-- What `append_record` leaves in the file (scripts/research_log.py).
use Prim.Native.String.{String}
use failure_prediction.Prelude.{
  ℕ, suc, true, Option, none, some, List, [], ◌∷◌, ◌++◌, ◌≡◌, refl, sym, ap, ◌∙◌, Option-cases, inl,
  inr,
}
use failure_prediction.Prelude.Result.{ok, ◌>>=◌, Result-cases}
use failure_prediction.ResearchLog.Dict.{
  string, other, Record, get, without, SameEntries, without-SameEntries,
}
use failure_prediction.ResearchLog.{
  Entry, kind_name, unsigned_record, verify, sign, parse_line, read_lines, read_records, File,
  write_line, append_record,
}
use failure_prediction.ResearchLog.Chain.{final, Links, verify_from-snoc, last_hash-final}

module _ {J Line : Type 0} (decode : Line → Option (Record J)) where
  read_lines-snoc :
      (n : ℕ) (lines : List Line) (line : Line) (r : Record J)
      → decode line ≡ some r
      → read_lines decode n (lines ++ line ∷ [])
        ≡ (read_lines decode n lines >>= λ rs. ok (rs ++ r ∷ []))
  unfolding read_lines parse_line
  read_lines-snoc n [] line r d = rw d refl
  read_lines-snoc n (l ∷ lines) line r d = elim (Option-cases (decode l)) [
    | inl e ↦ rw e refl
    | inr (x, e) ↦
        rw (e, read_lines-snoc (suc n) lines line r d)
          (elim (Result-cases (read_lines decode (suc n) lines)) [
            | inl (xs, q) ↦ rw q refl
            | inr (x', q) ↦ rw q refl
          ])
  ]

  -- A file to which a line can be added: it ends in a line feed.
  abbrev pub IsEnded : Option (File Line) → Type 0
  IsEnded none = Unit
  IsEnded (some file) = file.is_ended ≡ true

  read_records-snoc :
      (join : Line → Line → Line) (file : Option (File Line)) (rs : List (Record J)) (line : Line)
      (r : Record J)
      → IsEnded file
      → read_records decode file ≡ ok rs
      → decode line ≡ some r
      → read_records decode (some (write_line join file line)) ≡ ok (rs ++ r ∷ [])
  unfolding read_records read_lines write_line
  read_records-snoc join none rs line r ended h d =
      read_lines-snoc 1 [] line r d ∙ ap (λ m. m >>= λ l. ok (l ++ r ∷ [])) h
  read_records-snoc join (some file) rs line r ended h d =
      rw ended (read_lines-snoc 1 file.lines line r d ∙ ap (λ m. m >>= λ l. ok (l ++ r ∷ [])) h)

module _ {J : Type 0} (digest : Record J → String) where
  sign-Links :
      (e : Entry J) (previous : String) (r : Record J)
      → ((r s : Record J) → SameEntries r s → digest r ≡ digest s)
      → SameEntries r (sign digest (unsigned_record e (string previous)))
      → Links digest previous r
  unfolding sign unsigned_record get without
  sign-Links e previous r hashes same =
      let u = unsigned_record e (string previous) in
      let rest = without-SameEntries "record_hash" r (sign digest u) same in
      record {
        linked = rest "previous_hash";
        signed =
            same "record_hash"
            ∙ ap (λ h. some (string h)) (sym (hashes (without "record_hash" r) u rest));
      }

module _ {J Line : Type 0} (decode : Line → Option (Record J)) (encode : Record J → Line) where
  -- The line of a record reads back as a record with the same entries.
  abbrev pub Restores : Record J → Type 0
  Restores r = (s : Record J) × (decode (encode r) ≡ some s) × SameEntries s r

  -- The file after an entry: the old records, and one with the entry's fields, under a valid chain.
  pub record Holds (digest : Record J → String) (records : List (Record J)) (e : Entry J)
      (file : File Line) : Type 0 where
    pub newest : Record J
    pub reads : read_records decode (some file) ≡ ok (records ++ newest ∷ [])
    pub verifies : verify digest (records ++ newest ∷ []) ≡ ok tt
    pub keeps_kind : get "kind" newest ≡ some (string (kind_name e.kind))
    pub keeps_actor : get "actor" newest ≡ some (string e.actor)
    pub keeps_message : get "message" newest ≡ some (string e.message)
    pub keeps_metadata : get "metadata" newest ≡ some (other e.metadata)

-- From a log that ends in a line feed, reads and verifies, `append_record` succeeds, and the file that
-- it leaves reads as the old records and one new record with the entry's kind, actor, message and metadata, which verify,
-- if a written record is read with the same entries and the hash depends on a record's entries alone.
pub append_record-Holds :
    {J Line : Type 0} (decode : Line → Option (Record J)) (encode : Record J → Line)
    (join : Line → Line → Line) (digest : Record J → String) (file : Option (File Line))
    (records : List (Record J)) (e : Entry J)
    → ((r : Record J) → Restores decode encode r)
    → ((r s : Record J) → SameEntries r s → digest r ≡ digest s)
    → IsEnded decode file
    → read_records decode file ≡ ok records
    → verify digest records ≡ ok tt
    → (r : Record J) × (lines : File Line) × (append_record decode encode join digest file e
        ≡ ok (r, some lines))
      × Holds decode encode digest records e lines
unfolding append_record verify get
append_record-Holds decode encode join digest file records e restores hashes ended read chained =
    let previous = final digest "GENESIS" records in
    let r = sign digest (unsigned_record e (string previous)) in
    let (s, decoded, same) = restores r in
    (
      r,
      write_line join file (encode r),
      rw (read, chained, last_hash-final digest records chained) refl,
      record {
        newest = s;
        reads = read_records-snoc decode join file records (encode r) s ended read decoded;
        verifies =
            verify_from-snoc digest 1 "GENESIS" records s chained
              (sign-Links digest e previous s hashes same);
        keeps_kind = same "kind";
        keeps_actor = same "actor";
        keeps_message = same "message";
        keeps_metadata = same "metadata";
      },
    )
