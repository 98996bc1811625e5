-- ===== src/ResearchLog.antt =====
-- The hash-chained decision log: scripts/research_log.py. SHA-256 over the canonical JSON is `digest`,
-- `json.dumps` with sorted keys and `json.loads` are `encode` and `decode`, and `join` puts one text behind
-- another. A file is its lines as `splitlines` gives them; `none` is a file that does not exist.
pub mod Dict
pub mod Chain
pub mod Appended
pub mod Tampered
mod Examples
use Prim.Native.String.{String}
use failure_prediction.Prelude.{
  ℕ, suc, Bool, true, not, Option, none, some, List, [], ◌∷◌, ◌++◌, length, if◌then◌else◌,
}
use failure_prediction.Prelude.Result.{Result, ok, err, ◌>>=◌, ◌>>◌, raise_if}
use failure_prediction.ResearchLog.Dict.{Value, string, other, Record, get, without, is_text}

-- The choices of `--kind`.
pub data Kind : Type 0 where
  decision protocol_change exclusion data_issue experiment review : Kind

abbrev kind_name : Kind → String
kind_name decision = "decision"
kind_name protocol_change = "protocol_change"
kind_name exclusion = "exclusion"
kind_name data_issue = "data_issue"
kind_name experiment = "experiment"
kind_name review = "review"

-- The numbers count lines and records from 1.
pub data Error : Type 0 where
  invalid_json chain_broken hash_invalid : ℕ → Error
  no_record_hash metadata_refused : Error

-- The arguments of `append_record`, with the clock's time.
pub record Entry (J : Type 0) : Type 0 where
  timestamp_utc : String
  kind : Kind
  actor : String
  message : String
  metadata : J

-- An entry is `none` where the JSON of `--metadata` is malformed or no object.
pub data Command (J : Type 0) : Type 0 where
  verify_log : Command J
  add_entry : Option (Entry J) → Command J

-- What `main` prints: the number of records, or the hash of the new one.
pub data Printed (J : Type 0) : Type 0 where
  verified : ℕ → Printed J
  appended : Value J → Printed J

-- All lines but the last end in a line feed, and the last where `is_ended`; a file without lines counts
-- as ended.
pub record File (Line : Type 0) : Type 0 where
  pub lines : List Line
  pub is_ended : Bool

module _ {J : Type 0} where
  -- A subscript with the key "record_hash".
  abbrev pub present_hash : Option (Value J) → Result Error (Value J)
  present_hash none = err no_record_hash
  present_hash (some v) = ok v

  unfoldable pub hash_of : Record J → Result Error (Value J)
  hash_of r = present_hash (get "record_hash" r)

  -- `records[-1]["record_hash"] if records else "GENESIS"`
  unfoldable pub last_hash : List (Record J) → Result Error (Value J)
  last_hash [] = ok (string "GENESIS")
  last_hash (r ∷ []) = hash_of r
  last_hash (r ∷ s ∷ rs) = last_hash (s ∷ rs)

  -- The dictionary before its hash is added.
  unfoldable pub unsigned_record : Entry J → Value J → Record J
  unsigned_record e previous =
      ("timestamp_utc", string e.timestamp_utc)
      ∷ ("kind", string (kind_name e.kind))
      ∷ ("actor", string e.actor)
      ∷ ("message", string e.message)
      ∷ ("metadata", other e.metadata)
      ∷ ("previous_hash", previous)
      ∷ []

module _ {J : Type 0} (digest : Record J → String) where
  -- `verify` from the record of number `index`.
  unfoldable pub verify_from : ℕ → String → List (Record J) → Result Error (Unit {0})
  verify_from index previous [] = ok tt
  verify_from index previous (r ∷ rs) =
      let unsigned = without "record_hash" r in
      raise_if (not (is_text (get "previous_hash" unsigned) previous)) (chain_broken index)
      >> raise_if (not (is_text (get "record_hash" r) (digest unsigned))) (hash_invalid index)
      >> verify_from (suc index) (digest unsigned) rs

  unfoldable pub verify : List (Record J) → Result Error (Unit {0})
  unfolding verify_from
  verify records = verify_from 1 "GENESIS" records

  unfoldable pub sign : Record J → Record J
  sign unsigned = unsigned ++ ("record_hash", string (digest unsigned)) ∷ []

module _ {J Line : Type 0} (decode : Line → Option (Record J)) where
  unfoldable pub parse_line : ℕ → Option (Record J) → Result Error (Record J)
  parse_line n none = err (invalid_json n)
  parse_line n (some r) = ok r

  unfoldable pub read_lines : ℕ → List Line → Result Error (List (Record J))
  unfolding parse_line
  read_lines n [] = ok []
  read_lines n (line ∷ lines) =
      parse_line n (decode line) >>= λ r. read_lines (suc n) lines >>= λ rs. ok (r ∷ rs)

  unfoldable pub read_records : Option (File Line) → Result Error (List (Record J))
  unfolding read_lines
  read_records none = ok []
  read_records (some file) = read_lines 1 file.lines

module _ {Line : Type 0} (join : Line → Line → Line) where
  -- A text goes behind the last line where that has no line feed.
  unfoldable pub join_last : List Line → Line → List Line
  join_last [] text_line = text_line ∷ []
  join_last (line ∷ []) text_line = join line text_line ∷ []
  join_last (line ∷ next ∷ lines) text_line = line ∷ join_last (next ∷ lines) text_line

  -- `open("a")`, and a write of a line with its line feed.
  unfoldable pub write_line : Option (File Line) → Line → File Line
  unfolding join_last
  write_line none text_line = record { lines = text_line ∷ []; is_ended = true }
  write_line (some file) text_line = record {
    lines = if file.is_ended then file.lines ++ text_line ∷ [] else join_last file.lines text_line;
    is_ended = true;
  }

module _ {J Line : Type 0} (decode : Line → Option (Record J)) (encode : Record J → Line)
    (join : Line → Line → Line) (digest : Record J → String) where
  -- The new record, and the file after it.
  unfoldable pub append_record :
      Option (File Line) → Entry J → Result Error (Record J × Option (File Line))
  unfolding read_records verify last_hash unsigned_record sign write_line
  append_record file e = read_records decode file >>= λ records. verify digest records >>= λ _.
      last_hash records >>= λ previous.
      let r = sign digest (unsigned_record e previous) in
      ok (r, some (write_line join file (encode r)))

  unfoldable pub run_command :
      Option (File Line) → Command J → ℕ → Result Error (Printed J × Option (File Line))
  unfolding append_record hash_of
  run_command file verify_log n = ok (verified n, file)
  run_command file (add_entry none) n = err metadata_refused
  run_command file (add_entry (some e)) n =
      append_record file e >>= λ (r, file'). hash_of r >>= λ v. ok (appended v, file')

  unfoldable pub main :
      Option (File Line) → Command J → Result Error (Printed J × Option (File Line))
  unfolding read_records verify run_command
  main file command = read_records decode file >>= λ records.
      verify digest records >>= λ _. run_command file command (length records)
