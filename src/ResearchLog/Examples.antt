-- ===== src/ResearchLog/Examples.antt =====
-- Tests and concrete runs for the decision log.
use Prim.Native.String.{String}
use mathlib.Core.Bool.{false≢true}
use text.Mathlib.TextEquality.{eq_iff}
use failure_prediction.Prelude.{
  ℕ, Bool, true, false, Option, none, some, List, [], ◌∷◌, ◌≡◌, refl, sym, ap, ◌≢◌,
}
use failure_prediction.Prelude.Result.{ok, err}
use failure_prediction.ResearchLog.Dict.{Value, string, other, Record, get, without, is_text}
use failure_prediction.ResearchLog.{
  Entry, verify_log, add_entry, verified, appended, decision, hash_of, last_hash, unsigned_record,
  verify_from, verify, chain_broken, hash_invalid, sign, parse_line, read_lines, read_records,
  append_record, run_command, main, File,
}
use failure_prediction.ResearchLog.Appended.{Holds, append_record-Holds}
use failure_prediction.ResearchLog.Tampered.{verify-AllSame}
use failure_prediction.ResearchLog.Chain.{AllSame}

abbrev entry : String → String → Entry ℕ
entry time message = record {
  timestamp_utc = time;
  kind = decision;
  actor = "lead";
  message = message;
  metadata = 3;
}

abbrev message_of : Option (Value ℕ) → String
message_of (some (string s)) = s
message_of (some (other j)) = ""
message_of none = ""

-- A hash that tells the runs below apart.
abbrev digest : Record ℕ → String
unfolding get
digest r = message_of (get "message" r)

abbrev first : Record ℕ
unfolding sign unsigned_record
first = sign digest (unsigned_record (entry "t1" "freeze") (string "GENESIS"))

abbrev second : Record ℕ
unfolding sign unsigned_record
second = sign digest (unsigned_record (entry "t2" "unblind") (string "freeze"))

abbrev log : List (Record ℕ)
log = first ∷ second ∷ []

abbrev file : Bool → Option (File (Record ℕ))
file is_ended = some (record { lines = log; is_ended = is_ended })

-- Two lines that run together read as none of them.
abbrev run_together : Record ℕ → Record ℕ → Record ℕ
run_together r s = []

log_verifies : verify digest log ≡ ok tt
unfolding verify verify_from without get is_text sign unsigned_record
log_verifies = refl

reordered_log : verify digest (second ∷ first ∷ []) ≡ err (chain_broken 1)
unfolding verify verify_from without get is_text sign unsigned_record
reordered_log = refl

abbrev changed : Record ℕ
changed =
    ("message", string "unblind")
    ∷ ("previous_hash", string "GENESIS")
    ∷ ("record_hash", string "freeze")
    ∷ []

changed_message : verify digest (changed ∷ []) ≡ err (hash_invalid 1)
unfolding verify verify_from without get is_text
changed_message = refl

fresh_log :
    main some (λ r. r) run_together digest none (add_entry (some (entry "t1" "freeze")))
    ≡ ok (appended (string "freeze"), some (record { lines = first ∷ []; is_ended = true }))
unfolding main run_command append_record read_records read_lines parse_line verify verify_from
    last_hash hash_of sign unsigned_record without get is_text
fresh_log = refl

counts_records :
    main some (λ r. r) run_together digest (file true) verify_log ≡ ok (verified 2, file true)
unfolding main run_command append_record read_records read_lines parse_line verify verify_from
    last_hash hash_of sign unsigned_record without get is_text
counts_records = refl

read_log : read_records some (file true) ≡ ok log
unfolding read_records read_lines parse_line
read_log = refl

-- Without the last line feed an entry is added, and the log does not verify any more.
abbrev glued : Option (File (Record ℕ))
unfolding append_record
glued = elim (append_record some (λ r. r) run_together digest (file false) (entry "t3" "report")) [
  | ok (r, after) ↦ after
  | err e ↦ none
]

unverified_after : main some (λ r. r) run_together digest glued verify_log ≡ err (chain_broken 2)
unfolding glued main run_command append_record read_records read_lines parse_line verify verify_from
    last_hash hash_of sign unsigned_record without get is_text
unverified_after = refl

append_record-Holds_example :
    (r : Record ℕ) × (lines : File (Record ℕ)) × (append_record some
        (λ r. r)
        run_together
        digest
        (file true)
        (entry "t3" "report")
      ≡ ok (r, some lines))
    × Holds some (λ r. r) digest log (entry "t3" "report") lines
unfolding digest get
append_record-Holds_example =
    append_record-Holds some (λ r. r) run_together digest (file true) log (entry "t3" "report")
      (λ r. (r, refl, λ key. refl)) (λ r s h. ap message_of (h "message")) refl read_log
      log_verifies

freeze_ne_unblind : ◌≢◌ {A = String} "freeze" "unblind"
freeze_ne_unblind e = false≢true ((eq_iff "freeze" "unblind").1 e)

verify-AllSame_example : AllSame log log
unfolding digest get without sign unsigned_record
verify-AllSame_example = verify-AllSame digest log log log_verifies log_verifies refl refl (
  (λ e key. refl, (λ e. absurd (freeze_ne_unblind e), tt)),
  ((λ e. absurd (freeze_ne_unblind (sym e)), (λ e key. refl, tt)), tt),
)
