-- ===== src/Campaign/Admission/Admitted.antt =====
-- What it means that parallel execution is admitted (src/experiments/campaigns.py).
use Prim.Native.String.{String}
use text.Mathlib.TextEquality.{eq_iff}
use failure_prediction.Prelude.{
  ℕ, Bool, true, false, not, Option, none, some, [], ◌≡◌, refl, sym, ap, arith, if_either,
  parts_empty,
}
use failure_prediction.Campaign.Documents.{
  Value, null, other, negative, boolean, integer, string, mapping, sequence, Entries, is_string,
  get, entries_of, is_true, contains,
}
use failure_prediction.Campaign.Phases.{
  Finding, when, exceeds, Request, normalise_system_concurrency,
}
use failure_prediction.Campaign.Phases.Within.{
  when-false, AtMost, WorkersAtMost, HavePhases, phased_execution_findings-HavePhases,
}
use failure_prediction.Campaign.Admission.{
  Manifest, parallel_admission_terms, admission_condition_report_path, report_findings,
  worker_findings, amendment_findings, filed_findings, named_findings, id_findings,
  validate_parallel_execution_admission,
}

when-not : (b : Bool) (f : Finding) → when (not b) f ≡ [] → b ≡ true
when-not true f h = refl
when-not false f h = cc

is_string-eq : (s : String) (v : Value) → is_string s v ≡ true → v ≡ string s
is_string-eq s (string t) h = ap string (sym ((eq_iff s t).0 h))
is_string-eq s null h = cc
is_string-eq s other h = cc
is_string-eq s negative h = cc
is_string-eq s (boolean b) h = cc
is_string-eq s (integer n) h = cc
is_string-eq s (mapping _) h = cc
is_string-eq s (sequence _) h = cc

exceeds-AtMost : (n : ℕ) (v : Value) → exceeds n v ≡ false → AtMost n v
exceeds-AtMost n (integer m) h = ground arith
exceeds-AtMost n null h = tt
exceeds-AtMost n other h = tt
exceeds-AtMost n negative h = tt
exceeds-AtMost n (boolean b) h = tt
exceeds-AtMost n (string s) h = tt
exceeds-AtMost n (mapping _) h = tt
exceeds-AtMost n (sequence _) h = tt

-- The report that a condition names says that the check passed.
abbrev pub Passed : Option String → Entries → Type 0
Passed none reports = Unit
Passed (some path) reports = is_true (get "passed" (entries_of (get path reports))) ≡ true

module _ (is_amendment_id is_system_id : String → Bool) (lower : String → String)
    (first_word : String → Option String) where
  -- An approved amendment that admits the campaign with the workers and systems of a request.
  abbrev pub Admits : Manifest → Entries → Request → String → Entries → Type 0
  Admits manifest reports request id amendment =
      let terms = parallel_admission_terms amendment in
      (get "amendment_id" amendment ≡ string id)
      × (get "status" amendment ≡ string "approved")
      × (contains manifest.campaign_id terms.campaigns ≡ true)
      × Passed
          (admission_condition_report_path is_amendment_id is_system_id lower first_word
            terms.admission_condition)
          reports
      × WorkersAtMost request.workers terms.admitted_workers
      × HavePhases is_system_id lower request.workers terms.admitted_workers
          (normalise_system_concurrency is_system_id lower terms.phases) request.systems

  report_findings-Passed :
      (id : String) (path : Option String) (reports : Entries)
      → report_findings is_amendment_id is_system_id lower first_word id path reports ≡ []
      → Passed path reports
  unfolding report_findings
  report_findings-Passed id none reports h = tt
  report_findings-Passed id (some path) reports h = when-not _ _ h

  worker_findings-AtMost :
      (id : String) (workers : Option ℕ) (admitted : Value)
      → worker_findings is_amendment_id is_system_id lower first_word id workers admitted ≡ []
      → WorkersAtMost workers admitted
  worker_findings-AtMost id none admitted h = tt
  worker_findings-AtMost id (some n) admitted h = exceeds-AtMost n admitted (when-false _ _ h)

  amendment_findings-Admits :
      (manifest : Manifest) (reports : Entries) (request : Request) (id : String)
      (amendment : Entries)
      → amendment_findings is_amendment_id is_system_id lower first_word manifest reports request id
          amendment
        ≡ []
      → Admits manifest reports request id amendment
  unfolding amendment_findings
  amendment_findings-Admits manifest reports request id amendment h =
      let terms = parallel_admission_terms amendment in
      let (h1, phases) = parts_empty _ _ h in
      let (h2, _) = parts_empty _ _ h1 in
      let (h3, workers) = parts_empty _ _ h2 in
      let (h4, report) = parts_empty _ _ h3 in
      let (h5, campaign) = parts_empty _ _ h4 in
      let (own_id, approved) = parts_empty _ _ h5 in
      (
        is_string-eq id (get "amendment_id" amendment) (when-not _ _ own_id),
        is_string-eq "approved" (get "status" amendment) (when-not _ _ approved),
        when-not _ _ campaign,
        report_findings-Passed id _ reports report,
        worker_findings-AtMost id request.workers terms.admitted_workers workers,
        phased_execution_findings-HavePhases is_system_id lower terms.phases terms.admitted_workers
            request phases,
      )

  -- The amendment that a manifest names is on file and admits the request.
  abbrev pub Admitted : Manifest → Entries → Entries → Request → Type 0
  Admitted manifest amendments reports request =
      (id : String) × (amendment : Entries) × (manifest.admitted_by ≡ string id)
      × (is_amendment_id id ≡ true)
      × (get id amendments ≡ mapping amendment)
      × Admits manifest reports request id amendment

  filed_findings-Admits :
      (manifest : Manifest) (reports : Entries) (request : Request) (id : String) (filed : Value)
      → filed_findings is_amendment_id is_system_id lower first_word manifest reports request id
          filed
        ≡ []
      → (amendment : Entries) × (filed ≡ mapping amendment)
        × Admits manifest reports request id amendment
  unfolding filed_findings
  filed_findings-Admits manifest reports request id (mapping es) h =
      (es, refl, amendment_findings-Admits manifest reports request id es h)
  filed_findings-Admits manifest reports request id null h = absurd (cc)
  filed_findings-Admits manifest reports request id other h = absurd (cc)
  filed_findings-Admits manifest reports request id negative h = absurd (cc)
  filed_findings-Admits manifest reports request id (boolean b) h = absurd (cc)
  filed_findings-Admits manifest reports request id (integer n) h = absurd (cc)
  filed_findings-Admits manifest reports request id (string s) h = absurd (cc)
  filed_findings-Admits manifest reports request id (sequence _) h = absurd (cc)

  id_findings-Admits :
      (manifest : Manifest) (amendments reports : Entries) (request : Request) (named : Value)
      → id_findings is_amendment_id is_system_id lower first_word manifest
          (some amendments)
          reports
          request
          named
        ≡ []
      → (id : String) × (named ≡ string id)
        × (is_amendment_id id ≡ true)
        × ((amendment : Entries) × (get id amendments ≡ mapping amendment)
            × Admits manifest reports request id amendment)
  unfolding id_findings named_findings
  id_findings-Admits manifest amendments reports request (string id) h =
      if_either
        (λ found.
          found ≡ []
          → (id' : String) × (string id ≡ string id')
            × (is_amendment_id id' ≡ true)
            × ((amendment : Entries) × (get id' amendments ≡ mapping amendment)
                × Admits manifest reports request id' amendment))
        (is_amendment_id id)
        (λ e rest. (id, refl, e, filed_findings-Admits manifest reports request id _ rest))
        (λ _ bad. absurd (cc)) h
  id_findings-Admits manifest amendments reports request null h = absurd (cc)
  id_findings-Admits manifest amendments reports request other h = absurd (cc)
  id_findings-Admits manifest amendments reports request negative h = absurd (cc)
  id_findings-Admits manifest amendments reports request (boolean b) h = absurd (cc)
  id_findings-Admits manifest amendments reports request (integer n) h = absurd (cc)
  id_findings-Admits manifest amendments reports request (mapping _) h = absurd (cc)
  id_findings-Admits manifest amendments reports request (sequence _) h = absurd (cc)

  -- Where the amendments are given and there is no finding, the amendment that the manifest names is on
  -- file under its own id, is approved and names the campaign, and the report of its condition, if it
  -- names one, passed; the workers asked for are at most the admitted ones, and each system asked for has
  -- a phase whose cap is at least the workers asked for and at most the admitted ones, where the number
  -- of admitted workers is an integer.
  pub validate_parallel_execution_admission-Admitted :
      (manifest : Manifest) (amendments reports : Entries) (request : Request)
      → validate_parallel_execution_admission is_amendment_id is_system_id lower first_word manifest
          (some amendments)
          reports
          request
        ≡ []
      → Admitted manifest amendments reports request
  unfolding validate_parallel_execution_admission
  validate_parallel_execution_admission-Admitted manifest amendments reports request h =
      let (id, named, valid, (amendment, filed, admits)) =
        id_findings-Admits manifest amendments reports request manifest.admitted_by h in
      (id, amendment, named, valid, filed, admits)
