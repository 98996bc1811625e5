-- ===== src/Monitor/Stream/Offline.antt =====
-- The online rows against the rows of the recorded episode (monitor_core.py, src/features/causal.py).
use Prim.Native.String.{String}
use text.Mathlib.Text.{◌==◌ as str_eq}
use text.Mathlib.TextEquality.{eq_iff}
use mathlib.Core.Path.{subst}
use mathlib.Core.List.{append-nil, append_assoc}
use failure_prediction.Prelude.{
  ℕ, suc, ◌≤◌, ◌<◌, Bool, false, Option, none, some, List, [], ◌∷◌, ◌++◌, ◌≡◌, refl, sym, ap, ◌∙◌,
  arith, All, All-mono, All-append, Bool-cases, if_either, if◌then◌else◌, inl, inr,
}
use failure_prediction.Prelude.Int.{ℤ}
use failure_prediction.Prelude.Result.{ok}
use failure_prediction.Monitor.Causal.{
  ScalarSample, FeatureSpec, cells_at, not_after, rows_from, prepare, extract_decision_rows,
}
use failure_prediction.Monitor.Causal.Newest.{SortedFrom}
use failure_prediction.Monitor.Buffer.{
  Contract, Entry, SampleBuffer, Verdict, unknown, mixed_source, not_finite, out_of_order, accepted,
  last_time, entry_of, verdict_on, bind_source, apply_verdict, add, prune_entry, prune,
  empty_buffer,
}
use failure_prediction.Monitor.Buffer.Drops.{
  Drops, Drops-append, Drops-later, prune_series-Drops, last_time-Drops, select-Drops,
}
use failure_prediction.Monitor.Buffer.Sorted.{SortedFrom-snoc, judge-accepted, select-future}
use failure_prediction.Monitor.Stream.{
  Action, arrives, decides, specs_of, raw_row, online_rows, recorded, decision_times,
}

abbrev pub After : Option ℕ → ℕ → Type 0
After none t = Unit
After (some u) t = u < t

abbrev Fresh : Option ℕ → Option ℕ → Type 0
Fresh previous none = Unit
Fresh previous (some t) = After previous t

-- Grid points follow one another, and a sample that arrives after a grid point is later than it.
abbrev pub IsLive : Option ℕ → List Action → Type 0
IsLive previous [] = Unit
IsLive previous (arrives feature source t v ∷ actions) = Fresh previous t × IsLive previous actions
IsLive previous (decides t ∷ actions) = After previous t × IsLive (some t) actions

-- The contract is a dictionary: every entry is the one of its key.
abbrev pub IsDictionary : Contract → Type 0
IsDictionary contract = All (λ p. entry_of contract p.0 ≡ some p.1) contract

-- The samples that a verdict adds to the series of `name`.
abbrev gained : Verdict → String → String → List ScalarSample
gained (accepted s) feature name = if str_eq name feature then s ∷ [] else []
gained unknown feature name = []
gained mixed_source feature name = []
gained not_finite feature name = []
gained out_of_order feature name = []

samples-apply_verdict :
    (feature source : String) (v : Verdict) (b : SampleBuffer) (name : String)
    → (apply_verdict feature source v b).0.samples name ≡ b.samples name ++ gained v feature name
unfolding apply_verdict
samples-apply_verdict feature source unknown b name = sym (append-nil (b.samples name))
samples-apply_verdict feature source mixed_source b name = sym (append-nil (b.samples name))
samples-apply_verdict feature source not_finite b name = sym (append-nil (b.samples name))
samples-apply_verdict feature source out_of_order b name = sym (append-nil (b.samples name))
samples-apply_verdict feature source (accepted s) b name = elim (Bool-cases (str_eq name feature)) [
  | inl e ↦ rw e refl
  | inr e ↦ rw e (sym (append-nil (b.samples name)))
]

sources-apply_verdict :
    (feature source : String) (v : Verdict) (b c : SampleBuffer)
    → b.sources ≡ c.sources
    → (apply_verdict feature source v b).0.sources ≡ (apply_verdict feature source v c).0.sources
unfolding apply_verdict
sources-apply_verdict feature source unknown b c h = h
sources-apply_verdict feature source mixed_source b c h = h
sources-apply_verdict feature source not_finite b c h = ap (bind_source feature source) h
sources-apply_verdict feature source out_of_order b c h = ap (bind_source feature source) h
sources-apply_verdict feature source (accepted s) b c h = ap (bind_source feature source) h

abbrev age_of : Option Entry → ℕ
age_of none = 0
age_of (some e) = e.max_age_seconds

-- `part` is a pruned version of `full`, with nothing lost for decisions at `t` or later.
record Agrees (contract : Contract) (t : ℕ) (full part : SampleBuffer) : Type 0 where
  same_sources : part.sources ≡ full.sources
  ordered : (name : String) → SortedFrom 0 (full.samples name)
  dropped :
      (name : String)
      → Drops (age_of (entry_of contract name)) t (full.samples name) (part.samples name)

prune_entry-Drops :
    (e : Option Entry) (t u : ℕ) (full part : List ScalarSample)
    → t ≤ u
    → Drops (age_of e) t full part
    → Drops (age_of e) u full (prune_entry e u part)
prune_entry-Drops none t u full part h d = Drops-later 0 t u full part h d
prune_entry-Drops (some e) t u full part h d =
    prune_series-Drops e.max_age_seconds t u full part h d

module _ (contract : Contract) where
  prune-Agrees :
      (t u : ℕ) (full part : SampleBuffer)
      → t ≤ u
      → Agrees contract t full part
      → Agrees contract u full (prune contract u part)
  unfolding prune
  prune-Agrees t u full part h a = record {
    same_sources = a.same_sources;
    ordered = a.ordered;
    dropped = λ name.
        prune_entry-Drops (entry_of contract name) t u (full.samples name) (part.samples name) h
          (a.dropped name);
  }

  verdict_on-Agrees :
      (t : ℕ) (full part : SampleBuffer) (feature source : String) (s : Option ℕ) (v : Option ℤ)
      → Agrees contract t full part
      → verdict_on contract part feature source s v ≡ verdict_on contract full feature source s v
  unfolding verdict_on
  verdict_on-Agrees t full part feature source s v a =
      let last =
        last_time-Drops (age_of (entry_of contract feature)) t (full.samples feature)
          (part.samples feature) (a.dropped feature) in
      rw (a.same_sources, last) refl

  gained-SortedFrom :
      (b : SampleBuffer) (feature source name : String) (s : Option ℕ) (v : Option ℤ) (w : Verdict)
      → verdict_on contract b feature source s v ≡ w
      → SortedFrom 0 (b.samples name)
      → SortedFrom 0 (b.samples name ++ gained w feature name)
  unfolding verdict_on
  gained-SortedFrom b feature source name s v (accepted x) e h =
      if_either (λ l. SortedFrom 0 (b.samples name ++ l)) (str_eq name feature)
        (λ q.
          let fits =
            (judge-accepted (entry_of contract feature) (b.sources feature)
              (last_time (b.samples feature)) source s v x e).0 in
          SortedFrom-snoc 0 (b.samples name) x h (omega arith)
            (rw ((eq_iff name feature).0 q) fits))
        (λ q. rw append-nil h)
  gained-SortedFrom b feature source name s v unknown e h = rw append-nil h
  gained-SortedFrom b feature source name s v mixed_source e h = rw append-nil h
  gained-SortedFrom b feature source name s v not_finite e h = rw append-nil h
  gained-SortedFrom b feature source name s v out_of_order e h = rw append-nil h

  add-Agrees :
      (t : ℕ) (full part : SampleBuffer) (feature source : String) (s : Option ℕ) (v : Option ℤ)
      → Agrees contract t full part
      → Agrees contract t
          (add contract full feature source s v).0
          (add contract part feature source s v).0
  unfolding add
  add-Agrees t full part feature source s v a =
      let w = verdict_on contract full feature source s v in
      let same = verdict_on-Agrees t full part feature source s v a in
      rw same record {
        same_sources = sources-apply_verdict feature source w part full a.same_sources;
        ordered = λ name.
            rw (samples-apply_verdict feature source w full name)
              (gained-SortedFrom full feature source name s v w refl (a.ordered name));
        dropped = λ name.
            rw
              (
                samples-apply_verdict feature source w full name,
                samples-apply_verdict feature source w part name,
              )
              (Drops-append (age_of (entry_of contract name)) t (full.samples name)
                (part.samples name) (gained w feature name) (a.dropped name));
      }

  gained-later :
      (t : ℕ) (b : SampleBuffer) (feature source name : String) (s : Option ℕ) (v : Option ℤ)
      (w : Verdict)
      → verdict_on contract b feature source s v ≡ w
      → Fresh (some t) s
      → All (λ x. t < x.timestamp) (gained w feature name)
  unfolding verdict_on
  gained-later t b feature source name s v (accepted x) e h =
      let (order, q, r) =
        judge-accepted (entry_of contract feature) (b.sources feature)
          (last_time (b.samples feature)) source s v x e in
      if_either (All (λ x. t < x.timestamp)) (str_eq name feature)
        (λ _. (subst (Fresh (some t)) q h, tt)) (λ _. tt)
  gained-later t b feature source name s v unknown e h = tt
  gained-later t b feature source name s v mixed_source e h = tt
  gained-later t b feature source name s v not_finite e h = tt
  gained-later t b feature source name s v out_of_order e h = tt

  -- After a grid point at `t` only samples later than `t` are recorded.
  recorded-later :
      (t : ℕ) (b : SampleBuffer) (actions : List Action) (name : String)
      → IsLive (some t) actions
      → (later : List ScalarSample) × ((recorded contract b actions).samples name
          ≡ b.samples name ++ later)
        × All (λ x. t < x.timestamp) later
  unfolding recorded add verdict_on
  recorded-later t b [] name h = ([], sym (append-nil (b.samples name)), tt)
  recorded-later t b (decides u ∷ actions) name (h, k) =
      let (later, e, q) = recorded-later u b actions name k in
      (
        later,
        e,
        All-mono (λ x. u < x.timestamp) (λ x. t < x.timestamp) (λ x r. omega (arith, h, r)) later q,
      )
  recorded-later t b (arrives feature source s v ∷ actions) name (h, k) =
      let w = verdict_on contract b feature source s v in
      let (later, e, q) = recorded-later t (add contract b feature source s v).0 actions name k in
      (
        gained w feature name ++ later,
        e
            ∙ rw (samples-apply_verdict feature source w b name)
                (append_assoc (b.samples name) (gained w feature name) later),
        All-append (λ x. t < x.timestamp) (gained w feature name) later
            (gained-later t b feature source name s v w refl h) q,
      )

  cells_at-Agrees :
      (t : ℕ) (full part final : SampleBuffer) (entries : Contract)
      → Agrees contract t full part
      → ((name : String)
          → (later : List ScalarSample) × (final.samples name ≡ full.samples name ++ later)
            × All (λ x. t < x.timestamp) later)
      → All (λ p. entry_of contract p.0 ≡ some p.1) entries
      → cells_at (specs_of entries part.sources) part.samples t
        ≡ cells_at (specs_of entries final.sources) final.samples t
  unfolding cells_at specs_of
  cells_at-Agrees t full part final [] a later d = refl
  cells_at-Agrees t full part final ((name, e) ∷ entries) a later (d, ds) =
      let (l, q, r) = later name in
      let dropped =
        subst (λ o. Drops (age_of o) t (full.samples name) (part.samples name)) d
          (a.dropped name) in
      let shorter =
        select-Drops e.max_age_seconds t t 0 (full.samples name) (part.samples name) (omega arith)
          (a.ordered name) dropped in
      let longer = select-future (full.samples name) l e.max_age_seconds t r in
      rw (q, longer, shorter, cells_at-Agrees t full part final entries a later ds) refl

  not_after-After : (previous : Option ℕ) (t : ℕ) → After previous t → not_after t previous ≡ false
  not_after-After none t h = refl
  not_after-After (some u) t h = ground arith

  rows_from-online_rows :
      (t index : ℕ) (previous : Option ℕ) (full part : SampleBuffer) (actions : List Action)
      → IsDictionary contract
      → Agrees contract t full part
      → ((u : ℕ) → After previous u → t ≤ u)
      → IsLive previous actions
      → rows_from
          (specs_of contract (recorded contract full actions).sources)
          (recorded contract full actions).samples
          index
          previous
          (decision_times actions)
        ≡ ok (online_rows contract index part actions)
  unfolding rows_from recorded online_rows raw_row
  rows_from-online_rows t index previous full part [] d a m h = refl
  rows_from-online_rows t index previous full part (arrives feature source s v ∷ actions) d a m h =
      rows_from-online_rows t index previous (add contract full feature source s v).0
        (add contract part feature source s v).0 actions d
        (add-Agrees t full part feature source s v a) m h.1
  rows_from-online_rows t index previous full part (decides u ∷ actions) d a m (h, k) =
      let final = recorded contract full actions in
      let now = prune-Agrees t u full part (m u h) a in
      let rest =
        rows_from-online_rows u (suc index) (some u) full (prune contract u part) actions d now
          (λ w q. omega (arith, q)) k in
      let cells =
        cells_at-Agrees u full part final contract
          (record {
            same_sources = a.same_sources;
            ordered = a.ordered;
            dropped = λ name.
                Drops-later (age_of (entry_of contract name)) t u (full.samples name)
                  (part.samples name) (m u h) (a.dropped name);
          })
          (λ name. recorded-later u full actions name k) d in
      rw (not_after-After previous u h, rest, cells) refl

-- The rows that the monitor makes while samples arrive and old ones are pruned are the rows that the
-- offline extraction makes from the whole recording, if the contract is a dictionary, the recording
-- passes the extraction's checks, grid points increase, and every sample that arrives after a grid
-- point is later than it.
pub online_rows-offline :
    (contract : Contract) (actions : List Action) (run_id : String) (leaking : FeatureSpec → Bool)
    → IsDictionary contract
    → IsLive none actions
    → str_eq run_id "" ≡ false
    → prepare leaking
        (recorded contract empty_buffer actions).samples
        []
        (specs_of contract (recorded contract empty_buffer actions).sources)
      ≡ ok tt
    → extract_decision_rows run_id
        (decision_times actions)
        (specs_of contract (recorded contract empty_buffer actions).sources)
        (recorded contract empty_buffer actions).samples
        leaking
      ≡ ok (online_rows contract 0 empty_buffer actions)
unfolding extract_decision_rows
online_rows-offline contract actions run_id leaking d live named prepared =
    rw (named, prepared)
      (rows_from-online_rows contract 0 0 none empty_buffer empty_buffer actions d
        (record { same_sources = refl; ordered = λ name. tt; dropped = λ name. refl })
        (λ u h. omega arith) live)
