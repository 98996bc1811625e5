-- ===== src/Monitor/Stream.antt =====
-- The rows of `WindowBuilder` of ros_ws/src/failure_monitor/failure_monitor/monitor_core.py: each grid
-- point extracts one row from the live buffer and prunes it, while samples keep arriving. The windows
-- of enriched rows and the model behind them are left out, and so are the exceptions of the extraction,
-- which `extracts` of Monitor.Core stands for.
pub mod Offline
use Prim.Native.String.{String}
use failure_prediction.Prelude.{ℕ, suc, Option, none, some, List, [], ◌∷◌}
use failure_prediction.Prelude.Int.{ℤ}
use failure_prediction.Monitor.Causal.{FeatureSpec, Row, cells_at}
use failure_prediction.Monitor.Buffer.{Contract, Entry, SampleBuffer, or_source, add, prune}

-- A sample of a message, or a grid point.
pub data Action : Type 0 where
  arrives : String → String → Option ℕ → Option ℤ → Action
  decides : ℕ → Action

abbrev first_source : List String → String
first_source [] = ""
first_source (s ∷ sources) = s

-- `resolve_feature_specs` over `contract_rows()` (src/features/schema.py): every feature of the
-- contract, with its observed source or else the first one declared.
unfoldable pub specs_of : Contract → (String → Option String) → List FeatureSpec
specs_of [] sources = []
specs_of ((name, e) ∷ contract) sources =
    (record {
      name = name;
      source = or_source (sources name) (first_source e.sources);
      maximum_age_seconds = e.max_age_seconds;
    })
    ∷ specs_of contract sources

-- `_raw_row`
unfoldable pub raw_row : Contract → SampleBuffer → ℕ → ℕ → Row
unfolding specs_of
raw_row contract b index t = record {
  decision_index = index;
  decision_time = t;
  cells = cells_at (specs_of contract b.sources) b.samples t;
}

-- The rows that a stream of samples and grid points leads to.
unfoldable pub online_rows : Contract → ℕ → SampleBuffer → List Action → List Row
online_rows contract index b [] = []
online_rows contract index b (arrives feature source t v ∷ actions) =
    online_rows contract index (add contract b feature source t v).0 actions
online_rows contract index b (decides t ∷ actions) =
    raw_row contract b index t ∷ online_rows contract (suc index) (prune contract t b) actions

-- The buffer that keeps every accepted sample, as the files of a recorded episode do.
unfoldable pub recorded : Contract → SampleBuffer → List Action → SampleBuffer
recorded contract b [] = b
recorded contract b (arrives feature source t v ∷ actions) =
    recorded contract (add contract b feature source t v).0 actions
recorded contract b (decides t ∷ actions) = recorded contract b actions

abbrev pub decision_times : List Action → List ℕ
decision_times [] = []
decision_times (arrives feature source t v ∷ actions) = decision_times actions
decision_times (decides t ∷ actions) = t ∷ decision_times actions
