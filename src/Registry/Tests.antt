-- ===== src/Registry/Tests.antt =====
-- The theorems on the graph registry at one destination with two graphs.
use the_bureau.Prelude.{Option, String, [], none, some, ℕ, ◌∷◌}
use the_bureau.Registry.{GraphSummary, Registry, SummaryStatus}

abbrev summary : String → SummaryStatus → Option ℕ → GraphSummary
summary id status failed_at = record {
  graph_id = id;
  project = "p";
  status = status;
  predicted_files = [];
  started_at = 1;
  updated_at = 1;
  failed_at = failed_at;
}

abbrev two_graphs : Registry
two_graphs = record {
  metas =
      ("g1", summary "g1" SummaryStatus.validation_failed (some 5))
      ∷ ("g2", summary "g2" SummaryStatus.reworking none)
      ∷ [];
  files = [];
}
