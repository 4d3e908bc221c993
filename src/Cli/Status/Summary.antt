-- ===== src/Cli/Status/Summary.antt =====
-- The end of `run_status` in cli/src/main.rs: the summary of the reports.
use brewmble.Prelude.{List, Text, [], decimal, filter, join, length, lit, map, ◌++◌, ◌∷◌}
use brewmble.Cli.Status.Workers.{NodeReport}

abbrev pub outdated_nodes : List NodeReport → List Text
outdated_nodes reports = map (λ r. r.name) (filter (λ (r : NodeReport). r.outdated) reports)

abbrev pub failed_nodes : List NodeReport → List Text
failed_nodes reports = map (λ r. r.name) (filter (λ (r : NodeReport). r.is_failed) reports)

abbrev outdated_line : List Text → Text
outdated_line [] = lit "- All nodes are up to date."
outdated_line (n ∷ ns) =
    lit "- "
    ++ (decimal (length (n ∷ ns)) ++ (lit " node(s) are outdated: " ++ join (lit ", ") (n ∷ ns)))

abbrev failed_lines : List Text → List Text
failed_lines [] = []
failed_lines (n ∷ ns) =
    (lit "- "
      ++ (decimal (length (n ∷ ns))
          ++ (lit " node(s) failed to respond: " ++ join (lit ", ") (n ∷ ns))))
    ∷ []

unfoldable pub summary : List NodeReport → List Text
summary [] = []
summary (r ∷ rs) =
    lit "Summary:" ∷ outdated_line (outdated_nodes (r ∷ rs)) ∷ failed_lines (failed_nodes (r ∷ rs))
