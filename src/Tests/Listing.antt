-- ===== src/Tests/Listing.antt =====
-- The theorems on what the commands print, on the small repository.
use corejack.Prelude.{List, [], ◌∷◌, ◌++◌, ◌≡◌, length}
use corejack.Text.{Text, codes}
use corejack.Failure.{ok}
use corejack.Script.{print}
use corejack.Descriptor.{fusesoc_core_flags}
use corejack.Cli.{core_head, core_tail, print_core_check, list_pairs}
use corejack.Cli.Reports.{print_core_check-passes, Listed, list_pairs-Listed}
use corejack.Tests.Repo.{repo}
use corejack.Tests.Runs.{runs}

print_core_check-passes_example :
    (flags : List Text) × (fusesoc_core_flags runs.report.identity.text ≡ ok flags)
    × (print_core_check repo (codes "c")
        ≡ print (core_head (codes "c") runs.report ++ core_tail runs.report flags))
    × (length (core_head (codes "c") runs.report ++ core_tail runs.report flags) ≡ 20)
print_core_check-passes_example = print_core_check-passes repo (codes "c") runs.core_passes

abbrev pairs : List (Text × Text)
pairs = (codes "c", codes "b") ∷ []

list_pairs-Listed_example :
    Listed repo pairs (list_pairs repo pairs).printed runs.listed.0 runs.listed.1
list_pairs-Listed_example = list_pairs-Listed repo pairs runs.lists_pairs
