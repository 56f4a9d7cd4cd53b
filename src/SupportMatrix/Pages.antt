-- ===== src/SupportMatrix/Pages.antt =====
-- The whole page of bin/render_support_matrix.py: `render_core_matrix` and `render`.
use corejack.Prelude.{Bool, not, Option, none, some, List, [], ◌∷◌, ◌++◌, map}
use corejack.Text.{Text, text_eq, codes, join}
use corejack.Failure.{Result, ok, map_result, ◌>>=◌}
use corejack.Host.{Host, core_dir, board_dir, descriptor_names}
use corejack.SupportMatrix.{
  CoreRow, core_record, board_record, joined, heading, quoted, table, render_board_matrix,
}

unfoldable pub core_row : CoreRow → List Text
core_row core =
    quoted core.name
    ∷ core.display
    ∷ quoted (codes "rv" ++ core.xlen)
    ∷ quoted core.march
    ∷ quoted core.mabi
    ∷ core.zephyr
    ∷ join (codes ", ") (map quoted core.compatible_boards)
    ∷ []

unfoldable pub render_core_matrix : List CoreRow → Text
render_core_matrix cores =
    table
      (codes "Core"
        ∷ codes "Display name"
        ∷ codes "XLEN"
        ∷ codes "MARCH"
        ∷ codes "MABI"
        ∷ codes "Zephyr console/timer smoke"
        ∷ codes "Compatible boards"
        ∷ [])
      (map core_row cores)

abbrev introduction : List Text
introduction =
    codes ".. Generated by bin/render_support_matrix.py - do not edit by hand."
    ∷ []
    ∷ (heading (codes "CoreJack Support Matrix") b'='
        ++ []
          ∷ codes "This page is generated from ``cfg/cores/*.yaml`` and ``cfg/boards/*.yaml``."
          ∷ codes "Regenerate it with:"
          ∷ []
          ∷ codes ".. code-block:: bash"
          ∷ []
          ∷ codes "   make support-matrix"
          ∷ []
          ∷ codes "Support status values come from core descriptors. ``supported`` means the"
          ∷ codes "corresponding acceptance criteria have been validated for that flow."
          ∷ codes "``planned`` means integration work is expected but not yet accepted."
          ∷ codes "``unsupported`` means the flow is intentionally not claimed."
          ∷ []
          ∷ [])

abbrev spaced_out : List Text → List Text
spaced_out [] = []
spaced_out (page ∷ pages) = page ∷ [] ∷ spaced_out pages

abbrev or_empty : Option Text → Text
or_empty none = []
or_empty (some text) = text

unfoldable pub render : Host → Result Text
render host = do
  cores ← map_result (core_record host) (descriptor_names host core_dir)
  boards ← map_result (board_record host) (descriptor_names host board_dir)
  pages ← map_result (render_board_matrix cores) boards
  ok (
      joined (
        introduction
        ++ (spaced_out pages
            ++ (heading (codes "Core ISA Summary") b'-'
                ++ [] ∷ render_core_matrix cores ∷ [] ∷ []))))

-- `main --check`: whether the page is stale, where a missing file counts as an empty one.
unfoldable pub is_stale : Host → Text → Result Bool
is_stale host path = do
  rendered ← render host
  ok (not (text_eq (or_empty (host.file path)) rendered))
