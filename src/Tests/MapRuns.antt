-- ===== src/Tests/MapRuns.antt =====
-- The theorems on the AXI address map, with two rules.
use corejack.Prelude.{List, [], ◌∷◌, ◌≡◌, refl, inl, inr, arith}
use corejack.Number.{pos, negsuc}
use corejack.Number.Order.{◌+ℤ◌}
use corejack.Text.{codes, text_eq}
use corejack.AxiMap.{
  Rule, Window, Values, passed, check_map, window_of, windows_of, value_of, remove_suffix,
  is_distinct, insert_by, sort_by, check_neighbours,
}
use corejack.AxiMap.Disjoint.{In, Apart, IsWindowOf, check_map-Apart, check_map-IsWindowOf}
use corejack.Rtl.{to_lower}

abbrev values : Values
values =
    (codes "MemBaseAddr", pos 2147483648)
    ∷ (codes "MemSize", pos 1048576)
    ∷ (codes "DbgBaseAddr", pos 0)
    ∷ (codes "DbgSize", pos 4096)
    ∷ []

abbrev mem_rule : Rule
mem_rule = record { idx = 0; base_name = codes "MemBaseAddr"; size_name = codes "MemSize" }

abbrev rules : List Rule
rules =
    mem_rule ∷ record { idx = 1; base_name = codes "DbgBaseAddr"; size_name = codes "DbgSize" } ∷ []

abbrev mem : Window
mem = record { idx = 0; start = pos 2147483648; end = pos 2148532224; name = codes "mem" }

abbrev dbg : Window
dbg = record { idx = 1; start = pos 0; end = pos 4096; name = codes "dbg" }

map-passes : check_map values rules ≡ passed (mem ∷ dbg ∷ [])
unfolding check_map window_of windows_of value_of remove_suffix is_distinct insert_by sort_by
    check_neighbours text_eq to_lower ◌+ℤ◌
map-passes = refl

check_map-Apart_example : Apart mem dbg
check_map-Apart_example =
    check_map-Apart values rules mem dbg map-passes (inl refl) (inr (inl refl)) (omega arith)

check_map-IsWindowOf_example : (w : Window) × In w (mem ∷ dbg ∷ []) × IsWindowOf values mem_rule w
check_map-IsWindowOf_example = check_map-IsWindowOf values rules mem_rule map-passes (inl refl)

-- A window below zero passes the check.
negative-passes :
    check_map
      ((codes "LowBaseAddr", negsuc 4095) ∷ (codes "LowSize", pos 4096) ∷ [])
      (record { idx = 0; base_name = codes "LowBaseAddr"; size_name = codes "LowSize" } ∷ [])
    ≡ passed (record { idx = 0; start = negsuc 4095; end = pos 0; name = codes "low" } ∷ [])
unfolding check_map window_of windows_of value_of remove_suffix is_distinct insert_by sort_by
    check_neighbours text_eq to_lower ◌+ℤ◌
negative-passes = refl
