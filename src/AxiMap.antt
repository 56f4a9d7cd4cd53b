-- ===== src/AxiMap.antt =====
-- bin/check_axi_addr_map.py: the windows of the AXI fabric in soc_top must be inside the 32-bit address
-- space, with one index each, and must not overlap. The script tests the end of a window against the
-- limit, and never that its start is not negative. The rules and the parameters are those that
-- `parse_soc_top` found in the text.
pub mod Disjoint
use corejack.Prelude.{
  ℕ, ◌+◌, ◌-◌, Bool, true, false, not, ◌&&◌, ◌||◌, List, [], ◌∷◌, ◌++◌, Option, none, some, ◌==◌,
  ltb, leb, if◌then◌else◌, is_nil, any, map,
}
use corejack.Number.{ℤ, pos}
use corejack.Number.Order.{◌+ℤ◌, leb_ℤ, ltb_ℤ}
use corejack.Text.{Text, codes, text_eq}
use corejack.Rtl.{to_lower}

pub record Rule : Type 0 where
  pub idx : ℕ
  pub base_name : Text
  pub size_name : Text

pub record Window : Type 0 where
  pub idx : ℕ
  pub start : ℤ
  pub end : ℤ
  pub name : Text

-- What the script reports, with status 1.
pub data MapError : Type 0 where
  no_rules duplicate_index : MapError
  unresolved : List Text → MapError
  zero_sized beyond_32_bits : Text → MapError
  overlapping : Window → Window → MapError

pub data Verdict {ℓ} (A : Type ℓ) : Type ℓ where
  passed : A → Verdict A
  rejected : MapError → Verdict A

infixl 5 ◌>>=◌
abbrev pub ◌>>=◌ {ℓ κ} : {A : Type ℓ} {B : Type κ} → Verdict A → (A → Verdict B) → Verdict B
rejected e >>= rest = rejected e
passed a >>= rest = rest a

-- `values`, in which a name stands once.
abbrev pub Values : Type 0
Values = List (Text × ℤ)

unfoldable pub value_of : Text → Values → Option ℤ
value_of name [] = none
value_of name ((n, v) ∷ values) =
    let rest = value_of name values in if text_eq n name then some v else rest

-- `base_name.removesuffix("BaseAddr")`
unfoldable pub remove_suffix : Text → Text → Text
remove_suffix suffix [] = []
remove_suffix suffix (c ∷ s) =
    let rest = remove_suffix suffix s in if text_eq (c ∷ s) suffix then [] else c ∷ rest

-- The window of a rule.
unfoldable pub window_of : Rule → Option ℤ → Option ℤ → Verdict Window
window_of r (some start) (some size) =
    if leb_ℤ size (pos 0)
    then rejected (zero_sized r.base_name)
    else if ltb_ℤ (pos 4294967296) (start +ℤ size)
    then rejected (beyond_32_bits r.base_name)
    else passed (record {
      idx = r.idx;
      start = start;
      end = start +ℤ size;
      name = map to_lower (remove_suffix (codes "BaseAddr") r.base_name);
    })
window_of r (some start) none = rejected (unresolved (r.size_name ∷ []))
window_of r none (some size) = rejected (unresolved (r.base_name ∷ []))
window_of r none none = rejected (unresolved (r.base_name ∷ r.size_name ∷ []))

unfoldable pub windows_of : Values → List Rule → Verdict (List Window)
windows_of values [] = passed []
windows_of values (r ∷ rules) =
    window_of r (value_of r.base_name values) (value_of r.size_name values) >>= λ w.
    windows_of values rules >>= λ ws. passed (w ∷ ws)

-- `len(indices) == len(set(indices))`
unfoldable pub is_distinct : List Window → Bool
is_distinct [] = true
is_distinct (w ∷ ws) = not (any (λ v. v.idx == w.idx) ws) && is_distinct ws

-- `sorted(windows, key=...)`
unfoldable pub insert_by : (Window → ℤ) → Window → List Window → List Window
insert_by key w [] = w ∷ []
insert_by key w (v ∷ vs) =
    let rest = insert_by key w vs in if leb_ℤ (key w) (key v) then w ∷ v ∷ vs else v ∷ rest

unfoldable pub sort_by : (Window → ℤ) → List Window → List Window
sort_by key [] = []
sort_by key (w ∷ ws) = insert_by key w (sort_by key ws)

-- `for prev, curr in zip(sorted_windows, sorted_windows[1:])`
unfoldable pub check_neighbours : List Window → Verdict (Unit {0})
check_neighbours [] = passed tt
check_neighbours (prev ∷ []) = passed tt
check_neighbours (prev ∷ curr ∷ rest) =
    if ltb_ℤ curr.start prev.end
    then rejected (overlapping prev curr)
    else check_neighbours (curr ∷ rest)

-- The windows in the order in which they are printed.
unfoldable pub check_map : Values → List Rule → Verdict (List Window)
check_map values rules =
    if is_nil rules
    then rejected no_rules
    else windows_of values rules >>= λ windows.
        if not (is_distinct windows)
        then rejected duplicate_index
        else check_neighbours (sort_by (λ w. w.start) windows) >>= λ _.
            passed (sort_by (λ w. pos w.idx) windows)
