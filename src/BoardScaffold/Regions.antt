-- ===== src/BoardScaffold/Regions.antt =====
-- The target `fpga` and its options in corejack.core, by the lines before a line, and what the loop of
-- `replace_in_fpga_target` does with a line there.
use corejack.Prelude.{
  Bool, true, false, List, [], ◌∷◌, ◌++◌, ◌≡◌, refl, ◌∙◌, subst, append-nil, not, ◌&&◌, ◌||◌, arith,
  inl, inr, Bool-cases,
}
use corejack.Text.{Text, codes, strip_prefix, starts_with, text_eq}
use corejack.BoardScaffold.{Board, wrap_name}
use corejack.BoardScaffold.Target.{
  Scan, enter_target, enter_options, is_heading, is_part, is_top, part_line, choice, fileset_line,
  entered, written, scanned,
}

-- Where a line stands, by the lines before it, the last one first, of which it is itself the first: in the
-- target `fpga` if no other heading of two columns stands behind the one of that target, and in its
-- options if no other heading of four columns stands behind theirs.
abbrev pub in_target : List Text → Bool
in_target [] = false
in_target (line ∷ before) =
    text_eq line (codes "  fpga:") || (not (is_heading (codes "  ") line) && in_target before)

abbrev pub in_options : List Text → Bool
in_options [] = false
in_options (line ∷ before) =
    in_target (line ∷ before)
    && (text_eq line (codes "    flow_options:")
        || (not (is_heading (codes "    ") line) && in_options before))

abbrev pub names_part : List Text → Text → Bool
names_part before line = in_options (line ∷ before) && starts_with (codes "      part: ") line

abbrev pub names_top : List Text → Text → Bool
names_top before line = in_target (line ∷ before) && starts_with (codes "    toplevel: ") line

-- A part is no toplevel, whatever is behind it.
part-no_top :
    (line more : Text)
    → starts_with (codes "      part: ") line ≡ true
    → starts_with (codes "    toplevel: ") (line ++ more) ≡ false
unfolding strip_prefix
part-no_top (c0 ∷ c1 ∷ c2 ∷ c3 ∷ c4 ∷ line) more h = ground (arith, h)
part-no_top (c0 ∷ c1 ∷ c2 ∷ c3 ∷ []) more h = absurd (ground (arith, h))
part-no_top (c0 ∷ c1 ∷ c2 ∷ []) more h = absurd (ground (arith, h))
part-no_top (c0 ∷ c1 ∷ []) more h = absurd (ground (arith, h))
part-no_top (c0 ∷ []) more h = absurd (ground (arith, h))
part-no_top [] more h = cc

part-no_top' :
    (line : Text)
    → starts_with (codes "      part: ") line ≡ true
    → starts_with (codes "    toplevel: ") line ≡ false
part-no_top' line h =
    subst (λ t. starts_with (codes "    toplevel: ") t ≡ false) (append-nil line)
      (part-no_top line [] h)

pub or-false : (b : Bool) → b || false ≡ b
or-false b = ground arith

-- The state of the scan is where the next line stands.
pub record Follows (s : Scan) (before : List Text) : Type 0 where
  pub target : s.in_fpga ≡ in_target before
  pub options : s.in_flow_options ≡ in_options before

in_options-in_target : (before : List Text) → in_options before && not (in_target before) ≡ false
in_options-in_target [] = refl
in_options-in_target (line ∷ before) = ground arith

entered-Follows :
    (line : Text) (s : Scan) (before : List Text)
    → Follows s before
    → Follows (entered line s) (line ∷ before)
unfolding enter_target enter_options
entered-Follows line s before h = record {
  target = ground (arith, h.target);
  options = ground (arith, h.target, h.options, in_options-in_target before);
}

-- A scan changes nothing else before its two tests.
entered-changed :
    (line : Text) (s : Scan)
    → ((entered line s).changed_filesets ≡ s.changed_filesets)
      × ((entered line s).changed_part ≡ s.changed_part)
      × ((entered line s).changed_top ≡ s.changed_top)
unfolding enter_target enter_options
entered-changed line s = (ground arith, ground arith, ground arith)

pub scanned-Follows :
    (a : Board) (line : Text) (s : Scan) (before : List Text)
    → Follows s before
    → Follows (scanned a s line) (line ∷ before)
unfolding scanned
scanned-Follows a line s before h =
    let f = entered-Follows line s before h in record { target = f.target; options = f.options }

is_part-names_part :
    (line : Text) (s : Scan) (before : List Text)
    → Follows s before
    → is_part (entered line s) line ≡ names_part before line
is_part-names_part line s before h =
    let f = entered-Follows line s before h in
    ground (arith, f.target, f.options, in_options-in_target (line ∷ before))

is_top-names_top :
    (line : Text) (s : Scan) (before : List Text)
    → Follows s before
    → is_top (entered line s) line ≡ names_top before line
is_top-names_top line s before h =
    let f = entered-Follows line s before h in ground (arith, f.target)

-- The two tests of a line never hold both, also behind the choice for a part.
part_line-is_top :
    (a : Board) (t : Scan) (line : Text) → is_top t (part_line a t line) ≡ is_top t line
part_line-is_top a t line = elim (Bool-cases (is_part t line)) [
  | inr no_part ↦ rw no_part refl
  | inl is_a_part ↦
      let begins : starts_with (codes "      part: ") line ≡ true = ground (arith, is_a_part) in
      let with_choice = part-no_top line (choice a a.part) begins in
      let without : starts_with (codes "    toplevel: ") line ≡ false = part-no_top' line begins in
      ground (arith, is_a_part, with_choice, without)
]

module _ (a : Board) (line : Text) (s : Scan) (before : List Text) (h : Follows s before) where
  part_is : is_part (entered line s) line ≡ names_part before line
  part_is = is_part-names_part line s before h

  top_is : is_top (entered line s) (part_line a (entered line s) line) ≡ names_top before line
  top_is = part_line-is_top a (entered line s) line ∙ is_top-names_top line s before h

  pub scanned-changed_part :
      (scanned a s line).changed_part ≡ s.changed_part || names_part before line
  unfolding scanned
  scanned-changed_part = rw (part_is, (entered-changed line s).1) refl

  pub scanned-changed_top : (scanned a s line).changed_top ≡ s.changed_top || names_top before line
  unfolding scanned
  scanned-changed_top = rw (top_is, (entered-changed line s).2) refl

  pub scanned-changed_filesets :
      (scanned a s line).changed_filesets ≡ s.changed_filesets || names_top before line
  unfolding scanned
  scanned-changed_filesets = rw (top_is, (entered-changed line s).0) refl

  pub part_not_top : names_part before line ≡ true → names_top before line ≡ false
  part_not_top e =
      let begins : starts_with (codes "      part: ") line ≡ true = ground (arith, e) in
      ground (arith, part-no_top' line begins)

  not_part : names_top before line ≡ true → names_part before line ≡ false
  not_part e = elim (Bool-cases (names_part before line)) [
    | inl p ↦ absurd (ground (arith, e, part_not_top p))
    | inr no_part ↦ no_part
  ]

  pub written-part :
      names_part before line ≡ true → written a s line ≡ (line ++ choice a a.part) ∷ []
  unfolding written
  written-part e = rw (top_is, part_not_top e, part_is, e) refl

  pub written-kept :
      names_part before line ≡ false → names_top before line ≡ false → written a s line ≡ line ∷ []
  unfolding written
  written-kept e f = rw (top_is, f, part_is, e) refl

  pub written-top :
      names_top before line ≡ true
      → s.changed_filesets ≡ true
      → written a s line ≡ (line ++ choice a (wrap_name a)) ∷ []
  unfolding written
  written-top e seen =
      rw
        (
          part_is,
          not_part e,
          is_top-names_top line s before h,
          e,
          (entered-changed line s).0 ∙ seen,
        )
        refl

  pub written-first_top :
      names_top before line ≡ true
      → s.changed_filesets ≡ false
      → written a s line ≡ fileset_line a ∷ (line ++ choice a (wrap_name a)) ∷ []
  unfolding written
  written-first_top e fresh =
      rw
        (
          part_is,
          not_part e,
          is_top-names_top line s before h,
          e,
          (entered-changed line s).0 ∙ fresh,
        )
        refl
