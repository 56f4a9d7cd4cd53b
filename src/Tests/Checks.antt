-- ===== src/Tests/Checks.antt =====
-- The theorems on the descriptor checks, on the small repository.
use corejack.Prelude.{true, ◌↔◌, List, [], ◌∷◌, ◌≡◌, refl, All, arith, not, all}
use corejack.Text.{is_break, is_space, is_alnum, is_key_char, ends_by, Text, codes, contains}
use corejack.Text.Lines.{OneLine, unlines}
use corejack.Failure.{ok}
use corejack.Yaml.{yaml_path_scalar}
use corejack.Yaml.Render.{Doc, end, scalar, items, section, render}
use corejack.Yaml.Lookup.{lookup}
use corejack.Yaml.RoundTrip.{yaml_path_scalar-render, or_missing}
use corejack.BoardCheck.{BoardFields}
use corejack.BoardCheck.Rules.{board_check}
use corejack.Descriptor.Config.{TargetConfig, target_config}
use corejack.Descriptor.Total.{board_check-Templates, target_config-checked}
use corejack.Descriptor.Words.{RamOutput, target_config-RamOutput}
use corejack.Target.{target_check}
use corejack.Target.Checked.{PairPasses, check_pair-PairPasses}
use corejack.Target.Passes.{Ready, target_check_iff}
use corejack.Tests.Repo.{repo}
use corejack.Tests.Runs.{runs}

check_pair-PairPasses_example : PairPasses repo (codes "b") (codes "c")
check_pair-PairPasses_example =
    check_pair-PairPasses repo (codes "c") (codes "b") runs.top runs.board_passes runs.core_passes
      runs.is_listed runs.top_formats runs.root_formats

target_check_iff_example : ((target_check repo (codes "b")).result ≡ ok tt) ↔ (
    (x : BoardFields × Text) × (board_check repo (codes "b") ≡ ok x)
    × ((core : Text) → contains x.0.compatible_cores core ≡ true → Ready repo (codes "b") x.0 core))
target_check_iff_example = target_check_iff repo (codes "b")

target_config-checked_example :
    (c : TargetConfig) × (target_config repo
        (codes "c")
        (codes "b")
        runs.report.identity.text
        runs.fields.text
      ≡ ok c)
    × (c.fpga_top ≡ runs.board_top)
    × (c.fpga_work_root ≡ repo.resolve runs.root)
target_config-checked_example =
    target_config-checked repo (codes "c") (codes "b") runs.top runs.board_passes runs.core_passes
      runs.is_listed runs.top_formats runs.root_formats

target_config-RamOutput_example :
    RamOutput repo runs.fields.text
      (target_config-checked repo
        (codes "c")
        (codes "b")
        runs.top
        runs.board_passes
        runs.core_passes
        runs.is_listed
        runs.top_formats
        runs.root_formats).0
target_config-RamOutput_example =
    target_config-RamOutput repo (codes "c") (codes "b") runs.report.identity.text
      (board_check-Templates repo (codes "b") runs.top runs.board_passes).fields
      (target_config-checked repo (codes "c") (codes "b") runs.top runs.board_passes
        runs.core_passes runs.is_listed runs.top_formats runs.root_formats).1

OneLine-all : (l : Text) → all (λ c. not (is_break c)) l ≡ true → OneLine l
OneLine-all [] h = tt
OneLine-all (c ∷ l) h = (ground arith, OneLine-all l (ground arith))

lines-OneLine : (ls : List Text) → all (all (λ c. not (is_break c))) ls ≡ true → All OneLine ls
lines-OneLine [] h = tt
lines-OneLine (l ∷ ls) h = (OneLine-all l (ground arith), lines-OneLine ls (ground arith))

-- `isa:` with two scalars, and a list.
abbrev isa_doc : Doc
isa_doc =
    section (codes "isa")
      (scalar (codes "xlen") (codes "32") (scalar (codes "march") (codes "rv32imc") end))
      (items (codes "compatible_boards") (codes "axku5" ∷ []) end)

yaml_path_scalar-render_example :
    yaml_path_scalar (unlines (render 0 isa_doc)) (codes "isa" ∷ codes "march" ∷ [])
    ≡ or_missing (lookup (codes "isa" ∷ codes "march" ∷ []) isa_doc)
unfolding ends_by is_space is_break is_key_char is_alnum
yaml_path_scalar-render_example =
    yaml_path_scalar-render isa_doc (codes "isa") (codes "march" ∷ [])
      (
        record { chars = refl; some_char = refl },
        (
          record { chars = refl; some_char = refl },
          record {
            some_char = refl;
            no_space_before = refl;
            no_space_after = refl;
            no_quote_before = refl;
          },
          (
            record { chars = refl; some_char = refl },
            record {
              some_char = refl;
              no_space_before = refl;
              no_space_after = refl;
              no_quote_before = refl;
            },
            tt,
          ),
        ),
        (
          record { chars = refl; some_char = refl },
          (
            record {
              some_char = refl;
              no_space_before = refl;
              no_space_after = refl;
              no_quote_before = refl;
            },
            tt,
          ),
          tt,
        ),
      )
      (lines-OneLine (render 0 isa_doc) refl)
