-- ===== src/Descriptor/Words.antt =====
-- The SRAM size that the Makefile gets, in bytes and in words.
use corejack.Prelude.{ℕ, ◌*◌, ◌/◌, ◌%◌, ◌<◌, some, ◌≡◌, sym, ◌∙◌, arith, inl, inr, Option-cases}
use mathlib.Core.Option.{some-injective}
use corejack.Text.{Text}
use corejack.Failure.{ok, >>=-eq-ok}
use corejack.Host.{Host}
use corejack.Number.{ℤ, int_literal, quarter, show_int, pos}
use corejack.Number.RoundTrip.{int_literal-decimal}
use corejack.Rtl.{mem_num_banks}
use corejack.Yaml.{yaml_path_scalar}
use corejack.Descriptor.Config.{
  BoardConfig, TargetConfig, board_config, core_config, assemble, target_config, ram_bytes_of,
}
use corejack.BoardCheck.{BoardFields, board_fields}
use corejack.BoardCheck.Fields.{ram_bytes-board_fields}
use corejack.BoardCheck.Ram.{ram_size, ram_path}

-- The words are a quarter of the bytes, by the division of the source.
record Quartered (bytes words text : Text) : Type 0 where
  size : ℤ
  reads : int_literal text ≡ some size
  bytes_text : bytes ≡ text
  words_text : words ≡ show_int (quarter size)

board_config-Quartered :
    (host : Host) (core board text : Text) {b : BoardConfig}
    → board_config host core board text ≡ ok b
    → Quartered b.ram_bytes b.ram_words (ram_bytes_of text)
unfolding board_config
board_config-Quartered host core board text {b} h =
    elim (Option-cases (int_literal (ram_bytes_of text))) [
      | inl bad ↦ absurd (ground arith)
      | inr (size, e) ↦ record {
        size = size;
        reads = e;
        bytes_text = ground arith;
        words_text = ground arith;
      }
    ]

target_config-Quartered :
    (host : Host) (core board core_text text : Text) {c : TargetConfig}
    → target_config host core board core_text text ≡ ok c
    → Quartered c.soc_ram_bytes c.ram_words (ram_bytes_of text)
unfolding target_config assemble
target_config-Quartered host core board core_text text h =
    let (b, eb, h1) = >>=-eq-ok (board_config host core board text) _ h in
    let (c, ec, h2) = >>=-eq-ok (core_config host core board core_text) _ h1 in
    let q = board_config-Quartered host core board text eb in
    record {
      size = q.size;
      reads = q.reads;
      bytes_text = ground (arith, q.bytes_text);
      words_text = ground (arith, q.words_text);
    }

-- The SRAM size of a configuration: its byte and word counts as numbers, and the banks they fill.
pub record RamOutput (host : Host) (text : Text) (c : TargetConfig) : Type 0 where
  pub bytes : ℕ
  pub words : ℕ
  pub bytes_read : int_literal c.soc_ram_bytes ≡ some (pos bytes)
  pub words_read : int_literal c.ram_words ≡ some (pos words)
  pub four_to_one : 4 * words ≡ bytes
  pub is_positive : 0 < words
  pub fills_banks :
      {raw : Text}
      → yaml_path_scalar text ram_path ≡ some raw
      → (banks : ℕ) × (mem_num_banks host ≡ ok banks) × (bytes % (8 * banks) ≡ 0)

-- If the fields of a board passed `board_check` and `target_config` gives a configuration for it, the
-- byte and word counts of that configuration are numerals, the bytes are four times the words and
-- positive, and a size that the descriptor gives fills each of the SRAM banks of the RTL with whole
-- 64-bit words.
pub target_config-RamOutput :
    (host : Host) (core board core_text : Text) {f : BoardFields} {c : TargetConfig}
    → board_fields host board ≡ ok f
    → target_config host core board core_text f.text ≡ ok c
    → RamOutput host f.text c
unfolding show_int quarter
target_config-RamOutput host core board core_text {f} {c} hf hc =
    let size = ram_size host f.text (ram_bytes-board_fields host board hf) in
    let q = target_config-Quartered host core board core_text f.text hc in
    let same : q.size ≡ pos size.bytes = some-injective _ _ (sym q.reads ∙ size.reads) in
    record {
      bytes = size.bytes;
      words = size.bytes / 4;
      bytes_read = rw q.bytes_text size.reads;
      words_read = rw (q.words_text, same) (int_literal-decimal (size.bytes / 4));
      four_to_one = omega (arith, size.whole_words);
      is_positive = omega (arith, size.whole_words, size.is_positive);
      fills_banks = size.fills_banks;
    }
