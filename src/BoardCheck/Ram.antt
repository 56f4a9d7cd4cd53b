-- ===== src/BoardCheck/Ram.antt =====
-- The SRAM size of a checked board, in bytes and in words.
use native.Mathlib.Nat.{div-add-mod}
use corejack.Prelude.{ℕ, ◌*◌, ◌%◌, ◌<◌, List, [], ◌∷◌, Option, none, some, ◌≡◌, refl, arith, ==_iff}
use corejack.Text.{Text, codes, strip_by, lstrip_by, rstrip_by, is_space}
use corejack.Failure.{ok, >>=-eq-ok, check-eq-ok}
use corejack.Host.{Host}
use corejack.Number.{pos, int_literal, parse_positive_int}
use corejack.Rtl.{mem_num_banks}
use corejack.Yaml.{yaml_path_scalar}
use corejack.Descriptor.{at2, or_default}
use corejack.Descriptor.Config.{ram_bytes_of}
use corejack.BoardCheck.{check_ram_bytes}

pub int_literal-positive :
    (value field : Text) {n : ℕ}
    → parse_positive_int value field ≡ ok n
    → (int_literal value ≡ some (pos n)) × (0 < n)
unfolding parse_positive_int
int_literal-positive value field h = ground arith

mod_four : (n b : ℕ) → n % (8 * b) ≡ 0 → n % 4 ≡ 0
mod_four n b h = omega (arith, div-add-mod n (8 * b))

-- An empty text is no number, so `or` takes no default for a size that was accepted.
or_default-number :
    (raw d : Text) {n : ℕ} → int_literal raw ≡ some (pos n) → or_default (some raw) d ≡ raw
or_default-number [] d h = unfold int_literal strip_by lstrip_by rstrip_by in cc h
or_default-number (c ∷ s) d h = refl

default_bytes : int_literal (codes "1048576") ≡ some (pos 1048576)
unfolding int_literal strip_by is_space
default_bytes = refl

abbrev pub ram_path : List Text
ram_path = at2 (codes "memory") (codes "ram_bytes")

-- The size that the build uses, in bytes, and what was checked of it.
pub record RamSize (host : Host) (text : Text) : Type 0 where
  pub bytes : ℕ
  pub reads : int_literal (ram_bytes_of text) ≡ some (pos bytes)
  pub is_positive : 0 < bytes
  pub whole_words : bytes % 4 ≡ 0
  pub fills_banks :
      {raw : Text}
      → yaml_path_scalar text ram_path ≡ some raw
      → (banks : ℕ) × (mem_num_banks host ≡ ok banks) × (bytes % (8 * banks) ≡ 0)

banks_of :
    (host : Host) (raw : Text)
    → check_ram_bytes host (some raw) ≡ ok tt
    → (n : ℕ) × (parse_positive_int raw (codes "memory.ram_bytes") ≡ ok n)
      × ((banks : ℕ) × (mem_num_banks host ≡ ok banks) × (n % (8 * banks) ≡ 0))
unfolding check_ram_bytes
banks_of host raw h =
    let (n, e, h1) = >>=-eq-ok (parse_positive_int raw (codes "memory.ram_bytes")) _ h in
    let (banks, e', h2) = >>=-eq-ok (mem_num_banks host) _ h1 in
    (n, e, (banks, e', (==_iff (n % (8 * banks)) 0).0 (check-eq-ok _ _ h2)))

RamSize-of :
    (host : Host) (text : Text) (o : Option Text)
    → yaml_path_scalar text ram_path ≡ o
    → check_ram_bytes host o ≡ ok tt
    → RamSize host text
unfolding ram_bytes_of
RamSize-of host text none e h = record {
  bytes = 1048576;
  reads = rw e default_bytes;
  is_positive = omega arith;
  whole_words = refl;
  fills_banks = λ p. cc;
}
RamSize-of host text (some raw) e h =
    let (n, p, (banks, q, m)) = banks_of host raw h in
    let (lit, gt) = int_literal-positive raw (codes "memory.ram_bytes") p in
    record {
      bytes = n;
      reads = rw e (rw (or_default-number raw (codes "1048576") lit) lit);
      is_positive = gt;
      whole_words = mod_four n banks m;
      fills_banks = λ _. (banks, q, m);
    }

pub ram_size :
    (host : Host) (text : Text)
    → check_ram_bytes host (yaml_path_scalar text ram_path) ≡ ok tt
    → RamSize host text
ram_size host text h = RamSize-of host text (yaml_path_scalar text ram_path) refl h
