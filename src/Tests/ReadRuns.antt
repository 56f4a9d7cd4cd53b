-- ===== src/Tests/ReadRuns.antt =====
-- The descriptor of a new core, read back.
use corejack.Prelude.{
  Bool, true, not, ◌&&◌, List, [], ◌∷◌, ◌≡◌, refl, arith, all, All, is_nil, &&-eq-true,
}
use corejack.Text
use corejack.Text.{Text, codes, is_space, is_key_char, is_quote, is_break, ends_by}
use corejack.Text.Lines.{OneLine}
use corejack.Failure.{ok}
use corejack.Number.{pos, show_int}
use corejack.Yaml.{yaml_path_scalar}
use corejack.Yaml.Lookup.{lookup}
use corejack.Yaml.Render.{Doc, end, scalar, items, section, IsKey, IsPlain, IsClean, first_is}
use corejack.Yaml.RoundTrip.{or_missing}
use corejack.Descriptor.Config.{core_config}
use corejack.Scaffold.Request.{Core}
use corejack.Scaffold.Texts.{core_lines, core_descriptor}
use corejack.Scaffold.Readback.{core_doc, core_descriptor-lookup, core_descriptor-config}
use corejack.Tests.Repo.{repo}

key : Text → Bool
key k = all is_key_char k && not (is_nil k)

plain : Text → Bool
plain v =
    not (is_nil v)
    && not (first_is is_space v)
    && not (ends_by is_space v)
    && not (first_is is_quote v)

clean : Doc → Bool
unfolding key plain
clean end = true
clean (scalar k v rest) = key k && plain v && clean rest
clean (items k xs rest) = key k && all plain xs && clean rest
clean (section k sub rest) = key k && clean sub && clean rest

key-IsKey : (k : Text) → key k ≡ true → IsKey k
unfolding key
key-IsKey k h = record { chars = ground (arith, h); some_char = ground (arith, h) }

plain-IsPlain : (v : Text) → plain v ≡ true → IsPlain v
unfolding plain
plain-IsPlain v h = record {
  some_char = ground (arith, h);
  no_space_before = ground (arith, h);
  no_space_after = ground (arith, h);
  no_quote_before = ground (arith, h);
}

all-IsPlain : (xs : List Text) → all plain xs ≡ true → All IsPlain xs
all-IsPlain [] h = tt
all-IsPlain (x ∷ xs) h =
    let (hx, hxs) = &&-eq-true (plain x) (all plain xs) h in
    (plain-IsPlain x hx, all-IsPlain xs hxs)

clean-IsClean : (doc : Doc) → clean doc ≡ true → IsClean doc
unfolding clean
clean-IsClean end h = tt
clean-IsClean (scalar k v rest) h = (
  key-IsKey k (ground (arith, h)),
  plain-IsPlain v (ground (arith, h)),
  clean-IsClean rest (ground (arith, h)),
)
clean-IsClean (items k xs rest) h = (
  key-IsKey k (ground (arith, h)),
  all-IsPlain xs (ground (arith, h)),
  clean-IsClean rest (ground (arith, h)),
)
clean-IsClean (section k sub rest) h = (
  key-IsKey k (ground (arith, h)),
  clean-IsClean sub (ground (arith, h)),
  clean-IsClean rest (ground (arith, h)),
)

one_line : Text → Bool
one_line = all λ c. not (is_break c)

one_line-OneLine : (s : Text) → one_line s ≡ true → OneLine s
unfolding one_line
one_line-OneLine [] h = tt
one_line-OneLine (c ∷ s) h = (ground (arith, h), one_line-OneLine s (ground (arith, h)))

all-OneLine : (ls : List Text) → all one_line ls ≡ true → All OneLine ls
all-OneLine [] h = tt
all-OneLine (l ∷ ls) h =
    let (hl, hls) = &&-eq-true (one_line l) (all one_line ls) h in
    (one_line-OneLine l hl, all-OneLine ls hls)

abbrev core : Core
core = record {
  core = codes "my_core";
  display_name = codes "My core";
  board = codes "axku5";
  xlen = pos 32;
  march = codes "rv32imc";
  mabi = codes "ilp32";
  instruction_bus = codes "obi";
  data_bus = codes "axi";
  platform_integration = codes "socket_region";
  integration_suffix = codes "socket";
  core_type = pos 11;
  version = codes "0.4.2";
}

record Run : Type 0 where
  tree : clean (core_doc core) ≡ true
  text : all one_line (core_lines core) ≡ true

run : Run
unfolding corejack.Number.negate corejack.Number.quarter corejack.Number.decimal_onto
    corejack.Number.decimal corejack.Number.show_int corejack.Rtl.to_lower corejack.Rtl.to_upper
    corejack.Rtl.capitalize corejack.Scaffold.Texts.core_lines corejack.Text.is_space
    corejack.Text.is_alnum corejack.Text.is_key_char corejack.Text.text_eq corejack.Text.texts_eq
    corejack.Text.strip_prefix corejack.Text.has_infix corejack.Text.ends_by corejack.Text.drop_last
    corejack.Text.inner corejack.Text.split_on corejack.Text.is_break corejack.Text.splitlines
    corejack.Text.join corejack.Text.strip_by corejack.Text.take_while clean key plain one_line
run = record { tree = refl; text = refl }

core_descriptor-lookup_example :
    yaml_path_scalar (core_descriptor core) (codes "isa" ∷ codes "march" ∷ [])
    ≡ or_missing (lookup (codes "isa" ∷ codes "march" ∷ []) (core_doc core))
core_descriptor-lookup_example =
    core_descriptor-lookup core (codes "isa") (codes "march" ∷ [])
      (clean-IsClean (core_doc core) run.tree) (all-OneLine (core_lines core) run.text)

core_descriptor-config_example :
    core_config repo (codes "my_core") (codes "axku5") (core_descriptor core)
    ≡ ok (record {
      march = codes "rv32imc";
      mabi = codes "ilp32";
      toolchain = codes "riscv-multilib";
      zephyr = codes "planned";
      core_type = show_int (pos 11);
      integration = codes "socket_region";
      sim_target = codes "sw-sim";
      core_flag = codes "core_my_core";
      core_flags = codes "core_my_core" ∷ codes "core_region" ∷ [];
    })
core_descriptor-config_example =
    core_descriptor-config core (clean-IsClean (core_doc core) run.tree)
      (all-OneLine (core_lines core) run.text) repo (codes "axku5") refl
