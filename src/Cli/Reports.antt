-- ===== src/Cli/Reports.antt =====
-- What the commands of bin/validate_target.py print when they succeed.
use corejack.Prelude.{
  Bool, false, append-nil, subst, ap, sym, ◌∙◌, true, List, [], ◌∷◌, ◌++◌, Option, none, some, ◌≡◌,
  refl, arith, length, Option-cases, inl, inr,
}
use corejack.Text.{Text, codes}
use corejack.Failure.{ok, Result-cases}
use corejack.Host.{Host, core_dir, board_dir, descriptor_path}
use corejack.Target.{reason_text}
use corejack.Script.{Script, quietly, print, ◌>>=◌, >>=-eq-ok}
use corejack.Descriptor.{fusesoc_core_flags, Reason, load_descriptors, is_compatible}
use corejack.Descriptor.Config.{TargetConfig, target_config}
use corejack.CoreCheck.Rules.{CoreReport, core_check}
use corejack.CoreCheck.Sound.{core_check-Passed}
use corejack.CoreCheck.Fields.{fusesoc_core_flags-Passed}
use corejack.Cli.{
  core_head, core_tail, print_core_check, noted, pair_name, combination_line, list_pair, list_pairs,
}

-- A core that passes its check is reported in full: the command prints the twenty lines of the report and
-- does not fail, because the flags of the core are defined.
pub print_core_check-passes :
    (host : Host) (core : Text) {r : CoreReport}
    → core_check host core ≡ ok r
    → (flags : List Text) × (fusesoc_core_flags r.identity.text ≡ ok flags)
      × (print_core_check host core ≡ print (core_head core r ++ core_tail r flags))
      × (length (core_head core r ++ core_tail r flags) ≡ 20)
unfolding print_core_check core_head core_tail
print_core_check-passes host core {r} h =
    let (flags, e) = fusesoc_core_flags-Passed host core (core_check-Passed host core h) in
    (flags, e, rw (h, e) refl, refl)

load_descriptors-files :
    (host : Host) (core board : Text) {texts : Text × Text}
    → load_descriptors host core board ≡ ok texts
    → (host.file (descriptor_path core_dir core) ≡ some texts.0)
      × (host.file (descriptor_path board_dir board) ≡ some texts.1)
unfolding load_descriptors
load_descriptors-files host core board h =
    elim (Option-cases (host.file (descriptor_path core_dir core))) [
      | inl bad ↦ absurd (ground (arith, h, bad))
      | inr (core_text, ec) ↦ elim (Option-cases (host.file (descriptor_path board_dir board))) [
        | inl bad ↦ absurd (ground (arith, h, ec, bad))
        | inr (board_text, eb) ↦ (ground (arith, h, ec, eb), ground (arith, h, ec, eb))
      ]
    ]

-- The pairs in their order. A pair whose descriptors allow one another has its line, with its configuration,
-- among those that are printed, and every other one has the reason among the unavailable ones; the
-- flag says that one is available.
pub data Listed (host : Host) : List (Text × Text) → List Text → Bool → List Text → Type 0 where
  done : Listed host [] [] false []
  available :
      (core board : Text) {core_text board_text : Text} {config : TargetConfig}
      {pairs : List (Text × Text)} {lines others : List Text} {found : Bool}
      → host.file (descriptor_path core_dir core) ≡ some core_text
      → host.file (descriptor_path board_dir board) ≡ some board_text
      → is_compatible core board core_text board_text (codes "fpga") true ≡ none
      → target_config host core board core_text board_text ≡ ok config
      → Listed host pairs lines found others
      → Listed host
          ((core, board) ∷ pairs)
          (combination_line core board core_text config ∷ lines)
          true
          others
  unavailable :
      (core board : Text) {core_text board_text : Text} {reason : Reason}
      {pairs : List (Text × Text)} {lines others : List Text} {found : Bool}
      → host.file (descriptor_path core_dir core) ≡ some core_text
      → host.file (descriptor_path board_dir board) ≡ some board_text
      → is_compatible core board core_text board_text (codes "fpga") true ≡ some reason
      → Listed host pairs lines found others
      → Listed host
          ((core, board) ∷ pairs)
          lines
          found
          ((pair_name core board ++ reason_text reason) ∷ others)

abbrev outcome : List Text → Option Text → Script (Option Text)
outcome lines line = record { printed = lines; result = ok line }

module _ (host : Host) where
  Noted : List (Text × Text) → List Text → Bool × List Text → Type 0
  Noted pairs lines found = Listed host pairs lines found.0 found.1

  from_outcome :
      (s : Script (Option Text)) (pairs : List (Text × Text)) (more : List Text)
      (rest : Bool × List Text) (lines : List Text) (line : Option Text) {o : Option Text}
      → s ≡ outcome lines line
      → s.result ≡ ok o
      → Noted pairs (lines ++ more) (noted line rest)
      → Noted pairs (s.printed ++ more) (noted o rest)
  from_outcome s pairs more rest lines line {o} e h listed =
      let eo : line ≡ o = ground (arith, h, ap (λ (s : Script (Option Text)). s.result) e) in
      let ep : lines ≡ s.printed = sym (ap (λ (s : Script (Option Text)). s.printed) e) in
      subst (λ x. Noted pairs (x ++ more) (noted o rest)) ep
        (subst (λ x. Noted pairs (lines ++ more) (noted x rest)) eo listed)

  list_pair-Listed :
      (core board : Text) (pairs : List (Text × Text)) (more : List Text) (rest : Bool × List Text)
      {o : Option Text}
      → (list_pair host core board).result ≡ ok o
      → Noted pairs more rest
      → Noted ((core, board) ∷ pairs) ((list_pair host core board).printed ++ more) (noted o rest)
  unfolding list_pair Noted
  list_pair-Listed core board pairs more rest {o} h listed =
      elim (Result-cases (load_descriptors host core board)) [
        | inl (e, el) ↦ absurd (ground (arith, h, el))
        | inr (texts, el) ↦
            let (fc, fb) = load_descriptors-files host core board el in
            elim (Option-cases (is_compatible core board texts.0 texts.1 (codes "fpga") true)) [
              | inr (reason, ec) ↦
                  from_outcome (list_pair host core board) ((core, board) ∷ pairs) more rest []
                    (some (pair_name core board ++ reason_text reason)) (rw (el, ec) refl) h
                    (unavailable core board fc fb ec listed)
              | inl ec ↦ elim (Result-cases (target_config host core board texts.0 texts.1)) [
                | inl (e, et) ↦ absurd (ground (arith, h, el, ec, et))
                | inr (config, et) ↦
                    from_outcome (list_pair host core board) ((core, board) ∷ pairs) more rest
                      (combination_line core board texts.0 config ∷ []) none (rw (el, ec, et) refl)
                      h (available core board fc fb ec et listed)
              ]
            ]
      ]

>>=-printed :
    {A B : Type 0} (m : Script A) (f : A → Script B) (a : A)
    → m.result ≡ ok a
    → (m >>= f).printed ≡ m.printed ++ (f a).printed
>>=-printed m f a h = rw h refl

-- When the listing of pairs ends, each pair stands in it once and in its place: printed with the configuration
-- of its two descriptors if they allow one another, among the unavailable ones with the reason if not.
pub list_pairs-Listed :
    (host : Host) (pairs : List (Text × Text)) {found : Bool × List Text}
    → (list_pairs host pairs).result ≡ ok found
    → Listed host pairs (list_pairs host pairs).printed found.0 found.1
unfolding list_pairs Noted
list_pairs-Listed host [] {found} h = subst (Noted host [] []) (ground (arith, h)) done
list_pairs-Listed host ((core, board) ∷ pairs) {found} h =
    let (o, eo, h1) = >>=-eq-ok (list_pair host core board) _ h in
    let (rest, er, h2) = >>=-eq-ok (list_pairs host pairs) _ h1 in
    let last =
      λ (line : Option Text) (others : Bool × List Text). quietly (ok (noted line others)) in
    let whole =
      >>=-printed (list_pair host core board) (λ line. list_pairs host pairs >>= last line) o eo in
    let tail = >>=-printed (list_pairs host pairs) (last o) rest er in
    let here = (list_pair host core board).printed in
    let e : noted o rest ≡ found = ground (arith, h2) in
    let lines = whole ∙ ap (λ x. here ++ x) (tail ∙ append-nil (list_pairs host pairs).printed) in
    subst (λ x. Noted host ((core, board) ∷ pairs) x found) (sym lines)
      (subst (λ x. Noted host ((core, board) ∷ pairs) (here ++ (list_pairs host pairs).printed) x) e
        (list_pair-Listed host core board pairs (list_pairs host pairs).printed rest eo
          (list_pairs-Listed host pairs er)))
