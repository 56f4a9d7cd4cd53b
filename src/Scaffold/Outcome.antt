-- ===== src/Scaffold/Outcome.antt =====
-- What a run of bin/create_core.py that returned means for the repository and for the next run.
use corejack.Prelude.{true, some, ◌≡◌, refl, sym, ap, ◌∙◌, arith, inl, inr}
use corejack.Text.{Text, codes}
use corejack.Failure.{Failure, ok, err, Result-cases, path_exists}
use corejack.Edit.{Files, for_each, refuse_existing}
use corejack.Scaffold.{is_identifier, require_identifier, yaml_top_list_contains}
use corejack.Scaffold.Request.{Options, Core, requested}
use corejack.Scaffold.Texts.{core_descriptor}
use corejack.Scaffold.Create.{board_path, core_path, new_files, write_core, create_core}
use corejack.Scaffold.ListItem.{append-contains}
use corejack.Scaffold.Identifier.{is_identifier-OneLine, is_identifier-ReadsBack}
use corejack.Scaffold.Created.{Created, write_core-Created}

-- A request that passes its tests is for the named core and board, and the core's name is an identifier.
requested-names :
    (files : Files) (o : Options) {a : Core}
    → requested files o ≡ ok a
    → (a.core ≡ o.core) × (a.board ≡ o.board) × (is_identifier a.core ≡ true)
unfolding requested require_identifier
requested-names files o h = ground (arith, h)

create_core-granted :
    (o : Options) (before : Files) {after : Files}
    → create_core o before ≡ (ok tt, after)
    → (a : Core) × (requested before o ≡ ok a) × (write_core a before ≡ (ok tt, after))
unfolding create_core
create_core-granted o before h = elim (Result-cases (requested before o)) [
  | inl (message, refused) ↦ absurd (ground (arith, refused, h))
  | inr (a, granted) ↦ (a, granted, ground (arith, granted, h))
]

-- When the scaffold of a core returns, the three files that it adds were not there and hold the texts
-- of its request, and the platform package, corejack.core and the descriptor of the named board hold
-- what the three updates compute from the texts that they had. The board's list of compatible cores
-- then contains the core.
pub create_core-Created :
    (o : Options) (before : Files) {after : Files}
    → create_core o before ≡ (ok tt, after)
    → (a : Core) × (requested before o ≡ ok a)
      × Created before after a
      × ((text : Text) × (after (board_path o.board) ≡ some text)
          × (yaml_top_list_contains text (codes "compatible_cores") o.core ≡ true))
create_core-Created o before {after} h =
    let (a, granted, done) = create_core-granted o before h in
    let (same_core, same_board, named) = requested-names before o granted in
    let created = write_core-Created a before done in
    let lists =
      append-contains created.board.old (codes "compatible_cores") a.core
        (is_identifier-ReadsBack a.core named) (is_identifier-OneLine a.core named)
        created.board.computed in
    (
      a,
      granted,
      created,
      (
        created.board.new,
        ap (λ (b : Text). after (board_path b)) (sym same_board) ∙ created.board.now,
        ap (yaml_top_list_contains created.board.new (codes "compatible_cores")) (sym same_core)
            ∙ lists,
      ),
    )

refused-first :
    (a : Core) (files : Files) {text : Text}
    → files (core_path a.core) ≡ some text
    → (message : Failure) × (write_core a files ≡ (err message, files))
unfolding write_core new_files for_each refuse_existing
refused-first a files h = (path_exists (core_path a.core), rw h refl)

-- A core is not scaffolded twice: after a run that returned, every run for a core of that name fails,
-- and changes no file.
pub create_core-twice :
    (o again : Options) (before : Files) {after : Files}
    → again.core ≡ o.core
    → create_core o before ≡ (ok tt, after)
    → (message : Failure) × (create_core again after ≡ (err message, after))
unfolding create_core
create_core-twice o again before {after} same h = elim (Result-cases (requested after again)) [
  | inl (message, refused) ↦ (message, rw refused refl)
  | inr (a', granted') ↦
      let (a, granted, created, _) = create_core-Created o before h in
      let (core_a, _, _) = requested-names before o granted in
      let (core_a', _, _) = requested-names after again granted' in
      let there : after (core_path a'.core) ≡ some (core_descriptor a) =
        ap (λ (c : Text). after (core_path c)) (core_a' ∙ same ∙ sym core_a)
        ∙ created.descriptor.now in
      let (message, failed) = refused-first a' after there in (message, rw granted' failed)
]
