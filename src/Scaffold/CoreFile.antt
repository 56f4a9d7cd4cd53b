-- ===== src/Scaffold/CoreFile.antt =====
-- `update_corejack_core` of bin/create_core.py on the text of corejack.core: the fileset of the core, and
-- its lines in the simulation target and the FPGA target.
use corejack.Prelude.{Bool, false, not, [], ◌∷◌, ◌++◌, map, if◌then◌else◌}
use corejack.Text.{Text, codes, is_alnum, has_infix}
use corejack.Failure.{Result, check, ◌>>=◌, ◌>>◌, already_there, no_marker}
use corejack.Rtl.{to_upper}
use corejack.Splice.{replace_marker}
use corejack.Scaffold.Request.{Core}

abbrev pub core_file : Text
core_file = codes "corejack.core"

-- `re.sub(r"[^A-Za-z0-9]+", "_", s)`; the flag says that a separator was just replaced.
unfoldable pub underscored : Bool → Text → Text
underscored after [] = []
underscored after (c ∷ s) =
    let rest = underscored (not (is_alnum c)) s in
    if is_alnum c then c ∷ rest else if after then rest else b'_' ∷ rest

abbrev pub flag_of : Core → Text
flag_of a = codes "core_" ++ a.core

abbrev pub fileset_of : Core → Text
fileset_of a = flag_of a ++ codes "_rtl"

abbrev pub define_of : Core → Text
define_of a = codes "COREJACK_CORE_" ++ map to_upper (underscored false a.core)

abbrev pub region_marker : Text
region_marker = codes "\n  core_region_rtl:\n"

abbrev pub define_marker : Text
define_marker = codes "        - core_cvw ? (-DCOREJACK_CORE_CVW)\n"

abbrev cvw_line : Text
cvw_line = codes "      - core_cvw ? (core_cvw_rtl)\n"

abbrev region_line : Text
region_line = codes "      - core_region ? (core_region_rtl)"

abbrev axku5_line : Text
axku5_line = codes "\n      - board_axku5 ? (board_axku5_rtl)"

abbrev pub sim_marker : Text
sim_marker = cvw_line ++ region_line

abbrev pub fpga_marker : Text
fpga_marker = cvw_line ++ (region_line ++ axku5_line)

-- The fileset of the core, in front of the marker.
abbrev pub core_fileset : Core → Text
core_fileset a =
    codes "\n  "
    ++ (fileset_of a
        ++ (codes ":\n    depend:\n      - corejack:cores:"
            ++ (a.core ++ (codes ":" ++ (a.version ++ codes "\n")))))

abbrev pub define_line : Core → Text
define_line a =
    codes "        - " ++ (flag_of a ++ (codes " ? (-D" ++ (define_of a ++ codes ")\n")))

abbrev pub fileset_line : Core → Text
fileset_line a = codes "      - " ++ (flag_of a ++ (codes " ? (" ++ (fileset_of a ++ codes ")\n")))

unfoldable pub core_file_with : Core → Text → Result Text
unfolding replace_marker underscored
core_file_with a text = do
  check (not (has_infix (codes "  " ++ (fileset_of a ++ codes ":")) text))
      (already_there (fileset_of a) core_file)
  check (not (has_infix (flag_of a ++ codes " ? (") text)) (already_there (flag_of a) core_file)
  with_fileset ←
      replace_marker region_marker (core_fileset a ++ region_marker) (no_marker region_marker) text
  with_define ←
      replace_marker define_marker (define_marker ++ define_line a) (no_marker define_marker)
        with_fileset
  with_sim ←
      replace_marker sim_marker (cvw_line ++ (fileset_line a ++ region_line)) (no_marker sim_marker)
        with_define
  replace_marker fpga_marker (cvw_line ++ (fileset_line a ++ (region_line ++ axku5_line)))
      (no_marker fpga_marker) with_sim
