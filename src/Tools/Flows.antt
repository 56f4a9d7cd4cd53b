-- ===== src/Tools/Flows.antt =====
-- The exit status of bin/check_tools.py for the flows.
use corejack.Prelude.{
  ℕ, Bool, true, false, not, ◌&&◌, ◌||◌, List, [], ◌∷◌, ◌++◌, none, some, ◌≡◌, ◌↔◌, refl, sym, ap,
  ◌∙◌, arith, is_nil, all, inl, inr, Bool-cases, Option-cases, all-append,
}
use corejack.Text.{Text, codes, text_eq, contains}
use corejack.Text.Laws.{text_eq_refl}
use corejack.Failure.{ok, Result-cases}
use corejack.Host.{Host}
use corejack.Descriptor.{load_descriptors}
use corejack.Descriptor.Config.{TargetConfig, target_config}
use corejack.Tools.{
  Machine, Tool, run_text, find_command, flow_requires, version_fits, check_tool,
  check_python_module, under, Report,
}
use corejack.Tools.Listed.{core_tools, fw_tools, sim_tools, fpga_tools, debug_tools, venv_bin}
use corejack.Tools.Main.{check_all, check_sections, tools_main, python_required, ended, head_lines}

-- The machine has a tool: there is a command for it, which does not answer with another version.
abbrev pub has_tool : Machine → Tool → Bool
has_tool m t = elim (find_command m t.command t.search_paths) [
  | none ↦ false
  | some exe ↦ version_fits t (run_text m (exe ∷ t.version_args))
]

abbrev pub provides : Machine → Text → Tool → Bool
provides m flow t = has_tool m t || not (flow_requires t flow)

check_tool-provides :
    (m : Machine) (flow : Text) (t : Tool) → (check_tool m flow t).1 ≡ provides m flow t
unfolding check_tool
check_tool-provides m flow t = elim (Option-cases (find_command m t.command t.search_paths)) [
  | inl e ↦ ground (arith, e)
  | inr (exe, e) ↦ ground (arith, e)
]

check_all-provides :
    (m : Machine) (flow : Text) (ts : List Tool)
    → (check_all m flow ts).1 ≡ all (provides m flow) ts
unfolding check_all
check_all-provides m flow [] = refl
check_all-provides m flow (t ∷ ts) =
    ground (arith, check_tool-provides m flow t, check_all-provides m flow ts)

nil-contains : (xs : List Text) (a : Text) → is_nil xs ≡ true → contains xs a ≡ false
nil-contains [] a h = refl
nil-contains (x ∷ xs) a h = cc

-- What is required for a flow is required for all of them.
flow_requires-all :
    (t : Tool) (flow : Text) → flow_requires t flow ≡ true → flow_requires t (codes "all") ≡ true
unfolding flow_requires
flow_requires-all t flow h = elim (Bool-cases (is_nil t.required_for)) [
  | inr some_flow ↦ ground (arith, some_flow, text_eq_refl (codes "all"))
  | inl none_at_all ↦ absurd (
      ground (
        arith,
        h,
        none_at_all,
        nil-contains t.required_for (codes "all") none_at_all,
        nil-contains t.required_for flow none_at_all,
      ))
]

provides_mono :
    (m : Machine) (every flow : Text) (ts : List Tool)
    → ((t : Tool) → flow_requires t flow ≡ true → flow_requires t every ≡ true)
    → all (provides m every) ts ≡ true
    → all (provides m flow) ts ≡ true
provides_mono m every flow [] h e = refl
provides_mono m every flow (t ∷ ts) h e = ground (arith, e, h t, provides_mono m every flow ts h)

check_all_mono :
    (m : Machine) (every flow : Text) (ts : List Tool)
    → ((t : Tool) → flow_requires t flow ≡ true → flow_requires t every ≡ true)
    → (check_all m every ts).1 ≡ true
    → (check_all m flow ts).1 ≡ true
check_all_mono m every flow ts h e =
    check_all-provides m flow ts
    ∙ provides_mono m every flow ts h (sym (check_all-provides m every ts) ∙ e)

check_python_module_mono :
    (m : Machine) (name imported python : Text) (every required : Bool)
    → every ≡ true
    → (check_python_module m name imported python every).1 ≡ true
    → (check_python_module m name imported python required).1 ≡ true
unfolding check_python_module
check_python_module_mono m name imported python every required e h = ground (arith, h, e)

-- The tests that a flow has to pass.
abbrev pub passes : Machine → Text → Text → Bool
passes m toolchain flow =
    (check_all m flow (core_tools m)).1
    && (check_python_module m (codes "cocotb") (codes "cocotb")
        (under (venv_bin m) (codes "python")) (python_required flow)).1
    && (check_all m flow (fw_tools m toolchain)).1
    && (check_all m flow (sim_tools m)).1
    && (check_all m flow (fpga_tools m)).1
    && (check_all m flow debug_tools).1

check_sections-passes :
    (m : Machine) (toolchain flow : Text)
    → (check_sections m toolchain flow).1 ≡ passes m toolchain flow
unfolding check_sections
check_sections-passes m toolchain flow = refl

module _ (m : Machine) (toolchain every flow : Text) where
  passes_mono :
      ((t : Tool) → flow_requires t flow ≡ true → flow_requires t every ≡ true)
      → python_required every ≡ true
      → passes m toolchain every ≡ true
      → passes m toolchain flow ≡ true
  passes_mono h p e = ground (
    arith,
    e,
    check_all_mono m every flow (core_tools m) h,
    check_python_module_mono m (codes "cocotb") (codes "cocotb")
        (under (venv_bin m) (codes "python")) (python_required every) (python_required flow) p,
    check_all_mono m every flow (fw_tools m toolchain) h,
    check_all_mono m every flow (sim_tools m) h,
    check_all_mono m every flow (fpga_tools m) h,
    check_all_mono m every flow debug_tools h,
  )

check_sections_mono :
    (m : Machine) (toolchain flow : Text)
    → (check_sections m toolchain (codes "all")).1 ≡ true
    → (check_sections m toolchain flow).1 ≡ true
check_sections_mono m toolchain flow h =
    check_sections-passes m toolchain flow
    ∙ passes_mono m toolchain (codes "all") flow (λ t. flow_requires-all t flow)
        (unfold text_eq in refl) (sym (check_sections-passes m toolchain (codes "all")) ∙ h)

-- The tools that may fail the check.
abbrev pub decisive : Machine → Text → List Tool
decisive m toolchain =
    core_tools m ++ (fw_tools m toolchain ++ (sim_tools m ++ (fpga_tools m ++ debug_tools)))

abbrev pub imports_cocotb : Machine → Text → Bool
imports_cocotb m flow =
    (run_text m (
      under (venv_bin m) (codes "python")
      ∷ codes "-c"
      ∷ codes "import cocotb; print(getattr(cocotb, '__version__', 'available'))"
      ∷ [])).0
    || not (python_required flow)

check_python_module-imports :
    (m : Machine) (flow : Text)
    → (check_python_module m
        (codes "cocotb")
        (codes "cocotb")
        (under (venv_bin m) (codes "python"))
        (python_required flow)).1
      ≡ imports_cocotb m flow
unfolding check_python_module
check_python_module-imports m flow = refl

-- The sections pass just when the machine has each tool that the flow requires, in no other version
-- than the expected one, and imports cocotb if the flow requires it. What is only reported does not
-- matter.
pub check_sections_iff :
    (m : Machine) (toolchain flow : Text)
    → ((check_sections m toolchain flow).1 ≡ true)
      ↔ ((all (provides m flow) (decisive m toolchain) ≡ true) × (imports_cocotb m flow ≡ true))
check_sections_iff m toolchain flow =
    let core = core_tools m in
    let firmware = fw_tools m toolchain in
    let sim = sim_tools m in
    let fpga = fpga_tools m in
    let p = provides m flow in
    ground (
      arith,
      check_sections-passes m toolchain flow,
      check_python_module-imports m flow,
      check_all-provides m flow core,
      check_all-provides m flow firmware,
      check_all-provides m flow sim,
      check_all-provides m flow fpga,
      check_all-provides m flow debug_tools,
      all-append p core (firmware ++ (sim ++ (fpga ++ debug_tools))),
      all-append p firmware (sim ++ (fpga ++ debug_tools)),
      all-append p sim (fpga ++ debug_tools),
      all-append p fpga debug_tools,
    )

ended-zero :
    (head : List Text) (r : Report) {lines : List Text} → ended head r ≡ (lines, 0) → r.1 ≡ true
ended-zero head (lines, true) h = refl
ended-zero head (lines, false) h = cc

ended-true :
    (head : List Text) (r : Report) → r.1 ≡ true → (lines : List Text) × (ended head r ≡ (lines, 0))
ended-true head (lines, true) h = (_, refl)
ended-true head (lines, false) h = cc

tools_main-ended :
    (host : Host) (m : Machine) (core board flow : Text) {texts : Text × Text}
    {config : TargetConfig}
    → load_descriptors host core board ≡ ok texts
    → target_config host core board texts.0 texts.1 ≡ ok config
    → tools_main host m core board flow
      ≡ ok (ended (head_lines m core board flow config) (check_sections m config.toolchain flow))
unfolding tools_main
tools_main-ended host m core board flow e c = ground (arith, e, c)

ok-injective : {a b : List Text × ℕ} → ok a ≡ ok b → a ≡ b
ok-injective h = cc

-- A machine that has the tools for all flows has them for each one: if the check of the flow `all` ends
-- with status 0, that of any flow does, for the same core and board.
pub tools_main-all :
    (host : Host) (m : Machine) (core board flow : Text) {lines : List Text}
    → tools_main host m core board (codes "all") ≡ ok (lines, 0)
    → (lines' : List Text) × (tools_main host m core board flow ≡ ok (lines', 0))
unfolding tools_main
tools_main-all host m core board flow {lines} h =
    elim (Result-cases (load_descriptors host core board)) [
      | inl (message, e) ↦ absurd (ground (arith, h, e))
      | inr (texts, e) ↦ elim (Result-cases (target_config host core board texts.0 texts.1)) [
        | inl (message, bad) ↦ absurd (ground (arith, h, e, bad))
        | inr (config, c) ↦
            let every : Text = codes "all" in
            let passed : (check_sections m config.toolchain every).1 ≡ true =
              ended-zero (head_lines m core board every config)
                (check_sections m config.toolchain every)
                (ok-injective (sym (tools_main-ended host m core board every e c) ∙ h)) in
            let (lines', same) =
              ended-true (head_lines m core board flow config)
                (check_sections m config.toolchain flow)
                (check_sections_mono m config.toolchain flow passed) in
            (
              lines',
              tools_main-ended host m core board flow e c ∙ ap (λ (r : List Text × ℕ). ok r) same,
            )
      ]
    ]
