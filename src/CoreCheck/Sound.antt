-- ===== src/CoreCheck/Sound.antt =====
-- What a core descriptor that passes `core_check` guarantees.
use corejack.Prelude.{Bool, true, false, List, [], ◌∷◌, ◌≡◌, refl, arith, All}
use corejack.Text.{Text}
use corejack.Failure.{Failure, ok}
use corejack.Host.{Host}
use corejack.CoreCheck.{checks, core_identity, core_adapter, core_platform, core_settings}
use corejack.CoreCheck.Rules.{CoreReport, setting_rules, core_debug, core_boards, core_check}

abbrev pub Holds : Bool × Failure → Type 0
Holds c = c.0 ≡ true

-- Every test of a passed list of tests holds.
pub checks-All : (cs : List (Bool × Failure)) {u : Unit {0}} → checks cs ≡ ok u → All Holds cs
unfolding checks
checks-All [] h = tt
checks-All ((true, e) ∷ cs) h = (refl, checks-All cs h)
checks-All ((false, e) ∷ cs) h = cc

-- The stages of a passed check, one by one.
pub record Passed (host : Host) (core : Text) (r : CoreReport) : Type 0 where
  pub identity : core_identity host core ≡ ok r.identity
  pub adapter : core_adapter host core r.identity.text ≡ ok r.adapter
  pub platform : core_platform host core r.identity.text ≡ ok r.platform
  pub settings : core_settings core r.identity.text ≡ ok r.settings
  pub rules : All Holds (setting_rules r.platform.integration r.settings)
  pub debug : core_debug core r.identity.text r.identity.debug ≡ ok r.debug_supported
  pub boards : core_boards host core r.settings.compatible_boards ≡ ok tt

pub core_check-Passed :
    (host : Host) (core : Text) {r : CoreReport} → core_check host core ≡ ok r → Passed host core r
unfolding core_check
core_check-Passed host core {r} h = record {
  identity = ground arith;
  adapter = ground arith;
  platform = ground arith;
  settings = ground arith;
  rules = checks-All (setting_rules r.platform.integration r.settings) {u = tt} (ground arith);
  debug = ground arith;
  boards = ground arith;
}
