-- ===== src/Renewal/Execute/Guards.antt =====
-- A plan that asks for a confirmation does nothing without one.
use caddybuddy.Renewal.Execute.Parts.{trusted-Keeps, execute-Keeps}
use caddybuddy.Renewal.Execute.Run.{execute, matches_plan}
use caddybuddy.Renewal.Effects.{History, release, acquire, Services, fetch_infos, Action}
use caddybuddy.Renewal.Defs.{Site, Settings, Capability}
use caddybuddy.Domains.Shape.{Runtime}
use caddybuddy.Prelude.{◌≡◌, true, false, arith, All}

-- Planning, and taking and releasing the lock.
abbrev pub IsQuiet : Action → Type 0
IsQuiet (fetch_infos _) = Unit
IsQuiet (acquire _) = Unit
IsQuiet (release _) = Unit
IsQuiet _ = ⊥

same_confirmation :
    (plan trusted : Capability)
    → matches_plan plan trusted ≡ true
    → plan.requires_confirmation ≡ true
    → trusted.requires_confirmation ≡ true
unfolding matches_plan
same_confirmation plan trusted same asks = ground arith

-- Where the plan asks for a confirmation and none is given, whatever the services answer, `execute`
-- makes no other calls than fetching certificate information and taking and releasing the lock.
pub execute-IsQuiet :
    (rt : Runtime) (sv : Services) (settings : Settings) (site : Site) (plan : Capability)
    (h : History)
    → plan.requires_confirmation ≡ true
    → All IsQuiet h
    → All IsQuiet (execute rt sv settings site plan false h).1
execute-IsQuiet rt sv settings site plan h asks =
    (execute-Keeps {P = All IsQuiet} rt sv settings site plan false (λ ds h p. (tt, p))
        (λ trusted a same targets.
          trusted-Keeps rt sv settings trusted false targets (λ s h p. (tt, p)) (λ s h p. (tt, p))
            (λ confirmed domains primary.
              let asked = same_confirmation plan trusted same asks in absurd (ground arith)))).at
      h
