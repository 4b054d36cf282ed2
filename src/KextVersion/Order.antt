-- ===== src/KextVersion/Order.antt =====
-- The order of version numbers of kext.subproj/OSKextVersion.c.
use iokit_user.Prelude.{◌≡◌, ◌↔◌, arith, ◌⊎◌, ◌<◌, ◌≤◌}
use iokit_user.KextVersion.{Vers, packed}
use iokit_user.KextVersion.Valid.{IsVersion}

-- The order of versions: by the major number, then the minor, the revision, the stage and its level.
abbrev pub VersionLt : Vers → Vers → Type 0
VersionLt v w =
    (v.major < w.major)
    ⊎ ((v.major ≡ w.major)
        × ((v.minor < w.minor)
            ⊎ ((v.minor ≡ w.minor)
                × ((v.revision < w.revision)
                    ⊎ ((v.revision ≡ w.revision)
                        × ((v.stage < w.stage)
                            ⊎ ((v.stage ≡ w.stage) × (v.stage_level < w.stage_level))))))))

stage-le : (v : Vers) → IsVersion v → v.stage ≤ 9
stage-le v h = omega (arith, h.stage)

packed-lt : (v w : Vers) → IsVersion v → IsVersion w → VersionLt v w → packed v < packed w
unfolding packed
packed-lt v w hv hw l = omega (arith, stage-le v hv, stage-le w hw)

lt-packed : (v w : Vers) → IsVersion v → IsVersion w → packed v < packed w → VersionLt v w
unfolding packed
lt-packed v w hv hw l = ground (arith, stage-le v hv, stage-le w hw)

-- Comparing the numbers of two versions compares the versions, component by component.
pub packed-lt_iff : (v w : Vers) → IsVersion v → IsVersion w → (packed v < packed w) ↔ VersionLt v w
packed-lt_iff v w hv hw = (lt-packed v w hv hw, packed-lt v w hv hw)
