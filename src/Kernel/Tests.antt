-- ===== src/Kernel/Tests.antt =====
-- A write that the callback approves.
use decode.Prelude.{◌≡◌, refl, true, some, []}
use decode.Governance.{write}
use decode.Kernel.Safety.{SafetyController, allow, check}

abbrev controller : SafetyController
controller = record { prohibited_actions = []; override_rules = [] }

write_allowed : check controller "scan" write (some true) ≡ allow
unfolding check
write_allowed = refl
