-- ===== src/Failures/Closing.antt =====
-- Which closes of a connection src/server/bridge-runtime-failures.ts calls recoverable.
use command_relay.Common.{ℕ, ◌≤◌, String, true, false, ◌&&◌, ◌==◌, nat_eq, ◌≡◌, ◌↔◌, ◌⊎◌, arith}
use command_relay.Common.Text.{codes}
use command_relay.Failures.{lower, names_credentials, classify_bridge_close_failure}

-- A close is recoverable exactly when its code is from 1001 to 1011 or from 3000 to 3999, and it is
-- not a 1008 whose reason names credentials.
pub recoverable_iff :
    (code : ℕ) (reason : String)
    → ((classify_bridge_close_failure code reason).recoverable ≡ true) ↔ (
        (((1001 ≤ code) × (code ≤ 1011)) ⊎ ((3000 ≤ code) × (code ≤ 3999)))
        × ((code == 1008 && names_credentials (lower (codes reason))) ≡ false))
unfolding classify_bridge_close_failure
recoverable_iff code reason = ground arith
