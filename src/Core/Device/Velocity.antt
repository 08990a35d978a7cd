-- ===== src/Core/Device/Velocity.antt =====
-- `pressure_to_velocity`.
use openmk.Prelude.{ℕ, ◌≤◌, arith}
use openmk.Core.Device.{pressure_to_velocity}

pub pressure_to_velocity-le : (p : ℕ) → pressure_to_velocity p ≤ 127
unfolding pressure_to_velocity
pressure_to_velocity-le p = omega arith

pressure_to_velocity-le_of_le : (p q : ℕ) → p ≤ q → pressure_to_velocity p ≤ pressure_to_velocity q
unfolding pressure_to_velocity
pressure_to_velocity-le_of_le p q h = omega arith

-- Of two presses the harder one has no lower velocity, and no velocity is above 127.
pub pressure_to_velocity_mono :
    (p q : ℕ)
    → p ≤ q
    → (pressure_to_velocity p ≤ pressure_to_velocity q) × (pressure_to_velocity q ≤ 127)
pressure_to_velocity_mono p q h = (pressure_to_velocity-le_of_le p q h, pressure_to_velocity-le q)
