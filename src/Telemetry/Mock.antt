-- ===== src/Telemetry/Mock.antt =====
-- teleport/src/telemetry/mock.rs, the shared memory on other systems than Windows: there is no game,
-- and a memory that is created is a buffer of the program.
use iracing_teleport.Base.{ℕ, List, Bool, false, Option, none, ◌⊎◌, inl, inr, length, replicate}
use iracing_teleport.Telemetry.Windows.{TelemetryError, unavailable}

pub record MockTelemetry : Type 0 where
  pub bytes : List ℕ

unfoldable pub open_mock : TelemetryError ⊎ MockTelemetry
open_mock = inl unavailable

unfoldable pub create_mock : ℕ → TelemetryError ⊎ MockTelemetry
create_mock size = inr (record { bytes = replicate size 0 })

-- `wait_for_data`
unfoldable pub wait_mock : MockTelemetry → ℕ → Bool
wait_mock t timeout_ms = false

-- `signal_data_ready`
unfoldable pub signal_mock : MockTelemetry → Option TelemetryError
signal_mock t = none

-- `as_slice` and `as_slice_mut`
unfoldable pub slice_mock : MockTelemetry → List ℕ
slice_mock t = t.bytes

-- `size`
unfoldable pub size_mock : MockTelemetry → ℕ
size_mock t = length t.bytes
