-- ===== src/Examples/Handles.antt =====
-- teleport/src/telemetry/windows.rs on a system whose calls all succeed, and which counts the open
-- handles, the mapped views and the pauses.
use iracing_teleport.Base.{ℕ, ◌+◌, ◌-◌, ◌≤◌, refl, some}
use iracing_teleport.Telemetry.Windows.{
  Win32, is_invalid, open_telemetry, create_telemetry, zero_on_exit,
}
use iracing_teleport.Telemetry.Windows.Balance.{
  one, Counts, Pauses, IsBalanced, open_telemetry-IsBalanced, create_telemetry-IsBalanced,
  zero_on_exit-paused,
}

abbrev pub System : Type 0
System = (ℕ → ℕ) × (ℕ → ℕ) × ℕ

-- A mapping has the handle 1, an event the handle 2, a view the address 4096.
abbrev pub win : Win32 System
win = record {
  open_file_mapping = λ access w. (1, (λ k. w.0 k + one 1 k, w.1, w.2));
  create_file_mapping = λ hi lo w. (1, (λ k. w.0 k + one 1 k, w.1, w.2));
  map_view_of_file = λ h access w. (4096, (w.0, λ k. w.1 k + one 4096 k, w.2));
  open_event = λ w. (2, (λ k. w.0 k + one 2 k, w.1, w.2));
  create_event = λ w. (2, (λ k. w.0 k + one 2 k, w.1, w.2));
  unmap_view_of_file = λ view w. (w.0, λ k. w.1 k - one view k, w.2);
  close_handle = λ h w. (λ k. w.0 k - one h k, w.1, w.2);
  query_region_size = λ view w. some 4194304;
  write_bytes = λ view size w. w;
  sleep = λ n w. (w.0, w.1, w.2 + n);
  wait_for_single_object = λ h n w. (258, w);
  set_event = λ h w. (1, w);
}

pub counts : Counts win
unfolding is_invalid
counts = record {
  handles = λ k w. w.0 k;
  views = λ k w. w.1 k;
  opened = λ k access w. (refl, refl);
  created = λ k hi lo w. (refl, refl, refl);
  mapped = λ k h access w. (refl, refl);
  event_opened = λ k w. (refl, refl);
  event_created = λ k w. (refl, refl);
  unmapped = λ k view w. (refl, refl);
  closed = λ k h w. (refl, refl);
  written = λ k view size w. (refl, refl);
  slept = λ k n w. (refl, refl);
  waited = λ k h n w. (refl, refl);
  signalled = λ k h w. (refl, refl);
}

pauses : Pauses win
pauses = record {
  paused = λ w. w.2;
  opened = λ access w. refl;
  mapped = λ h access w. refl;
  unmapped = λ view w. refl;
  closed = λ h w. refl;
  written = λ view size w. refl;
  slept = λ n w. refl;
}

-- Nothing is open.
abbrev pub nothing : System
nothing = (λ k. 0, λ k. 0, 0)

open_telemetry-IsBalanced_example : IsBalanced win counts nothing (open_telemetry win nothing) 1
open_telemetry-IsBalanced_example = open_telemetry-IsBalanced win counts nothing 1

create_telemetry-IsBalanced_example :
    IsBalanced win counts nothing (create_telemetry win 2097152 nothing) 2
create_telemetry-IsBalanced_example = create_telemetry-IsBalanced win counts 2097152 nothing 2

zero_on_exit-paused_example :
    pauses.paused (zero_on_exit win 2097152 nothing) ≤ pauses.paused nothing + 10500
zero_on_exit-paused_example = zero_on_exit-paused win pauses 2097152 nothing
