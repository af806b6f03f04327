-- ===== src/Platform.antt =====
-- teleport/src/platform.rs on Windows: timer resolution, priorities and the pinning of the thread. The
-- calls of the system are a parameter, on a state `W`.
use iracing_teleport.Base.{ℕ, ◌^◌, Bool, Option, none, some, leb, ◌==◌, if◌then◌else◌}

pub record Os (W : Type 0) : Type 0 where
  pub time_begin_period : ℕ → W → ℕ × W
  pub time_end_period : ℕ → W → W
  pub raise_thread_priority : W → W
  pub av_set_mm_thread_characteristics : W → ℕ × W
  pub av_revert_mm_thread_characteristics : ℕ → W → W
  pub raise_priority_class : W → W
  pub set_thread_affinity_mask : ℕ → W → W

module _ {W : Type 0} (os : Os W) where
  -- `HighResTimer::acquire`; a failure is only printed.
  unfoldable pub acquire_timer : W → W
  acquire_timer w = (os.time_begin_period 1 w).1

  -- `Drop for HighResTimer`
  unfoldable pub drop_timer : W → W
  drop_timer w = os.time_end_period 1 w

  unfoldable pub boost_thread_priority : W → W
  boost_thread_priority w = os.raise_thread_priority w

  -- `MmcssGuard::acquire`
  unfoldable pub acquire_mmcss : W → Option ℕ × W
  acquire_mmcss w =
      let (handle, w') = os.av_set_mm_thread_characteristics w in
      (if handle == 0 then none else some handle, w')

  -- `Drop for MmcssGuard`, of the guard if there is one
  unfoldable pub drop_mmcss : Option ℕ → W → W
  drop_mmcss none w = w
  drop_mmcss (some handle) w = os.av_revert_mm_thread_characteristics handle w

  -- Success and failure are only printed.
  unfoldable pub set_high_priority : W → W
  set_high_priority w = os.raise_priority_class w

  unfoldable pub pin_thread_to_core : ℕ → W → W
  pin_thread_to_core core w = if leb 64 core then w else os.set_thread_affinity_mask (2 ^ core) w

  -- What both loops do first: `if high_priority`, `if let Some(core) = pin_core`.
  unfoldable pub raise_priority : Bool → W → W
  raise_priority high_priority w = if high_priority then set_high_priority w else w

  unfoldable pub pin : Option ℕ → W → W
  pin none w = w
  pin (some core) w = pin_thread_to_core core w
