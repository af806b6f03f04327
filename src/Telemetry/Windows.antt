-- ===== src/Telemetry/Windows.antt =====
-- teleport/src/telemetry/windows.rs, `WindowsTelemetry`: how the shared memory is opened, created,
-- closed and zeroed. The calls of Win32 are a parameter, on a state `W`; a handle or an address is a
-- number.
pub mod Balance
use iracing_teleport.Base.{
  ℕ, zero, suc, ◌+◌, ◌-◌, ◌/◌, ◌%◌, ◌^◌, Bool, true, false, not, ◌||◌, Option, none, some, ltb,
  ◌==◌, if◌then◌else◌, ◌⊎◌, inl, inr,
}
use iracing_teleport.Telemetry.{max_telemetry_size}

pub data Access : Type 0 where
  file_map_read : Access
  file_map_write : Access
  file_map_all_access : Access

pub record Win32 (W : Type 0) : Type 0 where
  pub open_file_mapping : Access → W → ℕ × W
  pub create_file_mapping : ℕ → ℕ → W → ℕ × W
  pub map_view_of_file : ℕ → Access → W → ℕ × W
  pub open_event : W → ℕ × W
  pub create_event : W → ℕ × W
  pub unmap_view_of_file : ℕ → W → W
  pub close_handle : ℕ → W → W
  pub query_region_size : ℕ → W → Option ℕ
  pub write_bytes : ℕ → ℕ → W → W
  pub sleep : ℕ → W → W
  pub wait_for_single_object : ℕ → ℕ → W → ℕ × W
  pub set_event : ℕ → W → ℕ × W

-- INVALID_HANDLE_VALUE, of 64 bits.
abbrev pub invalid_handle_value : ℕ
invalid_handle_value = 2 ^ 64 - 1

-- `h == 0 || h == INVALID_HANDLE_VALUE`
unfoldable pub is_invalid : ℕ → Bool
is_invalid h = (h == 0) || (h == invalid_handle_value)

-- The text of `TelemetryError::Other`.
pub data Message : Type 0 where
  create_file_mapping_failed : Message
  map_view_of_file_failed : Message
  create_event_failed : Message
  set_event_failed : Message

pub data TelemetryError : Type 0 where
  unavailable : TelemetryError
  other : Message → TelemetryError

pub record WindowsTelemetry : Type 0 where
  pub h_map : ℕ
  pub h_event : ℕ
  pub view : ℕ
  pub size : ℕ

-- `unwrap_or(MAX_TELEMETRY_SIZE)`
unfoldable pub region_size : Option ℕ → ℕ
region_size none = max_telemetry_size
region_size (some n) = n

module _ {W : Type 0} (win : Win32 W) where
  -- `Drop for WindowsTelemetry`
  unfoldable pub drop_telemetry : WindowsTelemetry → W → W
  drop_telemetry t w =
      let w1 = if t.view == 0 then w else win.unmap_view_of_file t.view w in
      let w2 = if is_invalid t.h_map then w1 else win.close_handle t.h_map w1 in
      if is_invalid t.h_event then w2 else win.close_handle t.h_event w2

  -- `TelemetryProvider::open`
  unfoldable pub open_telemetry : W → (TelemetryError ⊎ WindowsTelemetry) × W
  open_telemetry w =
      let (h_map, w1) = win.open_file_mapping file_map_read w in
      let (view, w2) = win.map_view_of_file h_map file_map_read w1 in
      let (h_event, w3) = win.open_event w2 in
      let size = region_size (win.query_region_size view w3) in
      if is_invalid h_map
      then (inl unavailable, w1)
      else if view == 0
      then (inl unavailable, win.close_handle h_map w2)
      else if is_invalid h_event
      then (inl unavailable, win.close_handle h_map (win.unmap_view_of_file view w3))
      else (inr (record { h_map = h_map; h_event = h_event; view = view; size = size }), w3)

  -- `TelemetryProvider::create`
  unfoldable pub create_telemetry : ℕ → W → (TelemetryError ⊎ WindowsTelemetry) × W
  create_telemetry size w =
      let (h_map, w1) = win.create_file_mapping (size / 2 ^ 32 % 2 ^ 32) (size % 2 ^ 32) w in
      let (view, w2) = win.map_view_of_file h_map file_map_all_access w1 in
      let (h_event, w3) = win.create_event w2 in
      if h_map == 0
      then (inl (other create_file_mapping_failed), w1)
      else if view == 0
      then (inl (other map_view_of_file_failed), win.close_handle h_map w2)
      else if is_invalid h_event
      then (
        inl (other create_event_failed),
        win.close_handle h_map (win.unmap_view_of_file view w3),
      )
      else (inr (record { h_map = h_map; h_event = h_event; view = view; size = size }), w3)

  -- `wait_for_data`; WAIT_OBJECT_0 is 0.
  unfoldable pub wait_for_data : WindowsTelemetry → ℕ → W → Bool × W
  wait_for_data t timeout_ms w =
      let (code, w') = win.wait_for_single_object t.h_event timeout_ms w in (code == 0, w')

  -- `signal_data_ready`
  unfoldable pub signal_data_ready : WindowsTelemetry → W → Option TelemetryError × W
  signal_data_ready t w =
      let (code, w') = win.set_event t.h_event w in
      (if code == 0 then some (other set_event_failed) else none, w')

  -- The pause after an attempt that failed, if it was not the last.
  unfoldable pub pause : ℕ → W → W
  pause attempt w = if ltb attempt 3 then win.sleep 5000 w else w

  -- The loop of `zero_on_exit`, with `left` attempts to go.
  unfoldable pub zero_attempts : ℕ → ℕ → ℕ → W → W
  zero_attempts zero attempt size w = w
  zero_attempts (suc left) attempt size w =
      let (h_write, w1) = win.open_file_mapping file_map_write w in
      let (view, w2) = win.map_view_of_file h_write file_map_write w1 in
      let unopened = zero_attempts left (attempt + 1) size (pause attempt w1) in
      let unmapped =
        zero_attempts left (attempt + 1) size (pause attempt (win.close_handle h_write w2)) in
      if is_invalid h_write
      then unopened
      else if view == 0
      then unmapped
      else win.close_handle h_write
          (win.sleep 500 (win.unmap_view_of_file view (win.write_bytes view size w2)))

  -- `zero_on_exit`
  unfoldable pub zero_on_exit : ℕ → W → W
  zero_on_exit size w = zero_attempts 3 1 size w
