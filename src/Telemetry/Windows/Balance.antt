-- ===== src/Telemetry/Windows/Balance.antt =====
-- No handle and no view of the shared memory is leaked or closed twice.
use iracing_teleport.Base.{
  ℕ, zero, suc, ◌+◌, ◌-◌, ◌*◌, ◌≤◌, ◌%◌, ◌/◌, ◌^◌, ◌≡◌, refl, arith, ◌==◌, ◌⊎◌, inl, inr,
  if◌then◌else◌,
}
use iracing_teleport.Telemetry.Windows.{
  Access, file_map_read, file_map_write, file_map_all_access, Win32, is_invalid, TelemetryError,
  WindowsTelemetry, drop_telemetry, open_telemetry, create_telemetry, pause, zero_attempts,
  zero_on_exit,
}

-- One for the number itself, none for another.
abbrev pub one : ℕ → ℕ → ℕ
one h k = if k == h then 1 else 0

-- What the calls of Win32 do to the open handles and the mapped views, counted for each handle and
-- each address `k`.
pub record Counts {W : Type 0} (win : Win32 W) : Type 0 where
  pub handles : ℕ → W → ℕ
  pub views : ℕ → W → ℕ
  pub opened :
      (k : ℕ) (access : Access) (w : W)
      → let (h, w') = win.open_file_mapping access w in
        (handles k w' ≡ (if is_invalid h then handles k w else handles k w + one h k))
        × (views k w' ≡ views k w)
  pub created :
      (k hi lo : ℕ) (w : W)
      → let (h, w') = win.create_file_mapping hi lo w in
        (handles k w' ≡ (if is_invalid h then handles k w else handles k w + one h k))
        × (views k w' ≡ views k w)
        × ((h == 0) ≡ is_invalid h)
  pub mapped :
      (k h : ℕ) (access : Access) (w : W)
      → let (view, w') = win.map_view_of_file h access w in
        (handles k w' ≡ handles k w)
        × (views k w' ≡ (if view == 0 then views k w else views k w + one view k))
  pub event_opened :
      (k : ℕ) (w : W)
      → let (h, w') = win.open_event w in
        (handles k w' ≡ (if is_invalid h then handles k w else handles k w + one h k))
        × (views k w' ≡ views k w)
  pub event_created :
      (k : ℕ) (w : W)
      → let (h, w') = win.create_event w in
        (handles k w' ≡ (if is_invalid h then handles k w else handles k w + one h k))
        × (views k w' ≡ views k w)
  pub unmapped :
      (k view : ℕ) (w : W)
      → let w' = win.unmap_view_of_file view w in
        (handles k w' ≡ handles k w) × (views k w' ≡ views k w - one view k)
  pub closed :
      (k h : ℕ) (w : W)
      → let w' = win.close_handle h w in
        (handles k w' ≡ handles k w - one h k) × (views k w' ≡ views k w)
  pub written :
      (k view size : ℕ) (w : W)
      → let w' = win.write_bytes view size w in
        (handles k w' ≡ handles k w) × (views k w' ≡ views k w)
  pub slept :
      (k n : ℕ) (w : W)
      → let w' = win.sleep n w in (handles k w' ≡ handles k w) × (views k w' ≡ views k w)
  pub waited :
      (k h n : ℕ) (w : W)
      → let (_, w') = win.wait_for_single_object h n w in
        (handles k w' ≡ handles k w) × (views k w' ≡ views k w)
  pub signalled :
      (k h : ℕ) (w : W)
      → let (_, w') = win.set_event h w in (handles k w' ≡ handles k w) × (views k w' ≡ views k w)

module _ {W : Type 0} (win : Win32 W) (c : Counts win) where
  -- The same handles and views are open.
  abbrev pub IsSameOpen : W → W → ℕ → Type 0
  IsSameOpen w w' k = (c.handles k w' ≡ c.handles k w) × (c.views k w' ≡ c.views k w)

  -- What an attempt to get the shared memory leaves: nothing, or the handles and the view that it
  -- gives, which the drop closes.
  abbrev pub IsBalanced : W → (TelemetryError ⊎ WindowsTelemetry) × W → ℕ → Type 0
  IsBalanced w (inl e, w') k = IsSameOpen w w' k
  IsBalanced w (inr t, w') k =
      (c.handles k w' ≡ c.handles k w + one t.h_map k + one t.h_event k)
      × (c.views k w' ≡ c.views k w + one t.view k)
      × IsSameOpen w (drop_telemetry win t w') k

  -- `open` leaks nothing: when it fails, each handle and each view is open as often as before; when it
  -- succeeds, its own are open once more, and the drop closes each of them once.
  pub open_telemetry-IsBalanced : (w : W) (k : ℕ) → IsBalanced w (open_telemetry win w) k
  unfolding open_telemetry drop_telemetry
  open_telemetry-IsBalanced w k =
      let (h_map, w1) = win.open_file_mapping file_map_read w in
      let (view, w2) = win.map_view_of_file h_map file_map_read w1 in
      let (h_event, w3) = win.open_event w2 in
      let w4 = win.unmap_view_of_file view w3 in
      let l1 = c.opened k file_map_read w in
      let l2 = c.mapped k h_map file_map_read w1 in
      let l3 = c.event_opened k w2 in
      let l4 = c.closed k h_map w2 in
      let l5 = c.unmapped k view w3 in
      let l6 = c.closed k h_map w4 in
      let l7 = c.closed k h_event (win.close_handle h_map w4) in ground arith

  -- `create` leaks nothing: when it fails, each handle and each view is open as often as before; when it
  -- succeeds, its own are open once more, and the drop closes each of them once.
  pub create_telemetry-IsBalanced :
      (size : ℕ) (w : W) (k : ℕ) → IsBalanced w (create_telemetry win size w) k
  unfolding create_telemetry drop_telemetry
  create_telemetry-IsBalanced size w k =
      let hi = size / 2 ^ 32 % 2 ^ 32 in
      let lo = size % 2 ^ 32 in
      let (h_map, w1) = win.create_file_mapping hi lo w in
      let (view, w2) = win.map_view_of_file h_map file_map_all_access w1 in
      let (h_event, w3) = win.create_event w2 in
      let w4 = win.unmap_view_of_file view w3 in
      let l1 = c.created k hi lo w in
      let l2 = c.mapped k h_map file_map_all_access w1 in
      let l3 = c.event_created k w2 in
      let l4 = c.closed k h_map w2 in
      let l5 = c.unmapped k view w3 in
      let l6 = c.closed k h_map w4 in
      let l7 = c.closed k h_event (win.close_handle h_map w4) in ground arith

  pause-IsSameOpen : (attempt : ℕ) (w : W) (k : ℕ) → IsSameOpen w (pause win attempt w) k
  unfolding pause
  pause-IsSameOpen attempt w k = let l = c.slept k 5000 w in ground arith

  pub zero_attempts-IsSameOpen :
      (left attempt size : ℕ) (w : W) (k : ℕ)
      → IsSameOpen w (zero_attempts win left attempt size w) k
  unfolding zero_attempts
  zero_attempts-IsSameOpen zero attempt size w k = (refl, refl)
  zero_attempts-IsSameOpen (suc left) attempt size w k =
      let (h_write, w1) = win.open_file_mapping file_map_write w in
      let (view, w2) = win.map_view_of_file h_write file_map_write w1 in
      let w3 = win.close_handle h_write w2 in
      let written = win.write_bytes view size w2 in
      let unmapped = win.unmap_view_of_file view written in
      let l1 = c.opened k file_map_write w in
      let l2 = c.mapped k h_write file_map_write w1 in
      let l3 = c.closed k h_write w2 in
      let p1 = pause-IsSameOpen attempt w1 k in
      let p3 = pause-IsSameOpen attempt w3 k in
      let r1 = zero_attempts-IsSameOpen left (attempt + 1) size (pause win attempt w1) k in
      let r3 = zero_attempts-IsSameOpen left (attempt + 1) size (pause win attempt w3) k in
      let l4 = c.written k view size w2 in
      let l5 = c.unmapped k view written in
      let l6 = c.slept k 500 unmapped in
      let l7 = c.closed k h_write (win.sleep 500 unmapped) in ground arith

  -- `zero_on_exit` leaks nothing: however the calls answer, each handle and each view is open as often
  -- as before.
  pub zero_on_exit-IsSameOpen :
      (size : ℕ) (w : W) (k : ℕ) → IsSameOpen w (zero_on_exit win size w) k
  unfolding zero_on_exit
  zero_on_exit-IsSameOpen size w k = zero_attempts-IsSameOpen 3 1 size w k

-- What the calls do to a clock that only counts the pauses, in milliseconds.
pub record Pauses {W : Type 0} (win : Win32 W) : Type 0 where
  pub paused : W → ℕ
  pub opened : (access : Access) (w : W) → paused (win.open_file_mapping access w).1 ≡ paused w
  pub mapped :
      (h : ℕ) (access : Access) (w : W) → paused (win.map_view_of_file h access w).1 ≡ paused w
  pub unmapped : (view : ℕ) (w : W) → paused (win.unmap_view_of_file view w) ≡ paused w
  pub closed : (h : ℕ) (w : W) → paused (win.close_handle h w) ≡ paused w
  pub written : (view size : ℕ) (w : W) → paused (win.write_bytes view size w) ≡ paused w
  pub slept : (n : ℕ) (w : W) → paused (win.sleep n w) ≡ paused w + n

module _ {W : Type 0} (win : Win32 W) (p : Pauses win) where
  zero_attempts-paused :
      (left attempt size : ℕ) (w : W)
      → suc left + attempt ≡ 4
      → p.paused (zero_attempts win (suc left) attempt size w) ≤ p.paused w + 5000 * left + 500
  unfolding zero_attempts pause
  zero_attempts-paused zero attempt size w e =
      let (h_write, w1) = win.open_file_mapping file_map_write w in
      let (view, w2) = win.map_view_of_file h_write file_map_write w1 in
      let written = win.write_bytes view size w2 in
      let unmapped = win.unmap_view_of_file view written in
      let l1 = p.opened file_map_write w in
      let l2 = p.mapped h_write file_map_write w1 in
      let l3 = p.closed h_write w2 in
      let l4 = p.written view size w2 in
      let l5 = p.unmapped view written in
      let l6 = p.slept 500 unmapped in
      let l7 = p.closed h_write (win.sleep 500 unmapped) in ground arith
  zero_attempts-paused (suc left) attempt size w e =
      let (h_write, w1) = win.open_file_mapping file_map_write w in
      let (view, w2) = win.map_view_of_file h_write file_map_write w1 in
      let w3 = win.close_handle h_write w2 in
      let written = win.write_bytes view size w2 in
      let unmapped = win.unmap_view_of_file view written in
      let l1 = p.opened file_map_write w in
      let l2 = p.mapped h_write file_map_write w1 in
      let l3 = p.closed h_write w2 in
      let s1 = p.slept 5000 w1 in
      let s3 = p.slept 5000 w3 in
      let r1 = zero_attempts-paused left (attempt + 1) size (pause win attempt w1) (omega arith) in
      let r3 = zero_attempts-paused left (attempt + 1) size (pause win attempt w3) (omega arith) in
      let l4 = p.written view size w2 in
      let l5 = p.unmapped view written in
      let l6 = p.slept 500 unmapped in
      let l7 = p.closed h_write (win.sleep 500 unmapped) in ground arith

  -- `zero_on_exit` pauses for at most 10.5 seconds in all, however the calls answer.
  pub zero_on_exit-paused :
      (size : ℕ) (w : W) → p.paused (zero_on_exit win size w) ≤ p.paused w + 10500
  unfolding zero_on_exit
  zero_on_exit-paused size w = omega (arith, zero_attempts-paused 2 1 size w refl)
