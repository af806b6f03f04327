-- ===== src/Source/Run/Held.antt =====
-- The shared memory of the game as `run` of teleport/src/source.rs opens and drops it.
use iracing_teleport.Base.{
  ℕ, ◌+◌, ◌≡◌, refl, ◌∙◌, List, [], ◌∷◌, Bool, true, false, Option, none, some, arith, ◌==◌, ◌⊎◌,
  inl, inr, if◌then◌else◌,
}
use iracing_teleport.Protocol.Sender.{Result}
use iracing_teleport.Telemetry.Windows.{
  WindowsTelemetry, TelemetryError, unavailable, other, is_invalid, file_map_read, open_telemetry,
  drop_telemetry,
}
use iracing_teleport.Telemetry.Windows.Balance.{Counts, one, IsSameOpen}
use iracing_teleport.Source.Run.{
  Outside, Connection, found, stopping, refused, waiting, Outcome, goes_on, connect,
}

module _ {W : Type 0} (out : Outside W) (c : Counts out.win) (k : ℕ) where
  -- The memory `t` is open since `w`: its own handles and its view once more than then.
  pub record IsHeld (t : WindowsTelemetry) (w w' : W) : Type 0 where
    pub has_map : is_invalid t.h_map ≡ false
    pub has_event : is_invalid t.h_event ≡ false
    pub has_view : (t.view == 0) ≡ false
    pub handles : c.handles k w' ≡ c.handles k w + one t.h_map k + one t.h_event k
    pub views : c.views k w' ≡ c.views k w + one t.view k

  abbrev IsOpened : W → (TelemetryError ⊎ WindowsTelemetry) × W → Type 0
  IsOpened w (inl e, w') = IsSameOpen out.win c w w' k
  IsOpened w (inr t, w') = IsHeld t w w'

  open_telemetry-IsOpened : (w : W) → IsOpened w (open_telemetry out.win w)
  unfolding open_telemetry
  open_telemetry-IsOpened w =
      let (h_map, w1) = out.win.open_file_mapping file_map_read w in
      let (view, w2) = out.win.map_view_of_file h_map file_map_read w1 in
      let (h_event, w3) = out.win.open_event w2 in
      let w4 = out.win.unmap_view_of_file view w3 in
      let l1 = c.opened k file_map_read w in
      let l2 = c.mapped k h_map file_map_read w1 in
      let l3 = c.event_opened k w2 in
      let l4 = c.closed k h_map w2 in
      let l5 = c.unmapped k view w3 in let l6 = c.closed k h_map w4 in ground arith

  pub drop_telemetry-IsHeld :
      (t : WindowsTelemetry) (w w' : W)
      → IsHeld t w w'
      → IsSameOpen out.win c w (drop_telemetry out.win t w') k
  unfolding drop_telemetry
  drop_telemetry-IsHeld t w w' h =
      let w1 = out.win.unmap_view_of_file t.view w' in
      let w2 = out.win.close_handle t.h_map w1 in
      let l1 = c.unmapped k t.view w' in
      let l2 = c.closed k t.h_map w1 in let l3 = c.closed k t.h_event w2 in ground arith

  pub IsHeld-later :
      (t : WindowsTelemetry) (w u v : W) → IsHeld t w u → IsSameOpen out.win c u v k → IsHeld t w v
  IsHeld-later t w u v h same = record {
    has_map = h.has_map;
    has_event = h.has_event;
    has_view = h.has_view;
    handles = same.0 ∙ h.handles;
    views = same.1 ∙ h.views;
  }

  -- How attempts to open the memory leave it.
  abbrev pub IsConnected : W → Connection × W → Type 0
  IsConnected w (found t, w') = IsHeld t w w'
  IsConnected w (_, w') = IsSameOpen out.win c w w' k

  pub IsConnected-later :
      (u v : W) (x : Connection × W)
      → IsSameOpen out.win c u v k
      → IsConnected v x
      → IsConnected u x
  IsConnected-later u v (found t, w) same h = record {
    has_map = h.has_map;
    has_event = h.has_event;
    has_view = h.has_view;
    handles = ground arith;
    views = ground arith;
  }
  IsConnected-later u v (stopping, w) same h = (h.0 ∙ same.0, h.1 ∙ same.1)
  IsConnected-later u v (refused, w) same h = (h.0 ∙ same.0, h.1 ∙ same.1)
  IsConnected-later u v (waiting, w) same h = (h.0 ∙ same.0, h.1 ∙ same.1)

  attempt-IsConnected :
      (requested : Bool) (later : List Bool) (w : W)
      (opened : (TelemetryError ⊎ WindowsTelemetry) × W)
      → IsOpened w opened
      → IsConnected opened.1 (connect out later opened.1)
      → IsConnected w (elim opened.0 as (λ _. Connection × W) [
        | inr t ↦ (found t, opened.1)
        | inl (other message) ↦ (refused, opened.1)
        | inl unavailable ↦ if requested then (stopping, opened.1) else connect out later opened.1
      ])
  attempt-IsConnected requested later w (inr t, w') h again = h
  attempt-IsConnected requested later w (inl (other message), w') h again = h
  attempt-IsConnected true later w (inl unavailable, w') h again = h
  attempt-IsConnected false later w (inl unavailable, w') h again =
      IsConnected-later w w' (connect out later w') h again

  pub connect-IsConnected : (attempts : List Bool) (w : W) → IsConnected w (connect out attempts w)
  unfolding connect
  connect-IsConnected [] w = (refl, refl)
  connect-IsConnected (requested ∷ later) w =
      attempt-IsConnected requested later w (open_telemetry out.win w) (open_telemetry-IsOpened w)
        (connect-IsConnected later (open_telemetry out.win w).1)

  -- How a round leaves the memory.
  abbrev pub IsSettled : W → Outcome × W → Type 0
  IsSettled w (goes_on t s, w') = IsHeld t w w'
  IsSettled w (_, w') = IsSameOpen out.win c w w' k

  -- How the loop, and `run`, leave the memory when they end.
  abbrev pub IsClosedAt : W → Option (Result (Unit {0})) × W → Type 0
  IsClosedAt w (none, w') = Unit
  IsClosedAt w (some r, w') = IsSameOpen out.win c w w' k
