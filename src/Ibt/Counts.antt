-- ===== src/Ibt/Counts.antt =====
-- The counts that the .ibt writer keeps, on any disk: operations may fail.
use iracing_teleport.Base.{
  ℕ, suc, ◌+◌, ◌%◌, ◌^◌, ◌≤◌, ◌<◌, ◌≡◌, List, [], ◌∷◌, Bool, true, false, Option, none, some, arith,
  length, slice, if◌then◌else◌, subst,
}
use iracing_teleport.Ibt.{MapLayout, parse, active_varbuf, wrap}
use iracing_teleport.Ibt.Writer.{
  Disk, OpenIbt, IbtWriter, new, opened_ibt, track_time, track_lap, start_session, finish,
  ensure_open, append_new, append_active, append_open, append_row, is_rolled, update, on_map_update,
}
use iracing_teleport.Ibt.Feed.{feed}

-- At most `n` rows, and no more laps than rows.
pub record IsCountedFile (n : ℕ) (o : OpenIbt) : Type 0 where
  pub rows : o.record_count ≤ n
  pub laps : o.lap_count ≤ o.record_count

abbrev pub IsCounted : ℕ → Option OpenIbt → Type 0
IsCounted n none = Unit
IsCounted n (some o) = IsCountedFile n o

track-IsCountedFile :
    (f64_gt : ℕ → ℕ → Bool) (n : ℕ) (o : OpenIbt) (row : List ℕ)
    → n + 1 < 2 ^ 32
    → IsCountedFile n o
    → IsCountedFile (n + 1) (
        track_lap
          (track_time f64_gt (record o { record_count = (o.record_count + 1) % 2 ^ 32 }) row)
          row)
unfolding track_time track_lap
track-IsCountedFile f64_gt n o row h c = let r = c.rows in let l = c.laps in ground arith

module _ {W : Type 0} (disk : Disk W) (f64_gt : ℕ → ℕ → Bool) where
  more-IsCountedFile : (n : ℕ) (o : OpenIbt) → IsCountedFile n o → IsCountedFile (n + 1) o
  more-IsCountedFile n o c = record { rows = omega (arith, c.rows); laps = c.laps }

  append_new-IsCountedFile :
      (n : ℕ) (o : OpenIbt) (live : List ℕ) (off : ℕ) (w : W)
      → n + 1 < 2 ^ 32
      → IsCountedFile n o
      → IsCountedFile (n + 1) (append_new disk f64_gt o live off w).0
  unfolding append_new
  append_new-IsCountedFile n o live off w h c =
      let row = slice live off (wrap (off + o.layout.buf_len)) in
      let t = track-IsCountedFile f64_gt n o row h c in
      let m = more-IsCountedFile n o c in ground arith

  append_active-IsCountedFile :
      (n : ℕ) (active : Option (ℕ × ℕ)) (o : OpenIbt) (live : List ℕ) (w : W)
      → n + 1 < 2 ^ 32
      → IsCountedFile n o
      → IsCountedFile (n + 1) (append_active disk f64_gt o live active w).0
  unfolding append_active
  append_active-IsCountedFile n none o live w h c = more-IsCountedFile n o c
  append_active-IsCountedFile n (some (tick, off)) o live w h c =
      let ticked : OpenIbt = record o { last_tick = tick } in
      let a =
        append_new-IsCountedFile n ticked live off w h (record { rows = c.rows; laps = c.laps }) in
      let m = more-IsCountedFile n o c in ground arith

  append_row-IsCounted :
      (n : ℕ) (current : Option OpenIbt) (live : List ℕ) (w : W)
      → n + 1 < 2 ^ 32
      → IsCounted n current
      → IsCounted (n + 1) (append_row disk f64_gt (record { current = current }) live w).0.current
  unfolding append_row append_open
  append_row-IsCounted n none live w h c = tt
  append_row-IsCounted n (some o) live w h c =
      append_active-IsCountedFile n (active_varbuf live) o live w h c

  start_session-IsCounted :
      (n : ℕ) (writer : IbtWriter) (live : List ℕ) (l : MapLayout) (stamp : ℕ) (w : W)
      → IsCounted n writer.current
      → IsCounted n (start_session disk writer live l stamp w).0.current
  unfolding start_session opened_ibt
  start_session-IsCounted n writer live l stamp w c = ground arith

  ensure_open-IsCounted :
      (n : ℕ) (current : Option OpenIbt) (live : List ℕ) (l : MapLayout) (now : ℕ) (w : W)
      → IsCounted n current
      → IsCounted n (ensure_open disk (record { current = current }) live l now w).0.current
  unfolding ensure_open new
  ensure_open-IsCounted n none live l now w c = start_session-IsCounted n new live l now w tt
  ensure_open-IsCounted n (some o) live l now w c = c

  finish-IsCounted :
      (n : ℕ) (current : Option OpenIbt) (w : W)
      → IsCounted n (finish disk (record { current = current }) w).0.current
  unfolding finish
  finish-IsCounted n none w = tt
  finish-IsCounted n (some o) w = tt

  more-IsCounted :
      (n : ℕ) (current : Option OpenIbt) → IsCounted n current → IsCounted (n + 1) current
  more-IsCounted n none c = tt
  more-IsCounted n (some o) c = more-IsCountedFile n o c

  -- The file after the check of the session, and after one was opened if none was.
  update-IsCounted :
      (n now : ℕ) (l : MapLayout) (writer : IbtWriter) (live : List ℕ) (w : W)
      → n + 1 < 2 ^ 32
      → IsCounted n writer.current
      → IsCounted (n + 1) (update disk f64_gt now l writer live w).0.current
  unfolding update
  update-IsCounted n now l writer live w h c =
      let next : (x : IbtWriter × W)
          → IsCounted n x.0.current
          → (let (rolled, w') = x in
              let (started, w'') = ensure_open disk rolled live l now w' in
              IsCounted (n + 1) (append_row disk f64_gt started live w'').0.current) =
        λ x c'.
          let (started, w'') = ensure_open disk x.0 live l now x.1 in
          append_row-IsCounted n started.current live w'' h
            (ensure_open-IsCounted n x.0.current live l now x.1 c') in
      elim (is_rolled writer l)
        as (λ b.
          let (rolled, w') = if b then finish disk writer w else (writer, w) in
          let (started, w'') = ensure_open disk rolled live l now w' in
          IsCounted (n + 1) (append_row disk f64_gt started live w'').0.current) [
            | true ↦ next (finish disk writer w) (finish-IsCounted n writer.current w)
            | false ↦ next (writer, w) c
          ]

  pub on_map_update-IsCounted :
      (n now : ℕ) (writer : IbtWriter) (live : List ℕ) (w : W)
      → n + 1 < 2 ^ 32
      → IsCounted n writer.current
      → IsCounted (n + 1) (on_map_update disk f64_gt now writer live w).0.current
  unfolding on_map_update
  on_map_update-IsCounted n now writer live w h c =
      elim (parse live)
        as (λ p.
          IsCounted (n + 1)
            (elim p as (λ _. IbtWriter × W) [
              | none ↦ (writer, w)
              | some layout ↦ update disk f64_gt now layout writer live w
            ]).0.current) [
              | none ↦ more-IsCounted n writer.current c
              | some l ↦ update-IsCounted n now l writer live w h c
            ]

  -- On any disk, a run of maps of any sessions: if the open file, if there is one, has counted at most
  -- `n` rows, and at most as many laps as rows, then afterwards it has counted at most as many more rows
  -- as there were maps, and at most as many laps as rows, if this bound is below 2 ^ 32.
  pub feed-IsCounted :
      (lives : List (ℕ × List ℕ)) (n : ℕ) (writer : IbtWriter) (w : W)
      → n + length lives < 2 ^ 32
      → IsCounted n writer.current
      → IsCounted (n + length lives) (feed disk f64_gt lives writer w).0.current
  unfolding feed
  feed-IsCounted [] n writer w h c = subst (λ k. IsCounted k writer.current) (omega arith) c
  feed-IsCounted ((now, live) ∷ lives) n writer w h c =
      let (writer', w') = on_map_update disk f64_gt now writer live w in
      let here = on_map_update-IsCounted n now writer live w (omega arith) c in
      let e : (n + 1) + length lives ≡ n + suc (length lives) = omega arith in
      subst (λ k. IsCounted k (feed disk f64_gt lives writer' w').0.current) e
        (feed-IsCounted lives (n + 1) writer' w' (omega arith) here)
