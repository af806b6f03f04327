-- ===== src/Ibt/Recording.antt =====
-- What a session leaves in an .ibt file, on a disk where no operation fails.
use iracing_teleport.Base.{
  ℕ, ◌+◌, ◌%◌, ◌^◌, ◌≡◌, refl, sym, ap, ◌∙◌, List, [], ◌∷◌, ◌++◌, Bool, Option, none, some, arith,
  length, drop, slice, ltb, ◌==◌, if◌then◌else◌, subst, append_assoc, length-append, take_all,
  drop_all, inl, inr, Bool-cases, ==_iff,
}
use mathlib.Core.List.{append-nil}
use iracing_teleport.Protocol.Sender.{ok}
use iracing_teleport.Ibt.{active_varbuf, wrap}
use iracing_teleport.Ibt.Prefix.{write_at}
use iracing_teleport.Ibt.Writer.{
  Disk, opened, OpenIbt, track_time, track_lap, append_new, append_active,
}

-- A disk on which every operation succeeds and every name is unused, with what it keeps of the open
-- file: its bytes, and the position of the next write.
pub record IsReliable {W : Type 0} (disk : Disk W) (contents : W → List ℕ) (position : W → ℕ)
    : Type 0 where
  pub made : (w : W) → (disk.create_dir_all w).0 ≡ ok tt
  pub created :
      (stamp i : ℕ) (w : W)
      → let (r, w') = disk.create_new stamp i w in
        (r ≡ opened) × (contents w' ≡ []) × (position w' ≡ 0)
  pub written :
      (bytes : List ℕ) (w : W)
      → let (r, w') = disk.write_all bytes w in
        (r ≡ ok tt)
        × (contents w' ≡ write_at (contents w) (position w) bytes)
        × (position w' ≡ position w + length bytes)
  pub sought :
      (at : ℕ) (w : W)
      → let (r, w') = disk.seek at w in
        (r ≡ ok tt) × (contents w' ≡ contents w) × (position w' ≡ at)
  pub flushed : (w : W) → let (r, w') = disk.flush w in (r ≡ ok tt) × (contents w' ≡ contents w)

-- The rows that a map adds after the tick `last`, by its active buffer: none or one.
abbrev pub rows_at : ℕ → ℕ → List ℕ → Option (ℕ × ℕ) → List (List ℕ)
rows_at last len live none = []
rows_at last len live (some (tick, off)) =
    if tick == last
    then []
    else if ltb (length live) (wrap (off + len))
    then []
    else slice live off (wrap (off + len)) ∷ []

abbrev pub tick_at : ℕ → Option (ℕ × ℕ) → ℕ
tick_at last none = last
tick_at last (some (tick, off)) = tick

-- The rows of a run of maps.
abbrev pub rows_of : ℕ → ℕ → List (List ℕ) → List (List ℕ)
rows_of last len [] = []
rows_of last len (live ∷ lives) =
    rows_at last len live (active_varbuf live)
    ++ rows_of (tick_at last (active_varbuf live)) len lives

abbrev pub concat : List (List ℕ) → List ℕ
concat [] = []
concat (r ∷ rows) = r ++ concat rows

concat-append : (xs ys : List (List ℕ)) → concat (xs ++ ys) ≡ concat xs ++ concat ys
concat-append [] ys = refl
concat-append (x ∷ xs) ys =
    ap (λ t. x ++ t) (concat-append xs ys) ∙ sym (append_assoc x (concat xs) (concat ys))

-- What stays the same of an open file when a row is added: all but counts, times and laps.
record IsSameFile (o o' : OpenIbt) : Type 0 where
  layout : o'.layout ≡ o.layout
  start_date : o'.start_date ≡ o.start_date
  record_count : o'.record_count ≡ o.record_count
  last_tick : o'.last_tick ≡ o.last_tick

track_time-IsSameFile :
    (f64_gt : ℕ → ℕ → Bool) (o : OpenIbt) (row : List ℕ) → IsSameFile o (track_time f64_gt o row)
unfolding track_time
track_time-IsSameFile f64_gt o row = ground arith

track_lap-IsSameFile : (o : OpenIbt) (row : List ℕ) → IsSameFile o (track_lap o row)
unfolding track_lap
track_lap-IsSameFile o row = ground arith

module _ {W : Type 0} (disk : Disk W) (contents : W → List ℕ) (position : W → ℕ)
    (d : IsReliable disk contents position) where
  -- The file holds the prefix and the rows, and the next write goes to its end.
  pub record IsRecording (o : OpenIbt) (w : W) (prefix : List ℕ) (rows : List (List ℕ))
      : Type 0 where
    pub held : contents w ≡ prefix ++ concat rows
    pub at_end : position w ≡ length (contents w)
    pub counted : o.record_count ≡ length rows % 2 ^ 32

  pub write_at-end : (b src : List ℕ) (at : ℕ) → at ≡ length b → write_at b at src ≡ b ++ src
  write_at-end b src at e =
      ap (λ t. t ++ (src ++ drop (at + length src) b)) (take_all at b (omega arith))
      ∙ ap (λ t. b ++ (src ++ t)) (drop_all (at + length src) b (omega arith))
      ∙ ap (λ t. b ++ t) (append-nil src)

  -- The open file after a map, with the rows that the file holds then.
  record IsAppended (o o' : OpenIbt) (w' : W) (prefix : List ℕ) (rows : List (List ℕ))
      : Type 0 where
    recording : IsRecording o' w' prefix rows
    layout : o'.layout ≡ o.layout
    start_date : o'.start_date ≡ o.start_date
    last_tick : o'.last_tick ≡ o.last_tick

  unchanged-IsAppended :
      (o : OpenIbt) (w : W) (prefix : List ℕ) (rows : List (List ℕ))
      → IsRecording o w prefix rows
      → IsAppended o o w prefix (rows ++ [])
  unchanged-IsAppended o w prefix rows r = record {
    recording = subst (λ l. IsRecording o w prefix l) (sym (append-nil rows)) r;
    layout = refl;
    start_date = refl;
    last_tick = refl;
  }

  -- The row that was written stands behind the others.
  written-IsRecording :
      (o o' : OpenIbt) (w : W) (prefix row : List ℕ) (rows : List (List ℕ))
      → IsRecording o w prefix rows
      → o'.record_count ≡ (o.record_count + 1) % 2 ^ 32
      → IsRecording o' (disk.write_all row w).1 prefix (rows ++ (row ∷ []))
  written-IsRecording o o' w prefix row rows r e =
      let (_, kept, moved) = d.written row w in
      let whole : contents (disk.write_all row w).1 ≡ contents w ++ row =
        kept ∙ write_at-end (contents w) row (position w) r.at_end in
      record {
        held =
            whole
            ∙ ap (λ t. t ++ row) r.held
            ∙ append_assoc prefix (concat rows) row
            ∙ ap (λ t. prefix ++ (concat rows ++ t)) (sym (append-nil row))
            ∙ ap (λ t. prefix ++ t) (sym (concat-append rows (row ∷ [])));
        at_end =
            omega (arith, moved, r.at_end, ap length whole, length-append {0} (contents w) row);
        counted = omega (arith, e, r.counted, length-append {0} rows (row ∷ []));
      }

  module _ (f64_gt : ℕ → ℕ → Bool) where
    append_new-IsAppended :
        (o : OpenIbt) (live : List ℕ) (off : ℕ) (w : W) (prefix : List ℕ) (rows : List (List ℕ))
        → IsRecording o w prefix rows
        → let past = ltb (length live) (wrap (off + o.layout.buf_len)) in
          let row = slice live off (wrap (off + o.layout.buf_len)) in
          let (o', w') = append_new disk f64_gt o live off w in
          IsAppended o o' w' prefix (rows ++ (if past then [] else row ∷ []))
    unfolding append_new
    append_new-IsAppended o live off w prefix rows r =
        let past = ltb (length live) (wrap (off + o.layout.buf_len)) in
        let row = slice live off (wrap (off + o.layout.buf_len)) in
        let (written, _, _) = d.written row w in
        let counted : OpenIbt = record o { record_count = (o.record_count + 1) % 2 ^ 32 } in
        let timed = track_time f64_gt counted row in
        let t = track_time-IsSameFile f64_gt counted row in
        let l = track_lap-IsSameFile timed row in
        elim (Bool-cases past) [
          | inl out ↦ rw out (unchanged-IsAppended o w prefix rows r)
          | inr inside ↦
              rw (inside, written)
                (record {
                  recording =
                      written-IsRecording o (track_lap timed row) w prefix row rows r
                        (l.record_count ∙ t.record_count);
                  layout = l.layout ∙ t.layout;
                  start_date = l.start_date ∙ t.start_date;
                  last_tick = l.last_tick ∙ t.last_tick;
                })
        ]

    -- The file after a map is seen, by its active buffer.
    pub record IsSeen (o o' : OpenIbt) (w' : W) (prefix : List ℕ) (rows : List (List ℕ))
        (live : List ℕ) (active : Option (ℕ × ℕ)) : Type 0 where
      pub recording :
          IsRecording o' w' prefix (rows ++ rows_at o.last_tick o.layout.buf_len live active)
      pub layout : o'.layout ≡ o.layout
      pub start_date : o'.start_date ≡ o.start_date
      pub last_tick : o'.last_tick ≡ tick_at o.last_tick active

    pub append_active-IsSeen :
        (active : Option (ℕ × ℕ)) (o : OpenIbt) (live : List ℕ) (w : W) (prefix : List ℕ)
        (rows : List (List ℕ))
        → IsRecording o w prefix rows
        → let (o', w') = append_active disk f64_gt o live active w in
          IsSeen o o' w' prefix rows live active
    unfolding append_active
    append_active-IsSeen none o live w prefix rows r =
        let u = unchanged-IsAppended o w prefix rows r in
        record { recording = u.recording; layout = refl; start_date = refl; last_tick = refl }
    append_active-IsSeen (some (tick, off)) o live w prefix rows r =
        let ticked : OpenIbt = record o { last_tick = tick } in
        let r' : IsRecording ticked w prefix rows = record {
          held = r.held;
          at_end = r.at_end;
          counted = r.counted;
        } in
        let a = append_new-IsAppended ticked live off w prefix rows r' in
        let u = unchanged-IsAppended o w prefix rows r in
        elim (Bool-cases (tick == o.last_tick)) [
          | inl again ↦ rw again (record {
            recording = rw again u.recording;
            layout = refl;
            start_date = refl;
            last_tick = sym ((==_iff tick o.last_tick).0 again);
          })
          | inr fresh ↦ rw fresh (record {
            recording = rw fresh a.recording;
            layout = a.layout;
            start_date = a.start_date;
            last_tick = a.last_tick;
          })
        ]
