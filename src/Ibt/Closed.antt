-- ===== src/Ibt/Closed.antt =====
-- The file of a whole session, from a new writer to `finish`.
use iracing_teleport.Base.{
  ℕ, ◌+◌, ◌%◌, ◌^◌, ◌<◌, ◌≡◌, refl, sym, ap, ◌∙◌, List, [], ◌∷◌, ◌++◌, Bool, some, arith, length,
  drop, subst, length-append, to_le, from_le, from_le-to_le, overwrite,
}
use iracing_teleport.Telemetry.{read_i32}
use iracing_teleport.Ibt.{
  MapLayout, parse, active_varbuf, build_prefix, disk_header, subheader_bytes, buf_off,
}
use iracing_teleport.Ibt.Prefix.{
  write_at, ticked_header, ticked_header-IsDiskHeader, IsSane, var_headers, yaml,
  length-var_headers, length-yaml, buf_off-eq,
}
use iracing_teleport.Ibt.Reread.{IsIbt, parse-IsIbt, drop-IsIbt, disk_layout}
use iracing_teleport.Ibt.Writer.{
  Disk, OpenIbt, IbtWriter, new, opened_ibt, finish, final_tick, subheader, append_row,
  on_map_update, i32_min,
}
use iracing_teleport.Ibt.Recording.{IsReliable, IsRecording, rows_of, concat}
use iracing_teleport.Ibt.Feed.{maps, AllOfSession, feed, feed-IsFed}
use iracing_teleport.Ibt.Parsed.{IsPlain, parse-IsSane, parse-layout_of}
use iracing_teleport.Ibt.Session.{
  started_disk, start_session-started, started-IsRecording, patches, contents-patches, patched-eq,
  on_map_update-same, update-opened, update-new,
}

-- A file with its subheader patched.
abbrev closed_file : List ℕ → MapLayout → ℕ → List ℕ → List ℕ → List ℕ
closed_file live l tick sub rows =
    ticked_header l tick ++ (sub ++ (var_headers live l ++ (yaml live l ++ rows)))

closed_file-IsIbt :
    (live : List ℕ) (l : MapLayout) (tick stamp start_t end_t laps records : ℕ) (rows : List ℕ)
    → IsSane live l
    → length rows < 2 ^ 62
    → let sub = subheader_bytes stamp start_t end_t laps records in
      IsIbt live l (closed_file live l tick sub rows) rows
      × (read_i32 (closed_file live l tick sub rows) 140 ≡ from_le (to_le 4 records))
unfolding disk_header subheader_bytes overwrite read_i32
closed_file-IsIbt live l tick stamp start_t end_t laps records rows s small =
    let sub = subheader_bytes stamp start_t end_t laps records in
    let tail = var_headers live l ++ (yaml live l ++ rows) in
    let whole : length (closed_file live l tick sub rows) ≡ 144 + length tail = omega arith in
    (
      record {
        sane = s;
        header = ticked_header-IsDiskHeader l tick (sub ++ tail);
        behind = refl;
        whole = omega (
          arith,
          whole,
          length-append {0} (var_headers live l) (yaml live l ++ rows),
          length-append {0} (yaml live l) rows,
          length-var_headers live l s,
          length-yaml live l s,
          buf_off-eq live l s,
        );
        rows_small = small;
      },
      refl,
    )

module _ {W : Type 0} (disk : Disk W) (contents : W → List ℕ) (position : W → ℕ)
    (d : IsReliable disk contents position) (f64_gt : ℕ → ℕ → Bool) where
  -- A new writer goes on as one that just opened a file.
  pub feed-new :
      (now : ℕ) (live : List ℕ) (l : MapLayout) (lives : List (ℕ × List ℕ)) (w : W)
      → parse live ≡ some l
      → feed disk f64_gt ((now, live) ∷ lives) new w
        ≡ feed disk f64_gt
            ((now, live) ∷ lives)
            (record { current = some (opened_ibt l now) })
            (started_disk disk contents position d (build_prefix live l now) now w)
  unfolding feed
  feed-new now live l lives w parsed =
      let opened : IbtWriter = record { current = some (opened_ibt l now) } in
      let w' = started_disk disk contents position d (build_prefix live l now) now w in
      let started : on_map_update disk f64_gt now new live w
          ≡ append_row disk f64_gt opened live w' =
        on_map_update-same disk f64_gt now new live l w parsed
        ∙ update-new disk f64_gt now live l w
        ∙ ap (λ x. append_row disk f64_gt x.0 live x.1)
            (start_session-started disk contents position d new live l now w) in
      let again : on_map_update disk f64_gt now opened live w'
          ≡ append_row disk f64_gt opened live w' =
        on_map_update-same disk f64_gt now opened live l w' parsed
        ∙ update-opened disk f64_gt now live l w' in
      ap (λ x. feed disk f64_gt lives x.0 x.1) (started ∙ sym again)

  -- What `finish` leaves of a file that records.
  finish-IsIbt :
      (live : List ℕ) (l : MapLayout) (stamp : ℕ) (rows : List (List ℕ)) (o : OpenIbt)
      (writer : IbtWriter) (w : W)
      → writer ≡ record { current = some o }
      → IsRecording disk contents position d o w (build_prefix live l stamp) rows
      → IsSane live l
      → length (concat rows) < 2 ^ 62
      → let (closed, w') = finish disk writer w in
        (closed ≡ new)
        × IsIbt live l (contents w') (concat rows)
        × (read_i32 (contents w') 140 ≡ length rows % 2 ^ 32)
  unfolding finish subheader new
  finish-IsIbt live l stamp rows o writer w e r s small =
      let sub = subheader o in
      let tick = final_tick o in
      let file : contents (patches disk contents position d (to_le 4 tick) sub w).1
          ≡ closed_file live l tick sub (concat rows) =
        contents-patches disk contents position d (to_le 4 tick) sub w
        ∙ ap (λ b. write_at (write_at b 48 (to_le 4 tick)) 112 sub) r.held
        ∙ patched-eq live l stamp tick o.start_date o.start_time o.end_time o.lap_count
            o.record_count (concat rows) in
      let (ibt, count) =
        closed_file-IsIbt live l tick o.start_date o.start_time o.end_time o.lap_count
          o.record_count (concat rows) s small in
      rw e (
        refl,
        subst (λ b. IsIbt live l b (concat rows)) (sym file) ibt,
        ap (λ b. read_i32 b 140) file
            ∙ count
            ∙ from_le-to_le 4 o.record_count (omega (arith, r.counted))
            ∙ r.counted,
      )

  -- The file that a run of maps of one session leaves, when a new writer is given them and then
  -- finished, on a disk where nothing fails. The writer is as new. `parse` reads the layout of
  -- the first map from the file, with the regions moved; the only buffer starts behind them, and from
  -- there to the end stand the rows of the maps, one for each time the tick changed and the row was
  -- inside the map. The number of rows, as 32 bits, stands in the subheader. This is for a first map
  -- of bytes that fits into the shared memory and has no negative length, count or offset in its
  -- header, and for less than 2 ^ 62 bytes of rows.
  pub finish-feed :
      (now : ℕ) (live : List ℕ) (l : MapLayout) (lives : List (ℕ × List ℕ)) (w : W)
      → parse live ≡ some l
      → IsPlain live
      → AllOfSession l.session_info_update lives
      → length (concat (rows_of i32_min l.buf_len (live ∷ maps lives))) < 2 ^ 62
      → let rows = rows_of i32_min l.buf_len (live ∷ maps lives) in
        let (fed, w1) = feed disk f64_gt ((now, live) ∷ lives) new w in
        let (closed, w2) = finish disk fed w1 in
        let file = contents w2 in
        (closed ≡ new)
        × (parse file ≡ some (disk_layout l))
        × (active_varbuf file ≡ some (read_i32 file 48, buf_off l))
        × (drop (buf_off l) file ≡ concat rows)
        × (read_i32 file 140 ≡ length rows % 2 ^ 32)
  unfolding opened_ibt
  finish-feed now live l lives w parsed plain all small =
      let o = opened_ibt l now in
      let prefix = build_prefix live l now in
      let w0 = started_disk disk contents position d prefix now w in
      let fed =
        feed-IsFed disk contents position d f64_gt ((now, live) ∷ lives) o w0 prefix []
          ((l, parsed, refl), all) (started-IsRecording disk contents position d l prefix now w) in
      let again = feed disk f64_gt ((now, live) ∷ lives) (record { current = some o }) w0 in
      let rows = rows_of i32_min l.buf_len (live ∷ maps lives) in
      let (closed, ibt, count) =
        finish-IsIbt live l now rows fed.o' again.0 again.1 fed.kept fed.recording
          (parse-IsSane live l plain parsed) small in
      let (reread, active) =
        parse-IsIbt live l (contents (finish disk again.0 again.1).1) (concat rows) ibt
          (parse-layout_of live l parsed) in
      let behind = drop-IsIbt live l (contents (finish disk again.0 again.1).1) (concat rows) ibt in
      subst
        (λ x.
          let (closed, w2) = finish disk x.0 x.1 in
          let file = contents w2 in
          (closed ≡ new)
          × (parse file ≡ some (disk_layout l))
          × (active_varbuf file ≡ some (read_i32 file 48, buf_off l))
          × (drop (buf_off l) file ≡ concat rows)
          × (read_i32 file 140 ≡ length rows % 2 ^ 32))
        (sym (feed-new now live l lives w parsed)) (closed, reread, active, behind, count)
