-- ===== src/Ibt/Session.antt =====
-- A session of the .ibt writer from the first map to `finish`, on a disk where no operation fails.
use iracing_teleport.Base.{
  ℕ, ◌≡◌, refl, sym, ap, ◌∙◌, List, [], ◌++◌, Bool, true, Option, none, some, arith, length, ◌==◌,
  append_assoc, ==_iff, to_le, overwrite,
}
use mathlib.Core.List.{append-nil}
use iracing_teleport.Control.{Io, ◌>>◌}
use iracing_teleport.Protocol.Sender.{Result, ok, err}
use iracing_teleport.Ibt.{MapLayout, parse, build_prefix, disk_header, subheader_bytes}
use iracing_teleport.Ibt.Prefix.{write_at, ticked_header, var_headers, yaml}
use iracing_teleport.Ibt.Writer.{
  Disk, Creation, already_exists, refused, opened, IbtWriter, new, opened_ibt, open_unique,
  try_names, start_session, ensure_open, append_row, is_rolled, update, on_map_update,
}
use iracing_teleport.Ibt.Recording.{IsReliable, IsRecording, write_at-end}

>>-ok : {W : Type 0} (m k : Io W) (w : W) → (m w).0 ≡ ok tt → (m >> k) w ≡ k (m w).1
>>-ok {W} m k w e =
    ap
      (λ (r : Result Unit). elim r as (λ _. Result Unit × W) [
        | ok _ ↦ k (m w).1
        | err x ↦ (err x, (m w).1)
      ])
      e

module _ {W : Type 0} (disk : Disk W) (contents : W → List ℕ) (position : W → ℕ)
    (d : IsReliable disk contents position) where
  -- The disk after a file was opened and its prefix written.
  abbrev pub created_disk : ℕ → W → W
  created_disk stamp w = (disk.create_new stamp 0 (disk.create_dir_all w).1).1

  abbrev pub started_disk : List ℕ → ℕ → W → W
  started_disk prefix stamp w = (disk.write_all prefix (created_disk stamp w)).1

  -- The first name is unused.
  pub open_unique-first :
      (stamp : ℕ) (w : W) → open_unique disk stamp w ≡ (ok tt, (disk.create_new stamp 0 w).1)
  unfolding open_unique try_names
  open_unique-first stamp w =
      let (created, _, _) = d.created stamp 0 w in
      let w' = (disk.create_new stamp 0 w).1 in
      ap
        (λ (r : Creation). elim r as (λ _. Result Unit × W) [
          | opened ↦ (ok tt, w')
          | already_exists ↦ try_names disk 99 1 stamp w'
          | refused e ↦ (err e, w')
        ])
        created

  created_and_written :
      (prefix : List ℕ) (stamp : ℕ) (w : W)
      → (disk.create_dir_all >> open_unique disk stamp >> disk.write_all prefix) w
        ≡ (ok tt, started_disk prefix stamp w)
  created_and_written prefix stamp w =
      let m = disk.create_dir_all >> open_unique disk stamp in
      let e : m w ≡ (ok tt, created_disk stamp w) =
        >>-ok disk.create_dir_all (open_unique disk stamp) w (d.made w)
        ∙ open_unique-first stamp (disk.create_dir_all w).1 in
      let (written, _, _) = d.written prefix (created_disk stamp w) in
      >>-ok m (disk.write_all prefix) w (ap (λ x. x.0) e)
      ∙ ap (λ x. disk.write_all prefix x.1) e
      ∙ ap (λ r. (r, started_disk prefix stamp w)) written

  pub start_session-started :
      (writer : IbtWriter) (live : List ℕ) (l : MapLayout) (stamp : ℕ) (w : W)
      → start_session disk writer live l stamp w ≡ (
        record { current = some (opened_ibt l stamp) },
        started_disk (build_prefix live l stamp) stamp w,
      )
  unfolding start_session
  start_session-started writer live l stamp w =
      ap
        (λ (x : Result Unit × W). elim x.0 as (λ _. IbtWriter × W) [
          | ok _ ↦ (record { current = some (opened_ibt l stamp) }, x.1)
          | err e ↦ (writer, x.1)
        ])
        (created_and_written (build_prefix live l stamp) stamp w)

  pub started-IsRecording :
      (l : MapLayout) (prefix : List ℕ) (stamp : ℕ) (w : W)
      → IsRecording disk contents position d
          (opened_ibt l stamp)
          (started_disk prefix stamp w)
          prefix
          []
  unfolding opened_ibt
  started-IsRecording l prefix stamp w =
      let (_, empty, at_start) = d.created stamp 0 (disk.create_dir_all w).1 in
      let (_, whole, moved) = d.written prefix (created_disk stamp w) in
      let held : contents (started_disk prefix stamp w) ≡ prefix =
        whole
        ∙ (λ k. write_at (empty k) (at_start k) prefix)
        ∙ write_at-end disk contents position d [] prefix 0 refl in
      record {
        held = held ∙ sym (append-nil prefix);
        at_end = omega (arith, moved, at_start, ap length held);
        counted = refl;
      }

  -- The writes of `finish`.
  abbrev pub patches : List ℕ → List ℕ → Io W
  patches tick sub =
      disk.seek 48 >> disk.write_all tick >> disk.seek 112 >> disk.write_all sub >> disk.flush

  pub contents-patches :
      (tick sub : List ℕ) (w : W)
      → contents (patches tick sub w).1 ≡ write_at (write_at (contents w) 48 tick) 112 sub
  contents-patches tick sub w =
      let w1 = (disk.seek 48 w).1 in
      let w2 = (disk.write_all tick w1).1 in
      let w3 = (disk.seek 112 w2).1 in
      let w4 = (disk.write_all sub w3).1 in
      let (ok1, kept1, at1) = d.sought 48 w in
      let (ok2, kept2, _) = d.written tick w1 in
      let (ok3, kept3, at3) = d.sought 112 w2 in
      let (ok4, kept4, _) = d.written sub w3 in
      let (_, kept5) = d.flushed w4 in
      let m1 = disk.seek 48 >> disk.write_all tick in
      let e1 : m1 w ≡ disk.write_all tick w1 = >>-ok (disk.seek 48) (disk.write_all tick) w ok1 in
      let m2 = m1 >> disk.seek 112 in
      let e2 : m2 w ≡ disk.seek 112 w2 =
        >>-ok m1 (disk.seek 112) w (ap (λ x. x.0) e1 ∙ ok2) ∙ ap (λ x. disk.seek 112 x.1) e1 in
      let m3 = m2 >> disk.write_all sub in
      let e3 : m3 w ≡ disk.write_all sub w3 =
        >>-ok m2 (disk.write_all sub) w (ap (λ x. x.0) e2 ∙ ok3)
        ∙ ap (λ x. disk.write_all sub x.1) e2 in
      let e4 : (m3 >> disk.flush) w ≡ disk.flush w4 =
        >>-ok m3 disk.flush w (ap (λ x. x.0) e3 ∙ ok4) ∙ ap (λ x. disk.flush x.1) e3 in
      ap (λ x. contents x.1) e4
      ∙ kept5
      ∙ kept4
      ∙ (λ k. write_at (kept3 k) (at3 k) sub)
      ∙ ap (λ b. write_at b 112 sub) kept2
      ∙ (λ k. write_at (write_at (kept1 k) (at1 k) tick) 112 sub)

-- The patched file: header with the tick, subheader, regions, rows.
pub patched-eq :
    (live : List ℕ) (l : MapLayout) (stamp tick date start_t end_t laps records : ℕ) (rows : List ℕ)
    → let sub = subheader_bytes date start_t end_t laps records in
      write_at (write_at (build_prefix live l stamp ++ rows) 48 (to_le 4 tick)) 112 sub
      ≡ ticked_header l tick ++ (sub ++ (var_headers live l ++ (yaml live l ++ rows)))
unfolding build_prefix disk_header subheader_bytes overwrite
patched-eq live l stamp tick date start_t end_t laps records rows =
    let sub = subheader_bytes date start_t end_t laps records in
    ap (λ t. ticked_header l tick ++ (sub ++ t))
      (append_assoc (var_headers live l) (yaml live l) rows)

module _ {W : Type 0} (disk : Disk W) (f64_gt : ℕ → ℕ → Bool) where
  -- The first map of a session has the same effect on a new writer as on the file just opened.
  pub on_map_update-same :
      (now : ℕ) (writer : IbtWriter) (live : List ℕ) (l : MapLayout) (w : W)
      → parse live ≡ some l
      → on_map_update disk f64_gt now writer live w ≡ update disk f64_gt now l writer live w
  unfolding on_map_update
  on_map_update-same now writer live l w parsed =
      ap
        (λ (p : Option MapLayout). elim p as (λ _. IbtWriter × W) [
          | none ↦ (writer, w)
          | some layout ↦ update disk f64_gt now layout writer live w
        ])
        parsed

  pub update-opened :
      (now : ℕ) (live : List ℕ) (l : MapLayout) (w : W)
      → let writer : IbtWriter = record { current = some (opened_ibt l now) } in
        update disk f64_gt now l writer live w ≡ append_row disk f64_gt writer live w
  unfolding update is_rolled ensure_open opened_ibt
  update-opened now live l w =
      let equal : (l.session_info_update == l.session_info_update) ≡ true =
        (==_iff l.session_info_update l.session_info_update).1 refl in
      rw equal refl

  pub update-new :
      (now : ℕ) (live : List ℕ) (l : MapLayout) (w : W)
      → update disk f64_gt now l new live w ≡ (
          let (started, w') = start_session disk new live l now w in
          append_row disk f64_gt started live w')
  unfolding update is_rolled ensure_open new
  update-new now live l w = refl
