-- ===== src/Ibt/Feed.antt =====
-- Runs of maps of one session, seen by an .ibt writer.
use iracing_teleport.Base.{
  ℕ, ◌≡◌, refl, sym, ap, ◌∙◌, List, [], ◌∷◌, ◌++◌, Bool, true, Option, none, some, ◌==◌, subst,
  append_assoc, ==_iff,
}
use mathlib.Core.List.{append-nil}
use iracing_teleport.Ibt.{MapLayout, parse, active_varbuf}
use iracing_teleport.Ibt.Writer.{
  Disk, OpenIbt, IbtWriter, append_active, append_open, append_row, on_map_update, update,
  is_rolled, ensure_open,
}
use iracing_teleport.Ibt.Recording.{
  IsReliable, IsRecording, append_active-IsSeen, rows_at, tick_at, rows_of,
}

-- A map of the session with this number of updates.
abbrev pub IsOfSession : ℕ → List ℕ → Type 0
IsOfSession session live =
    (l : MapLayout) × (parse live ≡ some l) × (l.session_info_update ≡ session)

-- All maps of a run are of the session.
abbrev pub AllOfSession : ℕ → List (ℕ × List ℕ) → Type 0
AllOfSession session [] = Unit
AllOfSession session ((now, live) ∷ lives) = IsOfSession session live × AllOfSession session lives

abbrev pub maps : List (ℕ × List ℕ) → List (List ℕ)
maps [] = []
maps ((now, live) ∷ lives) = live ∷ maps lives

module _ {W : Type 0} (disk : Disk W) (f64_gt : ℕ → ℕ → Bool) where
  -- A run of maps of one session, each seen at a time.
  unfoldable pub feed : List (ℕ × List ℕ) → IbtWriter → W → IbtWriter × W
  feed [] writer w = (writer, w)
  feed ((now, live) ∷ lives) writer w =
      let (writer', w') = on_map_update disk f64_gt now writer live w in feed lives writer' w'

  on_map_update-append_open :
      (now : ℕ) (o : OpenIbt) (live : List ℕ) (w : W)
      → IsOfSession o.layout.session_info_update live
      → on_map_update disk f64_gt now (record { current = some o }) live w
        ≡ (let (o', w') = append_open disk f64_gt o live w in (record { current = some o' }, w'))
  unfolding on_map_update update is_rolled ensure_open append_row append_open
  on_map_update-append_open now o live w (l, parsed, same) =
      let writer : IbtWriter = record { current = some o } in
      let equal : (o.layout.session_info_update == l.session_info_update) ≡ true =
        (==_iff o.layout.session_info_update l.session_info_update).1 (sym same) in
      ap
        (λ (p : Option MapLayout). elim p as (λ _. IbtWriter × W) [
          | none ↦ (writer, w)
          | some layout ↦ update disk f64_gt now layout writer live w
        ])
        parsed
      ∙ rw equal refl

module _ {W : Type 0} (disk : Disk W) (contents : W → List ℕ) (position : W → ℕ)
    (d : IsReliable disk contents position) (f64_gt : ℕ → ℕ → Bool) where
  -- The open file after a run of maps, which the writer has then.
  pub record IsFed (o : OpenIbt) (result : IbtWriter × W) (prefix : List ℕ) (rows : List (List ℕ))
      : Type 0 where
    pub o' : OpenIbt
    pub kept : result.0 ≡ record { current = some o' }
    pub recording : IsRecording disk contents position d o' result.1 prefix rows
    pub layout : o'.layout ≡ o.layout
    pub start_date : o'.start_date ≡ o.start_date

  pub feed-IsFed :
      (lives : List (ℕ × List ℕ)) (o : OpenIbt) (w : W) (prefix : List ℕ) (rows : List (List ℕ))
      → AllOfSession o.layout.session_info_update lives
      → IsRecording disk contents position d o w prefix rows
      → IsFed o
          (feed disk f64_gt lives (record { current = some o }) w)
          prefix
          (rows ++ rows_of o.last_tick o.layout.buf_len (maps lives))
  unfolding feed append_open
  feed-IsFed [] o w prefix rows all r = record {
    o' = o;
    kept = refl;
    recording =
        subst (λ l. IsRecording disk contents position d o w prefix l) (sym (append-nil rows)) r;
    layout = refl;
    start_date = refl;
  }
  feed-IsFed ((now, live) ∷ lives) o w prefix rows (here, all) r =
      let active = active_varbuf live in
      let (o1, w1) = append_active disk f64_gt o live active w in
      let seen =
        append_active-IsSeen disk contents position d f64_gt active o live w prefix rows r in
      let len = o.layout.buf_len in
      let more = rows_at o.last_tick len live active in
      let later =
        feed-IsFed lives o1 w1 prefix (rows ++ more)
          (subst (λ x. AllOfSession x.session_info_update lives) (sym seen.layout) all)
          seen.recording in
      let e : feed disk f64_gt ((now, live) ∷ lives) (record { current = some o }) w
          ≡ feed disk f64_gt lives (record { current = some o1 }) w1 =
        ap (λ x. feed disk f64_gt lives x.0 x.1)
          (on_map_update-append_open disk f64_gt now o live w here) in
      let e' : (rows ++ more) ++ rows_of o1.last_tick o1.layout.buf_len (maps lives)
          ≡ rows ++ rows_of o.last_tick len (maps ((now, live) ∷ lives)) =
        ap (λ t. (rows ++ more) ++ rows_of t o1.layout.buf_len (maps lives)) seen.last_tick
        ∙ ap (λ x. (rows ++ more) ++ rows_of (tick_at o.last_tick active) x.buf_len (maps lives))
            seen.layout
        ∙ append_assoc rows more (rows_of (tick_at o.last_tick active) len (maps lives)) in
      record {
        o' = later.o';
        kept = ap (λ x. x.0) e ∙ later.kept;
        recording =
            subst
              (λ l.
                IsRecording disk contents position d later.o'
                  (feed disk f64_gt ((now, live) ∷ lives) (record { current = some o }) w).1 prefix
                  l)
              e'
              (subst
                (λ x.
                  IsRecording disk contents position d later.o' x.1 prefix
                    ((rows ++ more) ++ rows_of o1.last_tick o1.layout.buf_len (maps lives)))
                (sym e) later.recording);
        layout = later.layout ∙ seen.layout;
        start_date = later.start_date ∙ seen.start_date;
      }
