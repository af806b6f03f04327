-- ===== src/Ibt/Rolled.antt =====
-- A map of another session: the .ibt writer closes its file and starts another.
use iracing_teleport.Base.{
  ℕ, ◌≡◌, ◌≢◌, refl, sym, ap, ◌∙◌, List, [], ◌∷◌, ◌++◌, Bool, some, ◌==◌, inl, inr, Bool-cases,
  ==_iff,
}
use iracing_teleport.Ibt.{MapLayout, parse, build_prefix}
use iracing_teleport.Ibt.Writer.{
  Disk, OpenIbt, IbtWriter, new, opened_ibt, finish, update, is_rolled, on_map_update,
}
use iracing_teleport.Ibt.Recording.{IsReliable}
use iracing_teleport.Ibt.Feed.{AllOfSession, feed, feed-IsFed}
use iracing_teleport.Ibt.Session.{started_disk, started-IsRecording, on_map_update-same}
use iracing_teleport.Ibt.Closed.{feed-new}

module _ {W : Type 0} (disk : Disk W) (f64_gt : ℕ → ℕ → Bool) where
  finish-new : (o : OpenIbt) (w : W) → (finish disk (record { current = some o }) w).0 ≡ new
  unfolding finish new
  finish-new o w = refl

  update-rolled :
      (now : ℕ) (o : OpenIbt) (live : List ℕ) (l : MapLayout) (w : W)
      → o.layout.session_info_update ≢ l.session_info_update
      → let (closed, w') = finish disk (record { current = some o }) w in
        update disk f64_gt now l (record { current = some o }) live w
        ≡ update disk f64_gt now l closed live w'
  unfolding update is_rolled finish
  update-rolled now o live l w other =
      elim (Bool-cases (o.layout.session_info_update == l.session_info_update)) [
        | inl same ↦
            absurd (other ((==_iff o.layout.session_info_update l.session_info_update).0 same))
        | inr differs ↦ rw differs refl
      ]

  on_map_update-rolled :
      (now : ℕ) (o : OpenIbt) (live : List ℕ) (l : MapLayout) (w : W)
      → parse live ≡ some l
      → o.layout.session_info_update ≢ l.session_info_update
      → let (closed, w') = finish disk (record { current = some o }) w in
        on_map_update disk f64_gt now (record { current = some o }) live w
        ≡ on_map_update disk f64_gt now closed live w'
  on_map_update-rolled now o live l w parsed other =
      let (closed, w') = finish disk (record { current = some o }) w in
      on_map_update-same disk f64_gt now (record { current = some o }) live l w parsed
      ∙ update-rolled now o live l w other
      ∙ sym (on_map_update-same disk f64_gt now closed live l w' parsed)

  feed-append :
      (xs ys : List (ℕ × List ℕ)) (writer : IbtWriter) (w : W)
      → feed disk f64_gt (xs ++ ys) writer w
        ≡ (let (writer', w') = feed disk f64_gt xs writer w in feed disk f64_gt ys writer' w')
  unfolding feed
  feed-append [] ys writer w = refl
  feed-append ((now, live) ∷ xs) ys writer w =
      let (writer', w') = on_map_update disk f64_gt now writer live w in
      feed-append xs ys writer' w'

module _ {W : Type 0} (disk : Disk W) (contents : W → List ℕ) (position : W → ℕ)
    (d : IsReliable disk contents position) (f64_gt : ℕ → ℕ → Bool) where
  -- On a disk where nothing fails, maps that follow those of a session, the first of them of another
  -- session, have the effect that they have on the writer and the disk after `finish`, and that
  -- writer is as new.
  pub feed-rolled :
      (now : ℕ) (live : List ℕ) (l : MapLayout) (lives : List (ℕ × List ℕ)) (now' : ℕ)
      (live' : List ℕ) (l' : MapLayout) (later : List (ℕ × List ℕ)) (w : W)
      → parse live ≡ some l
      → AllOfSession l.session_info_update lives
      → parse live' ≡ some l'
      → l.session_info_update ≢ l'.session_info_update
      → let (fed, w1) = feed disk f64_gt ((now, live) ∷ lives) new w in
        let (closed, w2) = finish disk fed w1 in
        (closed ≡ new)
        × (feed disk f64_gt (((now, live) ∷ lives) ++ ((now', live') ∷ later)) new w
            ≡ feed disk f64_gt ((now', live') ∷ later) new w2)
  unfolding feed opened_ibt
  feed-rolled now live l lives now' live' l' later w parsed all parsed' other =
      let o = opened_ibt l now in
      let prefix = build_prefix live l now in
      let w0 = started_disk disk contents position d prefix now w in
      let fed =
        feed-IsFed disk contents position d f64_gt ((now, live) ∷ lives) o w0 prefix []
          ((l, parsed, refl), all) (started-IsRecording disk contents position d l prefix now w) in
      let (writer, w1) = feed disk f64_gt ((now, live) ∷ lives) new w in
      let is_open : writer ≡ record { current = some fed.o' } =
        ap (λ x. x.0) (feed-new disk contents position d f64_gt now live l lives w parsed)
        ∙ fed.kept in
      let closed : (finish disk writer w1).0 ≡ new =
        ap (λ x. (finish disk x w1).0) is_open ∙ finish-new disk f64_gt fed.o' w1 in
      let other' : fed.o'.layout.session_info_update ≢ l'.session_info_update =
        λ e. other (ap (λ x. x.session_info_update) (sym fed.layout) ∙ e) in
      let rolled : on_map_update disk f64_gt now' writer live' w1
          ≡ on_map_update disk f64_gt now' new live' (finish disk writer w1).1 =
        ap (λ x. on_map_update disk f64_gt now' x live' w1) is_open
        ∙ on_map_update-rolled disk f64_gt now' fed.o' live' l' w1 parsed' other'
        ∙ ap (λ x. on_map_update disk f64_gt now' (finish disk x w1).0 live' (finish disk x w1).1)
            (sym is_open)
        ∙ ap (λ x. on_map_update disk f64_gt now' x live' (finish disk writer w1).1) closed in
      (
        closed,
        feed-append disk f64_gt ((now, live) ∷ lives) ((now', live') ∷ later) new w
            ∙ ap (λ x. feed disk f64_gt later x.0 x.1) rolled,
      )
