-- ===== src/Protocol/Reassembly/Fragments.antt =====
-- One fragment of a message arrives: another one, a duplicate, or the one that completes it.
use iracing_teleport.Base.{
  Option, ℕ, ◌<◌, ◌≡◌, ◌≢◌, refl, ap, ◌∙◌, ◌⊎◌, inl, List, ◌∷◌, Bool, true, false, none, some,
  arith, take, ◌==◌,
}
use iracing_teleport.Protocol.Receiver.{
  Receiver, Ingested, prepare, ingest, accept, finish, ingest_all,
}
use iracing_teleport.Protocol.Receiver.Valid.{stored}
use iracing_teleport.Protocol.Reassembly.Seen.{has, count_seen-lt, count_seen_all}
use iracing_teleport.Protocol.Reassembly.Message.{
  Message, IsFitting, header, fragment, piece, IsAssembling, IsSettled, CanStart,
}
use iracing_teleport.Protocol.Reassembly.Step.{
  stored-IsAssembling, IsSettled-stored, accept-new, accept-again,
}
use iracing_teleport.Protocol.Reassembly.Arrival.{
  ingest-fragment, prepare-IsAssembling, prepare-IsSettled, take-buf,
}

pub finish_more :
    (r : Receiver) (first_frag : Bool)
    → r.got_frags ≢ r.total_frags
    → ((finish r first_frag).0 ≡ r) × ((finish r first_frag).1.assembled ≡ none)
unfolding finish
finish_more r first_frag ne = ground arith

pub finish_done :
    (r : Receiver) (first_frag : Bool)
    → r.got_frags ≡ r.total_frags
    → ((finish r first_frag).1.assembled ≡ some (take r.payload_size r.buf))
      × ((finish r first_frag).1.buf_offset ≡ r.last_buf_offset)
unfolding finish
finish_done r first_frag e = ground arith

pub ingest_all-none :
    (r : Receiver) (d : List ℕ) (ds : List (List ℕ))
    → (ingest r d).1.assembled ≡ none
    → (ingest_all r (d ∷ ds)).1 ≡ (ingest_all (ingest r d).0 ds).1
unfolding ingest_all
ingest_all-none r d ds e = rw (e, ingest_all)

pub ingest_all-some :
    (r : Receiver) (d : List ℕ) (ds : List (List ℕ)) {payload : List ℕ} {offset : ℕ}
    → (ingest r d).1.assembled ≡ some payload
    → (ingest r d).1.buf_offset ≡ offset
    → (ingest_all r (d ∷ ds)).1 ≡ (payload, offset) ∷ (ingest_all (ingest r d).0 ds).1
unfolding ingest_all
ingest_all-some r d ds e o = rw (e, o, ingest_all)

-- Once a frame is assembled the receiver is in the middle of no sequence.
pub ingest_closed :
    (r : Receiver) (d payload : List ℕ)
    → (ingest r d).1.assembled ≡ some payload
    → (ingest r d).0.current_seq ≡ none
unfolding ingest accept finish
ingest_closed r d payload e = ground arith

pub closed_other : (o : Option ℕ) (q : ℕ) → o ≡ none → o ≢ some q
closed_other o q e = cc

module _ (m : Message) (f : IsFitting m) where
  -- A receiver that is ready for fragment `i`.
  pub record IsReady (seen : List ℕ) (r : Receiver) (i : ℕ) : Type 0 where
    pub assembling : IsAssembling m seen (prepare r (header m i))
    pub placed : IsSettled m (prepare r (header m i)) ⊎ CanStart m i
    pub below : i < m.n

  pub record IsNext (seen : List ℕ) (out : Receiver × Ingested) : Type 0 where
    pub nothing : out.1.assembled ≡ none
    pub assembling : IsAssembling m seen out.0
    pub settled : IsSettled m out.0

  pub IsReady-later :
      (seen : List ℕ) (r : Receiver) (i : ℕ)
      → IsAssembling m seen r
      → IsSettled m r
      → i < m.n
      → IsReady seen r i
  IsReady-later seen r i a s below = record {
    assembling = prepare-IsAssembling m f seen r i a;
    placed = inl (prepare-IsSettled m f seen r i a s);
    below = below;
  }

  abbrev pub after : Receiver → ℕ → Receiver
  after r i = stored (prepare r (header m i)) (header m i) (piece m i)

  pub ingest_new :
      (seen : List ℕ) (r : Receiver) (i : ℕ)
      → IsReady seen r i
      → has seen i ≡ false
      → (ingest r (fragment m i) ≡ finish (after r i) (i == 0))
        × IsAssembling m (i ∷ seen) (after r i)
        × IsSettled m (after r i)
  ingest_new seen r i p fresh =
      let q = prepare r (header m i) in
      (
        ingest-fragment m f r i p.below
            ∙ accept-new m f seen q p.assembling i p.below p.placed fresh,
        stored-IsAssembling m f seen q p.assembling i p.below p.placed fresh,
        IsSettled-stored m f seen q p.assembling i p.below p.placed,
      )

  -- A new fragment, and another one is still missing.
  pub ingest-IsNext :
      (seen : List ℕ) (r : Receiver) (i j : ℕ)
      → IsReady seen r i
      → has seen i ≡ false
      → j < m.n
      → has (i ∷ seen) j ≡ false
      → IsNext (i ∷ seen) (ingest r (fragment m i))
  ingest-IsNext seen r i j p fresh hj missing =
      let (e, a, s) = ingest_new seen r i p fresh in
      let fewer = count_seen-lt m.n j (i ∷ seen) hj missing in
      let (same, nothing) = finish_more (after r i) (i == 0) (omega (arith, a.count, a.total)) in
      rw e (record { nothing = nothing; assembling = rw same a; settled = rw same s })

  -- A duplicate.
  pub ingest-IsNext_again :
      (seen : List ℕ) (r : Receiver) (i : ℕ)
      → IsAssembling m seen r
      → IsSettled m r
      → i < m.n
      → has seen i ≡ true
      → IsNext seen (ingest r (fragment m i))
  ingest-IsNext_again seen r i a s below here =
      let p = IsReady-later seen r i a s below in
      rw
        (
          ingest-fragment m f r i below,
          accept-again m f seen (prepare r (header m i)) p.assembling i below p.placed here,
        )
        (record {
          nothing = refl;
          assembling = p.assembling;
          settled = prepare-IsSettled m f seen r i a s;
        })

  -- The last fragment that was missing.
  pub ingest_last :
      (seen : List ℕ) (r : Receiver) (i : ℕ)
      → IsReady seen r i
      → has seen i ≡ false
      → ((j : ℕ) → j < m.n → has (i ∷ seen) j ≡ true)
      → ((ingest r (fragment m i)).1.assembled ≡ some m.payload)
        × ((ingest r (fragment m i)).1.buf_offset ≡ m.buf_offset)
  ingest_last seen r i p fresh all =
      let (e, a, s) = ingest_new seen r i p fresh in
      let full = count_seen_all m.n (i ∷ seen) all in
      let (payload, offset) = finish_done (after r i) (i == 0) (omega (arith, a.count, a.total)) in
      rw e (payload ∙ ap some (take-buf m f (i ∷ seen) (after r i) a all), offset ∙ a.offset)
