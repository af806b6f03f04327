-- ===== src/Protocol/Reassembly/Orders.antt =====
-- All fragments of a message arrive, in some order, some of them more than once.
use native.Mathlib.Decide.{ℕ_discrete}
use mathlib.Core.List.{cons≢nil}
use iracing_teleport.Base.{
  ℕ, ◌≤◌, ◌<◌, ◌≡◌, ◌≢◌, refl, ap, ◌∙◌, ◌⊎◌, inl, inr, List, [], ◌∷◌, ◌++◌, map, true, false, some,
  arith, length, Bool-cases,
}
use iracing_teleport.Protocol.Receiver.{Receiver, ingest, ingest_all}
use iracing_teleport.Protocol.Receiver.Valid.{IsReceiver, ingest-IsReceiver}
use iracing_teleport.Protocol.Reassembly.Current.{max_payload-ingest}
use iracing_teleport.Protocol.Reassembly.Seen.{has}
use iracing_teleport.Protocol.Reassembly.Message.{
  Message, IsFitting, fragment, IsAssembling, IsSettled, CanStart,
}
use iracing_teleport.Protocol.Reassembly.Arrival.{prepare_start}
use iracing_teleport.Protocol.Reassembly.Fragments.{
  ingest_all-none, ingest_all-some, ingest_closed, closed_other, IsReady, IsReady-later,
  ingest-IsNext, ingest-IsNext_again, ingest_last,
}

abbrev pub first : List ℕ → ℕ → ℕ
first [] last = last
first (i ∷ order) last = i

-- The fragments arrive as `order`, in any order and some of them more than once, and then
-- `last`, the last one that was missing. The first to arrive can start the message.
pub record IsArrival (m : Message) (order : List ℕ) (last : ℕ) : Type 0 where
  pub starts : CanStart m (first order last)
  pub below : (j : ℕ) → has order j ≡ true → j < m.n
  pub last_below : last < m.n
  pub last_new : has order last ≡ false
  pub cover : (j : ℕ) → j < m.n → (has order j ≡ true) ⊎ (last ≡ j)

-- Fragments that arrive after the message is complete: the first can start it, and one is missing.
pub record IsLate (m : Message) (late : List ℕ) : Type 0 where
  pub starts : (late ≡ []) ⊎ CanStart m (first late 0)
  pub below : (j : ℕ) → has late j ≡ true → j < m.n
  pub missing : ℕ
  pub missing_below : missing < m.n
  pub missing_new : has late missing ≡ false

module _ (m : Message) (f : IsFitting m) where
  -- The fragments `order`, then `last`, which stands in neither `order` nor `seen` and without
  -- which something is missing.
  record IsRest (seen order : List ℕ) (last : ℕ) : Type 0 where
    below : (j : ℕ) → has order j ≡ true → j < m.n
    last_below : last < m.n
    last_new : has order last ≡ false
    last_missing : has seen last ≡ false
    cover : (j : ℕ) → j < m.n → (has seen j ≡ true) ⊎ ((has order j ≡ true) ⊎ (last ≡ j))

  IsRest-cons :
      (seen : List ℕ) (i : ℕ) (order : List ℕ) (last : ℕ)
      → IsRest seen (i ∷ order) last
      → IsRest (i ∷ seen) order last
  IsRest-cons seen i order last p = record {
    below = λ j h. p.below j (ground arith);
    last_below = p.last_below;
    last_new = ground (arith, p.last_new);
    last_missing = ground (arith, p.last_new, p.last_missing);
    cover = λ j h. ground (arith, p.cover j h);
  }

  IsRest-again :
      (seen : List ℕ) (i : ℕ) (order : List ℕ) (last : ℕ)
      → has seen i ≡ true
      → IsRest seen (i ∷ order) last
      → IsRest seen order last
  IsRest-again seen i order last here p = record {
    below = λ j h. p.below j (ground arith);
    last_below = p.last_below;
    last_new = ground (arith, p.last_new);
    last_missing = p.last_missing;
    cover = λ j h. elim (ℕ_discrete i j) [
      | yes e ↦ inl (rw (← e) here)
      | no ne ↦ ground (arith, p.cover j h)
    ];
  }

  -- Fragments of which one is missing assemble nothing.
  ingest_all_partial :
      (order : List ℕ) (missing : ℕ) (seen : List ℕ) (r : Receiver)
      → IsAssembling m seen r
      → IsSettled m r
      → ((j : ℕ) → has order j ≡ true → j < m.n)
      → missing < m.n
      → has seen missing ≡ false
      → has order missing ≡ false
      → (ingest_all r (map (fragment m) order)).1 ≡ []
  unfolding ingest_all
  ingest_all_partial [] missing seen r a s below h unseen unsent = refl
  ingest_all_partial (i ∷ order) missing seen r a s below h unseen unsent =
      let below' : (j : ℕ) → has order j ≡ true → j < m.n = λ j e. below j (ground arith) in
      elim (Bool-cases (has seen i)) [
        | inl here ↦
            let next = ingest-IsNext_again m f seen r i a s (below i (ground arith)) here in
            ingest_all-none r (fragment m i) (map (fragment m) order) next.nothing
            ∙ ingest_all_partial order missing seen (ingest r (fragment m i)).0 next.assembling
                next.settled below' h unseen (ground (arith, unsent))
        | inr fresh ↦
            let ready = IsReady-later m f seen r i a s (below i (ground arith)) in
            let next =
              ingest-IsNext m f seen r i missing ready fresh h (ground (arith, unseen, unsent)) in
            ingest_all-none r (fragment m i) (map (fragment m) order) next.nothing
            ∙ ingest_all_partial order missing (i ∷ seen) (ingest r (fragment m i)).0
                next.assembling next.settled below' h (ground (arith, unseen, unsent))
                (ground (arith, unsent))
      ]

  start-IsReady :
      (r : Receiver) (i : ℕ)
      → IsReceiver r
      → r.current_seq ≢ some m.sequence
      → length m.payload ≤ r.max_payload
      → CanStart m i
      → i < m.n
      → IsReady m f [] r i
  start-IsReady r i v other fits start below = record {
    assembling = prepare_start m f r i v other fits;
    placed = inr start;
    below = below;
  }

  ingest_all_late :
      (late : List ℕ) (r : Receiver)
      → IsReceiver r
      → r.current_seq ≢ some m.sequence
      → length m.payload ≤ r.max_payload
      → IsLate m late
      → (ingest_all r (map (fragment m) late)).1 ≡ []
  unfolding ingest_all
  ingest_all_late [] r v other fits l = refl
  ingest_all_late (i ∷ late) r v other fits l =
      let start : CanStart m i = elim l.starts [
        | inl e ↦ absurd (cons≢nil e)
        | inr start ↦ start
      ] in
      let ready = start-IsReady r i v other fits start (l.below i (ground arith)) in
      let next =
        ingest-IsNext m f [] r i l.missing ready refl l.missing_below
          (ground (arith, l.missing_new)) in
      ingest_all-none r (fragment m i) (map (fragment m) late) next.nothing
      ∙ ingest_all_partial late l.missing (i ∷ []) (ingest r (fragment m i)).0 next.assembling
          next.settled (λ j e. l.below j (ground arith)) l.missing_below
          (ground (arith, l.missing_new)) (ground (arith, l.missing_new))

  abbrev outputs : Receiver → List ℕ → ℕ → List ℕ → List (List ℕ × ℕ)
  outputs r order last late = (ingest_all r (map (fragment m) (order ++ (last ∷ late)))).1

  -- The completing fragment, and those after it.
  ingest_all_completed :
      (seen : List ℕ) (last : ℕ) (late : List ℕ) (r : Receiver)
      → IsReceiver r
      → length m.payload ≤ r.max_payload
      → IsReady m f seen r last
      → has seen last ≡ false
      → ((j : ℕ) → j < m.n → has (last ∷ seen) j ≡ true)
      → IsLate m late
      → outputs r [] last late ≡ (m.payload, m.buf_offset) ∷ []
  ingest_all_completed seen last late r v fits ready fresh all l =
      let (payload, offset) = ingest_last m f seen r last ready fresh all in
      let (r', _) = ingest r (fragment m last) in
      let closed = ingest_closed r (fragment m last) m.payload payload in
      ingest_all-some r (fragment m last) (map (fragment m) late) payload offset
      ∙ ap (λ xs. (m.payload, m.buf_offset) ∷ xs)
          (ingest_all_late late r' (ingest-IsReceiver r (fragment m last) v)
            (closed_other r'.current_seq m.sequence closed)
            (omega (arith, fits, max_payload-ingest r (fragment m last))) l)

  ingest_all_rest :
      (order : List ℕ) (last : ℕ) (late seen : List ℕ) (r : Receiver)
      → IsReceiver r
      → IsAssembling m seen r
      → IsSettled m r
      → IsRest seen order last
      → IsLate m late
      → outputs r order last late ≡ (m.payload, m.buf_offset) ∷ []
  ingest_all_rest [] last late seen r v a s p l =
      ingest_all_completed seen last late r v a.fits
        (IsReady-later m f seen r last a s p.last_below) p.last_missing
        (λ j h. ground (arith, p.cover j h)) l
  ingest_all_rest (i ∷ order) last late seen r v a s p l =
      let v' = ingest-IsReceiver r (fragment m i) v in
      elim (Bool-cases (has seen i)) [
        | inl here ↦
            let next = ingest-IsNext_again m f seen r i a s (p.below i (ground arith)) here in
            ingest_all-none r (fragment m i) (map (fragment m) (order ++ (last ∷ late)))
              next.nothing
            ∙ ingest_all_rest order last late seen (ingest r (fragment m i)).0 v' next.assembling
                next.settled (IsRest-again seen i order last here p) l
        | inr fresh ↦
            let ready = IsReady-later m f seen r i a s (p.below i (ground arith)) in
            let next =
              ingest-IsNext m f seen r i last ready fresh p.last_below
                (ground (arith, p.last_new, p.last_missing)) in
            ingest_all-none r (fragment m i) (map (fragment m) (order ++ (last ∷ late)))
              next.nothing
            ∙ ingest_all_rest order last late (i ∷ seen) (ingest r (fragment m i)).0 v'
                next.assembling next.settled (IsRest-cons seen i order last p) l
      ]

  -- For a message with a payload of at most 256 fragments of at most 8976 bytes each: a valid
  -- receiver with room for the payload, which is not in the middle of the same sequence
  -- number, assembles the message exactly once, from all its fragments in any order and with
  -- duplicates: any of those that came before the fragment that completes the message, and after it
  -- some of which at least one fragment is missing; if the first to arrive, and the first after the
  -- completion, is not the last fragment of the message (or there is only one fragment, or the sender
  -- uses the default datagram size).
  pub ingest_all_arrival :
      (r : Receiver) (order : List ℕ) (last : ℕ) (late : List ℕ)
      → IsReceiver r
      → r.current_seq ≢ some m.sequence
      → length m.payload ≤ r.max_payload
      → IsArrival m order last
      → IsLate m late
      → (ingest_all r (map (fragment m) (order ++ (last ∷ late)))).1
        ≡ (m.payload, m.buf_offset) ∷ []
  ingest_all_arrival r [] last late v other fits p l =
      ingest_all_completed [] last late r v fits
        (start-IsReady r last v other fits p.starts p.last_below) refl
        (λ j h. ground (arith, p.cover j h)) l
  ingest_all_arrival r (i ∷ order) last late v other fits p l =
      let ready = start-IsReady r i v other fits p.starts (p.below i (ground arith)) in
      let next =
        ingest-IsNext m f [] r i last ready refl p.last_below (ground (arith, p.last_new)) in
      let rest : IsRest [] (i ∷ order) last = record {
        below = p.below;
        last_below = p.last_below;
        last_new = p.last_new;
        last_missing = refl;
        cover = λ j h. inr (p.cover j h);
      } in
      ingest_all-none r (fragment m i) (map (fragment m) (order ++ (last ∷ late))) next.nothing
      ∙ ingest_all_rest order last late (i ∷ []) (ingest r (fragment m i)).0
          (ingest-IsReceiver r (fragment m i) v) next.assembling next.settled
          (IsRest-cons [] i order last rest) l
