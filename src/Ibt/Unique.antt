-- ===== src/Ibt/Unique.antt =====
-- The name of a new .ibt file, on any disk: the first of a hundred names that is not in use.
use iracing_teleport.Base.{ℕ, zero, suc, ◌+◌, ◌-◌, ◌≤◌, ◌<◌, ◌≡◌, refl, sym, ap, ◌∙◌, arith, subst}
use iracing_teleport.Protocol.Sender.{other, Result, ok, err}
use iracing_teleport.Ibt.Writer.{
  Disk, Creation, opened, already_exists, refused, open_unique, try_names,
}

module _ {W : Type 0} (disk : Disk W) (stamp : ℕ) where
  -- The disk after `n` names were tried, from the number `i` on.
  abbrev pub tried : ℕ → ℕ → W → W
  tried zero i w = w
  tried (suc n) i w = tried n (i + 1) (disk.create_new stamp i w).1

  -- The first `n` names are in use.
  abbrev pub AreTaken : ℕ → ℕ → W → Type 0
  AreTaken zero i w = Unit
  AreTaken (suc n) i w =
      let (creation, w') = disk.create_new stamp i w in
      (creation ≡ already_exists) × AreTaken n (i + 1) w'

  -- What is made of the first name that is not in use.
  abbrev pub Concludes : Result (Unit {0}) × W → Creation → W → Type 0
  Concludes result opened w = result ≡ (ok tt, w)
  Concludes result (refused e) w = result ≡ (err e, w)
  Concludes result already_exists w = Unit

  -- One name that is in use.
  try_names-taken :
      (left i : ℕ) (w : W)
      → (disk.create_new stamp i w).0 ≡ already_exists
      → try_names disk (suc left) i stamp w
        ≡ try_names disk left (i + 1) stamp (disk.create_new stamp i w).1
  unfolding try_names
  try_names-taken left i w e =
      let w' = (disk.create_new stamp i w).1 in
      ap
        (λ (r : Creation). elim r as (λ _. Result Unit × W) [
          | opened ↦ (ok tt, w')
          | already_exists ↦ try_names disk left (i + 1) stamp w'
          | refused x ↦ (err x, w')
        ])
        e

  try_names-tried :
      (n left i : ℕ) (w : W)
      → AreTaken n i w
      → try_names disk (n + left) i stamp w ≡ try_names disk left (i + n) stamp (tried n i w)
  try_names-tried zero left i w taken =
      let e : i ≡ i + 0 = omega arith in
      let e' : 0 + left ≡ left = omega arith in λ k. try_names disk (e' k) (e k) stamp w
  try_names-tried (suc n) left i w (here, taken) =
      let w' = (disk.create_new stamp i w).1 in
      let e : suc n + left ≡ suc (n + left) = omega arith in
      let e' : (i + 1) + n ≡ i + suc n = omega arith in
      ap (λ k. try_names disk k i stamp w) e
      ∙ try_names-taken (n + left) i w here
      ∙ try_names-tried n left (i + 1) w' taken
      ∙ ap (λ k. try_names disk left k stamp (tried n (i + 1) w')) e'

  try_names-Concludes :
      (left i : ℕ) (w : W)
      → let (creation, w') = disk.create_new stamp i w in
        Concludes (try_names disk (suc left) i stamp w) creation w'
  unfolding try_names
  try_names-Concludes left i w =
      let (creation, w') = disk.create_new stamp i w in
      elim creation
        as (λ r.
          Concludes
            (elim r [
              | opened ↦ (ok tt, w')
              | already_exists ↦ try_names disk left (i + 1) stamp w'
              | refused x ↦ (err x, w')
            ])
            r w') [ opened ↦ refl | already_exists ↦ tt | refused x ↦ refl ]

  -- On any disk, when the first `n` of the hundred names are in use: with all of them in use
  -- `open_unique` gives the error `Other`; else the name behind them decides, which is opened, or
  -- whose error is given back; nothing is said if it is in use as well.
  pub open_unique-Concludes :
      (n : ℕ) (w : W)
      → n ≤ 100
      → AreTaken n 0 w
      → (n ≡ 100 → open_unique disk stamp w ≡ (err other, tried n 0 w))
        × (n < 100
            → let (creation, w') = disk.create_new stamp n (tried n 0 w) in
              Concludes (open_unique disk stamp w) creation w')
  unfolding open_unique try_names
  open_unique-Concludes n w h taken =
      let zero_n : 0 + n ≡ n = omega arith in
      let e : (left : ℕ)
          → n + left ≡ 100
          → open_unique disk stamp w ≡ try_names disk left n stamp (tried n 0 w) =
        λ left whole.
          ap (λ k. try_names disk k 0 stamp w) (sym whole)
          ∙ try_names-tried n left 0 w taken
          ∙ ap (λ k. try_names disk left k stamp (tried n 0 w)) zero_n in
      let (creation, w') = disk.create_new stamp n (tried n 0 w) in
      (
        λ full. e 0 (omega (arith, full)),
        λ some_left.
            subst (λ r. Concludes r creation w') (sym (e (suc (99 - n)) (omega arith)))
              (try_names-Concludes (99 - n) n (tried n 0 w)),
      )
