-- ===== src/Target/Stub.antt =====
-- teleport/src/target.rs, `FanalabStub`: a copy of the program is started under the name that FanaLab
-- looks for. The file system and processes are a parameter, on a state `W`.
use iracing_teleport.Base.{
  ℕ, ◌≡◌, refl, ◌⊎◌, inl, inr, Bool, true, false, Option, none, if◌then◌else◌, Bool-cases, List, [],
  ◌∷◌, codes,
}
use iracing_teleport.Protocol.Sender.{Result, ok, err}
use iracing_teleport.Control.{Io}

-- The program itself, iRacingSim64DX11.exe, and iRacingSim64DX11_new.exe.
pub data StubPath : Type 0 where
  own_path : StubPath
  stub_path : StubPath
  tmp_path : StubPath

pub record Files (W : Type 0) : Type 0 where
  pub current_exe : W → Bool
  pub copy : StubPath → StubPath → Io W
  pub rename : StubPath → StubPath → Io W
  pub remove_file : StubPath → Io W
  pub exists : StubPath → W → Bool
  pub spawn : StubPath → List (List ℕ) → W → Option ℕ × W
  pub kill : ℕ → Io W

-- `.arg("--fanalab-stub")`
abbrev pub stub_args : List (List ℕ)
stub_args = codes "--fanalab-stub" ∷ []

module _ {W : Type 0} (files : Files W) where
  -- The process, once the copy was tried.
  unfoldable pub start_stub : W → Option ℕ × W
  start_stub w = files.spawn stub_path stub_args w

  -- What is already at the path is used.
  unfoldable pub fall_back : W → Option ℕ × W
  fall_back w = if files.exists stub_path w then start_stub w else (none, w)

  -- `FanalabStub::spawn`
  unfoldable pub spawn_stub : W → Option ℕ × W
  spawn_stub w =
      let (copied, w1) = files.copy own_path tmp_path w in
      let (renamed, w2) = files.rename tmp_path stub_path w1 in
      let w3 = (files.remove_file tmp_path w2).1 in
      if files.current_exe w
      then elim copied [
        | ok _ ↦ elim renamed [ ok _ ↦ start_stub w2 | err e ↦ fall_back w3 ]
        | err e ↦ fall_back w1
      ]
      else (none, w)

module _ {W : Type 0} (files : Files W) where
  -- `Drop for FanalabStub`
  unfoldable pub drop_stub : ℕ → W → W
  drop_stub child w = (files.kill child w).1

-- What the program relies on: a file that was renamed stands under its new name.
abbrev pub Renames : {W : Type 0} → Files W → Type 0
Renames {W} files =
    (from to : StubPath) (w : W)
    → let (r, w') = files.rename from to w in (r ≡ ok tt) → files.exists to w' ≡ true

-- A process was started in a state in which the stub's file exists, or none in a state in which it
-- does not.
abbrev pub IsDecided : {W : Type 0} → Files W → Option ℕ × W → Type 0
IsDecided {W} files x =
    ((w' : W) × (files.exists stub_path w' ≡ true) × (x ≡ files.spawn stub_path stub_args w'))
    ⊎ ((w' : W) × (files.exists stub_path w' ≡ false) × (x ≡ (none, w')))

module _ {W : Type 0} (files : Files W) where
  fall_back-IsDecided : (w : W) → IsDecided files (fall_back files w)
  unfolding fall_back start_stub
  fall_back-IsDecided w = elim (Bool-cases (files.exists stub_path w)) [
    | inl there ↦ inl (w, there, rw there refl)
    | inr missing ↦ inr (w, missing, rw missing refl)
  ]

  -- A process was started, in some state, with the arguments of the stub, or none was.
  abbrev pub IsStubOrNone : Option ℕ × W → Type 0
  IsStubOrNone x =
      ((w' : W) × (x ≡ files.spawn stub_path stub_args w')) ⊎ ((w' : W) × (x ≡ (none, w')))

  fall_back-IsStubOrNone : (w : W) → IsStubOrNone (fall_back files w)
  unfolding fall_back start_stub
  fall_back-IsStubOrNone w = elim (Bool-cases (files.exists stub_path w)) [
    | inl there ↦ inl (w, rw there refl)
    | inr missing ↦ inr (w, rw missing refl)
  ]

  tried-IsStubOrNone :
      (known : Bool) (copied renamed : Result (Unit {0})) (w w1 w2 w3 : W)
      → IsStubOrNone (
          if known
          then elim copied [
            | ok _ ↦ elim renamed [ ok _ ↦ start_stub files w2 | err e ↦ fall_back files w3 ]
            | err e ↦ fall_back files w1
          ]
          else (none, w))
  unfolding start_stub
  tried-IsStubOrNone false copied renamed w w1 w2 w3 = inr (w, refl)
  tried-IsStubOrNone true (err e) renamed w w1 w2 w3 = fall_back-IsStubOrNone w1
  tried-IsStubOrNone true (ok u) (ok u') w w1 w2 w3 = inl (w2, refl)
  tried-IsStubOrNone true (ok u) (err e) w w1 w2 w3 = fall_back-IsStubOrNone w3

  pub spawn_stub-IsStubOrNone : (w : W) → IsStubOrNone (spawn_stub files w)
  unfolding spawn_stub
  spawn_stub-IsStubOrNone w =
      let (copied, w1) = files.copy own_path tmp_path w in
      let (renamed, w2) = files.rename tmp_path stub_path w1 in
      tried-IsStubOrNone (files.current_exe w) copied renamed w w1 w2
        (files.remove_file tmp_path w2).1

  -- If the path of the program is known, then, whichever of copying, renaming and removing fail, the
  -- stub is started exactly if its file is there in the end.
  pub spawn_stub-IsDecided :
      (w : W) → Renames files → files.current_exe w ≡ true → IsDecided files (spawn_stub files w)
  unfolding spawn_stub start_stub
  spawn_stub-IsDecided w renames known =
      let (copied, w1) = files.copy own_path tmp_path w in
      let (renamed, w2) = files.rename tmp_path stub_path w1 in
      let w3 = (files.remove_file tmp_path w2).1 in
      let after_copy : (r : Result (Unit {0}))
          → renamed ≡ r
          → IsDecided files (elim r as (λ _. Option ℕ × W) [
            | ok _ ↦ files.spawn stub_path stub_args w2
            | err e ↦ fall_back files w3
          ]) =
        λ r.
          elim r
            as (λ r.
              renamed ≡ r
              → IsDecided files (elim r as (λ _. Option ℕ × W) [
                | ok _ ↦ files.spawn stub_path stub_args w2
                | err e ↦ fall_back files w3
              ])) [
                | ok _ ↦ λ done. inl (w2, renames tmp_path stub_path w1 done, refl)
                | err e ↦ λ _. fall_back-IsDecided w3
              ] in
      rw known
        (elim copied
          as (λ r. IsDecided files (elim r as (λ _. Option ℕ × W) [
            | ok _ ↦ elim renamed [
              | ok _ ↦ files.spawn stub_path stub_args w2
              | err e ↦ fall_back files w3
            ]
            | err e ↦ fall_back files w1
          ])) [ ok _ ↦ after_copy renamed refl | err e ↦ fall_back-IsDecided w1 ])
