-- ===== src/Target/Status.antt =====
-- teleport/src/target.rs, the order of the copies into the shared memory, which other programs read
-- at any time: what each of the states in between shows.
use iracing_teleport.Base.{
  ℕ, ◌+◌, ◌≤◌, ◌<◌, ◌≡◌, ◌∙◌, inl, inr, List, [], ◌∷◌, ◌++◌, Bool, true, false, arith, length, take,
  drop, slice, overwrite, get_or, length-take, length-drop, min, ltb, get_or-overwrite_outside,
  get_or-overwrite_inside,
}
use iracing_teleport.Telemetry.{irsdk_header_size}
use iracing_teleport.Target.{
  Effect, write, apply_effect, apply_effects, prefix_writes, partial_writes, when,
}

-- What holds of the memory after each effect.
abbrev pub AllViews : (List ℕ → Type 0) → List ℕ → List Effect → Type 0
AllViews P m [] = Unit
AllViews P m (e ∷ es) = P (apply_effect m e) × AllViews P (apply_effect m e) es

pub AllViews-append :
    (P : List ℕ → Type 0) (m : List ℕ) (es es' : List Effect)
    → AllViews P m es
    → AllViews P (apply_effects m es) es'
    → AllViews P m (es ++ es')
unfolding apply_effects
AllViews-append P m [] es' h h' = h'
AllViews-append P m (e ∷ es) es' (h, hs) h' = (h, AllViews-append P (apply_effect m e) es es' hs h')

pub AllViews-map :
    (P Q : List ℕ → Type 0) (f : (v : List ℕ) → P v → Q v) (m : List ℕ) (es : List Effect)
    → AllViews P m es
    → AllViews Q m es
AllViews-map P Q f m [] h = h
AllViews-map P Q f m (e ∷ es) (h, hs) =
    (f (apply_effect m e) h, AllViews-map P Q f (apply_effect m e) es hs)

pub AllViews-when :
    (P : List ℕ → Type 0) (b : Bool) (m : List ℕ) (e : Effect)
    → P (apply_effect m e)
    → AllViews P m (when b (e ∷ []))
unfolding when
AllViews-when P true m e h = (h, tt)
AllViews-when P false m e h = tt

pub AllViews-last :
    (P : List ℕ → Type 0) (m : List ℕ) (es : List Effect)
    → P m
    → AllViews P m es
    → P (apply_effects m es)
unfolding apply_effects
AllViews-last P m [] h hs = h
AllViews-last P m (e ∷ es) h (h', hs) = AllViews-last P (apply_effect m e) es h' hs

-- The status field, bytes 4 to 8, is as it was.
abbrev pub IsStatusKept : List ℕ → List ℕ → Type 0
IsStatusKept m v = (i : ℕ) → 4 ≤ i → i < 8 → get_or v i 0 ≡ get_or m i 0

-- The variables of a frame stand in the memory, whole.
abbrev pub IsShown : List ℕ → ℕ → List ℕ → Type 0
IsShown v off staged =
    (i k : ℕ)
    → k ≡ off + i
    → i + irsdk_header_size < length staged
    → get_or v k 0 ≡ get_or (drop irsdk_header_size staged) i 0

-- The copies of a session-info frame never change the status.
pub prefix_writes-IsStatusKept :
    (m prefix : List ℕ) → 4 ≤ length prefix → AllViews (IsStatusKept m) m (prefix_writes m prefix)
unfolding prefix_writes when apply_effect
prefix_writes-IsStatusKept m prefix h =
    let n = min (length prefix) (length m) in
    let head = take 4 prefix in
    let kept : IsStatusKept m (overwrite m 0 head) =
      λ i lo hi. get_or-overwrite_outside m 0 head i (inr (omega (arith, length-take 4 prefix))) in
    (
      kept,
      AllViews-when (IsStatusKept m) (ltb 8 n) (overwrite m 0 head) (write 8 (slice prefix 8 n))
          (λ i lo hi.
            get_or-overwrite_outside (overwrite m 0 head) 8 (slice prefix 8 n) i (inl hi)
            ∙ kept i lo hi),
    )

-- After each of the two copies of a partial frame its variables stand in the memory.
pub partial_writes-IsShown :
    (m : List ℕ) (off : ℕ) (staged : List ℕ)
    → irsdk_header_size ≤ off
    → off + length staged ≤ length m + irsdk_header_size
    → AllViews (λ v. IsShown v off staged) m (partial_writes off staged)
unfolding partial_writes apply_effect
partial_writes-IsShown m off staged h hm =
    let var = drop irsdk_header_size staged in
    let first : IsShown (overwrite m off var) off staged = λ i k e hi.
      get_or-overwrite_inside m off var k i e (omega (arith, length-drop irsdk_header_size staged))
        (omega arith) in
    let second : IsShown (overwrite (overwrite m off var) 0 (take irsdk_header_size staged)) off
        staged =
      λ i k e hi.
        get_or-overwrite_outside (overwrite m off var) 0 (take irsdk_header_size staged) k
          (inr (omega (arith, length-take irsdk_header_size staged)))
        ∙ first i k e hi in
    (first, (second, tt))
