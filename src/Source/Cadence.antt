-- ===== src/Source/Cadence.antt =====
-- teleport/src/source.rs: how often a partial frame is a keyframe.
use iracing_teleport.Base.{
  ℕ, ◌+◌, ◌%◌, ◌^◌, ◌≤◌, ◌<◌, ◌≡◌, refl, sym, ap, ◌∙◌, ◌⊎◌, inl, inr, List, [], ◌∷◌, true, false,
  arith, length, Bool-cases, ltb, ltb→lt, le_of_not_ltb, subst,
}
use iracing_teleport.Source.{Source, Config, Payload, skip, frame, encode, uses_delta}
use native.Mathlib.Nat.{mod-lt, mod-add-mod, mod-eq_of_lt, mod_self, zero-mod}

-- The payloads of a run of partial frames, each with its offset.
unfoldable pub encode_all : Config → List (ℕ × List ℕ) → Source → List Payload
encode_all cfg [] s = []
encode_all cfg ((off, staged) ∷ frames) s =
    let (p, s') = encode cfg off staged s in p ∷ encode_all cfg frames s'

-- One of the payloads is no delta.
abbrev pub HasKeyframe : List Payload → Type 0
HasKeyframe [] = ⊥
HasKeyframe (skip ∷ ps) = HasKeyframe ps
HasKeyframe (frame bytes is_delta wire ∷ ps) = (is_delta ≡ false) ⊎ HasKeyframe ps

tick_counter-encode :
    (cfg : Config) (off : ℕ) (staged : List ℕ) (s : Source)
    → (encode cfg off staged s).1.tick_counter ≡ (s.tick_counter + 1) % 2 ^ 32
unfolding encode
tick_counter-encode cfg off staged s = ground arith

-- The remainder of the next number.
next_mod : (c k : ℕ) → 0 < k → ((c + 1) % k ≡ 0) ⊎ ((c + 1) % k ≡ c % k + 1)
next_mod c k h =
    let r = c % k in
    let small : r < k = mod-lt c h in
    let e : (c + 1) % k ≡ (r + 1) % k = sym (mod-add-mod c k 1) in
    elim (Bool-cases (ltb (r + 1) k)) [
      | inl below ↦ inr (e ∙ mod-eq_of_lt (ltb→lt (r + 1) k below))
      | inr full ↦
          let last : r + 1 ≡ k = omega (arith, le_of_not_ltb (r + 1) k full) in
          inl (e ∙ ap (λ x. x % k) last ∙ mod_self k)
    ]

uses_delta_remainder :
    (cfg : Config) (s : Source)
    → uses_delta cfg s ≡ true
    → 0 < s.tick_counter % cfg.keyframe_interval
unfolding uses_delta
uses_delta_remainder cfg s e = ground arith

-- The remainder after one more frame, when the counter wraps around as a u32.
next_remainder :
    (c k : ℕ) → 0 < k → c < 2 ^ 32 → ((c + 1) % 2 ^ 32 % k ≡ 0) ⊎ ((c + 1) % 2 ^ 32 % k ≡ c % k + 1)
next_remainder c k h hc = elim (Bool-cases (ltb (c + 1) (2 ^ 32))) [
  | inl below ↦
      let e : (c + 1) % 2 ^ 32 ≡ c + 1 = mod-eq_of_lt (ltb→lt (c + 1) (2 ^ 32) below) in
      rw e (next_mod c k h)
  | inr full ↦
      let e : (c + 1) % 2 ^ 32 ≡ 0 = omega (arith, le_of_not_ltb (c + 1) (2 ^ 32) full) in
      rw e (inl (zero-mod k))
]

later-HasKeyframe : (p : Payload) (ps : List Payload) → HasKeyframe ps → HasKeyframe (p ∷ ps)
later-HasKeyframe skip ps h = h
later-HasKeyframe (frame bytes is_delta wire) ps h = inr h

now-HasKeyframe :
    (cfg : Config) (off : ℕ) (staged : List ℕ) (s : Source) (ps : List Payload)
    → uses_delta cfg s ≡ false
    → HasKeyframe ((encode cfg off staged s).0 ∷ ps)
unfolding encode
now-HasKeyframe cfg off staged s ps e = rw e (inl refl)

-- A run that is long enough to reach the next multiple of the interval has a keyframe.
run-HasKeyframe :
    (cfg : Config) (frames : List (ℕ × List ℕ)) (s : Source)
    → 0 < cfg.keyframe_interval
    → s.tick_counter < 2 ^ 32
    → 0 < length frames
    → (s.tick_counter % cfg.keyframe_interval ≡ 0)
      ⊎ (cfg.keyframe_interval + 1 ≤ s.tick_counter % cfg.keyframe_interval + length frames)
    → HasKeyframe (encode_all cfg frames s)
unfolding encode_all
run-HasKeyframe cfg [] s hk hc hn h = absurd (omega arith)
run-HasKeyframe cfg ((off, staged) ∷ frames) s hk hc hn h =
    let (p, s') = encode cfg off staged s in
    elim (Bool-cases (uses_delta cfg s)) [
      | inr plain ↦ now-HasKeyframe cfg off staged s (encode_all cfg frames s') plain
      | inl delta ↦
          let k = cfg.keyframe_interval in
          let started : 0 < s.tick_counter % k = uses_delta_remainder cfg s delta in
          let small : s.tick_counter % k < k = mod-lt s.tick_counter hk in
          let e : s'.tick_counter ≡ (s.tick_counter + 1) % 2 ^ 32 =
            tick_counter-encode cfg off staged s in
          let next : (s'.tick_counter % k ≡ 0) ⊎ (s'.tick_counter % k ≡ s.tick_counter % k + 1) =
            subst (λ c. (c % k ≡ 0) ⊎ (c % k ≡ s.tick_counter % k + 1)) (sym e)
              (next_remainder s.tick_counter k hk hc) in
          later-HasKeyframe p (encode_all cfg frames s') (
            run-HasKeyframe cfg frames s' hk (omega (arith, e)) (omega (arith, started, small, h))
              (elim next [
                | inl zero_now ↦ inl zero_now
                | inr more ↦ inr (omega (arith, more, h, started))
              ]))
    ]

-- Of as many partial frames in a row as the keyframe interval says, one is no delta, also where the
-- counter wraps around, if the interval is not 0 and the counter a u32.
pub encode_all-HasKeyframe :
    (cfg : Config) (frames : List (ℕ × List ℕ)) (s : Source)
    → 0 < cfg.keyframe_interval
    → s.tick_counter < 2 ^ 32
    → length frames ≡ cfg.keyframe_interval
    → HasKeyframe (encode_all cfg frames s)
encode_all-HasKeyframe cfg frames s hk hc e =
    run-HasKeyframe cfg frames s hk hc (omega arith) (omega arith)
