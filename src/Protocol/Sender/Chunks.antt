-- ===== src/Protocol/Sender/Chunks.antt =====
-- The pieces that `Sender::send` cuts a payload into.
use native.Mathlib.Decide.{dec_le}
use native.Mathlib.Nat.{div-add-mod', mod-lt}
use iracing_teleport.Base.{
  ℕ, zero, suc, ◌+◌, ◌-◌, ◌*◌, ◌%◌, ◌≤◌, ◌<◌, min, ◌≡◌, sym, ap, ◌∙◌, List, [], ◌++◌, arith, length,
  get_or, take, drop, length-take, length-drop, get_or-take, get_or-drop, inl, inr, ltb, ltb→lt,
  le_of_not_ltb, Bool-cases, take-append-drop, drop-drop, take_all, drop_all,
}
use iracing_teleport.Protocol.Sender.{chunk, div_ceil}

-- A ceiling: the least number of pieces of `b` bytes that hold `a` bytes.
pub div_ceil_lem : (a b : ℕ) → 0 < b → (a ≤ div_ceil a b * b) × (div_ceil a b * b < a + b)
unfolding div_ceil
div_ceil_lem a b h = elim (Bool-cases (ltb 0 (a % b))) [
  | inl more ↦ rw more (omega (arith, div-add-mod' a b, mod-lt a h, ltb→lt 0 (a % b) more))
  | inr exact ↦ rw exact (omega (arith, div-add-mod' a b, le_of_not_ltb 0 (a % b) exact))
]

-- The `.min(total)` only keeps the range inside the payload.
pub chunk-eq-take :
    (ppd : ℕ) (payload : List ℕ) (i : ℕ) → chunk ppd payload i ≡ take ppd (drop (i * ppd) payload)
unfolding chunk
chunk-eq-take ppd payload i = elim (dec_le (i * ppd + ppd) (length payload)) [
  | yes p ↦ ap (λ (k : ℕ). take k (drop (i * ppd) payload)) (omega arith)
  | no p ↦
      take_all (min (i * ppd + ppd) (length payload) - i * ppd) (drop (i * ppd) payload)
        (omega (arith, length-drop (i * ppd) payload))
      ∙ sym (take_all ppd (drop (i * ppd) payload) (omega (arith, length-drop (i * ppd) payload)))
]

pub length-chunk :
    (ppd : ℕ) (payload : List ℕ) (i : ℕ)
    → length (chunk ppd payload i) ≡ min ppd (length payload - i * ppd)
length-chunk ppd payload i = rw (chunk-eq-take ppd payload i, length-take, length-drop)

-- Byte `j` of piece `i` is byte `i * ppd + j` of the payload.
pub get_or-chunk :
    (ppd : ℕ) (payload : List ℕ) (i j k : ℕ)
    → i * ppd + j ≡ k
    → j < ppd
    → get_or (chunk ppd payload i) j 0 ≡ get_or payload k 0
get_or-chunk ppd payload i j k e h =
    rw (chunk-eq-take ppd payload i)
      (get_or-take (drop (i * ppd) payload) ppd j 0 h ∙ get_or-drop payload (i * ppd) j k 0 e)

-- The pieces from number `i` on, `left` of them, one behind the other.
abbrev pub chunks_from : ℕ → List ℕ → ℕ → ℕ → List ℕ
chunks_from ppd payload zero i = []
chunks_from ppd payload (suc left) i = chunk ppd payload i ++ chunks_from ppd payload left (i + 1)

chunk-append-drop :
    (ppd : ℕ) (payload : List ℕ) (i : ℕ)
    → chunk ppd payload i ++ drop ((i + 1) * ppd) payload ≡ drop (i * ppd) payload
chunk-append-drop ppd payload i =
    rw
      (chunk-eq-take ppd payload i, ← drop-drop ((i + 1) * ppd) ppd (i * ppd) payload (omega arith))
      (take-append-drop ppd (drop (i * ppd) payload))

pub chunks_from-eq-drop :
    (ppd : ℕ) (payload : List ℕ) (left i : ℕ)
    → length payload ≤ (i + left) * ppd
    → chunks_from ppd payload left i ≡ drop (i * ppd) payload
chunks_from-eq-drop ppd payload zero i h = sym (drop_all (i * ppd) payload (omega arith))
chunks_from-eq-drop ppd payload (suc left) i h =
    ap (λ l. chunk ppd payload i ++ l) (chunks_from-eq-drop ppd payload left (i + 1) (omega arith))
    ∙ chunk-append-drop ppd payload i
