-- ===== src/Base/Bytes.antt =====
-- A copy of bytes over part of an array, as memcpy makes it.
use Prim.Native.Nat.{ℕ, zero, suc, ◌+◌, ◌≤◌}
use ucsma_rate_control.Base.Lists.{length, take, drop}
use mathlib.Core.Path.{◌≡◌, refl, ap}
use mathlib.Core.List.{List, [], ◌∷◌, ◌++◌}
use native.Mathlib.Omega.{arith}

-- What would lie beyond the end of the array is left out.
abbrev pub overlay : ℕ → List ℕ → List ℕ → List ℕ
overlay zero [] dst = dst
overlay zero (b ∷ bs) [] = []
overlay zero (b ∷ bs) (x ∷ xs) = b ∷ overlay zero bs xs
overlay (suc n) bs [] = []
overlay (suc n) bs (x ∷ xs) = x ∷ overlay n bs xs

pub length-overlay : (n : ℕ) (bs dst : List ℕ) → length (overlay n bs dst) ≡ length dst
length-overlay zero [] dst = refl
length-overlay zero (b ∷ bs) [] = refl
length-overlay zero (b ∷ bs) (x ∷ xs) = ap suc (length-overlay zero bs xs)
length-overlay (suc n) bs [] = refl
length-overlay (suc n) bs (x ∷ xs) = ap suc (length-overlay n bs xs)

-- A copy that fits replaces just its bytes.
pub overlay-take-drop :
    (n : ℕ) (bs dst : List ℕ)
    → n + length bs ≤ length dst
    → overlay n bs dst ≡ take n dst ++ bs ++ drop (n + length bs) dst
overlay-take-drop zero [] dst h = refl
overlay-take-drop zero (b ∷ bs) [] h = absurd (omega arith)
overlay-take-drop zero (b ∷ bs) (x ∷ xs) h =
    let e : 0 + suc (length bs) ≡ suc (0 + length bs) = omega arith in
    rw e (ap (◌∷◌ b) (overlay-take-drop zero bs xs (omega arith)))
overlay-take-drop (suc n) bs [] h = absurd (omega arith)
overlay-take-drop (suc n) bs (x ∷ xs) h =
    let e : suc n + length bs ≡ suc (n + length bs) = omega arith in
    rw e (ap (◌∷◌ x) (overlay-take-drop n bs xs (omega arith)))

-- Two copies at the front, the second behind the first and touching it.
pub overlay_next_front :
    (bs cs dst : List ℕ)
    → length bs + length cs ≤ length dst
    → overlay (length bs) cs (overlay 0 bs dst) ≡ bs ++ cs ++ drop (length bs + length cs) dst
overlay_next_front [] cs dst h = overlay-take-drop 0 cs dst h
overlay_next_front (b ∷ bs) cs [] h = absurd (omega arith)
overlay_next_front (b ∷ bs) cs (x ∷ xs) h =
    let e : suc (length bs) + length cs ≡ suc (length bs + length cs) = omega arith in
    rw e (ap (◌∷◌ b) (overlay_next_front bs cs xs (omega arith)))

-- A copy behind the first part of an array.
pub overlay_skip :
    (front : List ℕ) (at n : ℕ) (bs rest : List ℕ)
    → at ≡ length front + n
    → overlay at bs (front ++ rest) ≡ front ++ overlay n bs rest
overlay_skip [] at n bs rest h = let e : at ≡ n = omega arith in rw e refl
overlay_skip (x ∷ front) zero n bs rest h = absurd (omega arith)
overlay_skip (x ∷ front) (suc at) n bs rest h =
    ap (◌∷◌ x) (overlay_skip front at n bs rest (omega arith))

-- A copy over a part of its own length.
pub overlay_front :
    (bs cs rest : List ℕ) → length bs ≡ length cs → overlay 0 bs (cs ++ rest) ≡ bs ++ rest
overlay_front [] [] rest h = refl
overlay_front [] (c ∷ cs) rest h = absurd (omega arith)
overlay_front (b ∷ bs) [] rest h = absurd (omega arith)
overlay_front (b ∷ bs) (c ∷ cs) rest h = ap (◌∷◌ b) (overlay_front bs cs rest (omega arith))
