-- ===== src/Unlock/Buffers.antt =====
-- kernel-module/unlock.c: the length of the list of transmit buffers.
use ucsma_rate_control.Base.{ℕ, ◌+◌, ◌<◌, ◌^◌, ◌≡◌, List, [], ◌∷◌, arith, length}
use ucsma_rate_control.Base.Int.{pos, to_int}
use ucsma_rate_control.Kernel.{u32}
use ucsma_rate_control.Unlock.{count_nodes, get_buf_size}

count_nodes_lem :
    (l : List ℕ) (size : ℕ) → size < 2 ^ 32 → count_nodes l size ≡ u32 (size + length l)
unfolding count_nodes
count_nodes_lem [] size h = omega arith
count_nodes_lem (p ∷ rest) size h =
    omega (arith, count_nodes_lem rest (u32 (size + 1)) (omega arith))

-- The walk over the list returns its length modulo 2 ^ 32.
pub get_buf_size-length : (l : List ℕ) → get_buf_size l ≡ u32 (length l)
unfolding get_buf_size
get_buf_size-length l = omega (arith, count_nodes_lem l 0 (omega arith))

-- For a list of fewer than 2 ^ 16 buffers, the walk that counts it gives its length, also as an
-- int.
pub size-length : (l : List ℕ) → length l < 2 ^ 16 → to_int (get_buf_size l) ≡ pos (length l)
unfolding to_int
size-length l h = ground (arith, get_buf_size-length l)
