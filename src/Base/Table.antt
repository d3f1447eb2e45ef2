-- ===== src/Base/Table.antt =====
-- A statement about all numbers below a bound, checked by evaluation.
use Prim.Native.Nat.{ℕ, zero, suc, ◌<◌}
use mathlib.Core.Path.{◌≡◌}
use mathlib.Core.Bool.{Bool, true, ◌&&◌}
use native.Mathlib.Omega.{arith}

-- The test holds at each entry of a table with the given number of rows.
unfoldable pub table : (test : ℕ → Bool) (rows : ℕ) → Bool
table test zero = true
table test (suc last) = table test last && test last

pub table_entry :
    (test : ℕ → Bool) (row rows : ℕ) → row < rows → table test rows ≡ true → test row ≡ true
unfolding table
table_entry test row zero below whole = absurd (omega arith)
table_entry test row (suc last) below whole = ground (arith, table_entry test row last)
