-- ===== src/Harness/Texts.antt =====
-- Python's slices of a text from its start, by characters.
use Prim.Native.Nat.{ℕ, zero, suc, ◌≤◌}
use Prim.Native.String.{String, [], ◌∷◌, count as str_len}
use Prim.Native.String.count.{nil, cons}
use native.Mathlib.Omega.{arith}

-- `text[:n]`
unfoldable pub prefix : ℕ → String → String
prefix zero s = []
prefix (suc n) [] = []
prefix (suc n) (c ∷ s) = c ∷ prefix n s

pub str_len-prefix : (n : ℕ) (s : String) → str_len (prefix n s) ≤ n
unfolding prefix
str_len-prefix zero s = omega (arith, nil)
str_len-prefix (suc n) [] = omega (arith, nil)
str_len-prefix (suc n) (c ∷ s) = omega (arith, cons c (prefix n s), str_len-prefix n s)
