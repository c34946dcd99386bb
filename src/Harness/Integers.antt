-- ===== src/Harness/Integers.antt =====
-- Python's integers against lengths and counts: the orders and the difference that paw_kit/test uses.
use paw_toolkit.Prelude.{ℕ, ◌-◌, ◌≤◌, ◌≡◌, Bool, true, false, leb, not, if◌then◌else◌, arith}
use paw_toolkit.Jit.Agreement.{ℤ}

abbrev pub int_leb : ℤ → ℤ → Bool
int_leb (ℤ.pos m) (ℤ.pos n) = leb m n
int_leb (ℤ.negsuc m) (ℤ.negsuc n) = leb n m
int_leb (ℤ.negsuc m) (ℤ.pos n) = true
int_leb (ℤ.pos m) (ℤ.negsuc n) = false

abbrev pub int_ltb : ℤ → ℤ → Bool
int_ltb m n = not (int_leb n m)

-- The difference of two counts.
unfoldable pub minus : ℕ → ℕ → ℤ
minus m n = if leb n m then ℤ.pos (m - n) else ℤ.negsuc (n - m - 1)

-- How often `range(1, n + 1)` goes round.
abbrev pub rounds : ℤ → ℕ
rounds (ℤ.pos n) = n
rounds (ℤ.negsuc n) = 0

pub minus_pos : (m n : ℕ) → n ≤ m → minus m n ≡ ℤ.pos (m - n)
unfolding minus
minus_pos m n h = ground arith
