-- ===== src/Harness/Fuzzer/Payload.antt =====
-- How long the fuzzer's payload extremes are.
use native.Mathlib.Nat.{div-mul-le_self, mul-le-mul_right}
use text.Mathlib.TextLemmas.{length-append as str_len-append}
use paw_toolkit.Prelude.{ℕ, zero, suc, ◌*◌, ◌/◌, ◌≤◌, max, min, ◌≡◌, String, str_len, arith}
use paw_toolkit.Harness.Fuzzer.{repeat, repeat_count}

str_len-repeat : (s : String) (n : ℕ) → str_len (repeat s n) ≡ n * str_len s
unfolding repeat
str_len-repeat s zero = omega arith
str_len-repeat s (suc n) = grind (arith, str_len-append s (repeat s n), str_len-repeat s n)

-- As many copies as fit, but one at the least.
copies_fit : (n q : ℕ) → q * max 1 n ≤ 50000 → max 1 (min 200 q) * n ≤ max 50000 n
copies_fit zero q h = grind arith
copies_fit (suc n) zero h = omega arith
copies_fit (suc n) (suc q) h =
    grind (arith, mul-le-mul_right {m = min 200 (suc q)} {n = suc q} (suc n) (omega arith))

-- A repeated seed is at most 50000 characters long, or as long as the seed itself where that is longer.
pub repeat-repeat_count :
    (seed : String) → str_len (repeat seed (repeat_count seed)) ≤ max 50000 (str_len seed)
unfolding repeat_count
repeat-repeat_count seed = rw (str_len-repeat seed (repeat_count seed)) (
    copies_fit (str_len seed) (50000 / max 1 (str_len seed))
      (div-mul-le_self 50000 (max 1 (str_len seed))))
