-- ===== src/Tests/Answers.antt =====
-- Comparisons of two answers, as paw_kit/jit/agreement.py makes them.
use paw_toolkit.Prelude.{ℕ, Bool, ◌+◌, ◌≡◌, refl, true, ◌||◌, ltb, ◌==◌, arith}
use paw_toolkit.Jit.Outcome.{Result, ok}
use paw_toolkit.Jit.Agreement.{
  Value, ℤ, Calls, default_agreement_fn, compare, int, float, text, dict, field, no_fields,
}
use paw_toolkit.Jit.Agreement.Symmetry.{default_agreement_fn-symmetric}
use paw_toolkit.Jit.Agreement.Sound.{Same, default_agreement_fn-Same}

abbrev magnitude : ℤ → ℕ
magnitude (ℤ.pos n) = n
magnitude (ℤ.negsuc n) = n

abbrev calls : Calls ℕ
calls = record {
  normalize_str = λ s. s;
  stringify_answer = λ _. ok "{}";
  to_float = λ n. ok (magnitude n);
  isclose = λ x y. x == y;
}

isclose_sym : (x y : ℕ) → (x == y) ≡ true → (y == x) ≡ true
isclose_sym x y h = ground arith

-- {"urgency": 3, "team": "ops"}, in either order.
abbrev ticket : Value ℕ
ticket = dict (field "urgency" (int (ℤ.pos 3)) (field "team" (text "ops") no_fields))

abbrev reordered : Value ℕ
reordered = dict (field "team" (text "ops") (field "urgency" (float 3) no_fields))

default_agreement_fn-symmetric_example :
    default_agreement_fn calls ticket reordered ≡ default_agreement_fn calls reordered ticket
default_agreement_fn-symmetric_example =
    default_agreement_fn-symmetric calls isclose_sym ticket reordered

default_agreement_fn-Same_example : Same calls ticket reordered
unfolding default_agreement_fn compare
default_agreement_fn-Same_example = default_agreement_fn-Same calls ticket reordered refl

-- {"team": "ops", "urgency": 4.0}, within 1 of the ticket.
abbrev near : Value ℕ
near = dict (field "team" (text "ops") (field "urgency" (float 4) no_fields))

abbrev base : Value ℕ → Value ℕ → Result Bool
base v w = ok (default_agreement_fn calls v w)

abbrev apart : ℕ → ℕ → ℕ → Bool
apart x y tolerance = ltb (x + tolerance) y || ltb (y + tolerance) x
