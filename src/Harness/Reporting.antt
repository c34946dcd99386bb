-- ===== src/Harness/Reporting.antt =====
-- paw_kit/test/reporting.py. A percentage is what the parameter `percent` makes of a numerator and a
-- denominator, and `zero_percent` where nothing was scored.
use paw_toolkit.Prelude.{String, List, [], ◌∷◌, Bool, true, false, not, if◌then◌else◌, filter}
use paw_toolkit.Jit.Outcome.{Result, ok, raised, value_error}
use paw_toolkit.Jit.Agreement.{ℤ, int_eq}
use paw_toolkit.Harness.Integers.{int_leb, int_ltb}

-- A named exclusion and its count.
abbrev pub Exclusions : Type 0
Exclusions = List (String × ℤ)

-- `if count`
abbrev pub is_counted : String × ℤ → Bool
is_counted (name, n) = not (int_eq n (ℤ.pos 0))

abbrev pub ordered_exclusions : Exclusions → Exclusions
ordered_exclusions excluded = filter is_counted excluded

-- The clauses of `denominator_note`, with what each of them prints.
pub data Note : Type 0 where
  nothing_to_score : Note
  none_scored : ℤ → Exclusions → Note
  all_scored : ℤ → Note
  some_scored : ℤ → ℤ → Exclusions → Note

abbrev pub note_without : ℤ → ℤ → Note
note_without scored total =
    if int_eq scored total then Note.all_scored total else Note.some_scored scored total []

abbrev pub scored_note : ℤ → ℤ → Exclusions → Note
scored_note scored total [] = note_without scored total
scored_note scored total (x ∷ xs) = Note.some_scored scored total (x ∷ xs)

unfoldable pub denominator_note : ℤ → ℤ → Exclusions → Note
denominator_note scored total excluded =
    if int_leb total (ℤ.pos 0)
    then Note.nothing_to_score
    else let parts = ordered_exclusions excluded in
      if int_leb scored (ℤ.pos 0)
      then Note.none_scored total parts
      else scored_note scored total parts

pub record ScoredRate : Type 0 where
  pub label : String
  pub total : ℤ
  pub scored : ℤ
  pub excluded : Exclusions

unfoldable pub rate {ℓ} : {R : Type ℓ} → (ℤ → ℤ → R) → R → ScoredRate → ℤ → Result R
rate percent zero_percent r numerator =
    if int_ltb numerator (ℤ.pos 0)
    then raised value_error
    else if int_ltb r.scored numerator
    then raised value_error
    else if int_ltb (ℤ.pos 0) r.scored
    then ok (percent numerator r.scored)
    else ok zero_percent

abbrev pub any_negative : Exclusions → Bool
any_negative [] = false
any_negative ((name, n) ∷ excluded) = if int_ltb n (ℤ.pos 0) then true else any_negative excluded

unfoldable pub scored_denominator : ℤ → ℤ → Exclusions → String → Result ScoredRate
scored_denominator total scored excluded label =
    if int_ltb total (ℤ.pos 0)
    then raised value_error
    else if int_ltb scored (ℤ.pos 0)
    then raised value_error
    else if int_ltb total scored
    then raised value_error
    else if any_negative excluded
    then raised value_error
    else ok (record { label = label; total = total; scored = scored; excluded = excluded })
