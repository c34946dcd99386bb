-- ===== src/Harness/Active/Training.antt =====
-- The training set from round to round.
use paw_toolkit.Prelude.{
  suc, ◌-◌, String, List, [], ◌∷◌, Option, none, some, true, ◌≡◌, ◌⊎◌, inl, inr, refl, All,
  All-take, arith, Bool-cases, lookup, is_some, length,
}
use paw_toolkit.Jit.Outcome.{Result, ok, raised, IfOk}
use paw_toolkit.Jit.Agreement.{ℤ}
use paw_toolkit.Harness.Matching.{values_equivalent}
use paw_toolkit.Harness.Suite.{TestSuiteConfig}
use paw_toolkit.Harness.Fuzzer.Distinct.{IsDistinct}
use paw_toolkit.Harness.Assertions.{failed_rules}
use paw_toolkit.Harness.Active.{World, Example, TeacherQueryResult, query_teacher_safely, ask}
use paw_toolkit.Harness.Active.Rounds.{
  Round, Failing, query_all, with_answer, next_query, answered_with, eligible_inputs, slice_to,
}
use paw_toolkit.Harness.Active.Labels.{
  Among, inputs, GoldIsVetted, judge_label-vetted, upsert_example-All, upsert_example-IsDistinct,
}

present : (o : Option String) → is_some o ≡ true → (s : String) × (o ≡ some s)
present none h = absurd (grind arith)
present (some s) h = (s, refl)

module _ {F W : Type 0} (world : World F W) (config : TestSuiteConfig F)
    (keys : List (String × String)) (start : List Example) where
  -- A row that answers its input's key and fails no assertion.
  abbrev pub IsAnswered : Example → Type 0
  IsAnswered e =
      (key : String) × (lookup e.input keys ≡ some key)
      × (values_equivalent world.checks.matching e.output key ≡ ok true)
      × (failed_rules world.checks e.output config.abstain_value config.assertions ≡ ok [])

  abbrev pub IsTrusted : Example → Type 0
  IsTrusted e = Among e start ⊎ IsAnswered e

  abbrev pub IsClean : List Example → Type 0
  IsClean es = All IsTrusted es × (IsDistinct (inputs start) → IsDistinct (inputs es))

  abbrev HasKey : String → Type 0
  HasKey inp = is_some (lookup inp keys) ≡ true

  with_answer-IsClean :
      (inp : String) (r : TeacherQueryResult) (round : Round) (gold : Option String)
      → r.gold_label ≡ gold
      → HasKey inp
      → GoldIsVetted world config (lookup inp keys) r
      → IsClean round.dataset
      → IsClean (with_answer inp r round gold).dataset
  with_answer-IsClean inp r round none g has vetted clean = clean
  with_answer-IsClean inp r round (some label) g has vetted (trusted, distinct) =
      let (passed, agrees) = vetted label g in
      let (key, found) = present (lookup inp keys) has in
      (
        upsert_example-All IsTrusted round.dataset inp label trusted
            (inr (key, found, agrees key found, passed)),
        λ d. upsert_example-IsDistinct round.dataset inp label (distinct d),
      )

  next_query-IfOk :
      (P : TeacherQueryResult → Type 0) (Q : Round → Type 0) (r : Result TeacherQueryResult) (w : W)
      (f : TeacherQueryResult → Result Round × W)
      → IfOk P r
      → ((a : TeacherQueryResult) → P a → IfOk Q (f a).0)
      → IfOk Q (next_query world config keys r w f).0
  next_query-IfOk P Q (ok a) w f p q = q a p
  next_query-IfOk P Q (raised e) w f p q = tt

  pub query_all-IsClean :
      (queried : List String) (round : Round) (w : W)
      → All HasKey queried
      → IsClean round.dataset
      → IfOk (λ r. IsClean r.dataset) (query_all world config keys queried round w).0
  unfolding query_all query_teacher_safely
  query_all-IsClean [] round w has clean = clean
  query_all-IsClean (inp ∷ queried) round w (has, others) clean =
      let answer = ask world config inp w in
      next_query-IfOk (GoldIsVetted world config (lookup inp keys)) (λ r. IsClean r.dataset) _
        answer.1 _ (judge_label-vetted world config answer.0 (lookup inp keys))
        λ r vetted.
          query_all-IsClean queried (answered_with inp r round) answer.1 others
            (with_answer-IsClean inp r round r.gold_label refl has vetted clean)

  pub eligible_have_keys : (rows : List Failing) → All HasKey (eligible_inputs keys rows)
  eligible_have_keys [] = tt
  eligible_have_keys ((inp, out, reasons) ∷ rows) = elim (Bool-cases (is_some (lookup inp keys))) [
    | inl has ↦ rw has (has, eligible_have_keys rows)
    | inr hasnt ↦ rw hasnt (eligible_have_keys rows)
  ]

  pub slice_have_keys : (n : ℤ) (ins : List String) → All HasKey ins → All HasKey (slice_to n ins)
  slice_have_keys (ℤ.pos n) ins h = All-take HasKey n ins h
  slice_have_keys (ℤ.negsuc n) ins h = All-take HasKey (length ins - suc n) ins h
