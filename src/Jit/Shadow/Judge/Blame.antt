-- ===== src/Jit/Shadow/Judge/Blame.antt =====
-- What a verdict of the shadow worker in paw_kit/jit/shadow.py says of the two sides.
use paw_toolkit.Prelude.{◌≡◌, refl, Bool, true, false, not, ◌&&◌, arith, ◌↔◌, if◌then◌else◌}
use paw_toolkit.Jit.Outcome.{Result, ok, raised}
use paw_toolkit.Jit.Db.Schema.{Phase, Verdict, phase_eq, verdict_eq}
use paw_toolkit.Jit.Shadow.{Answers, ShadowJob}
use paw_toolkit.Jit.Shadow.Judge.{coerce, judge, judge_call, compare_sides, safe_agreement, both}

module _ {A : Type 0} where
  abbrev pub Agreed : (A → A → Result Bool) → Result A → Result A → Type 0
  Agreed fn teacher adapter =
      (t : A) × (a : A) × (teacher ≡ ok t) × (adapter ≡ ok a) × (fn t a ≡ ok true)

  abbrev pub is_raised : Result A → Bool
  is_raised (ok value) = false
  is_raised (raised e) = true

  both-Agreed :
      (fn : A → A → Result Bool) (teacher adapter : Result A)
      → (both fn teacher adapter).0 ≡ Verdict.agree
      → Agreed fn teacher adapter
  unfolding safe_agreement
  both-Agreed fn (raised e) adapter h = absurd (grind arith)
  both-Agreed fn (ok t) (raised e) h = absurd (grind arith)
  both-Agreed fn (ok t) (ok a) h = (t, a, refl, refl, grind arith)

  Agreed-both :
      (fn : A → A → Result Bool) (teacher adapter : Result A)
      → Agreed fn teacher adapter
      → (both fn teacher adapter).0 ≡ Verdict.agree
  unfolding safe_agreement
  Agreed-both fn teacher adapter (t, a, p, q, agreed) = rw (p, q) (ground arith)

  both-teacher :
      (fn : A → A → Result Bool) (teacher adapter : Result A)
      → verdict_eq (both fn teacher adapter).0 Verdict.teacher_error ≡ is_raised teacher
  unfolding safe_agreement
  both-teacher fn (raised e) adapter = refl
  both-teacher fn (ok t) adapter = grind arith

module _ {F A : Type 0} (answers : Answers A) where
  -- What each side of a comparison gave, after its coercion. The worker's call is the adapter's in the
  -- shadow phase, the teacher's otherwise; the other side was known when the job was made.
  abbrev coerced : ShadowJob F A → Result A → Result A
  coerced job (raised e) = raised e
  coerced job (ok value) = coerce answers job.response_model value

  abbrev teacher_at : Bool → ShadowJob F A → Result A → Result A
  teacher_at shadowing job call = coerced job (if shadowing then ok job.raw_teacher else call)

  abbrev adapter_at : Bool → ShadowJob F A → Result A → Result A
  adapter_at shadowing job call = coerced job (if shadowing then call else ok job.raw_adapter)

  abbrev pub teacher_side : ShadowJob F A → Result A → Result A
  teacher_side job call = teacher_at (phase_eq job.phase Phase.shadow) job call

  abbrev pub adapter_side : ShadowJob F A → Result A → Result A
  adapter_side job call = adapter_at (phase_eq job.phase Phase.shadow) job call

  judge_call-agree :
      (shadowing : Bool) (job : ShadowJob F A) (call : Result A)
      → ((judge_call answers shadowing job call).0 ≡ Verdict.agree)
        ↔ Agreed job.agreement_fn (teacher_at shadowing job call) (adapter_at shadowing job call)
  unfolding compare_sides
  judge_call-agree true job (ok a) = (both-Agreed _ _ _, Agreed-both _ _ _)
  judge_call-agree true job (raised e) =
      (λ h. absurd (grind arith), λ (t, a, p, q, r). absurd (grind arith))
  judge_call-agree false job (ok t) = (both-Agreed _ _ _, Agreed-both _ _ _)
  judge_call-agree false job (raised e) =
      (λ h. absurd (grind arith), λ (t, a, p, q, r). absurd (grind arith))

  judge_call-teacher :
      (shadowing : Bool) (job : ShadowJob F A) (call : Result A)
      → verdict_eq (judge_call answers shadowing job call).0 Verdict.teacher_error
        ≡ (is_raised (teacher_at shadowing job call) && not (shadowing && is_raised call))
  unfolding compare_sides
  judge_call-teacher true job (ok a) = ground (
    arith,
    both-teacher job.agreement_fn (teacher_at true job (ok a)) (adapter_at true job (ok a)),
  )
  judge_call-teacher true job (raised e) = grind arith
  judge_call-teacher false job (ok t) = ground (
    arith,
    both-teacher job.agreement_fn (teacher_at false job (ok t)) (adapter_at false job (ok t)),
  )
  judge_call-teacher false job (raised e) = refl

  -- A verdict of agreement means that both sides gave an answer and the agreement function accepts the
  -- two; and then it is given.
  pub judge-agree :
      (job : ShadowJob F A) (call : Result A)
      → ((judge answers job call).0 ≡ Verdict.agree)
        ↔ Agreed job.agreement_fn (teacher_side job call) (adapter_side job call)
  unfolding judge
  judge-agree job call = judge_call-agree (phase_eq job.phase Phase.shadow) job call

  -- The verdict is `teacher_error` exactly when the teacher's side fails, unless the adapter was called
  -- here and its call failed first.
  pub judge-teacher_error :
      (job : ShadowJob F A) (call : Result A)
      → verdict_eq (judge answers job call).0 Verdict.teacher_error ≡ (
          is_raised (teacher_side job call)
          && not (phase_eq job.phase Phase.shadow && is_raised call))
  unfolding judge
  judge-teacher_error job call = judge_call-teacher (phase_eq job.phase Phase.shadow) job call
