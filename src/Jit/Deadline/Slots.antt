-- ===== src/Jit/Deadline/Slots.antt =====
-- The slots of `DeadlinePool` in paw_kit/jit/deadline.py, under callers and workers in any order.
use paw_toolkit.Prelude.{
  ℕ, suc, ◌+◌, ◌≡◌, refl, some, List, [], ◌∷◌, length, arith, length-append, ◌↔◌, Option-cases, inl,
  inr,
}
use paw_toolkit.Jit.Outcome.{raised, pool_exhausted}
use paw_toolkit.Jit.Deadline.{
  Call, Pool, start, begin_call, take_call, set_done, release, end_call, find,
}

module _ {A : Type 0} where
  pub data Step (p : Pool A) : Pool A → Type 0 where
    begins : (c : Call A) → Step p (begin_call c p).1
    takes : {q : Pool A} → take_call p ≡ some q → Step p q
    answers : (n : ℕ) {q : Pool A} → set_done n p ≡ some q → Step p q
    releases : {q : Pool A} → release p ≡ some q → Step p q

  pub data Reach (workers : ℕ) : Pool A → Type 0 where
    started : {p : Pool A} → start workers ≡ some p → Reach workers p
    later : {p q : Pool A} → Reach workers p → Step p q → Reach workers q

  -- Every slot is free, or held by a call that waits or runs, or by a worker that is about to give it
  -- back.
  abbrev pub IsBalanced : ℕ → Pool A → Type 0
  IsBalanced workers p =
      (p.max_workers ≡ workers)
      × (p.free + (length p.queue + (length p.running + p.leaving)) ≡ workers)

  find-length :
      (n : ℕ) (cs : List (Call A)) (c : Call A) (rest : List (Call A))
      → find n cs ≡ some (c, rest)
      → length cs ≡ suc (length rest)
  find-length n [] c rest h = absurd (grind arith)
  find-length n (d ∷ cs) c rest h = elim (Option-cases (find n cs)) [
    | inl miss ↦ grind arith
    | inr ((e, es), hit) ↦ grind (arith, find-length n cs e es hit)
  ]

  begin_call-IsBalanced :
      (workers : ℕ) (c : Call A) (p : Pool A)
      → IsBalanced workers p
      → IsBalanced workers (begin_call c p).1
  unfolding begin_call
  begin_call-IsBalanced workers c p h = ground (arith, length-append p.queue (c ∷ []))

  take_call-IsBalanced :
      (workers : ℕ) (p q : Pool A)
      → take_call p ≡ some q
      → IsBalanced workers p
      → IsBalanced workers q
  unfolding take_call
  take_call-IsBalanced workers p q e h = grind arith

  set_done-IsBalanced :
      (workers n : ℕ) (p q : Pool A)
      → set_done n p ≡ some q
      → IsBalanced workers p
      → IsBalanced workers q
  unfolding set_done
  set_done-IsBalanced workers n p q e h = elim (Option-cases (find n p.running)) [
    | inl miss ↦ grind arith
    | inr ((c, rest), hit) ↦ grind (arith, find-length n p.running c rest hit)
  ]

  release-IsBalanced :
      (workers : ℕ) (p q : Pool A)
      → release p ≡ some q
      → IsBalanced workers p
      → IsBalanced workers q
  unfolding release
  release-IsBalanced workers p q e h = grind arith

  Step-IsBalanced :
      (workers : ℕ) {p q : Pool A} → Step p q → IsBalanced workers p → IsBalanced workers q
  Step-IsBalanced workers {p} (Step.begins c) h = begin_call-IsBalanced workers c p h
  Step-IsBalanced workers {p} {q} (Step.takes e) h = take_call-IsBalanced workers p q e h
  Step-IsBalanced workers {p} {q} (Step.answers n e) h = set_done-IsBalanced workers n p q e h
  Step-IsBalanced workers {p} {q} (Step.releases e) h = release-IsBalanced workers p q e h

  start-IsBalanced : (workers : ℕ) (p : Pool A) → start workers ≡ some p → IsBalanced workers p
  unfolding start
  start-IsBalanced workers p h = grind arith

  -- In any pool that can be reached the slots are balanced: so no more calls wait than there are
  -- workers.
  pub Reach-IsBalanced : {workers : ℕ} {p : Pool A} → Reach workers p → IsBalanced workers p
  Reach-IsBalanced {workers} {p} (Reach.started e) = start-IsBalanced workers p e
  Reach-IsBalanced {workers} (Reach.later r step) =
      Step-IsBalanced workers step (Reach-IsBalanced r)

  -- A call that was let in never waits for another one: while the queue has a call, some worker is
  -- idle and takes the first.
  pub take_call-progress :
      {workers : ℕ} {p : Pool A} (c : Call A) (rest : List (Call A))
      → Reach workers p
      → p.queue ≡ c ∷ rest
      → take_call p ≡ some (record p { queue = rest; running = c ∷ p.running })
  unfolding take_call
  take_call-progress {workers} {p} c rest r h = grind (arith, Reach-IsBalanced r)

  -- A call is refused exactly when every slot is held.
  pub begin_call-exhausted :
      {workers : ℕ} {p : Pool A} (c : Call A)
      → Reach workers p
      → ((begin_call c p).0 ≡ raised pool_exhausted)
        ↔ (length p.queue + (length p.running + p.leaving) ≡ workers)
  unfolding begin_call
  begin_call-exhausted {workers} {p} c r = grind (arith, Reach-IsBalanced r)

  -- The slot of a call is given back only after its caller was woken: with one worker, a caller that has
  -- its answer and calls again at once may be refused, though no call is running.
  pub end_call-early :
      {p : Pool A} (c d : Call A)
      → Reach 1 p
      → p.running ≡ c ∷ []
      → (q : Pool A) × (set_done c.number p ≡ some q)
        × (end_call c.number q ≡ c.result)
        × (q.running ≡ [])
        × ((begin_call d q).0 ≡ raised pool_exhausted)
  unfolding set_done end_call begin_call
  end_call-early {p} c d r h =
      let full : p.free ≡ 0 = grind (arith, Reach-IsBalanced r) in
      let same : find c.number (c ∷ []) ≡ some (c, []) = ground arith in
      (
        record p { running = []; leaving = p.leaving + 1; done = c ∷ p.done },
        rw (h, same) refl,
        ground arith,
        refl,
        rw full refl,
      )
