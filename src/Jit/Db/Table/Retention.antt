-- ===== src/Jit/Db/Table/Retention.antt =====
-- What the pruning statement of paw_kit/jit/db.py keeps and deletes.
use paw_toolkit.Prelude.{
  ℕ, zero, suc, ◌<◌, ◌≤◌, String, ◌≡◌, refl, sym, subst, ◌∙◌, Bool, false, not, Option, none, some,
  List, [], ◌∷◌, arith, take, filter, min, str_eq, str_eq_iff,
}
use paw_toolkit.Jit.Db.Table.{Row, Table, insert, of_task, min_id, is_below, delete_below, prune}

module _ {ℓ} {V : Type ℓ} where
  -- Identities fall along the list and stay under the bound.
  abbrev pub Falls : ℕ → List (Row V) → Type 0
  Falls n [] = Unit {0}
  Falls n (r ∷ rs) = (r.id < n) × Falls r.id rs

  abbrev pub IsOrdered : Table V → Type 0
  IsOrdered t = Falls t.next_id t.rows

  pub insert-IsOrdered :
      (task : String) (v : V) (t : Table V) → IsOrdered t → IsOrdered (insert task v t)
  unfolding insert
  insert-IsOrdered task v t h = (omega arith, h)

  Falls-mono : (m n : ℕ) (rs : List (Row V)) → m ≤ n → Falls m rs → Falls n rs
  Falls-mono m n [] h f = tt
  Falls-mono m n (r ∷ rs) h f = (omega arith, f.1)

  pub filter-Falls :
      (p : Row V → Bool) (n : ℕ) (rs : List (Row V)) → Falls n rs → Falls n (filter p rs)
  filter-Falls p n [] f = tt
  filter-Falls p n (r ∷ rs) f =
      ground (arith, filter-Falls p r.id rs f.1, Falls-mono r.id n (filter p rs))

  pub prune-IsOrdered :
      (task : String) (limit : ℕ) (t : Table V) → IsOrdered t → IsOrdered (prune task limit t)
  unfolding prune
  prune-IsOrdered task limit t h = filter-Falls _ t.next_id t.rows h

  of_task-delete_below :
      (task : String) (b : Option ℕ) (rs : List (Row V))
      → of_task task (delete_below task b rs) ≡ filter (λ r. not (is_below b r)) (of_task task rs)
  unfolding of_task delete_below
  of_task-delete_below task b [] = refl
  of_task-delete_below task b (r ∷ rs) = ground (arith, of_task-delete_below task b rs)

  of_task-delete_below_ne :
      (task j : String) (b : Option ℕ) (rs : List (Row V))
      → str_eq task j ≡ false
      → of_task j (delete_below task b rs) ≡ of_task j rs
  unfolding of_task delete_below
  of_task-delete_below_ne task j b [] h = refl
  of_task-delete_below_ne task j b (r ∷ rs) h = ground (
    arith,
    of_task-delete_below_ne task j b rs h,
    str_eq_iff r.task_id task,
    str_eq_iff r.task_id j,
    str_eq_iff task j,
  )

  delete_below-none : (task : String) (rs : List (Row V)) → delete_below task none rs ≡ rs
  unfolding delete_below
  delete_below-none task [] = refl
  delete_below-none task (r ∷ rs) = ground (arith, delete_below-none task rs)

  filter-below_all :
      (b : ℕ) (rs : List (Row V)) → Falls b rs → filter (λ r. not (is_below (some b) r)) rs ≡ []
  filter-below_all b [] f = refl
  filter-below_all b (r ∷ rs) f =
      ground (arith, filter-below_all b rs (Falls-mono r.id b rs (omega arith) f.1))

  -- The least identity of a nonempty beginning is at most its head's.
  min_id-head :
      (limit : ℕ) (r : Row V) (rs : List (Row V))
      → (m : ℕ) × (min_id (take (suc limit) (r ∷ rs)) ≡ some m) × (m ≤ r.id)
  unfolding min_id
  min_id-head limit r rs =
      elim (min_id (take limit rs))
        as (λ o.
          (m : ℕ) × (some (elim o [ none ↦ r.id | some k ↦ min r.id k ]) ≡ some m) × (m ≤ r.id)) [
            | none ↦ (r.id, refl, omega arith)
            | some k ↦ (min r.id k, refl, omega arith)
          ]

  -- Where identities fall, a longer beginning has the same least one.
  min_id-cons :
      (limit m : ℕ) (r s : Row V) (rs : List (Row V))
      → min_id (take (suc (suc limit)) (r ∷ s ∷ rs)) ≡ some m
      → s.id < r.id
      → (min_id (take (suc limit) (s ∷ rs)) ≡ some m) × (m ≤ s.id)
  min_id-cons limit m r s rs e h =
      let (k, e', le) = min_id-head limit s rs in
      let low : min r.id k ≡ k = omega arith in
      let both : some (min r.id k) ≡ some m =
        subst (λ o. some (elim o [ none ↦ r.id | some i ↦ min r.id i ]) ≡ some m) e'
          (unfold min_id in e) in
      let same : k ≡ m = cc (low, both) in
      (subst (λ i. min_id (take (suc limit) (s ∷ rs)) ≡ some i) same e', omega arith)

  min_id-one : (r : Row V) (rs : List (Row V)) → min_id (take 1 (r ∷ rs)) ≡ some r.id
  unfolding min_id
  min_id-one r rs = refl

  filter-from :
      (limit n m : ℕ) (rs : List (Row V))
      → Falls n rs
      → min_id (take (suc limit) rs) ≡ some m
      → filter (λ r. not (is_below (some m) r)) rs ≡ take (suc limit) rs
  filter-from limit n m [] f e = refl
  filter-from zero n m (r ∷ rs) f e =
      let same : r.id ≡ m = cc (min_id-one r rs, e) in
      ground (arith, filter-below_all m rs (rw (← same) f.1))
  filter-from (suc limit) n m (r ∷ []) f e =
      let (k, e', le) = min_id-head (suc limit) r [] in ground arith
  filter-from (suc limit) n m (r ∷ s ∷ rs) f e =
      let (e', le) = min_id-cons limit m r s rs e f.1.0 in
      ground (arith, filter-from limit r.id m (s ∷ rs) f.1 e')

  filter-min_id :
      (limit n : ℕ) (rs : List (Row V))
      → Falls n rs
      → filter (λ r. not (is_below (min_id (take (suc limit) rs)) r)) rs ≡ take (suc limit) rs
  filter-min_id limit n [] f = refl
  filter-min_id limit n (r ∷ rs) f =
      let (m, e, le) = min_id-head limit r rs in
      subst (λ b. filter (λ x. not (is_below b x)) (r ∷ rs) ≡ take (suc limit) (r ∷ rs)) (sym e)
        (filter-from limit n m (r ∷ rs) f e)

  -- Oldest-first retention: in a table whose identities fall, with a limit of one at least, the newest
  -- rows of the task up to the limit stay, in their order.
  pub of_task-prune :
      (task : String) (limit : ℕ) (t : Table V)
      → IsOrdered t
      → of_task task (prune task (suc limit) t).rows ≡ take (suc limit) (of_task task t.rows)
  unfolding prune
  of_task-prune task limit t h =
      of_task-delete_below task _ t.rows
      ∙ filter-min_id limit t.next_id (of_task task t.rows)
          (unfold of_task in filter-Falls _ t.next_id t.rows h)

  -- The rows of another task stay.
  pub of_task-prune_ne :
      (task j : String) (limit : ℕ) (t : Table V)
      → str_eq task j ≡ false
      → of_task j (prune task limit t).rows ≡ of_task j t.rows
  unfolding prune
  of_task-prune_ne task j limit t h = of_task-delete_below_ne task j _ t.rows h

  -- A limit of zero prunes nothing: `MIN(id)` over no rows is NULL.
  pub rows-prune_zero : (task : String) (t : Table V) → (prune task 0 t).rows ≡ t.rows
  unfolding prune
  rows-prune_zero task t = unfold min_id in delete_below-none task t.rows
