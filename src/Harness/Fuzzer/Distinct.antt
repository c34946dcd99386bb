-- ===== src/Harness/Fuzzer/Distinct.antt =====
-- What the fuzzer keeps and what it drops: the order-preserving removal of repetitions, and the cap.
use paw_toolkit.Prelude.{
  ℕ, zero, suc, ◌+◌, ◌-◌, ◌≡◌, refl, ap, min, ◌++◌, String, List, [], ◌∷◌, false, ◌&&◌, not,
  str_eq_iff, str_eq_refl, arith, take, length, length-take, Bool-cases, inl, inr,
}
use paw_toolkit.Harness.Suite.{FuzzingConfig}
use paw_toolkit.Harness.Fuzzer.{contains, deduplicate, fuzzed, seeds_of, generate_detailed}

-- No entry comes twice.
abbrev pub IsDistinct : List String → Type 0
IsDistinct [] = Unit
IsDistinct (s ∷ ss) = (contains s ss ≡ false) × IsDistinct ss

contains-deduplicate :
    (s : String) (seen items : List String)
    → contains s (deduplicate seen items) ≡ (contains s items && not (contains s seen))
unfolding contains deduplicate
contains-deduplicate s seen [] = refl
contains-deduplicate s seen (item ∷ items) = ground (
  arith,
  str_eq_iff item s,
  contains-deduplicate s seen items,
  contains-deduplicate s (item ∷ seen) items,
)

deduplicate-IsDistinct : (seen items : List String) → IsDistinct (deduplicate seen items)
unfolding contains deduplicate
deduplicate-IsDistinct seen [] = tt
deduplicate-IsDistinct seen (item ∷ items) = elim (Bool-cases (contains item seen)) [
  | inl old ↦ rw old (deduplicate-IsDistinct seen items)
  | inr new ↦ rw new (
    grind (arith, contains-deduplicate item (item ∷ seen) items, str_eq_refl item),
    deduplicate-IsDistinct (item ∷ seen) items,
  )
]

abbrev rest : ℕ → List String → List String
rest zero items = items
rest (suc n) [] = []
rest (suc n) (item ∷ items) = rest n items

take-rest : (n : ℕ) (items : List String) → take n items ++ rest n items ≡ items
take-rest zero items = refl
take-rest (suc n) [] = refl
take-rest (suc n) (item ∷ items) = ap (λ is. item ∷ is) (take-rest n items)

length-rest :
    (n : ℕ) (items : List String) → length (rest n items) ≡ length items - length (take n items)
length-rest zero items = omega arith
length-rest (suc n) [] = omega arith
length-rest (suc n) (item ∷ items) = omega (arith, length-rest n items)

kept_all : (s : String) (items : List String) → contains s (deduplicate [] items) ≡ contains s items
unfolding contains
kept_all s items = ground (arith, contains-deduplicate s [] items)

-- What the fuzzer generates is at most 500 inputs, as many as there are up to that cap. With the cases it drops,
-- which it counts, they are all that its mutations and probes make, each of them once.
pub generate_detailed-IsDistinct :
    (config : FuzzingConfig) (base : List String)
    → let result = generate_detailed config base in
      (dropped : List String) × (length dropped ≡ result.dropped_count)
      × (length result.cases ≡ min 500 (length result.cases + result.dropped_count))
      × IsDistinct (result.cases ++ dropped)
      × ((s : String)
          → contains s (result.cases ++ dropped) ≡ contains s (fuzzed config (seeds_of base)))
unfolding generate_detailed
generate_detailed-IsDistinct config base =
    let all_items = fuzzed config (seeds_of base) in
    let unique = deduplicate [] all_items in
    (
      rest 500 unique,
      omega (arith, length-rest 500 unique),
      omega (arith, length-take 500 unique),
      rw (take-rest 500 unique) (deduplicate-IsDistinct [] all_items),
      (λ s. rw (take-rest 500 unique) (kept_all s all_items)),
    )
