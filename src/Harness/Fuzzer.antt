-- ===== src/Harness/Fuzzer.antt =====
-- paw_kit/test/fuzzer.py
pub mod Distinct
pub mod Payload
use paw_toolkit.Prelude.{
  ℕ, zero, suc, ◌-◌, ◌/◌, max, min, String, List, [], ◌∷◌, ◌++◌, Bool, true, false, append, str_len,
  str_eq, if◌then◌else◌, take, length,
}
use paw_toolkit.Harness.Suite.{FuzzingConfig}

abbrev pub max_payload_extreme_length : ℕ
max_payload_extreme_length = 50000

abbrev pub max_fuzzed_cases : ℕ
max_fuzzed_cases = 500

abbrev pub unicode_mutations : List String
unicode_mutations =
    "\u{200b}" ∷ "\u{200c}" ∷ "\u{202e}" ∷ "\u{feff}" ∷ "🔥🚀🚨" ∷ "\\u0000" ∷ "\0\u{1f}" ∷ []

abbrev pub whitespace_mutations : List String
whitespace_mutations = "   " ∷ "\t\t\t" ∷ "\n\n\r\n" ∷ "   \t  \n  " ∷ []

pub record FuzzGenerationResult : Type 0 where
  pub cases : List String
  pub dropped_count : ℕ

-- `base_inputs or ["example input"]`
abbrev pub seeds_of : List String → List String
seeds_of [] = "example input" ∷ []
seeds_of (s ∷ ss) = s ∷ ss

-- `s * n`
unfoldable pub repeat : String → ℕ → String
repeat s zero = ""
repeat s (suc n) = append s (repeat s n)

abbrev pub flooded : List String → List String
flooded [] = []
flooded (seed ∷ seeds) =
    append "   " (append seed "   \n") ∷ append "\t\t" (append seed "\t\t") ∷ flooded seeds

abbrev pub corrupted_with : String → List String → List String
corrupted_with u [] = []
corrupted_with u (seed ∷ seeds) = append seed u ∷ append u seed ∷ corrupted_with u seeds

abbrev pub corrupted : List String → List String → List String
corrupted [] seeds = []
corrupted (u ∷ us) seeds = u ∷ (corrupted_with u seeds ++ corrupted us seeds)

unfoldable pub repeat_count : String → ℕ
repeat_count seed = max 1 (min 200 (max_payload_extreme_length / max 1 (str_len seed)))

unfoldable pub stretched : List String → List String
unfolding repeat repeat_count
stretched [] = []
stretched (seed ∷ seeds) = repeat seed (repeat_count seed) ∷ stretched seeds

-- All that is generated, in order, with repetitions.
unfoldable pub fuzzed : FuzzingConfig → List String → List String
unfolding repeat stretched
fuzzed config seeds =
    (if config.empty_inputs then "" ∷ [] else [])
    ++ ((if config.whitespace_flood then whitespace_mutations ++ flooded seeds else [])
        ++ ((if config.inject_unicode then corrupted unicode_mutations seeds else [])
            ++ ((if config.payload_extremes then repeat "A" 5000 ∷ stretched seeds else [])
                ++ config.adversarial_probes)))

-- `item in seen`
unfoldable pub contains : String → List String → Bool
contains s [] = false
contains s (t ∷ ts) = if str_eq t s then true else contains s ts

unfoldable pub deduplicate : List String → List String → List String
unfolding contains
deduplicate seen [] = []
deduplicate seen (item ∷ items) =
    if contains item seen then deduplicate seen items else item ∷ deduplicate (item ∷ seen) items

unfoldable pub generate_detailed : FuzzingConfig → List String → FuzzGenerationResult
unfolding fuzzed deduplicate
generate_detailed config base_inputs =
    let unique = deduplicate [] (fuzzed config (seeds_of base_inputs)) in
    let kept = take max_fuzzed_cases unique in
    record { cases = kept; dropped_count = length unique - length kept }

unfoldable pub generate : FuzzingConfig → List String → List String
unfolding generate_detailed
generate config base_inputs = (generate_detailed config base_inputs).cases
