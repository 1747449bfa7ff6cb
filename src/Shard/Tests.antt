-- ===== src/Shard/Tests.antt =====
-- Identifiers, partitioners and prefixes, on which the theorems about shards are applied.
use nanograph.Prelude.{ℕ, ◌≡◌, refl, List, [], ◌∷◌, true, false, arith}
use nanograph.Bytes.{Bytes, cmp}
use nanograph.Shard.Id.{AreU32}
use nanograph.Shard.Partition.{in_range}
use nanograph.Shard.Range.{contains, prefix, prefix-misses}

fields-AreU32 : AreU32 1 2 3 4
fields-AreU32 = (omega arith, omega arith, omega arith, omega arith)

largest-AreU32 : AreU32 1 2 4294967295 0
largest-AreU32 = (omega arith, omega arith, omega arith, omega arith)

abbrev packed : ℕ
packed = 79228162551157825753847955460

abbrev one : ℕ
one = 1

abbrev two : ℕ
two = 2

abbrev three : ℕ
three = 3

abbrev largest : ℕ
largest = 4294967295

abbrev first_range : Bytes × Bytes
first_range = (10 ∷ [], 20 ∷ [])

abbrev second_range : Bytes × Bytes
second_range = (20 ∷ [], 30 ∷ [])

abbrev two_ranges : List (Bytes × Bytes)
two_ranges = first_range ∷ second_range ∷ []

second_range-holds : in_range (25 ∷ []) second_range ≡ true
unfolding cmp
second_range-holds = refl

prefix-misses_example : contains (prefix (97 ∷ 255 ∷ [])) (97 ∷ 255 ∷ 1 ∷ []) ≡ false
prefix-misses_example = prefix-misses (97 ∷ 255 ∷ []) 1 [] refl
