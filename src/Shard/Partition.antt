-- ===== src/Shard/Partition.antt =====
-- `Partitioner` and `HashFunction` (nanograph-core/src/object/shard.rs): the shard of a key.
use Prim.Native.Nat.{bit_xor}
use nanograph.Prelude.{
  ℕ, zero, suc, ◌+◌, ◌-◌, ◌*◌, ◌/◌, ◌%◌, ◌^◌, ◌≤◌, ◌<◌, ◌≡◌, ◌⊎◌, ◌↔◌, refl, Option, none, some,
  List, [], ◌∷◌, Bool, true, false, not, ◌&&◌, ◌||◌, arith, ltb, ◌==◌, if◌then◌else◌, length,
  get_elem?, lt_of_get_elem?, subst, sym, ap, inl, inr, Bool-cases, Option-cases,
}
use mathlib.Core.Option.{some-injective}
use native.Mathlib.Nat.{div-zero, div-mul-le_self}
use nanograph.Bytes.{Bytes, before, same}

pub data HashFunction : Type 0 where
  murmur3 xx_hash city_hash : HashFunction

-- The loop of FNV-1a, which all three functions run.
unfoldable pub fnv : ℕ → Bytes → ℕ
fnv hash [] = hash
fnv hash (byte ∷ key) = fnv (bit_xor hash byte * 0x100000001b3 % 2 ^ 64) key

unfoldable pub hash : HashFunction → Bytes → ℕ
unfolding fnv
hash murmur3 key = fnv 0xcbf29ce484222325 key
hash xx_hash key = fnv 0xcbf29ce484222325 key
hash city_hash key = fnv 0xcbf29ce484222325 key

pub data Partitioner : Type 0 where
  by_hash : HashFunction → Partitioner
  by_range : List (Bytes × Bytes) → Partitioner
  by_list : List (List Bytes) → Partitioner
  by_time : ℕ → Partitioner

abbrev pub in_range : Bytes → Bytes × Bytes → Bool
in_range key r = not (before key r.0) && before key r.1

-- `key_list.iter().any(|k| k == key)`
unfoldable pub in_list : Bytes → List Bytes → Bool
in_list key [] = false
in_list key (k ∷ ks) = same k key || in_list key ks

-- The index of the first element that passes, counted from `idx`, or 0 where none does.
unfoldable pub first_index {ℓ} : {A : Type ℓ} → (A → Bool) → ℕ → List A → ℕ
first_index p idx [] = 0
first_index p idx (x ∷ xs) = elim (p x) [ true ↦ idx | false ↦ first_index p (suc idx) xs ]

-- An `i64` by its sign and its magnitude.
pub record I64 : Type 0 where
  pub negative : Bool
  pub magnitude : ℕ

-- The bits of a `u64` read as an `i64`.
abbrev pub to_i64 : ℕ → I64
to_i64 u =
    if ltb u (2 ^ 63)
    then record { negative = false; magnitude = u }
    else record { negative = true; magnitude = 2 ^ 64 - u }

abbrev xor_sign : Bool → Bool → Bool
xor_sign true b = not b
xor_sign false b = b

-- `/` and `%` of Rust on `i64`: rounding towards 0, with a panic on a zero divisor and on overflow.
abbrev pub div_i64 : I64 → I64 → Option I64
div_i64 a b =
    if b.magnitude == 0
    then none
    else if (a.magnitude / b.magnitude == 2 ^ 63) && not (xor_sign a.negative b.negative)
    then none
    else some (record {
      negative = xor_sign a.negative b.negative;
      magnitude = a.magnitude / b.magnitude;
    })

abbrev pub rem_i64 : I64 → I64 → Option I64
rem_i64 a b =
    if b.magnitude == 0
    then none
    else some (record { negative = a.negative; magnitude = a.magnitude % b.magnitude })

-- The first eight bytes, big-endian; `none` where there are fewer.
unfoldable pub be_u64 : ℕ → ℕ → Bytes → Option ℕ
be_u64 zero acc key = some acc
be_u64 (suc n) acc [] = none
be_u64 (suc n) acc (b ∷ key) = be_u64 n (acc * 256 + b) key

abbrev pub remainder : I64 → Option I64 → Option ℕ
remainder count none = none
remainder count (some q) = elim (rem_i64 q count) [
  | none ↦ none
  | some r ↦ some (r.magnitude % 2 ^ 32)
]

-- The shard of the timestamp that begins a key, if the key is long enough for one.
abbrev time_shard : Option ℕ → ℕ → ℕ → Option ℕ
time_shard none interval_seconds shard_count = some 0
time_shard (some bits) interval_seconds shard_count =
    remainder (record { negative = false; magnitude = shard_count })
      (div_i64 (to_i64 bits) (to_i64 interval_seconds))

-- The shard of a key; `none` is a panic. `idx as u32` wraps round.
unfoldable pub get_shard_number : Partitioner → Bytes → ℕ → Option ℕ
unfolding hash first_index in_list be_u64
get_shard_number (by_hash hash_fn) key shard_count =
    if shard_count == 0 then none else some (hash hash_fn key % shard_count % 2 ^ 32)
get_shard_number (by_range ranges) key shard_count =
    some (first_index (in_range key) 0 ranges % 2 ^ 32)
get_shard_number (by_list keys) key shard_count = some (first_index (in_list key) 0 keys % 2 ^ 32)
get_shard_number (by_time interval_seconds) key shard_count =
    time_shard (be_u64 8 0 key) interval_seconds shard_count

first_index-bound {ℓ} :
    {A : Type ℓ} (p : A → Bool) (idx : ℕ) (xs : List A)
    → 0 < idx + length xs
    → first_index p idx xs < idx + length xs
unfolding first_index
first_index-bound p idx [] h = omega arith
first_index-bound p idx (x ∷ xs) h = ground (arith, first_index-bound p (suc idx) xs)

small_index {ℓ} :
    {A : Type ℓ} (p : A → Bool) (xs : List A) (n : ℕ)
    → 0 < n
    → length xs ≤ n
    → first_index p 0 xs < n
unfolding first_index
small_index p [] n h l = omega arith
small_index p (x ∷ xs) n h l = ground (arith, first_index-bound p 0 (x ∷ xs))

-- What a partitioner's lists must fit for its shard numbers to exist.
abbrev pub Fits : Partitioner → ℕ → Type 0
Fits (by_hash hash_fn) n = Unit
Fits (by_range ranges) n = length ranges ≤ n
Fits (by_list keys) n = length keys ≤ n
Fits (by_time interval) n = Unit

-- The first index whose element passes, from where the search starts.
first_index-passes {ℓ} :
    {A : Type ℓ} (p : A → Bool) (idx : ℕ) (xs : List A) (i : ℕ) (x : A)
    → get_elem? xs i ≡ some x
    → p x ≡ true
    → (j : ℕ) × (y : A) × (first_index p idx xs ≡ idx + j)
      × (get_elem? xs j ≡ some y)
      × (p y ≡ true)
      × (j ≤ i)
unfolding first_index
first_index-passes p idx [] i x e h = cc
first_index-passes p idx (y ∷ ys) zero x e h =
    let passes : p y ≡ true = subst (λ z. p z ≡ true) (sym (some-injective y x e)) h in
    (0, y, rw (passes, first_index) (omega arith), refl, passes, omega arith)
first_index-passes p idx (y ∷ ys) (suc i) x e h = elim (Bool-cases (p y)) [
  | inl passes ↦ (0, y, rw (passes, first_index) (omega arith), refl, passes, omega arith)
  | inr fails ↦
      let (j, z, at, elem, ok, le) = first_index-passes p (suc idx) ys i x e h in
      (suc j, z, rw (fails, first_index) (omega arith), elem, ok, omega arith)
]

-- A key that lies in the range `i` of at most `2 ^ 32` ranges goes to a shard whose range it lies in,
-- and to none after `i`.
pub get_shard_number-range :
    (ranges : List (Bytes × Bytes)) (key : Bytes) (n i : ℕ) (x : Bytes × Bytes)
    → length ranges ≤ 2 ^ 32
    → get_elem? ranges i ≡ some x
    → in_range key x ≡ true
    → (j : ℕ) × (y : Bytes × Bytes) × (get_shard_number (by_range ranges) key n ≡ some j)
      × (get_elem? ranges j ≡ some y)
      × (in_range key y ≡ true)
      × (j ≤ i)
unfolding get_shard_number
get_shard_number-range ranges key n i x l e h =
    let (j, y, at, elem, ok, le) = first_index-passes (in_range key) 0 ranges i x e h in
    let small : j < length ranges = lt_of_get_elem? ranges j y elem in
    (j, y, rw at (ap some (omega arith)), elem, ok, le)

abbrev pub TimePanics : Option ℕ → ℕ → ℕ → Type 0
TimePanics none i n = ⊥
TimePanics (some u) i n = (n ≡ 0) ⊎ ((i ≡ 0) ⊎ ((u ≡ 2 ^ 63) × (i ≡ 2 ^ 64 - 1)))

-- When the code panics: no shards to choose from, an interval of 0, or a quotient that overflows.
abbrev pub Panics : Partitioner → Bytes → ℕ → Type 0
Panics (by_hash f) key n = n ≡ 0
Panics (by_range rs) key n = ⊥
Panics (by_list ks) key n = ⊥
Panics (by_time i) key n = TimePanics (be_u64 8 0 key) i n

-- The interval is a `u64`.
abbrev pub IsWord : Partitioner → Type 0
IsWord (by_time i) = i < 2 ^ 64
IsWord (by_hash f) = Unit
IsWord (by_range rs) = Unit
IsWord (by_list ks) = Unit

quotient_full : (a b : ℕ) → a ≤ 2 ^ 63 → a / b ≡ 2 ^ 63 → (a ≡ 2 ^ 63) × (b ≡ 1)
quotient_full a zero h e = absurd (omega (arith, div-zero a))
quotient_full a (suc b) h e =
    let product : 2 ^ 63 * suc b ≤ a = rw e at (div-mul-le_self a (suc b)) in omega arith

time_panics : (o : Option ℕ) (i n : ℕ) → i < 2 ^ 64 → (time_shard o i n ≡ none) ↔ TimePanics o i n
time_panics none i n h = ground arith
time_panics (some u) i n h =
    let full = quotient_full (to_i64 u).magnitude (to_i64 i).magnitude (ground arith) in
    (λ e. ground (arith, full), λ c. ground (arith, full))

-- With an interval of 64 bits, looking up a shard panics exactly where there are no shards to hash a
-- key to, or a key long enough for a timestamp meets no shards, an interval of 0, or the least
-- timestamp and an interval of -1.
pub get_shard_number-Panics :
    (p : Partitioner) (key : Bytes) (n : ℕ)
    → IsWord p
    → (get_shard_number p key n ≡ none) ↔ Panics p key n
unfolding get_shard_number
get_shard_number-Panics (by_hash f) key n w = ground arith
get_shard_number-Panics (by_range rs) key n w = ground arith
get_shard_number-Panics (by_list ks) key n w = ground arith
get_shard_number-Panics (by_time i) key n w = time_panics (be_u64 8 0 key) i n w

shard_below :
    (p : Partitioner) (key : Bytes) (n r : ℕ)
    → 0 < n
    → n < 2 ^ 32
    → Fits p n
    → get_shard_number p key n ≡ some r
    → r < n
unfolding get_shard_number
shard_below (by_hash f) key n r h l fit e = ground arith
shard_below (by_range rs) key n r h l fit e = ground (arith, small_index (in_range key) rs n h fit)
shard_below (by_list ks) key n r h l fit e = ground (arith, small_index (in_list key) ks n h fit)
shard_below (by_time i) key n r h l fit e = ground arith

-- Where the lookup of a key's shard does not panic, for a number of shards that is not 0 and has 32
-- bits, an interval of 64 bits, and a list of ranges or of keys with at most as many elements as
-- there are shards, it gives a number below the number of shards.
pub get_shard_number-lt :
    (p : Partitioner) (key : Bytes) (n : ℕ)
    → 0 < n
    → n < 2 ^ 32
    → Fits p n
    → IsWord p
    → ¬ Panics p key n
    → (r : ℕ) × (get_shard_number p key n ≡ some r) × (r < n)
get_shard_number-lt p key n h l fit w safe = elim (Option-cases (get_shard_number p key n)) [
  | inl none_left ↦ absurd (safe ((get_shard_number-Panics p key n w).0 none_left))
  | inr (r, e) ↦ (r, e, shard_below p key n r h l fit e)
]
