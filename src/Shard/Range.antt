-- ===== src/Shard/Range.antt =====
-- `KeyRange` (nanograph-core/src/object/shard.rs).
use nanograph.Prelude.{
  ℕ, ◌+◌, ◌<◌, ◌≡◌, Option, none, some, [], ◌∷◌, ◌++◌, Bool, true, false, not, ◌&&◌, arith, ltb,
  ◌==◌, if◌then◌else◌,
}
use nanograph.Bytes.{Bytes, cmp, before}

-- `std::ops::Bound`.
pub data Bound : Type 0 where
  included excluded : Bytes → Bound
  unbounded : Bound

pub record KeyRange : Type 0 where
  pub start : Bound
  pub end : Bound
  pub limit : Option ℕ
  pub reverse : Bool

unfoldable pub new : Bound → Bound → KeyRange
new start end = record { start = start; end = end; limit = none; reverse = false }

abbrev pub all : KeyRange
unfolding new
all = new unbounded unbounded

unfoldable pub from_to : Bytes → Bytes → KeyRange
unfolding new
from_to start end = new (included start) (excluded end)

-- The end of a prefix scan: the last byte goes up by one, or a zero byte is pushed after a last byte
-- of 255. An empty prefix stays as it is.
unfoldable pub prefix_end : Bytes → Bytes
prefix_end [] = []
prefix_end (b ∷ []) = if ltb b 255 then (b + 1) ∷ [] else b ∷ 0 ∷ []
prefix_end (a ∷ b ∷ r) = a ∷ prefix_end (b ∷ r)

unfoldable pub prefix : Bytes → KeyRange
unfolding from_to prefix_end
prefix p = from_to p (prefix_end p)

unfoldable pub with_limit : KeyRange → ℕ → KeyRange
with_limit r limit = record r { limit = some limit }

unfoldable pub reversed : KeyRange → KeyRange
reversed r = record r { reverse = true }

-- Whether a key lies within the bounds, as `RangeBounds::contains` of the standard library has it.
abbrev above_start : Bound → Bytes → Bool
above_start (included b) key = not (before key b)
above_start (excluded b) key = before b key
above_start unbounded key = true

abbrev below_end : Bound → Bytes → Bool
below_end (included b) key = not (before b key)
below_end (excluded b) key = before key b
below_end unbounded key = true

unfoldable pub contains : KeyRange → Bytes → Bool
contains r key = above_start r.start key && below_end r.end key

-- The bytes of the first string begin the second.
unfoldable pub begins : Bytes → Bytes → Bool
begins [] key = true
begins (b ∷ p) [] = false
begins (b ∷ p) (k ∷ key) = (b == k) && begins p key

-- The last byte of a string, if there is one.
abbrev pub last_byte : Bytes → Option ℕ
last_byte [] = none
last_byte (b ∷ []) = some b
last_byte (a ∷ b ∷ r) = last_byte (b ∷ r)

within-prefix :
    (p key : Bytes) (b : ℕ)
    → last_byte p ≡ some b
    → b < 255
    → (not (before key p) && before key (prefix_end p)) ≡ begins p key
unfolding begins prefix_end cmp
within-prefix [] key b e h = cc
within-prefix (a ∷ []) [] b e h = ground arith
within-prefix (a ∷ []) (k ∷ []) b e h = ground arith
within-prefix (a ∷ []) (k ∷ l ∷ ks) b e h = ground arith
within-prefix (a ∷ c ∷ r) [] b e h = ground arith
within-prefix (a ∷ c ∷ r) (k ∷ ks) b e h = ground (arith, within-prefix (c ∷ r) ks b e h)

-- Where the last byte of a prefix is below 255, its range holds the keys that begin with it, and no
-- others.
pub contains-prefix :
    (p key : Bytes) (b : ℕ)
    → last_byte p ≡ some b
    → b < 255
    → contains (prefix p) key ≡ begins p key
unfolding contains prefix
contains-prefix p key b e h = within-prefix p key b e h

beyond-prefix :
    (p : Bytes) (x : ℕ) (xs : Bytes)
    → last_byte p ≡ some 255
    → before (p ++ x ∷ xs) (prefix_end p) ≡ false
unfolding prefix_end cmp
beyond-prefix [] x xs e = cc
beyond-prefix (a ∷ []) x [] e = ground arith
beyond-prefix (a ∷ []) x (y ∷ ys) e = ground arith
beyond-prefix (a ∷ c ∷ r) x xs e = ground (arith, beyond-prefix (c ∷ r) x xs e)

-- Where the last byte of a prefix is 255, its range holds no key that begins with it and is longer.
pub prefix-misses :
    (p : Bytes) (x : ℕ) (xs : Bytes)
    → last_byte p ≡ some 255
    → contains (prefix p) (p ++ x ∷ xs) ≡ false
unfolding contains prefix
prefix-misses p x xs e = ground (arith, beyond-prefix p x xs e)
