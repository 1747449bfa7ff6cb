-- ===== src/Art/Children/Arrays.antt =====
-- What the loops over the arrays of a node do, in nanograph-art/src/tree.rs and node.rs: the search
-- for a key byte, and the place that is made for another.
use nanograph.Prelude.{
  ℕ, zero, suc, ◌+◌, ◌-◌, ◌/◌, ◌≤◌, ◌<◌, ◌≡◌, ◌≢◌, inl, inr, refl, sym, ap, ◌∙◌, Option, none, some,
  ◌&&◌, ltb, leb, ◌==◌, if◌then◌else◌, Bool-cases, arith,
}
use nanograph.Art.Node.{update, find_byte, bisect}
use nanograph.Art.Children.{insert_position, shift_right}

-- The first `n` keys have no key twice.
abbrev pub Distinct : ℕ → (ℕ → ℕ) → Type 0
Distinct n ks = (i j : ℕ) → i < n → j < n → ks i ≡ ks j → i ≡ j

abbrev pub Ascending : ℕ → (ℕ → ℕ) → Type 0
Ascending n ks = (i j : ℕ) → i < j → j < n → ks i < ks j

-- What a search for `b` among the first `n` keys should find.
abbrev pub Finds : (ℕ → ℕ) → ℕ → ℕ → Option ℕ → Type 0
Finds ks n b none = (j : ℕ) → j < n → ks j ≢ b
Finds ks n b (some j) = (j < n) × (ks j ≡ b)

-- The array with `x` put in at `p`.
abbrev pub put_in : {A : Type 0} → ℕ → A → (ℕ → A) → ℕ → A
put_in p x a j = if ltb j p then a j else if j == p then x else a (j - 1)

pub Ascending-Distinct : (n : ℕ) (ks : ℕ → ℕ) → Ascending n ks → Distinct n ks
Ascending-Distinct n ks h i j l m e = ground (arith, h i j, h j i)

pub Finds-unique :
    (ks : ℕ → ℕ) (n b : ℕ) (o o' : Option ℕ)
    → Distinct n ks
    → Finds ks n b o
    → Finds ks n b o'
    → o ≡ o'
Finds-unique ks n b none none d f g = refl
Finds-unique ks n b none (some j) d f g = absurd (f j g.0 g.1)
Finds-unique ks n b (some i) none d f g = absurd (g i f.0 f.1)
Finds-unique ks n b (some i) (some j) d f g = ap some (d i j f.0 g.0 (f.1 ∙ sym g.1))

-- A search of keys that agree.
pub Finds-agree :
    (ks ks' : ℕ → ℕ) (n b : ℕ) (o : Option ℕ)
    → ((j : ℕ) → j < n → ks' j ≡ ks j)
    → Finds ks n b o
    → Finds ks' n b o
Finds-agree ks ks' n b none e f = λ j l h. f j l (sym (e j l) ∙ h)
Finds-agree ks ks' n b (some i) e f = (f.0, e i f.0 ∙ f.1)

-- The range that a search still has to look at.
abbrev Within : (ℕ → ℕ) → ℕ → ℕ → ℕ → Option ℕ → Type 0
Within ks i k b none = (j : ℕ) → i ≤ j → j < k → ks j ≢ b
Within ks i k b (some j) = (i ≤ j) × (j < k) × (ks j ≡ b)

Within-later :
    (ks : ℕ → ℕ) (i i' k k' b : ℕ) (o : Option ℕ)
    → i ≤ i'
    → k' ≤ k
    → ((j : ℕ) → i ≤ j → j < k → ks j ≡ b → (i' ≤ j) × (j < k'))
    → Within ks i' k' b o
    → Within ks i k b o
Within-later ks i i' k k' b none h l skip w = λ j a c e. let (x, y) = skip j a c e in w j x y e
Within-later ks i i' k k' b (some j) h l skip (x, y, e) = (omega arith, omega arith, e)

find_byte-Within : (ks : ℕ → ℕ) (b i n k : ℕ) → k ≡ i + n → Within ks i k b (find_byte ks b i n)
unfolding find_byte
find_byte-Within ks b i zero k e = λ j a c. absurd (omega arith)
find_byte-Within ks b i (suc n) k e = elim (Bool-cases (ks i == b)) [
  | inl hit ↦ rw hit (omega arith, omega arith, ground arith)
  | inr miss ↦ rw miss (
      Within-later ks i (suc i) k k b (find_byte ks b (suc i) n) (omega arith) (omega arith)
        (λ j a c h. ground arith) (find_byte-Within ks b (suc i) n k (omega arith)))
]

Within-Finds : (ks : ℕ → ℕ) (n b : ℕ) (o : Option ℕ) → Within ks 0 n b o → Finds ks n b o
Within-Finds ks n b none w = λ j l. w j (omega arith) l
Within-Finds ks n b (some j) w = (w.1, w.2)

pub find_byte-Finds : (ks : ℕ → ℕ) (n b : ℕ) → Finds ks n b (find_byte ks b 0 n)
find_byte-Finds ks n b = Within-Finds ks n b _ (find_byte-Within ks b 0 n n (omega arith))

bisect-Within :
    (ks : ℕ → ℕ) (b n fuel left right : ℕ)
    → Ascending n ks
    → right ≤ n
    → right < left + fuel
    → Within ks left right b (bisect fuel ks b left right)
unfolding bisect
bisect-Within ks b n zero left right s l h = λ j a c. absurd (omega arith)
bisect-Within ks b n (suc fuel) left right s l h = elim (Bool-cases (ltb left right)) [
  | inr end ↦ rw end (λ j a c. absurd (ground arith))
  | inl more ↦
      let mid = (left + right) / 2 in
      let inside : (left ≤ mid) × (mid < right) = ground arith in
      rw more (elim (Bool-cases (ltb (ks mid) b)) [
        | inl up ↦ rw up (
            Within-later ks left (suc mid) right right b (bisect fuel ks b (suc mid) right)
              (omega arith) (omega arith) (λ j a c e. ground (arith, s j mid))
              (bisect-Within ks b n fuel (suc mid) right s l (omega arith)))
        | inr not_up ↦ rw not_up (elim (Bool-cases (ltb b (ks mid))) [
          | inl down ↦ rw down (
              Within-later ks left left right mid b (bisect fuel ks b left mid) (omega arith)
                (omega arith) (λ j a c e. ground (arith, s mid j))
                (bisect-Within ks b n fuel left mid s (omega arith) (omega arith)))
          | inr hit ↦ rw hit (inside.0, inside.1, ground arith)
        ])
      ])
]

-- On ascending keys the binary search finds what is there, with one round more than the keys.
pub bisect-Finds : (ks : ℕ → ℕ) (n b : ℕ) → Ascending n ks → Finds ks n b (bisect (suc n) ks b 0 n)
bisect-Finds ks n b s =
    Within-Finds ks n b _ (bisect-Within ks b n (suc n) 0 n s (omega arith) (omega arith))

pub shift_right_lem :
    {A : Type 0} (p n : ℕ) (a : ℕ → A) (j : ℕ)
    → shift_right p n a j ≡ (if ltb p j && leb j (p + n) then a (j - 1) else a j)
unfolding shift_right
shift_right_lem p zero a j = ground arith
shift_right_lem p (suc n) a j =
    shift_right_lem p n (update a (suc (p + n)) (a (p + n))) j ∙ ground arith

-- The loop that makes a place, and the write to it, put the element in.
pub update-shift_right :
    {A : Type 0} (p n : ℕ) (a : ℕ → A) (x : A) (j : ℕ)
    → p ≤ n
    → j ≤ n
    → update (shift_right p (n - p) a) p x j ≡ put_in p x a j
update-shift_right p n a x j h l = ground (arith, shift_right_lem p (n - p) a j)

-- Where a key is put in: behind the keys that are not larger.
insert_position-bounds :
    (ks : ℕ → ℕ) (b i n : ℕ) → (i ≤ insert_position ks b i n) × (insert_position ks b i n ≤ i + n)
unfolding insert_position
insert_position-bounds ks b i zero = (omega arith, omega arith)
insert_position-bounds ks b i (suc n) = ground (arith, insert_position-bounds ks b (suc i) n)

insert_position-below : (ks : ℕ → ℕ) (b i n j : ℕ) → i ≤ j → j < insert_position ks b i n → ks j ≤ b
unfolding insert_position
insert_position-below ks b i zero j h l = absurd (omega arith)
insert_position-below ks b i (suc n) j h l = ground (arith, insert_position-below ks b (suc i) n j)

insert_position-above :
    (ks : ℕ → ℕ) (b i n : ℕ) → insert_position ks b i n < i + n → b < ks (insert_position ks b i n)
unfolding insert_position
insert_position-above ks b i zero l = absurd (omega arith)
insert_position-above ks b i (suc n) l = ground (arith, insert_position-above ks b (suc i) n)

pub insert_position-le : (ks : ℕ → ℕ) (b n : ℕ) → insert_position ks b 0 n ≤ n
insert_position-le ks b n = omega (arith, (insert_position-bounds ks b 0 n).1)

-- A new key keeps the keys ascending.
pub put_in-Ascending :
    (ks : ℕ → ℕ) (b n : ℕ)
    → Ascending n ks
    → ((j : ℕ) → j < n → ks j ≢ b)
    → Ascending (n + 1) (put_in (insert_position ks b 0 n) b ks)
put_in-Ascending ks b n s new i j h l =
    let p = insert_position ks b 0 n in
    let p_le : p ≤ n = insert_position-le ks b n in
    let below : (k : ℕ) → k < p → ks k ≤ b = λ k. insert_position-below ks b 0 n k (omega arith) in
    let over : p < n → b < ks p = λ m. insert_position-above ks b 0 n (omega (arith, m)) in
    ground (arith, s i j, s i (j - 1), s (i - 1) (j - 1), below i, new i, over, s p (j - 1))

pub put_in-Distinct :
    (ks : ℕ → ℕ) (p b n : ℕ)
    → Distinct n ks
    → ((j : ℕ) → j < n → ks j ≢ b)
    → p ≤ n
    → Distinct (n + 1) (put_in p b ks)
put_in-Distinct ks p b n d new h i j l m e = ground (
  arith,
  d i j,
  d (i - 1) j,
  d i (j - 1),
  d (i - 1) (j - 1),
  new i,
  new j,
  new (i - 1),
  new (j - 1),
)

-- Where a search finds what after the key `b` was put in.
abbrev pub moved : ℕ → ℕ → ℕ → Option ℕ → Option ℕ
moved p b q o =
    if b == q then some p else elim o [ none ↦ none | some j ↦ some (if ltb j p then j else suc j) ]

put_in-Finds_other :
    (ks : ℕ → ℕ) (p b n q : ℕ) (o : Option ℕ)
    → p ≤ n
    → b ≢ q
    → Finds ks n q o
    → Finds
        (put_in p b ks)
        (n + 1)
        q
        (elim o [ none ↦ none | some j ↦ some (if ltb j p then j else suc j) ])
put_in-Finds_other ks p b n q none h ne f = λ j l. ground (arith, f j, f (j - 1))
put_in-Finds_other ks p b n q (some i) h ne (l, e) = elim (Bool-cases (ltb i p)) [
  | inl t ↦ rw t (omega arith, ground arith)
  | inr t ↦ rw t (omega arith, ground arith)
]

pub put_in-Finds :
    (ks : ℕ → ℕ) (p b n q : ℕ) (o : Option ℕ)
    → p ≤ n
    → Finds ks n q o
    → Finds (put_in p b ks) (n + 1) q (moved p b q o)
put_in-Finds ks p b n q o h f = elim (Bool-cases (b == q)) [
  | inl e ↦ rw e (omega arith, ground arith)
  | inr e ↦ rw e (put_in-Finds_other ks p b n q o h (ground arith) f)
]
