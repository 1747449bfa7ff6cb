-- ===== src/Lsm/Compaction/Filtered.antt =====
-- What `deduplicate_and_filter` of nanograph-lsm/src/compaction.rs keeps of entries in order.
use Prim.Native.Nat.Ordering.{eq}
use nanograph.Prelude.{
  ℕ, ◌≤◌, ◌≡◌, ◌⊎◌, inl, inr, refl, ap, sym, subst, Option, some, Bool, true, false, ◌&&◌, List, [],
  ◌∷◌, ltb, Ordering-cases, Bool-cases, arith,
}
use nanograph.BTree.Entries.{All, All-imp}
use nanograph.Bytes.{Bytes, ◌≺◌, cmp, cmp_refl, eq_of_cmp, gt_of_lt, lt_trans, same}
use nanograph.Lsm.MemTable.{Entry, is_deletion}
use nanograph.Lsm.Compaction.{is_previous, filter_from, deduplicate_and_filter}
use nanograph.Lsm.Compaction.Merged.{count}
use nanograph.Lsm.Compaction.Order.{ComesFirst, IsOrderedFrom, IsOrdered, ComesFirst-trans}

-- Entries of a key, the deletions among them, and the entries of an entry's key that are older.
abbrev pub has_key : Bytes → Entry → Bool
has_key k e = same k e.key

abbrev pub deletes : Bytes → Entry → Bool
deletes k e = same k e.key && is_deletion e

abbrev pub is_older : Entry → Entry → Bool
is_older o e = same o.key e.key && ltb e.sequence o.sequence

abbrev pub NoneOlder : Entry → List Entry → Type 0
NoneOlder o es = All (λ e. is_older o e ≡ false) es

same_false_of_lt : (a b : Bytes) → a ≺ b → (same a b ≡ false) × (same b a ≡ false)
same_false_of_lt a b h = (
  ap (λ o. elim o [ eq ↦ true | _ ↦ false ]) h,
  ap (λ o. elim o [ eq ↦ true | _ ↦ false ]) (gt_of_lt a b h),
)

same_true : (a b : Bytes) → same a b ≡ true → a ≡ b
same_true a b h = elim (Ordering-cases (cmp a b)) [
  | inl l ↦ absurd (ground (arith, h, l))
  | inr (inl e) ↦ eq_of_cmp a b e
  | inr (inr g) ↦ absurd (ground (arith, h, g))
]

leq_refl : (n : ℕ) → n ≤ n
leq_refl n = omega arith

-- An entry that comes first has no older one behind it.
first-is_older : (a b : Entry) → ComesFirst a b → is_older a b ≡ false
first-is_older a b (inl l) = rw ((same_false_of_lt a.key b.key l).0) refl
first-is_older a b (inr (e, s)) =
    let no : ltb b.sequence a.sequence ≡ false = ground (arith, s) in
    rw no (and_no (same a.key b.key))
  where
    and_no : (b : Bool) → (b && false) ≡ false
    and_no true = refl
    and_no false = refl

above-is_older : (a b : Entry) → b.key ≺ a.key → is_older a b ≡ false
above-is_older a b l = rw ((same_false_of_lt b.key a.key l).1) refl

firsts_of : (x : Entry) (es : List Entry) → IsOrderedFrom x es → All (ComesFirst x) es
firsts_of x [] h = tt
firsts_of x (e ∷ es) (h, hs) =
    (h, All-imp {A = Entry} (λ y k. ComesFirst-trans x e y h k) es (firsts_of e es hs))

-- What is kept of ordered entries, behind entries whose keys are at most the previous one: nothing is
-- older than a kept entry.
filter_from-NoneOlder :
    (passed : List Entry) (x : Entry) (es : List Entry)
    → All (λ y. (y.key ≺ x.key) ⊎ (y.key ≡ x.key)) passed
    → IsOrderedFrom x es
    → All (λ o. NoneOlder o passed × NoneOlder o es) (filter_from (some x.key) es)
unfolding filter_from
filter_from-NoneOlder passed x [] p o = tt
filter_from-NoneOlder passed x (e ∷ es) p (h, hs) = elim (Bool-cases (same x.key e.key)) [
  | inl t ↦
      let here : x.key ≡ e.key = same_true x.key e.key t in
      let later =
        filter_from-NoneOlder (e ∷ passed) e es
          (
            inr refl,
            All-imp {A = Entry} (λ y k. subst (λ q. (y.key ≺ q) ⊎ (y.key ≡ q)) here k) passed p,
          )
          hs in
      rw t (
        subst (λ q. All (λ o. NoneOlder o passed × NoneOlder o (e ∷ es)) (filter_from (some q) es))
          (sym here)
          (All-imp {A = Entry} (λ o n. (n.0.1, (n.0.0, n.1))) (filter_from (some e.key) es) later))
  | inr t ↦
      let above : x.key ≺ e.key = strictly h t in
      let below : All (λ y. y.key ≺ e.key) passed =
        All-imp {A = Entry} (λ y k. at_most y k above) passed p in
      let later =
        All-imp {A = Entry} (λ o n. (n.0.1, (n.0.0, n.1))) (filter_from (some e.key) es)
          (filter_from-NoneOlder (e ∷ passed) e es
            (inr refl, All-imp {A = Entry} (λ y k. inl k) passed below) hs) in
      let this : NoneOlder e passed × NoneOlder e (e ∷ es) = (
        All-imp {A = Entry} (λ y k. above-is_older e y k) passed below,
        (
          first-is_older e e (inr (cmp_refl e.key, leq_refl e.sequence)),
          All-imp {A = Entry} (λ y k. first-is_older e y k) es (firsts_of e es hs),
        ),
      ) in
      elim (Bool-cases (is_deletion e)) [
        | inl d ↦ rw (t, d) later
        | inr d ↦ rw (t, d) (this, later)
      ]
]
  where
    strictly : ComesFirst x e → same x.key e.key ≡ false → x.key ≺ e.key
    strictly (inl l) t = l
    strictly (inr (s, _)) t = absurd (ground (arith, s, t))

    at_most : (y : Entry) → (y.key ≺ x.key) ⊎ (y.key ≡ x.key) → x.key ≺ e.key → y.key ≺ e.key
    at_most y (inl l) k = lt_trans y.key x.key e.key l k
    at_most y (inr s) k = subst (λ q. q ≺ e.key) (sym s) k

pub deduplicated-NoneOlder :
    (es : List Entry) → IsOrdered es → All (λ o. NoneOlder o es) (deduplicate_and_filter es)
unfolding deduplicate_and_filter filter_from
deduplicated-NoneOlder [] h = tt
deduplicated-NoneOlder (e ∷ es) h =
    let later : All (λ o. NoneOlder o (e ∷ es)) (filter_from (some e.key) es) =
      All-imp {A = Entry} (λ o n. (n.0.0, n.1)) (filter_from (some e.key) es)
        (filter_from-NoneOlder (e ∷ []) e es (inr refl, tt) h) in
    let this : NoneOlder e (e ∷ es) = (
      first-is_older e e (inr (cmp_refl e.key, leq_refl e.sequence)),
      All-imp {A = Entry} (λ y k. first-is_older e y k) es (firsts_of e es h),
    ) in
    elim (Bool-cases (is_deletion e)) [ inl d ↦ rw d later | inr d ↦ rw d (this, later) ]

-- A key that has entries, none of them a deletion, is not filtered out.
pub filter_from-has_key :
    (k : Bytes) (prev : Option Bytes) (es : List Entry)
    → is_previous prev k ≡ false
    → count (deletes k) es ≡ 0
    → 1 ≤ count (has_key k) es
    → 1 ≤ count (has_key k) (filter_from prev es)
unfolding filter_from
filter_from-has_key k prev [] n z h = h
filter_from-has_key k prev (e ∷ es) n z h = elim (Bool-cases (same k e.key)) [
  | inl t ↦
      let here : k ≡ e.key = same_true k e.key t in
      let new_key : is_previous prev e.key ≡ false =
        subst (λ q. is_previous prev q ≡ false) here n in
      elim (Bool-cases (is_deletion e)) [
        | inl d ↦ absurd (ground (arith, z, t, d))
        | inr d ↦ rw (new_key, d, t) (omega arith)
      ]
  | inr t ↦
      let z' : count (deletes k) es ≡ 0 = ground (arith, z) in
      let h' : 1 ≤ count (has_key k) es = ground (arith, h, t) in
      let later = filter_from-has_key k (some e.key) es (same_back t) z' h' in
      elim (Bool-cases (is_previous prev e.key)) [
        | inl p ↦ rw p (filter_from-has_key k prev es n z' h')
        | inr p ↦ elim (Bool-cases (is_deletion e)) [
          | inl d ↦ rw (p, d) later
          | inr d ↦ rw (p, d) (omega (arith, later))
        ]
      ]
]
  where
    same_back : same k e.key ≡ false → same e.key k ≡ false
    same_back t = elim (Bool-cases (same e.key k)) [
      | inl u ↦ absurd (
          cc (
            t,
            subst (λ q. same q e.key ≡ true) (same_true e.key k u)
                (ap (λ o. elim o [ eq ↦ true | _ ↦ false ]) (cmp_refl e.key)),
          ))
      | inr u ↦ u
    ]
