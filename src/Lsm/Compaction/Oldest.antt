-- ===== src/Lsm/Compaction/Oldest.antt =====
-- Which entry of a key a compaction of nanograph-lsm/src/compaction.rs keeps.
use nanograph.Prelude.{
  ℕ, ◌+◌, ◌*◌, ◌≤◌, ◌≡◌, ◌⊎◌, inl, inr, refl, sym, ◌∙◌, subst, none, some, Bool, false, List, [],
  ◌∷◌, ◌++◌, ltb, Bool-cases, arith,
}
use nanograph.BTree.Entries.{All, All-imp}
use nanograph.Bytes.{Bytes}
use nanograph.Lsm.MemTable.{Entry}
use nanograph.Lsm.Compaction.{filter_from, deduplicate_and_filter, batches, execute}
use nanograph.Lsm.Compaction.Merged.{count, count_all, merge_sstables_total}
use nanograph.Lsm.Compaction.Batched.{joined, batches-AllFit}
use nanograph.Lsm.Compaction.Order.{IsOrdered, merge_sstables-IsOrdered}
use nanograph.Lsm.Compaction.Filtered.{
  has_key, deletes, is_older, deduplicated-NoneOlder, filter_from-has_key,
}

count_none : (p : Entry → Bool) (es : List Entry) → All (λ e. p e ≡ false) es → count p es ≡ 0
count_none p [] h = refl
count_none p (e ∷ es) (h, hs) = rw h (omega (arith, count_none p es hs))

-- Where every table has its entries in ascending order, by key and then by sequence number, the
-- compaction ends, and every entry that it writes is the oldest of its key: no table has an entry of
-- that key with a smaller sequence number. For each key, either the tables have no entry of it, or
-- they have a deletion of it, or an entry of it is written.
pub execute-NoneOlder :
    (block_size : ℕ) (source target : List (List Entry))
    → All IsOrdered (source ++ target)
    → (out : List (List Entry)) × (execute block_size source target ≡ some out)
      × All (λ o. count_all (is_older o) source + count_all (is_older o) target ≡ 0) (joined out)
      × ((k : Bytes)
          → (count_all (has_key k) source + count_all (has_key k) target ≡ 0)
            ⊎ (1 ≤ count_all (deletes k) source + count_all (deletes k) target)
            ⊎ (1 ≤ count (has_key k) (joined out)))
unfolding execute deduplicate_and_filter
execute-NoneOlder block_size source target h =
    let (es, made, counted) = merge_sstables_total source target in
    let kept = deduplicate_and_filter es in
    let out = batches (block_size * 1024) [] 0 kept in
    let whole : joined out ≡ kept = (batches-AllFit (block_size * 1024) kept).0 in
    let oldest = deduplicated-NoneOlder es (merge_sstables-IsOrdered source target es h made) in
    (
      out,
      rw made refl,
      subst (All _) (sym whole) (
          All-imp {A = Entry} (λ o n. sym (counted (is_older o)) ∙ count_none (is_older o) es n)
            kept oldest),
      λ k. written k es kept (joined out) (counted (has_key k)) (counted (deletes k)) whole refl,
    )
  where
    written :
        (k : Bytes) (es kept all : List Entry)
        → count (has_key k) es ≡ count_all (has_key k) source + count_all (has_key k) target
        → count (deletes k) es ≡ count_all (deletes k) source + count_all (deletes k) target
        → all ≡ kept
        → kept ≡ filter_from none es
        → (count_all (has_key k) source + count_all (has_key k) target ≡ 0)
          ⊎ (1 ≤ count_all (deletes k) source + count_all (deletes k) target)
          ⊎ (1 ≤ count (has_key k) all)
    written k es kept all a b w f = elim (Bool-cases (ltb 0 (count (has_key k) es))) [
      | inr none_there ↦ inl (ground (arith, a, none_there))
      | inl there ↦ elim (Bool-cases (ltb 0 (count (deletes k) es))) [
        | inl deleted ↦ inr (inl (ground (arith, b, deleted)))
        | inr not_deleted ↦ inr (
            inr (
              subst (λ xs. 1 ≤ count (has_key k) xs) (sym (w ∙ f))
                (filter_from-has_key k none es refl (ground (arith, not_deleted))
                  (ground (arith, there)))))
      ]
    ]
