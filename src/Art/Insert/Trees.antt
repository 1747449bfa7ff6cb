-- ===== src/Art/Insert/Trees.antt =====
-- What the tree of nanograph-art/src/tree.rs is below a path, for the theorems on `insert`.
use nanograph.Prelude.{ℕ, ◌<◌, ◌≡◌, false, some, [], ◌∷◌, ◌++◌, length, if◌then◌else◌}
use nanograph.Bytes.{Bytes, same}
use nanograph.BTree.Entries.{All}
use nanograph.Art.Node.{Node, leaf, is_leaf, partial_of, find_child}
use nanograph.Art.Children.Found.{IsIndexed}
use nanograph.Art.Insert.Seek.{strip, seek}

abbrev pub IsBytes : Bytes → Type 0
IsBytes = All (λ b. b < 256)

-- The nodes are indexed, and the key of each leaf begins with the bytes on the path to it.
pub data IsTree (V : Type 0) : Bytes → Node V → Type 0 where
  leaf_tree : (path k rest : Bytes) (v : V) → k ≡ path ++ rest → IsTree V path (leaf k v)
  inner_tree :
      (path : Bytes) (n : Node V)
      → is_leaf n ≡ false
      → IsIndexed n
      → ((b : ℕ) (c : Node V)
          → b < 256
          → find_child n b ≡ some c
          → IsTree V (path ++ (partial_of n ++ b ∷ [])) c)
      → IsTree V path n

-- What is left of a key ends within the partial key of a node on its way.
pub data EndsInside (V : Type 0) : Bytes → Node V → Type 0 where
  ends_here :
      (r : Bytes) (n : Node V) (a : ℕ) (s : Bytes) → partial_of n ≡ r ++ a ∷ s → EndsInside V r n
  ends_below :
      (r r' : Bytes) (n c : Node V) (b : ℕ)
      → is_leaf n ≡ false
      → strip (partial_of n) r ≡ some (b ∷ r')
      → find_child n b ≡ some c
      → EndsInside V r' c
      → EndsInside V r n

-- Below a path, every key finds in `m` what it finds in `n`, and `v` if what is left of it is `r`.
abbrev pub Reads : {V : Type 0} → Bytes → Bytes → V → Node V → Node V → Type 0
Reads path r v n m =
    (g : ℕ) (qk rq : Bytes)
    → length rq < g
    → qk ≡ path ++ rq
    → seek g qk m rq ≡ (if same r rq then some v else seek g qk n rq)
