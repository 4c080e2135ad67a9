-- ===== src/Tree/Tests.antt =====
-- The functions of tree.js on the trees that its comments draw.
use htrace.Common.{ℕ, ◌+◌, ◌<◌, ◌≡◌, refl, ◌↔◌, List, [], ◌∷◌, Memᴰ, arith}
use htrace.Tree.{tree_height, tree_traverse_depth_first_pre, tree_traverse_depth_first_post}
use htrace.Tree.Visits.{Below}
use htrace.Tree.Fuel.{IsRanked}
use htrace.Tree.Walks.{note, pre-calls_iff}

data Node : Type 0 where
  one two three four five : Node

abbrev drawn : Node → List Node
drawn five = three ∷ four ∷ []
drawn three = one ∷ two ∷ []
drawn _ = []

abbrev rank : Node → ℕ
rank five = 2
rank three = 1
rank _ = 0

drawn-falls : (n d : Node) → Memᴰ d (drawn n) → rank d < rank n
drawn-falls five d (Memᴰ.head e) = rw e (omega arith)
drawn-falls five d (Memᴰ.tail (Memᴰ.head e)) = rw e (omega arith)
drawn-falls three d (Memᴰ.head e) = rw e (omega arith)
drawn-falls three d (Memᴰ.tail (Memᴰ.head e)) = rw e (omega arith)
drawn-falls five d (Memᴰ.tail (Memᴰ.tail m)) = elim m [ ]
drawn-falls three d (Memᴰ.tail (Memᴰ.tail m)) = elim m [ ]
drawn-falls one d m = elim m [ ]
drawn-falls two d m = elim m [ ]
drawn-falls four d m = elim m [ ]

drawn-IsRanked : IsRanked drawn rank
drawn-IsRanked = record { falls = drawn-falls }

post_order :
    tree_traverse_depth_first_post drawn 3 five 0 note []
    ≡ (one, 2) ∷ (two, 2) ∷ (three, 1) ∷ (four, 1) ∷ (five, 0) ∷ []
unfolding tree_traverse_depth_first_post
post_order = refl

pre_order :
    tree_traverse_depth_first_pre drawn 3 five 0 note []
    ≡ (five, 0) ∷ (three, 1) ∷ (one, 2) ∷ (two, 2) ∷ (four, 1) ∷ []
unfolding tree_traverse_depth_first_pre
pre_order = refl

height : tree_height drawn 3 five ≡ 2
unfolding tree_height
height = refl

pre-calls_iff_example :
    Memᴰ (two, 2) (tree_traverse_depth_first_pre drawn 3 five 0 note [])
    ↔ ((k : ℕ) × Below drawn five two k × (2 ≡ 0 + k))
pre-calls_iff_example = pre-calls_iff drawn rank drawn-IsRanked 3 five 0 two 2 (omega arith)
