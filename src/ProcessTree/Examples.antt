-- ===== src/ProcessTree/Examples.antt =====
-- Concrete process trees of crates/agentplug-host/src/process_tree.rs.
use agentplug.Base.{ℕ, ◌≡◌, refl, List, [], ◌∷◌, some}
use agentplug.ProcessTree.{descendants_root_first}
use agentplug.ProcessTree.Reach.{IsTree, descendants_root_first-IsTree}

-- 5 and 7 are children of 3, 9 is a child of 7, and 4 and 8 are each other's parent.
abbrev parents : List (ℕ × ℕ)
parents = (5, 3) ∷ (9, 7) ∷ (7, 3) ∷ (4, 8) ∷ (8, 4) ∷ []

descendants_of_three : descendants_root_first 3 parents ≡ some (3 ∷ 5 ∷ 7 ∷ 9 ∷ [])
unfolding descendants_root_first
descendants_of_three = refl

-- A cycle ends too.
descendants_of_four : descendants_root_first 4 parents ≡ some (4 ∷ 8 ∷ [])
unfolding descendants_root_first
descendants_of_four = refl

descendants_root_first-IsTree_example :
    (answer : List ℕ) × (descendants_root_first 3 parents ≡ some answer) × IsTree 3 parents answer
descendants_root_first-IsTree_example = descendants_root_first-IsTree 3 parents
