-- ===== src/ProcessTree.antt =====
-- The processes below a process: `descendants_root_first` of
-- crates/agentplug-host/src/process_tree.rs. The map from a process to its parent is a list of pairs.
pub mod Reach
mod Examples
use agentplug.Base.{
  ℕ, zero, suc, ◌+◌, ◌==◌, Bool, true, false, List, [], ◌∷◌, ◌++◌, Option, none, some,
  if◌then◌else◌, length, any,
}

-- `children.get(&pid)`: the entries of the map whose parent is the process, in the map's order.
pub children : List (ℕ × ℕ) → ℕ → List ℕ
children [] pid = []
children ((child, parent) ∷ parent_of) pid =
    if parent == pid then child ∷ children parent_of pid else children parent_of pid

abbrev pub contains : ℕ → List ℕ → Bool
contains pid visited = any (λ x. x == pid) visited

-- The loop over the queue; the fuel counts its turns, and nothing is the answer when it runs out.
pub walk : ℕ → List (ℕ × ℕ) → List ℕ → List ℕ → List ℕ → Option (List ℕ)
unfolding children
walk fuel parent_of [] visited order = some order
walk zero parent_of (pid ∷ queue) visited order = none
walk (suc fuel) parent_of (pid ∷ queue) visited order = elim (contains pid visited) [
  | true ↦ walk fuel parent_of queue visited order
  | false ↦
      walk fuel parent_of (queue ++ children parent_of pid) (pid ∷ visited) (order ++ pid ∷ [])
]

-- Each entry of the map is in the queue once at most, and the root once more.
pub descendants_root_first : ℕ → List (ℕ × ℕ) → Option (List ℕ)
unfolding walk
descendants_root_first root parent_of = walk (suc (length parent_of)) parent_of (root ∷ []) [] []
