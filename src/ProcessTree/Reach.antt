-- ===== src/ProcessTree/Reach.antt =====
-- The walk ends, and it visits each process below the root once and no other.
use agentplug.Base.{
  ℕ, zero, suc, ◌+◌, ◌≤◌, ◌≡◌, refl, sym, ap, subst, ◌==◌, ==_iff, leb, leb→le, true, false, not,
  ◌&&◌, List, [], ◌∷◌, ◌++◌, some, length, length-append, count, count-append, count-le-length,
  times, arith, Bool-cases, inl, inr, ◌↔◌,
}
use agentplug.ProcessTree.{children, contains, walk, descendants_root_first}

abbrev pub edges : ℕ → ℕ → List (ℕ × ℕ) → ℕ
edges child parent parent_of = count (λ (e : ℕ × ℕ). e.0 == child && e.1 == parent) parent_of

-- The root and what is reached from it by the entries of the map.
pub data Descends (root : ℕ) (parent_of : List (ℕ × ℕ)) : ℕ → Type 0 where
  itself : Descends root parent_of root
  child_of :
      {parent : ℕ} (child : ℕ)
      → Descends root parent_of parent
      → 1 ≤ edges child parent parent_of
      → Descends root parent_of child

children-times :
    (parent_of : List (ℕ × ℕ)) (c p : ℕ) → times c (children parent_of p) ≡ edges c p parent_of
unfolding children
children-times [] c p = refl
children-times ((d, q) ∷ parent_of) c p = ground (arith, children-times parent_of c p)

contains-times : (pid : ℕ) (visited : List ℕ) → contains pid visited ≡ leb 1 (times pid visited)
contains-times pid [] = refl
contains-times pid (x ∷ visited) = ground (arith, contains-times pid visited)

-- The entries whose parent is still to be visited.
abbrev unvisited : List (ℕ × ℕ) → List ℕ → ℕ
unvisited parent_of visited = count (λ (e : ℕ × ℕ). not (contains e.1 visited)) parent_of

unvisited-children :
    (parent_of : List (ℕ × ℕ)) (pid : ℕ) (visited : List ℕ)
    → contains pid visited ≡ false
    → unvisited parent_of (pid ∷ visited) + length (children parent_of pid)
      ≡ unvisited parent_of visited
unfolding children
unvisited-children [] pid visited new = refl
unvisited-children ((d, q) ∷ parent_of) pid visited new = elim (Bool-cases (q == pid)) [
  | inl same ↦
      let new' : contains q visited ≡ false =
        subst (λ p. contains p visited ≡ false) (sym ((==_iff q pid).0 same)) new in
      ground (arith, same, new', unvisited-children parent_of pid visited new)
  | inr differs ↦ ground (arith, differs, unvisited-children parent_of pid visited new)
]

module _ (root : ℕ) (parent_of : List (ℕ × ℕ)) where
  record IsWalking (queue visited order : List ℕ) : Type 0 where
    pub sound : (x : ℕ) → 1 ≤ times x queue + times x visited → Descends root parent_of x
    pub same : (x : ℕ) → times x order ≡ times x visited
    pub once : (x : ℕ) → times x visited ≤ 1
    pub closed :
        (c p : ℕ)
        → 1 ≤ edges c p parent_of
        → 1 ≤ times p visited
        → 1 ≤ times c visited + times c queue
    pub rooted : 1 ≤ times root visited + times root queue
    pub root_first : (rest : List ℕ) × (order ≡ root ∷ rest)

  skip-IsWalking :
      (pid : ℕ) (queue visited order : List ℕ)
      → contains pid visited ≡ true
      → IsWalking (pid ∷ queue) visited order
      → IsWalking queue visited order
  skip-IsWalking pid queue visited order seen v = record {
    sound = λ x h. v.sound x (omega (arith, h));
    same = v.same;
    once = v.once;
    closed = λ c p e h. ground (arith, v.closed c p e h, seen, contains-times pid visited);
    rooted = ground (arith, v.rooted, seen, contains-times pid visited);
    root_first = v.root_first;
  }

  queued :
      (x : ℕ) (queue : List ℕ) (pid : ℕ)
      → times x (queue ++ children parent_of pid) ≡ times x queue + times x (children parent_of pid)
  queued x queue pid = count-append (λ y. y == x) queue (children parent_of pid)

  visit-IsWalking :
      (pid : ℕ) (queue visited order : List ℕ)
      → contains pid visited ≡ false
      → IsWalking (pid ∷ queue) visited order
      → IsWalking (queue ++ children parent_of pid) (pid ∷ visited) (order ++ pid ∷ [])
  visit-IsWalking pid queue visited order new v = record {
    sound = λ x h. elim (Bool-cases (leb 1 (edges x pid parent_of))) [
      | inl is_child ↦ child_of x (v.sound pid (ground arith)) (leb→le 1 _ is_child)
      | inr no_child ↦
          v.sound x
            (ground (arith, h, no_child, queued x queue pid, children-times parent_of x pid))
    ];
    same = λ x. omega (arith, v.same x, count-append (λ y. y == x) order (pid ∷ []));
    once = λ x. ground (arith, v.once x, new, contains-times pid visited, (==_iff pid x).0);
    closed = λ c p e h. elim (Bool-cases (pid == p)) [
      | inl here ↦
          let e' : 1 ≤ edges c pid parent_of =
            subst (λ q. 1 ≤ edges c q parent_of) (sym ((==_iff pid p).0 here)) e in
          ground (arith, e', queued c queue pid, children-times parent_of c pid)
      | inr there ↦ ground (arith, there, h, v.closed c p e, queued c queue pid)
    ];
    rooted = ground (arith, v.rooted, queued root queue pid);
    root_first = (v.root_first.0 ++ pid ∷ [], ap (λ o. o ++ pid ∷ []) v.root_first.1);
  }

  -- Every process below the root is visited when nothing is left in the queue.
  visits-all :
      (visited order : List ℕ)
      → IsWalking [] visited order
      → (x : ℕ) → Descends root parent_of x
      → 1 ≤ times x visited
  visits-all visited order v x itself = omega (arith, v.rooted)
  visits-all visited order v x (child_of child d e) =
      omega (arith, v.closed x _ e (visits-all visited order v _ d))

  -- What the walk answers with.
  pub record IsTree (order : List ℕ) : Type 0 where
    pub first_root : (rest : List ℕ) × (order ≡ root ∷ rest)
    pub each_once : (x : ℕ) → times x order ≤ 1
    pub all_below : (x : ℕ) → (1 ≤ times x order) ↔ Descends root parent_of x

  done-IsTree : (visited order : List ℕ) → IsWalking [] visited order → IsTree order
  done-IsTree visited order v = record {
    first_root = v.root_first;
    each_once = λ x. omega (arith, v.same x, v.once x);
    all_below = λ x. (
      λ h. v.sound x (omega (arith, h, v.same x)),
      λ d. omega (arith, v.same x, visits-all visited order v x d),
    );
  }

  walk-IsTree :
      (fuel : ℕ) (queue visited order : List ℕ)
      → length queue + unvisited parent_of visited ≤ fuel
      → IsWalking queue visited order
      → (answer : List ℕ) × (walk fuel parent_of queue visited order ≡ some answer) × IsTree answer
  unfolding walk
  walk-IsTree fuel [] visited order enough v = (order, refl, done-IsTree visited order v)
  walk-IsTree zero (pid ∷ queue) visited order enough v = absurd (omega (arith, enough))
  walk-IsTree (suc fuel) (pid ∷ queue) visited order enough v =
      elim (Bool-cases (contains pid visited)) [
        | inl seen ↦
            rw (walk, seen)
              (walk-IsTree fuel queue visited order (omega (arith, enough))
                (skip-IsWalking pid queue visited order seen v))
        | inr new ↦
            rw (walk, new)
              (walk-IsTree fuel (queue ++ children parent_of pid) (pid ∷ visited)
                (order ++ pid ∷ [])
                (omega (
                  arith,
                  enough,
                  unvisited-children parent_of pid visited new,
                  length-append queue (children parent_of pid),
                ))
                (visit-IsWalking pid queue visited order new v))
      ]

  -- After the first turn, which visits the root.
  root_visited-IsWalking : IsWalking (children parent_of root) (root ∷ []) (root ∷ [])
  root_visited-IsWalking = record {
    sound = λ x h. elim (Bool-cases (leb 1 (edges x root parent_of))) [
      | inl is_child ↦ child_of x itself (leb→le 1 _ is_child)
      | inr no_child ↦
          let is_root : root ≡ x = ground (arith, h, no_child, children-times parent_of x root) in
          subst (Descends root parent_of) is_root itself
    ];
    same = λ x. refl;
    once = λ x. ground arith;
    closed = λ c p e h.
        let is_root : root ≡ p = ground (arith, h) in
        let e' : 1 ≤ edges c root parent_of =
          subst (λ q. 1 ≤ edges c q parent_of) (sym is_root) e in
        omega (arith, e', children-times parent_of c root);
    rooted = ground arith;
    root_first = ([], refl);
  }

  -- The walk ends within its fuel; its answer starts with the root and has each process that is the root
  -- or is reached from it by the entries of the map, and no other, once.
  pub descendants_root_first-IsTree :
      (answer : List ℕ) × (descendants_root_first root parent_of ≡ some answer) × IsTree answer
  unfolding descendants_root_first walk
  descendants_root_first-IsTree =
      walk-IsTree (length parent_of) (children parent_of root) (root ∷ []) (root ∷ [])
        (omega (
          arith,
          unvisited-children parent_of root [] refl,
          count-le-length (λ (e : ℕ × ℕ). true) parent_of,
        ))
        root_visited-IsWalking
