-- ===== src/Modulation/Schedule/Loop.antt =====
-- What holds while the edges of a node are tried, and after a node has been connected.
use tanh_lib.Base.{
  ℕ, ◌<◌, ◌≤◌, ◌≡◌, ap, ◌∙◌, true, List, [], ◌∷◌, ◌++◌, some, contains, contains-append, concat,
  arith, ◌⊎◌, inl, inr,
}
use tanh_lib.Modulation.Schedule.{Graph, Tarjan, index_of}
use tanh_lib.Modulation.Schedule.Inv.{Reach, Inv, has_index}

-- A node that an edge leads to is in a component, or on the stack no deeper than `low`.
abbrev pub Resolved : Tarjan → ℕ → ℕ → Type 0
Resolved t low y =
    (contains y (concat t.sccs) ≡ true)
    ⊎ ((contains y t.stack ≡ true) × (low ≤ index_of (t.index y)))

-- A node of the stack that `x` reaches, and its index.
abbrev pub Finds : Graph → Tarjan → List ℕ → ℕ → ℕ → Type 0
Finds adj t stack x i =
    (y : ℕ) × (contains y stack ≡ true) × Reach adj x y × (index_of (t.index y) ≡ i)

-- What a call leaves of a state as it was.
pub record Extends (s t : Tarjan) : Type 0 where
  pub index_kept : (x : ℕ) → has_index (s.index x) ≡ true → t.index x ≡ s.index x
  pub lowlink_kept : (x : ℕ) → has_index (s.index x) ≡ true → t.lowlink x ≡ s.lowlink x
  pub done_kept : (x : ℕ) → contains x (concat s.sccs) ≡ true → contains x (concat t.sccs) ≡ true

-- The nodes above a node on the stack: each is reached from the node below, reaches a node of the
-- stack with a smaller index, and has edges only to nodes no deeper than `low`.
pub record Segment (adj : Graph) (t : Tarjan) (v low : ℕ) (seg : List ℕ) : Type 0 where
  pub reached : (x : ℕ) → contains x seg ≡ true → Reach adj v x
  pub escapes :
      (x : ℕ)
      → contains x seg ≡ true
      → (i : ℕ) × Finds adj t t.stack x i × (i < index_of (t.index x))
  pub edges : (x y : ℕ) → contains x seg ≡ true → contains y (adj x) ≡ true → Resolved t low y

-- While the edges of `v` are tried: `s` is the state before `v` was entered, `low` its low link, and
-- `tried` the nodes that the edges so far lead to.
pub record Loop (adj : Graph) (v : ℕ) (s t : Tarjan) (low : ℕ) (tried : List ℕ) : Type 0 where
  pub inv : Inv adj t
  pub seg : List ℕ
  pub stack_eq : t.stack ≡ seg ++ (v ∷ s.stack)
  pub self : t.index v ≡ some s.index_counter
  pub extends : Extends s t
  pub low_eq : t.lowlink v ≡ low
  pub low_le : low ≤ s.index_counter
  pub low_at : Finds adj t t.stack v low
  pub segment : Segment adj t v low seg
  pub resolved : (y : ℕ) → contains y tried ≡ true → Resolved t low y

-- After `strongconnect v`: the component of `v` is complete and the stack as it was, or `v` is
-- on the stack and has found a node that was there before.
pub record Post (adj : Graph) (v : ℕ) (s r : Tarjan) : Type 0 where
  pub inv : Inv adj r
  pub seg : List ℕ
  pub stack_eq : r.stack ≡ seg ++ s.stack
  pub self : r.index v ≡ some s.index_counter
  pub extends : Extends s r
  pub segment : Segment adj r v (r.lowlink v) seg
  pub outcome : ((seg ≡ []) × (r.lowlink v ≡ s.index_counter)) ⊎ Finds adj r s.stack v (r.lowlink v)

pub Resolved-mono :
    (t : Tarjan) (low low' y : ℕ) → low' ≤ low → Resolved t low y → Resolved t low' y
Resolved-mono t low low' y h (inl d) = inl d
Resolved-mono t low low' y h (inr (k, l)) = inr (k, omega (arith, l))

module _ {adj : Graph} where
  -- What is on the stack has an index.
  pub stacked-has_index :
      {t : Tarjan} (i : Inv adj t) (x : ℕ)
      → contains x t.stack ≡ true
      → has_index (t.index x) ≡ true
  stacked-has_index i x h = i.indexed x ∙ ground (arith, h)

  -- A state on a longer stack.
  module _ {t r : Tarjan} (i : Inv adj t) (e : Extends t r) (more : List ℕ)
      (grown : r.stack ≡ more ++ t.stack) where
    pub stack_kept : (x : ℕ) → contains x t.stack ≡ true → contains x r.stack ≡ true
    stack_kept x h = rw grown (contains-append x more t.stack ∙ ground (arith, h))

    pub Resolved-extends : (low y : ℕ) → Resolved t low y → Resolved r low y
    Resolved-extends low y (inl d) = inl (e.done_kept y d)
    Resolved-extends low y (inr (k, l)) =
        inr (stack_kept y k, rw (e.index_kept y (stacked-has_index i y k)) l)

    pub Finds-extends : (x n : ℕ) → Finds adj t t.stack x n → Finds adj r r.stack x n
    Finds-extends x n (y, k, p, l) =
        (y, stack_kept y k, p, ap index_of (e.index_kept y (stacked-has_index i y k)) ∙ l)
