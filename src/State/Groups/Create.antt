-- ===== src/State/Groups/Create.antt =====
-- `create_group` keeps the tree, and the group is found afterwards.
use tanh_lib.Base.{
  ℕ, ◌+◌, ◌<◌, ◌≡◌, inl, inr, refl, sym, ap, ◌∙◌, subst, false, ◌==◌, [], ◌∷◌, ◌++◌, none, some,
  arith, Bool-cases, Option-cases,
}
use tanh_lib.State.Paths.{Str}
use tanh_lib.State.Groups.{
  Groups, find_group, insert_group, create_group, create_group_at, get_group,
}
use tanh_lib.State.Groups.Tree.{
  IsTree, HasChildren, Extends, Extends-refl, find_group-snoc, find_group-new, find_group-cases,
}

module _ {st : Groups} (tree : IsTree st) (this : ℕ) (name : Str) (b : this < st.next) where
  abbrev made : Groups
  made = insert_group st this name

  parent_kept : (g : ℕ) → g < st.next → (made.group g).parent ≡ (st.group g).parent
  unfolding insert_group
  parent_kept g lt = elim (Bool-cases (this == g)) [
    | inl e ↦ let eq : this ≡ g = ground arith in rw e (ap (λ x. (st.group x).parent) eq)
    | inr e ↦ ground (arith, e, lt)
  ]

  name_kept : (g : ℕ) → g < st.next → (made.group g).name ≡ (st.group g).name
  unfolding insert_group
  name_kept g lt = elim (Bool-cases (this == g)) [
    | inl e ↦ let eq : this ≡ g = ground arith in rw e (ap (λ x. (st.group x).name) eq)
    | inr e ↦ ground (arith, e, lt)
  ]

  groups_other :
      (g : ℕ) → g < st.next → (this == g) ≡ false → (made.group g).groups ≡ (st.group g).groups
  unfolding insert_group
  groups_other g lt e = ground (arith, e, lt)

  groups_this : (made.group this).groups ≡ (st.group this).groups ++ ((name, st.next) ∷ [])
  unfolding insert_group
  groups_this = ground arith

  fresh_parent : (made.group st.next).parent ≡ some this
  unfolding insert_group
  fresh_parent = ground (arith, b)

  fresh_name : (made.group st.next).name ≡ name
  unfolding insert_group
  fresh_name = ground (arith, b)

  fresh_groups : (made.group st.next).groups ≡ []
  unfolding insert_group
  fresh_groups = ground (arith, b)

  next_made : made.next ≡ st.next + 1
  unfolding insert_group
  next_made = refl

  insert_group-Extends : Extends st made
  insert_group-Extends = record {
    next_le = omega (arith, next_made);
    parents = parent_kept;
    names = name_kept;
    found = λ g n c lt e. elim (Bool-cases (this == g)) [
      | inl same_g ↦
          let eq : this ≡ g = ground arith in
          subst (λ x. find_group n (made.group x).groups ≡ some c) eq
            (ap (find_group n) groups_this
              ∙ find_group-snoc n name st.next c (st.group this).groups
                  (subst (λ x. find_group n (st.group x).groups ≡ some c) (sym eq) e))
      | inr other ↦ ap (find_group n) (groups_other g lt other) ∙ e
    ];
  }

  children_this : HasChildren made this
  children_this n c e =
      elim (find_group-cases n name st.next c (st.group this).groups
        (ap (find_group n) (sym groups_this) ∙ e)) [
          | inl old ↦
              let (lt, below, parent, called) = tree.children this b n c old in
              (
                omega (arith, lt, next_made),
                below,
                parent_kept c lt ∙ parent,
                name_kept c lt ∙ called,
              )
          | inr (fresh, called) ↦ (
            omega (arith, fresh, next_made),
            omega (arith, fresh, b),
            ap (λ x. (made.group x).parent) fresh ∙ fresh_parent,
            ap (λ x. (made.group x).name) fresh ∙ fresh_name ∙ called,
          )
        ]

  children_other : (g : ℕ) → g < st.next → (this == g) ≡ false → HasChildren made g
  children_other g lt other n c e =
      let (bound, below, parent, called) =
        tree.children g lt n c (ap (find_group n) (sym (groups_other g lt other)) ∙ e) in
      (
        omega (arith, bound, next_made),
        below,
        parent_kept c bound ∙ parent,
        name_kept c bound ∙ called,
      )

  children_fresh : HasChildren made st.next
  unfolding find_group
  children_fresh n c e =
      let nothing : find_group n [] ≡ some c = ap (find_group n) (sym fresh_groups) ∙ e in (cc)

  children_made : (g : ℕ) → g < made.next → HasChildren made g
  children_made g lt = elim (Bool-cases (this == g)) [
    | inl e ↦ subst (HasChildren made) (ground arith) children_this
    | inr e ↦ elim (Bool-cases (st.next == g)) [
      | inl fresh ↦ subst (HasChildren made) (ground arith) children_fresh
      | inr old ↦ children_other g (ground (arith, lt, next_made, old)) e
    ]
  ]

  insert_group-IsTree : IsTree made
  insert_group-IsTree = record {
    has_root = omega (arith, next_made);
    root_parent = parent_kept 0 tree.has_root ∙ tree.root_parent;
    root_name = name_kept 0 tree.has_root ∙ tree.root_name;
    children = children_made;
  }

  find_group-insert :
      find_group name (st.group this).groups ≡ none
      → find_group name (made.group this).groups ≡ some st.next
  find_group-insert miss =
      ap (find_group name) groups_this ∙ find_group-new name st.next (st.group this).groups miss

  -- Whether the group was there or is made: it is found under its name, its parent is the group
  -- that it was asked of, and the tree has only grown.
  pub create_group_lem :
      IsTree (create_group st this name).0
      × Extends st (create_group st this name).0
      × (get_group (create_group st this name).0 this name ≡ some (create_group st this name).1)
  unfolding create_group create_group_at get_group
  create_group_lem = elim (Option-cases (find_group name (st.group this).groups)) [
    | inl miss ↦ rw miss (insert_group-IsTree, insert_group-Extends, find_group-insert miss)
    | inr (g, hit) ↦ rw hit (tree, Extends-refl st, hit)
  ]
