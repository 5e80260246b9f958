-- ===== src/State/Groups/Resolve.antt =====
-- `resolve_path_create` makes the groups that a path names, and `resolve_path` then finds them.
use tanh_lib.Base.{
  ℕ, zero, suc, ◌+◌, ◌<◌, ◌≤◌, ◌≡◌, inl, inr, refl, sym, ap, ◌∙◌, false, ◌==◌, if◌then◌else◌, List,
  [], ◌∷◌, ◌++◌, some, arith, Bool-cases, length, length-append,
}
use tanh_lib.State.Paths.{Str, dot, has_dot, split_path, split_path_lem}
use tanh_lib.State.Groups.{Groups, ok, create_group, get_group, resolve, resolve_create}
use tanh_lib.State.Groups.Tree.{IsAt, IsTree, Extends, Extends-refl, Extends-trans, IsAt-Extends}
use tanh_lib.State.Groups.FullPath.{under}
use tanh_lib.State.Groups.Create.{create_group_lem}

abbrev pub dots : Str → ℕ
dots [] = 0
dots (c ∷ cs) = (if c == dot then 1 else 0) + dots cs

dots-append : (a b : Str) → dots (a ++ b) ≡ dots a + dots b
dots-append [] b = omega arith
dots-append (c ∷ cs) b = let rest = dots-append cs b in ground (arith, rest)

pub dots-none : (a : Str) → has_dot a ≡ false → dots a ≡ 0
dots-none [] h = refl
dots-none (c ∷ cs) h = let rest = dots-none cs (ground (arith, h)) in ground (arith, h, rest)

-- What a resolution of `path` from the group `this` with the names `ns` has reached.
pub record Resolved (st : Groups) (fuel this : ℕ) (path : Str) (ns : List Str)
    (at : Groups × ℕ × Str) : Type 0 where
  pub tree : IsTree at.0
  pub grown : Extends st at.0
  pub bound : at.1 < at.0.next
  pub names : List Str
  pub is_at : IsAt at.0 at.1 names
  pub plain : has_dot at.2 ≡ false
  pub whole : under names at.2 ≡ under ns path
  pub depth : length names ≡ length ns + dots path
  pub found : (t : Groups) → Extends at.0 t → resolve t fuel this path ≡ ok (at.1, at.2)

resolved_here :
    {st : Groups} (fuel this : ℕ) (path : Str) (ns : List Str)
    → IsTree st
    → this < st.next
    → IsAt st this ns
    → has_dot path ≡ false
    → ((t : Groups) → resolve t fuel this path ≡ ok (this, path))
    → Resolved st fuel this path ns (st, this, path)
resolved_here {st} fuel this path ns tree b at h found = record {
  tree = tree;
  grown = Extends-refl st;
  bound = b;
  names = ns;
  is_at = at;
  plain = h;
  whole = refl;
  depth = omega (arith, dots-none path h);
  found = λ t x. found t;
}

pub no_characters : (path : Str) → length path ≤ 0 → has_dot path ≡ false
no_characters [] h = refl
no_characters (c ∷ cs) h = ground (arith, h)

-- The child that a name leads to has that name above the others.
child-IsAt :
    {st : Groups}
    → IsTree st
    → (this c : ℕ) (name : Str) (ns : List Str) → this < st.next
    → get_group st this name ≡ some c
    → IsAt st this ns
    → (c < st.next) × IsAt st c (name ∷ ns)
unfolding get_group
child-IsAt tree this c name ns b found at =
    let (bound, below, parent, called) = tree.children this b name c found in
    (bound, (this, below, parent, called, at))

pub resolve_create_lem :
    (fuel : ℕ) {st : Groups} (this : ℕ) (path : Str) (ns : List Str)
    → IsTree st
    → this < st.next
    → IsAt st this ns
    → length path ≤ fuel
    → Resolved st fuel this path ns (resolve_create st fuel this path)
unfolding resolve_create resolve get_group
resolve_create_lem zero this path ns tree b at short =
    resolved_here 0 this path ns tree b at (no_characters path short) (λ t. refl)
resolve_create_lem (suc fuel) {st} this path ns tree b at short = elim (Bool-cases (has_dot path)) [
  | inl h ↦
      let parts = split_path path in
      let child = create_group st this parts.0 in
      let (eq, clear) = split_path_lem path h in
      let (tree', grown, found) = create_group_lem tree this parts.0 b in
      let b' : this < child.0.next = omega (arith, b, grown.next_le) in
      let (bound, is_at) =
        child-IsAt tree' this child.1 parts.0 ns b' found (IsAt-Extends grown this ns b at) in
      let sizes = ap length eq ∙ length-append parts.0 (dot ∷ parts.1) in
      let r =
        resolve_create_lem fuel child.1 parts.1 (parts.0 ∷ ns) tree' bound is_at
          (omega (arith, short, sizes)) in
      rw h (record {
        tree = r.tree;
        grown = Extends-trans grown r.grown;
        bound = r.bound;
        names = r.names;
        is_at = r.is_at;
        plain = r.plain;
        whole = r.whole ∙ ap (under ns) (sym eq);
        depth = omega (
          arith,
          r.depth,
          ap dots eq,
          dots-append parts.0 (dot ∷ parts.1),
          dots-none parts.0 clear,
        );
        found = λ t x. rw h (
            rw
              (x.found this parts.0 child.1 (omega (arith, b', r.grown.next_le))
                (r.grown.found this parts.0 child.1 b' found))
              (r.found t x));
      })
  | inr h ↦ rw h (resolved_here (suc fuel) this path ns tree b at h (λ t. rw h refl))
]
