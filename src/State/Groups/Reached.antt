-- ===== src/State/Groups/Reached.antt =====
-- A path below a group that is found from the root leads from the root where it leads from the
-- group.
use tanh_lib.Base.{
  ℕ, zero, suc, ◌+◌, ◌<◌, ◌≤◌, ◌≡◌, inl, inr, refl, sym, ap, ◌∙◌, true, false, List, [], ◌∷◌, ◌++◌,
  some, arith, Bool-cases, Option-cases, length, length-append,
}
use tanh_lib.State.Paths.{Str, dot, has_dot, split_path, split_path_lem, split_path-at}
use tanh_lib.State.Groups.{
  Groups, ok, get_group, resolve, resolve_path, resolve_path_create, create_key,
}
use tanh_lib.State.Groups.Tree.{IsAt, IsTree, Extends, Extends-refl}
use tanh_lib.State.Groups.FullPath.{under}
use tanh_lib.State.Groups.Resolve.{no_characters, resolve_create_lem}

-- The group is found from the root by the names of the list, its own first, which have no dot.
abbrev pub IsReached : Groups → ℕ → List Str → Type 0
IsReached st g [] = g ≡ 0
IsReached st g (n ∷ ns) =
    (p : ℕ) × (p < st.next) × (has_dot n ≡ false) × (get_group st p n ≡ some g) × IsReached st p ns

pub IsReached-IsAt :
    {st : Groups} → IsTree st → (g : ℕ) (ns : List Str) → IsReached st g ns → IsAt st g ns
unfolding get_group
IsReached-IsAt tree g [] h = h
IsReached-IsAt tree g (n ∷ ns) (p, b, plain, found, above) =
    let (bound, below, parent, called) = tree.children p b n g found in
    (p, below, parent, called, IsReached-IsAt tree p ns above)

pub IsReached-Extends :
    {s t : Groups} → Extends s t → (g : ℕ) (ns : List Str) → IsReached s g ns → IsReached t g ns
unfolding get_group
IsReached-Extends x g [] h = h
IsReached-Extends x g (n ∷ ns) (p, b, plain, found, above) =
    (p, omega (arith, b, x.next_le), plain, x.found p n g b found, IsReached-Extends x p ns above)

-- One step of the search.
resolve-step :
    (st : Groups) (fuel p g : ℕ) (path : Str)
    → has_dot path ≡ true
    → get_group st p (split_path path).0 ≡ some g
    → resolve st (suc fuel) p path ≡ resolve st fuel g (split_path path).1
unfolding resolve
resolve-step st fuel p g path h found = rw h (rw found refl)

-- More fuel than the path has characters changes nothing.
resolve-fuel :
    (st : Groups) (fuel more g : ℕ) (path : Str)
    → length path ≤ fuel
    → length path ≤ more
    → resolve st fuel g path ≡ resolve st more g path
unfolding resolve
resolve-fuel st zero zero g path a b = refl
resolve-fuel st zero (suc more) g path a b = rw (no_characters path a) refl
resolve-fuel st (suc fuel) zero g path a b = rw (no_characters path b) refl
resolve-fuel st (suc fuel) (suc more) g path a b = elim (Bool-cases (has_dot path)) [
  | inl h ↦
      let parts = split_path path in
      let (eq, clear) = split_path_lem path h in
      let sizes = ap length eq ∙ length-append parts.0 (dot ∷ parts.1) in
      elim (Option-cases (get_group st g parts.0)) [
        | inl found ↦ rw h (rw found refl)
        | inr (c, found) ↦
            resolve-step st fuel g c path h found
            ∙ resolve-fuel st fuel more c parts.1 (omega (arith, a, sizes))
                (omega (arith, b, sizes))
            ∙ sym (resolve-step st more g c path h found)
      ]
  | inr h ↦ rw h refl
]

has_dot-dot : (n path : Str) → has_dot (n ++ (dot ∷ path)) ≡ true
has_dot-dot [] path = refl
has_dot-dot (c ∷ cs) path = let rest = has_dot-dot cs path in ground (arith, rest)

resolve_path-child :
    (st : Groups) (p g : ℕ) (n path : Str)
    → has_dot n ≡ false
    → get_group st p n ≡ some g
    → resolve_path st p (n ++ (dot ∷ path)) ≡ resolve_path st g path
unfolding resolve_path
resolve_path-child st p g n path plain found =
    let sizes : length (n ++ (dot ∷ path)) ≡ suc (length n + length path) =
      length-append n (dot ∷ path) ∙ omega arith in
    let parts = split_path-at n path plain in
    ap (λ k. resolve st k p (n ++ (dot ∷ path))) sizes
    ∙ resolve-step st (length n + length path) p g (n ++ (dot ∷ path)) (has_dot-dot n path)
        (ap (λ x. get_group st p x.0) parts ∙ found)
    ∙ ap (λ x. resolve st (length n + length path) g x.1) parts
    ∙ resolve-fuel st (length n + length path) (length path) g path (omega arith) (omega arith)

pub resolve_path-under :
    (st : Groups) (g : ℕ) (ns : List Str) (path : Str)
    → IsReached st g ns
    → resolve_path st 0 (under ns path) ≡ resolve_path st g path
resolve_path-under st g [] path at = ap (λ x. resolve_path st x path) (sym at)
resolve_path-under st g (n ∷ ns) path (p, b, plain, found, above) =
    resolve_path-under st p ns (n ++ (dot ∷ path)) above
    ∙ resolve_path-child st p g n path plain found

-- After `create`, the groups of its key are found from the root.
pub resolve_path-create_key :
    {st : Groups} (this : ℕ) (path : Str) (ns : List Str)
    → IsTree st
    → this < st.next
    → IsReached st this ns
    → (let made = resolve_path_create st this path in
        resolve_path (create_key st this path).0 0 (under ns path) ≡ ok (made.1, made.2))
unfolding create_key resolve_path_create resolve_path
resolve_path-create_key {st} this path ns tree b reached =
    let made = resolve_path_create st this path in
    let r =
      resolve_create_lem (length path) this path ns tree b (IsReached-IsAt tree this ns reached)
        (omega arith) in
    resolve_path-under made.0 this ns path (IsReached-Extends r.grown this ns reached)
    ∙ r.found made.0 (Extends-refl made.0)
