-- ===== src/State/Groups/FullPath.antt =====
-- `get_full_path` joins the names from the root down, to a depth of 32.
use tanh_lib.Base.{
  ℕ, zero, suc, ◌<◌, ◌≤◌, ◌≡◌, refl, sym, ap, ◌∙◌, true, false, ◌==◌, ltb, List, [], ◌∷◌, ◌++◌,
  append_assoc, append-nil, some, arith, length, lt→ltb,
}
use tanh_lib.State.Paths.{Str, dot}
use tanh_lib.State.Groups.{
  Groups, depth_loop, components_loop, append_rest, append_components, full_path_below,
  get_full_path,
}
use tanh_lib.State.Groups.Tree.{IsAt, IsTree}

-- The names, the group's own first, joined from the root down.
abbrev pub full : List Str → Str
full [] = []
full (n ∷ []) = n
full (n ∷ m ∷ ns) = full (m ∷ ns) ++ (dot ∷ n)

-- The path below a group, as a path from the root.
abbrev pub under : List Str → Str → Str
under [] path = path
under (n ∷ ns) path = under ns (n ++ (dot ∷ path))

pub under-full :
    (n : Str) (ns : List Str) (path : Str) → under (n ∷ ns) path ≡ full (n ∷ ns) ++ (dot ∷ path)
under-full n [] path = refl
under-full n (m ∷ ns) path =
    under-full m ns (n ++ (dot ∷ path)) ∙ sym (append_assoc (full (m ∷ ns)) (dot ∷ n) (dot ∷ path))

abbrev onto : List Str → List Str → List Str
onto [] acc = acc
onto (n ∷ ns) acc = onto ns (n ∷ acc)

append_components-onto :
    (n : Str) (ns acc : List Str)
    → append_components (onto (n ∷ ns) acc) ≡ full (n ∷ ns) ++ append_rest acc
unfolding append_components append_rest
append_components-onto n [] acc = refl
append_components-onto n (m ∷ ns) acc =
    append_components-onto m ns (n ∷ acc)
    ∙ sym (append_assoc (full (m ∷ ns)) (dot ∷ n) (append_rest acc))

above_not_root : (p g : ℕ) → p < g → (g == 0) ≡ false
above_not_root p g lt = ground (arith, lt)

depth_loop-IsAt :
    (st : Groups) (fuel p : ℕ) (ns : List Str)
    → p < fuel
    → IsAt st p ns
    → depth_loop st fuel (some p) ≡ suc (length ns)
unfolding depth_loop
depth_loop-IsAt st zero p ns b at = omega (arith, b)
depth_loop-IsAt st (suc fuel) p [] b at = ground (arith, at)
depth_loop-IsAt st (suc fuel) p (n ∷ ns) b (q, lt, parent, name, above) =
    let rest = depth_loop-IsAt st fuel q ns (omega (arith, b, lt)) above in
    rw (above_not_root q p lt) (rw parent (rw rest (omega arith)))

components_loop-IsAt :
    (st : Groups) (name : Str) (p : ℕ) (ns acc : List Str)
    → IsAt st p ns
    → components_loop st (suc (length ns)) name (some p) acc ≡ onto (name ∷ ns) acc
unfolding components_loop
components_loop-IsAt st name p [] acc at = ground (arith, at)
components_loop-IsAt st name p (n ∷ ns) acc (q, lt, parent, called, above) =
    rw (above_not_root q p lt)
      (rw parent (rw called (components_loop-IsAt st n q ns (name ∷ acc) above)))

-- Down to 32 levels.
pub get_full_path-IsAt :
    {st : Groups}
    → IsTree st
    → (g : ℕ) (ns : List Str) → g < st.next
    → length ns ≤ 32
    → IsAt st g ns
    → get_full_path st g ≡ full ns
unfolding get_full_path full_path_below
get_full_path-IsAt tree g [] b short at = rw at (rw tree.root_parent tree.root_name)
get_full_path-IsAt {st} tree g (n ∷ []) b short (p, lt, parent, name, above) =
    rw parent (rw above name)
get_full_path-IsAt {st} tree g (n ∷ m ∷ ns) b short (p, lt, parent, name, up) =
    let depth = depth_loop-IsAt st st.next p (m ∷ ns) (omega (arith, b, lt)) up in
    let small : ltb 32 (suc (length (m ∷ ns))) ≡ false = ground (arith, short) in
    rw parent (
      rw (above_not_root up.0 p up.1) (
        rw depth (
          rw small (
            rw name (
              ap append_components (components_loop-IsAt st n p (m ∷ ns) [] up)
              ∙ append_components-onto n (m ∷ ns) []
              ∙ append-nil _)))))

impossible : 32 < 1 → ⊥
impossible h = omega (arith, h)

-- Deeper than that, the path is the name alone.
pub get_full_path-deep :
    {st : Groups}
    → IsTree st
    → (g : ℕ) (n : Str) (ns : List Str) → g < st.next
    → 32 < length (n ∷ ns)
    → IsAt st g (n ∷ ns)
    → get_full_path st g ≡ n
unfolding get_full_path full_path_below
get_full_path-deep {st} tree g n [] b deep at = elim (impossible deep) [ ]
get_full_path-deep {st} tree g n (m ∷ ns) b deep (p, lt, parent, name, up) =
    let depth = depth_loop-IsAt st st.next p (m ∷ ns) (omega (arith, b, lt)) up in
    let big : ltb 32 (suc (length (m ∷ ns))) ≡ true = lt→ltb _ _ deep in
    rw parent (rw (above_not_root up.0 p up.1) (rw depth (rw big name)))
