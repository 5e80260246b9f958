-- ===== src/State/Groups/Keys.antt =====
-- The key under which a parameter is stored is its path, for `create` as for the other operations.
use tanh_lib.Base.{
  ℕ, suc, ◌+◌, ◌<◌, ◌≤◌, ◌≡◌, inl, inr, refl, sym, ap, ◌∙◌, Bool, true, false, ◌==◌, List, [], ◌∷◌,
  ◌++◌, arith, Bool-cases, length, clash,
}
use tanh_lib.State.Paths.{Str, dot, has_dot, join_path}
use tanh_lib.State.Groups.{
  Groups, ok, get_full_path, resolve, resolve_path, resolve_path_create, create_key, set_key,
  set_key_found,
}
use tanh_lib.State.Groups.Tree.{IsAt, IsTree, Extends-refl}
use tanh_lib.State.Groups.FullPath.{full, under, under-full, get_full_path-IsAt}
use tanh_lib.State.Groups.Resolve.{dots, resolve_create_lem}

abbrev pub starts_with_dot : Str → Bool
starts_with_dot [] = false
starts_with_dot (c ∷ cs) = c == dot

abbrev pub ends_with_dot : Str → Bool
ends_with_dot [] = false
ends_with_dot (c ∷ []) = c == dot
ends_with_dot (c ∷ d ∷ cs) = ends_with_dot (d ∷ cs)

ends_with_dot-snoc : (a : Str) → ends_with_dot (a ++ (dot ∷ [])) ≡ true
ends_with_dot-snoc [] = refl
ends_with_dot-snoc (c ∷ []) = refl
ends_with_dot-snoc (c ∷ d ∷ cs) = ends_with_dot-snoc (d ∷ cs)

join_path-dot :
    (a b : Str)
    → starts_with_dot (a ++ (dot ∷ b)) ≡ false
    → ends_with_dot (a ++ (dot ∷ b)) ≡ false
    → join_path a b ≡ a ++ (dot ∷ b)
unfolding join_path
join_path-dot [] b s e = (cc)
join_path-dot (c ∷ cs) [] s e = elim (clash (ends_with_dot-snoc (c ∷ cs)) e) [ ]
join_path-dot (c ∷ cs) (d ∷ ds) s e = refl

join_path-full :
    (ms : List Str) (r : Str)
    → starts_with_dot (under ms r) ≡ false
    → ends_with_dot (under ms r) ≡ false
    → join_path (full ms) r ≡ under ms r
unfolding join_path
join_path-full [] r s e = refl
join_path-full (m ∷ ms) r s e =
    let eq = under-full m ms r in
    join_path-dot (full (m ∷ ms)) r (ap starts_with_dot (sym eq) ∙ s)
      (ap ends_with_dot (sym eq) ∙ e)
    ∙ sym eq

resolve_path-plain :
    (st : Groups) (g : ℕ) (name : Str)
    → has_dot name ≡ false
    → resolve_path st g name ≡ ok (g, name)
unfolding resolve_path resolve
resolve_path-plain st g [] h = refl
resolve_path-plain st g (c ∷ cs) h = rw h refl

set_key-plain :
    (st : Groups) (fuel g : ℕ) (name : Str)
    → has_dot name ≡ false
    → set_key st (suc fuel) g name ≡ ok (join_path (get_full_path st g) name)
unfolding set_key set_key_found
set_key-plain st fuel g name h =
    let here : (g == g) ≡ true = ground arith in rw (resolve_path-plain st g name h) (rw here refl)

set_key-resolved :
    (st : Groups) (fuel this g : ℕ) (path name : Str)
    → has_dot name ≡ false
    → resolve_path st this path ≡ ok (g, name)
    → set_key st (suc (suc fuel)) this path ≡ ok (join_path (get_full_path st g) name)
unfolding set_key set_key_found
set_key-resolved st fuel this g path name h found = elim (Bool-cases (g == this)) [
  | inl e ↦
      let eq : g ≡ this = ground arith in
      rw found (rw e (ap (λ x. ok (join_path (get_full_path st x) name)) (sym eq)))
  | inr e ↦ rw found (rw e (set_key-plain st fuel g name h))
]

-- The path from the root, when it neither begins nor ends with a dot and has at most 32 dots, is the
-- key under which `create` stores, and the one that the other operations then look up.
pub create_key_lem :
    {st : Groups} (this : ℕ) (path : Str) (ns : List Str)
    → IsTree st
    → this < st.next
    → IsAt st this ns
    → starts_with_dot (under ns path) ≡ false
    → ends_with_dot (under ns path) ≡ false
    → length ns + dots path ≤ 32
    → IsTree (create_key st this path).0
      × ((create_key st this path).1 ≡ under ns path)
      × (set_key (create_key st this path).0 2 this path ≡ ok (under ns path))
unfolding create_key resolve_path_create resolve_path
create_key_lem {st} this path ns tree b at s e short =
    let made = resolve_path_create st this path in
    let r = resolve_create_lem (length path) this path ns tree b at (omega arith) in
    let path_eq =
      get_full_path-IsAt r.tree made.1 r.names r.bound (omega (arith, r.depth, short)) r.is_at in
    let key =
      ap (λ p. join_path p made.2) path_eq
      ∙ join_path-full r.names made.2 (ap starts_with_dot r.whole ∙ s)
          (ap ends_with_dot r.whole ∙ e)
      ∙ r.whole in
    (
      r.tree,
      key,
      set_key-resolved made.0 0 this made.1 path made.2 r.plain
            (r.found made.0 (Extends-refl made.0))
          ∙ ap ok key,
    )
