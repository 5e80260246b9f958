-- ===== src/State/Groups.antt =====
-- src/state/StateGroup.cpp: the tree of groups, paths into it and out of it.
pub mod Tree
pub mod FullPath
pub mod Create
pub mod Resolve
pub mod Reached
pub mod Keys
mod Tests
use tanh_lib.Base.{
  ℕ, zero, suc, ◌+◌, Bool, true, false, ◌==◌, ltb, if◌then◌else◌, List, [], ◌∷◌, ◌++◌, Option, none,
  some, update, length,
}
use tanh_lib.State.Paths.{Str, dot, has_dot, same, split_path, join_path}

-- A `StateGroup`; groups are named by numbers in the order of their creation, and `m_root_state` is
-- number 0. `m_groups` maps names to children.
pub record Group : Type 0 where
  pub parent : Option ℕ
  pub name : Str
  pub groups : List (Str × ℕ)

pub record Groups : Type 0 where
  pub group : ℕ → Group
  pub next : ℕ

pub data StateError : Type 0 where
  state_group_not_found : Str → StateError
  state_key_not_found : Str → StateError
  parameter_already_exists : Str → StateError
  duplicate_parameter_id : ℕ → Str → StateError
  blocking : Str → StateError

pub data Result {ℓ} (A : Type ℓ) : Type ℓ where
  ok : A → Result A
  throws : StateError → Result A

-- The result of a function that returns nothing.
abbrev pub Done : Type 0
Done = Unit

-- `groups.find(name)`
unfoldable pub find_group : Str → List (Str × ℕ) → Option ℕ
find_group name [] = none
find_group name ((n, g) ∷ gs) =
    let rest = find_group name gs in if same n name then some g else rest

-- `StateGroup::StateGroup` and the insertion by `m_groups_rcu.update`.
pub insert_group : Groups → ℕ → Str → Groups
insert_group st this name =
    let fresh : Group = record { parent = some this; name = name; groups = [] } in
    let old = st.group this in
    record {
      group = update (update st.group st.next fresh) this (record {
        parent = old.parent;
        name = old.name;
        groups = old.groups ++ ((name, st.next) ∷ []);
      });
      next = st.next + 1;
    }

-- `create_group`
pub create_group_at : Option ℕ → Groups → ℕ → Str → Groups × ℕ
unfolding insert_group
create_group_at (some g) st this name = (st, g)
create_group_at none st this name = (insert_group st this name, st.next)

unfoldable pub create_group : Groups → ℕ → Str → Groups × ℕ
unfolding create_group_at find_group
create_group st this name = create_group_at (find_group name (st.group this).groups) st this name

-- `get_group`
pub get_group : Groups → ℕ → Str → Option ℕ
unfolding find_group
get_group st this name = find_group name (st.group this).groups

-- The first loop of `get_full_path`, which counts the levels, on fuel. The argument is the
-- `m_parent` of `current`.
pub depth_loop : Groups → ℕ → Option ℕ → ℕ
depth_loop st fuel none = 0
depth_loop st zero (some p) = 0
depth_loop st (suc fuel) (some p) =
    let above = depth_loop st fuel (st.group p).parent in if p == 0 then 1 else above + 1

-- The second loop, which fills `components` from the back; its `index` is one less than the first
-- number here, and `name` and the option are those of `current`.
pub components_loop : Groups → ℕ → Str → Option ℕ → List Str → List Str
components_loop st n name none components = components
components_loop st zero name (some p) components = components
components_loop st (suc n) name (some p) components =
    let above = components_loop st n (st.group p).name (st.group p).parent (name ∷ components) in
    if p == 0 then name ∷ components else above

-- The last loop.
pub append_rest : List Str → Str
append_rest [] = []
append_rest (c ∷ cs) = dot ∷ (c ++ append_rest cs)

pub append_components : List Str → Str
unfolding append_rest
append_components [] = []
append_components (c ∷ cs) = c ++ append_rest cs

pub full_path_below : Groups → Str → Option ℕ → Str
unfolding depth_loop components_loop append_components
full_path_below st name none = name
full_path_below st name (some p) =
    let depth = depth_loop st st.next (some p) in
    if p == 0
    then name
    else if ltb 32 depth
    then name
    else append_components (components_loop st depth name (some p) [])

-- `get_full_path`
pub get_full_path : Groups → ℕ → Str
unfolding full_path_below
get_full_path st this = full_path_below st (st.group this).name (st.group this).parent

-- `resolve_path`, on fuel; the number is the group and the string the rest of the path. A case per
-- outcome of the search for the next group.
pub resolve : Groups → ℕ → ℕ → Str → Result (ℕ × Str)
unfolding get_group split_path
resolve st zero this path = ok (this, path)
resolve st (suc fuel) this path =
    let parts = split_path path in
    if has_dot path
    then elim (get_group st this parts.0) [
      | some g ↦ resolve st fuel g parts.1
      | none ↦ throws (state_group_not_found parts.0)
    ]
    else ok (this, path)

pub resolve_path : Groups → ℕ → Str → Result (ℕ × Str)
unfolding resolve
resolve_path st this path = resolve st (length path) this path

-- `resolve_path_create`, on fuel.
pub resolve_create : Groups → ℕ → ℕ → Str → Groups × ℕ × Str
unfolding create_group split_path
resolve_create st zero this path = (st, this, path)
resolve_create st (suc fuel) this path =
    let parts = split_path path in
    let child = create_group st this parts.0 in
    let rest = resolve_create child.0 fuel child.1 parts.1 in
    if has_dot path then rest else (st, this, path)

pub resolve_path_create : Groups → ℕ → Str → Groups × ℕ × Str
unfolding resolve_create
resolve_path_create st this path = resolve_create st (length path) this path

-- The key that `create` stores under.
pub create_key : Groups → ℕ → Str → Groups × Str
unfolding resolve_path_create get_full_path join_path
create_key st this path =
    let at = resolve_path_create st this path in (at.0, join_path (get_full_path at.0 at.1) at.2)

-- The key that `set`, `get` and the other operations on a path use; each calls itself, here
-- `further`, on the group that was found when that is another one.
pub set_key_found : (ℕ → Str → Result Str) → Groups → ℕ → Result (ℕ × Str) → Result Str
unfolding get_full_path join_path
set_key_found further st this (throws e) = throws e
set_key_found further st this (ok at) =
    let there = further at.0 at.1 in
    if at.0 == this then ok (join_path (get_full_path st this) at.1) else there

-- On fuel, of which 2 is enough.
pub set_key : Groups → ℕ → ℕ → Str → Result Str
unfolding resolve_path set_key_found
set_key st zero this path = throws (state_key_not_found path)
set_key st (suc fuel) this path =
    set_key_found (set_key st fuel) st this (resolve_path st this path)
