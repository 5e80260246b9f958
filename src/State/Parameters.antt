-- ===== src/State/Parameters.antt =====
-- src/state/StateGroup.cpp and src/state/State.cpp together: parameters by their paths from any
-- group.
mod Tests
use tanh_lib.Base.{
  ℕ, ◌+◌, ◌<◌, ◌≤◌, ◌≡◌, refl, sym, ap, ◌∙◌, subst, Bool, true, false, List, [], ◌∷◌, Option, none,
  some, length,
}
use tanh_lib.State.Paths.{Str}
use tanh_lib.State.Dict.{lookup}
use tanh_lib.State.Groups.{Groups, Done, Result, ok, throws, create_key, set_key}
use tanh_lib.State.Groups.Tree.{IsTree}
use tanh_lib.State.Groups.FullPath.{under}
use tanh_lib.State.Groups.Resolve.{dots}
use tanh_lib.State.Groups.Reached.{IsReached, IsReached-IsAt, resolve_path-create_key}
use tanh_lib.State.Groups.Keys.{starts_with_dot, ends_with_dot, create_key_lem}
use tanh_lib.State.Values.{ParameterType, Value, Casts}
use tanh_lib.State.Root.{State, Definition, create_in_root, set_in_root, get_from_root, outcome}
use tanh_lib.State.Root.Indexed.{IsIndexed}
use tanh_lib.State.Root.Calls.{apply, apply-IsIndexed, create_call}
use tanh_lib.State.Root.Access.{
  type_of, get_from_root-set_in_root, create_in_root_lem, create_in_root-type,
}

-- The groups and the store of one `State`.
pub record Tree (D F I : Type 0) : Type 0 where
  pub groups : Groups
  pub root : State D F I

module _ {D F I : Type 0} (casts : Casts D F I) where
  -- `StateGroup::create`
  unfoldable pub create : Tree D F I → ℕ → Str → Definition F → F → I → Tree D F I × Result Done
  create t this path def zero_float zero_int =
      let at = create_key t.groups this path in
      let made = create_in_root casts at.0 t.root at.1 def zero_float zero_int in
      (record { groups = at.0; root = made.0 }, made.1)

  -- `StateGroup::set`, by the key.
  pub set_at : Tree D F I → Result Str → Value D F I → Tree D F I × Result Done
  set_at t (throws e) v = (t, throws e)
  set_at t (ok key) v =
      let done = set_in_root casts t.groups t.root key v in (record t { root = done.0 }, done.1)

  unfoldable pub set : Tree D F I → ℕ → Str → Value D F I → Tree D F I × Result Done
  unfolding set_at
  set t this path v = set_at t (set_key t.groups 2 this path) v

  -- `StateGroup::get`, by the key.
  pub get_at : Tree D F I → Result Str → ParameterType → Bool → Result (Value D F I)
  get_at t (throws e) type allow_blocking = throws e
  get_at t (ok key) type allow_blocking = get_from_root casts t.root key type allow_blocking

  unfoldable pub get : Tree D F I → ℕ → Str → ParameterType → Bool → Result (Value D F I)
  unfolding get_at
  get t this path type allow_blocking = get_at t (set_key t.groups 2 this path) type allow_blocking

  -- Creating a parameter by a path, from a group that is found from the root by names without a
  -- dot, makes the groups on the way, so that setting it by the same path to a value of its type
  -- succeeds, and getting it by that path then gives this value. The path from the root neither
  -- begins nor ends with a dot, has at most 32 dots, and is that of no parameter before.
  pub get-set-create :
      (t : Tree D F I) (this : ℕ) (path : Str) (ns : List Str) (def : Definition F) (zf : F)
      (zi : I) (v : Value D F I)
      → IsTree t.groups
      → IsIndexed t.root
      → this < t.groups.next
      → IsReached t.groups this ns
      → starts_with_dot (under ns path) ≡ false
      → ends_with_dot (under ns path) ≡ false
      → length ns + dots path ≤ 32
      → lookup (under ns path) t.root.string_index ≡ none
      → def.type ≡ type_of v
      → (let after = set (create t this path def zf zi).0 this path v in
          (after.1 ≡ ok tt) × (get after.0 this path (type_of v) true ≡ ok v))
  unfolding create set set_at get get_at apply outcome
  get-set-create t this path ns def zf zi v tree sync b reached s e short new typed =
      let groups = (create_key t.groups this path).0 in
      let whole = under ns path in
      let at = IsReached-IsAt tree this ns reached in
      let (kept, key, found) = create_key_lem this path ns tree b at s e short in
      let told = ap outcome (resolve_path-create_key this path ns tree b reached) in
      let made = create_in_root casts groups t.root whole def zf zi in
      let sync' : IsIndexed made.0 =
        apply-IsIndexed casts sync groups (create_call whole def zf zi) in
      let index = (create_in_root_lem casts sync groups whole def zf zi new).1 in
      let (done, own, others) =
        get_from_root-set_in_root casts sync' groups whole v t.root.next index
          (create_in_root-type casts sync groups whole def zf zi new ∙ typed) in
      rw found (rw key (done ∙ told, rw found own))
