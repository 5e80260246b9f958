-- ===== src/State/Root/Tests.antt =====
-- A store with two parameters, over numbers that are all naturals.
use tanh_lib.Base.{ℕ, ◌≡◌, refl, Bool, true, false, if◌then◌else◌, [], ◌∷◌, none, some}
use tanh_lib.State.Paths.{Str, same}
use tanh_lib.State.Groups.{resolve_path, ok, throws, duplicate_parameter_id}
use tanh_lib.State.Dict.{lookup}
use tanh_lib.State.Values.{ParameterType, int_type, int_value}
use tanh_lib.State.Root.{
  State, Definition, create_in_root, set_in_root, get_from_root, clear_group, no_id, starts_with,
  assign_id, outcome,
}
use tanh_lib.State.Root.Indexed.{IsIndexed}
use tanh_lib.State.Samples.{casts, empty, empty-IsIndexed, root_only}
use tanh_lib.State.Root.Calls.{create_call, clear_group_call, apply, apply-IsIndexed}
use tanh_lib.State.Root.Clearing.{lookup-clear_group}
use tanh_lib.State.Root.Access.{get_from_root-set_in_root, create_in_root_lem}

-- "a.b" and "ac"
abbrev key : Str
key = 97 ∷ 46 ∷ 98 ∷ []

abbrev sibling : Str
sibling = 97 ∷ 99 ∷ []

abbrev int_definition : ℕ → Definition ℕ
int_definition id = record { type = int_type; id = id; default_value = 5 }

abbrev two : State ℕ ℕ ℕ
unfolding apply
two =
    apply casts root_only (apply casts root_only empty (create_call key (int_definition no_id) 0 0))
      (create_call sibling (int_definition 7) 0 0)

two-IsIndexed : IsIndexed two
unfolding two
two-IsIndexed =
    apply-IsIndexed casts
      (apply-IsIndexed casts empty-IsIndexed root_only (create_call key (int_definition no_id) 0 0))
      root_only (create_call sibling (int_definition 7) 0 0)

apply-IsIndexed_example : IsIndexed (apply casts root_only two (clear_group_call (97 ∷ [])))
apply-IsIndexed_example = apply-IsIndexed casts two-IsIndexed root_only (clear_group_call (97 ∷ []))

get_from_root-set_in_root_example :
    ((set_in_root casts root_only two key (int_value 3)).1 ≡ outcome (resolve_path root_only 0 key))
    × (get_from_root casts (set_in_root casts root_only two key (int_value 3)).0 key int_type true
        ≡ ok (int_value 3))
    × ((k : Str) (type : ParameterType) (b : Bool)
        → same key k ≡ false
        → get_from_root casts (set_in_root casts root_only two key (int_value 3)).0 k type b
          ≡ get_from_root casts two k type b)
unfolding two apply create_in_root
get_from_root-set_in_root_example =
    get_from_root-set_in_root casts two-IsIndexed root_only key (int_value 3) 0 refl refl

create_in_root_lem_example :
    ((create_in_root casts root_only two (100 ∷ []) (int_definition 7) 0 0).1
      ≡ elim (two.id_index (assign_id casts 7 two.next_auto_id).0) [
        | none ↦ outcome (resolve_path root_only 0 (100 ∷ []))
        | some taken ↦
            throws (duplicate_parameter_id (assign_id casts 7 two.next_auto_id).0 (100 ∷ []))
      ])
    × (lookup
          (100 ∷ [])
          (create_in_root casts root_only two (100 ∷ []) (int_definition 7) 0 0).0.string_index
        ≡ some two.next)
    × ((k : Str) (type : ParameterType) (b : Bool)
        → same (100 ∷ []) k ≡ false
        → get_from_root casts
            (create_in_root casts root_only two (100 ∷ []) (int_definition 7) 0 0).0
            k
            type
            b
          ≡ get_from_root casts two k type b)
unfolding two apply create_in_root
create_in_root_lem_example =
    create_in_root_lem casts two-IsIndexed root_only (100 ∷ []) (int_definition 7) 0 0 refl

lookup-clear_group_example :
    lookup sibling (clear_group casts two (97 ∷ [])).string_index
    ≡ (if starts_with sibling (97 ∷ []) then none else lookup sibling two.string_index)
lookup-clear_group_example = lookup-clear_group casts (97 ∷ []) sibling two-IsIndexed
