-- ===== src/State/Parameters/Tests.antt =====
-- A parameter "a.b.c" made from the root of an empty state.
use tanh_lib.Base.{ℕ, ◌≡◌, refl, true, List, [], ◌∷◌, arith}
use tanh_lib.State.Groups.{ok}
use tanh_lib.State.Values.{int_type, int_value}
use tanh_lib.State.Root.{Definition, no_id}
use tanh_lib.State.Samples.{casts, empty, empty-IsIndexed, root_only, root_only-IsTree}
use tanh_lib.State.Parameters.{Tree, create, set, get, get-set-create}

abbrev fresh : Tree ℕ ℕ ℕ
fresh = record { groups = root_only; root = empty }

abbrev path : List ℕ
path = 97 ∷ 46 ∷ 98 ∷ 46 ∷ 99 ∷ []

abbrev definition : Definition ℕ
definition = record { type = int_type; id = no_id; default_value = 5 }

get-set-create_example :
    let after = set casts (create casts fresh 0 path definition 0 0).0 0 path (int_value 3) in
    (after.1 ≡ ok tt) × (get casts after.0 0 path int_type true ≡ ok (int_value 3))
get-set-create_example =
    get-set-create casts fresh 0 path [] definition 0 0 (int_value 3) root_only-IsTree
      empty-IsIndexed (omega arith) refl refl refl (omega arith) refl refl
