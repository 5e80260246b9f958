-- ===== src/State/Groups/Tests.antt =====
-- Paths made in a tree that has only its root.
use tanh_lib.Base.{ℕ, ◌≡◌, refl, List, [], ◌∷◌, arith}
use tanh_lib.State.Groups.{ok, throws, state_group_not_found, create_key, set_key}
use tanh_lib.State.Samples.{root_only, root_only-IsTree}
use tanh_lib.State.Groups.Tree.{IsTree}
use tanh_lib.State.Groups.Keys.{create_key_lem}

-- "a.b.c"
abbrev path : List ℕ
path = 97 ∷ 46 ∷ 98 ∷ 46 ∷ 99 ∷ []

key_is_path : (create_key root_only 0 path).1 ≡ path
unfolding create_key
key_is_path = refl

set_finds : set_key (create_key root_only 0 path).0 2 0 path ≡ ok path
unfolding create_key set_key
set_finds = refl

set_misses : set_key root_only 2 0 path ≡ throws (state_group_not_found (97 ∷ []))
unfolding set_key
set_misses = refl

create_key_lem_example :
    IsTree (create_key root_only 0 path).0
    × ((create_key root_only 0 path).1 ≡ path)
    × (set_key (create_key root_only 0 path).0 2 0 path ≡ ok path)
create_key_lem_example =
    create_key_lem 0 path [] root_only-IsTree (omega arith) refl refl refl (omega arith)
