-- ===== src/Modulation/Routings/Tests.antt =====
-- A table with two sources and one routing.
use tanh_lib.Base.{ℕ, ◌≡◌, refl, Bool, true, false, ltb, ◌==◌, ◌&&◌, [], ◌∷◌, none, arith}
use tanh_lib.Modulation.Routings.{
  UserRouting, Table, find, find_user_routing, find_user_routing_between, add_routing,
  remove_routing, remove_routing_between, remove_source,
}
use tanh_lib.Modulation.Routings.Valid.{
  IsValid, AddsOrRefuses, add_routing-IsValid, add_routing-find, remove_routing-find,
  remove_source-IsValid,
}

abbrev vibrato : UserRouting ℕ
vibrato = record {
  id = 1;
  source_id = 0;
  target_id = 7;
  depth = 5;
  replace_range_min = 0;
  replace_range_max = 1;
  has_replace_range = false;
}

abbrev tremolo : UserRouting ℕ
tremolo = record vibrato { id = 0; source_id = 1 }

abbrev table : Table ℕ
table = record {
  sources = λ i. ltb i 2;
  targets = λ i. i == 7;
  user_routings = vibrato ∷ [];
  next_routing_id = 2;
}

abbrev is_modulatable : ℕ → Bool
is_modulatable i = ltb i 9

table-IsValid : IsValid table
unfolding find
table-IsValid = record {
  ids_distinct = (refl, tt);
  ends_distinct = (refl, tt);
  ids_used = ((omega arith, omega arith), tt);
  sources_known = (refl, tt);
  next_positive = omega arith;
}

refused : add_routing is_modulatable table vibrato ≡ (0, table)
unfolding add_routing
refused = refl

add_routing-IsValid_example : IsValid (add_routing is_modulatable table tremolo).1
add_routing-IsValid_example =
    add_routing-IsValid is_modulatable table tremolo table-IsValid (omega arith)

add_routing-find_example :
    AddsOrRefuses true tremolo table (add_routing is_modulatable table tremolo)
unfolding find_user_routing_between
add_routing-find_example = add_routing-find is_modulatable table tremolo table-IsValid

remove_routing-find_example :
    IsValid (remove_routing table 1)
    × (find_user_routing (remove_routing table 1) 1 ≡ none)
    × ((id : ℕ)
        → (id == 1) ≡ false
        → find_user_routing (remove_routing table 1) id ≡ find_user_routing table id)
    × IsValid (remove_routing_between table 0 7)
    × (find_user_routing_between (remove_routing_between table 0 7) 0 7 ≡ none)
    × ((s u : ℕ)
        → ((s == 0) && (u == 7)) ≡ false
        → find_user_routing_between (remove_routing_between table 0 7) s u
          ≡ find_user_routing_between table s u)
remove_routing-find_example = remove_routing-find table 1 0 7 table-IsValid

remove_source-IsValid_example :
    IsValid (remove_source table 0)
    × (find (λ r. r.source_id == 0) (remove_source table 0).user_routings ≡ none)
remove_source-IsValid_example = remove_source-IsValid table 0 table-IsValid
