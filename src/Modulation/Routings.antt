-- ===== src/Modulation/Routings.antt =====
-- src/modulation/ModulationMatrix.cpp: the table of the user's routings, `m_user_routings`.
-- Identifiers are numbers. The rebuild that follows a change of the table is Modulation.Rebuild.
pub mod Distinct
pub mod Valid
pub mod Updates
mod Tests
use tanh_lib.Base.{
  ℕ, ◌+◌, ◌%◌, ◌^◌, Bool, true, false, not, ◌&&◌, ◌==◌, if◌then◌else◌, List, [], ◌∷◌, ◌++◌, Option,
  none, some, update,
}

-- `ModulationRouting`, as far as the table reads and changes it.
pub record UserRouting (F : Type 0) : Type 0 where
  pub id : ℕ
  pub source_id : ℕ
  pub target_id : ℕ
  pub depth : F
  pub replace_range_min : F
  pub replace_range_max : F
  pub has_replace_range : Bool

-- `m_sources` and `m_targets` are known by which keys they have.
pub record Table (F : Type 0) : Type 0 where
  pub sources : ℕ → Bool
  pub targets : ℕ → Bool
  pub user_routings : List (UserRouting F)
  pub next_routing_id : ℕ  -- uint32_t

-- The first element that passes a test, and the elements that do not.
pub find {ℓ} : {A : Type ℓ} → (A → Bool) → List A → Option A
find p [] = none
find p (x ∷ xs) = let rest = find p xs in if p x then some x else rest

pub erase_if {ℓ} : {A : Type ℓ} → (A → Bool) → List A → List A
erase_if p [] = []
erase_if p (x ∷ xs) = let rest = erase_if p xs in if p x then rest else x ∷ rest

abbrev pub has_id : {F : Type 0} → ℕ → UserRouting F → Bool
has_id routing_id r = r.id == routing_id

abbrev pub has_ends : {F : Type 0} → ℕ → ℕ → UserRouting F → Bool
has_ends source_id target_id r = (r.source_id == source_id) && (r.target_id == target_id)

pub find_user_routing : {F : Type 0} → Table F → ℕ → Option (UserRouting F)
unfolding find
find_user_routing t routing_id = find (has_id routing_id) t.user_routings

pub find_user_routing_between : {F : Type 0} → Table F → ℕ → ℕ → Option (UserRouting F)
unfolding find
find_user_routing_between t source_id target_id =
    find (has_ends source_id target_id) t.user_routings

abbrev pub has_value {ℓ} : {A : Type ℓ} → Option A → Bool
has_value none = false
has_value (some a) = true

-- `k_invalid_routing_id`
abbrev pub invalid_routing_id : ℕ
invalid_routing_id = 0

-- The state after the guards of `add_routing`.
pub store_routing : {F : Type 0} → Table F → UserRouting F → ℕ × Table F
store_routing t r = (
  t.next_routing_id,
  record t {
    targets = update t.targets r.target_id true;
    user_routings = t.user_routings ++ (record r { id = t.next_routing_id } ∷ []);
    next_routing_id = (t.next_routing_id + 1) % 2 ^ 32;
  },
)

-- `add_routing`, with `m_state.is_modulatable`.
pub add_routing : {F : Type 0} → (ℕ → Bool) → Table F → UserRouting F → ℕ × Table F
unfolding store_routing find_user_routing_between
add_routing is_modulatable t r =
    if has_value (find_user_routing_between t r.source_id r.target_id)
    then (invalid_routing_id, t)
    else if not (t.sources r.source_id)
    then (invalid_routing_id, t)
    else if not (is_modulatable r.target_id)
    then (invalid_routing_id, t)
    else store_routing t r

pub remove_routing : {F : Type 0} → Table F → ℕ → Table F
unfolding erase_if
remove_routing t routing_id = record t {
  user_routings = erase_if (has_id routing_id) t.user_routings;
}

pub remove_routing_between : {F : Type 0} → Table F → ℕ → ℕ → Table F
unfolding erase_if
remove_routing_between t source_id target_id = record t {
  user_routings = erase_if (has_ends source_id target_id) t.user_routings;
}

pub remove_source : {F : Type 0} → Table F → ℕ → Table F
unfolding erase_if
remove_source t id = record t {
  sources = update t.sources id false;
  user_routings = erase_if (λ r. r.source_id == id) t.user_routings;
}
