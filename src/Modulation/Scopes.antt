-- ===== src/Modulation/Scopes.antt =====
-- src/modulation/ModulationMatrix.cpp: the registry of scopes, and the sources that are prepared
-- for the voices of their scope. The rebuild that follows a change is Modulation.Rebuild.
pub mod Registry
pub mod Fits
pub mod Prepared
mod Tests
use tanh_lib.Base.{
  ℕ, zero, suc, ◌+◌, ◌%◌, ◌^◌, Bool, true, false, not, ◌&&◌, ◌||◌, ◌==◌, if◌then◌else◌, List, [],
  ◌∷◌, ◌++◌, Option, none, some, get_elem?, set, length,
}
use tanh_lib.State.Paths.{Str, same}

-- `ModulationScope`; its name is a pointer, here a number.
pub record ModulationScope : Type 0 where
  pub id : ℕ  -- uint16_t
  pub name : ℕ

-- `ScopeEntry`: the pointer, and the text that it points to.
pub record ScopeEntry : Type 0 where
  pub name : ℕ
  pub text : Str
  pub voice_count : ℕ

-- An entry of `m_sources`: `voices` is what its `prepare` was last called with.
pub record Source : Type 0 where
  pub id : ℕ
  pub scope : ModulationScope
  pub voices : ℕ

-- `m_scopes` is the entry that the constructor makes, followed by the others; `is_prepared` is
-- `m_sample_rate > 0.0`.
pub record Matrix : Type 0 where
  pub global_entry : ScopeEntry
  pub other_entries : List ScopeEntry
  pub sources : List Source
  pub is_prepared : Bool

-- "global"
abbrev pub global_text : Str
global_text = 103 ∷ 108 ∷ 111 ∷ 98 ∷ 97 ∷ 108 ∷ []

-- `k_global_scope`; the pointer of its literal is number 0.
abbrev pub global_scope : ModulationScope
global_scope = record { id = 0; name = 0 }

-- `m_scopes[id]`, where there is one.
unfoldable pub entry : Matrix → ℕ → Option ScopeEntry
entry m zero = some m.global_entry
entry m (suc k) = get_elem? m.other_entries k

abbrev pub next : Option ℕ → Option ℕ
next none = none
next (some k) = some (suc k)

-- The loops from index 1 on: the position among the other entries.
pub search : Str → List ScopeEntry → Option ℕ
search name [] = none
search name (e ∷ es) = let rest = next (search name es) in if same name e.text then some 0 else rest

abbrev pub with_count : ScopeEntry → ℕ → ScopeEntry
with_count e count = record e { voice_count = count }

-- An entry that is there, at a position among the others.
pub register_again : Matrix → ℕ → Option ScopeEntry → ℕ → ModulationScope × Matrix
register_again m k none count = (global_scope, m)
register_again m k (some e) count = (
  record { id = suc k % 2 ^ 16; name = e.name },
  (if e.voice_count == count
      then m
      else (record m { other_entries = set m.other_entries k (with_count e count) })),
)

-- `address` is that of the string which `emplace_back` makes.
pub register_found : Matrix → ℕ → Str → ℕ → Option ℕ → ModulationScope × Matrix
unfolding register_again
register_found m address name count (some k) =
    register_again m k (get_elem? m.other_entries k) count
register_found m address name count none = (
  record { id = suc (length m.other_entries) % 2 ^ 16; name = address },
  record m {
    other_entries =
        m.other_entries ++ (record { name = address; text = name; voice_count = count } ∷ []);
  },
)

-- `register_scope`
pub register_scope : Matrix → ℕ → Str → ℕ → ModulationScope × Matrix
unfolding search register_found
register_scope m address name count =
    let found = register_found m address name count (search name m.other_entries) in
    if same name global_text then (global_scope, m) else found

-- The handle of an entry.
abbrev pub handle : ℕ → Option ScopeEntry → Option ModulationScope
handle id none = none
handle id (some e) = some (record { id = id % 2 ^ 16; name = e.name })

abbrev pub handle_at : Matrix → Option ℕ → Option ModulationScope
handle_at m none = none
handle_at m (some k) = handle (suc k) (get_elem? m.other_entries k)

-- `find_scope`
pub find_scope : Matrix → Str → Option ModulationScope
unfolding search
find_scope m name =
    let found = handle_at m (search name m.other_entries) in
    if same name global_text then some global_scope else found

abbrev pub count_of : Option ScopeEntry → ℕ
count_of none = 0
count_of (some e) = e.voice_count

-- `voice_count`
pub voice_count : Matrix → ModulationScope → ℕ
unfolding entry
voice_count m scope = count_of (entry m scope.id)

pub prepare_scoped : ℕ → ℕ → List Source → List Source
prepare_scoped id count [] = []
prepare_scoped id count (s ∷ ss) =
    let rest = prepare_scoped id count ss in
    if s.scope.id == id then record s { voices = count } ∷ rest else s ∷ rest

-- `set_voice_count`, by the index of the scope and the entry there.
pub resize : Matrix → ℕ → Option ScopeEntry → ℕ → Matrix
unfolding prepare_scoped
resize m zero e count = m
resize m (suc k) none count = m
resize m (suc k) (some e) count = if e.voice_count == count then m else (record m {
  other_entries = set m.other_entries k (with_count e count);
  sources = prepare_scoped (suc k) count m.sources;
})

pub set_voice_count : Matrix → ModulationScope → ℕ → Matrix
unfolding resize entry
set_voice_count m scope count = resize m scope.id (entry m scope.id) count

-- The test of a handle: an index in range, and the pointer of this matrix.
abbrev pub is_at : Option ScopeEntry → ModulationScope → Bool
is_at none scope = false
is_at (some e) scope = e.name == scope.name

-- `resolve_parameter_scope_with_lock`
pub resolve_parameter_scope : Matrix → ModulationScope → ModulationScope
unfolding entry
resolve_parameter_scope m declared =
    if declared.id == 0
    then global_scope
    else if is_at (entry m declared.id) declared
    then declared
    else global_scope

-- `prepare`: each source for the voices of its scope. The test is `sample_rate > 0.0` of the rate
-- given.
pub prepare_all : Matrix → List Source → List Source
unfolding voice_count
prepare_all m [] = []
prepare_all m (s ∷ ss) = record s { voices = voice_count m s.scope } ∷ prepare_all m ss

pub prepare : Matrix → Bool → Matrix
unfolding prepare_all
prepare m has_rate = record m { sources = prepare_all m m.sources; is_prepared = has_rate }

pub store_source : Source → List Source → List Source
store_source s [] = s ∷ []
store_source s (t ∷ ts) = let rest = store_source s ts in if t.id == s.id then s ∷ ts else t ∷ rest

-- `add_source`
pub add_source : Matrix → Source → Matrix
unfolding voice_count store_source entry
add_source m s =
    if (s.scope.id == 0) || is_at (entry m s.scope.id) s.scope
    then (record m {
      sources =
          store_source (if m.is_prepared then record s { voices = voice_count m s.scope } else s)
            m.sources;
    })
    else m

abbrev pub without : ℕ → List Source → List Source
without id [] = []
without id (s ∷ ss) = let rest = without id ss in if s.id == id then rest else s ∷ rest

-- `remove_source`, in `m_sources`; the routings are those of Modulation.Routings.
pub remove_source : Matrix → ℕ → Matrix
remove_source m id = record m { sources = without id m.sources }
