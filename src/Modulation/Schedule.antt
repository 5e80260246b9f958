-- ===== src/Modulation/Schedule.antt =====
-- src/modulation/ModulationMatrix.cpp, `build_schedule_from_graph`: Tarjan's algorithm on the graph
-- of dependencies between sources, and the steps that it makes of the components.
pub mod Inv
pub mod Loop
pub mod Edges
pub mod Close
pub mod Fuel
pub mod Connect
pub mod Components
pub mod Steps
pub mod Dependencies
mod Tests
use tanh_lib.Base.{
  ℕ, zero, suc, ◌+◌, Bool, true, false, not, ◌&&◌, ◌==◌, if◌then◌else◌, List, [], ◌∷◌, ◌++◌, Option,
  none, some, min, length, update,
}

-- `adj`: a key that is missing has no list, so nothing is visited. Identifiers are numbers.
abbrev pub Graph : Type 0
Graph = ℕ → List ℕ

-- The variables that `strongconnect` captures. `index_counter` is an int.
pub record Tarjan : Type 0 where
  pub index_counter : ℕ
  pub index : ℕ → Option ℕ
  pub lowlink : ℕ → ℕ
  pub on_stack : ℕ → Bool
  pub stack : List ℕ  -- top first
  pub sccs : List (List ℕ)  -- in the order of `push_back`

abbrev pub bind {ℓ κ} : {A : Type ℓ} {B : Type κ} → Option A → (A → Option B) → Option B
bind none f = none
bind (some a) f = f a

-- The first lines of `strongconnect`.
pub enter : ℕ → Tarjan → Tarjan
enter v s = record {
  index_counter = s.index_counter + 1;
  index = update s.index v (some s.index_counter);
  lowlink = update s.lowlink v s.index_counter;
  on_stack = update s.on_stack v true;
  stack = v ∷ s.stack;
  sccs = s.sccs;
}

-- `lowlink[v] = std::min(lowlink[v], n)`
pub lower : ℕ → ℕ → Tarjan → Tarjan
lower v n s = record s { lowlink = update s.lowlink v (min (s.lowlink v) n) }

-- One round of the loop over the edges; `connect` is the recursive call.
pub visit_edge : (ℕ → Tarjan → Option Tarjan) → ℕ → ℕ → Option ℕ → Tarjan → Option Tarjan
unfolding lower
visit_edge connect v w none s = bind (connect w s) (λ s'. some (lower v (s'.lowlink w) s'))
visit_edge connect v w (some i) s = some (if s.on_stack w then lower v i s else s)

pub visit_edges : (ℕ → Tarjan → Option Tarjan) → ℕ → List ℕ → Tarjan → Option Tarjan
unfolding visit_edge
visit_edges connect v [] s = some s
visit_edges connect v (w ∷ ws) s =
    bind (visit_edge connect v w (s.index w) s) (visit_edges connect v ws)

-- The `do` loop: `scc` is what has been popped. `none` is a read of an empty stack.
pub pop_until : ℕ → List ℕ → (ℕ → Bool) → List ℕ → Option (List ℕ × (ℕ → Bool) × List ℕ)
pop_until v [] on scc = none
pop_until v (w ∷ ws) on scc =
    let rest = pop_until v ws (update on w false) (scc ++ (w ∷ [])) in
    if w == v then some (ws, update on w false, scc ++ (w ∷ [])) else rest

-- `index[v]`, of a node that has an index.
abbrev pub index_of : Option ℕ → ℕ
index_of none = 0
index_of (some i) = i

-- The last lines of `strongconnect`.
pub close : ℕ → Tarjan → Option Tarjan
unfolding pop_until
close v s =
    if s.lowlink v == index_of (s.index v)
    then bind (pop_until v s.stack s.on_stack [])
        (λ p. some (record s { stack = p.0; on_stack = p.1; sccs = s.sccs ++ (p.2 ∷ []) }))
    else some s

-- On fuel; `none` also means that the fuel ran out.
pub strongconnect : Graph → ℕ → ℕ → Tarjan → Option Tarjan
unfolding enter visit_edges close
strongconnect adj zero v s = none
strongconnect adj (suc fuel) v s =
    bind (visit_edges (strongconnect adj fuel) v (adj v) (enter v s)) (close v)

-- The loop over `source_ids`.
pub connect_new : Graph → ℕ → ℕ → Option ℕ → Tarjan → Option Tarjan
unfolding strongconnect
connect_new adj fuel v none s = strongconnect adj fuel v s
connect_new adj fuel v (some i) s = some s

pub connect_all : Graph → ℕ → List ℕ → Tarjan → Option Tarjan
unfolding connect_new
connect_all adj fuel [] s = some s
connect_all adj fuel (v ∷ vs) s =
    bind (connect_new adj fuel v (s.index v) s) (connect_all adj fuel vs)

abbrev pub start : Tarjan
start = record {
  index_counter = 0;
  index = λ _. none;
  lowlink = λ _. 0;
  on_stack = λ _. false;
  stack = [];
  sccs = [];
}

-- `ScheduleStep`
pub data ScheduleStep : Type 0 where
  bulk_step : ℕ → ScheduleStep
  cyclic_step : List ℕ → ScheduleStep

-- What is registered in `m_sources`, in the order given.
pub registered : (ℕ → Bool) → List ℕ → List ℕ
registered is_source [] = []
registered is_source (x ∷ xs) =
    let rest = registered is_source xs in if is_source x then x ∷ rest else rest

-- The body of the last loop: what it appends to the schedule. A component is not empty.
pub steps_of : (ℕ → Bool) → (ℕ → Bool) → List ℕ → List ScheduleStep
unfolding registered
steps_of is_source has_self_edge [] = cyclic_step [] ∷ []
steps_of is_source has_self_edge (x ∷ []) =
    if has_self_edge x
    then cyclic_step (registered is_source (x ∷ [])) ∷ []
    else (if is_source x then bulk_step x ∷ [] else [])
steps_of is_source has_self_edge (x ∷ y ∷ scc) =
    cyclic_step (registered is_source (x ∷ y ∷ scc)) ∷ []

pub steps_of_all : (ℕ → Bool) → (ℕ → Bool) → List (List ℕ) → List ScheduleStep
unfolding steps_of
steps_of_all is_source has_self_edge [] = []
steps_of_all is_source has_self_edge (scc ∷ sccs) =
    steps_of is_source has_self_edge scc ++ steps_of_all is_source has_self_edge sccs

-- `build_schedule_from_graph`
pub build_schedule_from_graph :
    ℕ → (ℕ → Bool) → List ℕ → Graph → (ℕ → Bool) → Option (List ScheduleStep)
unfolding connect_all steps_of_all
build_schedule_from_graph fuel is_source source_ids adj has_self_edge =
    bind (connect_all adj fuel source_ids start)
      (λ s. some (steps_of_all is_source has_self_edge s.sccs))
