-- ===== src/Modulation/Rebuild/Counted.antt =====
-- Pass 1: `m_replace_count`, on which the contention of a target depends.
use tanh_lib.Base.{
  ℕ, ◌+◌, ◌≡◌, subst, false, not, ◌&&◌, ◌==◌, if◌then◌else◌, List, [], ◌∷◌, Option, none, some,
  arith, Bool-cases, inl, inr,
}
use tanh_lib.Modulation.Rebuild.{
  ModulationRouting, Matrix, Target, Pass, note_routing, is_replace, info_or_new, scope_pair,
  is_rejected, collect_known, collect_ends, collect_one, collect, pass_one,
}

-- 1 for a routing that replaces the target `id` from known ends of accepted scopes, else 0.
pub counts : ModulationRouting → ℕ → Option ℕ → Option Target → ℕ
counts r id none t = 0
counts r id (some src) none = 0
counts r id (some src) (some t) =
    if (r.target_id == id)
      && (is_replace r.combine_mode && not (is_rejected (scope_pair src t.scope)))
    then 1
    else 0

pub count_replace : Matrix → ℕ → List ModulationRouting → ℕ
count_replace m id [] = 0
count_replace m id (r ∷ rs) =
    counts r id (m.sources r.source_id) (m.targets r.target_id) + count_replace m id rs

collect_known-counts_self :
    (p : Pass) (r : ModulationRouting) (src : ℕ) (t : Target)
    → (info_or_new ((collect_known p r src t.scope).target_info r.target_id)).replace_count
      ≡ counts r r.target_id (some src) (some t)
        + (info_or_new (p.target_info r.target_id)).replace_count
unfolding collect_known counts note_routing
collect_known-counts_self p r src t = ground arith

collect_known-counts_other :
    (p : Pass) (r : ModulationRouting) (src : ℕ) (t : Target) (id : ℕ)
    → (r.target_id == id) ≡ false
    → (info_or_new ((collect_known p r src t.scope).target_info id)).replace_count
      ≡ counts r id (some src) (some t) + (info_or_new (p.target_info id)).replace_count
unfolding collect_known counts
collect_known-counts_other p r src t id ne = ground arith

collect_known-counts :
    (p : Pass) (r : ModulationRouting) (src : ℕ) (t : Target) (id : ℕ)
    → (info_or_new ((collect_known p r src t.scope).target_info id)).replace_count
      ≡ counts r id (some src) (some t) + (info_or_new (p.target_info id)).replace_count
collect_known-counts p r src t id = elim (Bool-cases (r.target_id == id)) [
  | inl e ↦
      let same : r.target_id ≡ id = ground arith in
      subst
        (λ i.
          (info_or_new ((collect_known p r src t.scope).target_info i)).replace_count
          ≡ counts r i (some src) (some t) + (info_or_new (p.target_info i)).replace_count)
        same (collect_known-counts_self p r src t)
  | inr ne ↦ collect_known-counts_other p r src t id ne
]

collect_ends-counts :
    (p : Pass) (r : ModulationRouting) (src : Option ℕ) (t : Option Target) (id : ℕ)
    → (info_or_new ((collect_ends p r src t).target_info id)).replace_count
      ≡ counts r id src t + (info_or_new (p.target_info id)).replace_count
unfolding collect_ends counts
collect_ends-counts p r none t id = omega arith
collect_ends-counts p r (some src) none id = omega arith
collect_ends-counts p r (some src) (some t) id = collect_known-counts p r src t id

module _ (m : Matrix) (id : ℕ) where
  collect_one-counts :
      (p : Pass) (r : ModulationRouting)
      → (info_or_new ((collect_one m p r).target_info id)).replace_count
        ≡ counts r id (m.sources r.source_id) (m.targets r.target_id)
          + (info_or_new (p.target_info id)).replace_count
  unfolding collect_one
  collect_one-counts p r =
      collect_ends-counts p r (m.sources r.source_id) (m.targets r.target_id) id

  collect-counts :
      (p : Pass) (rs : List ModulationRouting)
      → (info_or_new ((collect m p rs).target_info id)).replace_count
        ≡ count_replace m id rs + (info_or_new (p.target_info id)).replace_count
  unfolding collect count_replace
  collect-counts p [] = omega arith
  collect-counts p (r ∷ rs) =
      omega (arith, collect-counts (collect_one m p r) rs, collect_one-counts p r)

-- Pass 1 counts for each target the routings that replace it, between known ends of accepted
-- scopes, and no others.
pub pass_one-counts :
    (m : Matrix) (id : ℕ)
    → (info_or_new ((pass_one m).target_info id)).replace_count ≡ count_replace m id m.user_routings
unfolding pass_one
pass_one-counts m id = omega (arith, collect-counts m id _ m.user_routings)
