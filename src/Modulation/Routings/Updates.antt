-- ===== src/Modulation/Routings/Updates.antt =====
-- src/modulation/ModulationMatrix.cpp: the updates of a routing's depth and range, which change the
-- user's routing and, in place, the routing that the audio thread reads.
pub mod Mirror
pub mod Step
mod Tests
use tanh_lib.Base.{
  ℕ, ◌+◌, ◌≡◌, inl, inr, refl, sym, ap, ◌∙◌, subst, Bool, true, false, not, ◌&&◌, ◌||◌, ◌==◌,
  if◌then◌else◌, List, [], ◌∷◌, Option, none, some, arith, contains, IsNodup, Bool-cases,
  Option-cases, clash,
}
use tanh_lib.Dsp.Float.{FloatOps}
use tanh_lib.Modulation.Routings.{
  UserRouting, Table, find, has_id, has_ends, find_user_routing, find_user_routing_between,
}

-- `DepthMode`, and whether a mode of combination is one of the two that replace.
pub data DepthMode : Type 0 where
  absolute_depth : DepthMode
  normalized_depth : DepthMode

pub record Modes : Type 0 where
  pub depth_mode : DepthMode
  pub is_replace : Bool

-- What a `ResolvedTarget` says of its range: its ends, if it has one.
pub record TargetRange (F : Type 0) : Type 0 where
  pub range : Option (F × F)
  pub uses_normalized_buffer : Bool

-- The fields of a `ResolvedRouting` that are stored in place.
pub record LiveRouting (F : Type 0) : Type 0 where
  pub id : ℕ
  pub depth : F
  pub depth_abs_precomputed : F
  pub replace_range_min : F
  pub replace_range_max : F
  pub has_replace_range : Bool

module _ {F : Type 0} (ops : FloatOps F) where
  pub scaled_depth : DepthMode → Bool → F → F → F
  scaled_depth absolute_depth true depth span = ops.div depth span
  scaled_depth normalized_depth true depth span = depth
  scaled_depth absolute_depth false depth span = depth
  scaled_depth normalized_depth false depth span = ops.mul depth span

  pub precompute_in : Option (F × F) → Bool → Modes → F → F
  unfolding scaled_depth
  precompute_in none normalized modes depth = depth
  precompute_in (some range) normalized modes depth =
      scaled_depth modes.depth_mode (normalized && not modes.is_replace) depth
        (ops.sub range.1 range.0)

  -- `compute_depth_precomputed`
  pub compute_depth_precomputed : Modes → F → TargetRange F → F
  unfolding precompute_in
  compute_depth_precomputed modes depth target =
      precompute_in target.range target.uses_normalized_buffer modes depth

-- A change through the reference to a routing; routings have distinct identifiers.
pub modify :
    {F : Type 0} → ℕ → (UserRouting F → UserRouting F) → List (UserRouting F) → List (UserRouting F)
modify id f [] = []
modify id f (r ∷ rs) = let rest = modify id f rs in if r.id == id then f r ∷ rs else r ∷ rest

-- The loop over `config.m_routings`, which stops at the first with the identifier.
pub store_live :
    {F : Type 0} → ℕ → (LiveRouting F → LiveRouting F) → List (LiveRouting F) → List (LiveRouting F)
store_live id g [] = []
store_live id g (p ∷ ps) =
    let rest = store_live id g ps in if p.id == id then g p ∷ ps else p ∷ rest

-- The table, and the routings that are published.
pub record Published (F : Type 0) : Type 0 where
  pub table : Table F
  pub live : List (LiveRouting F)

-- A routing's values in both.
pub change :
    {F : Type 0}
    → Published F
    → ℕ
    → (UserRouting F → UserRouting F)
    → (LiveRouting F → LiveRouting F)
    → Published F
unfolding modify store_live
change s id f g = record {
  table = record s.table { user_routings = modify id f s.table.user_routings };
  live = store_live id g s.live;
}

module _ {F : Type 0} (ops : FloatOps F) (modes : ℕ → Modes) (target : ℕ → TargetRange F) where
  abbrev pub set_depth : F → UserRouting F → UserRouting F
  set_depth depth r = record r { depth = depth }

  abbrev pub store_depth : F → F → LiveRouting F → LiveRouting F
  store_depth depth precomputed p = record p { depth = depth; depth_abs_precomputed = precomputed }

  -- `update_routing_depth_with_lock`, by the result of the search before it.
  pub update_depth_found : Option (UserRouting F) → Published F → F → Bool × Published F
  unfolding change modify compute_depth_precomputed
  update_depth_found none s depth = (false, s)
  update_depth_found (some r) s depth =
      if s.table.targets r.target_id
      then (
        true,
        change s r.id (set_depth depth) (
            store_depth depth
              (compute_depth_precomputed ops (modes r.id) depth (target r.target_id))),
      )
      else (
        false,
        record s {
          table = record s.table {
            user_routings = modify r.id (set_depth depth) s.table.user_routings;
          };
        },
      )

  pub update_routing_depth : Published F → ℕ → F → Bool × Published F
  unfolding update_depth_found find_user_routing
  update_routing_depth s id depth = update_depth_found (find_user_routing s.table id) s depth

  pub update_routing_depth_between : Published F → ℕ → ℕ → F → Bool × Published F
  unfolding update_depth_found find_user_routing_between
  update_routing_depth_between s source_id target_id depth =
      update_depth_found (find_user_routing_between s.table source_id target_id) s depth

  abbrev pub set_range : F → F → UserRouting F → UserRouting F
  set_range lo hi r = record r {
    replace_range_min = lo;
    replace_range_max = hi;
    has_replace_range = true;
  }

  abbrev pub store_range : F → F → LiveRouting F → LiveRouting F
  store_range lo hi p = record p {
    replace_range_min = lo;
    replace_range_max = hi;
    has_replace_range = true;
  }

  -- `update_routing_replace_range`, on an identifier.
  pub update_range_found : Option (UserRouting F) → Published F → F → F → Bool × Published F
  unfolding change
  update_range_found none s lo hi = (false, s)
  update_range_found (some r) s lo hi = (true, change s r.id (set_range lo hi) (store_range lo hi))

  pub update_routing_replace_range : Published F → ℕ → F → F → Bool × Published F
  unfolding update_range_found find_user_routing
  update_routing_replace_range s id lo hi =
      update_range_found (find_user_routing s.table id) s lo hi

  pub update_routing_replace_range_between : Published F → ℕ → ℕ → F → F → Bool × Published F
  unfolding update_range_found find_user_routing_between
  update_routing_replace_range_between s source_id target_id lo hi =
      update_range_found (find_user_routing_between s.table source_id target_id) s lo hi

  -- `update_routing_replace_range_normalized`; the option is `from_normalized` of the range of the
  -- target's parameter, if there is a record of it.
  pub update_range_normalized : Option (F → F) → Published F → ℕ → ℕ → F → F → Bool × Published F
  unfolding update_routing_replace_range_between
  update_range_normalized none s source_id target_id lo hi = (false, s)
  update_range_normalized (some from_normalized) s source_id target_id lo hi =
      update_routing_replace_range_between s source_id target_id (from_normalized lo)
        (from_normalized hi)

  -- `clear_routing_replace_range`, on an identifier.
  pub clear_range_found : Option (UserRouting F) → Published F → Bool × Published F
  unfolding change
  clear_range_found none s = (false, s)
  clear_range_found (some r) s = (
    true,
    change s r.id (λ u. record u { has_replace_range = false })
        (λ p. record p { has_replace_range = false }),
  )

  pub clear_routing_replace_range : Published F → ℕ → Bool × Published F
  unfolding clear_range_found find_user_routing
  clear_routing_replace_range s id = clear_range_found (find_user_routing s.table id) s

  pub clear_routing_replace_range_between : Published F → ℕ → ℕ → Bool × Published F
  unfolding clear_range_found find_user_routing_between
  clear_routing_replace_range_between s source_id target_id =
      clear_range_found (find_user_routing_between s.table source_id target_id) s
