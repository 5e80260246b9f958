-- ===== src/Modulation/Rebuild.antt =====
-- src/modulation/ModulationMatrix.cpp: what `rebuild_schedule_with_lock` makes of the user's
-- routings, passes 1 to 2: which it accepts, the buffers that it allocates for each target, and the
-- resolved routings. A map is a function, and a loop over all its entries changes each by itself.
-- Identifiers are numbers, since the code only compares them.
pub mod Noted
pub mod Sound
pub mod Retired
pub mod Counted
mod Tests
use tanh_lib.Base.{
  ℕ, zero, suc, ◌+◌, ◌<◌, Bool, true, false, not, ◌&&◌, ◌||◌, ◌==◌, if◌then◌else◌, ltb, leb, List,
  [], ◌∷◌, ◌++◌, Option, none, some, update,
}
use tanh_lib.Modulation.Replace.{CombineMode, additive, replace, replace_hold}

-- `ModulationRouting`, as far as the passes read it and do not only copy.
pub record ModulationRouting : Type 0 where
  pub id : ℕ
  pub source_id : ℕ
  pub target_id : ℕ
  pub combine_mode : CombineMode
  pub replace_priority : ℕ
  pub replace_hold_priority : Option ℕ

pub data RoutingMode : Type 0 where
  global_to_global global_to_scoped scoped_to_scoped scoped_to_global cross_scope : RoutingMode

-- A `VoiceBuffers`, and a `MonoBuffers`: where it lies, which tells it from another of its sizes and
-- kinds, and these.
pub record VoiceBuffers : Type 0 where
  pub address : ℕ
  pub num_voices : ℕ
  pub block_size : ℕ
  pub has_additive : Bool
  pub has_replace : Bool
  pub has_replace_priority : Bool

pub record MonoBuffers : Type 0 where
  pub address : ℕ
  pub block_size : ℕ
  pub has_additive : Bool
  pub has_replace : Bool
  pub has_replace_priority : Bool

pub record Target : Type 0 where
  pub scope : ℕ
  pub voice_owner : Option VoiceBuffers
  pub mono_owner : Option MonoBuffers
  pub voice_retired : List VoiceBuffers
  pub mono_retired : List MonoBuffers

-- Where `std::make_unique` puts new buffers for a target.
pub record Addresses : Type 0 where
  pub voice : ℕ
  pub mono : ℕ

-- The fields of the matrix that the passes read, and the addresses by target. Scope 0 is
-- `k_global_scope`; a source is known by its scope.
pub record Matrix : Type 0 where
  pub sources : ℕ → Option ℕ
  pub targets : ℕ → Option Target
  pub user_routings : List ModulationRouting
  pub voice_count : ℕ → ℕ
  pub samples_per_block : ℕ
  pub addresses : ℕ → Addresses

pub record TargetInfo : Type 0 where
  pub has_same_scope_routing : Bool
  pub global_additive : Bool
  pub global_replace : Bool
  pub same_scope_additive : Bool
  pub same_scope_replace : Bool
  pub replace_count : ℕ

abbrev pub no_info : TargetInfo
no_info = record {
  has_same_scope_routing = false;
  global_additive = false;
  global_replace = false;
  same_scope_additive = false;
  same_scope_replace = false;
  replace_count = 0;
}

-- `target_info` and `rejected_routing_ids`.
pub record Pass : Type 0 where
  pub target_info : ℕ → Option TargetInfo
  pub rejected_routing_ids : ℕ → Bool

abbrev pub is_replace : CombineMode → Bool
is_replace additive = false
is_replace replace = true
is_replace replace_hold = true

-- `target_info[id]`
abbrev pub info_or_new : Option TargetInfo → TargetInfo
info_or_new none = no_info
info_or_new (some i) = i

-- What an accepted routing adds to the information on its target.
pub note_routing : Bool → Bool → TargetInfo → TargetInfo
note_routing same_scope is_replacing i = record i {
  has_same_scope_routing = i.has_same_scope_routing || same_scope;
  same_scope_replace = i.same_scope_replace || (same_scope && is_replacing);
  same_scope_additive = i.same_scope_additive || (same_scope && not is_replacing);
  global_replace = i.global_replace || (not same_scope && is_replacing);
  global_additive = i.global_additive || (not same_scope && not is_replacing);
  replace_count = if is_replacing then i.replace_count + 1 else i.replace_count;
}

-- The mode of a scope pair, of which the last two are rejected.
pub scope_pair : ℕ → ℕ → RoutingMode
scope_pair src tgt =
    if src == 0
    then (if tgt == 0 then global_to_global else global_to_scoped)
    else (if tgt == 0
        then scoped_to_global
        else (if src == tgt then scoped_to_scoped else cross_scope))

pub is_rejected : RoutingMode → Bool
is_rejected global_to_global = false
is_rejected global_to_scoped = false
is_rejected scoped_to_scoped = false
is_rejected scoped_to_global = true
is_rejected cross_scope = true

-- The body of the loop of pass 1 for a routing whose source has scope `src`, and target `tgt`.
pub collect_known : Pass → ModulationRouting → ℕ → ℕ → Pass
unfolding note_routing scope_pair is_rejected
collect_known p r src tgt =
    if is_rejected (scope_pair src tgt)
    then (record p { rejected_routing_ids = update p.rejected_routing_ids r.id true })
    else (record p {
      target_info = update p.target_info r.target_id (
          some (
            note_routing (not (src == 0) && (src == tgt)) (is_replace r.combine_mode)
              (info_or_new (p.target_info r.target_id))));
    })

-- The body of the loop of pass 1: the ends are those found in the maps.
pub collect_ends : Pass → ModulationRouting → Option ℕ → Option Target → Pass
unfolding collect_known
collect_ends p r none t = p
collect_ends p r (some src) none = p
collect_ends p r (some src) (some t) = collect_known p r src t.scope

pub collect_one : Matrix → Pass → ModulationRouting → Pass
unfolding collect_ends
collect_one m p r = collect_ends p r (m.sources r.source_id) (m.targets r.target_id)

pub collect : Matrix → Pass → List ModulationRouting → Pass
collect m p [] = p
collect m p (r ∷ rs) = collect m (collect_one m p r) rs

-- Pass 1.
pub pass_one : Matrix → Pass
unfolding collect
pass_one m =
    collect m (record { target_info = λ _. none; rejected_routing_ids = λ _. false })
      m.user_routings

abbrev pub same_bool : Bool → Bool → Bool
same_bool true b = b
same_bool false b = not b

-- `geometry_matches`, which does not compare addresses.
pub matches_voice : VoiceBuffers → VoiceBuffers → Bool
matches_voice a b =
    (a.num_voices == b.num_voices)
    && ((a.block_size == b.block_size)
        && (same_bool a.has_additive b.has_additive
            && (same_bool a.has_replace b.has_replace
                && same_bool a.has_replace_priority b.has_replace_priority)))

pub matches_mono : MonoBuffers → MonoBuffers → Bool
matches_mono a b =
    (a.block_size == b.block_size)
    && (same_bool a.has_additive b.has_additive
        && (same_bool a.has_replace b.has_replace
            && same_bool a.has_replace_priority b.has_replace_priority))

-- The voice buffers that a target gets, if any, when they are new.
pub wanted_voice : Matrix → ℕ → TargetInfo → ℕ → Option VoiceBuffers
wanted_voice m address i scope =
    if i.has_same_scope_routing && ltb 0 (m.voice_count scope)
    then some (record {
      address = address;
      num_voices = m.voice_count scope;
      block_size = m.samples_per_block;
      has_additive = i.same_scope_additive || i.global_additive;
      has_replace = i.same_scope_replace || i.global_replace;
      has_replace_priority = leb 2 i.replace_count;
    })
    else none

pub wanted_mono : Matrix → ℕ → TargetInfo → Option MonoBuffers
wanted_mono m address i =
    if not i.has_same_scope_routing && (i.global_additive || i.global_replace)
    then some (record {
      address = address;
      block_size = m.samples_per_block;
      has_additive = i.global_additive;
      has_replace = i.global_replace;
      has_replace_priority = leb 2 i.replace_count;
    })
    else none

-- The owner and the retired buffers after a pass over the target: a buffer that fits is kept, any
-- other is retired.
pub replace_voice :
    Option VoiceBuffers
    → Option VoiceBuffers
    → List VoiceBuffers
    → Option VoiceBuffers × List VoiceBuffers
unfolding matches_voice
replace_voice (some w) (some g) retired =
    if matches_voice g w then (some g, retired) else (some w, retired ++ (g ∷ []))
replace_voice (some w) none retired = (some w, retired)
replace_voice none (some g) retired = (none, retired ++ (g ∷ []))
replace_voice none none retired = (none, retired)

pub replace_mono :
    Option MonoBuffers
    → Option MonoBuffers
    → List MonoBuffers
    → Option MonoBuffers × List MonoBuffers
unfolding matches_mono
replace_mono (some w) (some g) retired =
    if matches_mono g w then (some g, retired) else (some w, retired ++ (g ∷ []))
replace_mono (some w) none retired = (some w, retired)
replace_mono none (some g) retired = (none, retired ++ (g ∷ []))
replace_mono none none retired = (none, retired)

-- Pass 1b for one target.
pub allocate : Matrix → Addresses → Option TargetInfo → Target → Target
unfolding wanted_voice wanted_mono replace_voice replace_mono
allocate m fresh info t =
    let i = info_or_new info in
    let (voice, voice_retired) =
      replace_voice (wanted_voice m fresh.voice i t.scope) t.voice_owner t.voice_retired in
    let (mono, mono_retired) =
      replace_mono (wanted_mono m fresh.mono i) t.mono_owner t.mono_retired in
    record t {
      voice_owner = voice;
      voice_retired = voice_retired;
      mono_owner = mono;
      mono_retired = mono_retired;
    }

pub allocate_entry : Matrix → Addresses → Option TargetInfo → Option Target → Option Target
unfolding allocate
allocate_entry m fresh info none = none
allocate_entry m fresh info (some t) = some (allocate m fresh info t)

-- Pass 1b.
pub allocate_all : Matrix → Pass → Matrix
unfolding allocate_entry
allocate_all m p = record m {
  targets = λ id. allocate_entry m (m.addresses id) (p.target_info id) (m.targets id);
}

-- `ResolvedRouting`, as far as the passes compute it. The vectors of the voices are known by their
-- lengths: that of `m_held_voice_values` and `m_held_voice_active`, and that of the other three.
pub record ResolvedRouting : Type 0 where
  pub id : ℕ
  pub source_id : ℕ
  pub target_id : ℕ
  pub combine_mode : CombineMode
  pub routing_mode : RoutingMode
  pub replace_priority : ℕ
  pub replace_hold_priority : ℕ
  pub num_held : ℕ
  pub num_tracked : ℕ

abbrev pub voices_of : Option VoiceBuffers → ℕ
voices_of none = 0
voices_of (some g) = g.num_voices

abbrev pub is_some {ℓ} : {A : Type ℓ} → Option A → Bool
is_some none = false
is_some (some a) = true

abbrev pub value_or : Option ℕ → ℕ → ℕ
value_or none d = d
value_or (some x) d = x

-- The body of the loop of pass 2 for a routing that is not skipped.
pub resolve_known : Option TargetInfo → ModulationRouting → ℕ → Target → ResolvedRouting
resolve_known info r src t =
    let tgt_poly = is_some t.voice_owner in
    let sized = is_replace r.combine_mode && tgt_poly in
    record {
      id = r.id;
      source_id = r.source_id;
      target_id = r.target_id;
      combine_mode = r.combine_mode;
      routing_mode =
          if tgt_poly
          then (if src == 0 then global_to_scoped else scoped_to_scoped)
          else global_to_global;
      replace_priority = r.replace_priority;
      replace_hold_priority = value_or r.replace_hold_priority r.replace_priority;
      num_held = if sized then voices_of t.voice_owner else 0;
      num_tracked =
          if sized && leb 2 (info_or_new info).replace_count then voices_of t.voice_owner else 0;
    }

-- The body of the loop of pass 2: the ends are those found in the maps.
pub resolve_one : Pass → ModulationRouting → Option ℕ → Option Target → Option ResolvedRouting
unfolding resolve_known
resolve_one p r none t = none
resolve_one p r (some src) none = none
resolve_one p r (some src) (some t) =
    if p.rejected_routing_ids r.id
    then none
    else some (resolve_known (p.target_info r.target_id) r src t)

pub push_some {ℓ} : {A : Type ℓ} → Option A → List A → List A
push_some none l = l
push_some (some a) l = a ∷ l

pub resolve : Matrix → Pass → List ModulationRouting → List ResolvedRouting
unfolding resolve_one push_some
resolve m p [] = []
resolve m p (r ∷ rs) =
    push_some (resolve_one p r (m.sources r.source_id) (m.targets r.target_id)) (resolve m p rs)

-- Passes 1, 1b and 2.
pub rebuild : Matrix → Matrix × List ResolvedRouting
unfolding pass_one allocate_all resolve
rebuild m = let p = pass_one m in let m' = allocate_all m p in (m', resolve m' p m.user_routings)
