-- ===== src/Modulation/Replace.antt =====
-- src/modulation/ModulationMatrix.cpp: how one sample of a Replace or ReplaceHold routing is
-- written to a target, and which of several routings wins the sample.
pub mod Offers
pub mod Winner
pub mod Voices
mod Tests
use tanh_lib.Base.{
  ℕ, ◌+◌, ◌%◌, ◌^◌, Bool, true, false, not, ◌&&◌, ◌||◌, if◌then◌else◌, ltb, leb, ◌==◌, List, [],
  ◌∷◌, Option, none, some, length, get_or, set,
}

-- `CombineMode`
pub data CombineMode : Type 0 where
  additive replace replace_hold : CombineMode

pub is_hold : CombineMode → Bool
is_hold replace_hold = true
is_hold replace = false
is_hold additive = false

-- The fields of `ResolvedRouting` that a write reads and changes.
pub record Routing (F : Type 0) : Type 0 where
  pub combine_mode : CombineMode
  pub replace_priority : ℕ  -- uint32_t
  pub replace_hold_priority : ℕ  -- uint32_t
  pub held_value : F
  pub held_mono_active : Bool
  pub active_phase_start : ℕ  -- uint64_t
  pub last_active_sample : ℕ  -- uint64_t
  pub was_active_prev : Bool

-- Sample `i` of the target's buffers: `replace_buf[i]`, `active_buf[i]`, `priority_buf[i]` and
-- `freshness_buf[i]`.
pub record Slot (F : Type 0) : Type 0 where
  pub sample : F
  pub active : Bool
  pub priority : ℕ
  pub freshness : ℕ

-- `k_live_freshness_bit | phase`, on 64 bits.
abbrev pub live_freshness : ℕ → ℕ
live_freshness phase = 2 ^ 63 + phase % 2 ^ 63

-- The gate, and the write behind it, of the branches that contend for the sample.
pub gated_write : {F : Type 0} → Slot F → ℕ → ℕ → F → Slot F
gated_write s prio fresh value =
    if ltb s.priority prio || ((prio == s.priority) && leb s.freshness fresh)
    then (record { sample = value; active = true; priority = prio; freshness = fresh })
    else s

-- `apply_replace_sample` with null buffers: a target with a single Replace routing.
pub apply_single : {F : Type 0} → Routing F → Slot F → F → Bool → Routing F × Slot F
apply_single r s value src_active =
    if src_active
    then (
      record r { held_value = value; held_mono_active = true },
      record s { sample = value; active = true },
    )
    else (if is_hold r.combine_mode && r.held_mono_active
        then (r, record s { sample = r.held_value; active = true })
        else (r, s))

-- The state of the routing after the sample `now`, on a contended target.
pub track : {F : Type 0} → Routing F → ℕ → F → Bool → Routing F
track r now value src_active =
    if src_active
    then (record r {
      was_active_prev = true;
      active_phase_start = if r.was_active_prev then r.active_phase_start else now;
      last_active_sample = now;
      held_value = value;
      held_mono_active = true;
    })
    else (record r { was_active_prev = false })

-- `apply_replace_sample` with buffers: `now` is `block_offset + i`.
pub apply_contended : {F : Type 0} → Routing F → Slot F → ℕ → F → Bool → Routing F × Slot F
unfolding track gated_write is_hold
apply_contended r s now value src_active =
    let r' = track r now value src_active in
    if src_active
    then (r', gated_write s r.replace_priority (live_freshness r'.active_phase_start) value)
    else (if is_hold r.combine_mode && r.held_mono_active
        then (r', gated_write s r.replace_hold_priority r.last_active_sample r.held_value)
        else (r', s))

pub apply_replace_sample :
    {F : Type 0} → Bool → Routing F → Slot F → ℕ → ℕ → F → Bool → Routing F × Slot F
unfolding apply_single apply_contended
apply_replace_sample has_priority r s block_offset i value src_active =
    if has_priority
    then apply_contended r s ((block_offset + i) % 2 ^ 64) value src_active
    else apply_single r s value src_active
