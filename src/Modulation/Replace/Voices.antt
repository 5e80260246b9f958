-- ===== src/Modulation/Replace/Voices.antt =====
-- `apply_replace_sample_voice`: the same write, on the state that a routing keeps for each voice.
use tanh_lib.Base.{
  ℕ, ◌+◌, ◌%◌, ◌^◌, ◌<◌, ◌≡◌, ◌≢◌, Bool, true, false, ◌&&◌, if◌then◌else◌, leb, List, length,
  get_or, set, get_or-set_self, get_or-set_ne, arith,
}
use tanh_lib.Modulation.Replace.{
  CombineMode, Routing, Slot, live_freshness, gated_write, is_hold, apply_replace_sample,
  apply_single, apply_contended, track,
}

-- The fields of `ResolvedRouting` for a polyphonic target. The three vectors of the contended path
-- are sized like `held_voice_values` where the path is taken.
pub record PolyRouting (F : Type 0) : Type 0 where
  pub combine_mode : CombineMode
  pub replace_priority : ℕ
  pub replace_hold_priority : ℕ
  pub held_voice_values : List F
  pub held_voice_active : List Bool  -- uint8_t, 0 or 1
  pub voice_active_phase_start : List ℕ
  pub voice_last_active_sample : List ℕ
  pub voice_was_active_prev : List Bool

-- What of a routing is the state of one voice.
pub voice_of : {F : Type 0} → F → PolyRouting F → ℕ → Routing F
voice_of d r v = record {
  combine_mode = r.combine_mode;
  replace_priority = r.replace_priority;
  replace_hold_priority = r.replace_hold_priority;
  held_value = get_or r.held_voice_values v d;
  held_mono_active = get_or r.held_voice_active v false;
  active_phase_start = get_or r.voice_active_phase_start v 0;
  last_active_sample = get_or r.voice_last_active_sample v 0;
  was_active_prev = get_or r.voice_was_active_prev v false;
}

-- The path with null buffers.
pub apply_single_voice :
    {F : Type 0} → F → PolyRouting F → Slot F → F → Bool → ℕ → PolyRouting F × Slot F
unfolding is_hold
apply_single_voice d r s value src_active v =
    if src_active
    then (
      record r {
        held_voice_values = set r.held_voice_values v value;
        held_voice_active = set r.held_voice_active v true;
      },
      record s { sample = value; active = true },
    )
    else (if is_hold r.combine_mode && get_or r.held_voice_active v false
        then (r, record s { sample = get_or r.held_voice_values v d; active = true })
        else (r, s))

-- The state of voice `v` after the sample `now`, on a contended target.
pub track_voice : {F : Type 0} → PolyRouting F → ℕ → F → Bool → ℕ → PolyRouting F
track_voice r now value src_active v =
    if src_active
    then (record r {
      voice_was_active_prev = set r.voice_was_active_prev v true;
      voice_active_phase_start =
          if get_or r.voice_was_active_prev v false
          then r.voice_active_phase_start
          else set r.voice_active_phase_start v now;
      voice_last_active_sample = set r.voice_last_active_sample v now;
      held_voice_values = set r.held_voice_values v value;
      held_voice_active = set r.held_voice_active v true;
    })
    else (record r { voice_was_active_prev = set r.voice_was_active_prev v false })

pub apply_contended_voice :
    {F : Type 0} → F → PolyRouting F → Slot F → ℕ → F → Bool → ℕ → PolyRouting F × Slot F
unfolding track_voice gated_write is_hold
apply_contended_voice d r s now value src_active v =
    let r' = track_voice r now value src_active v in
    if src_active
    then (
      r',
      gated_write s r.replace_priority (live_freshness (get_or r'.voice_active_phase_start v 0))
          value,
    )
    else (if is_hold r.combine_mode && get_or r.held_voice_active v false
        then (
          r',
          gated_write s r.replace_hold_priority (get_or r.voice_last_active_sample v 0)
              (get_or r.held_voice_values v d),
        )
        else (r', s))

-- `d` stands for what is read out of bounds, which the guard rules out.
pub apply_replace_sample_voice :
    {F : Type 0} → F → Bool → PolyRouting F → Slot F → ℕ → ℕ → F → Bool → ℕ → PolyRouting F × Slot F
unfolding apply_single_voice apply_contended_voice
apply_replace_sample_voice d has_priority r s block_offset i value src_active v =
    if leb (length r.held_voice_values) v
    then (r, s)
    else if has_priority
    then apply_contended_voice d r s ((block_offset + i) % 2 ^ 64) value src_active v
    else apply_single_voice d r s value src_active v

-- The vectors that the contended path reads have an entry for each voice.
abbrev pub IsTracked : {F : Type 0} → Bool → PolyRouting F → Type 0
IsTracked false r = Unit
IsTracked true r =
    (length r.voice_active_phase_start ≡ length r.held_voice_values)
    × (length r.voice_last_active_sample ≡ length r.held_voice_values)
    × (length r.voice_was_active_prev ≡ length r.held_voice_values)

-- The vectors that the path taken reads have an entry for each voice.
pub record IsSized {F : Type 0} (has_priority : Bool) (r : PolyRouting F) : Type 0 where
  pub active_sized : length r.held_voice_active ≡ length r.held_voice_values
  pub tracked : IsTracked has_priority r

module _ {F : Type 0} (d : F) (r : PolyRouting F) (s : Slot F) (block_offset i : ℕ) (value : F)
    (src_active : Bool) (v : ℕ) (inside : v < length r.held_voice_values) where
  single_voice :
      length r.held_voice_active ≡ length r.held_voice_values
      → (
        voice_of d (apply_single_voice d r s value src_active v).0 v,
        (apply_single_voice d r s value src_active v).1,
      )
        ≡ apply_single (voice_of d r v) s value src_active
  unfolding apply_single_voice apply_single voice_of
  single_voice a = ground (
    arith,
    get_or-set_self r.held_voice_values v value d,
    get_or-set_self r.held_voice_active v true false,
  )

  contended_voice :
      (now : ℕ)
      → IsSized true r
      → (
        voice_of d (apply_contended_voice d r s now value src_active v).0 v,
        (apply_contended_voice d r s now value src_active v).1,
      )
        ≡ apply_contended (voice_of d r v) s now value src_active
  unfolding apply_contended_voice apply_contended voice_of track_voice track
  contended_voice now h = ground (
    arith,
    get_or-set_self r.held_voice_values v value d,
    get_or-set_self r.held_voice_active v true false,
    get_or-set_self r.voice_active_phase_start v now 0,
    get_or-set_self r.voice_last_active_sample v now 0,
    get_or-set_self r.voice_was_active_prev v true false,
    get_or-set_self r.voice_was_active_prev v false false,
  )

  -- On a voice that the vectors have, the polyphonic write does to the sample and to the state of
  -- the voice what the monophonic write does to the sample and to a routing with that state.
  pub voice_mono :
      (has_priority : Bool)
      → IsSized has_priority r
      → (
        voice_of d
            (apply_replace_sample_voice d has_priority r s block_offset i value src_active v).0
            v,
        (apply_replace_sample_voice d has_priority r s block_offset i value src_active v).1,
      )
        ≡ apply_replace_sample has_priority (voice_of d r v) s block_offset i value src_active
  unfolding apply_replace_sample_voice apply_replace_sample
  voice_mono true h = ground (arith, contended_voice ((block_offset + i) % 2 ^ 64) h)
  voice_mono false h = ground (arith, single_voice h.active_sized)

module _ {F : Type 0} (d : F) (has_priority : Bool) (r : PolyRouting F) (s : Slot F)
    (block_offset i : ℕ) (value : F) (src_active : Bool) where
  -- Whatever the voice, the polyphonic write leaves the state of every other voice as it was.
  pub voice-frame :
      (v u : ℕ)
      → v ≢ u
      → voice_of d
          (apply_replace_sample_voice d has_priority r s block_offset i value src_active v).0
          u
        ≡ voice_of d r u
  unfolding apply_replace_sample_voice voice_of
  voice-frame v u ne = ground (
    arith,
    get_or-set_ne r.held_voice_values value d ne,
    get_or-set_ne r.held_voice_active true false ne,
    get_or-set_ne r.voice_active_phase_start ((block_offset + i) % 2 ^ 64) 0 ne,
    get_or-set_ne r.voice_last_active_sample ((block_offset + i) % 2 ^ 64) 0 ne,
    get_or-set_ne r.voice_was_active_prev true false ne,
    get_or-set_ne r.voice_was_active_prev false false ne,
  )
