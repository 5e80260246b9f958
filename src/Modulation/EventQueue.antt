-- ===== src/Modulation/EventQueue.antt =====
-- src/modulation/InputEventQueue.cpp: input events queued by the UI thread, drained once a block
-- by the audio thread and spread over the block, each stream (mono, or one voice) by itself.
pub mod Streams
pub mod Offsets
pub mod Drain
mod Tests
use tanh_lib.Base.{
  ℕ, zero, suc, ◌+◌, ◌*◌, ◌/◌, ◌%◌, ◌^◌, Bool, true, false, ◌&&◌, if◌then◌else◌, ltb, Option, none,
  some, List, [], ◌∷◌, ◌++◌, length, get_or, set, replicate, take,
}
use tanh_lib.Modulation.Transport.{Transport}

-- `EventType`
pub data EventType : Type 0 where
  value active : EventType

-- `Event`, over the type of its float value.
pub record Event (F : Type 0) : Type 0 where
  pub event_type : EventType
  pub is_mono : Bool
  pub voice : ℕ  -- uint8_t
  pub is_active : Bool
  pub amount : F

-- The indices into the drain buffer, sorted by stream: `m_mono_indices`, `m_voice_indices`.
pub record Buckets : Type 0 where
  pub mono : List ℕ
  pub voices : List (List ℕ)

-- One round of the loop that sorts: the event with index `i`.
pub bucket_event : {F : Type 0} → Bool → ℕ → Buckets → ℕ → Event F → Buckets
bucket_event has_mono num_voices b i e =
    if e.is_mono
    then (if has_mono then (record b { mono = b.mono ++ (i ∷ []) }) else b)
    else (if ltb e.voice num_voices
        then (record b { voices = set b.voices e.voice (get_or b.voices e.voice [] ++ (i ∷ [])) })
        else b)

pub bucket_events : {F : Type 0} → Bool → ℕ → Buckets → ℕ → List (Event F) → Buckets
bucket_events has_mono num_voices b i [] = b
bucket_events has_mono num_voices b i (e ∷ es) =
    bucket_events has_mono num_voices (bucket_event has_mono num_voices b i e) (i + 1) es

-- `bucket.clear()` for each voice.
pub clear_buckets : List (List ℕ) → List (List ℕ)
clear_buckets [] = []
clear_buckets (_ ∷ bs) = [] ∷ clear_buckets bs

-- `static_cast<uint32_t>((i * static_cast<size_t>(block_size)) / n)`
pub spread_offset : ℕ → ℕ → ℕ → ℕ
spread_offset block_size n i = (i * block_size) % 2 ^ 64 / n % 2 ^ 32

module _ {F : Type 0} (blank : Event F) where
  -- The loop of `dispatch_bucket` from round `i` on, over the indices left. The list is the calls
  -- of the callback. A read past the buffer would have the value `blank`.
  pub dispatch_from : List (Event F) → ℕ → ℕ → ℕ → List ℕ → List (Event F × ℕ)
  dispatch_from drained block_size n i [] = []
  dispatch_from drained block_size n i (j ∷ idx) =
      (get_or drained j blank, spread_offset block_size n i)
      ∷ dispatch_from drained block_size n (i + 1) idx

  pub dispatch_bucket : List (Event F) → ℕ → List ℕ → List (Event F × ℕ)
  dispatch_bucket drained block_size idx = dispatch_from drained block_size (length idx) 0 idx

  -- `for (v = 0; v < m_num_voices; ++v)`, with the rounds left.
  pub dispatch_voices : List (Event F) → ℕ → List (List ℕ) → ℕ → ℕ → List (Event F × ℕ)
  dispatch_voices drained block_size voices zero v = []
  dispatch_voices drained block_size voices (suc left) v =
      dispatch_bucket drained block_size (get_or voices v [])
      ++ dispatch_voices drained block_size voices left (v + 1)

-- The object, over its transport. `has_mono` is `m_scope == k_global_scope`.
pub record InputEventQueue {F : Type 0} (t : Transport (Event F)) : Type 0 where
  pub has_mono : Bool
  pub event_queue : t.Queue
  pub queue_capacity : ℕ
  pub num_voices : ℕ
  pub drain_buffer : List (Event F)
  pub indices : Buckets

-- `resize(n)`: the first `n` buckets, with empty ones for those that are missing.
pub resize_buckets : ℕ → List (List ℕ) → List (List ℕ)
resize_buckets zero bs = []
resize_buckets (suc n) [] = [] ∷ resize_buckets n []
resize_buckets (suc n) (b ∷ bs) = b ∷ resize_buckets n bs

module _ {F : Type 0} (t : Transport (Event F)) where
  pub prepare : InputEventQueue t → ℕ → InputEventQueue t
  unfolding clear_buckets resize_buckets
  prepare q num_voices =
      if q.has_mono
      then (record q {
        num_voices = 0;
        drain_buffer = [];
        indices = record { mono = []; voices = [] };
      })
      else (record q {
        num_voices = num_voices;
        drain_buffer = [];
        indices = record {
          mono = q.indices.mono;
          voices = clear_buckets (resize_buckets num_voices q.indices.voices);
        };
      })

  enqueue : InputEventQueue t → Event F → Bool × InputEventQueue t
  enqueue q e =
      let (stored, queue) = t.try_enqueue q.event_queue e in
      (stored, record q { event_queue = queue })

  -- `zero` is `0.0f`. `none` is a failed assertion.
  module _ (zero_value : F) where
    pub push_mono_value : InputEventQueue t → F → Option (Bool × InputEventQueue t)
    unfolding enqueue
    push_mono_value q amount =
        if q.has_mono
        then some (
            enqueue q (record {
              event_type = value;
              is_mono = true;
              voice = 0;
              is_active = false;
              amount = amount;
            }))
        else none

    pub push_mono_active : InputEventQueue t → Bool → Option (Bool × InputEventQueue t)
    unfolding enqueue
    push_mono_active q is_active =
        if q.has_mono
        then some (
            enqueue q (record {
              event_type = active;
              is_mono = true;
              voice = 0;
              is_active = is_active;
              amount = zero_value;
            }))
        else none

    -- `static_cast<uint8_t>(voice)` keeps the low eight bits.
    pub push_voice_value : InputEventQueue t → ℕ → F → Option (Bool × InputEventQueue t)
    unfolding enqueue
    push_voice_value q voice amount =
        if ltb 0 q.num_voices && ltb voice q.num_voices
        then some (
            enqueue q (record {
              event_type = value;
              is_mono = false;
              voice = voice % 256;
              is_active = false;
              amount = amount;
            }))
        else none

    pub push_voice_active : InputEventQueue t → ℕ → Bool → Option (Bool × InputEventQueue t)
    unfolding enqueue
    push_voice_active q voice is_active =
        if ltb 0 q.num_voices && ltb voice q.num_voices
        then some (
            enqueue q (record {
              event_type = active;
              is_mono = false;
              voice = voice % 256;
              is_active = is_active;
              amount = zero_value;
            }))
        else none

  -- `while (try_dequeue(evt)) push_back(evt)`: `none` means that the fuel ran out.
  pub drain_loop : ℕ → t.Queue → List (Event F) → Option (List (Event F) × t.Queue)
  drain_loop zero q buffer = none
  drain_loop (suc fuel) q buffer = elim (t.try_dequeue q) [
    | none ↦ some (buffer, q)
    | some (e, q') ↦ drain_loop fuel q' (buffer ++ (e ∷ []))
  ]

  -- The part of `drain_spread` behind the snapshot: the result, the calls of the callback and
  -- the object after it.
  pub spread_drained : Event F → InputEventQueue t → ℕ → ℕ × List (Event F × ℕ) × InputEventQueue t
  unfolding bucket_events bucket_event clear_buckets dispatch_bucket dispatch_from dispatch_voices
  spread_drained blank q block_size =
      let b =
        bucket_events q.has_mono q.num_voices
          (record {
            mono = if q.has_mono then [] else q.indices.mono;
            voices = clear_buckets q.indices.voices;
          })
          0 q.drain_buffer in
      (
        length q.drain_buffer,
        (if q.has_mono then dispatch_bucket blank q.drain_buffer block_size b.mono else [])
            ++ dispatch_voices blank q.drain_buffer block_size b.voices q.num_voices 0,
        record q { indices = b },
      )

  -- No event is queued while the loop runs.
  pub drain_spread :
      Event F → ℕ → InputEventQueue t → ℕ → Option (ℕ × List (Event F × ℕ) × InputEventQueue t)
  unfolding drain_loop spread_drained
  drain_spread blank fuel q block_size = elim (drain_loop fuel q.event_queue []) [
    | none ↦ none
    | some (drained, queue) ↦
        let q' = record q { event_queue = queue; drain_buffer = drained } in
        elim drained [ [] ↦ some (0, [], q') | _ ∷ _ ↦ some (spread_drained blank q' block_size) ]
  ]
