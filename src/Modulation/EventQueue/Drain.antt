-- ===== src/Modulation/EventQueue/Drain.antt =====
-- `drain_spread` against the queue of events that it finds.
use tanh_lib.Base.{
  ℕ, zero, suc, ◌%◌, ◌≤◌, ◌<◌, ◌≡◌, refl, sym, ap, ◌∙◌, true, false, if◌then◌else◌, some, List, [],
  ◌∷◌, ◌++◌, length, arith,
}
use mathlib.Core.List.{append_assoc, append-nil}
use tanh_lib.Modulation.Transport.{Transport}
use tanh_lib.Modulation.EventQueue.{
  Event, value, InputEventQueue, prepare, push_voice_value, drain_loop, drain_spread,
  spread_drained, resize_buckets,
}
use tanh_lib.Modulation.EventQueue.Streams.{
  select, spread, spread_voices, spread_voices-nil, mono_calls, voice_calls, length-sorted,
  length-clear_buckets,
}

length-resize_buckets : (n : ℕ) (bs : List (List ℕ)) → length (resize_buckets n bs) ≡ n
unfolding resize_buckets
length-resize_buckets zero bs = refl
length-resize_buckets (suc n) [] = ap suc (length-resize_buckets n [])
length-resize_buckets (suc n) (b ∷ bs) = ap suc (length-resize_buckets n bs)

module _ {F : Type 0} (t : Transport (Event F)) where
  -- There is a bucket for each voice, and a global queue has no voices.
  pub record IsValid (q : InputEventQueue t) : Type 0 where
    pub buckets : q.num_voices ≤ length q.indices.voices
    pub no_voices : q.has_mono ≡ true → q.num_voices ≡ 0

  -- The snapshot: with more fuel than events queued it takes all of them, in order.
  pub drain_loop_lem :
      (fuel : ℕ) (q : t.Queue) (buffer es : List (Event F))
      → t.contents q ≡ es
      → length es < fuel
      → (q' : t.Queue) × (drain_loop t fuel q buffer ≡ some (buffer ++ es, q'))
        × (t.contents q' ≡ [])
  unfolding drain_loop
  drain_loop_lem zero q buffer es e h = elim h [ ]
  drain_loop_lem (suc fuel) q buffer [] e h = (
    q,
    rw (t.try_dequeue-nil q e, drain_loop) (ap (λ b. some (b, q)) (sym (append-nil buffer))),
    e,
  )
  drain_loop_lem (suc fuel) q buffer (x ∷ es) e h =
      let (q', taken, left) = t.try_dequeue-cons q x es e in
      let (q'', all, nothing) = drain_loop_lem fuel q' (buffer ++ (x ∷ [])) es left (omega arith) in
      (
        q'',
        rw (taken, drain_loop) (all ∙ ap (λ b. some (b, q'')) (append_assoc buffer (x ∷ []) es)),
        nothing,
      )

  -- The calls that a drain of the events `es` makes, stream by stream.
  abbrev pub calls : InputEventQueue t → ℕ → List (Event F) → List (Event F × ℕ)
  calls q block_size es =
      (if q.has_mono then spread block_size (select (λ e. e.is_mono) es) else [])
      ++ spread_voices block_size es q.num_voices 0

  calls-nil : (q : InputEventQueue t) (block_size : ℕ) → calls q block_size [] ≡ []
  unfolding select spread
  calls-nil q bs = ground (arith, spread_voices-nil {F = F} bs q.num_voices 0)

  spread_drained-calls :
      (blank : Event F) (q : InputEventQueue t) (block_size : ℕ)
      → IsValid q
      → (spread_drained t blank q block_size).1 ≡ calls q block_size q.drain_buffer
  unfolding spread_drained
  spread_drained-calls blank q bs v =
      let mono = if q.has_mono then [] else q.indices.mono in
      ground (
        arith,
        mono_calls q.has_mono q.num_voices blank bs q.drain_buffer mono q.indices.voices,
        voice_calls q.has_mono q.num_voices blank bs q.drain_buffer mono q.indices.voices
            q.num_voices 0,
      )

  spread_drained-IsValid :
      (blank : Event F) (q : InputEventQueue t) (block_size : ℕ)
      → IsValid q
      → IsValid (spread_drained t blank q block_size).2
  unfolding spread_drained
  spread_drained-IsValid blank q bs v = omega (
    arith,
    length-sorted q.has_mono q.num_voices blank bs q.drain_buffer
        (if q.has_mono then [] else q.indices.mono) q.indices.voices,
  )

  -- A drain takes every queued event, returns their number, makes the calls of each stream, the
  -- mono stream first and then the voices by index, and leaves the queue empty and valid.
  pub drain_spread_lem :
      (blank : Event F) (fuel : ℕ) (q : InputEventQueue t) (block_size : ℕ)
      → IsValid q
      → length (t.contents q.event_queue) < fuel
      → (q' : InputEventQueue t) × (drain_spread t blank fuel q block_size
          ≡ some (
            length (t.contents q.event_queue),
            calls q block_size (t.contents q.event_queue),
            q',
          ))
        × (t.contents q'.event_queue ≡ [])
        × IsValid q'
  unfolding drain_spread
  drain_spread_lem blank fuel q bs v h = go (t.contents q.event_queue) refl h
    where
      go :
          (es : List (Event F))
          → t.contents q.event_queue ≡ es
          → length es < fuel
          → (q' : InputEventQueue t) × (drain_spread t blank fuel q bs
              ≡ some (length es, calls q bs es, q'))
            × (t.contents q'.event_queue ≡ [])
            × IsValid q'
      go [] e k =
          let (queue, all, nothing) = drain_loop_lem fuel q.event_queue [] [] e k in
          (
            record q { event_queue = queue; drain_buffer = [] },
            rw (all, drain_spread)
                (ap (λ c. some (0, c, record q { event_queue = queue; drain_buffer = [] }))
                  (sym (calls-nil q bs))),
            nothing,
            record { buckets = v.buckets; no_voices = v.no_voices },
          )
      go (x ∷ es) e k =
          let (queue, all, nothing) = drain_loop_lem fuel q.event_queue [] (x ∷ es) e k in
          let q₁ : InputEventQueue t = record q { event_queue = queue; drain_buffer = x ∷ es } in
          let v₁ : IsValid q₁ = record { buckets = v.buckets; no_voices = v.no_voices } in
          (
            (spread_drained t blank q₁ bs).2,
            rw (all, drain_spread)
                (ap (λ c. some (length (x ∷ es), c, (spread_drained t blank q₁ bs).2))
                  (spread_drained-calls blank q₁ bs v₁)),
            nothing,
            spread_drained-IsValid blank q₁ bs v₁,
          )

  -- `prepare` leaves a valid queue, with no buckets for a global scope.
  pub prepare-IsValid : (q : InputEventQueue t) (n : ℕ) → IsValid (prepare t q n)
  unfolding prepare
  prepare-IsValid q n = ground (
    arith,
    length-clear_buckets (resize_buckets n q.indices.voices),
    length-resize_buckets n q.indices.voices,
  )

  -- A push of a voice value that is stored puts the event behind those queued, for the voice
  -- modulo 256; with at most 256 voices that is the voice named.
  pub push_voice_value_lem :
      (z : F) (q : InputEventQueue t) (voice : ℕ) (amount : F) {q' : InputEventQueue t}
      → push_voice_value t z q voice amount ≡ some (true, q')
      → (voice < q.num_voices)
        × (t.contents q'.event_queue
            ≡ t.contents q.event_queue
              ++ (record {
                event_type = value;
                is_mono = false;
                voice = voice % 256;
                is_active = false;
                amount = amount;
              }
                  ∷ []))
  unfolding push_voice_value
  push_voice_value_lem z q voice amount {q'} h = ground (
    arith,
    t.try_enqueue-true q.event_queue (record {
      event_type = value;
      is_mono = false;
      voice = voice % 256;
      is_active = false;
      amount = amount;
    }),
  )
