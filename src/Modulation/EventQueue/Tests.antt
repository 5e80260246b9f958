-- ===== src/Modulation/EventQueue/Tests.antt =====
-- A queue of one voice scope over a transport that is a bounded list.
use tanh_lib.Base.{
  ℕ, ◌<◌, ◌≡◌, refl, ap, List, [], ◌∷◌, ◌++◌, true, false, Bool, Option, none, some, arith,
  if◌then◌else◌, ltb, length,
}
use tanh_lib.Modulation.Transport.{Transport}
use tanh_lib.Modulation.EventQueue.{value, Event, InputEventQueue, drain_spread, spread_offset}
use tanh_lib.Modulation.EventQueue.Streams.{spread_voices, select, spread, of_voice}
use tanh_lib.Modulation.EventQueue.Offsets.{spread_offset-lt}
use tanh_lib.Modulation.EventQueue.Drain.{IsValid, calls, drain_spread_lem}

abbrev pop : {E : Type 0} → List E → Option (E × List E)
pop [] = none
pop (e ∷ es) = some (e, es)

abbrev push : {E : Type 0} → List E → E → Bool × List E
push q e = if ltb (length q) 8 then (true, q ++ (e ∷ [])) else (false, q)

push-true : {E : Type 0} (q : List E) (e : E) → (push q e).0 ≡ true → (push q e).1 ≡ q ++ (e ∷ [])
push-true q e h = ground arith

push-false : {E : Type 0} (q : List E) (e : E) → (push q e).0 ≡ false → (push q e).1 ≡ q
push-false q e h = ground arith

-- A list that takes at most eight elements.
abbrev bounded : (E : Type 0) → Transport E
bounded E = record {
  Queue = List E;
  contents = λ q. q;
  try_enqueue = push;
  try_dequeue = pop;
  try_enqueue-true = push-true;
  try_enqueue-false = push-false;
  try_dequeue-nil = λ q h. ap pop h;
  try_dequeue-cons = λ q e es h. (es, ap pop h, refl);
}

abbrev touch : ℕ → ℕ → Event ℕ
touch voice amount = record {
  event_type = value;
  is_mono = false;
  voice = voice;
  is_active = false;
  amount = amount;
}

abbrev queue : InputEventQueue (bounded (Event ℕ))
queue = record {
  has_mono = false;
  event_queue = touch 1 10 ∷ touch 0 20 ∷ touch 1 30 ∷ touch 7 40 ∷ [];
  queue_capacity = 8;
  num_voices = 2;
  drain_buffer = [];
  indices = record { mono = []; voices = [] ∷ [] ∷ [] };
}

queue-IsValid : IsValid (bounded (Event ℕ)) queue
queue-IsValid = ground arith

-- Voice 0 has one event, voice 1 two, spread over 64 samples; the event of voice 7 is dropped.
calls-queue :
    calls (bounded (Event ℕ)) queue 64 queue.event_queue
    ≡ (touch 0 20, 0) ∷ (touch 1 10, 0) ∷ (touch 1 30, 32) ∷ []
unfolding spread_voices select spread of_voice spread_offset
calls-queue = refl

drain_spread_lem_example :
    (q' : InputEventQueue (bounded (Event ℕ))) × (drain_spread
        (bounded (Event ℕ))
        (touch 0 0)
        5
        queue
        64
      ≡ some (4, calls (bounded (Event ℕ)) queue 64 queue.event_queue, q'))
    × (q'.event_queue ≡ [])
    × IsValid (bounded (Event ℕ)) q'
drain_spread_lem_example =
    drain_spread_lem (bounded (Event ℕ)) (touch 0 0) 5 queue 64 queue-IsValid (omega arith)

spread_offset-lt_example : spread_offset 64 3 2 < 64
spread_offset-lt_example =
    spread_offset-lt 64 3 (omega arith) (omega arith) 2 (omega arith) (omega arith)
