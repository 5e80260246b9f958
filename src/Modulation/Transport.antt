-- ===== src/Modulation/Transport.antt =====
-- What src/modulation/InputEventQueue.cpp uses of `moodycamel::ReaderWriterQueue`, a single
-- producer, single consumer FIFO of a third-party library: its documented behaviour.
use tanh_lib.Base.{◌≡◌, Bool, true, false, Option, none, some, List, [], ◌∷◌, ◌++◌}

pub record Transport (E : Type 0) : Type 1 where
  pub Queue : Type 0
  -- What is queued, the oldest first.
  pub contents : Queue → List E
  -- The result tells if the element was stored.
  pub try_enqueue : Queue → E → Bool × Queue
  pub try_dequeue : Queue → Option (E × Queue)
  pub try_enqueue-true :
      (q : Queue) (e : E)
      → (try_enqueue q e).0 ≡ true
      → contents (try_enqueue q e).1 ≡ contents q ++ (e ∷ [])
  pub try_enqueue-false :
      (q : Queue) (e : E) → (try_enqueue q e).0 ≡ false → contents (try_enqueue q e).1 ≡ contents q
  pub try_dequeue-nil : (q : Queue) → contents q ≡ [] → try_dequeue q ≡ none
  pub try_dequeue-cons :
      (q : Queue) (e : E) (es : List E)
      → contents q ≡ e ∷ es
      → (q' : Queue) × (try_dequeue q ≡ some (e, q')) × (contents q' ≡ es)
