-- ===== src/Modulation/EventQueue/Streams.antt =====
-- The sorting into buckets against a direct description: the events of one stream, in the order
-- in which they were queued.
use tanh_lib.Base.{
  ℕ, zero, suc, ◌+◌, ◌≤◌, ◌<◌, ◌≡◌, refl, sym, ap, ap₂, ◌∙◌, Bool, true, ◌&&◌, not, if◌then◌else◌,
  ◌==◌, List, [], ◌∷◌, ◌++◌, map, length, get_or, arith, length-set, get_or-set_self, get_or-set_ne,
  length-map,
}
use mathlib.Core.List.{append_assoc, append-nil}
use tanh_lib.Modulation.EventQueue.{
  Event, Buckets, bucket_event, bucket_events, clear_buckets, dispatch_from, dispatch_bucket,
  dispatch_voices, spread_offset,
}

-- The elements that pass a test, in order, and their positions counted from `i`.
unfoldable pub select : {A : Type 0} → (A → Bool) → List A → List A
select p [] = []
select p (x ∷ xs) = (if p x then x ∷ [] else []) ++ select p xs

positions : {A : Type 0} → (A → Bool) → ℕ → List A → List ℕ
positions p i [] = []
positions p i (x ∷ xs) = (if p x then i ∷ [] else []) ++ positions p (i + 1) xs

-- The streams.
unfoldable pub of_voice : {F : Type 0} → ℕ → Event F → Bool
of_voice v e = not e.is_mono && (e.voice == v)

-- The `i`-th of `n` events of a stream goes to the offset `spread_offset block_size n i`.
unfoldable pub spread_from : {F : Type 0} → ℕ → ℕ → ℕ → List (Event F) → List (Event F × ℕ)
spread_from block_size n i [] = []
spread_from block_size n i (e ∷ es) =
    (e, spread_offset block_size n i) ∷ spread_from block_size n (i + 1) es

unfoldable pub spread : {F : Type 0} → ℕ → List (Event F) → List (Event F × ℕ)
unfolding spread_from
spread block_size es = spread_from block_size (length es) 0 es

-- The calls for the voices from `v` on, `left` of them.
unfoldable pub spread_voices : {F : Type 0} → ℕ → List (Event F) → ℕ → ℕ → List (Event F × ℕ)
spread_voices block_size es zero v = []
spread_voices block_size es (suc left) v =
    spread block_size (select (of_voice v) es) ++ spread_voices block_size es left (v + 1)

module _ {F : Type 0} (has_mono : Bool) (num_voices : ℕ) where
  bucket_event-mono :
      (b : Buckets) (i : ℕ) (e : Event F)
      → has_mono ≡ true
      → (bucket_event has_mono num_voices b i e).mono ≡ b.mono ++ (if e.is_mono then i ∷ [] else [])
  unfolding bucket_event
  bucket_event-mono b i e h = ground (arith, append-nil b.mono)

  bucket_event-voice :
      (v : ℕ) (b : Buckets) (i : ℕ) (e : Event F)
      → v < num_voices
      → num_voices ≤ length b.voices
      → (get_or (bucket_event has_mono num_voices b i e).voices v []
          ≡ get_or b.voices v [] ++ (if of_voice v e then i ∷ [] else []))
        × (length (bucket_event has_mono num_voices b i e).voices ≡ length b.voices)
  unfolding bucket_event of_voice
  bucket_event-voice v b i e h k =
      let new = get_or b.voices e.voice [] ++ (i ∷ []) in
      ground (
        arith,
        append-nil (get_or b.voices v []),
        length-set b.voices e.voice new,
        get_or-set_self b.voices e.voice new [],
        get_or-set_ne b.voices {i = e.voice} {j = v} new [],
      )

  -- What sorting the events from index `i` on adds to each bucket.
  bucket_events-mono :
      (b : Buckets) (i : ℕ) (es : List (Event F))
      → has_mono ≡ true
      → (bucket_events has_mono num_voices b i es).mono ≡ b.mono ++ positions (λ e. e.is_mono) i es
  unfolding bucket_events positions
  bucket_events-mono b i [] h = sym (append-nil b.mono)
  bucket_events-mono b i (e ∷ es) h =
      bucket_events-mono (bucket_event has_mono num_voices b i e) (i + 1) es h
      ∙ ap (λ xs. xs ++ positions (λ e'. e'.is_mono) (i + 1) es) (bucket_event-mono b i e h)
      ∙ append_assoc b.mono (if e.is_mono then i ∷ [] else [])
          (positions (λ e'. e'.is_mono) (i + 1) es)

  bucket_events-voice :
      (v : ℕ) (b : Buckets) (i : ℕ) (es : List (Event F))
      → v < num_voices
      → num_voices ≤ length b.voices
      → get_or (bucket_events has_mono num_voices b i es).voices v []
        ≡ get_or b.voices v [] ++ positions (of_voice v) i es
  unfolding bucket_events positions
  bucket_events-voice v b i [] h k = sym (append-nil (get_or b.voices v []))
  bucket_events-voice v b i (e ∷ es) h k =
      let (bucket, size) = bucket_event-voice v b i e h k in
      bucket_events-voice v (bucket_event has_mono num_voices b i e) (i + 1) es h (omega arith)
      ∙ ap (λ xs. xs ++ positions (of_voice v) (i + 1) es) bucket
      ∙ append_assoc (get_or b.voices v []) (if of_voice v e then i ∷ [] else [])
          (positions (of_voice v) (i + 1) es)

-- The elements at the positions that pass are the elements that pass.
get_or-positions :
    {A : Type 0} (p : A → Bool) (blank : A) (full : List A) (i : ℕ) (xs : List A)
    → ((k : ℕ) → k < length xs → get_or full (i + k) blank ≡ get_or xs k blank)
    → map (λ j. get_or full j blank) (positions p i xs) ≡ select p xs
unfolding positions select
get_or-positions p blank full i [] same = refl
get_or-positions p blank full i (x ∷ xs) same =
    let rest = get_or-positions p blank full (i + 1) xs (λ k lt.
      ap (λ m. get_or full m blank) {x = i + 1 + k} {y = i + suc k} (omega arith)
      ∙ same (suc k) (omega arith)) in
    let first : get_or full i blank ≡ x =
      ap (λ m. get_or full m blank) {x = i} {y = i + 0} (omega arith) ∙ same 0 (omega arith) in
    ground arith

module _ {F : Type 0} (blank : Event F) (drained : List (Event F)) (block_size : ℕ) where
  dispatch_from-eq :
      (n i : ℕ) (idx : List ℕ)
      → dispatch_from blank drained block_size n i idx
        ≡ spread_from block_size n i (map (λ j. get_or drained j blank) idx)
  unfolding dispatch_from spread_from
  dispatch_from-eq n i [] = refl
  dispatch_from-eq n i (j ∷ idx) =
      ap (◌∷◌ (get_or drained j blank, spread_offset block_size n i))
        (dispatch_from-eq n (i + 1) idx)

  -- A bucket that holds the positions of a stream is dispatched as that stream, spread.
  dispatch_bucket-eq :
      (p : Event F → Bool)
      → dispatch_bucket blank drained block_size (positions p 0 drained)
        ≡ spread block_size (select p drained)
  unfolding dispatch_bucket spread
  dispatch_bucket-eq p =
      let found : map (λ j. get_or drained j blank) (positions p 0 drained) ≡ select p drained =
        get_or-positions p blank drained 0 drained
          (λ k lt. ap (λ m. get_or drained m blank) {x = 0 + k} {y = k} (omega arith)) in
      dispatch_from-eq (length (positions p 0 drained)) 0 (positions p 0 drained)
      ∙ ap₂ (λ n es. spread_from block_size n 0 es)
          (sym (length-map (positions p 0 drained) (λ j. get_or drained j blank)) ∙ ap length found)
          found

get_or-clear_buckets : (bs : List (List ℕ)) (v : ℕ) → get_or (clear_buckets bs) v [] ≡ []
unfolding clear_buckets
get_or-clear_buckets [] v = refl
get_or-clear_buckets (_ ∷ bs) zero = refl
get_or-clear_buckets (_ ∷ bs) (suc v) = get_or-clear_buckets bs v

pub length-clear_buckets : (bs : List (List ℕ)) → length (clear_buckets bs) ≡ length bs
unfolding clear_buckets
length-clear_buckets [] = refl
length-clear_buckets (_ ∷ bs) = ap suc (length-clear_buckets bs)

module _ {F : Type 0} (has_mono : Bool) (num_voices : ℕ) (blank : Event F) (block_size : ℕ) where
  length-bucket_events :
      (b : Buckets) (i : ℕ) (es : List (Event F))
      → length (bucket_events has_mono num_voices b i es).voices ≡ length b.voices
  unfolding bucket_events bucket_event
  length-bucket_events b i [] = refl
  length-bucket_events b i (e ∷ es) =
      length-bucket_events (bucket_event has_mono num_voices b i e) (i + 1) es
      ∙ ground (arith, length-set b.voices e.voice (get_or b.voices e.voice [] ++ (i ∷ [])))

  module _ (drained : List (Event F)) (mono : List ℕ) (voices : List (List ℕ)) where
    abbrev sorted : Buckets
    sorted =
        bucket_events has_mono num_voices (record { mono = mono; voices = clear_buckets voices }) 0
          drained

    -- The bucket of the mono stream, sorted from an empty one.
    pub mono_calls :
        has_mono ≡ true
        → mono ≡ []
        → dispatch_bucket blank drained block_size sorted.mono
          ≡ spread block_size (select (λ e. e.is_mono) drained)
    mono_calls h e =
        ap (dispatch_bucket blank drained block_size) (
          bucket_events-mono has_mono num_voices _ 0 drained h
          ∙ ap (λ xs. xs ++ positions (λ e'. e'.is_mono) 0 drained) e)
        ∙ dispatch_bucket-eq blank drained block_size (λ e'. e'.is_mono)

    -- The buckets of the voices.
    pub voice_calls :
        (left v : ℕ)
        → v + left ≤ num_voices
        → num_voices ≤ length voices
        → dispatch_voices blank drained block_size sorted.voices left v
          ≡ spread_voices block_size drained left v
    unfolding dispatch_voices spread_voices
    voice_calls zero v h k = refl
    voice_calls (suc left) v h k =
        ap₂ ◌++◌
          (ap (dispatch_bucket blank drained block_size) (
              bucket_events-voice has_mono num_voices v _ 0 drained (omega arith)
                (omega (arith, length-clear_buckets voices))
              ∙ ap (λ xs. xs ++ positions (of_voice v) 0 drained) (get_or-clear_buckets voices v))
            ∙ dispatch_bucket-eq blank drained block_size (of_voice v))
          (voice_calls left (v + 1) (omega arith) k)

    -- Sorting keeps the number of buckets.
    pub length-sorted : length sorted.voices ≡ length voices
    length-sorted = length-bucket_events _ 0 drained ∙ length-clear_buckets voices

-- Nothing queued, nothing called.
pub spread_voices-nil :
    {F : Type 0} (block_size left v : ℕ) → spread_voices {F = F} block_size [] left v ≡ []
unfolding spread_voices spread select
spread_voices-nil bs zero v = refl
spread_voices-nil bs (suc left) v = spread_voices-nil bs left (v + 1)
