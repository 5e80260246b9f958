-- ===== src/Dsp/RingBuffer.antt =====
-- src/dsp/audio/RingBuffer.cpp: a circular sample store for each channel. A push into a full
-- channel overwrites the oldest sample, and samples that were popped stay readable as past.
pub mod Inv
pub mod Tape
pub mod Blocks
mod Tests
use tanh_lib.Base.{
  ℕ, zero, suc, ◌+◌, ◌-◌, ◌%◌, ◌^◌, List, [], ◌∷◌, Bool, true, false, if◌then◌else◌, ltb, ◌==◌,
  get_or, set, replicate,
}

-- `size_t` addition and subtraction.
abbrev pub add_size : ℕ → ℕ → ℕ
add_size a b = (a + b) % 2 ^ 64

abbrev pub sub_size : ℕ → ℕ → ℕ
sub_size a b = (a + 2 ^ 64 - b) % 2 ^ 64

-- One channel: its row of `m_buffer`, and its entries of `m_read_pos`, `m_write_pos`,
-- `m_is_full` and `m_num_valid`. Samples are only moved, so they are of any type.
pub record Channel {ℓ} (A : Type ℓ) : Type ℓ where
  pub row : List A
  pub read_pos : ℕ
  pub write_pos : ℕ
  pub is_full : Bool
  pub num_valid : ℕ

-- The body of `push_sample`, and of the loop in `push_block`, in its three steps. `capacity` is
-- `m_buffer.get_num_frames()`; with `capacity ≡ 0` the source divides by 0.
advance_write {ℓ} : {A : Type ℓ} → ℕ → Channel A → A → Channel A
advance_write capacity ch sample = record ch {
  row = set ch.row ch.write_pos sample;
  write_pos = add_size ch.write_pos 1 % capacity;
}

settle {ℓ} : {A : Type ℓ} → ℕ → Channel A → Channel A
settle capacity ch = if ch.is_full then (record ch { read_pos = ch.write_pos }) else (record ch {
  num_valid = if ltb ch.num_valid capacity then add_size ch.num_valid 1 else ch.num_valid;
})

test_full {ℓ} : {A : Type ℓ} → Channel A → Channel A
test_full ch = record ch { is_full = ch.write_pos == ch.read_pos }

pub push_channel {ℓ} : {A : Type ℓ} → ℕ → Channel A → A → Channel A
unfolding advance_write settle test_full
push_channel capacity ch sample = test_full (settle capacity (advance_write capacity ch sample))

-- The body of `pop_sample`, and of the loop in `pop_block`. A read out of range has the value
-- `d`; on a valid channel there is none.
pub pop_channel {ℓ} : {A : Type ℓ} → A → ℕ → Channel A → A × Channel A
pop_channel d capacity ch = (
  get_or ch.row ch.read_pos d,
  record ch { read_pos = add_size ch.read_pos 1 % capacity; is_full = false },
)

-- The loop of `push_block`, over `data[0 .. count)`.
pub push_block {ℓ} : {A : Type ℓ} → ℕ → Channel A → List A → Channel A
push_block capacity ch [] = ch
push_block capacity ch (x ∷ xs) = push_block capacity (push_channel capacity ch x) xs

-- The loop of `pop_block`: the list is what is written to `data[0 .. count)`.
pub pop_block {ℓ} : {A : Type ℓ} → A → ℕ → Channel A → ℕ → List A × Channel A
pop_block d capacity ch zero = ([], ch)
pop_block d capacity ch (suc count) =
    let (x, ch') = pop_channel d capacity ch in
    let (xs, ch'') = pop_block d capacity ch' count in (x ∷ xs, ch'')

pub get_future_sample {ℓ} : {A : Type ℓ} → A → ℕ → Channel A → ℕ → A
get_future_sample d capacity ch offset = get_or ch.row (add_size ch.read_pos offset % capacity) d

pub get_past_sample {ℓ} : {A : Type ℓ} → A → ℕ → Channel A → ℕ → A
get_past_sample d capacity ch offset =
    get_or ch.row (sub_size (add_size ch.read_pos capacity) offset % capacity) d

pub get_available_samples {ℓ} : {A : Type ℓ} → ℕ → Channel A → ℕ
get_available_samples capacity ch =
    if ch.is_full
    then capacity
    else (sub_size (add_size ch.write_pos capacity) ch.read_pos % capacity)

pub get_available_past_samples {ℓ} : {A : Type ℓ} → ℕ → Channel A → ℕ
get_available_past_samples capacity ch = sub_size ch.num_valid (get_available_samples capacity ch)

-- What `initialise_with_positions` and `clear_with_positions` leave in each channel:
-- `m_buffer.clear()` writes the zero sample everywhere.
pub cleared {ℓ} : {A : Type ℓ} → A → ℕ → Channel A
cleared d capacity = record {
  row = replicate capacity d;
  read_pos = 0;
  write_pos = 0;
  is_full = false;
  num_valid = 0;
}

-- The object: `m_buffer.get_num_frames()` and the channels.
pub record RingBuffer {ℓ} (A : Type ℓ) : Type ℓ where
  pub num_frames : ℕ
  pub channels : List (Channel A)

pub initialise_with_positions {ℓ} : {A : Type ℓ} → A → ℕ → ℕ → RingBuffer A
initialise_with_positions d num_channels num_samples = record {
  num_frames = num_samples;
  channels = replicate num_channels (cleared d num_samples);
}

clear_channels {ℓ} : {A : Type ℓ} → A → ℕ → List (Channel A) → List (Channel A)
clear_channels d n [] = []
clear_channels d n (_ ∷ chs) = cleared d n ∷ clear_channels d n chs

pub clear_with_positions {ℓ} : {A : Type ℓ} → A → RingBuffer A → RingBuffer A
unfolding clear_channels
clear_with_positions d b = record b { channels = clear_channels d b.num_frames b.channels }

-- The methods on channel `channel`; an index out of range is undefined in the source, and
-- changes nothing here.
pub push_sample {ℓ} : {A : Type ℓ} → A → RingBuffer A → ℕ → A → RingBuffer A
push_sample d b channel sample =
    let ch = get_or b.channels channel (cleared d b.num_frames) in
    record b { channels = set b.channels channel (push_channel b.num_frames ch sample) }

pub pop_sample {ℓ} : {A : Type ℓ} → A → RingBuffer A → ℕ → A × RingBuffer A
pop_sample d b channel =
    let ch = get_or b.channels channel (cleared d b.num_frames) in
    let (x, ch') = pop_channel d b.num_frames ch in
    (x, record b { channels = set b.channels channel ch' })
