-- ===== src/Dsp/RingBuffer/Tape.antt =====
-- A valid channel of `RingBuffer` behaves as a tape with a read head: the samples already popped
-- lie behind the head, those still to pop ahead of it, and together they are the latest pushed.
use tanh_lib.Base.{
  ℕ, suc, ◌+◌, ◌-◌, ◌%◌, ◌≤◌, ◌<◌, ◌≡◌, ◌≢◌, inl, inr, sym, List, [], ◌∷◌, ◌++◌, true, some, arith,
  length, get_or, get_elem?, set, drop, mod-eq_sub, mod_below, mod_step, mod_cong, mod-add_self,
  window-cong, dec_lt, min, ap, ap₂, ◌∙◌, subst, if◌then◌else◌, ◌==◌, window, length-window,
  window-mod, window-cons, drop-window, window-mod_eq, window-set_outside, index_ne, window-set,
  get_elem?-window,
}
use tanh_lib.Dsp.RingBuffer.{
  Channel, add_size, sub_size, push_channel, pop_channel, get_future_sample, get_past_sample,
}
use tanh_lib.Dsp.RingBuffer.Inv.{IsValid, index_step}

-- Oldest first on both sides of the head.
pub record Tape {ℓ} (A : Type ℓ) : Type ℓ where
  pub past : List A
  pub ahead : List A

-- A push at capacity forgets the oldest sample: of the past, or of what is ahead if nothing is
-- behind the head.
unfoldable pub push {ℓ} : {A : Type ℓ} → ℕ → Tape A → A → Tape A
push capacity t x =
    if length t.ahead == capacity
    then (record { past = []; ahead = drop 1 t.ahead ++ (x ∷ []) })
    else (record {
      past = if length t.past + length t.ahead == capacity then drop 1 t.past else t.past;
      ahead = t.ahead ++ (x ∷ []);
    })

-- The samples behind the head, from the index `read_pos - (num_valid - n)`.
abbrev pub tape {ℓ} : {A : Type ℓ} → A → ℕ → ℕ → Channel A → Tape A
tape d c n ch = record {
  past = window d c ch.row (ch.read_pos + c - (ch.num_valid - n)) (ch.num_valid - n);
  ahead = window d c ch.row ch.read_pos n;
}

module _ {A : Type 0} (d : A) {c n : ℕ} {ch : Channel A} (v : IsValid c n ch) where
  abbrev base : ℕ
  base = ch.read_pos + c - (ch.num_valid - n)

  abbrev behind : ℕ
  behind = ch.num_valid - n

  write-mod : ch.write_pos ≡ (ch.read_pos + n) % c
  write-mod = elim v.ahead [
    | inl e ↦ rw (mod_below {c = c} {n = ch.read_pos + n} (omega arith)) e
    | inr e ↦
        rw (mod-eq_sub {c = c} {n = ch.read_pos + n} (omega arith) (omega arith)) (omega arith)
  ]

  -- What a push does to a full channel.
  push-full :
      (x : A)
      → n ≡ c
      → push_channel c ch x ≡ record {
        row = set ch.row ch.write_pos x;
        read_pos = (ch.write_pos + 1) % c;
        write_pos = (ch.write_pos + 1) % c;
        is_full = true;
        num_valid = c;
      }
  unfolding push_channel
  push-full x e = ground arith

  -- What a push does to a channel with room.
  push-room :
      (x : A)
      → n < c
      → push_channel c ch x ≡ record {
        row = set ch.row ch.write_pos x;
        read_pos = ch.read_pos;
        write_pos = (ch.write_pos + 1) % c;
        is_full = ((ch.write_pos + 1) % c == ch.read_pos);
        num_valid = min (ch.num_valid + 1) c;
      }
  unfolding push_channel
  push-room x e = ground arith

  -- The row after a push, just past what is ahead.
  ahead-room :
      (x : A)
      → n < c
      → window d c (set ch.row ch.write_pos x) ch.read_pos (suc n)
        ≡ window d c ch.row ch.read_pos n ++ (x ∷ [])
  ahead-room x lt = window-set d c ch.row ch.read_pos n ch.write_pos x (omega arith) lt write-mod

  ahead-full :
      (x : A)
      → n ≡ c
      → window d c (set ch.row ch.write_pos x) ((ch.write_pos + 1) % c) c
        ≡ drop 1 (window d c ch.row ch.read_pos n) ++ (x ∷ [])
  ahead-full x e =
      let k : suc (c - 1) ≡ c = omega arith in
      let round : ch.write_pos ≡ ((ch.write_pos + 1) % c + (c - 1)) % c = sym (
        mod_step c (ch.write_pos + 1) (c - 1)
        ∙ mod_cong c {m = ch.write_pos + 1 + (c - 1)} {n = ch.write_pos + c} (omega arith)
        ∙ mod-eq_sub {c = c} {n = ch.write_pos + c} (omega arith) (omega arith)
        ∙ omega arith) in
      let shifted : window d c ch.row ((ch.write_pos + 1) % c) (c - 1)
          ≡ drop 1 (window d c ch.row ch.read_pos n) =
        window-mod d c ch.row (ch.write_pos + 1) (c - 1)
        ∙ window-cong d c ch.row {h = ch.write_pos + 1} {k = ch.read_pos + 1} {m = c - 1}
            {n = n - 1} (omega arith) (omega arith)
        ∙ sym (drop-window d c ch.row ch.read_pos n (omega arith)) in
      subst
        (λ m.
          window d c (set ch.row ch.write_pos x) ((ch.write_pos + 1) % c) m
          ≡ drop 1 (window d c ch.row ch.read_pos n) ++ (x ∷ []))
        k
        (window-set d c ch.row ((ch.write_pos + 1) % c) (c - 1) ch.write_pos x (omega arith)
            (omega arith) round
          ∙ ap (λ xs. xs ++ (x ∷ [])) shifted)

  -- The write index, from the start of what is behind.
  base-write : (base + ch.num_valid) % c ≡ ch.write_pos
  base-write =
      mod_cong c {m = base + ch.num_valid} {n = ch.read_pos + n + c} (omega arith)
      ∙ mod-add_self c (ch.read_pos + n)
      ∙ sym write-mod

  past-room :
      (x : A)
      → n < c
      → ch.num_valid < c
      → window d c (set ch.row ch.write_pos x) base behind ≡ window d c ch.row base behind
  past-room x lt room =
      window-set_outside d c ch.row base behind ch.write_pos x
        λ k lk e. index_ne d c base k ch.num_valid (omega arith) room (base-write ∙ e)

  past-shift :
      (x : A)
      → n < c
      → ch.num_valid ≡ c
      → window d c (set ch.row ch.write_pos x) (base + 1) (behind - 1)
        ≡ drop 1 (window d c ch.row base behind)
  past-shift x lt e =
      window-set_outside d c ch.row (base + 1) (behind - 1) ch.write_pos x apart
      ∙ sym (drop-window d c ch.row base behind (omega arith))
    where
      apart : (k : ℕ) → k < behind - 1 → ch.write_pos ≢ (base + 1 + k) % c
      apart k lk p = index_ne d c base 0 (k + 1) (omega arith) (omega arith) (
          mod_cong c {m = base + (k + 1)} {n = base + 1 + k} (omega arith)
          ∙ sym p
          ∙ sym base-write
          ∙ mod_cong c {m = base + ch.num_valid} {n = base + 0 + c} (omega arith)
          ∙ mod-add_self c (base + 0))

  -- `push_channel` on a valid channel gives the tape that `push` gives: the sample comes last
  -- ahead of the head, and at capacity the oldest sample is forgotten.
  pub push_refines :
      (x : A) → tape d c (min (n + 1) c) (push_channel c ch x) ≡ push c (tape d c n ch) x
  unfolding push
  push_refines x = elim (dec_lt n c) [
    | yes lt ↦ ground (
      arith,
      push-room x lt,
      ahead-room x lt,
      past-room x lt,
      past-shift x lt,
      length-window d c ch.row ch.read_pos n,
      length-window d c ch.row base behind,
    )
    | no ge ↦ ground (
      arith,
      push-full x (omega arith),
      ahead-full x (omega arith),
      length-window d c ch.row ch.read_pos n,
    )
  ]

  -- `pop_channel` on a valid channel with a sample available returns the first sample ahead of
  -- the head, which is then the last behind it.
  pub pop_refines :
      0 < n
      → let (x, ch') = pop_channel d c ch in
        ((tape d c (n - 1) ch').past ≡ (tape d c n ch).past ++ (x ∷ []))
        × ((tape d c n ch).ahead ≡ x ∷ (tape d c (n - 1) ch').ahead)
  unfolding pop_channel
  pop_refines h = (behind_grows, ahead_shrinks)
    where
      next : add_size ch.read_pos 1 % c ≡ (ch.read_pos + 1) % c
      next = mod_cong c (omega arith)

      start : (add_size ch.read_pos 1 % c + c - suc behind) % c ≡ base % c
      start = elim (index_step c ch.read_pos v.read_in v.small) [
        | inl (p, e) ↦ mod_cong c (omega arith)
        | inr (p, e) ↦
            sym (mod-add_self c (add_size ch.read_pos 1 % c + c - suc behind))
            ∙ mod_cong c (omega arith)
      ]

      last : (base + behind) % c ≡ ch.read_pos
      last =
          mod_cong c {m = base + behind} {n = ch.read_pos + c} (omega arith)
          ∙ mod-add_self c ch.read_pos
          ∙ mod_below v.read_in

      behind_grows :
          window d c ch.row
            (add_size ch.read_pos 1 % c + c - (ch.num_valid - (n - 1)))
            (ch.num_valid - (n - 1))
          ≡ window d c ch.row base behind ++ (get_or ch.row ch.read_pos d ∷ [])
      behind_grows =
          window-cong d c ch.row {h = add_size ch.read_pos 1 % c + c - (ch.num_valid - (n - 1))}
            {k = add_size ch.read_pos 1 % c + c - suc behind} {m = ch.num_valid - (n - 1)}
            {n = suc behind} (omega arith) (omega arith)
          ∙ window-mod_eq d c ch.row (add_size ch.read_pos 1 % c + c - suc behind) base (suc behind)
              start
          ∙ ap (λ i. window d c ch.row base behind ++ (get_or ch.row i d ∷ [])) last

      ahead_shrinks :
          window d c ch.row ch.read_pos n
          ≡ get_or ch.row ch.read_pos d ∷ window d c ch.row (add_size ch.read_pos 1 % c) (n - 1)
      ahead_shrinks =
          ap (window d c ch.row ch.read_pos) {x = n} {y = suc (n - 1)} (omega arith)
          ∙ window-cons d c ch.row ch.read_pos (n - 1)
          ∙ ap₂ (λ i xs. get_or ch.row i d ∷ xs) (mod_below v.read_in)
              (sym (window-mod d c ch.row (ch.read_pos + 1) (n - 1))
                ∙ ap (λ i. window d c ch.row i (n - 1)) (sym next))

  -- `get_future_sample` reads the samples ahead of the head, without moving it.
  pub future-eq :
      (k : ℕ) → k < n → get_elem? (tape d c n ch).ahead k ≡ some (get_future_sample d c ch k)
  unfolding get_future_sample
  future-eq k lt =
      get_elem?-window d c ch.row ch.read_pos n k lt
      ∙ ap (λ i. some (get_or ch.row (i % c) d)) {x = ch.read_pos + k} {y = add_size ch.read_pos k}
          (omega arith)

  -- `get_past_sample` at an offset from 1 to the number of past samples reads the sample at that
  -- distance behind the head.
  pub past-eq :
      (k : ℕ)
      → 0 < k
      → k ≤ ch.num_valid - n
      → get_elem? (tape d c n ch).past (ch.num_valid - n - k) ≡ some (get_past_sample d c ch k)
  unfolding get_past_sample
  past-eq k pos le =
      get_elem?-window d c ch.row base behind (behind - k) (omega arith)
      ∙ ap (λ i. some (get_or ch.row (i % c) d)) {x = base + (behind - k)}
          {y = sub_size (add_size ch.read_pos c) k} (omega arith)
