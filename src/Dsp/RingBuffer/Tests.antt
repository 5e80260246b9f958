-- ===== src/Dsp/RingBuffer/Tests.antt =====
-- A ring buffer of three samples.
use tanh_lib.Base.{ℕ, ◌≡◌, refl, [], ◌∷◌, ◌++◌, false, arith, min, drop, ◌+◌, ◌-◌}
use tanh_lib.Dsp.RingBuffer.{Channel, push_channel, pop_channel, push_block, pop_block, cleared}
use tanh_lib.Dsp.RingBuffer.Inv.{IsValid, push-IsValid}
use tanh_lib.Dsp.RingBuffer.Tape.{tape, push, push_refines, pop_refines}
use tanh_lib.Dsp.RingBuffer.Blocks.{ahead, pop-push_block}

-- 8 and 9 are ahead, 7 is past; the write index has gone round.
abbrev turned : Channel ℕ
turned = record {
  row = 9 ∷ 7 ∷ 8 ∷ [];
  read_pos = 2;
  write_pos = 1;
  is_full = false;
  num_valid = 3;
}

turned-IsValid : IsValid 3 2 turned
turned-IsValid = ground arith

overrun :
    (pop_block {A = ℕ} 0 3 (push_block 3 (cleared 0 3) (1 ∷ 2 ∷ 3 ∷ 4 ∷ [])) 3).0 ≡ 2 ∷ 3 ∷ 4 ∷ []
unfolding pop_block push_block cleared pop_channel push_channel
overrun = refl

push-IsValid_example : IsValid 3 (min (2 + 1) 3) (push_channel 3 turned 5)
push-IsValid_example = push-IsValid turned-IsValid 5

push_refines_example :
    tape 0 3 (min (2 + 1) 3) (push_channel 3 turned 5) ≡ push 3 (tape 0 3 2 turned) 5
push_refines_example = push_refines 0 turned-IsValid 5

pop_refines_example :
    let (x, ch') = pop_channel 0 3 turned in
    ((tape 0 3 (2 - 1) ch').past ≡ (tape 0 3 2 turned).past ++ (x ∷ []))
    × ((tape 0 3 2 turned).ahead ≡ x ∷ (tape 0 3 (2 - 1) ch').ahead)
pop_refines_example = pop_refines 0 turned-IsValid (omega arith)

pop-push_block_example :
    (pop_block {A = ℕ} 0 3 (push_block 3 turned (1 ∷ 2 ∷ [])) (min (2 + 2) 3)).0
    ≡ drop (2 + 2 - 3) (ahead 0 3 2 turned ++ (1 ∷ 2 ∷ []))
pop-push_block_example = pop-push_block 0 (1 ∷ 2 ∷ []) turned-IsValid
