-- ===== src/Readers/Tests.antt =====
-- A stack with a concrete reader, whose first three blocks of two bytes are sevens.
use logblock.Prelude.{
  ℕ, zero, suc, ◌+◌, ◌*◌, ◌/◌, ◌≤◌, ◌<◌, ◌≡◌, refl, Option, none, some, [], ◌∷◌, ◌++◌, arith, Bytes,
  replicate, ltb, if◌then◌else◌,
}
use logblock.Adaptor.{done, eof, BlockHoleReader}
use logblock.Readers.{result, returned, stack_read_blocks}
use logblock.Readers.Views.{content, SoundReader}
use logblock.Readers.Stack.{top, stack_read_blocks-top}

abbrev sevens : BlockHoleReader
sevens = record {
  read_blocks = λ len off. record { buf = replicate len 7; count = len / 2; status = done };
  next_block_data = λ off. if ltb off 3 then (off, done) else (0, eof);
  next_block_hole = λ off. (if ltb off 3 then 3 else off, done);
}

abbrev sevens_view : ℕ → Option Bytes
sevens_view b = if ltb b 3 then some (7 ∷ 7 ∷ []) else none

sevens_content :
    (f : ℕ → Bytes) (off k : ℕ)
    → ((b : ℕ) → off ≤ b → b < off + k → sevens_view b ≡ some (f b))
    → replicate (k * 2) 7 ≡ content f off k
unfolding content
sevens_content f off zero same = refl
sevens_content f off (suc k) same =
    let e : suc k * 2 ≡ suc (suc (k * 2)) = omega arith in
    let first : (7 ∷ 7 ∷ []) ≡ f off = ground (arith, same off (omega arith) (omega arith)) in
    rw e (λ i.
      first i
      ++ sevens_content f (off + 1) k (λ b above under. same b (omega arith) (omega arith)) i)

abbrev sevens_sound : SoundReader 2
sevens_sound = record {
  reader = sevens;
  view = sevens_view;
  hole_done = λ off. refl;
  hole_le = λ off. ground arith;
  hole_data = λ off b above under. (7 ∷ 7 ∷ [], ground arith);
  hole_none = λ off. ground arith;
  data_ok = λ off. ground arith;
  data_done = λ off e. (ground arith, λ b above under. ground arith, (7 ∷ 7 ∷ [], ground arith));
  data_eof = λ off e b above. ground arith;
  read_blocks = λ off k f same. (sevens_content f off k same, omega arith, λ e. cc);
  view_length = λ b d e. ground arith;
}

stack_read_blocks-top_example :
    stack_read_blocks 2 8 (sevens ∷ []) (4 * 2) 1
    ≡ result (returned (content (top 2 (sevens_sound ∷ [])) 1 4) 4 done)
stack_read_blocks-top_example =
    stack_read_blocks-top 2 8 (sevens_sound ∷ []) 1 4 (omega arith) (omega arith)
