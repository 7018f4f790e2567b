-- ===== src/BlockMap/Samples.antt =====
-- Sets of free numbers, an index and a table, whose first three blocks of two bytes are sevens, for tests of
-- internal/blockmap and of what stands on it
use logblock.Prelude.{
  ℕ, zero, suc, ◌+◌, ◌*◌, ◌/◌, ◌≤◌, ◌<◌, ◌≡◌, refl, inl, inr, Bool, true, false, ◌&&◌, Option, none,
  some, [], ◌∷◌, ◌++◌, arith, Bytes, replicate, ltb, ◌==◌, if◌then◌else◌, Bool-cases,
}
use logblock.Adaptor.{done, eof, BlockHoleReader}
use logblock.Readers.Views.{content, SoundReader}
use logblock.RangeMap.BitFunctions.{search_from, search_some, bitmap_function, bit_set_function}
use logblock.RangeMap.Index.{RangeIndex, bitmap_index}
use logblock.BlockMap.{FreeSet}

abbrev pub next_free : (ℕ → Bool) → Option ℕ
next_free b = if b 1 then some 1 else search_from b 65536 1

pub next_free-some : (b : ℕ → Bool) (n : ℕ) → next_free b ≡ some n → (0 < n) × (b n ≡ true)
next_free-some b n e = elim (Bool-cases (b 1)) [
  | inl h ↦ let at : 1 ≡ n = ground (arith, h, e) in ground (arith, at, h)
  | inr h ↦ let s = search_some b 65536 1 n (ground (arith, h, e)) in (omega (arith, s.0), s.1)
]

abbrev pub numbers : FreeSet
numbers = record {
  Bits = ℕ → Bool;
  all = λ i. ltb 0 i && ltb i 65536;
  test = λ b i. b i;
  clear = λ b i j. if i == j then false else b j;
  set = λ b i j. if i == j then true else b j;
  next = next_free;
  test_all = λ i. refl;
  test-clear = λ b i j. refl;
  test-set = λ b i j. refl;
  next_some = next_free-some;
}

abbrev pub index : RangeIndex
index = bitmap_index bitmap_function bit_set_function

abbrev pub sevens : BlockHoleReader
sevens = record {
  read_blocks = λ len off. record { buf = replicate len 7; count = len / 2; status = done };
  next_block_data = λ off. if ltb off 3 then (off, done) else (0, eof);
  next_block_hole = λ off. (if ltb off 3 then 3 else off, done);
}

abbrev pub sevens_view : ℕ → Option Bytes
sevens_view b = if ltb b 3 then some (7 ∷ 7 ∷ []) else none

pub sevens_content :
    (f : ℕ → Bytes) (off k : ℕ)
    → ((b : ℕ) → off ≤ b → b < off + k → sevens_view b ≡ some (f b))
    → replicate (k * 2) 7 ≡ content f off k
unfolding content
sevens_content f off zero same = refl
sevens_content f off (suc k) same =
    let e : suc k * 2 ≡ suc (suc (k * 2)) = omega arith in
    let first : (7 ∷ 7 ∷ []) ≡ f off = ground (arith, same off (omega arith) (omega arith)) in
    rw e (λ i.
      first i
      ++ sevens_content f (off + 1) k (λ b above under. same b (omega arith) (omega arith)) i)

abbrev pub sevens_sound : SoundReader 2
sevens_sound = record {
  reader = sevens;
  view = sevens_view;
  hole_done = λ off. refl;
  hole_le = λ off. ground arith;
  hole_data = λ off b above under. (7 ∷ 7 ∷ [], ground arith);
  hole_none = λ off. ground arith;
  data_ok = λ off. ground arith;
  data_done = λ off e. (ground arith, λ b above under. ground arith, (7 ∷ 7 ∷ [], ground arith));
  data_eof = λ off e b above. ground arith;
  read_blocks = λ off k f same. (sevens_content f off k same, omega arith, λ e. cc);
  view_length = λ b d e. ground arith;
}
