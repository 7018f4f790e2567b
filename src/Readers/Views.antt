-- ===== src/Readers/Views.antt =====
-- What a block reader shows: a view gives the bytes of each block that it has.
use logblock.Prelude.{
  ℕ, zero, suc, ◌+◌, ◌*◌, ◌≤◌, ◌<◌, ◌≡◌, refl, sym, ap, ◌∙◌, Option, none, some, [], ◌++◌, arith,
  Bytes, length, append_assoc, ◌≢◌,
}
use logblock.Adaptor.{done, eof, failed, BlockHoleReader}

-- The bytes of `k` blocks from an offset on.
unfoldable pub content : (ℕ → Bytes) → ℕ → ℕ → Bytes
content f off zero = []
content f off (suc k) = f off ++ content f (off + 1) k

pub content-add :
    (f : ℕ → Bytes) (off a b : ℕ) → content f off (a + b) ≡ content f off a ++ content f (off + a) b
unfolding content
content-add f off zero b =
    let e : 0 + b ≡ b = omega arith in let g : off + 0 ≡ off = omega arith in rw e (rw g refl)
content-add f off (suc a) b =
    let e : suc a + b ≡ suc (a + b) = omega arith in
    let g : off + suc a ≡ off + 1 + a = omega arith in
    rw e (
      rw g (
        ap (λ t. f off ++ t) (content-add f (off + 1) a b)
        ∙ sym (append_assoc (f off) (content f (off + 1) a) (content f (off + 1 + a) b))))

-- Views that agree on the blocks have the same bytes there.
pub content_agree :
    (f g : ℕ → Bytes) (off k : ℕ)
    → ((b : ℕ) → off ≤ b → b < off + k → f b ≡ g b)
    → content f off k ≡ content g off k
unfolding content
content_agree f g off zero same = refl
content_agree f g off (suc k) same = λ i.
    same off (omega arith) (omega arith) i
    ++ content_agree f g (off + 1) k (λ b above below. same b (omega arith) (omega arith)) i

-- The block of a view, or else of what is below it.
abbrev pub or_below : Option Bytes → Bytes → Bytes
or_below none b = b
or_below (some a) b = a

-- A reader whose answers are those of a view, by the contract of internal/t/t.go: the next hole is the first
-- block from the offset on that it does not have, the next data the first that it has, and a read of
-- blocks that it has gives their bytes.
pub record SoundReader (block_size : ℕ) : Type 0 where
  pub reader : BlockHoleReader
  pub view : ℕ → Option Bytes
  pub hole_done : (off : ℕ) → (reader.next_block_hole off).1 ≡ done
  pub hole_le : (off : ℕ) → off ≤ (reader.next_block_hole off).0
  pub hole_data :
      (off b : ℕ) → off ≤ b → b < (reader.next_block_hole off).0 → (d : Bytes) × (view b ≡ some d)
  pub hole_none : (off : ℕ) → view (reader.next_block_hole off).0 ≡ none
  pub data_ok : (off : ℕ) → (reader.next_block_data off).1 ≢ failed
  pub data_done :
      (off : ℕ)
      → (reader.next_block_data off).1 ≡ done
      → (off ≤ (reader.next_block_data off).0)
        × ((b : ℕ) → off ≤ b → b < (reader.next_block_data off).0 → view b ≡ none)
        × ((d : Bytes) × (view (reader.next_block_data off).0 ≡ some d))
  pub data_eof :
      (off : ℕ) → (reader.next_block_data off).1 ≡ eof → (b : ℕ) → off ≤ b → view b ≡ none
  pub read_blocks :
      (off k : ℕ) (f : ℕ → Bytes)
      → ((b : ℕ) → off ≤ b → b < off + k → view b ≡ some (f b))
      → ((reader.read_blocks (k * block_size) off).buf ≡ content f off k)
        × ((reader.read_blocks (k * block_size) off).count ≡ k)
        × ((reader.read_blocks (k * block_size) off).status ≢ failed)
  pub view_length : (b : ℕ) (d : Bytes) → view b ≡ some d → length d ≡ block_size
