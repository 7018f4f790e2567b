-- ===== src/RangeMap/Index.antt =====
-- The part of the interface of internal/rangemap/range_map.go that the block map of internal/blockmap uses, with
-- what it promises, and the bitmap map as an implementation of it.
use logblock.Prelude.{ℕ, ◌+◌, ◌^◌, ◌<◌, ◌≡◌, Option, none, some, if◌then◌else◌}
use logblock.RangeMap.Spec.{in_range, NextMapped, NextHole}
use logblock.RangeMap.BitSets.{Bitmap256, BitSet}
use logblock.RangeMap.Bitmap
use logblock.RangeMap.Bitmap.Invariant.{IsValid}
use logblock.RangeMap.Bitmap.Add.{new_map-IsValid, get-new_map, add-Added}
use logblock.RangeMap.Bitmap.Next.{next_key_lem}
use logblock.RangeMap.Bitmap.Empty.{next_empty_lem}

-- `none` of the outer option is a panic.
pub record RangeIndex : Type 1 where
  pub Map : Type 0
  pub Valid : Map → Type 0
  pub empty : Map
  pub get : Map → ℕ → Option ℕ
  pub add : Map → ℕ → ℕ → ℕ → Map
  pub next_key : Map → ℕ → Option (Option ℕ)
  pub next_empty : Map → ℕ → Option ℕ
  pub empty-Valid : Valid empty
  pub get-empty : (x : ℕ) → get empty x ≡ none
  pub add-Valid : (m : Map) (o len v : ℕ) → Valid m → o + len < 2 ^ 64 → Valid (add m o len v)
  pub get-add :
      (m : Map) (o len v : ℕ)
      → Valid m
      → o + len < 2 ^ 64
      → (x : ℕ) → get (add m o len v) x ≡ (if in_range o len x then some v else get m x)
  pub next_key_lem :
      (m : Map) (x : ℕ)
      → Valid m
      → (r : Option ℕ) × (next_key m x ≡ some r) × NextMapped (get m) x r
  pub next_empty_lem :
      (m : Map) (x : ℕ) → Valid m → (n : ℕ) × (next_empty m x ≡ some n) × NextHole (get m) x n

-- The zero value of a uint16 is 0.
abbrev pub bitmap_index : Bitmap256 → BitSet → RangeIndex
bitmap_index B S = record {
  Map = Bitmap.BitmapRangeMap B S ℕ;
  Valid = IsValid B S;
  empty = Bitmap.new_map B S;
  get = Bitmap.get B S;
  add = Bitmap.add B S 0;
  next_key = Bitmap.next_key B S;
  next_empty = Bitmap.next_empty B S;
  empty-Valid = new_map-IsValid B S;
  get-empty = get-new_map B S;
  add-Valid = λ m o len v valid small. (add-Added B S 0 m o len v valid small).0;
  get-add = λ m o len v valid small. (add-Added B S 0 m o len v valid small).1;
  next_key_lem = λ m x valid. next_key_lem B S m valid x;
  next_empty_lem = λ m x valid. next_empty_lem B S m valid x;
}
