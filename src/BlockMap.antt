-- ===== src/BlockMap.antt =====
-- internal/blockmap/reader.go: a reader of blocks over many tables, with an index from blocks to tables. A table
-- is known by a number (its pointer), and `tables` are the readers; a Go map is a function. The range index
-- and the set of free numbers are parameters. A method that holds the lock is one step. Block numbers
-- and sizes are those of a device, an int64, so that sums are plain.
pub mod Push
pub mod Tables
pub mod Parts
pub mod Reads
pub mod Samples
mod Tests
use logblock.Prelude.{
  ℕ, update, zero, suc, ◌+◌, ◌-◌, ◌*◌, ◌/◌, ◌%◌, ◌≤◌, ◌<◌, ◌≡◌, Bool, true, false, not, ◌&&◌, ◌||◌,
  Option, none, some, List, [], ◌∷◌, ◌++◌, if◌then◌else◌, ltb, leb, ◌==◌, Bytes, length, replicate,
  take,
}
use logblock.Adaptor.{Status, done, eof, failed, Read, BlockHoleReader}
use logblock.RangeMap.{Range, RangeValue}
use logblock.RangeMap.Index.{RangeIndex}

-- `bitset.New(1 << 16)` with all set but 0: the free numbers of a uint16
pub record FreeSet : Type 1 where
  pub Bits : Type 0
  pub all : Bits
  pub test : Bits → ℕ → Bool
  pub clear : Bits → ℕ → Bits
  pub set : Bits → ℕ → Bits
  -- `NextSet(1)`
  pub next : Bits → Option ℕ
  pub test_all : (i : ℕ) → test all i ≡ (ltb 0 i && ltb i 65536)
  pub test-clear : (b : Bits) (i j : ℕ) → test (clear b i) j ≡ (if i == j then false else test b j)
  pub test-set : (b : Bits) (i j : ℕ) → test (set b i) j ≡ (if i == j then true else test b j)
  pub next_some : (b : Bits) (n : ℕ) → next b ≡ some n → (0 < n) × (test b n ≡ true)

unfoldable pub is_member : ℕ → List ℕ → Bool
is_member x [] = false
is_member x (y ∷ ys) = x == y || is_member x ys

-- `slices.Delete` of the first
unfoldable pub delete_table : ℕ → List ℕ → List ℕ
delete_table x [] = []
delete_table x (y ∷ ys) = if y == x then ys else y ∷ delete_table x ys

abbrev pub batch_size : ℕ
batch_size = 4096

-- `LiveBlocks`, over the ranges of `Iterate`
unfoldable pub live_blocks : List (RangeValue ℕ) → ℕ
live_blocks [] = 0
live_blocks (rg ∷ rest) = rg.length + live_blocks rest

-- `blockCount` of `GetLiveBlocks`
unfoldable pub block_count : ℕ → List (RangeValue ℕ) → ℕ
block_count iv [] = 0
block_count iv (rg ∷ rest) =
    if rg.value == iv then rg.length + block_count iv rest else block_count iv rest

-- What `ReadBlocks` returns, with the bytes that it has put into the buffer, in order.
pub data BlocksRead : Type 0 where
  blocks_read : Bytes → ℕ → Status → BlocksRead
  read_panic read_out_of_fuel invalid_read_size : BlocksRead

-- A call of `PushReader` behind its first part: the table, its number, the offset and the ranges that are pending
pub record PushCall : Type 0 where
  pub table : ℕ
  pub number : ℕ
  pub offset : ℕ
  pub ranges : List Range

module _ (I : RangeIndex) (F : FreeSet) where
  -- `Reader`
  pub record BlockMap : Type 0 where
    pub block_size : ℕ
    pub num_blocks : ℕ
    pub range_map : I.Map
    pub value_map : ℕ → Option ℕ
    pub index_map : ℕ → Option ℕ
    pub free_set : F.Bits
    pub rs : List ℕ

  -- `NewReader`
  unfoldable pub new_block_map : ℕ → ℕ → BlockMap
  new_block_map block_size num_blocks = record {
    block_size = block_size;
    num_blocks = num_blocks;
    range_map = I.empty;
    value_map = λ i. none;
    index_map = λ i. none;
    free_set = F.all;
    rs = [];
  }

  -- `NextBlockData` and `NextBlockHole`; `none` is a panic, and the inner one io.EOF.
  unfoldable pub next_block_data : BlockMap → ℕ → Option (Option ℕ)
  next_block_data r off = I.next_key r.range_map off

  unfoldable pub next_block_hole : BlockMap → ℕ → Option ℕ
  next_block_hole r off = I.next_empty r.range_map off

  -- `fetchOrAddValueIndex`; `none` is a panic.
  unfoldable pub fetch_or_add_value_index : ℕ → BlockMap → Option (ℕ × BlockMap)
  fetch_or_add_value_index br r = elim (r.index_map br) [
    | some iv ↦ some (iv, r)
    | none ↦ elim (F.next r.free_set) [
      | none ↦ none
      | some nv ↦ some (
        nv,
        record r {
          free_set = F.clear r.free_set nv;
          value_map = update r.value_map nv (some br);
          index_map = update r.index_map br (some nv);
        },
      )
    ]
  ]

  -- The part of `PushReader` under the lock; `none` is a panic.
  unfoldable pub start_push : ℕ → BlockMap → Option (ℕ × BlockMap)
  start_push br r =
      if is_member br r.rs
      then none
      else fetch_or_add_value_index br (record r { rs = r.rs ++ br ∷ [] })

  -- `doAdd`
  unfoldable pub do_add : ℕ → List Range → I.Map → I.Map
  do_add iv [] m = m
  do_add iv (rg ∷ rl) m = do_add iv rl (I.add m rg.offset rg.length iv)

  -- `addRange`: the list of pending ranges and the index afterwards
  unfoldable pub add_range : ℕ → Range → List Range → I.Map → List Range × I.Map
  add_range iv rg rl m =
      let rl' = rl ++ rg ∷ [] in
      if leb batch_size (length rl') then ([], do_add iv rl' m) else (rl', m)

  pub data Pushed : Type 0 where
    pushed : I.Map → Pushed
    panic out_of_fuel : Pushed

  -- The loop of `PushReader`, with the `doAdd` that is deferred to its end
  unfoldable pub push_loop : BlockHoleReader → ℕ → ℕ → ℕ → List Range → I.Map → Pushed
  push_loop br iv zero off rl m = out_of_fuel
  push_loop br iv (suc fuel) off rl m =
      let d = br.next_block_data off in
      let h = br.next_block_hole d.0 in
      elim d.1 [
        | eof ↦ pushed (do_add iv rl m)
        | failed ↦ panic
        | done ↦ elim h.1 [
          | done ↦
              let (rl', m') = add_range iv (record { offset = d.0; length = h.0 - d.0 }) rl m in
              push_loop br iv fuel h.0 rl' m'
          | eof ↦ panic
          | failed ↦ panic
        ]
      ]

  -- The first part, under the lock; `none` is a panic.
  unfoldable pub begin_push : ℕ → BlockMap → Option (PushCall × BlockMap)
  begin_push br r = elim (start_push br r) [
    | none ↦ none
    | some (iv, r') ↦ some (record { table = br; number = iv; offset = 0; ranges = [] }, r')
  ]

  -- An iteration of the loop of `PushReader`, which locks only for `doAdd`, or at io.EOF the end of the call, which the
  -- inner `none` stands for; the outer one is a panic.
  unfoldable pub continue_push :
      BlockHoleReader → PushCall → BlockMap → Option (Option PushCall × BlockMap)
  continue_push br c r =
      let d = br.next_block_data c.offset in
      let h = br.next_block_hole d.0 in
      let a =
        add_range c.number (record { offset = d.0; length = h.0 - d.0 }) c.ranges r.range_map in
      elim d.1 [
        | eof ↦ some (none, record r { range_map = do_add c.number c.ranges r.range_map })
        | failed ↦ none
        | done ↦ elim h.1 [
          | done ↦
              some (some (record c { offset = h.0; ranges = a.0 }), record r { range_map = a.1 })
          | eof ↦ none
          | failed ↦ none
        ]
      ]

  pub data PushResult : Type 0 where
    push_ok : BlockMap → PushResult
    push_panic push_out_of_fuel : PushResult

  -- `PushReader` of a table with a number for its name
  unfoldable pub push_reader : ℕ → ℕ → BlockHoleReader → BlockMap → PushResult
  push_reader fuel br reader r = elim (start_push br r) [
    | none ↦ push_panic
    | some (iv, r') ↦ elim (push_loop reader iv fuel 0 [] r'.range_map) [
      | pushed m ↦ push_ok (record r' { range_map = m })
      | panic ↦ push_panic
      | out_of_fuel ↦ push_out_of_fuel
    ]
  ]

  -- `RemoveTable`; `none` is its panic. A missing number reads as 0.
  unfoldable pub remove_table : ℕ → BlockMap → Option BlockMap
  remove_table br r = elim (r.index_map br) [
    | none ↦ none
    | some iv ↦
        if iv == 0
        then none
        else some (record r {
          rs = delete_table br r.rs;
          index_map = update r.index_map br none;
          value_map = update r.value_map iv none;
          free_set = F.set r.free_set iv;
        })
  ]

  unfoldable pub list_readers : BlockMap → List ℕ
  list_readers r = r.rs

  -- `find`
  unfoldable pub find : BlockMap → ℕ → Option ℕ
  find r off = elim (I.get r.range_map off) [ none ↦ none | some iv ↦ r.value_map iv ]

  -- The blocks after the first that are in the same table, of at most `rem`
  unfoldable pub run_length : BlockMap → ℕ → ℕ → ℕ → ℕ
  run_length r br off zero = 0
  run_length r br off (suc rem) =
      let more = run_length r br (off + 1) rem in
      elim (find r off) [ none ↦ 0 | some next ↦ if next == br then suc more else 0 ]

  module _ (tables : ℕ → BlockHoleReader) (r : BlockMap) where
    -- The result of a read of a table; `next` is the rest of the loop, with the length and offset that are left,
    -- the bytes and blocks read.
    unfoldable pub after_table :
        (ℕ → ℕ → Bytes → ℕ → BlocksRead) → ℕ → ℕ → Bytes → ℕ → Read → BlocksRead
    after_table next len off acc n a =
        let acc' = acc ++ take (a.count * r.block_size) a.buf in
        elim a.status [
          | done ↦
              if ltb len (a.count * r.block_size)
              then read_panic
              else next (len - a.count * r.block_size) (off + a.count) acc' (n + a.count)
          | eof ↦ blocks_read acc' (n + a.count) eof
          | failed ↦ blocks_read acc' (n + a.count) failed
        ]

    -- The loop of `ReadBlocks`
    unfoldable pub blocks_loop : ℕ → ℕ → ℕ → Bytes → ℕ → BlocksRead
    blocks_loop zero len off acc n = read_out_of_fuel
    blocks_loop (suc fuel) len off acc n =
        let next = blocks_loop fuel in
        let go : BlocksRead = elim (find r off) [
          | none ↦ next (len - r.block_size) (off + 1) (acc ++ replicate r.block_size 0) (n + 1)
          | some br ↦
              let size = 1 + run_length r br (off + 1) (len / r.block_size - 1) in
              after_table next len off acc n ((tables br).read_blocks (size * r.block_size) off)
        ] in
        if len == 0 then blocks_read acc n done else go

    -- `ReadBlocks`; an iteration reads at least a block of a sound table.
    unfoldable pub read_blocks : ℕ → ℕ → BlocksRead
    read_blocks len off =
        if len % r.block_size == 0
        then blocks_loop (suc (len / r.block_size)) len off [] 0
        else invalid_read_size
