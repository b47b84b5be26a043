-- ===== src/Rsync/Scan.antt =====
-- `ScanNewFile` of rsync_core.cpp: which pieces of the new file are blocks of the old one. `none`
-- is undefined behaviour, or that the rounds given to the outer loop are used up.
pub mod State
pub mod Judge
pub mod Roll
pub mod Pieces
pub mod Loop
use just_for_test_and_try.Base.{
  ℕ, zero, suc, ◌+◌, ◌-◌, ◌%◌, ◌^◌, ◌≡◌, min, Bool, true, false, Option, none, some, List, [], ◌∷◌,
  ◌++◌, ltb, ◌==◌, if◌then◌else◌, length, get_elem?, drop, ◌>>=◌,
}
use just_for_test_and_try.Checksum.{strong_sum}
use just_for_test_and_try.Checksum.Adler.{Checksum3, new_checksum, init, update}
use just_for_test_and_try.FileMap.{FileMap, new_file_map, map_file_content, read_block}
use just_for_test_and_try.Rsync.{ChunkInfo, OffsetNode, bytes_eq}

-- `sum_offset`: the block under each weak sum. The pointer that it holds is the only way to a
-- block here, so what is written through it is written into the map.
abbrev pub SumOffset : Type 0
SumOffset = ℕ → Option ChunkInfo

abbrev pub put_chunk : SumOffset → ChunkInfo → SumOffset
put_chunk sums chunk k = if chunk.weak_sum == k then some chunk else sums k

-- `map`: which remainders modulo 4096 some weak sum has.
abbrev pub mark : (ℕ → Bool) → ℕ → ℕ → Bool
mark table k j = if k % 4096 == j then true else table j

unfoldable pub build_table : List ChunkInfo → (ℕ → Bool) → ℕ → Bool
build_table [] table = table
build_table (chunk ∷ chunks) table = build_table chunks (mark table chunk.weak_sum)

unfoldable pub build_sums : List ChunkInfo → SumOffset → SumOffset
build_sums [] sums = sums
build_sums (chunk ∷ chunks) sums = build_sums chunks (put_chunk sums chunk)

-- The local variables `file_map`, `summer`, `sum_offset`, `curr`, `offset` and `offset_list`.
pub record Scan : Type 0 where
  pub map : FileMap
  pub summer : Checksum3
  pub sums : SumOffset
  pub curr : ℕ
  pub offset : ℕ
  pub nodes : List OffsetNode

-- What a look at a window finds: no block has its weak sum; the block that has it differs, and
-- `buf` now points to the window; or the window is that block.
pub data Judged : Type 0 where
  skipped : Judged
  differs : Option ℕ → Judged
  matched : Judged

-- `tmp_offset - offset` as an int32_t.
abbrev pub int_sub : ℕ → ℕ → ℕ
int_sub a b = (a + 2 ^ 32 - b) % 2 ^ 32

-- The pieces pushed for a block found at `at`.
unfoldable pub found_nodes : ℕ → ℕ → ℕ → ChunkInfo → List OffsetNode
found_nodes chunk_size offset at chunk =
    let block : OffsetNode = record {
      from = false;
      offset = chunk.offset;
      length_of = chunk_size;
    } in
    if offset == at
    then block ∷ []
    else (record { from = true; offset = offset; length_of = int_sub at offset } ∷ block ∷ [])

module _ (chunk_size : ℕ) (md4 : List ℕ → List ℕ) (new : List ℕ) (table : ℕ → Bool) where
  -- A block is found at `at`.
  unfoldable pub emit : Scan → ChunkInfo → ℕ → Scan
  emit s chunk at = record s {
    sums = put_chunk s.sums (record chunk { from = false });
    nodes = s.nodes ++ found_nodes chunk_size s.offset at chunk;
    offset = at + chunk_size;
  }

  -- The comparison of the window at `at` with the block of its weak sum.
  unfoldable pub compare_block : Scan → ChunkInfo → ℕ → Option (Judged × Scan)
  compare_block s chunk at = do
    (buf, m) ← map_file_content s.map new at chunk_size
    block ← read_block m buf chunk_size
    some (
        if bytes_eq (strong_sum md4 block) chunk.strong_sum
        then (matched, emit (record s { map = m }) chunk at)
        else (differs buf, record s { map = m }))

  -- The lines under `// judge`, for a window at `at`.
  unfoldable pub judge : Scan → ℕ → Option (Judged × Scan)
  judge s at =
      if table (s.summer.tmp_sum % 4096)
      then (elim (s.sums s.summer.tmp_sum) [
        | none ↦ some (skipped, s)
        | some chunk ↦ compare_block s chunk at
      ])
      else some (skipped, s)

  -- The inner loop at `i`, with `left` rounds to go. A block found leaves it at once, so that
  -- `curr` stays on that block's last byte.
  unfoldable pub roll_loop : ℕ → ℕ → ℕ → Option ℕ → Scan → Option Scan
  roll_loop junk zero i buf s = some s
  roll_loop junk (suc left) i buf s = do
    p ← buf
    b ← get_elem? s.map.buffer (p + i)
    summer ← update junk s.summer b
    (found, s') ← judge (record s { summer = summer }) (s.curr + 1 - chunk_size)
    elim found [
      | skipped ↦ roll_loop junk left (i + 1) buf (record s' { curr = s'.curr + 1 })
      | differs buf' ↦ roll_loop junk left (i + 1) buf' (record s' { curr = s'.curr + 1 })
      | matched ↦ some s'
    ]

  -- One round of the outer loop, past its test.
  unfoldable pub scan_round : ℕ → Scan → Option Scan
  scan_round junk s = do
    (buf, m) ← map_file_content s.map new s.curr chunk_size
    p ← buf
    summer ← init junk s.summer (drop p m.buffer) chunk_size
    let at = s.curr
    (found, s1) ← judge (record s { map = m; summer = summer; curr = at + chunk_size }) at
    let roll = (do
      (buf', m') ← map_file_content s1.map new s1.curr (min (length new - s1.curr) chunk_size)
      roll_loop junk chunk_size 0 buf' (record s1 { map = m' }))
    elim found [ matched ↦ some s1 | _ ↦ roll ]

  -- The outer loop.
  unfoldable pub scan_loop : ℕ → ℕ → Scan → Option Scan
  scan_loop junk zero s = none
  scan_loop junk (suc fuel) s =
      let more = (do s' ← scan_round junk s; scan_loop junk fuel s') in
      if ltb (length new) (s.curr + chunk_size) then some s else more

-- The last piece: what is left behind the last block found.
unfoldable pub last_nodes : ℕ → ℕ → List OffsetNode
last_nodes size offset =
    if ltb offset size
    then record { from = true; offset = offset; length_of = size - offset } ∷ []
    else []

-- `ScanNewFile(meta, new_file)`, with a summer built for `room` bytes. Every round of the outer loop moves on by a byte at least.
unfoldable pub scan_new_file :
    ℕ → ℕ → (List ℕ → List ℕ) → ℕ → ℕ → List ChunkInfo → List ℕ → Option (List OffsetNode)
scan_new_file room chunk_size md4 junk garbage chunks new = do
  m ← new_file_map junk garbage new
  let table = build_table chunks (λ _. false)
  let start : Scan = record {
    map = m;
    summer = new_checksum junk room;
    sums = build_sums chunks (λ _. none);
    curr = 0;
    offset = 0;
    nodes = [];
  }
  s ← scan_loop chunk_size md4 new table junk (suc (length new)) start
  some (s.nodes ++ last_nodes (length new) s.offset)
