-- ===== src/Rsync.antt =====
-- single_fs/librsync: common.h, rsync_core.h and rsync_core.cpp. The files are byte lists. The
-- macro CHUNK_SIZE is a parameter; an int32_t is a number below 2 ^ 32, its bit pattern.
pub mod Copy
pub mod Sig
pub mod Scan
pub mod Delta
pub mod Patch
mod Tests
use just_for_test_and_try.Base.{
  ℕ, suc, ◌+◌, ◌-◌, ◌*◌, ◌/◌, ◌%◌, ◌^◌, ◌≡◌, Bool, true, false, ◌&&◌, Option, none, some, List, [],
  ◌∷◌, ◌==◌, length, ◌>>=◌, refl, arith, ◌<◌,
}
unfoldable pub use just_for_test_and_try.Base.{htonl, ntohl, bytes_eq}
pub use just_for_test_and_try.Base.{ntohl-htonl, length-htonl, bytes_eq→eq}
use just_for_test_and_try.FileMap.{FileMap, map_file_content, read_block}

-- `ChunkInfo`: one block of the old file.
pub record ChunkInfo : Type 0 where
  pub weak_sum : ℕ
  pub from : Bool
  pub offset : ℕ
  pub length_of : ℕ
  pub strong_sum : List ℕ

-- `OffsetNode`: a piece of the new file; `from` is true where its bytes stand in the delta.
pub record OffsetNode : Type 0 where
  pub from : Bool
  pub offset : ℕ
  pub length_of : ℕ

-- `MagicNum`
abbrev pub sig_magic : ℕ
sig_magic = 0x1234567

abbrev pub delta_magic : ℕ
delta_magic = 0x1234568

-- `MapFileContent(at, n)` and a read of what it points to.
unfoldable pub read_at : FileMap → List ℕ → ℕ → ℕ → Option (List ℕ × FileMap)
read_at m file at n = do
  (p, m') ← map_file_content m file at n
  block ← read_block m' p n
  some (block, m')

unfoldable pub read_word : FileMap → List ℕ → ℕ → Option (ℕ × FileMap)
unfolding read_at
read_word m file at = do (block, m') ← read_at m file at 4; v ← ntohl block; some (v, m')
