-- ===== src/Rsync/Scan/State.antt =====
-- The invariant of `ScanNewFile`, and the tables that it builds from a signature.
use just_for_test_and_try.Base.{
  ℕ, ◌+◌, ◌≤◌, ◌<◌, ◌≡◌, inl, inr, Bool-cases, some, List, [], ◌∷◌, ◌==◌, length, slice,
}
use just_for_test_and_try.Checksum.{AllBytes, strong_sum}
use just_for_test_and_try.Checksum.Adler.{window_room}
use just_for_test_and_try.Checksum.Adler.Rolling.{CanInit}
use just_for_test_and_try.FileMap.{default_buffer_length}
use just_for_test_and_try.Rsync.{ChunkInfo}
use just_for_test_and_try.Rsync.Copy.{Reads}
use just_for_test_and_try.Rsync.Scan.{Scan, SumOffset, put_chunk, build_sums}
use just_for_test_and_try.Rsync.Scan.Pieces.{Covers}

-- What the program asks of the digest function: 16 bytes for every block.
pub record IsDigest (md4 : List ℕ → List ℕ) : Type 0 where
  pub size : (block : List ℕ) → length (md4 block) ≡ 16
  pub bytes : (block : List ℕ) → AllBytes (md4 block)

-- No window of the new file has the digest of a block of the old one that differs from it.
abbrev pub NoCollision : ℕ → (List ℕ → List ℕ) → List ℕ → List ℕ → Type 0
NoCollision c md4 old new =
    (i j : ℕ)
    → i + c ≤ length new
    → j + c ≤ length old
    → md4 (slice i c new) ≡ md4 (slice j c old)
    → slice i c new ≡ slice j c old

module _ (c : ℕ) (md4 : List ℕ → List ℕ) (old : List ℕ) where
  -- An entry that describes a block of the old file.
  pub record Describes (ch : ChunkInfo) : Type 0 where
    pub in_old : ch.offset + c ≤ length old
    pub strong : ch.strong_sum ≡ strong_sum md4 (slice ch.offset c old)

  abbrev pub AllDescribe : List ChunkInfo → Type 0
  AllDescribe [] = Unit {0}
  AllDescribe (ch ∷ chs) = Describes ch × AllDescribe chs

  abbrev pub SumsDescribe : SumOffset → Type 0
  SumsDescribe sums = (k : ℕ) (ch : ChunkInfo) → sums k ≡ some ch → Describes ch

some_cancel : (a b : ChunkInfo) → some a ≡ some b → a ≡ b
some_cancel a b h = cc

pub put_chunk-Describes :
    (c : ℕ) (md4 : List ℕ → List ℕ) (old : List ℕ) (sums : SumOffset) (ch : ChunkInfo)
    → Describes c md4 old ch
    → SumsDescribe c md4 old sums
    → SumsDescribe c md4 old (put_chunk sums ch)
put_chunk-Describes c md4 old sums ch d s k found e = elim (Bool-cases (ch.weak_sum == k)) [
  | inl here ↦ rw (← some_cancel ch found (rw here at e)) d
  | inr other ↦ s k found (rw other at e)
]

pub build_sums-Describes :
    (c : ℕ) (md4 : List ℕ → List ℕ) (old : List ℕ) (chs : List ChunkInfo) (sums : SumOffset)
    → AllDescribe c md4 old chs
    → SumsDescribe c md4 old sums
    → SumsDescribe c md4 old (build_sums chs sums)
unfolding build_sums
build_sums-Describes c md4 old [] sums d s = s
build_sums-Describes c md4 old (ch ∷ chs) sums d s =
    build_sums-Describes c md4 old chs (put_chunk sums ch) d.1
      (put_chunk-Describes c md4 old sums ch d.0 s)

-- What holds of the local variables between two statements.
pub record Inv (c : ℕ) (md4 : List ℕ → List ℕ) (old new : List ℕ) (s : Scan) : Type 0 where
  pub reads : Reads s.map new
  pub can : CanInit c s.summer
  pub sums : SumsDescribe c md4 old s.sums
  pub bound : s.offset ≤ length new + c
  pub covers : Covers old new s.nodes s.offset

-- The sizes for which the variables do not overflow, and the summer's queue does not grow.
pub record Sizes (room c : ℕ) (new : List ℕ) : Type 0 where
  pub chunk : 0 < c
  pub chunk_limit : c ≤ room
  pub room_limit : room ≤ window_room
  pub file_limit : length new < default_buffer_length
