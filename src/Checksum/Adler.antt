-- ===== src/Checksum/Adler.antt =====
-- single_fs/librsync/checksum3.cpp: the rolling checksum that librsync uses (`SUMMER`).
pub mod Digest
pub mod Rolling
use just_for_test_and_try.Base.{
  ℕ, zero, suc, ◌+◌, ◌-◌, ◌*◌, ◌/◌, ◌%◌, ◌^◌, ◌≡◌, Option, none, some, List, [], ◌∷◌, leb, length,
  take, slice, ◌>>=◌, ◌>>◌, require,
}
use just_for_test_and_try.CircleQueue.{CircleQueue, new_queue, push, pop, peek, clear, get_data}
use just_for_test_and_try.CircleQueue.Sliding.{fill}
use just_for_test_and_try.Checksum.{u32, strong_sum}

-- The second loop of `Sum1`, over the bytes that are left.
unfoldable pub sum_each : ℕ → ℕ → List ℕ → ℕ × ℕ
sum_each s1 s2 [] = (s1, s2)
sum_each s1 s2 (b ∷ bs) = let s1' = u32 (s1 + b) in sum_each s1' (u32 (s2 + s1')) bs

-- The first loop takes four bytes while more than four are left. CHAR_OFFSET is 0. One reduction
-- does for all of a statement, since `+` and `*` go through it.
unfoldable pub sum_blocks : ℕ → ℕ → List ℕ → ℕ × ℕ
sum_blocks s1 s2 (a ∷ b ∷ c ∷ d ∷ e ∷ bs) =
    sum_blocks (u32 (s1 + (a + b + c + d))) (u32 (s2 + (4 * (s1 + a) + 3 * b + 2 * c + d))) (e ∷ bs)
sum_blocks s1 s2 bs = sum_each s1 s2 bs

-- (s1 & 0xffff) + (s2 << 16)
unfoldable pub join : ℕ → ℕ → ℕ
join s1 s2 = u32 (s1 % 2 ^ 16 + u32 (s2 * 2 ^ 16))

-- `Sum1(buf, length)` over the bytes that it reads.
unfoldable pub sum1 : List ℕ → ℕ
sum1 bytes = let (s1, s2) = sum_blocks 0 0 bytes in join s1 s2

-- The arithmetic of `Update`: the sum, the window's length, the byte that comes and the one that
-- goes. 2 ^ 32 is added before a subtraction, since `-` on ℕ stops at 0.
unfoldable pub roll : ℕ → ℕ → ℕ → ℕ → ℕ
roll tmp_sum n next gone =
    let s1 = u32 (tmp_sum % 2 ^ 16 + next + 2 ^ 32 - gone) in
    let s2 = u32 (tmp_sum / 2 ^ 16 + s1) in join s1 (u32 (s2 + 2 ^ 32 - u32 (n % 2 ^ 16 * gone)))

abbrev pub window_room : ℕ
window_room = 1024 * 1024 * 4

pub record Checksum3 : Type 0 where
  pub buf_list : CircleQueue ℕ
  pub length_of : ℕ
  pub tmp_sum : ℕ

module _ (junk : ℕ) where
  -- The constructor, `buf_list_(room)`; the header has `window_room` for `room`.
  unfoldable pub new_checksum : ℕ → Checksum3
  new_checksum room = record { buf_list = new_queue junk room; length_of = 0; tmp_sum = 0 }

  -- `Init(buf, length)`, with the memory from `buf` on as a list.
  unfoldable pub init : Checksum3 → List ℕ → ℕ → Option Checksum3
  init s buf n = do
    first ← fill junk 1 0 buf (clear s.buf_list)
    q ← fill junk (n - 1) 1 buf first
    require (leb n (length buf))
    some (record { buf_list = q; length_of = n; tmp_sum = sum1 (slice 0 n buf) })

  -- `Update(next)`.
  unfoldable pub update : Checksum3 → ℕ → Option Checksum3
  update s next = do
    q ← push junk s.buf_list next
    gone ← peek q
    q' ← pop junk q
    some (record s { buf_list = q'; tmp_sum = roll s.tmp_sum s.length_of next gone })

  -- `StrongSum()` with no data: the digest of the window, which `GetData` lays out first.
  unfoldable pub window_sum : (List ℕ → List ℕ) → Checksum3 → Option (List ℕ × Checksum3)
  window_sum md4 s = do
    q ← get_data junk s.buf_list
    some (strong_sum md4 (take q.size q.cells), record s { buf_list = q })
