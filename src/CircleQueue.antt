-- ===== src/CircleQueue.antt =====
-- single_fs/depends/type/circle_queue.h: a queue in an array that grows and shrinks. An operation
-- is `none` where the C++ code has no defined behaviour.
pub mod Window
pub mod Growth
pub mod Ends
pub mod Sliding
mod Tests
use just_for_test_and_try.Base.{
  ℕ, ◌+◌, ◌-◌, ◌*◌, ◌/◌, ◌≡◌, Bool, ◌&&◌, Option, none, some, List, arith, ltb, leb, if◌then◌else◌,
  get_elem?, replicate, memmove, store, ◌>>=◌, ◌>>◌, require, int_limit,
}

-- The fields `data_`, `size_`, `capacity_`, `front_` and `end_`.
pub record CircleQueue {ℓ} (A : Type ℓ) : Type ℓ where
  pub cells : List A
  pub size : ℕ
  pub capacity : ℕ
  pub front : ℕ
  pub end : ℕ

module _ {ℓ} {A : Type ℓ} where
  -- `push` behind its test for room.
  unfoldable pub put : CircleQueue A → A → Option (CircleQueue A)
  put q t = do
    cells ← store q.cells q.end t
    some (record q {
      cells = cells;
      end = if leb (q.capacity - 1) q.end then 0 else q.end + 1;
      size = q.size + 1;
    })

  -- `pop` behind its test for too much room.
  unfoldable pub advance : CircleQueue A → CircleQueue A
  advance q = record q {
    front = if leb (q.capacity - 1) q.front then 0 else q.front + 1;
    size = q.size - 1;
  }

  unfoldable pub peek : CircleQueue A → Option A
  peek q = get_elem? q.cells q.front

  unfoldable pub clear : CircleQueue A → CircleQueue A
  clear q = record q { front = 0; size = 0; end = 0 }

-- `junk` is what a cell of a new array holds before it is written.
module _ {ℓ} {A : Type ℓ} (junk : A) where
  -- The two copies of `Realloc` for a queue that goes round the end of its array. They use
  -- `capacity_` after it was overwritten with the new size.
  unfoldable pub realloc_wrapped : CircleQueue A → ℕ → Option (List A)
  realloc_wrapped q new_size = do
    require (leb q.front new_size)
    part ← memmove (replicate new_size junk) 0 q.cells q.front (new_size - q.front)
    memmove part (new_size - q.front) q.cells 0 q.end

  unfoldable pub realloc_cells : CircleQueue A → ℕ → Option (List A)
  realloc_cells q new_size =
      if ltb q.front q.end
      then memmove (replicate new_size junk) 0 q.cells q.front q.size
      else if ltb q.end q.front
      then realloc_wrapped q new_size
      else some (replicate new_size junk)

  -- A size that is no int32_t is an overflow.
  unfoldable pub realloc : CircleQueue A → ℕ → Option (CircleQueue A)
  realloc q new_size = do
    require (ltb new_size int_limit)
    cells ← realloc_cells q new_size
    some (record { cells = cells; size = q.size; capacity = new_size; front = 0; end = q.size })

  unfoldable pub new_queue : ℕ → CircleQueue A
  new_queue n = record {
    cells = replicate (n + 10) junk;
    size = 0;
    capacity = n + 10;
    front = 0;
    end = 0;
  }

  unfoldable pub push : CircleQueue A → A → Option (CircleQueue A)
  push q t = do
    room ← if leb (q.capacity - 1) q.size then realloc q (q.capacity * 2) else some q
    put room t

  unfoldable pub pop : CircleQueue A → Option (CircleQueue A)
  pop q = if leb q.size 0 then some q else (do
    fitting ←
        if ltb q.size (q.capacity / 3) && ltb 15 q.capacity
        then realloc q (q.capacity / 2)
        else some q
    some (advance fitting))

  -- `GetData`: the queue laid out from the start of its array, which is also the result.
  unfoldable pub get_data : CircleQueue A → Option (CircleQueue A)
  get_data q = realloc q q.capacity
