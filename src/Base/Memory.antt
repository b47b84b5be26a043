-- ===== src/Base/Memory.antt =====
-- Blocks of memory as lists. `none` is undefined behaviour: an access outside a block.
use Prim.Native.Nat.{ℕ, ◌+◌, ◌≤◌, ◌<◌, ◌^◌}
use mathlib.Core.Path.{◌≡◌, refl, ap, ◌∙◌, sym}
use mathlib.Core.Logic.{inl, inr}
use mathlib.Core.Bool.{Bool, true, false, ◌&&◌}
use mathlib.Core.List.{List, ◌++◌, append_assoc}
use mathlib.Core.Option.{Option, none, some}
use native.Mathlib.Omega.{arith}
use just_for_test_and_try.Base.Tests.{if◌then◌else◌, ltb, leb, le→leb, lt→leb, Bool-cases}
use just_for_test_and_try.Base.Lists.{
  length, set, take, drop, slice, length-append, length-take, length-drop, take-append,
  length-slice, take-length, take-append_eq,
}

infixl 5 ◌>>=◌ ◌>>◌
abbrev pub ◌>>=◌ {ℓ κ} : {A : Type ℓ} {B : Type κ} → Option A → (A → Option B) → Option B
none >>= f = none
some a >>= f = f a

abbrev pub ◌>>◌ {ℓ} : {B : Type ℓ} → Option (Unit {0}) → Option B → Option B
m >> k = m >>= λ _. k

-- What must hold for the code to go on being defined.
abbrev pub require : Bool → Option (Unit {0})
require true = some tt
require false = none

-- The largest number that an int32_t holds is `int_limit - 1`.
abbrev pub int_limit : ℕ
int_limit = 2 ^ 31

module _ {ℓ} {A : Type ℓ} where
  -- memmove(dst + d, src + s, n)
  unfoldable pub memmove : List A → ℕ → List A → ℕ → ℕ → Option (List A)
  memmove dst d src s n =
      if leb (d + n) (length dst) && leb (s + n) (length src)
      then some (take d dst ++ (slice s n src ++ drop (d + n) dst))
      else none

  -- block[i] = v
  unfoldable pub store : List A → ℕ → A → Option (List A)
  store block i v = if ltb i (length block) then some (set block i v) else none

  pub memmove_in_bounds :
      (dst : List A) (d : ℕ) (src : List A) (s n : ℕ)
      → d + n ≤ length dst
      → s + n ≤ length src
      → memmove dst d src s n ≡ some (take d dst ++ (slice s n src ++ drop (d + n) dst))
  unfolding memmove
  memmove_in_bounds dst d src s n h k = rw (le→leb _ _ h, le→leb _ _ k)

  pub memmove_to_start :
      (dst src : List A) (s n : ℕ)
      → n ≤ length dst
      → s + n ≤ length src
      → memmove dst 0 src s n ≡ some (slice s n src ++ drop n dst)
  memmove_to_start dst src s n h k =
      let e : 0 + n ≡ n = omega arith in
      memmove_in_bounds dst 0 src s n (omega arith) k
      ∙ ap (λ m. some (slice s n src ++ drop m dst)) e

  pub memmove_outside :
      (dst : List A) (d : ℕ) (src : List A) (s n : ℕ)
      → length src < s + n
      → memmove dst d src s n ≡ none
  unfolding memmove
  memmove_outside dst d src s n h = elim (Bool-cases (leb (d + n) (length dst))) [
    | inl e ↦ rw (e, lt→leb _ _ h)
    | inr e ↦ rw e
  ]

  -- A copy keeps the length of the block that it writes into.
  pub length-memmove :
      (dst : List A) (d : ℕ) (src : List A) (s n : ℕ)
      → d + n ≤ length dst
      → s + n ≤ length src
      → length (take d dst ++ (slice s n src ++ drop (d + n) dst)) ≡ length dst
  length-memmove dst d src s n h k = omega (
    arith,
    length-append (take d dst) (slice s n src ++ drop (d + n) dst),
    length-append (slice s n src) (drop (d + n) dst),
    length-slice s n src k,
    length-take d dst,
    length-drop (d + n) dst,
  )

  -- The bytes copied to the front of a block are what its front then holds.
  pub take-memmove :
      (dst src : List A) (s n : ℕ)
      → s + n ≤ length src
      → take n (slice s n src ++ drop n dst) ≡ slice s n src
  take-memmove dst src s n k =
      let e : n ≡ length (slice s n src) = sym (length-slice s n src k) in
      ap (λ m. take m (slice s n src ++ drop n dst)) e ∙ take-append (slice s n src) (drop n dst)

  -- What is copied behind the first `d` items of a block.
  pub take-copied :
      (dst v : List A) (d : ℕ)
      → d ≤ length dst
      → take (d + length v) (take d dst ++ (slice 0 (length v) v ++ drop (d + length v) dst))
        ≡ take d dst ++ v
  take-copied dst v d h =
      let rest = drop (d + length v) dst in
      let whole : slice 0 (length v) v ≡ v = take-length v (length v) (omega arith) in
      let sum : d + length v ≡ length (take d dst ++ v) =
        omega (arith, length-append (take d dst) v, length-take d dst) in
      rw (whole, ← append_assoc (take d dst) v rest) (take-append_eq _ (take d dst ++ v) rest sum)

  pub >>=-eq-some {κ} :
      {B : Type κ} (m : Option A) (f : A → Option B) {b : B}
      → (m >>= f) ≡ some b
      → (a : A) × (m ≡ some a) × (f a ≡ some b)
  >>=-eq-some none f h = cc
  >>=-eq-some (some a) f h = (a, refl, h)
