-- ===== src/Net/Packet.antt =====
-- single_fs/depends/net/packet.h, and what a step of the network code comes to.
pub mod Carried
pub mod Ensured
use just_for_test_and_try.Base.{
  ℕ, ◌≡◌, refl, Bool, true, false, Option, none, some, List, slice, length,
}

-- `head_data_` and `data_` are the blocks of memory that the packet points to.
pub record Packet : Type 0 where
  pub channel_id : ℕ
  pub head_data : List ℕ
  pub head_length : ℕ
  pub data_block : List ℕ
  pub data_length : ℕ
  pub end_point : ℕ

-- `GetCopy`: the blocks are copied as far as their lengths say.
unfoldable pub get_copy : Packet → Packet
get_copy p = record p {
  head_data = slice 0 p.head_length p.head_data;
  data_block = slice 0 p.data_length p.data_block;
}

-- Undefined behaviour; still in a loop when the history of the socket ends; or a result.
pub data Outcome {ℓ} (A : Type ℓ) : Type ℓ where
  undefined : Outcome A
  waiting : Outcome A
  returned : A → Outcome A

infixl 5 ◌>>=◌ ◌>>◌
abbrev pub ◌>>=◌ {ℓ κ} : {A : Type ℓ} {B : Type κ} → Outcome A → (A → Outcome B) → Outcome B
undefined >>= f = undefined
waiting >>= f = waiting
returned a >>= f = f a

abbrev pub ◌>>◌ {ℓ} : {B : Type ℓ} → Outcome (Unit {0}) → Outcome B → Outcome B
m >> k = m >>= λ _. k

abbrev pub require : Bool → Outcome (Unit {0})
require true = returned tt
require false = undefined

abbrev pub defined {ℓ} : {A : Type ℓ} → Option A → Outcome A
defined none = undefined
defined (some a) = returned a
