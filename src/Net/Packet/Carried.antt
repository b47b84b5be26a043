-- ===== src/Net/Packet/Carried.antt =====
-- What a packet carries, and that a delivered packet carries the same.
use just_for_test_and_try.Base.{
  ℕ, ◌≤◌, ◌<◌, ◌≡◌, ap, sym, subst, ◌∙◌, Option, some, List, arith, length, take, length-take,
  take-length, int_limit, refl, ◌++◌, replicate, length-append, length-replicate, take-append_eq,
}
use mathlib.Core.Option.{some-injective}
use just_for_test_and_try.Net.Packet.{Packet, get_copy}
use just_for_test_and_try.Net.Stream.Decode.{Delivered}

-- What a packet holds in its head and in its data, as far as its lengths say.
pub record Holds (p : Packet) (head text : List ℕ) : Type 0 where
  pub head_of : take p.head_length p.head_data ≡ head
  pub head_fits : p.head_length ≤ length p.head_data
  pub head_small : p.head_length < int_limit
  pub text_of : take p.data_length p.data_block ≡ text
  pub text_fits : p.data_length ≤ length p.data_block
  pub text_small : p.data_length < int_limit

pub Delivered-Holds :
    (p q : Packet) (head text : List ℕ) → Holds p head text → Delivered p q → Holds q head text
Delivered-Holds p q head text h d =
    let len : length q.head_data ≡ q.head_length = omega (
      arith,
      ap length d.head,
      length-take p.head_length p.head_data,
      h.head_fits,
      d.head_length,
    ) in
    record {
      head_of = take-length q.head_data q.head_length (omega (arith, len)) ∙ d.head ∙ h.head_of;
      head_fits = omega (arith, len);
      head_small = omega (arith, d.head_length, h.head_small);
      text_of = d.text ∙ h.text_of;
      text_fits = omega (arith, d.spare);
      text_small = omega (arith, d.data_length, h.text_small);
    }

-- A packet that a call makes is the one that it is known to make.
pub Holds-of :
    (made : Option Packet) (p p' : Packet) (head text : List ℕ)
    → made ≡ some p'
    → made ≡ some p
    → Holds p' head text
    → Holds p head text
Holds-of made p p' head text e e' h =
    subst (λ k. Holds k head text) (some-injective p' p (sym e ∙ e')) h

-- A packet as it comes out at the other end.
abbrev pub delivered : Packet → Packet
delivered p = record p {
  head_data = take p.head_length p.head_data;
  data_block = take p.data_length p.data_block ++ replicate 5 0;
}

pub delivered-Delivered :
    (p : Packet) → p.data_length ≤ length p.data_block → Delivered p (delivered p)
delivered-Delivered p h =
    let text = take p.data_length p.data_block in
    let n : length text ≡ p.data_length = omega (arith, length-take p.data_length p.data_block) in
    record {
      head_length = refl;
      head = refl;
      data_length = refl;
      text = take-append_eq p.data_length text (replicate 5 0) (sym n);
      spare = omega (arith, length-append text (replicate 5 0), length-replicate {A = ℕ} 5 0, n);
    }

-- A copy carries the same.
pub get_copy-Holds :
    (p : Packet) (head text : List ℕ) → Holds p head text → Holds (get_copy p) head text
unfolding get_copy
get_copy-Holds p head text h =
    let n = length-take p.head_length p.head_data in
    let m = length-take p.data_length p.data_block in
    record {
      head_of =
          take-length (take p.head_length p.head_data) p.head_length (omega (arith, n)) ∙ h.head_of;
      head_fits = omega (arith, n, h.head_fits);
      head_small = h.head_small;
      text_of =
          take-length (take p.data_length p.data_block) p.data_length (omega (arith, m))
          ∙ h.text_of;
      text_fits = omega (arith, m, h.text_fits);
      text_small = h.text_small;
    }
