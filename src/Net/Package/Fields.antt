-- ===== src/Net/Package/Fields.antt =====
-- What is written through a Package, field by field, and what is read through one.
use just_for_test_and_try.Base.{
  ℕ, ◌+◌, ◌-◌, ◌%◌, ◌≤◌, ◌<◌, ◌≡◌, refl, ap, sym, subst, ◌∙◌, some, List, [], ◌++◌, arith, ltb,
  length, take, drop, slice, length-append, length-slice, take-append_eq, drop-append_eq,
  take-length, drop-drop, drop-take, take-take, length-memmove, take-copied, memmove_in_bounds,
  le→leb, lt→ltb, le→ltb, int_limit, replicate, length-replicate, take-append-drop,
}
use just_for_test_and_try.Net.Package.{
  Package, word_limit, signed_ltb, set_data, get_int, set_int, get_string, set_string,
}

-- The bytes `out` have been written from the start of the block on, and the block ends with the
-- package.
pub record Writing (p : Package) (out : List ℕ) : Type 0 where
  pub fits : p.pointer + p.left_length ≡ length p.block
  pub small : length p.block < int_limit
  pub text : take p.pointer p.block ≡ out

-- The bytes `ahead` are what is left to read.
pub record Reading (p : Package) (ahead : List ℕ) : Type 0 where
  pub fits : p.pointer + p.left_length ≤ length p.block
  pub small : p.left_length < int_limit
  pub text : slice p.pointer p.left_length p.block ≡ ahead

pub signed_small : (a b : ℕ) → a < int_limit → b < int_limit → signed_ltb a b ≡ ltb a b
unfolding signed_ltb
signed_small a b h k = ground arith

pub set_data-Writing :
    (block : List ℕ) → length block < int_limit → Writing (set_data block (length block)) []
unfolding set_data
set_data-Writing block h = record { fits = omega arith; small = h; text = refl }

pub set_data-Reading :
    (block : List ℕ) (n : ℕ)
    → n ≤ length block
    → n < int_limit
    → Reading (set_data block n) (take n block)
unfolding set_data
set_data-Reading block n h k = record { fits = omega arith; small = k; text = refl }

-- A copy of `v` to where the package stands.
copied : Package → List ℕ → Package
copied p v = record p {
  block = take p.pointer p.block ++ (slice 0 (length v) v ++ drop (p.pointer + length v) p.block);
  pointer = p.pointer + length v;
  left_length = p.left_length - length v;
}

copied-Writing :
    (p : Package) (out v : List ℕ)
    → Writing p out
    → length v ≤ p.left_length
    → Writing (copied p v) (out ++ v) × (length (copied p v).block ≡ length p.block)
unfolding copied
copied-Writing p out v w h =
    let len : length (copied p v).block ≡ length p.block =
      length-memmove p.block p.pointer v 0 (length v) (omega (arith, w.fits)) (omega arith) in
    (
      record {
        fits = omega (arith, w.fits);
        small = omega (arith, w.small);
        text = take-copied p.block v p.pointer (omega (arith, w.fits)) ∙ ap (λ k. k ++ v) w.text;
      },
      len,
    )

-- The package after a write, with what has become of it.
pub record Wrote (p : Package) (out : List ℕ) (n : ℕ) (p' : Package) : Type 0 where
  pub writing : Writing p' out
  pub spent : p'.left_length + n ≡ p.left_length
  pub same : length p'.block ≡ length p.block

pub set_int-Writing :
    (p : Package) (out v : List ℕ)
    → Writing p out
    → length v ≡ 4
    → 4 ≤ p.left_length
    → (p' : Package) × (set_int p v ≡ some (v, p')) × Wrote p (out ++ v) 4 p'
unfolding set_int copied
set_int-Writing p out v w e h =
    let (w', len) = copied-Writing p out v w (omega (arith, e)) in
    let m =
      memmove_in_bounds p.block p.pointer v 0 (length v) (omega (arith, w.fits)) (omega arith) in
    (
      copied p v,
      rw (le→leb _ _ h, ← e, m),
      record { writing = w'; spent = omega (arith, e); same = len },
    )

pub set_string-Writing :
    (p : Package) (out s : List ℕ)
    → Writing p out
    → length s ≤ p.left_length
    → (p' : Package) × (set_string p s (length s) ≡ some p') × Wrote p (out ++ s) (length s) p'
unfolding set_string copied
set_string-Writing p out s w h =
    let (w', len) = copied-Writing p out s w h in
    let m =
      memmove_in_bounds p.block p.pointer s 0 (length s) (omega (arith, w.fits)) (omega arith) in
    let l : p.left_length < int_limit = omega (arith, w.fits, w.small) in
    let k : length s < int_limit = omega arith in
    (
      copied p s,
      rw (signed_small _ _ l k, le→ltb _ _ h, lt→ltb _ _ k, m),
      record { writing = w'; spent = omega arith; same = len },
    )

-- What lies ahead, once its first `n` bytes are passed over.
passed :
    (p : Package) (v rest : List ℕ)
    → Reading p (v ++ rest)
    → (slice p.pointer (length v) p.block ≡ v)
      × (length v ≤ p.left_length)
      × Reading
          (record p { pointer = p.pointer + length v; left_length = p.left_length - length v })
          rest
passed p v rest r =
    let ahead = drop p.pointer p.block in
    let len : p.left_length ≡ length v + length rest = omega (
      arith,
      ap length r.text,
      length-slice p.pointer p.left_length p.block r.fits,
      length-append v rest,
    ) in
    (
      sym (take-take (length v) p.left_length ahead (omega (arith, len)))
          ∙ ap (take (length v)) r.text
          ∙ take-append_eq _ v rest refl,
      omega (arith, len),
      record {
        fits = omega (arith, r.fits, len);
        small = omega (arith, r.small);
        text =
            ap (take (p.left_length - length v)) (sym (drop-drop (length v) p.pointer p.block))
            ∙ sym (drop-take (length v) p.left_length ahead)
            ∙ ap (drop (length v)) r.text
            ∙ drop-append_eq _ v rest refl;
      },
    )

pub get_int-Reading :
    (p : Package) (v rest : List ℕ)
    → length v ≡ 4
    → Reading p (v ++ rest)
    → (p' : Package) × (get_int p ≡ some (v, p')) × Reading p' rest
unfolding get_int
get_int-Reading p v rest e r =
    let (s, l, r') = passed p v rest r in
    (
      record p { pointer = p.pointer + length v; left_length = p.left_length - length v },
      rw (
        ← e,
        le→leb _ _ l,
        le→leb (p.pointer + length v) (length p.block) (omega (arith, r.fits)),
        s,
      ),
      r',
    )

pub get_string-Reading :
    (p : Package) (s rest : List ℕ)
    → Reading p (s ++ rest)
    → (p' : Package) × (get_string p (length s) ≡ some (some s, p')) × Reading p' rest
unfolding get_string
get_string-Reading p s rest r =
    let (t, l, r') = passed p s rest r in
    let k : length s < int_limit = omega (arith, r.small) in
    let m : (p.left_length + word_limit - length s) % word_limit ≡ p.left_length - length s =
      omega (arith, r.small) in
    (
      record p { pointer = p.pointer + length s; left_length = p.left_length - length s },
      rw (
        signed_small _ _ r.small k,
        le→ltb _ _ l,
        lt→ltb _ _ k,
        m,
        le→leb (p.pointer + length s) (length p.block) (omega (arith, r.fits)),
        lt→ltb (p.left_length - length s) int_limit (omega (arith, r.small)),
        t,
      ),
      r',
    )

-- A block that starts with some bytes, as a package to read.
pub reads :
    (block : List ℕ) (n : ℕ) (ahead : List ℕ)
    → n ≤ length block
    → n < int_limit
    → take n block ≡ ahead
    → Reading (set_data block n) ahead
reads block n ahead h k e = subst (Reading (set_data block n)) e (set_data-Reading block n h k)

-- A finished block: what was written, and what was there before.
pub written :
    (k : Package) (out : List ℕ) (n : ℕ)
    → Writing k out
    → length k.block ≡ n
    → take n k.block ≡ out ++ drop k.pointer k.block
written k out n w h =
    take-length k.block n (omega (arith, h))
    ∙ sym (take-append-drop k.pointer k.block)
    ∙ ap (λ t. t ++ drop k.pointer k.block) w.text

-- A new block, to be written.
pub starts :
    (junk n : ℕ)
    → n < int_limit
    → Writing (set_data (replicate n junk) n) []
      × ((set_data (replicate n junk) n).left_length ≡ n)
      × (length (set_data (replicate n junk) n).block ≡ n)
unfolding set_data
starts junk n h =
    let len = length-replicate n junk in
    (record { fits = omega (arith, len); small = omega (arith, len); text = refl }, refl, len)
