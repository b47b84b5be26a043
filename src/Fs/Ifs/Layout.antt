-- ===== src/Fs/Ifs/Layout.antt =====
-- Numbers and nodes as bytes in memory.
use just_for_test_and_try.Base.{
  ℕ, zero, suc, ◌*◌, ◌/◌, ◌^◌, ◌<◌, ◌≡◌, refl, ap, sym, List, ◌++◌, append_assoc, arith, length,
  length-append, take-append_eq, slice-append,
}
use native.Mathlib.Nat.{pow-suc}
use just_for_test_and_try.Fs.Ifs.{MetaNode, long_limit, le_bytes, of_le, node_bytes, node_of}

pub length-le_bytes : (k v : ℕ) → length (le_bytes k v) ≡ k
unfolding le_bytes
length-le_bytes zero v = refl
length-le_bytes (suc k) v = ap suc (length-le_bytes k (v / 256))

pub of_le-le_bytes : (k v : ℕ) → v < 256 ^ k → of_le (le_bytes k v) ≡ v
unfolding le_bytes of_le
of_le-le_bytes zero v h = omega arith
of_le-le_bytes (suc k) v h =
    let p : 256 ^ suc k ≡ 256 ^ k * 256 = pow-suc 256 k in
    omega (arith, of_le-le_bytes k (v / 256) (omega (arith, p)))

-- The fields of a node fit their 64 bits.
pub record IsNode (n : MetaNode) : Type 0 where
  pub id_small : n.file_id < long_limit
  pub start_small : n.start < long_limit
  pub length_small : n.length_of < long_limit

pub length-node_bytes : (n : MetaNode) → length (node_bytes n) ≡ 24
unfolding node_bytes
length-node_bytes n = omega (
  arith,
  length-append (le_bytes 8 n.file_id) (le_bytes 8 n.start ++ le_bytes 8 n.length_of),
  length-append (le_bytes 8 n.start) (le_bytes 8 n.length_of),
  length-le_bytes 8 n.file_id,
  length-le_bytes 8 n.start,
  length-le_bytes 8 n.length_of,
)

pub node_of-node_bytes :
    (n : MetaNode) (rest : List ℕ) → IsNode n → node_of (node_bytes n ++ rest) ≡ n
unfolding node_of node_bytes
node_of-node_bytes n rest h =
    let a = le_bytes 8 n.file_id in
    let b = le_bytes 8 n.start in
    let c = le_bytes 8 n.length_of in
    let la = length-le_bytes 8 n.file_id in
    let lb = length-le_bytes 8 n.start in
    let lc = length-le_bytes 8 n.length_of in
    let e1 : (a ++ (b ++ c)) ++ rest ≡ a ++ (b ++ (c ++ rest)) = simp append_assoc in
    let e2 : a ++ (b ++ (c ++ rest)) ≡ (a ++ b) ++ (c ++ rest) = simp append_assoc in
    rw (
      e1,
      take-append_eq 8 a (b ++ (c ++ rest)) (sym la),
      slice-append 8 8 a b (c ++ rest) (sym la) (sym lb),
      e2,
      slice-append 16 8 (a ++ b) c rest (omega (arith, length-append a b, la, lb)) (sym lc),
      of_le-le_bytes 8 n.file_id (omega (arith, h.id_small)),
      of_le-le_bytes 8 n.start (omega (arith, h.start_small)),
      of_le-le_bytes 8 n.length_of (omega (arith, h.length_small)),
    )
