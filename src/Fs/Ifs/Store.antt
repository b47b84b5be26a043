-- ===== src/Fs/Ifs/Store.antt =====
-- What is written can be read back, and nothing else changes.
use just_for_test_and_try.Base.{
  ℕ, ◌+◌, ◌%◌, ◌^◌, ◌≤◌, ◌<◌, ◌≡◌, ◌≢◌, refl, ap, sym, ◌∙◌, inl, inr, ◌⊎◌, Bool-cases,
  slice-append_le, Option-cases, none, some, List, ◌++◌, arith, ◌==◌, ==_iff, ==_self, ne→==,
  lt→ltb, length, take, drop, slice, length-append, take-length, drop-append_le, drop-append_eq,
  lookup, insert, nat_eq, lookup-insert, int_limit,
}
use just_for_test_and_try.Net.Package.{word_limit}
use mathlib.Core.Option.{some-injective}
use just_for_test_and_try.Fs.Ifs.{
  MetaNode, Ifs, Disk, long_limit, failed, contents, write, read, get_length,
}

-- The files lie in the data file, and the latest one ends with it.
pub record Stored (s : Ifs) (d : Disk) : Type 0 where
  pub ends : s.latest_data.start + s.latest_data.length_of ≡ length (contents d.data_storage)
  pub small : length (contents d.data_storage) < 2 ^ 63
  pub within :
      (id : ℕ) (node : MetaNode)
      → lookup id s.meta_datas ≡ some node
      → node.start + node.length_of ≤ length (contents d.data_storage)
  pub ids :
      (id : ℕ) (node : MetaNode) → lookup id s.meta_datas ≡ some node → id ≤ s.latest_data.file_id
  pub present : (id : ℕ) → d.data_storage ≡ none → lookup id s.meta_datas ≡ none

read-some :
    (id : ℕ) (d : Disk) (s : Ifs) (bytes : List ℕ) (node : MetaNode)
    → d.data_storage ≡ some bytes
    → lookup id s.meta_datas ≡ some node
    → node.start < 2 ^ 63
    → read id d s ≡ some (slice node.start node.length_of bytes)
unfolding read
read-some id d s bytes node e f h = rw (e, f, lt→ltb _ _ h)

-- What stands in the table behind an insertion.
inserted :
    (id i : ℕ) (node n : MetaNode) (m : List (ℕ × MetaNode))
    → lookup i (insert id node m) ≡ some n
    → ((i ≡ id) × (n ≡ node)) ⊎ (lookup i m ≡ some n)
inserted id i node n m h = elim (Bool-cases (id == i)) [
  | inl e ↦
      let f : some node ≡ some n = rw (lookup-insert id i node m, e) at h in
      inl (sym ((==_iff _ _).0 e), sym (some-injective node n f))
  | inr e ↦ inr (rw (lookup-insert id i node m, e) at h)
]

-- More bytes in the data file do not change what is read.
read-append :
    (id : ℕ) (buffer : List ℕ) (d d' : Disk) (s s' : Ifs)
    → Stored s d
    → lookup id s'.meta_datas ≡ lookup id s.meta_datas
    → d'.data_storage ≡ some (contents d.data_storage ++ buffer)
    → read id d' s' ≡ read id d s
unfolding read
read-append id buffer d d' s s' v e f = elim (Option-cases d.data_storage) [
  | inl n ↦ rw (f, e, v.present id n, n)
  | inr (bytes, b) ↦ elim (Option-cases (lookup id s.meta_datas)) [
    | inl n ↦ rw (f, e, n, b)
    | inr (node, n) ↦
        let in_bytes : node.start + node.length_of ≤ length bytes =
          rw (b) at (v.within id node n) in
        let small : node.start < 2 ^ 63 = omega (arith, v.within id node n, v.small) in
        rw (
          f,
          e,
          n,
          b,
          lt→ltb _ _ small,
          slice-append_le node.start node.length_of bytes buffer in_bytes,
        )
  ]
]

-- Writing a file gives it a new number under which just its bytes are read, with their length,
-- leaves what is read under every other number, and keeps the files in order: for a latest number
-- below 2 ^ 31 - 1, fewer than 2 ^ 32 - 1 bytes to write and fewer than 2 ^ 63 bytes in all.
pub write-Stored :
    (buffer : List ℕ) (d : Disk) (s : Ifs)
    → Stored s d
    → s.latest_data.file_id + 1 < int_limit
    → length buffer < failed
    → length (contents d.data_storage) + length buffer < 2 ^ 63
    → (s' : Ifs) × (d' : Disk) × (write buffer d s ≡ (s', d', s.latest_data.file_id + 1))
      × Stored s' d'
      × (read (s.latest_data.file_id + 1) d' s' ≡ some buffer)
      × (get_length (s.latest_data.file_id + 1) s' ≡ some (length buffer))
      × ((other : ℕ) → other ≢ s.latest_data.file_id + 1 → read other d' s' ≡ read other d s)
unfolding write get_length
write-Stored buffer d s v h fits k =
    let old = contents d.data_storage in
    let id = s.latest_data.file_id + 1 in
    let node : MetaNode = record { file_id = id; start = length old; length_of = length buffer } in
    let s' : Ifs = record { meta_datas = insert id node s.meta_datas; latest_data = node } in
    let d' : Disk = record d { data_storage = some (old ++ buffer) } in
    let e1 : (s.latest_data.start + s.latest_data.length_of) % long_limit ≡ length old =
      omega (arith, v.ends) in
    let e2 : (s.latest_data.file_id + 1) % long_limit ≡ id = omega arith in
    let taken = ne→== (length buffer % word_limit) failed (omega (arith, fits)) in
    let number : id % word_limit ≡ id = omega arith in
    let mine : lookup id (insert id node s.meta_datas) ≡ some node =
      rw (lookup-insert id id node s.meta_datas, ==_self id) in
    let len = length-append old buffer in
    let theirs : (other : ℕ)
        → other ≢ id
        → lookup other (insert id node s.meta_datas) ≡ lookup other s.meta_datas =
      λ other ne. rw (lookup-insert id other node s.meta_datas, ne→== id other (λ q. ne (sym q))) in
    (
      s',
      d',
      rw (e1, e2, lt→ltb (length old) (2 ^ 63) (omega arith), taken, number),
      record {
        ends = omega (arith, len);
        small = omega (arith, len);
        within = λ i n e. elim (inserted id i node n s.meta_datas e) [
          | inl (_, q) ↦ rw q (omega (arith, len))
          | inr q ↦ omega (arith, len, v.within i n q)
        ];
        ids = λ i n e. elim (inserted id i node n s.meta_datas e) [
          | inl (q, _) ↦ omega (arith, q)
          | inr q ↦ omega (arith, v.ids i n q)
        ];
        present = λ _ e. cc;
      },
      read-some id d' s' (old ++ buffer) node refl mine (omega arith)
          ∙ ap some (
              ap (take (length buffer)) (drop-append_eq (length old) old buffer refl)
              ∙ take-length buffer (length buffer) (omega arith)),
      rw (mine, get_length),
      λ other ne. read-append other buffer d d' s s' v (theirs other ne) refl,
    )

-- Where the data file is longer than the table knows, a file that is written is not what is read
-- under its number: its bytes go behind those that the table does not know, and as many bytes are
-- read from where these begin; a latest number below 2 ^ 31 - 1, fewer than 2 ^ 32 - 1 bytes to
-- write, and a latest file that ends below 2 ^ 63.
pub write_misplaced :
    (buffer : List ℕ) (d : Disk) (s : Ifs) (known : ℕ)
    → s.latest_data.start + s.latest_data.length_of ≡ known
    → known < 2 ^ 63
    → known ≤ length (contents d.data_storage)
    → s.latest_data.file_id + 1 < int_limit
    → length buffer < failed
    → (s' : Ifs) × (d' : Disk) × (write buffer d s ≡ (s', d', s.latest_data.file_id + 1))
      × (read (s.latest_data.file_id + 1) d' s'
          ≡ some (take (length buffer) (drop known (contents d.data_storage) ++ buffer)))
unfolding write
write_misplaced buffer d s known e small h k fits =
    let old = contents d.data_storage in
    let id = s.latest_data.file_id + 1 in
    let node : MetaNode = record { file_id = id; start = known; length_of = length buffer } in
    let s' : Ifs = record { meta_datas = insert id node s.meta_datas; latest_data = node } in
    let d' : Disk = record d { data_storage = some (old ++ buffer) } in
    let e1 : (s.latest_data.start + s.latest_data.length_of) % long_limit ≡ known =
      omega (arith, e) in
    let e2 : (s.latest_data.file_id + 1) % long_limit ≡ id = omega arith in
    let taken = ne→== (length buffer % word_limit) failed (omega (arith, fits)) in
    let number : id % word_limit ≡ id = omega arith in
    let mine : lookup id (insert id node s.meta_datas) ≡ some node =
      rw (lookup-insert id id node s.meta_datas, ==_self id) in
    (
      s',
      d',
      rw (e1, e2, lt→ltb known (2 ^ 63) small, taken, number),
      read-some id d' s' (old ++ buffer) node refl mine small
          ∙ ap (λ t. some (take (length buffer) t)) (drop-append_le known old buffer h),
    )
