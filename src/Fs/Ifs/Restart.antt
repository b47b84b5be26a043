-- ===== src/Fs/Ifs/Restart.antt =====
-- `init` after `save_metadata`: the table survives a restart of the program.
use just_for_test_and_try.Base.{
  ℕ, suc, ◌+◌, ◌-◌, ◌*◌, ◌%◌, ◌^◌, ◌≤◌, ◌<◌, ◌≡◌, refl, ap, ap₂, sym, subst, ◌∙◌, inl, inr, ◌⊎◌,
  Bool-cases, Option-cases, true, Option, none, some, List, [], ◌∷◌, ◌++◌, append_assoc, arith, ltb,
  ◌==◌, ==_iff, ne→==, lt→ltb, ltb→lt, ltb→le, if◌then◌else◌, length, take, drop, length-append,
  length-drop, take-append_eq, drop-append_eq, lookup, insert, nat_eq, lookup-insert, lookup-nil,
  lookup-cons, int_limit,
}
use just_for_test_and_try.Net.Package.{signed_ltb, word_limit}
use just_for_test_and_try.Net.Package.Fields.{signed_small}
use just_for_test_and_try.Fs.Ifs.{
  MetaNode, Ifs, Disk, long_limit, contents, new_ifs, le_bytes, node_bytes, node_of, init_loop,
  init, nodes_bytes, save_metadata,
}
use just_for_test_and_try.Fs.Ifs.Layout.{
  IsNode, length-le_bytes, of_le-le_bytes, length-node_bytes, node_of-node_bytes,
}

-- The entries of a table: each under its own number, which no other has, and none above `top`.
abbrev pub Entries : ℕ → List (ℕ × MetaNode) → Type 0
Entries top [] = Unit {0}
Entries top ((id, node) ∷ rest) =
    (id ≡ node.file_id) × IsNode node × (id ≤ top) × (lookup id rest ≡ none) × Entries top rest

-- The table that the loop of `init` makes, and the largest number that it meets.
reload : List (ℕ × MetaNode) → List (ℕ × MetaNode) → List (ℕ × MetaNode)
reload [] m = m
reload ((_, node) ∷ rest) m = reload rest (insert node.file_id node m)

lookup-reload :
    (top j : ℕ) (list m : List (ℕ × MetaNode))
    → Entries top list
    → lookup j (reload list m) ≡ elim (lookup j list) [ none ↦ lookup j m | some node ↦ some node ]
unfolding reload
lookup-reload top j [] m h = rw (lookup-nil {V = MetaNode} j [] refl)
lookup-reload top j ((id, node) ∷ rest) m h =
    let ih = lookup-reload top j rest (insert node.file_id node m) h.4 in
    elim (Bool-cases (id == j)) [
      | inl e ↦
          let same : id ≡ j = (==_iff _ _).0 e in
          let gone : lookup j rest ≡ none = subst (λ i. lookup i rest ≡ none) same h.3 in
          rw (ih, gone, lookup-insert node.file_id j node m, lookup-cons j id node rest, ← h.0, e)
      | inr e ↦ elim (Option-cases (lookup j rest)) [
        | inl n ↦
            rw (ih, lookup-cons j id node rest, e, n, lookup-insert node.file_id j node m, ← h.0, e)
        | inr (_, n) ↦ rw (ih, lookup-cons j id node rest, e, n)
      ]
    ]

-- A largest number so far: none yet, or not above the top.
abbrev Upto : ℕ → ℕ → Type 0
Upto top max_id = (max_id ≡ long_limit - 1) ⊎ (max_id ≤ top)

-- Which of two numbers the loop keeps.
larger : ℕ → ℕ → ℕ
larger max_id id = if signed_ltb (max_id % 2 ^ 32) (id % 2 ^ 32) then id else max_id

larger_none : (max_id id : ℕ) → max_id ≡ long_limit - 1 → id < int_limit → larger max_id id ≡ id
unfolding larger signed_ltb
larger_none max_id id e h =
    let test : ltb ((max_id % 2 ^ 32 + int_limit) % 2 ^ 32) ((id % 2 ^ 32 + int_limit) % 2 ^ 32)
        ≡ true =
      lt→ltb _ _ (omega arith) in
    rw test

larger_some :
    (max_id id : ℕ)
    → max_id < int_limit
    → id < int_limit
    → larger max_id id ≡ (if ltb max_id id then id else max_id)
unfolding larger signed_ltb
larger_some max_id id h k =
    let a : (max_id % 2 ^ 32 + int_limit) % 2 ^ 32 ≡ max_id + int_limit = omega arith in
    let b : (id % 2 ^ 32 + int_limit) % 2 ^ 32 ≡ id + int_limit = omega arith in
    rw (a, b) (ground arith)

larger-Upto :
    (top max_id id : ℕ)
    → top < int_limit
    → Upto top max_id
    → id ≤ top
    → Upto top (larger max_id id)
      × (id ≡ top → larger max_id id ≡ top)
      × (max_id ≡ top → larger max_id id ≡ top)
larger-Upto top max_id id h (inl e) k =
    rw (larger_none max_id id e (omega arith)) (inr k, λ q. q, λ q. absurd (omega arith))
larger-Upto top max_id id h (inr e) k =
    rw (larger_some max_id id (omega arith) (omega arith)) (elim (Bool-cases (ltb max_id id)) [
      | inl t ↦ rw t (inr k, λ q. q, λ q. absurd (omega (arith, ltb→lt _ _ t)))
      | inr t ↦ rw t (inr e, λ q. omega (arith, ltb→le _ _ t), λ q. q)
    ])

-- The top has been met, or is still to come.
abbrev Met : ℕ → ℕ → List (ℕ × MetaNode) → Type 0
Met top max_id list = (max_id ≡ top) ⊎ ((n : MetaNode) × (lookup top list ≡ some n))

larger-Met :
    (top max_id id : ℕ) (node : MetaNode) (rest : List (ℕ × MetaNode))
    → top < int_limit
    → Upto top max_id
    → id ≤ top
    → Met top max_id ((id, node) ∷ rest)
    → Met top (larger max_id id) rest
larger-Met top max_id id node rest h u k (inl e) = inl ((larger-Upto top max_id id h u k).2 e)
larger-Met top max_id id node rest h u k (inr (n, e)) = elim (Bool-cases (id == top)) [
  | inl q ↦ inl ((larger-Upto top max_id id h u k).1 ((==_iff _ _).0 q))
  | inr q ↦ inr (n, rw (lookup-cons top id node rest, q) at e)
]

-- One round of the loop.
round :
    (left : ℕ) (file memory : List ℕ) (m : List (ℕ × MetaNode)) (max_id : ℕ) (node : MetaNode)
    → node_of (take 24 file ++ drop (length (take 24 file)) memory) ≡ node
    → init_loop (suc left) file memory m max_id
      ≡ init_loop left
          (drop 24 file)
          (take 24 file ++ drop (length (take 24 file)) memory)
          (insert node.file_id node m)
          (larger max_id node.file_id)
unfolding init_loop larger
round left file memory m max_id node e =
    ap
      (λ n.
        init_loop left (drop 24 file) (take 24 file ++ drop (length (take 24 file)) memory)
          (insert n.file_id n m) (larger max_id n.file_id))
      e

init_loop-reload :
    (top : ℕ) (list : List (ℕ × MetaNode)) (tail memory : List ℕ) (m : List (ℕ × MetaNode))
    (max_id : ℕ)
    → top < int_limit
    → Entries top list
    → Upto top max_id
    → Met top max_id list
    → init_loop (length list) (nodes_bytes list ++ tail) memory m max_id ≡ (reload list m, top)
unfolding init_loop nodes_bytes reload
init_loop-reload top [] tail memory m max_id h en u (inl e) = ap (λ k. (m, k)) e
init_loop-reload top [] tail memory m max_id h en u (inr (n, e)) =
    cc (e, lookup-nil {V = MetaNode} top [] refl)
init_loop-reload top ((id, node) ∷ rest) tail memory m max_id h en u met =
    let b = node_bytes node in
    let after = nodes_bytes rest ++ tail in
    let size = length-node_bytes node in
    let same : node_of (b ++ drop 24 memory) ≡ node = node_of-node_bytes node _ en.1 in
    let le : node.file_id ≤ top = omega (arith, en.2, en.0) in
    let ih =
      init_loop-reload top rest tail (b ++ drop 24 memory) (insert node.file_id node m)
        (larger max_id node.file_id) h en.4 (larger-Upto top max_id node.file_id h u le).0
        (larger-Met top max_id node.file_id node rest h u le
          (subst (λ i. Met top max_id ((i, node) ∷ rest)) en.0 met)) in
    let file : nodes_bytes ((id, node) ∷ rest) ++ tail ≡ b ++ after =
      append_assoc b (nodes_bytes rest) tail in
    let first = take-append_eq 24 b after (sym size) in
    let memory' : take 24 (b ++ after) ++ drop (length (take 24 (b ++ after))) memory
        ≡ b ++ drop 24 memory =
      rw (first, size) in
    ap (λ f. init_loop (suc (length rest)) f memory m max_id) file
    ∙ round (length rest) (b ++ after) memory m max_id node (ap node_of memory' ∙ same)
    ∙ ap₂
        (λ f k.
          init_loop (length rest) f k (insert node.file_id node m) (larger max_id node.file_id))
        (drop-append_eq 24 b after (sym size)) memory'
    ∙ ih

length-nodes_bytes : (list : List (ℕ × MetaNode)) → length (nodes_bytes list) ≡ 24 * length list
unfolding nodes_bytes
length-nodes_bytes [] = refl
length-nodes_bytes ((id, node) ∷ rest) = omega (
  arith,
  length-append (node_bytes node) (nodes_bytes rest),
  length-node_bytes node,
  length-nodes_bytes rest,
)

lookup-length :
    (j : ℕ) (m : List (ℕ × MetaNode)) (n : MetaNode) → lookup j m ≡ some n → 0 < length m
lookup-length j [] n e = cc (e, lookup-nil {V = MetaNode} j [] refl)
lookup-length j (x ∷ m) n e = omega arith

same_option :
    (j : ℕ) (m : List (ℕ × MetaNode))
    → elim (lookup j m) as (λ _. Option MetaNode) [ none ↦ lookup j [] | some node ↦ some node ]
      ≡ lookup j m
same_option j m = elim (Option-cases (lookup j m)) [
  | inl e ↦ rw (e, lookup-nil {V = MetaNode} j [] refl)
  | inr (_, e) ↦ rw e
]

-- A new program that reads the file that save_metadata left finds every number as it was, and
-- goes on behind the latest file: whatever the file held before and the memory of the node at
-- first, for a table whose entries stand under their own numbers, once each, below 2 ^ 31, with
-- fields of 64 bits, whose latest file is the entry with the largest number, and a table and an
-- old file below 2 ^ 31 bytes.
pub init-save_metadata :
    (memory : List ℕ) (d : Disk) (s : Ifs)
    → s.latest_data.file_id < int_limit
    → Entries s.latest_data.file_id s.meta_datas
    → lookup s.latest_data.file_id s.meta_datas ≡ some s.latest_data
    → 4 + 24 * length s.meta_datas < int_limit
    → length (contents d.meta_storage) < int_limit
    → (s' : Ifs) × (init memory (save_metadata d s) new_ifs ≡ some (s', true))
      × ((id : ℕ) → lookup id s'.meta_datas ≡ lookup id s.meta_datas)
      × (s'.latest_data ≡ s.latest_data)
unfolding init save_metadata new_ifs
init-save_metadata memory d s h en top k o =
    let t = s.latest_data.file_id in
    let m = s.meta_datas in
    let old = contents d.meta_storage in
    let count = le_bytes 4 (length m) in
    let nodes = nodes_bytes m in
    let text = count ++ nodes in
    let tail = drop (length text) old in
    let n4 = length-le_bytes 4 (length m) in
    let size = length-nodes_bytes m in
    let len : length (text ++ tail) < int_limit = omega (
      arith,
      length-append text tail,
      length-append count nodes,
      n4,
      size,
      length-drop (length text) old,
    ) in
    let some_nodes : 0 < length m = lookup-length t m s.latest_data top in
    let same : length (text ++ tail) % word_limit ≡ length (text ++ tail) = omega (arith, len) in
    let long : signed_ltb 4 (length (text ++ tail) % word_limit) ≡ true =
      rw same (signed_small 4 (length (text ++ tail)) (omega arith) len)
      ∙ lt→ltb 4 (length (text ++ tail))
          (omega (arith, len, length-append text tail, length-append count nodes, n4, size)) in
    let assoc : text ++ tail ≡ count ++ (nodes ++ tail) = append_assoc count nodes tail in
    let found : lookup t (reload m []) ≡ some s.latest_data = rw (lookup-reload t t m [] en, top) in
    (
      record { meta_datas = reload m []; latest_data = s.latest_data },
      rw (
        long,
        assoc,
        take-append_eq 4 count (nodes ++ tail) (sym n4),
        drop-append_eq 4 count (nodes ++ tail) (sym n4),
        of_le-le_bytes 4 (length m) (omega arith),
        lt→ltb (length m) int_limit (omega arith),
        init_loop-reload t m tail memory [] (long_limit - 1) h en (inl refl)
            (inr (s.latest_data, top)),
        ne→== t (long_limit - 1) (omega arith),
        found,
      ),
      λ id. lookup-reload t id m [] en ∙ same_option id m,
      refl,
    )
