-- ===== src/Fs/FileUtils/Contents.antt =====
-- What FileUtils writes it reads.
use just_for_test_and_try.Base.{
  ℕ, ◌+◌, ◌-◌, ◌≤◌, ◌≡◌, ◌≢◌, refl, sym, inl, inr, ◌⊎◌, Bool, true, Bool-cases, Option-cases, none,
  some, List, [], ◌∷◌, arith, ◌==◌, length, take, lookup, insert, bytes_eq_eq, lookup-insert,
  bytes_eq_self, ne→bytes_eq, min, take-add,
}
use just_for_test_and_try.Fs.FileUtils.{Files, done, is_exists_file, write_loop, write, read}

-- The loop of write leaves the file with the first bytes of the buffer, as many as it returns.
write_loop_lem :
    (buff : List ℕ) (len : ℕ) (accepts : List ℕ)
    → len ≤ length buff
    → (n : ℕ) × (write_loop buff len (take len buff) accepts ≡ (n, take n buff)) × (n ≤ length buff)
unfolding write_loop
write_loop_lem buff len [] h = (len, refl, h)
write_loop_lem buff len (a ∷ accepts) h =
    let n = min a (length buff - len) in
    elim (Bool-cases (n == 0)) [
      | inl e ↦ (len, rw e, h)
      | inr e ↦
          let (m, q, k) = write_loop_lem buff (len + n) accepts (omega arith) in
          (m, rw (e, ← take-add len n buff) q, k)
    ]

-- Writing a file that is not there, or may be covered, leaves a file that reads as the first bytes
-- of the buffer, as many as the result says, and no other file is touched.
pub write-read :
    (buff accepts name : List ℕ) (cover : Bool) (fs : Files)
    → (lookup name fs ≡ none) ⊎ (cover ≡ true)
    → (n : ℕ) × (fs' : Files) × (write buff accepts name cover fs ≡ done (n, fs'))
      × (n ≤ length buff)
      × (read name fs' ≡ done (take n buff))
      × ((other : List ℕ) → other ≢ name → read other fs' ≡ read other fs)
unfolding write read
write-read buff accepts name cover fs h =
    let (n, e, k) = write_loop_lem buff 0 accepts (omega arith) in
    let fs' = insert name (take n buff) fs in
    let mine : lookup name fs' ≡ some (take n buff) =
      rw (lookup-insert name name (take n buff) fs, bytes_eq_self name) in
    let allowed : write buff accepts name cover fs ≡ done (n, fs') = elim h [
      | inl absent ↦ rw (e, is_exists_file, absent)
      | inr covers ↦ elim (Option-cases (lookup name fs)) [
        | inl absent ↦ rw (e, is_exists_file, absent)
        | inr (_, found) ↦ rw (e, is_exists_file, found, covers)
      ]
    ] in
    (
      n,
      fs',
      allowed,
      k,
      rw (mine, read),
      λ other ne.
          let theirs : lookup other fs' ≡ lookup other fs =
            rw (
              lookup-insert name other (take n buff) fs,
              ne→bytes_eq name other (λ q. ne (sym q)),
            ) in
          rw (theirs, read),
    )
