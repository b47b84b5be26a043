-- ===== src/Fs/Tests.antt =====
-- Runs of the files of depends/fs.
use just_for_test_and_try.Base.{
  ℕ, ◌≤◌, ◌≡◌, ◌≢◌, refl, inr, true, none, some, List, [], ◌∷◌, arith, take, lookup, lookup-nil,
  nat_eq, bytes_eq_eq,
}
use just_for_test_and_try.Fs.FileUtils.{Files, Result, done}
use just_for_test_and_try.Fs.FileUtils
use just_for_test_and_try.Fs.FileUtils.Contents.{write-read}
use just_for_test_and_try.Fs.Ifs.{
  MetaNode, Ifs, Disk, new_ifs, init, write, read, get_length, save_metadata,
}
use just_for_test_and_try.Fs.Ifs.Store.{Stored, write-Stored}
use just_for_test_and_try.Fs.Ifs.Restart.{Entries, init-save_metadata}

abbrev first : MetaNode
first = record { file_id = 0; start = 0; length_of = 0 }

abbrev empty : Ifs
empty = record { meta_datas = []; latest_data = first }

abbrev no_disk : Disk
no_disk = record { data_storage = none; meta_storage = none }

empty-Stored : Stored empty no_disk
empty-Stored = record {
  ends = refl;
  small = omega arith;
  within = λ id node h. absurd (cc (h, lookup-nil {V = MetaNode} id [] refl));
  ids = λ id node h. absurd (cc (h, lookup-nil {V = MetaNode} id [] refl));
  present = λ id h. lookup-nil id [] refl;
}

write-Stored_example :
    (s' : Ifs) × (d' : Disk) × (write (1 ∷ 2 ∷ []) no_disk empty ≡ (s', d', 1))
    × Stored s' d'
    × (read 1 d' s' ≡ some (1 ∷ 2 ∷ []))
    × (get_length 1 s' ≡ some 2)
    × ((other : ℕ) → other ≢ 1 → read other d' s' ≡ read other no_disk empty)
write-Stored_example =
    write-Stored (1 ∷ 2 ∷ []) no_disk empty empty-Stored (omega arith) (omega arith) (omega arith)

abbrev second : MetaNode
second = record { file_id = 1; start = 0; length_of = 2 }

abbrev third : MetaNode
third = record { file_id = 2; start = 2; length_of = 5 }

abbrev saved : Ifs
saved = record { meta_datas = (2, third) ∷ (1, second) ∷ []; latest_data = third }

saved-Entries : Entries 2 saved.meta_datas
unfolding lookup
saved-Entries = (
  refl,
  record { id_small = omega arith; start_small = omega arith; length_small = omega arith },
  omega arith,
  refl,
  (
    refl,
    record { id_small = omega arith; start_small = omega arith; length_small = omega arith },
    omega arith,
    refl,
    tt,
  ),
)

third_found : lookup 2 saved.meta_datas ≡ some third
unfolding lookup
third_found = refl

init-save_metadata_example :
    (s' : Ifs) × (init [] (save_metadata no_disk saved) new_ifs ≡ some (s', true))
    × ((id : ℕ) → lookup id s'.meta_datas ≡ lookup id saved.meta_datas)
    × (s'.latest_data ≡ third)
init-save_metadata_example =
    init-save_metadata [] no_disk saved (omega arith) saved-Entries third_found (omega arith)
      (omega arith)

abbrev name : List ℕ
name = 97 ∷ []

write-read_example :
    (n : ℕ) × (fs' : Files) × (FileUtils.write
        (1 ∷ 2 ∷ 3 ∷ [])
        (2 ∷ 5 ∷ [])
        name
        true
        ((name, []) ∷ [])
      ≡ done (n, fs'))
    × (n ≤ 3)
    × (FileUtils.read name fs' ≡ done (take n (1 ∷ 2 ∷ 3 ∷ [])))
    × ((other : List ℕ)
        → other ≢ name
        → FileUtils.read other fs' ≡ FileUtils.read other ((name, []) ∷ []))
write-read_example = write-read (1 ∷ 2 ∷ 3 ∷ []) (2 ∷ 5 ∷ []) name true ((name, []) ∷ []) (inr refl)
