-- ===== src/FileWriter/Tests.antt =====
-- A writer with a buffer of three bytes.
use just_for_test_and_try.Base.{◌≡◌, refl, some, [], ◌∷◌, arith, length}
use just_for_test_and_try.FileWriter.{WriteFileMap, append_data}
use just_for_test_and_try.FileWriter.Output.{IsValid, output, append_data-output}

abbrev writer : WriteFileMap
writer = record {
  written = 9 ∷ [];
  offset = 1;
  length_of = 1;
  buffer = 8 ∷ 0 ∷ 0 ∷ [];
  capacity = 3;
}

writer-IsValid : IsValid writer
writer-IsValid = record { room = refl; within = omega arith; counted = refl }

append_data-output_example :
    (w' : WriteFileMap) × (append_data writer (4 ∷ 5 ∷ 6 ∷ []) ≡ some w')
    × IsValid w'
    × (output w' ≡ 9 ∷ 8 ∷ 4 ∷ 5 ∷ 6 ∷ [])
    × (w'.capacity ≡ 3)
    × (w'.offset ≡ length w'.written)
append_data-output_example =
    append_data-output writer (4 ∷ 5 ∷ 6 ∷ []) writer-IsValid (omega arith) (omega arith)
