-- ===== src/FileMap/Tests.antt =====
-- A file of five bytes under a window of three.
use just_for_test_and_try.Base.{ℕ, ◌≡◌, refl, some, List, [], ◌∷◌, arith}
use just_for_test_and_try.FileMap.{FileMap, map_file_content}
use just_for_test_and_try.FileMap.Contents.{IsValid, Maps, map_file_content-Maps}

abbrev file : List ℕ
file = 10 ∷ 11 ∷ 12 ∷ 13 ∷ 14 ∷ []

abbrev window : FileMap
window = record {
  buffer = 10 ∷ 11 ∷ 12 ∷ [];
  offset = 0;
  buffer_length = 3;
  length_of = 3;
  file_size = 5;
}

window-IsValid : IsValid window file
window-IsValid = record {
  size = refl;
  room = refl;
  within = omega arith;
  inside = omega arith;
  bytes = refl;
  small = omega arith;
}

map_file_content-Maps_example :
    (pointer : ℕ) × (m' : FileMap) × (map_file_content window file 2 2 ≡ some (some pointer, m'))
    × Maps window m' file 2 2 pointer
map_file_content-Maps_example =
    map_file_content-Maps window file 2 2 window-IsValid (omega arith) (omega arith)
