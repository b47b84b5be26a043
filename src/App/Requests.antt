-- ===== src/App/Requests.antt =====
-- The packets of a client's requests, and what the client makes of the answers.
use just_for_test_and_try.Base.{
  ℕ, ◌+◌, ◌-◌, ◌*◌, ◌%◌, ◌^◌, ◌≤◌, ◌<◌, ◌≡◌, refl, ap, sym, ◌∙◌, inl, inr, Bool-cases, Option-cases,
  true, some, List, [], ◌∷◌, ◌++◌, append_assoc, arith, ◌==◌, ==_iff, length-zero, length, set,
  take, drop, replicate, length-append, length-take, length-drop, length-replicate, take-length,
  take-append_eq, lt→ltb, le→ltb, min, int_limit, htonl, ntohl, ntohl-append, length-htonl, lookup,
  insert, store, take-add, drop-append_eq, ap₂, bytes_eq_eq,
}
use just_for_test_and_try.Net.Package.Fields.{signed_small}
use just_for_test_and_try.Net.Packet.{Packet, returned}
use just_for_test_and_try.Fs.FileUtils
use just_for_test_and_try.App.{success, request_code, response_code}
use just_for_test_and_try.App.Server.{answer, file_number}
use just_for_test_and_try.App.Client.{
  printed, get_packet, data_path, get_answer, put_packet, put_answer,
}
use just_for_test_and_try.App.Answers.{Asks}
use just_for_test_and_try.App.Numbers.{
  AllDigits, value, file_number-AllDigits, formatted-AllDigits, set-behind,
}

-- A packet on the other side of a stream: the bytes that its lengths say, in blocks with `x` and
-- `y` behind them.
abbrev pub carried : List ℕ → List ℕ → ℕ → ℕ → Packet → Packet
carried x y max_id end_point p = record {
  channel_id = max_id;
  head_data = take p.head_length p.head_data ++ x;
  head_length = p.head_length;
  data_block = take p.data_length p.data_block ++ y;
  data_length = p.data_length;
  end_point = end_point;
}

-- The word at the start of a head of 8 bytes that is carried.
pub head-carried :
    (word junk : ℕ) (x : List ℕ)
    → word < 2 ^ 32
    → ntohl (take 8 (htonl word ++ replicate 4 junk) ++ x) ≡ some word
head-carried word junk x h =
    let n = length-htonl word in
    let whole : take 8 (htonl word ++ replicate 4 junk) ≡ htonl word ++ replicate 4 junk =
      take-length (htonl word ++ replicate 4 junk) 8 (
        omega (arith, length-append (htonl word) (replicate 4 junk), length-replicate 4 junk, n)) in
    ap (λ k. ntohl (k ++ x)) whole
    ∙ ap ntohl (append_assoc (htonl word) (replicate 4 junk) x)
    ∙ ntohl-append word (replicate 4 junk ++ x) h

-- The packet of a PUT.
abbrev pub put_of : ℕ → ℕ → ℕ → List ℕ → Packet
put_of junk max_id end_point bytes = record {
  channel_id = max_id;
  head_data = htonl 2 ++ replicate 4 junk;
  head_length = 8;
  data_block = bytes;
  data_length = length bytes;
  end_point = end_point;
}

there :
    (path bytes : List ℕ) (fs : FileUtils.Files)
    → lookup path fs ≡ some bytes
    → (FileUtils.is_exists_file path fs ≡ true)
      × (FileUtils.get_file_size path fs ≡ some (length bytes % 2 ^ 32))
      × (FileUtils.read path fs ≡ FileUtils.done bytes)
unfolding FileUtils.is_exists_file FileUtils.get_file_size FileUtils.read
there path bytes fs f =
    (rw (f, FileUtils.is_exists_file), rw (f, FileUtils.get_file_size), rw (f, FileUtils.read))

pub put_packet_lem :
    (junk m e : ℕ) (path bytes : List ℕ) (fs : FileUtils.Files)
    → lookup path fs ≡ some bytes
    → length bytes ≤ 10 * 1024 * 1024
    → put_packet junk m e path fs ≡ returned (some (put_of junk m e bytes))
unfolding put_packet request_code
put_packet_lem junk m e path bytes fs f h =
    let size : length bytes % 2 ^ 32 ≡ length bytes = omega arith in
    let (exists, sized, read) = there path bytes fs f in
    rw (
      exists,
      sized,
      size,
      signed_small (10 * 1024 * 1024) (length bytes) (omega arith) (omega arith),
      le→ltb (10 * 1024 * 1024) (length bytes) h,
      lt→ltb (length bytes) int_limit (omega arith),
      read,
      size,
      take-length bytes (length bytes) (omega arith),
    )

pub put_answer_lem :
    (junk m e id : ℕ) (x y : List ℕ) (p : Packet)
    → id < int_limit
    → put_answer (carried x y m e (answer junk success (htonl id ++ junk ∷ []) 4 p))
      ≡ returned (some id)
unfolding put_answer answer response_code
put_answer_lem junk m e id x y p h =
    let n = length-htonl id in
    let four : take 4 (htonl id ++ junk ∷ []) ≡ htonl id =
      take-append_eq 4 (htonl id) (junk ∷ []) (sym n) in
    rw (head-carried 1 junk x (omega arith), four, ntohl-append id y (omega arith))

-- The packet of a GET for a number of some digits.
abbrev pub get_of : ℕ → ℕ → ℕ → List ℕ → Packet
get_of junk max_id end_point text = record {
  channel_id = max_id;
  head_data = htonl 1 ++ replicate 4 junk;
  head_length = 8;
  data_block = text ++ 0 ∷ drop (length text + 1) (htonl 1 ++ replicate 96 junk);
  data_length = length text + 4;
  end_point = end_point;
}

pub get_packet_lem :
    (junk m e : ℕ) (text : List ℕ)
    → AllDigits text
    → length text ≤ 96
    → get_packet junk m e text ≡ returned (get_of junk m e text)
unfolding get_packet printed request_code
get_packet_lem junk m e text d h =
    let size : (length text + 4) % 2 ^ 32 ≡ length text + 4 = omega arith in
    rw (formatted-AllDigits text d, take-length text 99 (omega arith), size)

pub get_of-Asks :
    (junk m e m' e' : ℕ) (text x y : List ℕ)
    → AllDigits text
    → length text ≤ 96
    → 0 < value 0 text
    → value 0 text < int_limit
    → 0 < length y
    → Asks (carried x y m' e' (get_of junk m e text)) (value 0 text)
get_of-Asks junk m e m' e' text x y d h p k ny =
    let behind = drop (length text + 1) (htonl 1 ++ replicate 96 junk) in
    let block = text ++ 0 ∷ behind in
    let n : length behind ≡ 99 - length text = omega (
      arith,
      length-drop (length text + 1) (htonl 1 ++ replicate 96 junk),
      length-append (htonl 1) (replicate 96 junk),
      length-htonl 1,
      length-replicate 96 junk,
    ) in
    let cut : take (length text + 4) block ≡ text ++ 0 ∷ take 3 behind =
      take-add (length text) 4 block
      ∙ ap₂ (λ a b. a ++ take 4 b) (take-append_eq (length text) text (0 ∷ behind) refl)
          (drop-append_eq (length text) text (0 ∷ behind) refl) in
    let at_nul : set (take (length text + 4) block ++ y) (length text + 4) 0
        ≡ text ++ 0 ∷ set (take 3 behind ++ y) 3 0 =
      ap (λ k. set (k ++ y) (length text + 4) 0) cut
      ∙ ap (λ k. set k (length text + 4) 0) (append_assoc text (0 ∷ take 3 behind) y)
      ∙ set-behind text (take 3 behind ++ y) 3 0 in
    record {
      request = head-carried 1 junk x (omega arith);
      room = omega (
        arith,
        length-append (take (length text + 4) block) y,
        length-take (length text + 4) block,
        length-append text (0 ∷ behind),
        n,
      );
      number = ap file_number at_nul ∙ file_number-AllDigits text _ d p k;
    }

write_loop_end :
    (bytes file accepts : List ℕ)
    → FileUtils.write_loop bytes (length bytes) file accepts ≡ (length bytes, file)
unfolding FileUtils.write_loop
write_loop_end bytes file [] = refl
write_loop_end bytes file (a ∷ accepts) =
    let n : min a (length bytes - length bytes) ≡ 0 = omega arith in rw n

write_loop_all :
    (bytes : List ℕ) (a : ℕ) (accepts : List ℕ)
    → length bytes ≤ a
    → FileUtils.write_loop bytes 0 [] (a ∷ accepts) ≡ (length bytes, bytes)
unfolding FileUtils.write_loop
write_loop_all bytes a accepts h =
    let n : min a (length bytes - 0) ≡ length bytes = omega arith in
    let m : 0 + length bytes ≡ length bytes = omega arith in
    let whole = take-length bytes (length bytes) (omega arith) in
    elim (Bool-cases (length bytes == 0)) [
      | inl e ↦
          let zero_length : length bytes ≡ 0 = (==_iff (length bytes) 0).0 e in
          let empty : bytes ≡ [] = length-zero bytes zero_length in rw (n, e, empty) refl
      | inr e ↦ rw (n, e, m, whole) (write_loop_end bytes bytes accepts)
    ]

-- A buffer that one call of fwrite takes whole.
write_all :
    (bytes : List ℕ) (a : ℕ) (accepts name : List ℕ) (fs : FileUtils.Files)
    → length bytes ≤ a
    → FileUtils.write bytes (a ∷ accepts) name true fs
      ≡ FileUtils.done (length bytes, insert name bytes fs)
unfolding FileUtils.write FileUtils.is_exists_file
write_all bytes a accepts name fs h =
    rw (write_loop_all bytes a accepts h) (elim (Option-cases (lookup name fs)) [
      | inl e ↦ rw (e, FileUtils.is_exists_file)
      | inr (_, e) ↦ rw (e, FileUtils.is_exists_file)
    ])

pub get_answer_lem :
    (junk m e a : ℕ) (x y accepts text bytes : List ℕ) (p : Packet) (fs : FileUtils.Files)
    → length bytes < int_limit
    → length bytes ≤ a
    → 0 < length y
    → get_answer text
        (carried x y m e (answer junk success (bytes ++ 0 ∷ junk ∷ []) (length bytes) p))
        (a ∷ accepts)
        fs
      ≡ returned (true, insert (data_path text) bytes fs)
unfolding get_answer answer response_code store
get_answer_lem junk m e a x y accepts text bytes p fs h k ny =
    let size : length bytes % 2 ^ 32 ≡ length bytes = omega arith in
    let data_ : take (length bytes) (bytes ++ 0 ∷ junk ∷ []) ≡ bytes =
      take-append_eq (length bytes) bytes (0 ∷ junk ∷ []) refl in
    rw (
      head-carried 1 junk x (omega arith),
      size,
      data_,
      lt→ltb (length bytes) (length (bytes ++ y)) (omega (arith, length-append bytes y)),
      lt→ltb (length bytes) int_limit h,
      take-append_eq (length bytes) bytes y refl,
      write_all bytes a accepts (data_path text) fs k,
    )
