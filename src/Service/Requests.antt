-- ===== src/Service/Requests.antt =====
-- Requests of the client for a part of a file, and the server's answers.
use just_for_test_and_try.Base.{
  ℕ, ◌+◌, ◌-◌, ◌*◌, ◌≤◌, ◌<◌, ◌≡◌, refl, subst, ◌∙◌, some, List, [], ◌∷◌, ◌++◌, append_assoc, arith,
  length, take, drop, slice, replicate, length-append, length-htonl, length-drop, take-append_le,
  lt→ltb, int_limit, htonl, ntohl-htonl, lookup, bytes_eq_eq, memmove,
}
use just_for_test_and_try.Net.Package.{Package, word_limit, set_data, set_int}
use just_for_test_and_try.Net.Package.Fields.{
  Writing, Reading, Wrote, starts, reads, written, set_int-Writing, set_string-Writing,
  get_int-Reading, get_string-Reading,
}
use just_for_test_and_try.Net.Packet.{Packet}
use just_for_test_and_try.Net.Packet.Carried.{Holds, Delivered-Holds, Holds-of}
use just_for_test_and_try.Net.Stream.Decode.{Delivered}
use just_for_test_and_try.Fs.FileUtils.{Files, read_from}
use just_for_test_and_try.Service.{
  TaskNode, get_chunk_req, ok, echo_from_server, get_chunk, write_path, chunk_request, process,
}

-- A path with its length before it.
abbrev path_field : List ℕ → List ℕ
path_field path = htonl (length path) ++ path

pub write_path-Wrote :
    (k : Package) (req : ℕ) (path : List ℕ)
    → Writing k []
    → 8 + length path ≤ k.left_length
    → (k' : Package) × (write_path k req path ≡ some k')
      × Wrote k (htonl req ++ path_field path) (8 + length path) k'
unfolding write_path
write_path-Wrote k req path w h =
    let a = htonl req in
    let b = htonl (length path) in
    let (k1, e1, w1) = set_int-Writing k [] a w (length-htonl _) (omega arith) in
    let (k2, e2, w2) =
      set_int-Writing k1 a b w1.writing (length-htonl _) (omega (arith, w1.spent)) in
    let (k3, e3, w3) =
      set_string-Writing k2 (a ++ b) path w2.writing (omega (arith, w1.spent, w2.spent)) in
    (
      k3,
      rw (e1, e2, e3),
      record {
        writing = subst (Writing k3) (append_assoc a b path) w3.writing;
        spent = omega (arith, w1.spent, w2.spent, w3.spent);
        same = w3.same ∙ w2.same ∙ w1.same;
      },
    )

-- A delivered request makes a task with its kind and path, and a package that stands behind them.
pub echo_from_server_lem :
    (p : Packet) (req : ℕ) (path tail text : List ℕ)
    → req < word_limit
    → length path < word_limit
    → Holds p (htonl req ++ (htonl (length path) ++ (path ++ tail))) text
    → (k : Package) × (echo_from_server p
        ≡ some (record { packet = p; head = k; req = req; path = path }))
      × Reading k tail
unfolding echo_from_server
echo_from_server_lem p req path tail text h l held =
    let (k1, e1, r1) =
      get_int-Reading _ (htonl req) _ (length-htonl req)
        (reads p.head_data p.head_length _ held.head_fits held.head_small held.head_of) in
    let (k2, e2, r2) = get_int-Reading k1 (htonl (length path)) _ (length-htonl _) r1 in
    let (k3, e3, r3) = get_string-Reading k2 path tail r2 in
    (k3, rw (e1, ntohl-htonl req h, e2, ntohl-htonl (length path) l, e3), r3)

pub chunk_request_lem :
    (junk max_id end_point offset count : ℕ) (path : List ℕ)
    → length path + 17 < int_limit
    → (p : Packet) × (rest : List ℕ) × (chunk_request junk max_id end_point offset count path
        ≡ some p)
      × Holds p
          (htonl get_chunk_req
            ++ (htonl (length path) ++ (path ++ (htonl offset ++ (htonl count ++ rest)))))
          (junk ∷ [])
unfolding chunk_request
chunk_request_lem junk max_id end_point offset count path h =
    let n = length path + 4 * 4 + 1 in
    let (w, left, len) = starts junk n (omega arith) in
    let (k1, e1, w1) = write_path-Wrote _ get_chunk_req path w (omega (arith, left)) in
    let (k2, e2, w2) =
      set_int-Writing k1 _ (htonl offset) w1.writing (length-htonl _)
        (omega (arith, left, w1.spent)) in
    let (k3, e3, w3) =
      set_int-Writing k2 _ (htonl count) w2.writing (length-htonl _)
        (omega (arith, left, w1.spent, w2.spent)) in
    let whole : length k3.block ≡ n = w3.same ∙ w2.same ∙ w1.same ∙ len in
    let rest = drop k3.pointer k3.block in
    let a = htonl get_chunk_req in
    let b = htonl (length path) in
    let c = htonl offset in
    let d = htonl count in
    let assoc : (((a ++ (b ++ path)) ++ c) ++ d) ++ rest
        ≡ a ++ (b ++ (path ++ (c ++ (d ++ rest)))) =
      simp append_assoc in
    (
      record {
        channel_id = max_id;
        head_data = k3.block;
        head_length = n;
        data_block = junk ∷ [];
        data_length = 1;
        end_point = end_point;
      },
      rest,
      rw (e1, e2, e3),
      record {
        head_of = written k3 _ n w3.writing whole ∙ assoc;
        head_fits = omega (arith, whole);
        head_small = omega arith;
        text_of = refl;
        text_fits = omega arith;
        text_small = omega arith;
      },
    )

ok_head_lem :
    (junk : ℕ)
    → (k : Package) × (set_int (set_data (replicate 15 junk) 13) (htonl ok) ≡ some (htonl ok, k))
      × (take 13 k.block ≡ htonl ok ++ replicate 9 junk)
      × (length k.block ≡ 15)
unfolding set_int set_data memmove htonl
ok_head_lem junk = (_, refl, refl, refl)

-- The part of the file that a task's head asks for.
get_chunk_lem :
    (junk offset count : ℕ) (path file : List ℕ) (fs : Files) (q : Packet) (k : Package)
    (rest : List ℕ)
    → lookup path fs ≡ some file
    → length file < int_limit
    → offset + count ≤ length file
    → Reading k (htonl offset ++ (htonl count ++ rest))
    → (r : Packet) × (tail : List ℕ) × (get_chunk junk fs
          (record { packet = q; head = k; req = get_chunk_req; path = path })
        ≡ some r)
      × Holds r (htonl ok ++ tail) (slice offset count file)
unfolding get_chunk read_from
get_chunk_lem junk offset count path file fs q k rest found hf hc r =
    let (k1, e2, r1) = get_int-Reading k (htonl offset) _ (length-htonl offset) r in
    let (k2, e3, r2) = get_int-Reading k1 (htonl count) _ (length-htonl count) r1 in
    let (block, e4, text, size) = ok_head_lem junk in
    let bytes = drop offset file in
    let spare = replicate (length file + 2 - length bytes) junk in
    (
      record q {
        head_data = block.block;
        head_length = 13;
        data_block = bytes ++ spare;
        data_length = count;
      },
      replicate 9 junk,
      rw (
        found,
        get_chunk,
        e2,
        ntohl-htonl offset (omega arith),
        e3,
        ntohl-htonl count (omega arith),
        found,
        read_from,
        lt→ltb offset int_limit (omega arith),
        e4,
      ),
      record {
        head_of = text;
        head_fits = omega (arith, size);
        head_small = omega arith;
        text_of = take-append_le count bytes spare (omega (arith, length-drop offset file));
        text_fits = omega (arith, length-append bytes spare, length-drop offset file);
        text_small = omega arith;
      },
    )

-- A request of the client for a part of a file, once it is delivered, is answered by the server
-- with just that part: the answer's data are so many bytes of the file from the offset on, for a
-- file that is there and has them, of less than 2 ^ 31 bytes, and a path short enough for its
-- packet.
pub process-chunk_request :
    (chunk_size : ℕ) (sum1 : List ℕ → ℕ) (md4 : List ℕ → List ℕ)
    (junk garbage max_id end_point offset count : ℕ) (path file : List ℕ) (fs : Files)
    (p q : Packet)
    → length path + 17 < int_limit
    → length file < int_limit
    → offset + count ≤ length file
    → lookup path fs ≡ some file
    → chunk_request junk max_id end_point offset count path ≡ some p
    → Delivered p q
    → (node : TaskNode) × (r : Packet) × (tail : List ℕ) × (echo_from_server q ≡ some node)
      × (process chunk_size sum1 md4 junk garbage fs node ≡ some (some r))
      × Holds r (htonl ok ++ tail) (slice offset count file)
unfolding process
process-chunk_request chunk_size sum1 md4 junk garbage max_id end_point offset count path file fs p
      q hp hf hc found e d =
    let (p', rest, e', held') = chunk_request_lem junk max_id end_point offset count path hp in
    let held = Delivered-Holds p q _ _ (Holds-of _ p p' _ _ e' e held') d in
    let (k, e1, rd) =
      echo_from_server_lem q get_chunk_req path _ _ (omega arith) (omega arith) held in
    let (r, tail, e2, h) = get_chunk_lem junk offset count path file fs q k _ found hf hc rd in
    (record { packet = q; head = k; req = get_chunk_req; path = path }, r, tail, e1, rw e2, h)
