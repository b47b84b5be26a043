-- ===== src/Service/GetFile.antt =====
-- The client gets the server's file.
use just_for_test_and_try.Base.{
  ℕ, ◌+◌, ◌^◌, ◌≤◌, ◌<◌, ◌≡◌, refl, ap, sym, ◌∙◌, Option, none, some, List, [], ◌∷◌, ◌++◌,
  append_assoc, append-nil, arith, le→leb, length, take, drop, slice, length-htonl, length-slice,
  take-append-drop, drop-drop, drop-length, length-take, int_limit, htonl, ntohl-htonl, lookup,
  bytes_eq_eq,
}
use just_for_test_and_try.Rsync.{ChunkInfo}
use just_for_test_and_try.FileMap.{default_buffer_length}
use just_for_test_and_try.Rsync.Scan.State.{IsDigest}
use just_for_test_and_try.Net.Package.{Package}
use just_for_test_and_try.Net.Package.Fields.{starts, reads, written, get_int-Reading}
use just_for_test_and_try.Net.Packet.{Packet}
use just_for_test_and_try.Net.Packet.Carried.{Holds, Delivered-Holds}
use just_for_test_and_try.Net.Stream.Decode.{Delivered}
use just_for_test_and_try.Fs.FileUtils.{Files}
use just_for_test_and_try.Service.{
  get_meta_req, ok, generate_meta_list, meta_reply, get_meta, process, meta_request, read_chunk,
}
use just_for_test_and_try.Service.Protocol.{AllFit, meta_reply_lem, read_meta-meta_reply}
use just_for_test_and_try.Service.Requests.{
  write_path-Wrote, echo_from_server_lem, chunk_request_lem, process-chunk_request,
}
use just_for_test_and_try.Service.Transfer.{
  answered, client_get_meta, client_get_chunk, Stream, opened, bytes_at, fwrite, construct_loop,
  get_new_file,
}
use just_for_test_and_try.Service.Summer.{sum1_small}
use just_for_test_and_try.Service.Summer
use just_for_test_and_try.Service.Table.{Covers, generate_meta_list-Covers}

-- What a stream was given: what has reached its file, and what waits.
abbrev written_to : Stream → List ℕ
written_to fp = fp.reached ++ fp.pending

fwrite-written_to :
    (drain : List ℕ → ℕ) (bytes : List ℕ) (fp : Stream)
    → written_to (fwrite drain bytes fp) ≡ written_to fp ++ bytes
unfolding fwrite
fwrite-written_to drain bytes fp =
    let all = fp.pending ++ bytes in
    append_assoc fp.reached (take (drain all) all) (drop (drain all) all)
    ∙ ap (λ k. fp.reached ++ k) (take-append-drop (drain all) all)
    ∙ sym (append_assoc fp.reached fp.pending bytes)

meta_request_lem :
    (junk max_id end_point : ℕ) (path : List ℕ)
    → length path + 17 < int_limit
    → (p : Packet) × (rest : List ℕ) × (meta_request junk max_id end_point path ≡ some p)
      × Holds p (htonl get_meta_req ++ (htonl (length path) ++ (path ++ rest))) (junk ∷ [])
unfolding meta_request
meta_request_lem junk max_id end_point path h =
    let n = length path + 4 + 4 + 1 in
    let (w, left, len) = starts junk n (omega arith) in
    let (k, e, w1) = write_path-Wrote _ get_meta_req path w (omega (arith, left)) in
    let whole : length k.block ≡ n = w1.same ∙ len in
    let rest = drop k.pointer k.block in
    let b = htonl (length path) in
    let assoc : (htonl get_meta_req ++ (b ++ path)) ++ rest
        ≡ htonl get_meta_req ++ (b ++ (path ++ rest)) =
      simp append_assoc in
    (
      record {
        channel_id = max_id;
        head_data = k.block;
        head_length = n;
        data_block = junk ∷ [];
        data_length = 1;
        end_point = end_point;
      },
      rest,
      rw e refl,
      record {
        head_of = written k _ n w1.writing whole ∙ assoc;
        head_fits = omega (arith, whole);
        head_small = omega arith;
        text_of = refl;
        text_fits = omega arith;
        text_small = omega arith;
      },
    )

module _ (c : ℕ) (sum1 : List ℕ → ℕ) (md4 : List ℕ → List ℕ) (junk garbage max_id end_point : ℕ)
    (fs : Files) (path file : List ℕ) (short : length path + 17 < int_limit)
    (found : lookup path fs ≡ some file) (go back : Packet → Packet)
    (going : (p : Packet) → p.data_length ≤ length p.data_block → Delivered p (go p))
    (coming : (p : Packet) → p.data_length ≤ length p.data_block → Delivered p (back p)) where
  abbrev exchange : Packet → Option Packet
  exchange = answered c sum1 md4 junk garbage fs go back

  get_meta_lem :
      (q : Packet) (k : Package) (chs : List ChunkInfo) (r : Packet)
      → generate_meta_list c sum1 md4 junk garbage file ≡ some chs
      → meta_reply junk q chs ≡ some r
      → get_meta c sum1 md4 junk garbage fs
          (record { packet = q; head = k; req = get_meta_req; path = path })
        ≡ some r
  unfolding get_meta
  get_meta_lem q k chs r e f = rw (found, get_meta, e) f

  client_get_meta_lem :
      (chs : List ChunkInfo)
      → generate_meta_list c sum1 md4 junk garbage file ≡ some chs
      → AllFit chs
      → length chs < 2 ^ 25
      → client_get_meta exchange junk max_id end_point path ≡ some (some chs)
  unfolding client_get_meta answered process
  client_get_meta_lem chs e f h =
      let (p, rest, e1, held) = meta_request_lem junk max_id end_point path short in
      let q = go p in
      let arrived = Delivered-Holds p q _ _ held (going p held.text_fits) in
      let (k, e2, _) =
        echo_from_server_lem q get_meta_req path rest _ (omega arith) (omega arith) arrived in
      let (r, tail, e3, reply) = meta_reply_lem junk q chs f h in
      let e4 = get_meta_lem q k chs r e e3 in
      let e5 = read_meta-meta_reply junk q r (back r) chs f h e3 (coming r reply.text_fits) in
      rw (e1, e2, e4) e5

  client_get_chunk_lem :
      (at n : ℕ)
      → length file < int_limit
      → at + n ≤ length file
      → (block : List ℕ) × (client_get_chunk exchange junk max_id end_point at n path
          ≡ some (some block))
        × (n ≤ length block)
        × (take n block ≡ slice at n file)
  unfolding client_get_chunk answered read_chunk
  client_get_chunk_lem at n small inside =
      let (p, rest, e1, held) = chunk_request_lem junk max_id end_point at n path short in
      let q = go p in
      let (node, r, tail, e2, e3, h) =
        process-chunk_request c sum1 md4 junk garbage max_id end_point at n path file fs p q short
          small inside found e1 (going p held.text_fits) in
      let got = coming r h.text_fits in
      let final = back r in
      let arrived = Delivered-Holds r final _ _ h got in
      let size : r.data_length ≡ n = omega (
        arith,
        ap length h.text_of,
        length-take r.data_length r.data_block,
        h.text_fits,
        length-slice at n file inside,
      ) in
      let (k, e4, _) = get_int-Reading _ (htonl ok) tail (length-htonl ok) (
        reads final.head_data final.head_length _ arrived.head_fits arrived.head_small
          arrived.head_of) in
      (
        final.data_block,
        rw (e1, e2, e3, e4, ntohl-htonl ok (omega arith)) refl,
        omega (arith, size, got.data_length, arrived.text_fits),
        ap (λ m. take m final.data_block) (omega (arith, size, got.data_length)) ∙ arrived.text_of,
      )

  -- The pieces that follow one another make up the file.
  construct_loop_lem :
      (drain : List ℕ → ℕ) (at : ℕ) (chs : List ChunkInfo) (fp : Stream)
      → length file < int_limit
      → Covers c sum1 md4 file at chs (length file)
      → (fp' : Stream) × (construct_loop exchange junk max_id end_point drain path [] none chs fp
          ≡ some fp')
        × (written_to fp' ≡ written_to fp ++ drop at file)
  unfolding construct_loop bytes_at
  construct_loop_lem drain at [] fp small e = (
    fp,
    refl,
    sym (append-nil (written_to fp))
        ∙ ap (λ k. written_to fp ++ k) (sym (drop-length file at (omega (arith, e)))),
  )
  construct_loop_lem drain at (ch ∷ chs) fp small (from, offset, inside, covers) =
      let (block, e, room, piece) = client_get_chunk_lem at ch.length_of small inside in
      let bytes = slice at ch.length_of file in
      let (fp', e', out) =
        construct_loop_lem drain (at + ch.length_of) chs (fwrite drain bytes fp) small covers in
      let join : bytes ++ drop (at + ch.length_of) file ≡ drop at file =
        rw (← drop-drop ch.length_of at file) (take-append-drop ch.length_of (drop at file)) in
      (
        fp',
        rw (from, offset, e, le→leb ch.length_of (length block) room, piece) e',
        out
            ∙ ap (λ k. k ++ drop (at + ch.length_of) file) (fwrite-written_to drain bytes fp)
            ∙ append_assoc (written_to fp) bytes (drop (at + ch.length_of) file)
            ∙ ap (λ k. written_to fp ++ k) join,
      )

-- GetFile of a file that the client does not have hands just the server's file to stdio: what has
-- reached the client's file when it returns, and what then waits in the buffer of the stream, which
-- it never closes, are together the server's bytes in order, however the stream is buffered and
-- whatever way the packets take, if it delivers those whose blocks hold their data: for chunks of
-- a byte at least, a file below 20 MiB, a path short enough for its packet, and digests of 16 bytes.
pub get_new_file_lem :
    (c : ℕ) (md4 : List ℕ → List ℕ) (junk garbage max_id end_point : ℕ) (fs : Files)
    (path file : List ℕ) (go back : Packet → Packet) (drain : List ℕ → ℕ)
    → length path + 17 < int_limit
    → lookup path fs ≡ some file
    → ((p : Packet) → p.data_length ≤ length p.data_block → Delivered p (go p))
    → ((p : Packet) → p.data_length ≤ length p.data_block → Delivered p (back p))
    → IsDigest md4
    → 0 < c
    → length file < default_buffer_length
    → (fp : Stream) × (get_new_file
          (answered c Summer.sum1 md4 junk garbage fs go back)
          junk
          max_id
          end_point
          drain
          path
        ≡ some fp)
      × (fp.reached ++ fp.pending ≡ file)
unfolding get_new_file
get_new_file_lem c md4 junk garbage max_id end_point fs path file go back drain short found going
      coming digest pos small =
    let (chs, e, covers, fit, few) =
      generate_meta_list-Covers c Summer.sum1 md4 file sum1_small digest junk garbage pos small in
    let table =
      client_get_meta_lem c Summer.sum1 md4 junk garbage max_id end_point fs path file short found
        go back going coming chs e fit (omega (arith, few, small)) in
    let (fp, e', out) =
      construct_loop_lem c Summer.sum1 md4 junk garbage max_id end_point fs path file short found go
        back going coming drain 0 chs opened (omega (arith, small)) covers in
    (fp, rw table e', out)
