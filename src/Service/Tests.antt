-- ===== src/Service/Tests.antt =====
-- Runs of simple_rsync: a table of one entry, and a request for a part of a file.
use just_for_test_and_try.Base.{
  ℕ, zero, suc, ◌≡◌, refl, true, Option, none, some, List, [], ◌∷◌, arith, length, ◌/◌, ◌++◌,
  replicate, htonl, memmove, lookup, bytes_eq_eq, bytes_eq,
}
use just_for_test_and_try.Checksum.{AllBytes}
use just_for_test_and_try.Rsync.{ChunkInfo}
use just_for_test_and_try.Net.Package.{set_data, set_int, set_string, signed_ltb}
use just_for_test_and_try.Net.Packet.{Packet}
use just_for_test_and_try.Net.Packet.Carried.{delivered, delivered-Delivered}
use just_for_test_and_try.Fs.FileUtils.{Files}
use just_for_test_and_try.Service.{
  meta_reply, meta_head, write_entry, write_entries, chunk_request, write_path,
}
use just_for_test_and_try.Service.Protocol.{AllFit}
use just_for_test_and_try.Service.Transfer.{Stream, answered, get_new_file}
use just_for_test_and_try.Service.Summer.{sum1}
use just_for_test_and_try.Service.GetFile.{get_new_file_lem}
use just_for_test_and_try.Rsync.Scan.State.{IsDigest}

abbrev no_packet : Packet
no_packet = record {
  channel_id = 0;
  head_data = [];
  head_length = 0;
  data_block = [];
  data_length = 0;
  end_point = 0;
}

abbrev packet_of : Option Packet → Packet
packet_of none = no_packet
packet_of (some p) = p

abbrev table : List ChunkInfo
table =
    record {
      weak_sum = 70000;
      from = true;
      offset = 2048;
      length_of = 2048;
      strong_sum = replicate 32 97;
    }
    ∷ []

table-AllFit : AllFit table
table-AllFit = (
  record {
    weak = omega arith;
    offset = omega arith;
    length_of = omega arith;
    strong = refl;
    from = refl;
  },
  tt,
)

abbrev reply : Packet
reply = packet_of (meta_reply 0 no_packet table)

reply_made : meta_reply 0 no_packet table ≡ some reply
unfolding meta_reply meta_head write_entries write_entry set_int set_string set_data memmove htonl
    signed_ltb
reply_made = refl

reply_fits : (length reply.data_block ≡ 54) × (reply.data_length ≡ 54)
unfolding meta_reply meta_head write_entries write_entry set_int set_string set_data memmove htonl
    signed_ltb
reply_fits = (refl, refl)

abbrev path : List ℕ
path = 97 ∷ 98 ∷ []

abbrev file : List ℕ
file = 1 ∷ 2 ∷ 3 ∷ 4 ∷ 5 ∷ []

abbrev files : Files
files = (path, file) ∷ []

file_found : lookup path files ≡ some file
unfolding lookup bytes_eq
file_found = refl

abbrev request : Packet
request = packet_of (chunk_request 0 1 3 1 3 path)

request_made : chunk_request 0 1 3 1 3 path ≡ some request
unfolding chunk_request write_path set_int set_string set_data memmove htonl signed_ltb
request_made = refl

request_fits : (length request.data_block ≡ 1) × (request.data_length ≡ 1)
unfolding chunk_request write_path set_int set_string set_data memmove htonl signed_ltb
request_fits = (refl, refl)

abbrev zeros : List ℕ → List ℕ
zeros b = replicate 16 0

replicate-AllBytes : (n : ℕ) → AllBytes (replicate n 0)
replicate-AllBytes zero = tt
replicate-AllBytes (suc n) = (omega arith, replicate-AllBytes n)

zeros-IsDigest : IsDigest zeros
zeros-IsDigest = record { size = λ b. refl; bytes = λ b. replicate-AllBytes 16 }

get_new_file_lem_example :
    (fp : Stream) × (get_new_file
        (answered 2 sum1 zeros 0 0 files delivered delivered)
        0
        1
        3
        (λ bytes. length bytes / 2)
        path
      ≡ some fp)
    × (fp.reached ++ fp.pending ≡ file)
get_new_file_lem_example =
    get_new_file_lem 2 zeros 0 0 1 3 files path file delivered delivered (λ bytes. length bytes / 2)
      (omega arith) file_found delivered-Delivered delivered-Delivered zeros-IsDigest (omega arith)
      (omega arith)
