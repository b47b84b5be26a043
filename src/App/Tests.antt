-- ===== src/App/Tests.antt =====
-- Runs of the file server and its client.
use just_for_test_and_try.Base.{
  ◌≡◌, refl, false, none, some, [], ◌∷◌, arith, htonl, lookup, bytes_eq_eq, nat_eq, ntohl-append,
}
use just_for_test_and_try.Net.Packet.{Packet, returned}
use just_for_test_and_try.Net.Stream.{StreamSocketContext}
use just_for_test_and_try.Fs.Ifs
use just_for_test_and_try.Fs.FileUtils.{Files}
use just_for_test_and_try.App.{is_digit, digits_value, signed_value, atoi, other_error}
use just_for_test_and_try.App.Server.{Server, file_number, answer, echo_from_ifs}
use just_for_test_and_try.App.Answers.{Asks, answering, echo_from_ifs_missing}

abbrev socket : StreamSocketContext
socket = record {
  packet_queue = [];
  recv_buffer = [];
  recv_buffer_length = 0;
  end_point = 3;
  need_ack = false;
  replied = false;
  reply = none;
}

abbrev no_file : Ifs.MetaNode
no_file = record { file_id = 0; start = 0; length_of = 0 }

-- A server with no file.
abbrev fresh : Server
fresh = record {
  ifs = record { meta_datas = []; latest_data = no_file };
  disk = record { data_storage = none; meta_storage = none };
  socket = socket;
}

-- A server with one file, of two bytes.
abbrev stocked : Server
stocked = record fresh {
  ifs = record {
    meta_datas = (1, record { file_id = 1; start = 0; length_of = 2 }) ∷ [];
    latest_data = record { file_id = 1; start = 0; length_of = 2 };
  };
  disk = record { data_storage = some (8 ∷ 9 ∷ []); meta_storage = none };
}

-- A GET of "1", and a PUT of two bytes.
abbrev asking : Packet
asking = record {
  channel_id = 1;
  head_data = htonl 1;
  head_length = 4;
  data_block = 49 ∷ 7 ∷ [];
  data_length = 1;
  end_point = 3;
}

abbrev putting : Packet
putting = record asking { head_data = htonl 2; data_block = 8 ∷ 9 ∷ []; data_length = 2 }

asking-Asks : Asks asking 1
unfolding file_number atoi signed_value digits_value is_digit htonl
asking-Asks = record {
  request = ntohl-append 1 [] (omega arith);
  room = omega arith;
  number = refl;
}

stocked_read : Ifs.read 1 stocked.disk stocked.ifs ≡ some (8 ∷ 9 ∷ [])
unfolding Ifs.read lookup
stocked_read = refl

stocked_length : Ifs.get_length 1 stocked.ifs ≡ some 2
unfolding Ifs.get_length lookup
stocked_length = refl

fresh_read : Ifs.read 1 fresh.disk fresh.ifs ≡ none
unfolding Ifs.read lookup
fresh_read = refl

fresh_length : Ifs.get_length 1 fresh.ifs ≡ none
unfolding Ifs.get_length lookup
fresh_length = refl

echo_from_ifs_missing_example :
    echo_from_ifs 5 asking fresh
    ≡ returned (answering (answer 5 other_error (5 ∷ 5 ∷ 5 ∷ 5 ∷ 0 ∷ 5 ∷ []) 4 asking) fresh)
echo_from_ifs_missing_example =
    echo_from_ifs_missing 5 asking fresh 1 asking-Asks fresh_read fresh_length (omega arith)

abbrev files : Files
files = (120 ∷ [], 8 ∷ 9 ∷ []) ∷ []
