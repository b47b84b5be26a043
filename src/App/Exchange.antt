-- ===== src/App/Exchange.antt =====
-- A file on its way from a client to the server and back.
use just_for_test_and_try.Base.{[], bytes_eq_eq}
use just_for_test_and_try.Net.Packet.{Packet}
use just_for_test_and_try.Fs.Ifs
use just_for_test_and_try.Fs.FileUtils
use just_for_test_and_try.App.Server.{Server}

-- The packets that wait are sent.
abbrev pub flushed : Server → Server
flushed s = record s { socket = record s.socket { packet_queue = [] } }
