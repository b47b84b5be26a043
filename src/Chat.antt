-- ===== src/Chat.antt =====
-- single_fs/chat: who is online (user_connection.h and user_connection.cpp), the server's thread
-- (chat_process.cpp, server_handler.cpp, common.h, task_node.h) and the messages of its client
-- (client.cpp, client_handler.h). An end point is a number; `none` is undefined behaviour. The
-- mutex makes each operation a step of its own.
pub mod Online
pub mod Requests
pub mod Messages
mod Tests
use just_for_test_and_try.Base.{
  ℕ, ◌+◌, ◌-◌, ◌%◌, ◌^◌, Bool, true, false, not, Option, none, some, List, [], ◌∷◌, ◌++◌, ltb, ◌==◌,
  if◌then◌else◌, length, ◌>>=◌, ◌>>◌, bytes_eq, htonl, ntohl, lookup, insert, erase, nat_eq,
  bytes_eq_eq, replicate, int_limit,
}
use just_for_test_and_try.Log.{until_nul, write_log}
use just_for_test_and_try.Net.Package.{
  Package, word_limit, set_data, get_int, set_int, get_string, set_string,
}
use just_for_test_and_try.Net.Packet.{Packet, get_copy}

-- `user_connections_` and `connection_users_`.
pub record UserConnection : Type 0 where
  pub user_connections : List (List ℕ × ℕ)
  pub connection_users : List (ℕ × List ℕ)

unfoldable pub add_user : List ℕ → ℕ → UserConnection → UserConnection
add_user user end_point c = record {
  user_connections = insert user end_point c.user_connections;
  connection_users = insert end_point user c.connection_users;
}

-- `removeUser(user)`
unfoldable pub remove_user : List ℕ → UserConnection → UserConnection
remove_user user c = elim (lookup user c.user_connections) [
  | none ↦ c
  | some end_point ↦ record {
    user_connections = erase user c.user_connections;
    connection_users = erase end_point c.connection_users;
  }
]

-- `removeUser(end_point)`
unfoldable pub remove_end_point : ℕ → UserConnection → UserConnection
remove_end_point end_point c = elim (lookup end_point c.connection_users) [
  | none ↦ c
  | some user ↦ record {
    user_connections = erase user c.user_connections;
    connection_users = erase end_point c.connection_users;
  }
]

unfoldable pub contains : List ℕ → UserConnection → Bool
contains user c = elim (lookup user c.user_connections) [ none ↦ false | some _ ↦ true ]

unfoldable pub get_end_point_by_user : List ℕ → UserConnection → Option ℕ
get_end_point_by_user user c = lookup user c.user_connections

-- A call of `AsyncSendPacket` on the socket of an end point.
pub record Sending : Type 0 where
  pub to : ℕ
  pub packet : Packet

unfoldable pub send_each : List (ℕ × List ℕ) → Packet → List Sending
send_each [] p = []
send_each ((end_point, _) ∷ rest) p =
    record { to = end_point; packet = get_copy p } ∷ send_each rest p

unfoldable pub send_to_all_user : UserConnection → Packet → List Sending
send_to_all_user c p = send_each c.connection_users p

-- `RequestType`, as far as the server knows it.
abbrev pub send_msg : ℕ
send_msg = 1

abbrev pub login_req : ℕ
login_req = 7

-- `TaskNode`
pub record TaskNode : Type 0 where
  pub packet : Packet
  pub req : ℕ

-- `ServerHandler::EchoFromServer`, up to the push on the queue of tasks.
unfoldable pub echo_from_server : Packet → Option TaskNode
echo_from_server p = do
  (word, _) ← get_int (set_data p.head_data p.head_length)
  req ← ntohl word
  some (record { packet = p; req = req })

-- A length that stands in a package, and the text behind it; the inner `none` is NULL.
unfoldable pub read_text : Package → Option (Option (List ℕ) × Package)
read_text k = do (word, k') ← get_int k; n ← ntohl word; get_string k' n

-- The three texts that `SendMessage` and `ClientHandler::OnReceived` read.
pub record Message : Type 0 where
  pub sender : Option (List ℕ)
  pub receiver : Option (List ℕ)
  pub message : Option (List ℕ)

unfoldable pub read_message : Packet → Option Message
read_message p = do
  (sender, k1) ← read_text (set_data p.data_block p.data_length)
  (receiver, k2) ← read_text k1
  (message, _) ← read_text k2
  some (record { sender = sender; receiver = receiver; message = message })

-- `ChatProcess::Login`. Both sides of its test are of 64 bits and unsigned.
unfoldable pub login : TaskNode → UserConnection → Option UserConnection
login node c = do
  let p = node.packet
  (word, k) ← get_int (set_data p.data_block p.data_length)
  n ← ntohl word
  let wide = if ltb n int_limit then n else n + 2 ^ 64 - word_limit
  let go = (do (text, _) ← get_string k n; sender ← text; some (add_user sender p.end_point c))
  if ltb ((p.data_length + 2 ^ 64 - 4) % 2 ^ 64) wide then some c else go

-- "world"
abbrev pub world : List ℕ
world = 119 ∷ 111 ∷ 114 ∷ 108 ∷ 100 ∷ []

-- `ChatProcess::SendToOne`
unfoldable pub send_to_one : UserConnection → List ℕ → Packet → List Sending
send_to_one c user p = elim (get_end_point_by_user user c) [
  | none ↦ []
  | some end_point ↦ record { to = end_point; packet = p } ∷ []
]

-- `ChatProcess::SendMessage`. The sender and the message are used in a line of the log only.
unfoldable pub send_message : TaskNode → UserConnection → Option (List Sending)
unfolding send_to_one
send_message node c = do
  m ← read_message node.packet
  receiver ← m.receiver
  let one = (do _ ← m.sender; _ ← m.message; some (send_to_one c receiver node.packet))
  let known = if contains receiver c then one else some []
  if bytes_eq receiver world then some (send_to_all_user c node.packet) else known

-- `ChatProcess::Process` for a task from the queue.
unfoldable pub process : TaskNode → UserConnection → Option (UserConnection × List Sending)
process node c =
    let sent = (do out ← send_message node c; some (c, out)) in
    let logged = (do c' ← login node c; some (c', [])) in
    if node.req == send_msg then sent else if node.req == login_req then logged else some (c, [])

-- `ServerHandler::OnClose`
unfoldable pub on_close : ℕ → UserConnection → UserConnection
on_close end_point c = remove_end_point end_point c

-- "[private!][", "[world!][" and "]:"
abbrev pub private_mark : List ℕ
private_mark = 91 ∷ 112 ∷ 114 ∷ 105 ∷ 118 ∷ 97 ∷ 116 ∷ 101 ∷ 33 ∷ 93 ∷ 91 ∷ []

abbrev pub world_mark : List ℕ
world_mark = 91 ∷ 119 ∷ 111 ∷ 114 ∷ 108 ∷ 100 ∷ 33 ∷ 93 ∷ 91 ∷ []

abbrev pub between : List ℕ
between = 93 ∷ 58 ∷ []

-- `ClientHandler::OnReceived`: the line that it logs. `info` and `notice` are what the log puts
-- before a text of these levels.
unfoldable pub on_received : List ℕ → List ℕ → Packet → Option (List ℕ)
on_received info notice p = do
  m ← read_message p
  receiver ← m.receiver
  sender ← m.sender
  text ← m.message
  let shown = until_nul sender ++ (between ++ until_nul text)
  if bytes_eq receiver world
      then write_log notice (world_mark ++ shown)
      else write_log info (private_mark ++ shown)

-- The parts of `Client::SendMessage` and `Client::Login`: a head with the kind of request, and a
-- text with its length before it. `junk` is what new memory holds.
unfoldable pub request_head : ℕ → ℕ → Option (List ℕ)
request_head junk req = do
  (_, k) ← set_int (set_data (replicate 5 junk) 5) (htonl req)
  some k.block

unfoldable pub write_text : Package → List ℕ → Option Package
write_text k text = do (_, k') ← set_int k (htonl (length text)); set_string k' text (length text)

unfoldable pub client_send_message : ℕ → ℕ → ℕ → List ℕ → List ℕ → List ℕ → Option Packet
client_send_message junk max_id end_point user_name receiver message = do
  head ← request_head junk send_msg
  let n = length receiver + 4 + length user_name + 4 + length message + 4 + 1
  k1 ← write_text (set_data (replicate n junk) n) user_name
  k2 ← write_text k1 receiver
  k3 ← write_text k2 message
  some (record {
    channel_id = max_id;
    head_data = head;
    head_length = 5;
    data_block = k3.block;
    data_length = n;
    end_point = end_point;
  })

unfoldable pub client_login : ℕ → ℕ → ℕ → List ℕ → Option Packet
client_login junk max_id end_point user_name = do
  head ← request_head junk login_req
  let n = length user_name + 4 + 1
  k ← write_text (set_data (replicate n junk) n) user_name
  some (record {
    channel_id = max_id;
    head_data = head;
    head_length = 5;
    data_block = k.block;
    data_length = length user_name + 4;
    end_point = end_point;
  })
