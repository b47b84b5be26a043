-- ===== src/Chat/Tests.antt =====
-- Runs of the chat: two users, a login, messages and closed connections.
use just_for_test_and_try.Base.{
  ℕ, ◌≡◌, ◌≢◌, refl, false, Option, none, some, List, [], ◌∷◌, ◌++◌, arith, lookup, insert,
  lookup-nil, nat_eq, bytes_eq_eq, bytes_eq, length, htonl, memmove, if◌then◌else◌,
}
use just_for_test_and_try.Net.Package.{set_data, set_int, set_string, signed_ltb}
use just_for_test_and_try.Net.Packet.{Packet}
use just_for_test_and_try.Net.Packet.Carried.{delivered, delivered-Delivered}
use just_for_test_and_try.Chat.{
  UserConnection, add_user, contains, get_end_point_by_user, on_close, on_received, private_mark,
  world_mark, between, world, request_head, write_text, client_send_message, client_login,
}
use just_for_test_and_try.Chat.Online.{
  Paired, Without, add_user-Paired, on_close-Paired, on_close-add_user_lost,
}
use just_for_test_and_try.Chat.Messages.{on_received-client_send_message}

abbrev ann : List ℕ
ann = 97 ∷ 110 ∷ []

abbrev bob : List ℕ
bob = 98 ∷ []

abbrev nobody : UserConnection
nobody = record { user_connections = []; connection_users = [] }

nobody-Paired : Paired nobody
nobody-Paired user end_point = (
  λ h. absurd (cc (h, lookup-nil {V = ℕ} user [] refl)),
  λ h. absurd (cc (h, lookup-nil {V = List ℕ} end_point [] refl)),
)

add_user-Paired_example :
    Paired (add_user ann 7 nobody)
    × (get_end_point_by_user ann (add_user ann 7 nobody) ≡ some 7)
    × ((other : List ℕ)
        → other ≢ ann
        → get_end_point_by_user other (add_user ann 7 nobody) ≡ get_end_point_by_user other nobody)
add_user-Paired_example =
    add_user-Paired ann 7 nobody nobody-Paired (lookup-nil ann [] refl) (lookup-nil 7 [] refl)

abbrev online : UserConnection
online = record { user_connections = (ann, 7) ∷ []; connection_users = (7, ann) ∷ [] }

online-Paired : Paired online
unfolding add_user insert
online-Paired =
    (add_user-Paired ann 7 nobody nobody-Paired (lookup-nil ann [] refl) (lookup-nil 7 [] refl)).0

found : get_end_point_by_user ann online ≡ some 7
unfolding get_end_point_by_user lookup bytes_eq
found = refl

on_close-Paired_example : Paired (on_close 7 online) × Without ann online (on_close 7 online)
on_close-Paired_example = on_close-Paired ann 7 online online-Paired found

on_close-add_user_lost_example :
    (contains ann (on_close 7 (add_user ann 8 online)) ≡ false)
    × (lookup 8 (on_close 7 (add_user ann 8 online)).connection_users ≡ some ann)
on_close-add_user_lost_example =
    on_close-add_user_lost ann 7 8 online online-Paired found (λ e. omega (arith, e))

abbrev no_packet : Packet
no_packet = record {
  channel_id = 0;
  head_data = [];
  head_length = 0;
  data_block = [];
  data_length = 0;
  end_point = 0;
}

abbrev packet_of : Option Packet → Packet
packet_of none = no_packet
packet_of (some p) = p

-- Bob's message to Ann, and his login.
abbrev message : Packet
message = packet_of (client_send_message 0 1 3 bob ann (104 ∷ 105 ∷ []))

abbrev login_packet : Packet
login_packet = packet_of (client_login 0 1 3 bob)

message_made : client_send_message 0 1 3 bob ann (104 ∷ 105 ∷ []) ≡ some message
unfolding client_send_message request_head write_text set_int set_string set_data memmove htonl
    signed_ltb
message_made = refl

message_fits : (length message.data_block ≡ 18) × (message.data_length ≡ 18)
unfolding client_send_message request_head write_text set_int set_string set_data memmove htonl
    signed_ltb
message_fits = (refl, refl)

on_received-client_send_message_example :
    on_received (62 ∷ []) (33 ∷ []) (delivered message)
    ≡ some (
        if bytes_eq ann world
        then 33 ∷ (world_mark ++ (bob ++ (between ++ 104 ∷ 105 ∷ [])) ++ 10 ∷ [])
        else 62 ∷ (private_mark ++ (bob ++ (between ++ 104 ∷ 105 ∷ [])) ++ 10 ∷ []))
on_received-client_send_message_example =
    on_received-client_send_message 0 1 3 (62 ∷ []) (33 ∷ []) bob ann (104 ∷ 105 ∷ []) message
      (delivered message) (omega arith) message_made
      (delivered-Delivered message (omega (arith, message_fits))) (omega arith, tt)
      (omega arith, (omega arith, tt)) (omega arith) (omega arith)
