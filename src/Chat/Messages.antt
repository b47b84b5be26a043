-- ===== src/Chat/Messages.antt =====
-- What the chat's client writes into a packet is what the server and the other clients read.
use just_for_test_and_try.Base.{
  ℕ, ◌+◌, ◌<◌, ◌≡◌, map, length-append, inl, inr, Bool-cases, none, some, List, [], ◌∷◌, ◌++◌,
  arith, bytes_eq_eq, if◌then◌else◌, length, htonl, bytes_eq,
}
use just_for_test_and_try.Log.{NoNul, log_size, until_nul-NoNul, write_log_fits}
use just_for_test_and_try.Net.Packet.{Packet}
use just_for_test_and_try.Net.Packet.Carried.{Holds, Delivered-Holds, Holds-of}
use just_for_test_and_try.Net.Stream.Decode.{Delivered}
use just_for_test_and_try.Chat.{
  UserConnection, Sending, Message, private_mark, world_mark, between, get_end_point_by_user,
  send_to_all_user, send_msg, world, read_message, on_received, client_send_message,
}
use just_for_test_and_try.Chat.Requests.{
  message_text, Short, read_message_lem, client_send_message_lem,
}

-- Where a message goes: to everybody, to the end point of its receiver, or nowhere.
abbrev pub deliveries : UserConnection → List ℕ → Packet → List Sending
deliveries c receiver p =
    if bytes_eq receiver world
    then send_to_all_user c p
    else elim (get_end_point_by_user receiver c) [
      | none ↦ []
      | some end_point ↦ record { to = end_point; packet = p } ∷ []
    ]

-- A text as the server or a client reads it off a delivered message.
message_arrived :
    (junk max_id end_point : ℕ) (user receiver message : List ℕ) (p q : Packet)
    → Short user receiver message
    → client_send_message junk max_id end_point user receiver message ≡ some p
    → Delivered p q
    → (rest : List ℕ) × Holds q
        (htonl send_msg ++ junk ∷ [])
        (message_text user receiver message rest)
message_arrived junk max_id end_point user receiver message p q h e d =
    let (p', rest, e', held, _) =
      client_send_message_lem junk max_id end_point user receiver message h in
    (rest, Delivered-Holds p q _ _ (Holds-of _ p p' _ _ e' e held) d)

-- The end points that a message is for: those of everybody who is online, or that of its receiver,
-- if there is one.
abbrev pub recipients : UserConnection → List ℕ → List ℕ
recipients c receiver =
    if bytes_eq receiver world
    then map (λ entry. entry.0) c.connection_users
    else elim (get_end_point_by_user receiver c) [ none ↦ [] | some end_point ↦ end_point ∷ [] ]

-- Every packet that is sent is read as the message.
abbrev pub AllRead : Message → List Sending → Type 0
AllRead m [] = Unit {0}
AllRead m (s ∷ rest) = (read_message s.packet ≡ some m) × AllRead m rest

-- What another client logs of a delivered message is a line with its sender and its text, marked
-- as a message to the world or a private one: for texts without a NUL that fit into a line of 4096
-- bytes behind what the log puts before them.
pub on_received-client_send_message :
    (junk max_id end_point : ℕ) (info notice user receiver message : List ℕ) (p q : Packet)
    → Short user receiver message
    → client_send_message junk max_id end_point user receiver message ≡ some p
    → Delivered p q
    → NoNul user
    → NoNul message
    → length info + length user + length message + 13 < log_size
    → length notice + length user + length message + 11 < log_size
    → on_received info notice q
      ≡ some (
          if bytes_eq receiver world
          then notice ++ ((world_mark ++ (user ++ (between ++ message))) ++ 10 ∷ [])
          else info ++ ((private_mark ++ (user ++ (between ++ message))) ++ 10 ∷ []))
unfolding on_received
on_received-client_send_message junk max_id end_point info notice user receiver message p q h e d nu
      nm fits_info fits_notice =
    let (rest, held) = message_arrived junk max_id end_point user receiver message p q h e d in
    let read = read_message_lem q _ user receiver message rest h held in
    let shown = user ++ (between ++ message) in
    let len = length-append user (between ++ message) in
    elim (Bool-cases (bytes_eq receiver world)) [
      | inl w ↦
          rw (read, w, until_nul-NoNul user nu, until_nul-NoNul message nm)
            (write_log_fits notice (world_mark ++ shown) (omega (arith, len)))
      | inr w ↦
          rw (read, w, until_nul-NoNul user nu, until_nul-NoNul message nm)
            (write_log_fits info (private_mark ++ shown) (omega (arith, len)))
    ]
