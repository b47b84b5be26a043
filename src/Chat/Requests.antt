-- ===== src/Chat/Requests.antt =====
-- The packets that the chat's client makes, and how their texts are read.
use just_for_test_and_try.Base.{
  ℕ, ◌+◌, ◌≤◌, ◌<◌, ◌≡◌, refl, ap, sym, subst, ◌∙◌, some, List, [], ◌∷◌, ◌++◌, append_assoc, arith,
  bytes_eq_eq, length, take, drop, length-append, length-htonl, int_limit, htonl, ntohl-htonl,
  memmove,
}
use just_for_test_and_try.Net.Package.{Package, word_limit, set_data, set_int}
use just_for_test_and_try.Net.Package.Fields.{
  Writing, Reading, Wrote, starts, reads, written, set_int-Writing, set_string-Writing,
  get_int-Reading, get_string-Reading,
}
use just_for_test_and_try.Net.Packet.{Packet}
use just_for_test_and_try.Net.Packet.Carried.{Holds}
use just_for_test_and_try.Chat.{
  send_msg, login_req, echo_from_server, read_text, read_message, request_head, write_text,
  client_send_message, client_login,
}

-- A text with its length before it.
abbrev pub field : List ℕ → List ℕ
field text = htonl (length text) ++ text

length-field : (text : List ℕ) → length (field text) ≡ 4 + length text
length-field text =
    omega (arith, length-append (htonl (length text)) text, length-htonl (length text))

write_text-Wrote :
    (k : Package) (out text : List ℕ)
    → Writing k out
    → 4 + length text ≤ k.left_length
    → (k' : Package) × (write_text k text ≡ some k')
      × Wrote k (out ++ field text) (4 + length text) k'
unfolding write_text
write_text-Wrote k out text w h =
    let word = htonl (length text) in
    let (k1, e1, w1) = set_int-Writing k out word w (length-htonl (length text)) (omega arith) in
    let (k2, e2, w2) =
      set_string-Writing k1 (out ++ word) text w1.writing (omega (arith, w1.spent)) in
    (
      k2,
      rw (e1, e2),
      record {
        writing = subst (Writing k2) (append_assoc out word text) w2.writing;
        spent = omega (arith, w1.spent, w2.spent);
        same = w2.same ∙ w1.same;
      },
    )

pub read_text-Reading :
    (k : Package) (text rest : List ℕ)
    → length text < word_limit
    → Reading k (field text ++ rest)
    → (k' : Package) × (read_text k ≡ some (some text, k')) × Reading k' rest
unfolding read_text
read_text-Reading k text rest h r =
    let word = htonl (length text) in
    let (k1, e1, r1) =
      get_int-Reading k word (text ++ rest) (length-htonl (length text))
        (subst (Reading k) (append_assoc word text rest) r) in
    let (k2, e2, r2) = get_string-Reading k1 text rest r1 in
    (k2, rw (e1, ntohl-htonl (length text) h, e2), r2)

-- The head of a request: its kind, and one byte that nobody writes.
request_head_lem : (junk req : ℕ) → request_head junk req ≡ some (htonl req ++ junk ∷ [])
unfolding request_head set_int set_data memmove htonl
request_head_lem junk req = refl

five : (req junk : ℕ) → take 5 (htonl req ++ junk ∷ []) ≡ htonl req ++ junk ∷ []
unfolding htonl
five req junk = refl

len_five : (req junk : ℕ) → length (htonl req ++ junk ∷ []) ≡ 5
unfolding htonl
len_five req junk = refl

pub echo_from_server_lem :
    (p : Packet) (req : ℕ) (tail text : List ℕ)
    → req < word_limit
    → Holds p (htonl req ++ tail) text
    → echo_from_server p ≡ some (record { packet = p; req = req })
unfolding echo_from_server
echo_from_server_lem p req tail text h k =
    let (k1, e, r) =
      get_int-Reading _ (htonl req) tail (length-htonl req)
        (reads p.head_data p.head_length _ k.head_fits k.head_small k.head_of) in
    rw (e, ntohl-htonl req h)

-- The texts of a message, side by side.
abbrev pub message_text : List ℕ → List ℕ → List ℕ → List ℕ → List ℕ
message_text sender receiver message rest =
    field sender ++ (field receiver ++ (field message ++ rest))

-- The lengths of the texts fit an int32_t together with what stands beside them.
abbrev pub Short : List ℕ → List ℕ → List ℕ → Type 0
Short sender receiver message =
    length receiver + 4 + length sender + 4 + length message + 4 + 1 < int_limit

pub read_message_lem :
    (p : Packet) (head sender receiver message rest : List ℕ)
    → Short sender receiver message
    → Holds p head (message_text sender receiver message rest)
    → read_message p
      ≡ some (record { sender = some sender; receiver = some receiver; message = some message })
unfolding read_message
read_message_lem p head sender receiver message rest h k =
    let (k1, e1, r1) =
      read_text-Reading _ sender _ (omega arith)
        (reads p.data_block p.data_length _ k.text_fits k.text_small k.text_of) in
    let (k2, e2, r2) = read_text-Reading k1 receiver _ (omega arith) r1 in
    let (k3, e3, r3) = read_text-Reading k2 message rest (omega arith) r2 in rw (e1, e2, e3)

-- Client::SendMessage makes a packet that is fit to be sent: its head holds the kind of the
-- request, and its data the name of the user, the receiver and the message.
pub client_send_message_lem :
    (junk max_id end_point : ℕ) (user receiver message : List ℕ)
    → Short user receiver message
    → (p : Packet) × (rest : List ℕ) × (client_send_message junk max_id end_point user receiver
          message
        ≡ some p)
      × Holds p (htonl send_msg ++ junk ∷ []) (message_text user receiver message rest)
      × (p.channel_id ≡ max_id)
unfolding client_send_message
client_send_message_lem junk max_id end_point user receiver message h =
    let n = length receiver + 4 + length user + 4 + length message + 4 + 1 in
    let (w, left, len) = starts junk n h in
    let (k1, e1, w1) = write_text-Wrote _ [] user w (omega (arith, left)) in
    let (k2, e2, w2) =
      write_text-Wrote k1 (field user) receiver w1.writing (omega (arith, left, w1.spent)) in
    let (k3, e3, w3) =
      write_text-Wrote k2 (field user ++ field receiver) message w2.writing
        (omega (arith, left, w1.spent, w2.spent)) in
    let size : length k3.block ≡ n = w3.same ∙ w2.same ∙ w1.same ∙ len in
    let rest = drop k3.pointer k3.block in
    let head = request_head_lem junk send_msg in
    let assoc : ((field user ++ field receiver) ++ field message) ++ rest
        ≡ message_text user receiver message rest =
      simp append_assoc in
    (
      record {
        channel_id = max_id;
        head_data = htonl send_msg ++ junk ∷ [];
        head_length = 5;
        data_block = k3.block;
        data_length = n;
        end_point = end_point;
      },
      rest,
      rw (head, e1, e2, e3),
      record {
        head_of = five send_msg junk;
        head_fits = omega (arith, len_five send_msg junk);
        head_small = omega arith;
        text_of = written k3 _ n w3.writing size ∙ assoc;
        text_fits = omega (arith, size);
        text_small = h;
      },
      refl,
    )

-- Client::Login makes such a packet too, with the name of the user for its data.
pub client_login_lem :
    (junk max_id end_point : ℕ) (user : List ℕ)
    → length user + 5 < int_limit
    → (p : Packet) × (client_login junk max_id end_point user ≡ some p)
      × Holds p (htonl login_req ++ junk ∷ []) (field user)
      × (p.channel_id ≡ max_id)
      × (p.data_length ≡ length user + 4)
unfolding client_login
client_login_lem junk max_id end_point user h =
    let n = length user + 4 + 1 in
    let (w, left, len) = starts junk n (omega arith) in
    let (k, e, w1) = write_text-Wrote _ [] user w (omega (arith, left)) in
    let size : length k.block ≡ n = w1.same ∙ len in
    let at : k.pointer ≡ length user + 4 = omega (arith, w1.spent, left, w1.writing.fits, size) in
    (
      record {
        channel_id = max_id;
        head_data = htonl login_req ++ junk ∷ [];
        head_length = 5;
        data_block = k.block;
        data_length = length user + 4;
        end_point = end_point;
      },
      rw (request_head_lem junk login_req, e),
      record {
        head_of = five login_req junk;
        head_fits = omega (arith, len_five login_req junk);
        head_small = omega arith;
        text_of = ap (λ m. take m k.block) (sym at) ∙ w1.writing.text;
        text_fits = omega (arith, size);
        text_small = omega arith;
      },
      refl,
      refl,
    )
