-- ===== src/Multihop/Messages/Decode.antt =====
-- decode_msg of lib/net/src/multihop.cpp against the bytes that the nodes send.
use lora_multihop.Prelude.{
  ℕ, ◌+◌, ◌-◌, u8, byte_at, ◌*◌, ◌^◌, ◌≤◌, ◌<◌, ◌≡◌, ◌≢◌, ltb, Bool-cases, ltb→lt, Option, inl, inr,
  none, refl, ap, sym, subst, ◌∙◌, List, ◌++◌, some, length, take, take-append, length-append,
  arith,
}
use lora_multihop.Multihop.Messages.{
  MessageType, Header, Body, Message, TypeReport, report, as_message, size, encode, msgtype,
  fits_type, decode_body, decode_msg, body_size, header_size, read_header, type_of_code,
}

-- The type that goes with each member of the union.
abbrev pub type_of_body : Body → MessageType
type_of_body (Body.heartbeat ring) = MessageType.heartbeat
type_of_body (Body.open_cluster ring node neighbors) = MessageType.open_cluster
type_of_body (Body.close_cluster nomination neighbors) = MessageType.close_cluster
type_of_body (Body.follow clusterhead follower) = MessageType.follow
type_of_body (Body.accept a f s r t) = MessageType.accept
type_of_body (Body.send_acks start end) = MessageType.send_acks
type_of_body (Body.datagram d) = MessageType.datagram

-- The ranges of a member's fields, and the length of the data behind it.
abbrev pub IsBody : Body → List ℕ → Type 0
IsBody (Body.heartbeat ring) p = length p ≡ 0
IsBody (Body.open_cluster ring node neighbors) p = (length neighbors.counts ≡ 8) × (length p ≡ 0)
IsBody (Body.close_cluster nomination neighbors) p = (length neighbors.counts ≡ 8) × (length p ≡ 0)
IsBody (Body.follow clusterhead follower) p = length p ≡ 0
IsBody (Body.accept a f s r t) p = (t < 2 ^ 32) × (length p ≡ 0)
IsBody (Body.send_acks start end) p = (start < end) × (end < 256) × (length p ≡ 4 * (end - start))
IsBody (Body.datagram d) p = (d.packet_bytes < 2 ^ 16) × (length p ≡ d.packet_bytes)

-- A message that fits its type, with the data that follows it.
pub record IsMessage (m : Message) (payload : List ℕ) : Type 0 where
  pub matches : m.hdr.type ≡ type_of_body m.body
  pub sequence : m.hdr.sequence < 2 ^ 32
  pub body : IsBody m.body payload

counts_back : (counts p : List ℕ) → length counts ≡ 8 → take 8 (counts ++ p) ≡ counts
counts_back counts p h = ap (λ (n : ℕ). take n (counts ++ p)) (sym h) ∙ take-append counts p

abbrev typed : ℕ → ℕ → Body → Message
typed seq src b = record {
  hdr = record { sequence = seq; src = src; type = type_of_body b };
  body = b;
}

decode-typed :
    (seq src : ℕ) (b : Body) (p : List ℕ)
    → seq < 2 ^ 32
    → IsBody b p
    → decode_msg (encode (typed seq src b) ++ p) ≡ some (typed seq src b)
unfolding decode_msg decode_body fits_type
decode-typed seq src (Body.heartbeat ring) p h i = ground arith
decode-typed seq src (Body.open_cluster ring node neighbors) p h i =
    ground (arith, counts_back neighbors.counts p, length-append neighbors.counts p)
decode-typed seq src (Body.close_cluster nomination neighbors) p h i =
    ground (arith, counts_back neighbors.counts p, length-append neighbors.counts p)
decode-typed seq src (Body.follow clusterhead follower) p h i = ground arith
decode-typed seq src (Body.accept a f s r t) p h i = ground arith
decode-typed seq src (Body.send_acks start end) p h i = ground arith
decode-typed seq src (Body.datagram d) p h i = ground arith

same_message :
    (m : Message) → m.hdr.type ≡ type_of_body m.body → typed m.hdr.sequence m.hdr.src m.body ≡ m
same_message m e = ground (arith, e)

-- A message whose type fits its body, with data of the length that its body announces behind it, is
-- accepted by decode_msg and read back as it was.
pub decode_msg-encode :
    (m : Message) (payload : List ℕ)
    → IsMessage m payload
    → decode_msg (encode m ++ payload) ≡ some m
decode_msg-encode m payload v =
    subst (λ (k : Message). decode_msg (encode k ++ payload) ≡ some k) (same_message m v.matches)
      (decode-typed m.hdr.sequence m.hdr.src m.body payload v.sequence v.body)

length-typed :
    (seq src : ℕ) (b : Body) (p : List ℕ)
    → IsBody b p
    → length (encode (typed seq src b)) ≡ size (typed seq src b)
unfolding size
length-typed seq src (Body.heartbeat ring) p i = refl
length-typed seq src (Body.open_cluster ring node neighbors) p i = ground arith
length-typed seq src (Body.close_cluster nomination neighbors) p i = ground arith
length-typed seq src (Body.follow clusterhead follower) p i = refl
length-typed seq src (Body.accept a f s r t) p i = refl
length-typed seq src (Body.send_acks start end) p i = refl
length-typed seq src (Body.datagram d) p i = refl

-- The size that is sent is the number of bytes of the message.
pub length-encode :
    (m : Message) (payload : List ℕ) → IsMessage m payload → length (encode m) ≡ size m
length-encode m payload v =
    subst (λ (k : Message). length (encode k) ≡ size k) (same_message m v.matches)
      (length-typed m.hdr.sequence m.hdr.src m.body payload v.body)

-- A buffer of so many bytes holds the member of the union with all the data behind it, and nothing else.
abbrev pub IsWhole : Body → ℕ → Type 0
IsWhole (Body.send_acks start end) len = (start < end) × (len ≡ 8 + 4 * u8 (end - start))
IsWhole (Body.datagram d) len = len ≡ 10 + d.packet_bytes
IsWhole b len = len ≡ header_size + body_size (type_of_body b)

-- What decode_body reads is the member of its type, and fills the buffer.
decode_body_sound :
    (t : MessageType) (buf : List ℕ) (b : Body)
    → decode_body t buf ≡ some b
    → (t ≡ type_of_body b)
      × (body_size t + header_size ≤ length buf)
      × (t ≢ MessageType.unknown)
      × IsWhole b (length buf)
unfolding decode_body fits_type
decode_body_sound MessageType.open_cluster buf b h = ground arith
decode_body_sound MessageType.follow buf b h = ground arith
decode_body_sound MessageType.accept buf b h = ground arith
decode_body_sound MessageType.close_cluster buf b h = ground arith
decode_body_sound MessageType.send_acks buf b h = ground arith
decode_body_sound MessageType.datagram buf b h = ground arith
decode_body_sound MessageType.heartbeat buf b h = ground arith
decode_body_sound MessageType.unknown buf b h = cc

size-known :
    (m : Message) → m.hdr.type ≢ MessageType.unknown → size m ≡ body_size m.hdr.type + header_size
unfolding size
size-known m h = ground arith

as_message-parts :
    (h : Header) (o : Option Body) (m : Message)
    → as_message h o ≡ some m
    → (m.hdr ≡ h) × (o ≡ some m.body)
as_message-parts h none m e = cc
as_message-parts h (some b) m e = ground (arith, e)

decode_msg-long :
    (buf : List ℕ) (m : Message)
    → decode_msg buf ≡ some m
    → (header_size ≤ length buf)
      × (as_message (read_header buf) (decode_body (read_header buf).type buf) ≡ some m)
unfolding decode_msg
decode_msg-long buf m h = elim (Bool-cases (ltb (length buf) header_size)) [
  | inl short ↦ cc (rw short at h)
  | inr long ↦ (ground arith, rw long at h)
]

report-known :
    (c : ℕ) → type_of_code c ≢ MessageType.unknown → report c ≡ TypeReport.found (type_of_code c)
unfolding report
report-known c known = ground arith

msgtype-known :
    (buf : List ℕ) (t : MessageType)
    → header_size ≤ length buf
    → (read_header buf).type ≡ t
    → t ≢ MessageType.unknown
    → msgtype buf ≡ TypeReport.found t
unfolding msgtype
msgtype-known buf t long e known = elim (Bool-cases (ltb (length buf) header_size)) [
  | inl short ↦ absurd (omega (arith, ltb→lt (length buf) header_size short))
  | inr ok ↦ rw ok (
      report-known (byte_at buf 5) (λ u. known (sym e ∙ u))
      ∙ ap (λ (k : MessageType). TypeReport.found k) e)
]

-- A buffer that is accepted holds the whole message and nothing else: the fixed part of its type, then as many acks as the range of
-- a SendAcks has, which is not empty, or as many bytes as a Datagram announces. The member of the union that is read is that
-- of the type in the header, and msgtype finds the same type.
pub decode_msg_sound :
    (buf : List ℕ) (m : Message)
    → decode_msg buf ≡ some m
    → (m.hdr.type ≡ type_of_body m.body)
      × (size m ≤ length buf)
      × IsWhole m.body (length buf)
      × (msgtype buf ≡ TypeReport.found m.hdr.type)
decode_msg_sound buf m h =
    let (long, inner) = decode_msg-long buf m h in
    let (hdr, body) = as_message-parts (read_header buf) _ m inner in
    let (member, room, known, whole) = decode_body_sound (read_header buf).type buf m.body body in
    let same : (read_header buf).type ≡ m.hdr.type = ap (λ (k : Header). k.type) (sym hdr) in
    let known' : m.hdr.type ≢ MessageType.unknown = λ e. known (same ∙ e) in
    (
      sym same ∙ member,
      omega (arith, size-known m known', ap (λ (k : MessageType). body_size k) same, room),
      whole,
      msgtype-known buf m.hdr.type long same known',
    )
