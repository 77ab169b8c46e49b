-- ===== src/Multihop/Messages.antt =====
-- lib/net/include/multihop_messages.h, lib/net/src/multihop_messages.cpp, and decode_msg of
-- lib/net/src/multihop.cpp: the messages, their bytes, and how a received buffer is checked.
pub mod Decode
mod Tests
use lora_multihop.Prelude.{
  ℕ, ◌+◌, ◌*◌, ◌/◌, ◌^◌, Bool, true, false, not, List, [], ◌∷◌, ◌++◌, Option, none, some, ltb, leb,
  ◌==◌, u8, sub8, le16, of_le16, of_le32, length, byte_at, slice, if◌then◌else◌,
}
use lora_multihop.Net.{Address}
use lora_multihop.Multihop.{Ring}

pub data MessageType : Type 0 where
  open_cluster follow accept close_cluster send_acks datagram heartbeat unknown : MessageType

pub record Header : Type 0 where
  pub sequence : ℕ
  pub src : Address
  pub type : MessageType

pub record RingList : Type 0 where
  pub ring_start : ℕ
  pub counts : List ℕ

pub record Datagram : Type 0 where
  pub packet_bytes : ℕ
  pub count : ℕ
  pub part : ℕ

-- The union, with the member that is in use.
pub data Body : Type 0 where
  heartbeat : Ring → Body
  open_cluster : Ring → Address → RingList → Body
  close_cluster : Address → RingList → Body
  follow : Address → Address → Body
  accept : Bool → Address → ℕ → ℕ → ℕ → Body
  send_acks : ℕ → ℕ → Body
  datagram : Datagram → Body

pub record Message : Type 0 where
  pub hdr : Header
  pub body : Body

abbrev pub header_size : ℕ
header_size = 6

-- The value of a message type in its byte, and the type of a byte; each other byte is as good as 7.
abbrev pub type_code : MessageType → ℕ
type_code MessageType.open_cluster = 0
type_code MessageType.follow = 1
type_code MessageType.accept = 2
type_code MessageType.close_cluster = 3
type_code MessageType.send_acks = 4
type_code MessageType.datagram = 5
type_code MessageType.heartbeat = 6
type_code MessageType.unknown = 7

abbrev pub type_of_code : ℕ → MessageType
type_of_code c =
    if c == 0
    then MessageType.open_cluster
    else (if c == 1
        then MessageType.follow
        else (if c == 2
            then MessageType.accept
            else (if c == 3
                then MessageType.close_cluster
                else (if c == 4
                    then MessageType.send_acks
                    else (if c == 5
                        then MessageType.datagram
                        else (if c == 6 then MessageType.heartbeat else MessageType.unknown))))))

-- sizeof of each member of the union.
abbrev pub body_size : MessageType → ℕ
body_size MessageType.open_cluster = 11
body_size MessageType.follow = 2
body_size MessageType.accept = 8
body_size MessageType.close_cluster = 10
body_size MessageType.send_acks = 2
body_size MessageType.datagram = 4
body_size MessageType.heartbeat = 1
body_size MessageType.unknown = 0

-- `Message::size`
unfoldable pub size : Message → ℕ
size m = elim m.hdr.type [
  | MessageType.unknown ↦ 0
  | MessageType.open_cluster ↦ body_size MessageType.open_cluster + header_size
  | MessageType.follow ↦ body_size MessageType.follow + header_size
  | MessageType.accept ↦ body_size MessageType.accept + header_size
  | MessageType.close_cluster ↦ body_size MessageType.close_cluster + header_size
  | MessageType.send_acks ↦ body_size MessageType.send_acks + header_size
  | MessageType.datagram ↦ body_size MessageType.datagram + header_size
  | MessageType.heartbeat ↦ body_size MessageType.heartbeat + header_size
]

abbrev pub le32 : ℕ → List ℕ → List ℕ
le32 x rest = u8 x ∷ u8 (x / 2 ^ 8) ∷ u8 (x / 2 ^ 16) ∷ u8 (x / 2 ^ 24) ∷ rest

abbrev pub encode_header : Header → List ℕ → List ℕ
encode_header h rest = le32 h.sequence (h.src ∷ type_code h.type ∷ rest)

abbrev pub encode_body : Body → List ℕ
encode_body (Body.heartbeat ring) = ring ∷ []
encode_body (Body.open_cluster ring node neighbors) =
    ring ∷ node ∷ neighbors.ring_start ∷ neighbors.counts
encode_body (Body.close_cluster nomination neighbors) =
    nomination ∷ neighbors.ring_start ∷ neighbors.counts
encode_body (Body.follow clusterhead follower) = clusterhead ∷ follower ∷ []
encode_body (Body.accept accepted follower start_slot relative_slot remote_time) =
    (if accepted then 1 else 0) ∷ follower ∷ start_slot ∷ relative_slot ∷ le32 remote_time []
encode_body (Body.send_acks start end) = start ∷ end ∷ []
encode_body (Body.datagram d) =
    u8 d.packet_bytes ∷ u8 (d.packet_bytes / 2 ^ 8) ∷ d.count ∷ d.part ∷ []

-- The bytes of a message, as they lie in memory.
abbrev pub encode : Message → List ℕ
encode m = encode_header m.hdr (encode_body m.body)

-- What `msgtype` reports: its result 0, and the type.
pub data TypeReport : Type 0 where
  too_short : TypeReport
  unknown_type : TypeReport
  found : MessageType → TypeReport

-- The chain of tests of `msgtype` on the byte of the type.
unfoldable pub report : ℕ → TypeReport
report c =
    if c == type_code MessageType.open_cluster
    then TypeReport.found MessageType.open_cluster
    else (if c == type_code MessageType.follow
        then TypeReport.found MessageType.follow
        else (if c == type_code MessageType.accept
            then TypeReport.found MessageType.accept
            else (if c == type_code MessageType.close_cluster
                then TypeReport.found MessageType.close_cluster
                else (if c == type_code MessageType.send_acks
                    then TypeReport.found MessageType.send_acks
                    else (if c == type_code MessageType.datagram
                        then TypeReport.found MessageType.datagram
                        else (if c == type_code MessageType.heartbeat
                            then TypeReport.found MessageType.heartbeat
                            else TypeReport.unknown_type))))))

unfoldable pub msgtype : List ℕ → TypeReport
msgtype buf = if ltb (length buf) header_size then TypeReport.too_short else report (byte_at buf 5)

abbrev read_rings : List ℕ → ℕ → RingList
read_rings buf i = record { ring_start = byte_at buf i; counts = slice (i + 1) 8 buf }

abbrev read_u32 : List ℕ → ℕ → ℕ
read_u32 buf i =
    of_le32 (byte_at buf i) (byte_at buf (i + 1)) (byte_at buf (i + 2)) (byte_at buf (i + 3))

-- The member of the union that a type selects, read from a buffer.
abbrev pub read_body : MessageType → List ℕ → Option Body
read_body MessageType.unknown buf = none
read_body MessageType.heartbeat buf = some (Body.heartbeat (byte_at buf 6))
read_body MessageType.open_cluster buf =
    some (Body.open_cluster (byte_at buf 6) (byte_at buf 7) (read_rings buf 8))
read_body MessageType.close_cluster buf =
    some (Body.close_cluster (byte_at buf 6) (read_rings buf 7))
read_body MessageType.follow buf = some (Body.follow (byte_at buf 6) (byte_at buf 7))
read_body MessageType.accept buf = some (
    Body.accept (not (byte_at buf 6 == 0)) (byte_at buf 7) (byte_at buf 8) (byte_at buf 9)
      (read_u32 buf 10))
read_body MessageType.send_acks buf = some (Body.send_acks (byte_at buf 6) (byte_at buf 7))
read_body MessageType.datagram buf = some (
    Body.datagram (record {
      packet_bytes = of_le16 (byte_at buf 6) (byte_at buf 7);
      count = byte_at buf 8;
      part = byte_at buf 9;
    }))

abbrev pub read_header : List ℕ → Header
read_header buf = record {
  sequence = read_u32 buf 0;
  src = byte_at buf 4;
  type = type_of_code (byte_at buf 5);
}

-- The checks of `decode_msg` on the size of the buffer, by the type in its header.
unfoldable pub fits_type : MessageType → List ℕ → Bool
fits_type MessageType.unknown buf = false
fits_type MessageType.send_acks buf =
    if ltb (length buf) 8
    then false
    else (if leb (byte_at buf 7) (byte_at buf 6)
        then false
        else 8 + sub8 (byte_at buf 7) (byte_at buf 6) * 4 == length buf)
fits_type MessageType.datagram buf =
    if ltb (length buf) 10
    then false
    else 10 + of_le16 (byte_at buf 6) (byte_at buf 7) == length buf
fits_type t buf = header_size + body_size t == length buf

-- The body that the header's type selects, if the buffer has the size for it.
unfoldable pub decode_body : MessageType → List ℕ → Option Body
decode_body t buf = if fits_type t buf then read_body t buf else none

abbrev pub as_message : Header → Option Body → Option Message
as_message h none = none
as_message h (some b) = some (record { hdr = h; body = b })

-- `decode_msg`: `none` is `false`; else the buffer is read as a message.
unfoldable pub decode_msg : List ℕ → Option Message
decode_msg buf =
    if ltb (length buf) header_size
    then none
    else (let h = read_header buf in as_message h (decode_body h.type buf))
