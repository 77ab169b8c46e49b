-- ===== src/Multihop/Messages/Tests.antt =====
-- Messages of lib/net/src/multihop_messages.cpp, and the theorems about them at concrete bytes.
use lora_multihop.Prelude.{ℕ, ◌≤◌, ◌≡◌, refl, List, [], ◌∷◌, ◌++◌, some, length, arith}
use lora_multihop.Multihop.Messages.{
  MessageType, Body, Message, TypeReport, size, encode, msgtype, decode_msg,
}
use lora_multihop.Multihop.Messages.Decode.{
  IsMessage, IsWhole, type_of_body, decode_msg-encode, length-encode, decode_msg_sound,
}

abbrev part : Message
part = record {
  hdr = record { sequence = 70000; src = 9; type = MessageType.datagram };
  body = Body.datagram (record { packet_bytes = 3; count = 2; part = 1 });
}

abbrev part_data : List ℕ
part_data = 65 ∷ 66 ∷ 67 ∷ []

part-IsMessage : IsMessage part part_data
part-IsMessage = record { matches = refl; sequence = omega arith; body = (omega arith, refl) }

abbrev part_bytes : List ℕ
part_bytes = encode part ++ part_data

part_bytes-read : decode_msg part_bytes ≡ some part
part_bytes-read = decode_msg-encode part part_data part-IsMessage

decode_msg-encode_example : decode_msg (encode part ++ part_data) ≡ some part
decode_msg-encode_example = decode_msg-encode part part_data part-IsMessage

length-encode_example : length (encode part) ≡ size part
length-encode_example = length-encode part part_data part-IsMessage

decode_msg_sound_example :
    (part.hdr.type ≡ type_of_body part.body)
    × (size part ≤ length part_bytes)
    × IsWhole part.body (length part_bytes)
    × (msgtype part_bytes ≡ TypeReport.found part.hdr.type)
decode_msg_sound_example = decode_msg_sound part_bytes part part_bytes-read
