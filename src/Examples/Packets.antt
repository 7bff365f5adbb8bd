-- ===== src/Examples/Packets.antt =====
-- Packets and relayed data at concrete values.
use gametunnel.Base.{ℕ, ◌≡◌, refl, true, false, List, [], ◌∷◌, ◌++◌, replicate, length, arith, some}
use gametunnel.Bytes.{ok, slice, need, byte_at}
use gametunnel.Net.{to4}
use gametunnel.Protocol.Data.{
  DataPayload, marshal_data, marshal_size, unmarshal_data, has_token, data_offset, data_header,
  data_token,
}
use gametunnel.Protocol.Data.RoundTrip.{unmarshal_data-marshal_data}
use gametunnel.Protocol.Packet.{decode_checked, encode_checked}
use gametunnel.Protocol.Packet.RoundTrip.{
  decode_checked-encode_checked, encode_checked-decode_checked,
}
use gametunnel.Server.Dispatch.{incoming, message, with_checksum, incoming-encode_checked}

abbrev src : List ℕ
src = 10 ∷ 10 ∷ 0 ∷ 2 ∷ []

abbrev dst : List ℕ
dst = 10 ∷ 10 ∷ 0 ∷ 3 ∷ []

abbrev relayed : DataPayload
relayed = record {
  src_ip = src;
  dst_ip = dst;
  format_ver = 1;
  flags = 2;
  token = replicate 16 9;
  bytes = 69 ∷ 0 ∷ [];
}

-- The packet on the wire.
abbrev relayed_wire : List ℕ
relayed_wire = src ++ (dst ++ (1 ∷ 2 ∷ (replicate 16 9 ++ (69 ∷ 0 ∷ []))))

data_example :
    (buf : List ℕ) × (marshal_data relayed ≡ some buf)
    × (length buf ≡ marshal_size relayed)
    × (unmarshal_data buf ≡ ok relayed)
unfolding to4 has_token
data_example = unmarshal_data-marshal_data relayed src dst refl refl refl

unmarshal_relayed : unmarshal_data relayed_wire ≡ ok relayed
unfolding unmarshal_data need slice data_offset byte_at has_token data_header data_token
unmarshal_relayed = refl

decode_example :
    decode_checked (encode_checked 5 (1 ∷ 2 ∷ [])) ≡ ok (record { typ = 5; payload = 1 ∷ 2 ∷ [] })
decode_example = decode_checked-encode_checked 5 (1 ∷ 2 ∷ [])

decoded_bytes :
    decode_checked (encode_checked 5 (7 ∷ [])) ≡ ok (record { typ = 5; payload = 7 ∷ [] })
decoded_bytes = decode_checked-encode_checked 5 (7 ∷ [])

only_packet_example : encode_checked 5 (7 ∷ []) ≡ encode_checked 5 (7 ∷ [])
unfolding encode_checked
only_packet_example =
    encode_checked-decode_checked (encode_checked 5 (7 ∷ [])) (record { typ = 5; payload = 7 ∷ [] })
      (
        omega arith,
        (
          omega arith,
          (omega arith, (omega arith, (omega arith, (omega arith, (omega arith, tt))))),
        ),
      )
      decoded_bytes

-- An empty keepalive.
incoming_example :
    (incoming false (encode_checked 7 []) ≡ message (record { typ = 7; payload = [] }))
    × (incoming true (encode_checked 7 [])
        ≡ message (record { typ = 7; payload = with_checksum 7 [] }))
incoming_example = incoming-encode_checked 7 []
