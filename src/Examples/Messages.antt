-- ===== src/Examples/Messages.antt =====
-- Messages of internal/protocol at concrete values.
use gametunnel.Base.{ℕ, ◌≡◌, refl, List, [], ◌∷◌, ◌++◌, replicate, arith, some}
use gametunnel.Bytes.{ok}
use gametunnel.Net.{ipv4, to4}
use gametunnel.Protocol.Register.{RegisterPayload, marshal_register, unmarshal_register}
use gametunnel.Protocol.Kick.{KickPayload, marshal_kick, unmarshal_kick}
use gametunnel.Protocol.AssignIp.{AssignIpPayload, marshal_assign_ip, unmarshal_assign_ip}
use gametunnel.Protocol.Auth.{AuthResponsePayload, marshal_auth_response, unmarshal_auth_response}
use gametunnel.Protocol.Rebind.{RebindPayload, marshal_rebind, unmarshal_rebind}
use gametunnel.Protocol.Messages.{unmarshal-marshal}
use gametunnel.Tcp.{receive_all, send_all, packet, receive_all-send_all}

abbrev lan : List ℕ
lan = 108 ∷ 97 ∷ 110 ∷ []

abbrev bob : List ℕ
bob = 98 ∷ 111 ∷ 98 ∷ []

abbrev bob_registers : RegisterPayload
bob_registers = record { room_id = lan; username = bob; version = 262 }

abbrev wrong_password : KickPayload
wrong_password = record { reason = bob; code = 1 }

abbrev assigned : AssignIpPayload
assigned = record {
  virtual_ip = ipv4 10 10 0 2;
  subnet_mask = 255 ∷ 255 ∷ 255 ∷ 0 ∷ [];
  server_ip = ipv4 10 10 0 1;
  version = 262;
  session_token = replicate 16 7;
}

abbrev responded : AuthResponsePayload
responded = record { room_id = lan; username = bob; hmac = replicate 32 6 }

abbrev rebinds : RebindPayload
rebinds = record { virtual_ip = ipv4 10 10 0 2; hmac = 1 ∷ 2 ∷ [] }

read_back_example :
    (unmarshal_register (marshal_register bob_registers ++ (7 ∷ [])) ≡ ok bob_registers)
    × ((buf : List ℕ) × (marshal_assign_ip assigned ≡ some buf)
        × (unmarshal_assign_ip (buf ++ (7 ∷ []))
            ≡ ok (record assigned {
              virtual_ip = 10 ∷ 10 ∷ 0 ∷ 2 ∷ [];
              subnet_mask = 255 ∷ 255 ∷ 255 ∷ 0 ∷ [];
              server_ip = 10 ∷ 10 ∷ 0 ∷ 1 ∷ [];
            })))
    × (unmarshal_auth_response (marshal_auth_response responded ++ (7 ∷ [])) ≡ ok responded)
    × (unmarshal_kick (marshal_kick wrong_password ++ (7 ∷ [])) ≡ ok wrong_password)
    × (unmarshal_rebind (marshal_rebind rebinds ++ (7 ∷ []))
        ≡ ok (record { virtual_ip = 10 ∷ 10 ∷ 0 ∷ 2 ∷ []; hmac = 1 ∷ 2 ∷ [] }))
unfolding to4 ipv4
read_back_example =
    unmarshal-marshal bob_registers assigned responded wrong_password rebinds (10 ∷ 10 ∷ 0 ∷ 2 ∷ [])
      (255 ∷ 255 ∷ 255 ∷ 0 ∷ []) (10 ∷ 10 ∷ 0 ∷ 1 ∷ []) (10 ∷ 10 ∷ 0 ∷ 2 ∷ []) (7 ∷ [])
      (record { room_fits = omega arith; user_fits = omega arith; version_fits = omega arith }) refl
      refl refl refl (omega arith) (omega arith) (omega arith) (omega arith) (omega arith)
      (omega arith) refl (omega arith)

tcp_example : receive_all 2 (send_all (lan ∷ (1 ∷ []) ∷ []) []) ≡ packet lan ∷ packet (1 ∷ []) ∷ []
tcp_example =
    receive_all-send_all (lan ∷ (1 ∷ []) ∷ [])
      ((omega arith, omega arith), ((omega arith, omega arith), tt))
