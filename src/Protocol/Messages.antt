-- ===== src/Protocol/Messages.antt =====
-- The messages of internal/protocol, as one side writes them and the other reads them.
use gametunnel.Base.{ℕ, ◌≡◌, ◌≤◌, ◌<◌, List, ◌++◌, some, length}
use gametunnel.Bytes.{ok}
use gametunnel.Net.{to4}
use gametunnel.Protocol.Register.{
  RegisterPayload, IsEncodable, marshal_register, unmarshal_register,
  unmarshal_register-marshal_register,
}
use gametunnel.Protocol.AssignIp.{
  AssignIpPayload, marshal_assign_ip, unmarshal_assign_ip, unmarshal_assign_ip-marshal_assign_ip,
}
use gametunnel.Protocol.Auth.{
  AuthResponsePayload, marshal_auth_response, unmarshal_auth_response,
  unmarshal_auth_response-marshal_auth_response,
}
use gametunnel.Protocol.Kick.{
  KickPayload, marshal_kick, unmarshal_kick, unmarshal_kick-marshal_kick,
}
use gametunnel.Protocol.Rebind.{
  RebindPayload, marshal_rebind, unmarshal_rebind, unmarshal_rebind-marshal_rebind,
}

-- Registrations, address assignments, responses, kicks and rebind requests are read back as they were
-- written, whatever bytes follow, where texts have fewer than 65536 bytes, an HMAC of a response at
-- least 32, a token 16, and addresses are IPv4; those come out in four bytes.
pub unmarshal-marshal :
    (reg : RegisterPayload) (asg : AssignIpPayload) (resp : AuthResponsePayload)
    (kick : KickPayload) (reb : RebindPayload) (v m s vip rest : List ℕ)
    → IsEncodable reg
    → to4 asg.virtual_ip ≡ some v
    → to4 asg.subnet_mask ≡ some m
    → to4 asg.server_ip ≡ some s
    → length asg.session_token ≡ 16
    → asg.version < 65536
    → length resp.room_id < 65536
    → length resp.username < 65536
    → length resp.hmac < 65536
    → 32 ≤ length resp.hmac
    → length kick.reason < 65536
    → to4 reb.virtual_ip ≡ some vip
    → length reb.hmac < 65536
    → (unmarshal_register (marshal_register reg ++ rest) ≡ ok reg)
      × ((buf : List ℕ) × (marshal_assign_ip asg ≡ some buf)
          × (unmarshal_assign_ip (buf ++ rest)
              ≡ ok (record asg { virtual_ip = v; subnet_mask = m; server_ip = s })))
      × (unmarshal_auth_response (marshal_auth_response resp ++ rest) ≡ ok resp)
      × (unmarshal_kick (marshal_kick kick ++ rest) ≡ ok kick)
      × (unmarshal_rebind (marshal_rebind reb ++ rest)
          ≡ ok (record { virtual_ip = vip; hmac = reb.hmac }))
unmarshal-marshal reg asg resp kick reb v m s vip rest er ev em es ht hw hr hu hm long hk hv hb = (
  unmarshal_register-marshal_register reg rest er,
  unmarshal_assign_ip-marshal_assign_ip asg v m s rest ev em es ht hw,
  unmarshal_auth_response-marshal_auth_response resp rest hr hu hm long,
  unmarshal_kick-marshal_kick kick rest hk,
  unmarshal_rebind-marshal_rebind reb vip rest hv hb,
)
