-- ===== src/Protocol/Safe.antt =====
-- The decoders of internal/protocol on any input.
use gametunnel.Base.{ℕ, List, Option}
use gametunnel.Bytes.{IsSafe}
use gametunnel.Protocol.Packet.{decode, decode_checked}
use gametunnel.Protocol.Packet.RoundTrip.{decode-IsSafe, decode_checked-IsSafe}
use gametunnel.Protocol.Register.{unmarshal_register, unmarshal_register-IsSafe}
use gametunnel.Protocol.AssignIp.{unmarshal_assign_ip, unmarshal_assign_ip-IsSafe}
use gametunnel.Protocol.Kick.{unmarshal_kick, unmarshal_kick-IsSafe}
use gametunnel.Protocol.Auth.{
  unmarshal_auth_challenge, unmarshal_auth_challenge-IsSafe, unmarshal_auth_response,
  unmarshal_auth_response-IsSafe,
}
use gametunnel.Protocol.Data.{DataPayload, unmarshal_data, unmarshal_data_pooled}
use gametunnel.Protocol.Data.Pooled.{unmarshal_data-IsSafe, unmarshal_data_pooled-IsSafe}
use gametunnel.Protocol.Rebind.{
  unmarshal_rebind, unmarshal_rebind-IsSafe, unmarshal_rebind_ack, unmarshal_rebind_ack-IsSafe,
}
use gametunnel.Net.{UdpAddr}
use gametunnel.Protocol.AddrText.{Ipv6Text}
use gametunnel.Protocol.PeerInfo.{unmarshal_peer_info}
use gametunnel.Protocol.PeerInfo.Safety.{unmarshal_peer_info-IsSafe}
use gametunnel.Protocol.Probe.{
  unmarshal_ping, unmarshal_ping-IsSafe, unmarshal_nat_probe, unmarshal_nat_probe-IsSafe,
  unmarshal_nat_response, unmarshal_nat_response-IsSafe,
}

-- Whatever bytes come in, none of the decoders reads out of range: those of packets, with a checksum
-- and without, and those of register, assignment, kick, challenge, response, data, rebind, peer list,
-- ping and NAT probe messages and of the answers to rebinds and probes. The decoder of data into an
-- object of the pool does not either, whatever the object holds.
pub decoders-IsSafe :
    (v6 : Ipv6Text) (resolve : List ℕ → Option UdpAddr) (dp : DataPayload) (buf : List ℕ)
    → IsSafe (decode_checked buf)
      × IsSafe (decode buf)
      × IsSafe (unmarshal_register buf)
      × IsSafe (unmarshal_assign_ip buf)
      × IsSafe (unmarshal_kick buf)
      × IsSafe (unmarshal_auth_challenge buf)
      × IsSafe (unmarshal_auth_response buf)
      × IsSafe (unmarshal_data buf)
      × IsSafe (unmarshal_data_pooled dp buf)
      × IsSafe (unmarshal_rebind buf)
      × IsSafe (unmarshal_rebind_ack buf)
      × IsSafe (unmarshal_peer_info v6 buf)
      × IsSafe (unmarshal_ping buf)
      × IsSafe (unmarshal_nat_probe buf)
      × IsSafe (unmarshal_nat_response resolve buf)
decoders-IsSafe v6 resolve dp buf = (
  decode_checked-IsSafe buf,
  decode-IsSafe buf,
  unmarshal_register-IsSafe buf,
  unmarshal_assign_ip-IsSafe buf,
  unmarshal_kick-IsSafe buf,
  unmarshal_auth_challenge-IsSafe buf,
  unmarshal_auth_response-IsSafe buf,
  unmarshal_data-IsSafe buf,
  unmarshal_data_pooled-IsSafe dp buf,
  unmarshal_rebind-IsSafe buf,
  unmarshal_rebind_ack-IsSafe buf,
  unmarshal_peer_info-IsSafe v6 buf,
  unmarshal_ping-IsSafe buf,
  unmarshal_nat_probe-IsSafe buf,
  unmarshal_nat_response-IsSafe resolve buf,
)
