-- ===== src/Tcp.antt =====
-- internal/netutil/tcptransport.go: packets in frames over TCP. The connection is the reliable
-- byte stream that TCP gives: `wire` holds the bytes that were written and not yet read. Whether the
-- connection accepts a write is an argument.
use gametunnel.Base.{
  ℕ, zero, suc, map, ◌+◌, ◌*◌, ◌/◌, ◌%◌, ◌<◌, ◌≡◌, refl, sym, ap, ◌∙◌, Bool, true, false, ◌||◌,
  List, [], ◌∷◌, ◌++◌, arith, length, drop, take, length-append, append_assoc, append-nil, ◌==◌,
  ltb, if◌then◌else◌, take-append, drop-append, All,
}
use gametunnel.Bytes.{put_u16}

pub data TcpError : Type 0 where
  transport_closed packet_too_large write_failed header_failed invalid_length data_failed : TcpError

pub data Received : Type 0 where
  packet : List ℕ → Received
  failed : TcpError → Received

pub data Sent : Type 0 where
  delivered : Sent
  refused : TcpError → Sent

-- TCPTransport.Send.
unfoldable pub send : Bool → Bool → List ℕ → List ℕ → List ℕ × Sent
send closed accepts buf wire =
    if closed
    then (wire, refused transport_closed)
    else if ltb 65535 (length buf)
    then (wire, refused packet_too_large)
    else if accepts
    then (wire ++ (put_u16 (length buf) ++ buf), delivered)
    else (wire, refused write_failed)

-- The packet after its header; io.ReadFull fails when the stream ends before the buffer is full.
unfoldable read_data : ℕ → List ℕ → List ℕ × Received
read_data n wire =
    if (n == 0) || ltb 65535 n
    then (wire, failed invalid_length)
    else if ltb (length wire) n
    then ([], failed data_failed)
    else (drop n wire, packet (take n wire))

-- TCPTransport.Receive.
unfoldable pub receive : Bool → List ℕ → List ℕ × Received
unfolding read_data
receive true wire = (wire, failed transport_closed)
receive false [] = ([], failed header_failed)
receive false (b ∷ []) = ([], failed header_failed)
receive false (b ∷ c ∷ wire) = read_data (b + 256 * c) wire

-- Packets sent one after the other, and as many receptions.
unfoldable pub send_all : List (List ℕ) → List ℕ → List ℕ
unfolding send
send_all [] wire = wire
send_all (p ∷ ps) wire = send_all ps (send false true p wire).0

unfoldable pub receive_all : ℕ → List ℕ → List Received
unfolding receive
receive_all zero wire = []
receive_all (suc n) wire = let (wire', r) = receive false wire in r ∷ receive_all n wire'

-- The frames of packets that Send accepts.
abbrev pub IsFramed : List ℕ → Type 0
IsFramed p = (0 < length p) × (length p < 65536)

frames : List (List ℕ) → List ℕ
frames [] = []
frames (p ∷ ps) = put_u16 (length p) ++ (p ++ frames ps)

send_framed :
    (p wire : List ℕ)
    → length p < 65536
    → (send false true p wire).0 ≡ wire ++ (put_u16 (length p) ++ p)
unfolding send
send_framed p wire h = ground arith

send_all-frames :
    (ps : List (List ℕ)) (wire : List ℕ) → All IsFramed ps → send_all ps wire ≡ wire ++ frames ps
unfolding send_all frames
send_all-frames [] wire h = sym (append-nil wire)
send_all-frames (p ∷ ps) wire ((positive, small), h) =
    rw (send_framed p wire small, send_all-frames ps (wire ++ (put_u16 (length p) ++ p)) h)
      (append_assoc wire (put_u16 (length p) ++ p) (frames ps)
        ∙ ap (◌++◌ wire) (append_assoc (put_u16 (length p)) p (frames ps)))

read_framed :
    (n : ℕ) (p rest : List ℕ)
    → n ≡ length p
    → IsFramed p
    → read_data n (p ++ rest) ≡ (rest, packet p)
unfolding read_data
read_framed n p rest e (positive, small) =
    rw e (ground (arith, length-append p rest, take-append p rest, drop-append p rest))

receive_framed :
    (p rest : List ℕ)
    → IsFramed p
    → receive false (put_u16 (length p) ++ (p ++ rest)) ≡ (rest, packet p)
unfolding receive
receive_framed p rest (positive, small) =
    read_framed (length p % 256 + 256 * (length p / 256 % 256)) p rest (omega arith)
      (positive, small)

receive_all_next :
    (n : ℕ) (wire left : List ℕ) (r : Received)
    → receive false wire ≡ (left, r)
    → receive_all (suc n) wire ≡ r ∷ receive_all n left
unfolding receive_all
receive_all_next n wire left r e = ap (λ x. x.1 ∷ receive_all n x.0) e

receive_all-frames :
    (ps : List (List ℕ)) (rest : List ℕ)
    → All IsFramed ps
    → receive_all (length ps) (frames ps ++ rest) ≡ map packet ps
unfolding frames receive_all
receive_all-frames [] rest h = refl
receive_all-frames (p ∷ ps) rest (framed, h) =
    receive_all_next (length ps) (frames (p ∷ ps) ++ rest) (frames ps ++ rest) (packet p) (
      ap (receive false) (ap (◌++◌ (put_u16 (length p))) (append_assoc p (frames ps) rest))
      ∙ receive_framed p (frames ps ++ rest) framed)
    ∙ ap (◌∷◌ (packet p)) (receive_all-frames ps rest h)

-- Packets of 1 to 65535 bytes that are sent on an open connection which accepts every write are
-- received as they were sent: each reception returns one packet, in the order of sending.
pub receive_all-send_all :
    (ps : List (List ℕ))
    → All IsFramed ps
    → receive_all (length ps) (send_all ps []) ≡ map packet ps
receive_all-send_all ps h =
    rw (send_all-frames ps [] h, ← append-nil (frames ps)) (receive_all-frames ps [] h)

-- An empty packet is accepted by the sender, and the reception of its frame is an error.
pub receive-send_empty :
    (wire : List ℕ)
    → ((send false true [] []).1 ≡ delivered)
      × ((receive false ((send false true [] []).0 ++ wire)).1 ≡ failed invalid_length)
unfolding send receive read_data
receive-send_empty wire = (refl, refl)
