-- ===== src/Client/Route/Agree.antt =====
-- The client and the server classify destinations alike.
use Prim.Native.Nat.{bit_and, bit_or}
use gametunnel.Base.{
  ℕ, zero, suc, ◌+◌, ◌<◌, ◌≡◌, refl, Bool, true, false, ◌||◌, some, [], ◌∷◌, ◌==◌, ==_iff, arith,
  Bool-cases, inl, inr, if◌then◌else◌,
}
use gametunnel.Bytes.{ok, byte_at}
use gametunnel.Net.{IpNet, to4}
use gametunnel.Server.Room.{Subnet}
use gametunnel.Server.Room.Relay.{is_relay_target}
use gametunnel.Client.Route.{is_subnet_broadcast, client_relay_target}

-- Does the function leave every number below the limit as it is?
keeps : (ℕ → ℕ) → ℕ → Bool
keeps f zero = true
keeps f (suc limit) = if f limit == limit then keeps f limit else false

kept_below : (f : ℕ → ℕ) (limit x : ℕ) → x < limit → keeps f limit ≡ true → f x ≡ x
unfolding keeps
kept_below f zero x below kept = absurd (omega arith)
kept_below f (suc limit) x below kept = elim (Bool-cases (x == limit)) [
  | inl last ↦
      let same : x ≡ limit = (==_iff x limit).0 last in
      rw same (ground (arith, kept, ==_iff (f limit) limit))
  | inr smaller ↦ kept_below f limit x (ground (arith, smaller)) (ground (arith, kept))
]

or_table : keeps (λ x. bit_or x 0) 256 ≡ true
unfolding keeps
or_table = refl

mask_table : keeps (λ x. bit_and x 255) 256 ≡ true
unfolding keeps
mask_table = refl

host_table : keeps (λ x. bit_and x 0 + x) 256 ≡ true
unfolding keeps
host_table = refl

pub byte-bit_or_zero : (x : ℕ) → x < 256 → bit_or x 0 ≡ x
byte-bit_or_zero x byte = kept_below (λ x. bit_or x 0) 256 x byte or_table

pub byte-bit_and_ones : (x : ℕ) → x < 256 → bit_and x 255 ≡ x
byte-bit_and_ones x byte = kept_below (λ x. bit_and x 255) 256 x byte mask_table

pub byte-bit_and_zero : (x : ℕ) → x < 256 → bit_and x 0 ≡ 0
byte-bit_and_zero x byte =
    let h : bit_and x 0 + x ≡ x = kept_below (λ x. bit_and x 0 + x) 256 x byte host_table in
    omega (arith, h)

-- The network of a room, as the client keeps it.
abbrev pub net_of : Subnet → IpNet
net_of s = record { ip = s.b0 ∷ s.b1 ∷ s.b2 ∷ 0 ∷ []; mask = 255 ∷ 255 ∷ 255 ∷ 0 ∷ [] }

pub record IsBytes (s : Subnet) : Type 0 where
  pub b0_byte : s.b0 < 256
  pub b1_byte : s.b1 < 256
  pub b2_byte : s.b2 < 256

if_true_or : (p q : Bool) → (if p then ok true else ok q) ≡ ok (p || q)
if_true_or true q = refl
if_true_or false q = refl

-- For the subnet of a room the client sends a destination by way of the server, as one that is meant
-- for all, exactly when the server passes packets for it to all clients of the room.
pub client_relay_target-is_relay_target :
    (a b c d : ℕ) (s : Subnet)
    → IsBytes s
    → client_relay_target (a ∷ b ∷ c ∷ d ∷ []) (some (net_of s))
      ≡ ok (is_relay_target (a ∷ b ∷ c ∷ d ∷ []) s)
unfolding client_relay_target is_subnet_broadcast is_relay_target to4 byte_at
client_relay_target-is_relay_target a b c d s h =
    rw
      (
        byte-bit_or_zero s.b0 h.b0_byte,
        byte-bit_or_zero s.b1 h.b1_byte,
        byte-bit_or_zero s.b2 h.b2_byte,
      )
      (if_true_or _ _)
