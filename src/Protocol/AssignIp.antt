-- ===== src/Protocol/AssignIp.antt =====
-- internal/protocol/messages.go, AssignIPPayload. A nil slice from Marshal is `none`.
use gametunnel.Base.{
  ℕ, ◌≤◌, ◌<◌, ◌≡◌, refl, ap, true, Option, none, some, List, ◌++◌, arith, leb, if◌then◌else◌,
  length, drop, replicate, length-append, length-drop, append_assoc,
}
use gametunnel.Bytes.{
  Result, ok, ◌>>=◌, ◌>>◌, need, need_met, slice, put_u16, slice_at, drop_at, opt_u16_at,
  opt_u16_at-drop, opt_u16_at-IsSafe, IsSafe, IsSafe-need, IsSafe-slice, IsSafe-ok, IsSafe->>=,
  slice_within, if-IsSafe,
}
use gametunnel.Net.{Ip, to4, length-to4}

pub record AssignIpPayload : Type 0 where
  pub virtual_ip : Ip
  pub subnet_mask : Ip
  pub server_ip : Ip
  pub version : ℕ  -- uint16
  pub session_token : List ℕ  -- [16]byte

infixl 5 ◌>>=?◌
abbrev ◌>>=?◌ : {A B : Type 0} → Option A → (A → Option B) → Option B
none >>=? f = none
some a >>=? f = f a

pub marshal_assign_ip : AssignIpPayload → Option (List ℕ)
marshal_assign_ip a = to4 a.virtual_ip >>=? λ vip. to4 a.subnet_mask >>=? λ mask.
    to4 a.server_ip >>=? λ srv.
    some (vip ++ (mask ++ (srv ++ (put_u16 a.version ++ a.session_token))))

-- The token is copied only from a message that is long enough to hold it.
pub opt_token : List ℕ → Result (List ℕ)
opt_token buf = if leb 30 (length buf) then slice buf 14 30 else ok (replicate 16 0)

pub unmarshal_assign_ip : List ℕ → Result AssignIpPayload
unmarshal_assign_ip buf = do
  need buf 12
  vip ← slice buf 0 4
  mask ← slice buf 4 8
  srv ← slice buf 8 12
  version ← opt_u16_at buf 12
  token ← opt_token buf
  ok (record {
    virtual_ip = vip;
    subnet_mask = mask;
    server_ip = srv;
    version = version;
    session_token = token;
  })

opt_token-drop :
    (buf token rest : List ℕ)
    → length token ≡ 16
    → 14 ≤ length buf
    → drop 14 buf ≡ token ++ rest
    → opt_token buf ≡ ok token
unfolding opt_token
opt_token-drop buf token rest h long e = ground (
  arith,
  slice_at buf 14 30 token rest long (omega arith) e,
  length-drop 14 buf,
  ap length e,
  length-append token rest,
)

opt_token-IsSafe : (buf : List ℕ) → IsSafe (opt_token buf)
unfolding opt_token
opt_token-IsSafe buf = if-IsSafe (leb 30 (length buf)) _ _ within (IsSafe-ok _)
  where
    within : leb 30 (length buf) ≡ true → IsSafe (slice buf 14 30)
    within h = rw (slice_within buf 14 30 (omega arith) (ground arith)) (IsSafe-ok _)

-- The reads of the decoder on three addresses of four bytes, a version, a token and what follows.
module _ (v m s token rest : List ℕ) (version : ℕ) (hv : length v ≡ 4) (hm : length m ≡ 4)
    (hs : length s ≡ 4) (ht : length token ≡ 16) (hw : version < 65536) where
  abbrev layout : List ℕ
  layout = v ++ (m ++ (s ++ (put_u16 version ++ (token ++ rest))))

  length-layout : 30 ≤ length layout
  length-layout = omega (
    arith,
    length-append v (m ++ (s ++ (put_u16 version ++ (token ++ rest)))),
    length-append m (s ++ (put_u16 version ++ (token ++ rest))),
    length-append s (put_u16 version ++ (token ++ rest)),
    length-append token rest,
  )

  at_mask : drop 4 layout ≡ m ++ (s ++ (put_u16 version ++ (token ++ rest)))
  at_mask = drop_at layout 0 4 v _ (omega arith) refl

  at_server : drop 8 layout ≡ s ++ (put_u16 version ++ (token ++ rest))
  at_server = drop_at layout 4 8 m _ (omega arith) at_mask

  at_version : drop 12 layout ≡ put_u16 version ++ (token ++ rest)
  at_version = drop_at layout 8 12 s _ (omega arith) at_server

  at_token : drop 14 layout ≡ token ++ rest
  at_token = drop_at layout 12 14 (put_u16 version) _ (omega arith) at_version

  read_layout :
      unmarshal_assign_ip layout
      ≡ ok (record {
        virtual_ip = v;
        subnet_mask = m;
        server_ip = s;
        version = version;
        session_token = token;
      })
  unfolding unmarshal_assign_ip
  read_layout = ground (
    arith,
    need_met layout 12 (omega (arith, length-layout)),
    slice_at layout 0 4 v _ (omega arith) (omega arith) refl,
    slice_at layout 4 8 m _ (omega (arith, length-layout)) (omega arith) at_mask,
    slice_at layout 8 12 s _ (omega (arith, length-layout)) (omega arith) at_server,
    opt_u16_at-drop layout 12 version _ hw (omega (arith, length-layout)) at_version,
    opt_token-drop layout token rest ht (omega (arith, length-layout)) at_token,
  )

-- Where the three addresses are IPv4, the message is written, and it is read back, whatever bytes
-- follow it, with the addresses in their 4-byte form and the version and token as they were.
pub unmarshal_assign_ip-marshal_assign_ip :
    (a : AssignIpPayload) (v m s rest : List ℕ)
    → to4 a.virtual_ip ≡ some v
    → to4 a.subnet_mask ≡ some m
    → to4 a.server_ip ≡ some s
    → length a.session_token ≡ 16
    → a.version < 65536
    → (buf : List ℕ) × (marshal_assign_ip a ≡ some buf)
      × (unmarshal_assign_ip (buf ++ rest)
          ≡ ok (record a { virtual_ip = v; subnet_mask = m; server_ip = s }))
unfolding marshal_assign_ip
unmarshal_assign_ip-marshal_assign_ip a v m s rest ev em es ht hw = (
  v ++ (m ++ (s ++ (put_u16 a.version ++ a.session_token))),
  rw (ev, em, es),
  simp append_assoc (
      read_layout v m s a.session_token rest a.version (length-to4 _ v ev) (length-to4 _ m em)
        (length-to4 _ s es) ht hw),
)

-- On no input does the decoder read out of range.
pub unmarshal_assign_ip-IsSafe : (buf : List ℕ) → IsSafe (unmarshal_assign_ip buf)
unfolding unmarshal_assign_ip
unmarshal_assign_ip-IsSafe buf = IsSafe-need buf _ _ λ long.
    IsSafe-slice buf _ _ _ (omega arith) (omega arith) λ vip.
      IsSafe-slice buf _ _ _ (omega arith) (omega arith) λ mask.
        IsSafe-slice buf _ _ _ (omega arith) (omega arith) λ srv.
          IsSafe->>= (opt_u16_at-IsSafe buf 12)
            λ version. IsSafe->>= (opt_token-IsSafe buf) λ token. IsSafe-ok _
