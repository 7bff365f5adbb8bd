-- ===== src/Protocol/AddrText/RoundTrip.antt =====
-- The text of an IPv4 address with a port is parsed to the address.
use gametunnel.Base.{
  ℕ, ◌≤◌, ◌<◌, ◌^◌, ◌≡◌, refl, ap, subst, ◌∙◌, false, none, some, List, [], ◌∷◌, ◌++◌, ◌==◌, length,
  length-append, arith, All, ◌||◌,
}
use gametunnel.Bytes.{IsByte}
use gametunnel.Net.{UdpAddr, Ip, to4, ipv4}
use gametunnel.Protocol.AddrText.{
  Ipv6Text, append_int, dotted, append_addr_str, addr_kind, kind_v4, split_last, has_char,
  split_host_port, parse_ip, parse_addr, of_fields, parse_fields, atoi,
}
use gametunnel.Protocol.AddrText.Decimal.{
  IsDigit, append_int-cons, append_int-IsDigit, atoi-append_int, length-append_int,
}
use gametunnel.Protocol.AddrText.Parse.{
  IsHostChar, append_int-IsHostChar, dotted-IsHostChar, parse_fields-dotted,
}

has_char-host : (c : ℕ) (xs : List ℕ) → 57 < c → All IsHostChar xs → has_char c xs ≡ false
unfolding has_char
has_char-host c [] l h = refl
has_char-host c (x ∷ xs) l h = ground (arith, has_char-host c xs l h.1)

has_char-append :
    (c : ℕ) (xs ys : List ℕ) → has_char c (xs ++ ys) ≡ (has_char c xs || has_char c ys)
unfolding has_char
has_char-append c [] ys = refl
has_char-append c (x ∷ xs) ys = ground (arith, has_char-append c xs ys)

split_last-none : (xs : List ℕ) → All IsHostChar xs → split_last 58 xs ≡ none
unfolding split_last
split_last-none [] h = refl
split_last-none (x ∷ xs) h = rw (split_last-none xs h.1) (ground arith)

split_last_lem :
    (xs ys : List ℕ) → All IsHostChar ys → split_last 58 (xs ++ (58 ∷ ys)) ≡ some (xs, ys)
unfolding split_last
split_last_lem [] ys h = rw (split_last-none ys h) refl
split_last_lem (x ∷ xs) ys h = rw (split_last_lem xs ys h) refl

addr_kind-dotted : (xs ys : List ℕ) → All IsDigit xs → addr_kind (xs ++ (46 ∷ ys)) ≡ kind_v4
unfolding addr_kind
addr_kind-dotted [] ys h = refl
addr_kind-dotted (x ∷ xs) ys h = ground (arith, addr_kind-dotted xs ys h.1)

behind_colon :
    (c : ℕ) (port : List ℕ) → 58 < c → All IsHostChar port → has_char c (58 ∷ port) ≡ false
unfolding has_char
behind_colon c port l h = ground (arith, has_char-host c port)

dotted_cons : (a b : ℕ) (bs : List ℕ) → dotted (a ∷ b ∷ bs) ≡ append_int a ++ (46 ∷ dotted (b ∷ bs))
unfolding dotted
dotted_cons a b bs = refl

split_plain :
    (x : ℕ) (xs host port : List ℕ)
    → x ≤ 57
    → split_last 58 (x ∷ xs) ≡ some (host, port)
    → has_char 58 host ≡ false
    → has_char 91 (x ∷ xs) ≡ false
    → has_char 93 (x ∷ xs) ≡ false
    → split_host_port (x ∷ xs) ≡ some (host, port)
unfolding split_host_port
split_plain x xs host port l e f g h =
    let digit : (x == 91) ≡ false = ground arith in rw (digit, e, f, g, h) refl

split_host_port_lem :
    (x : ℕ) (xs port : List ℕ)
    → All IsHostChar (x ∷ xs)
    → All IsHostChar port
    → split_host_port ((x ∷ xs) ++ (58 ∷ port)) ≡ some (x ∷ xs, port)
split_host_port_lem x xs port h p =
    split_plain x (xs ++ (58 ∷ port)) (x ∷ xs) port (omega arith) (split_last_lem (x ∷ xs) port p)
      (has_char-host 58 (x ∷ xs) (omega arith) h) (absent 91 (omega arith))
      (absent 93 (omega arith))
  where
    absent : (c : ℕ) → 58 < c → has_char c ((x ∷ xs) ++ (58 ∷ port)) ≡ false
    absent c l =
        has_char-append c (x ∷ xs) (58 ∷ port)
        ∙ ap (λ b. b || has_char c (58 ∷ port)) (has_char-host c (x ∷ xs) (omega arith) h)
        ∙ behind_colon c port l p

parse_kind :
    (v6 : Ipv6Text) (text fields : List ℕ) (ip : Ip)
    → addr_kind text ≡ kind_v4
    → parse_fields 0 0 [] text ≡ some fields
    → of_fields fields ≡ some ip
    → parse_ip v6 text ≡ some ip
unfolding parse_ip
parse_kind v6 text fields ip k f e = rw (k, parse_ip, f) e

parse_ip-dotted :
    (v6 : Ipv6Text) (a b c d : ℕ)
    → All IsByte (a ∷ b ∷ c ∷ d ∷ [])
    → parse_ip v6 (dotted (a ∷ b ∷ c ∷ d ∷ [])) ≡ some (ipv4 a b c d)
parse_ip-dotted v6 a b c d h =
    parse_kind v6 _ (a ∷ b ∷ c ∷ d ∷ []) (ipv4 a b c d)
      (ap addr_kind (dotted_cons a b (c ∷ d ∷ []))
        ∙ addr_kind-dotted (append_int a) (dotted (b ∷ c ∷ d ∷ [])) (append_int-IsDigit a))
      (parse_fields-dotted a b c d h.0 h.1.0 h.1.1.0 h.1.1.1.0) refl

parse_parts :
    (v6 : Ipv6Text) (text host port_text : List ℕ) (port : ℕ) (ip : Ip)
    → split_host_port text ≡ some (host, port_text)
    → atoi port_text ≡ some port
    → parse_ip v6 host ≡ some ip
    → parse_addr v6 text ≡ some (record { ip = ip; port = port })
unfolding parse_addr
parse_parts v6 text host port_text port ip s a e = rw (s, parse_addr, a, e) refl

dotted-nonempty : (a b : ℕ) (bs : List ℕ) → (x : ℕ) × (xs : List ℕ) × (dotted (a ∷ b ∷ bs) ≡ x ∷ xs)
dotted-nonempty a b bs =
    let (x, xs, e) = append_int-cons a in
    (x, xs ++ (46 ∷ dotted (b ∷ bs)), dotted_cons a b bs ∙ ap (λ t. t ++ (46 ∷ dotted (b ∷ bs))) e)

pub append_addr_str_v4 :
    (v6 : Ipv6Text) (addr : UdpAddr) (v : List ℕ)
    → to4 addr.ip ≡ some v
    → append_addr_str v6 [] addr ≡ dotted v ++ (58 ∷ append_int addr.port)
unfolding append_addr_str
append_addr_str_v4 v6 addr v e = rw (e, append_addr_str) refl

-- The address of a peer on IPv4, in either form, with a port of at most 63 bits, is parsed from its
-- text: the port as it was, the four bytes in the 16-byte form.
pub parse_addr-append_addr_str :
    (v6 : Ipv6Text) (addr : UdpAddr) (a b c d : ℕ)
    → to4 addr.ip ≡ some (a ∷ b ∷ c ∷ d ∷ [])
    → All IsByte (a ∷ b ∷ c ∷ d ∷ [])
    → addr.port < 2 ^ 63
    → parse_addr v6 (append_addr_str v6 [] addr)
      ≡ some (record { ip = ipv4 a b c d; port = addr.port })
parse_addr-append_addr_str v6 addr a b c d v h l =
    ap (parse_addr v6) (append_addr_str_v4 v6 addr (a ∷ b ∷ c ∷ d ∷ []) v)
    ∙ parse_parts v6 _ (dotted (a ∷ b ∷ c ∷ d ∷ [])) (append_int addr.port) addr.port _
        (split_dotted (a ∷ b ∷ c ∷ d ∷ []) (dotted-nonempty a b (c ∷ d ∷ [])))
        (atoi-append_int addr.port l) (parse_ip-dotted v6 a b c d h)
  where
    split_dotted :
        (bs : List ℕ)
        → (x : ℕ) × (xs : List ℕ) × (dotted bs ≡ x ∷ xs)
        → split_host_port (dotted bs ++ (58 ∷ append_int addr.port))
          ≡ some (dotted bs, append_int addr.port)
    split_dotted bs (x, xs, e) = rw e (
        split_host_port_lem x xs (append_int addr.port)
          (subst (All IsHostChar) e (dotted-IsHostChar bs)) (append_int-IsHostChar addr.port))

length-dotted : (a b c d : ℕ) → length (dotted (a ∷ b ∷ c ∷ d ∷ [])) ≤ 83
unfolding dotted
length-dotted a b c d = omega (
  arith,
  length-append (append_int a) (46 ∷ dotted (b ∷ c ∷ d ∷ [])),
  length-append (append_int b) (46 ∷ dotted (c ∷ d ∷ [])),
  length-append (append_int c) (46 ∷ append_int d),
  length-append_int a,
  length-append_int b,
  length-append_int c,
  length-append_int d,
)

-- The text is not empty, and at most 104 bytes long.
pub length-append_addr_str :
    (v6 : Ipv6Text) (addr : UdpAddr) (a b c d : ℕ)
    → to4 addr.ip ≡ some (a ∷ b ∷ c ∷ d ∷ [])
    → (0 < length (append_addr_str v6 [] addr)) × (length (append_addr_str v6 [] addr) ≤ 104)
length-append_addr_str v6 addr a b c d v =
    let text = dotted (a ∷ b ∷ c ∷ d ∷ []) in
    let e = ap (length {A = ℕ}) (append_addr_str_v4 v6 addr (a ∷ b ∷ c ∷ d ∷ []) v) in
    let l = length-append text (58 ∷ append_int addr.port) in
    (omega (arith, e, l), omega (arith, e, l, length-dotted a b c d, length-append_int addr.port))
