-- ===== src/Protocol/AddrText.antt =====
-- Addresses as text: AddrStrLen and AppendAddrStr of internal/protocol/messages_peer.go, and what its
-- decoder uses of the packages net and strconv. The text of an IPv6 address, whose runs of zeroes the
-- package net shortens, is an argument in both directions.
pub mod Decimal
pub mod Parse
pub mod RoundTrip
use gametunnel.Base.{
  ℕ, zero, suc, ◌+◌, ◌-◌, ◌*◌, ◌/◌, ◌%◌, ◌^◌, ◌≡◌, Bool, true, false, ◌&&◌, ◌||◌, Option, none,
  some, List, [], ◌∷◌, ◌++◌, leb, ltb, ◌==◌, if◌then◌else◌, length,
}
use gametunnel.Net.{Ip, UdpAddr, to4, ipv4}

-- `net.IP.String` and `net.ParseIP` on IPv6 addresses.
pub record Ipv6Text : Type 0 where
  pub show : Ip → List ℕ
  pub parse : List ℕ → Option Ip

-- `strconv.AppendInt(nil, n, 10)`: one round for each digit, of which there are at most 20.
pub decimal : ℕ → ℕ → List ℕ
decimal zero n = []
decimal (suc fuel) n =
    let rest = decimal fuel (n / 10) in
    if ltb n 10 then (48 + n) ∷ [] else rest ++ (48 + n % 10) ∷ []

unfoldable pub append_int : ℕ → List ℕ
unfolding decimal
append_int n = decimal 20 n

unfoldable pub dotted : List ℕ → List ℕ
unfolding append_int
dotted [] = []
dotted (b ∷ []) = append_int b
dotted (b ∷ c ∷ bs) = append_int b ++ (46 ∷ dotted (c ∷ bs))

module _ (v6 : Ipv6Text) where
  -- AppendAddrStr: "a.b.c.d:port" or "[ip]:port".
  unfoldable pub append_addr_str : List ℕ → UdpAddr → List ℕ
  unfolding dotted
  append_addr_str buf a = elim (to4 a.ip) [
    | some v ↦ buf ++ (dotted v ++ (58 ∷ append_int a.port))
    | none ↦ buf ++ (91 ∷ (v6.show a.ip ++ (93 ∷ 58 ∷ append_int a.port)))
  ]

-- Text before and behind the last such character.
unfoldable pub split_last : ℕ → List ℕ → Option (List ℕ × List ℕ)
split_last c [] = none
split_last c (x ∷ xs) = elim (split_last c xs) [
  | some (front, back) ↦ some (x ∷ front, back)
  | none ↦ if x == c then some ([], xs) else none
]

-- Text before and behind the first such character.
unfoldable pub split_first : ℕ → List ℕ → Option (List ℕ × List ℕ)
split_first c [] = none
split_first c (x ∷ xs) =
    let rest = split_first c xs in
    if x == c
    then some ([], xs)
    else elim rest [ none ↦ none | some (front, back) ↦ some (x ∷ front, back) ]

unfoldable pub has_char : ℕ → List ℕ → Bool
has_char c [] = false
has_char c (x ∷ xs) = x == c || has_char c xs

-- `[host]:port`, behind the opening bracket: the bracket must close right before the last colon.
unfoldable pub split_bracketed : List ℕ → Option (List ℕ × List ℕ)
unfolding split_first has_char
split_bracketed text = elim (split_first 93 text) [
  | none ↦ none
  | some (host, behind) ↦ elim behind [
    | [] ↦ none
    | c ∷ port ↦
        if (c == 58 && (if has_char 58 port then false else true))
          && (if has_char 91 text || has_char 93 port then false else true)
        then some (host, port)
        else none
  ]
]

-- net.SplitHostPort: host and port, or an error.
unfoldable pub split_host_port : List ℕ → Option (List ℕ × List ℕ)
unfolding split_last split_bracketed has_char
split_host_port [] = none
split_host_port (x ∷ xs) = if x == 91 then split_bracketed xs else elim (split_last 58 (x ∷ xs)) [
  | none ↦ none
  | some (host, port) ↦
      if has_char 58 host || (has_char 91 (x ∷ xs) || has_char 93 (x ∷ xs))
      then none
      else some (host, port)
]

unfoldable pub is_digit : ℕ → Bool
is_digit c = leb 48 c && leb c 57

unfoldable pub read_digits : ℕ → List ℕ → Option ℕ
unfolding is_digit
read_digits acc [] = some acc
read_digits acc (c ∷ cs) = if is_digit c then read_digits (acc * 10 + (c - 48)) cs else none

-- At least one digit, and a value up to `max`.
unfoldable pub read_number : ℕ → List ℕ → Option ℕ
unfolding read_digits
read_number max [] = none
read_number max (c ∷ cs) = elim (read_digits 0 (c ∷ cs)) [
  | none ↦ none
  | some n ↦ if leb n max then some n else none
]

-- strconv.Atoi; an int is its pattern of 64 bits.
unfoldable pub atoi : List ℕ → Option ℕ
unfolding read_number
atoi [] = none
atoi (c ∷ cs) =
    if c == 43
    then read_number (2 ^ 63 - 1) cs
    else if c == 45
    then elim (read_number (2 ^ 63) cs) [ none ↦ none | some n ↦ some ((2 ^ 64 - n) % 2 ^ 64) ]
    else read_number (2 ^ 63 - 1) (c ∷ cs)

-- The fields of an IPv4 address: the value and the number of digits of the field that is read, and the
-- fields before it.
unfoldable pub parse_fields : ℕ → ℕ → List ℕ → List ℕ → Option (List ℕ)
unfolding is_digit
parse_fields val dig_len fields [] =
    if length fields == 3 && ltb 0 dig_len then some (fields ++ val ∷ []) else none
parse_fields val dig_len fields (c ∷ cs) =
    let digit = parse_fields (val * 10 + (c - 48)) (dig_len + 1) fields cs in
    let dot = parse_fields 0 0 (fields ++ val ∷ []) cs in
    if is_digit c
    then if dig_len == 1 && val == 0
      then none
      else if ltb 255 (val * 10 + (c - 48))
      then none
      else digit
    else if (c == 46 && ltb 0 dig_len) && ltb (length fields) 3
    then dot
    else none

-- Which of the two kinds of address a text can be: that of its first dot or colon.
pub data AddrKind : Type 0 where
  no_addr kind_v4 kind_v6 : AddrKind

unfoldable pub addr_kind : List ℕ → AddrKind
addr_kind [] = no_addr
addr_kind (c ∷ cs) =
    let rest = addr_kind cs in
    if c == 46 then kind_v4 else if c == 58 then kind_v6 else if c == 37 then no_addr else rest

abbrev pub of_fields : List ℕ → Option Ip
of_fields (a ∷ b ∷ c ∷ d ∷ []) = some (ipv4 a b c d)
of_fields fields = none

module _ (v6 : Ipv6Text) where
  -- net.ParseIP.
  unfoldable pub parse_ip : List ℕ → Option Ip
  unfolding addr_kind parse_fields
  parse_ip text = elim (addr_kind text) [
    | no_addr ↦ none
    | kind_v6 ↦ v6.parse text
    | kind_v4 ↦ elim (parse_fields 0 0 [] text) [ none ↦ none | some fields ↦ of_fields fields ]
  ]

  -- The address of a peer, or none if the text is malformed.
  unfoldable pub parse_addr : List ℕ → Option UdpAddr
  unfolding split_host_port atoi parse_ip
  parse_addr text = elim (split_host_port text) [
    | none ↦ none
    | some (host, port_text) ↦ elim (atoi port_text) [
      | none ↦ none
      | some port ↦ elim (parse_ip host) [
        | none ↦ none
        | some ip ↦ some (record { ip = ip; port = port })
      ]
    ]
  ]
