-- ===== src/Protocol/AddrText/Parse.antt =====
-- The text of an IPv4 address and a port: what is written is split and parsed to what it was made of.
use gametunnel.Base.{
  ℕ, ◌+◌, ◌*◌, ◌/◌, ◌%◌, ◌≤◌, ◌<◌, ◌≡◌, refl, ap, sym, ◌∙◌, true, some, List, [], ◌∷◌, ◌++◌, ltb,
  ◌==◌, length, Bool-cases, inl, inr, arith, All, append-nil, ◌&&◌,
}
use gametunnel.Protocol.AddrText.{append_int, dotted, parse_fields}
use gametunnel.Protocol.AddrText.Decimal.{
  IsDigit, All-append, append_int-IsDigit, append_int_lem, decimal_small, decimal_large,
}

parse_first :
    (d : ℕ) (fields cs : List ℕ)
    → d < 10
    → parse_fields 0 0 fields ((48 + d) ∷ cs) ≡ parse_fields d 1 fields cs
unfolding parse_fields
parse_first d fields cs h = ground arith

-- No further digit stands behind a zero.
parse_next :
    (val len d : ℕ) (fields cs : List ℕ)
    → d < 10
    → 0 < val
    → val * 10 + d < 256
    → parse_fields val len fields ((48 + d) ∷ cs) ≡ parse_fields (val * 10 + d) (len + 1) fields cs
unfolding parse_fields
parse_next val len d fields cs h n f = ground arith

parse_dot :
    (val len : ℕ) (fields cs : List ℕ)
    → 0 < len
    → length fields < 3
    → parse_fields val len fields (46 ∷ cs) ≡ parse_fields 0 0 (fields ++ val ∷ []) cs
unfolding parse_fields
parse_dot val len fields cs h n = ground arith

digits_one : (b : ℕ) → b < 10 → append_int b ≡ (48 + b) ∷ []
digits_one b h = append_int_lem b ∙ decimal_small 19 b h

digits_two : (b : ℕ) → 10 ≤ b → b < 100 → append_int b ≡ (48 + b / 10) ∷ (48 + b % 10) ∷ []
digits_two b l h =
    append_int_lem b
    ∙ decimal_large 19 b l
    ∙ ap (λ t. t ++ (48 + b % 10) ∷ []) (decimal_small 18 (b / 10) (omega arith))

digits_three :
    (b : ℕ)
    → 100 ≤ b
    → b < 256
    → append_int b ≡ (48 + b / 10 / 10) ∷ (48 + b / 10 % 10) ∷ (48 + b % 10) ∷ []
digits_three b l h =
    append_int_lem b
    ∙ decimal_large 19 b (omega arith)
    ∙ ap (λ t. t ++ (48 + b % 10) ∷ [])
        (decimal_large 18 (b / 10) (omega arith)
          ∙ ap (λ t. t ++ (48 + b / 10 % 10) ∷ []) (decimal_small 17 (b / 10 / 10) (omega arith)))

-- The field of a byte is read whole, whatever follows it.
parse_byte :
    (b : ℕ) (fields cs : List ℕ)
    → b < 256
    → (len : ℕ) × (0 < len)
      × (parse_fields 0 0 fields (append_int b ++ cs) ≡ parse_fields b len fields cs)
parse_byte b fields cs h = elim (Bool-cases (ltb b 10)) [
  | inl t ↦
      let small : b < 10 = ground arith in
      (1, omega arith, rw (digits_one b small) (parse_first b fields cs small))
  | inr t ↦ elim (Bool-cases (ltb b 100)) [
    | inl u ↦
        let e : b / 10 * 10 + b % 10 ≡ b = omega arith in
        (
          2,
          omega arith,
          rw (digits_two b (ground arith) (ground arith)) (
              parse_first (b / 10) fields _ (ground arith)
              ∙ parse_next (b / 10) 1 (b % 10) fields cs (omega arith) (ground arith) (omega arith)
              ∙ ap (λ v. parse_fields v 2 fields cs) e),
        )
    | inr u ↦
        let large : 100 ≤ b = ground arith in
        let e : b / 10 / 10 * 10 + b / 10 % 10 ≡ b / 10 = omega arith in
        let f : b / 10 * 10 + b % 10 ≡ b = omega arith in
        (
          3,
          omega arith,
          rw (digits_three b large h) (
              parse_first (b / 10 / 10) fields _ (omega arith)
              ∙ parse_next (b / 10 / 10) 1 (b / 10 % 10) fields _ (omega arith) (omega arith)
                  (omega arith)
              ∙ ap (λ v. parse_fields v 2 fields ((48 + b % 10) ∷ cs)) e
              ∙ parse_next (b / 10) 2 (b % 10) fields cs (omega arith) (omega arith) (omega arith)
              ∙ ap (λ v. parse_fields v 3 fields cs) f),
        )
  ]
]

parse_byte_dot :
    (b : ℕ) (fields cs : List ℕ)
    → b < 256
    → length fields < 3
    → parse_fields 0 0 fields (append_int b ++ (46 ∷ cs)) ≡ parse_fields 0 0 (fields ++ b ∷ []) cs
parse_byte_dot b fields cs h n =
    let (len, pos, e) = parse_byte b fields (46 ∷ cs) h in e ∙ parse_dot b len fields cs pos n

parse_end :
    (b len : ℕ) (fields : List ℕ)
    → 0 < len
    → length fields ≡ 3
    → parse_fields b len fields [] ≡ some (fields ++ b ∷ [])
unfolding parse_fields
parse_end b len fields pos n = rw complete
  where
    complete : (length fields == 3 && ltb 0 len) ≡ true
    complete = ground arith

parse_byte_end :
    (b : ℕ) (fields : List ℕ)
    → b < 256
    → length fields ≡ 3
    → parse_fields 0 0 fields (append_int b) ≡ some (fields ++ b ∷ [])
parse_byte_end b fields h n =
    let (len, pos, e) = parse_byte b fields [] h in
    ap (parse_fields 0 0 fields) (sym (append-nil (append_int b)))
    ∙ e
    ∙ parse_end b len fields pos n

-- The four fields of an IPv4 address are parsed to its bytes.
pub parse_fields-dotted :
    (a b c d : ℕ)
    → a < 256
    → b < 256
    → c < 256
    → d < 256
    → parse_fields 0 0 [] (dotted (a ∷ b ∷ c ∷ d ∷ [])) ≡ some (a ∷ b ∷ c ∷ d ∷ [])
unfolding dotted
parse_fields-dotted a b c d ha hb hc hd =
    parse_byte_dot a [] _ ha (omega arith)
    ∙ parse_byte_dot b (a ∷ []) _ hb (omega arith)
    ∙ parse_byte_dot c (a ∷ b ∷ []) _ hc (omega arith)
    ∙ parse_byte_end d (a ∷ b ∷ c ∷ []) hd refl

-- The text of such an address: digits and dots.
abbrev pub IsHostChar : ℕ → Type 0
IsHostChar c = (46 ≤ c) × (c ≤ 57)

All-map {ℓ κ λ'} :
    {A : Type ℓ} {P : A → Type κ} {Q : A → Type λ'} (f : (a : A) → P a → Q a) (xs : List A)
    → All P xs
    → All Q xs
All-map f [] h = tt
All-map f (x ∷ xs) h = (f x h.0, All-map f xs h.1)

pub append_int-IsHostChar : (n : ℕ) → All IsHostChar (append_int n)
append_int-IsHostChar n =
    All-map {P = IsDigit} (λ c d. (omega arith, omega arith)) (append_int n) (append_int-IsDigit n)

pub dotted-IsHostChar : (bs : List ℕ) → All IsHostChar (dotted bs)
unfolding dotted
dotted-IsHostChar [] = tt
dotted-IsHostChar (b ∷ []) = append_int-IsHostChar b
dotted-IsHostChar (b ∷ c ∷ bs) =
    All-append IsHostChar (append_int b) (46 ∷ dotted (c ∷ bs)) (append_int-IsHostChar b)
      ((omega arith, omega arith), dotted-IsHostChar (c ∷ bs))
