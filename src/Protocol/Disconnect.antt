-- ===== src/Protocol/Disconnect.antt =====
-- internal/protocol/errors.go: how a client classes a kick. A string is the list of its bytes.
use gametunnel.Base.{
  ℕ, ◌+◌, ◌≡◌, refl, ap, Bool, true, false, ◌&&◌, ◌||◌, ◌↔◌, List, [], ◌∷◌, ◌++◌, map, arith, leb,
  ◌==◌, if◌then◌else◌, Bool-cases, inl, inr,
}
use gametunnel.Protocol.Kick.{
  KickPayload, kick_code_none, kick_code_wrong_password, kick_code_version_mismatch,
  kick_code_shutdown,
}

pub data DisconnectReason : Type 0 where
  reason_unknown reason_wrong_password reason_version_mismatch : DisconnectReason
  reason_room_full reason_server_shutdown reason_kick_generic : DisconnectReason

pub record DisconnectError : Type 0 where
  pub reason : DisconnectReason
  pub message : List ℕ
  pub code : ℕ

unfoldable pub is_fatal : DisconnectError → Bool
is_fatal e = elim e.reason [
  | reason_wrong_password ↦ true
  | reason_version_mismatch ↦ true
  | _ ↦ false
]

-- `if c >= 'A' && c <= 'Z' { c += 32 }`
unfoldable pub to_lower : ℕ → ℕ
to_lower c = if leb 65 c && leb c 90 then c + 32 else c

-- The inner loop: does the keyword stand at the front?
unfoldable pub matches_here : List ℕ → List ℕ → Bool
matches_here [] s = true
matches_here (k ∷ ks) [] = false
matches_here (k ∷ ks) (c ∷ s) = (to_lower c == to_lower k) && matches_here ks s

-- The outer loop, over the positions of the string.
unfoldable pub contains_ignore_case : List ℕ → List ℕ → Bool
unfolding matches_here
contains_ignore_case [] keyword = matches_here keyword []
contains_ignore_case (c ∷ s) keyword =
    let later = contains_ignore_case s keyword in
    if matches_here keyword (c ∷ s) then true else later

pub contains_any : List ℕ → List (List ℕ) → Bool
contains_any msg [] = false
contains_any msg (k ∷ ks) =
    let later = contains_any msg ks in if contains_ignore_case msg k then true else later

-- "password", "密码错误", "wrong password"
abbrev pub fatal_keywords : List (List ℕ)
fatal_keywords =
    (112 ∷ 97 ∷ 115 ∷ 115 ∷ 119 ∷ 111 ∷ 114 ∷ 100 ∷ [])
    ∷ (0xe5 ∷ 0xaf ∷ 0x86 ∷ 0xe7 ∷ 0xa0 ∷ 0x81 ∷ 0xe9 ∷ 0x94 ∷ 0x99 ∷ 0xe8 ∷ 0xaf ∷ 0xaf ∷ [])
    ∷ (119 ∷ 114 ∷ 111 ∷ 110 ∷ 103 ∷ 32 ∷ 112 ∷ 97 ∷ 115 ∷ 115 ∷ 119 ∷ 111 ∷ 114 ∷ 100 ∷ [])
    ∷ []

-- "version", "版本不兼容", "incompatible"
abbrev pub version_keywords : List (List ℕ)
version_keywords =
    (118 ∷ 101 ∷ 114 ∷ 115 ∷ 105 ∷ 111 ∷ 110 ∷ [])
    ∷ (0xe7 ∷ 0x89 ∷ 0x88 ∷ 0xe6 ∷ 0x9c ∷ 0xac ∷ 0xe4 ∷ 0xb8 ∷ 0x8d ∷ 0xe5 ∷ 0x85 ∷ 0xbc ∷ 0xe5
        ∷ 0xae ∷ 0xb9 ∷ [])
    ∷ (105 ∷ 110 ∷ 99 ∷ 111 ∷ 109 ∷ 112 ∷ 97 ∷ 116 ∷ 105 ∷ 98 ∷ 108 ∷ 101 ∷ [])
    ∷ []

-- "room full", "房间已满"
abbrev pub full_keywords : List (List ℕ)
full_keywords =
    (114 ∷ 111 ∷ 111 ∷ 109 ∷ 32 ∷ 102 ∷ 117 ∷ 108 ∷ 108 ∷ [])
    ∷ (0xe6 ∷ 0x88 ∷ 0xbf ∷ 0xe9 ∷ 0x97 ∷ 0xb4 ∷ 0xe5 ∷ 0xb7 ∷ 0xb2 ∷ 0xe6 ∷ 0xbb ∷ 0xa1 ∷ [])
    ∷ []

-- "shutdown", "关闭"
abbrev pub shutdown_keywords : List (List ℕ)
shutdown_keywords =
    (115 ∷ 104 ∷ 117 ∷ 116 ∷ 100 ∷ 111 ∷ 119 ∷ 110 ∷ [])
    ∷ (0xe5 ∷ 0x85 ∷ 0xb3 ∷ 0xe9 ∷ 0x97 ∷ 0xad ∷ [])
    ∷ []

unfoldable pub classify_kick_message : List ℕ → DisconnectReason
classify_kick_message msg =
    if contains_any msg fatal_keywords
    then reason_wrong_password
    else if contains_any msg version_keywords
    then reason_version_mismatch
    else if contains_any msg full_keywords
    then reason_room_full
    else if contains_any msg shutdown_keywords
    then reason_server_shutdown
    else reason_unknown

unfoldable pub new_disconnect_error : KickPayload → DisconnectError
unfolding classify_kick_message
new_disconnect_error kick = record {
  reason =
      if kick.code == kick_code_wrong_password
      then reason_wrong_password
      else if kick.code == kick_code_version_mismatch
      then reason_version_mismatch
      else if kick.code == kick_code_shutdown
      then reason_server_shutdown
      else if kick.code == kick_code_none
      then classify_kick_message kick.reason
      else reason_kick_generic;
  message = kick.reason;
  code = kick.code;
}

-- The keyword occurs in the string, up to the case of ASCII letters.
abbrev pub Occurs : List ℕ → List ℕ → Type 0
Occurs keyword s =
    (front : List ℕ) × (found : List ℕ) × (back : List ℕ) × (s ≡ front ++ (found ++ back))
    × (map to_lower found ≡ map to_lower keyword)

matches_found :
    (ks s : List ℕ)
    → matches_here ks s ≡ true
    → (found : List ℕ) × (back : List ℕ) × (s ≡ found ++ back)
      × (map to_lower found ≡ map to_lower ks)
unfolding matches_here
matches_found [] s h = ([], s, refl, refl)
matches_found (k ∷ ks) [] h = cc
matches_found (k ∷ ks) (c ∷ s) h =
    let (head, tail) : (to_lower c ≡ to_lower k) × (matches_here ks s ≡ true) = ground (arith, h) in
    let (found, back, e, f) = matches_found ks s tail in
    (c ∷ found, back, ap (◌∷◌ c) e, rw (head, f) refl)

found_matches :
    (ks found back : List ℕ)
    → map to_lower found ≡ map to_lower ks
    → matches_here ks (found ++ back) ≡ true
unfolding matches_here
found_matches [] found back h = refl
found_matches (k ∷ ks) [] back h = cc
found_matches (k ∷ ks) (c ∷ found) back h =
    let head : to_lower c ≡ to_lower k = cc in
    let tail : map to_lower found ≡ map to_lower ks = cc in
    ground (arith, found_matches ks found back tail)

matches_contains :
    (keyword s : List ℕ) → matches_here keyword s ≡ true → contains_ignore_case s keyword ≡ true
unfolding contains_ignore_case
matches_contains keyword [] h = h
matches_contains keyword (c ∷ s) h = rw h refl

contains-found :
    (keyword front found back : List ℕ)
    → map to_lower found ≡ map to_lower keyword
    → contains_ignore_case (front ++ (found ++ back)) keyword ≡ true
unfolding contains_ignore_case
contains-found keyword [] found back h =
    matches_contains keyword (found ++ back) (found_matches keyword found back h)
contains-found keyword (c ∷ front) found back h =
    ground (arith, contains-found keyword front found back h)

contains-Occurs : (keyword s : List ℕ) → contains_ignore_case s keyword ≡ true → Occurs keyword s
unfolding contains_ignore_case
contains-Occurs keyword [] h =
    let (found, back, e, f) = matches_found keyword [] h in ([], found, back, e, f)
contains-Occurs keyword (c ∷ s) h = elim (Bool-cases (matches_here keyword (c ∷ s))) [
  | inl t ↦ let (found, back, e, f) = matches_found keyword (c ∷ s) t in ([], found, back, e, f)
  | inr n ↦
      let (front, found, back, e, f) = contains-Occurs keyword s (rw n at h) in
      (c ∷ front, found, back, ap (◌∷◌ c) e, f)
]

-- The search for a keyword answers true exactly when the keyword occurs in the string, up to the case
-- of ASCII letters.
pub contains_ignore_case-Occurs :
    (keyword s : List ℕ) → (contains_ignore_case s keyword ≡ true) ↔ Occurs keyword s
contains_ignore_case-Occurs keyword s = (contains-Occurs keyword s, present)
  where
    present : Occurs keyword s → contains_ignore_case s keyword ≡ true
    present (front, found, back, e, f) = rw e (contains-found keyword front found back f)

-- A kick is fatal to the client exactly if its code is that of a wrong password or of a version
-- mismatch, or if it has the code 0 and its text has one of the keywords for these two.
pub is_fatal-new_disconnect_error :
    (kick : KickPayload)
    → is_fatal (new_disconnect_error kick)
      ≡ (kick.code == kick_code_wrong_password)
        || ((kick.code == kick_code_version_mismatch)
            || ((kick.code == kick_code_none)
                && (contains_any kick.reason fatal_keywords
                    || contains_any kick.reason version_keywords)))
unfolding is_fatal new_disconnect_error classify_kick_message
is_fatal-new_disconnect_error kick = ground arith
