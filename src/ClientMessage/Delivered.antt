-- ===== src/ClientMessage/Delivered.antt =====
-- qr2/message.go: what SendClientMessage lets through.
use wfc_server.Prelude.{
  ℕ, ◌+◌, ◌*◌, ◌/◌, ◌%◌, [], ◌∷◌, if◌then◌else◌, refl, sym, ◌≤◌, ◌≡◌, ap, ◌∙◌, ◌⊎◌, inl, inr, Bool,
  true, false, not, ◌&&◌, ◌||◌, Option, none, some, List, ◌++◌, ltb, leb, ◌==◌, length, take, drop,
  length-append, leb→le, returns, Bool-cases, Option-cases, Outcome-cases, arith,
}
use wfc_server.Prelude.Lists.{length-take}
use wfc_server.Prelude.Words.{Bytes, put_be32}
use wfc_server.Prelude.NatMap.{lookup}
use wfc_server.Prelude.Text.{codes, text_eq, text_eq_iff, itoa}
use wfc_server.IpAddress.{host_of}
use wfc_server.MatchCommand.{MatchCommandData}
use wfc_server.MatchCommand.Decode.{decode_match_command}
use wfc_server.MatchCommand.Encode.{encode_match_command}
use wfc_server.Qr2.{State, data_of}
use wfc_server.Qr2.Profile.{set_profile_id}
use wfc_server.ClientMessage.{
  Relay, Delivery, Checked, find_receiver, has_device, is_reachable, is_natneg, is_match,
}
use wfc_server.ClientMessage.Checks.{
  Header, check_command, search_addr, new_header, reencode, read_header, check_match, check_header,
  check_message,
}
use wfc_server.ClientMessage.Owned.{IsOwned, check_command-IsOwned}
use wfc_server.ClientMessage.Process.{
  payload_of, process_client_message, deliver, send_client_message,
}

length-search_addr : (search_id : ℕ) (message : Bytes) → length (search_addr search_id message) ≤ 10
unfolding search_addr put_be32
length-search_addr search_id message = omega (arith, length-take 4 (drop 0x10 message))

length-new_header :
    (b : Bool) (search_id : ℕ) (message : Bytes) → length (new_header b search_id message) ≤ 0x14
unfolding new_header
length-new_header true search_id message = omega (
  arith,
  length-append (take 0x0A message) (search_addr search_id message),
  length-search_addr search_id message,
  length-take 0x0A message,
)
length-new_header false search_id message = omega (arith, length-take 0x14 message)

cons : {x y : ℕ} {xs ys : Bytes} → x ≡ y → xs ≡ ys → x ∷ xs ≡ y ∷ ys
cons e f = rw (e, f) refl

-- The header of the command that goes out: the one of the message, or, for a receiver that is named
-- by its search ID, the one of the message with the sender's search ID in the place of the address:
-- its third 16 bits, low byte first, and its lower 32 bits, big endian.
abbrev pub header_of : Bool → ℕ → Bytes → Bytes
header_of by_id id message =
    if by_id
    then take 0x0A message
      ++ (id / 0x100000000 % 0x100)
        ∷ (id / 0x10000000000 % 0x100)
        ∷ (id / 0x1000000 % 0x100)
        ∷ (id / 0x10000 % 0x100)
        ∷ (id / 0x100 % 0x100)
        ∷ (id % 0x100)
        ∷ take 4 (drop 0x10 message)
    else take 0x14 message

new_header-header_of :
    (b : Bool) (id : ℕ) (message : Bytes) → new_header b id message ≡ header_of b id message
unfolding new_header search_addr put_be32
new_header-header_of false id message = refl
new_header-header_of true id message =
    ap (λ tail. take 0x0A message ++ tail)
      (cons (refl) (
        cons refl
          (cons (omega arith) (cons (omega arith) (cons (omega arith) (cons (omega arith) refl))))))

-- The bytes that go out for a match command: its data is decoded, passes the checks of its command,
-- and is encoded again, in at most 0x80 bytes, behind the header.
abbrev pub IsReencoded : Bool → ℕ → ℕ → Header → Bytes → State → Bytes → Type 0
IsReencoded by_id sender receiver h message s bytes =
    (d : MatchCommandData) × (d' : MatchCommandData) × (body : Bytes) × (decode_match_command
        h.command (drop 0x14 message) h.version
      ≡ returns (some d))
    × (check_command by_id h.command h.version h.ip h.port h.profile_id sender receiver s d
        ≡ returns (some d'))
    × IsOwned h sender receiver s d
    × (encode_match_command h.command d' ≡ returns (some body))
    × (length body ≤ 0x80)
    × (bytes ≡ header_of by_id (s.session_at sender).search_id message ++ body)

-- The version of a match command.
abbrev pub IsVersion : ℕ → Type 0
IsVersion version = (version ≡ 3) ⊎ (version ≡ 11) ⊎ (version ≡ 90)

-- What holds of a match command that is let through, and of the bytes that go out for it.
abbrev pub IsFrom : Bool → ℕ → Bytes → Bytes → State → Bytes → Type 0
IsFrom by_id receiver sender_ip message s bytes =
    (h : Header) × (sender : ℕ) × (s' : State) × (read_header message ≡ returns h)
    × IsVersion h.version
    × (h.size + 0x14 ≡ length message)
    × (lookup (h.port * 0x100000000 + h.ip) s.sessions ≡ some sender)
    × ((s.session_at sender).authenticated ≡ true)
    × (set_profile_id sender (itoa h.profile_id) (host_of sender_ip) s ≡ returns (true, s'))
    × (has_device sender s' ≡ true)
    × (data_of s' sender (codes "gamename") ≡ data_of s' receiver (codes "gamename"))
    × IsReencoded by_id sender receiver h message s' bytes

-- The first four bytes of a match command.
abbrev pub IsMagic : Bytes → Type 0
IsMagic message =
    (take 4 message ≡ 0xBB ∷ 0x49 ∷ 0xCC ∷ 0x4D ∷ []) ⊎ (take 4 message ≡ codes "SBCM")

length-header_of : (b : Bool) (id : ℕ) (message : Bytes) → length (header_of b id message) ≤ 0x14
length-header_of b id message =
    rw (sym (new_header-header_of b id message)) (length-new_header b id message)

IsReencoded-length :
    (b : Bool) (sender receiver : ℕ) (h : Header) (message : Bytes) (s : State) (bytes : Bytes)
    → IsReencoded b sender receiver h message s bytes
    → length bytes ≤ 0x94
IsReencoded-length b sender receiver h message s bytes (d, d', body, e, f, own, g, small, whole) =
    let header = header_of b (s.session_at sender).search_id message in
    rw whole (
      omega (
        arith,
        length-append header body,
        length-header_of b (s.session_at sender).search_id message,
        small,
      ))

IsFrom-length :
    (b : Bool) (receiver : ℕ) (sender_ip message : Bytes) (s : State) (bytes : Bytes)
    → IsFrom b receiver sender_ip message s bytes
    → length bytes ≤ 0x94
IsFrom-length b receiver sender_ip message s bytes
      (h, sender, s', e, version, size, found, member, valid, device, game, out) =
    IsReencoded-length b sender receiver h message s' bytes out

reencode-body :
    (b : Bool) (command sender : ℕ) (s : State) (message : Bytes)
    (checked : Option MatchCommandData) (c : Checked)
    → reencode b command sender s message checked ≡ returns (some c)
    → (d : MatchCommandData) × (body : Bytes) × (checked ≡ some d)
      × (encode_match_command command d ≡ returns (some body))
      × (length body ≤ 0x80)
      × (c.bytes ≡ header_of b (s.session_at sender).search_id message ++ body)
unfolding reencode
reencode-body b command sender s message none c h = ground arith
reencode-body b command sender s message (some d) c h =
    elim (Outcome-cases (encode_match_command command d)) [
      | inl stuck ↦ ground arith
      | inr (encoded, e) ↦ elim (Option-cases encoded) [
        | inl refused ↦ ground arith
        | inr (body, f) ↦ elim (Bool-cases (leb (length body) 0x80)) [
          | inl small ↦
              let id = (s.session_at sender).search_id in
              let whole : c.bytes ≡ new_header b id message ++ body = ground arith in
              (
                d,
                body,
                refl,
                e ∙ ap returns f,
                leb→le (length body) 0x80 small,
                whole ∙ ap (λ header. header ++ body) (new_header-header_of b id message),
              )
          | inr large ↦ ground arith
        ]
      ]
    ]

check_match-IsReencoded :
    (b : Bool) (sender receiver : ℕ) (h : Header) (message : Bytes) (s : State) (c : Checked)
    → check_match b sender receiver h message s ≡ returns (some c)
    → (has_device sender s ≡ true)
      × (text_eq (data_of s sender (codes "gamename")) (data_of s receiver (codes "gamename"))
          ≡ true)
      × IsReencoded b sender receiver h message s c.bytes
unfolding check_match
check_match-IsReencoded b sender receiver h message s c e =
    let decoding = Outcome-cases (decode_match_command h.command (drop 0x14 message) h.version) in
    elim (Bool-cases (has_device sender s)) [
      | inr absent ↦ ground arith
      | inl device ↦
          elim (Bool-cases (
            text_eq (data_of s sender (codes "gamename"))
              (data_of s receiver (codes "gamename")))) [
                | inr other ↦ ground arith
                | inl game ↦ elim decoding [
                  | inl stuck ↦ ground arith
                  | inr (decoded, f) ↦ elim (Option-cases decoded) [
                    | inl refused ↦ ground arith
                    | inr (d, g) ↦
                        elim (Outcome-cases (
                          check_command b h.command h.version h.ip h.port h.profile_id sender
                            receiver s d)) [
                              | inl stuck ↦ ground arith
                              | inr (checked, k) ↦
                                  let last : reencode b h.command sender s message checked
                                      ≡ returns (some c) =
                                    ground arith in
                                  let (d', body, passed, encoded, small, whole) =
                                    reencode-body b h.command sender s message checked c last in
                                  (
                                    device,
                                    game,
                                    (
                                      d,
                                      d',
                                      body,
                                      f ∙ ap returns g,
                                      k ∙ ap returns passed,
                                      check_command-IsOwned b sender receiver s h d d'
                                          (k ∙ ap returns passed),
                                      encoded,
                                      small,
                                      whole,
                                    ),
                                  )
                            ]
                  ]
                ]
              ]
    ]

check_header-IsFrom :
    (b : Bool) (sender_ip : Bytes) (receiver : ℕ) (h : Header) (message : Bytes) (s s' : State)
    (c : Checked)
    → read_header message ≡ returns h
    → check_header b sender_ip receiver h message s ≡ returns (some c, s')
    → IsFrom b receiver sender_ip message s c.bytes
unfolding check_header
check_header-IsFrom b sender_ip receiver h message s s' c e k =
    let known =
      Bool-cases (not (h.version == 3) && not (h.version == 11) && not (h.version == 90)) in
    let fits = Bool-cases (h.size + 0x14 == length message) in
    elim (Option-cases (lookup (h.port * 0x100000000 + h.ip) s.sessions)) [
      | inl gone ↦ ground (arith, known, fits)
      | inr (sender, found) ↦ elim (Bool-cases (s.session_at sender).authenticated) [
        | inr guest ↦ ground (arith, known, fits)
        | inl member ↦
            elim (Outcome-cases (set_profile_id sender (itoa h.profile_id) (host_of sender_ip) s)) [
              | inl stuck ↦ ground (arith, known, fits)
              | inr ((valid, s₁), f) ↦ elim (Bool-cases valid) [
                | inr refused ↦ ground (arith, known, fits)
                | inl accepted ↦ elim (Outcome-cases (check_match b sender receiver h message s₁)) [
                  | inl stuck ↦ ground (arith, known, fits)
                  | inr (checked, g) ↦
                      let last : check_match b sender receiver h message s₁ ≡ returns (some c) =
                        ground (arith, known, fits) in
                      let (device, game, bytes) =
                        check_match-IsReencoded b sender receiver h message s₁ c last in
                      (
                        h,
                        sender,
                        s₁,
                        e,
                        ground (arith, known, fits),
                        ground (arith, known, fits),
                        found,
                        member,
                        ground (arith, known, fits),
                        device,
                        (text_eq_iff _ _).0 game,
                        bytes,
                      )
                ]
              ]
            ]
      ]
    ]

-- A NATNEG cookie: ten bytes, of which the first two are the magic number.
abbrev pub IsCookie : Bytes → Type 0
IsCookie message = (length message ≡ 0x0A) × (take 2 message ≡ 0xFD ∷ 0xFC ∷ [])

-- What holds of a message that passes the checks.
abbrev IsPassed : Bool → ℕ → Bytes → Bytes → State → Option Checked → Type 0
IsPassed b receiver sender_ip message s c =
    ((c ≡ none) × IsCookie message)
    ⊎ ((m : Checked) × (c ≡ some m)
        × IsMagic message
        × IsFrom b receiver sender_ip message s m.bytes)

check_message-IsPassed :
    (b : Bool) (sender_ip : Bytes) (receiver : ℕ) (message : Bytes) (s s' : State)
    (c : Option Checked)
    → check_message b sender_ip receiver message s ≡ returns (some c, s')
    → IsPassed b receiver sender_ip message s c
unfolding check_message is_natneg is_match
check_message-IsPassed b sender_ip receiver message s s' c e =
    let magic = text_eq_iff (take 4 message) (0xBB ∷ 0x49 ∷ 0xCC ∷ 0x4D ∷ []) in
    let magic' = text_eq_iff (take 4 message) (codes "SBCM") in
    let known = Bool-cases (
      text_eq (take 4 message) (0xBB ∷ 0x49 ∷ 0xCC ∷ 0x4D ∷ [])
      || text_eq (take 4 message) (codes "SBCM")) in
    let fits = Bool-cases (ltb (length message) 0x14 || ltb 0x94 (length message)) in
    elim (Bool-cases (text_eq (take 2 message) (0xFD ∷ 0xFC ∷ []))) [
      | inl cookie ↦ inl (
        ground (arith, Bool-cases (length message == 0x0A)),
        (
          ground (arith, Bool-cases (length message == 0x0A)),
          (text_eq_iff (take 2 message) (0xFD ∷ 0xFC ∷ [])).0 cookie,
        ),
      )
      | inr other ↦ elim (Outcome-cases (read_header message)) [
        | inl stuck ↦ ground (arith, known, fits)
        | inr (h, f) ↦ elim (Outcome-cases (check_header b sender_ip receiver h message s)) [
          | inl stuck ↦ ground (arith, known, fits)
          | inr ((checked, s₁), g) ↦ elim (Option-cases checked) [
            | inl refused ↦ ground (arith, known, fits)
            | inr (m, k) ↦
                let last : check_header b sender_ip receiver h message s ≡ returns (some m, s₁) =
                  ground (arith, g, k) in
                inr (
                  m,
                  ground (arith, known, fits),
                  ground (arith, known, fits, magic, magic'),
                  check_header-IsFrom b sender_ip receiver h message s s₁ m f last,
                )
          ]
        ]
      ]
    ]

payload-IsPassed :
    (b : Bool) (receiver : ℕ) (sender_ip message : Bytes) (s : State) (d : Delivery)
    (c : Option Checked)
    → d.receiver ≡ receiver
    → d.payload ≡ payload_of message c
    → IsPassed b receiver sender_ip message s c
    → ((d.payload ≡ message) × IsCookie message)
      ⊎ (IsMagic message
          × (length d.payload ≤ 0x94)
          × IsFrom b d.receiver sender_ip message s d.payload)
payload-IsPassed b receiver sender_ip message s d c at sent (inl (cookie, ten)) =
    inl (sent ∙ ap (payload_of message) cookie, ten)
payload-IsPassed b receiver sender_ip message s d c at sent (inr (m, command, magic, from)) =
    let whole : d.payload ≡ m.bytes = sent ∙ ap (payload_of message) command in
    let small = IsFrom-length b receiver sender_ip message s m.bytes from in
    inr (magic, rw whole small, rw (at, whole) from)

-- When SendClientMessage delivers something: the session under the search ID or the address is
-- authenticated, has a profile ID, and its login is device-authenticated; and what goes out to it is
-- either the message itself, where that is ten bytes that begin with FD FC, or the following. The
-- message begins with BB 49 CC 4D or SBCM, its header has version 3, 11 or 90 and the size of the
-- rest, and names an authenticated session that setProfileID accepts for the profile ID of the
-- header and the sender's IP, that is device-authenticated then, and that plays the same game; the
-- rest is decoded, passes the checks of its command, so that a public address in it is the one of the
-- header, and is encoded again in at most 0x80 bytes; and what goes out is these behind the header,
-- in which the sender's search ID stands for the address where the receiver is named by a search ID.
pub send_client_message-IsFrom :
    (draws : List Bytes) (sender_ip : Bytes) (dest : ℕ) (message : Bytes) (t t' : Relay)
    (d : Delivery)
    → send_client_message draws sender_ip dest message t ≡ returns (some (some d, t'))
    → (find_receiver dest t.qr2 ≡ some d.receiver)
      × (is_reachable d.receiver t.qr2 ≡ true)
      × (((d.payload ≡ message) × IsCookie message)
          ⊎ (IsMagic message
              × (length d.payload ≤ 0x94)
              × IsFrom (ltb dest 0x1000000) d.receiver sender_ip message t.qr2 d.payload))
unfolding send_client_message deliver
send_client_message-IsFrom draws sender_ip dest message t t' d e =
    elim (Option-cases (find_receiver dest t.qr2)) [
      | inl gone ↦ ground arith
      | inr (receiver, found) ↦ elim (Bool-cases (is_reachable receiver t.qr2)) [
        | inr away ↦ ground arith
        | inl here ↦
            elim (Outcome-cases
              (check_message (ltb dest 0x1000000) sender_ip receiver message t.qr2)) [
                | inl stuck ↦ ground arith
                | inr ((checked, s), f) ↦ elim (Option-cases checked) [
                  | inl refused ↦ ground arith
                  | inr (c, g) ↦
                      elim (Outcome-cases
                        (process_client_message draws receiver c (record t { qr2 = s }))) [
                          | inl stuck ↦ ground arith
                          | inr (after, k) ↦ elim (Option-cases after) [
                            | inl out ↦ ground arith
                            | inr (t'', l) ↦
                                elim (Option-cases (t''.qr2.session_at receiver).login) [
                                  | inl lost ↦ ground arith
                                  | inr (login, m) ↦
                                      let at : d.receiver ≡ receiver = ground arith in
                                      let sent : d.payload ≡ payload_of message c = ground arith in
                                      let passed =
                                        check_message-IsPassed (ltb dest 0x1000000) sender_ip
                                          receiver message t.qr2 s c
                                          (f ∙ ap (λ x. returns (x, s)) g) in
                                      (
                                        ground arith,
                                        rw at here,
                                        payload-IsPassed (ltb dest 0x1000000) receiver sender_ip
                                            message t.qr2 d c at sent passed,
                                      )
                                ]
                          ]
                        ]
                ]
              ]
      ]
    ]
