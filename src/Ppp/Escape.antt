-- ===== src/Ppp/Escape.antt =====
-- A packet that is encoded, octet by octet through the decoder (src/ppp/pppd.c).
use ras.Base.{
  ℕ, ◌+◌, ◌-◌, ◌/◌, ◌≤◌, ◌<◌, bit_and, bit_xor, ◌≡◌, ◌≢◌, refl, sym, ap, ◌∙◌, Bool, true, false,
  not, ◌&&◌, ◌||◌, List, [], ◌∷◌, ◌++◌, append-nil, append_assoc, Option, none, ◌==◌, ltb,
  if◌then◌else◌, length, length-append, take-append, take, Octets, Octets-append, arith,
}
use ras.Base.Bits.{bit_xor-zero, bit_and_byte}
use ras.Base.Table.{checked, checked_at}
use ras.Ppp.{
  ppp_flag, ppp_escape, ppp_trans, temp_pack_size, Rfc1662, Action, go_on, packet, too_many,
  between_packets, drop_fcs, take_flag, take_octet, frame, queue_packet, encode_octet,
  encode_octets, fcs_octets, rfc1662_encode, rfc1662_checksum,
}
use ras.Ppp.Stream.{stream}

unfoldable pub after_action : Action → List ℕ → List (List ℕ) → Option (List (List ℕ) × Rfc1662)
after_action a chs queued = elim a [
  | go_on s' ↦ stream chs queued s'
  | packet p s' ↦ stream chs (queue_packet (frame p) queued) s'
  | too_many s' ↦ none
]

stream_next :
    (ch : ℕ) (chs : List ℕ) (queued : List (List ℕ)) (s : Rfc1662) (a : Action)
    → take_octet temp_pack_size ch s ≡ a
    → stream (ch ∷ chs) queued s ≡ after_action a chs queued
unfolding stream after_action
stream_next ch chs queued s a e = ap (λ b. after_action b chs queued) e

stream_goes_on :
    (ch : ℕ) (chs : List ℕ) (queued : List (List ℕ)) (s s' : Rfc1662)
    → take_octet temp_pack_size ch s ≡ go_on s'
    → stream (ch ∷ chs) queued s ≡ stream chs queued s'
unfolding after_action
stream_goes_on ch chs queued s s' e = stream_next ch chs queued s (go_on s') e

take_plain :
    (ch escape : ℕ) (deframed : List ℕ)
    → ch ≢ ppp_flag
    → ch ≢ ppp_escape
    → length deframed < temp_pack_size
    → take_octet temp_pack_size ch (record { deframed = deframed; escape = escape })
      ≡ go_on (record { deframed = deframed ++ (bit_xor ch escape ∷ []); escape = 0 })
unfolding take_octet
take_plain ch escape deframed h k l = ground arith

-- The octets that are written behind an escape.
abbrev escaped : ℕ → Bool
escaped e = ltb e 0x20 || e == ppp_escape || e == ppp_flag

escape_right :
    checked 256 (λ e.
      not (escaped e)
      || bit_xor (bit_xor e 0x20) 0x20 == e
        && not (bit_xor e 0x20 == ppp_flag)
        && not (bit_xor e 0x20 == ppp_escape))
    ≡ true
unfolding checked
escape_right = refl

escape_undone :
    (e : ℕ)
    → e < 256
    → escaped e ≡ true
    → (bit_xor (bit_xor e 0x20) 0x20 ≡ e)
      × (bit_xor e 0x20 ≢ ppp_flag)
      × (bit_xor e 0x20 ≢ ppp_escape)
escape_undone e h k =
    by_test (bit_xor (bit_xor e 0x20) 0x20) (bit_xor e 0x20) (checked_at 256 _ e escape_right h)
  where
    by_test :
        (back sent : ℕ)
        → (not (escaped e) || back == e && not (sent == ppp_flag) && not (sent == ppp_escape))
          ≡ true
        → (back ≡ e) × (sent ≢ ppp_flag) × (sent ≢ ppp_escape)
    by_test back sent r = ground arith

stream-encode_octet :
    (e : ℕ) (more : List ℕ) (queued : List (List ℕ)) (deframed : List ℕ)
    → e < 256
    → length deframed < temp_pack_size
    → stream (encode_octet e ++ more) queued (record { deframed = deframed; escape = 0 })
      ≡ stream more queued (record { deframed = deframed ++ (e ∷ []); escape = 0 })
unfolding encode_octet take_octet
stream-encode_octet e more queued deframed h l = by_test (escaped e) refl
  where
    by_test :
        (b : Bool)
        → escaped e ≡ b
        → stream
            ((if b then ppp_escape ∷ bit_xor e 0x20 ∷ [] else e ∷ []) ++ more)
            queued
            (record { deframed = deframed; escape = 0 })
          ≡ stream more queued (record { deframed = deframed ++ (e ∷ []); escape = 0 })
    by_test true r =
        let (back, no_flag, no_escape) = escape_undone e h r in
        stream_goes_on ppp_escape (bit_xor e 0x20 ∷ more) queued _
          (record { deframed = deframed; escape = ppp_trans }) refl
        ∙ (stream_goes_on (bit_xor e 0x20) more queued _ _
              (take_plain (bit_xor e 0x20) ppp_trans deframed no_flag no_escape l)
            ∙ ap (λ t. stream more queued (record { deframed = deframed ++ (t ∷ []); escape = 0 }))
                back)
    by_test false r =
        stream_goes_on e more queued _ _
          (take_plain e 0 deframed (λ q. ground arith) (λ q. ground arith) l)
        ∙ ap (λ t. stream more queued (record { deframed = deframed ++ (t ∷ []); escape = 0 }))
            (bit_xor-zero e)

stream-encode_octets :
    (es more : List ℕ) (queued : List (List ℕ)) (deframed : List ℕ)
    → Octets es
    → length deframed + length es ≤ temp_pack_size
    → stream (encode_octets es ++ more) queued (record { deframed = deframed; escape = 0 })
      ≡ stream more queued (record { deframed = deframed ++ es; escape = 0 })
unfolding encode_octets
stream-encode_octets [] more queued deframed h l =
    ap (λ t. stream more queued (record { deframed = t; escape = 0 })) (sym (append-nil deframed))
stream-encode_octets (e ∷ es) more queued deframed h l =
    ap (λ t. stream t queued (record { deframed = deframed; escape = 0 }))
      (append_assoc (encode_octet e) (encode_octets es) more)
    ∙ (stream-encode_octet e (encode_octets es ++ more) queued deframed h.0 (omega arith)
        ∙ (stream-encode_octets es more queued (deframed ++ (e ∷ [])) h.1
              (omega (arith, length-append deframed (e ∷ [])))
            ∙ ap (λ t. stream more queued (record { deframed = t; escape = 0 }))
                (append_assoc deframed (e ∷ []) es)))

fcs_octets-Octets : (fcs : ℕ) → Octets (fcs_octets fcs)
fcs_octets-Octets fcs =
    (omega (arith, bit_and_byte fcs), (omega (arith, bit_and_byte (fcs / 256)), tt))

drop_fcs-append : (p : List ℕ) (a b : ℕ) → drop_fcs (p ++ (a ∷ b ∷ [])) ≡ p
drop_fcs-append p a b =
    let short : length (p ++ (a ∷ b ∷ [])) - 2 ≡ length p =
      omega (arith, length-append p (a ∷ b ∷ [])) in
    ap (λ n. take n (p ++ (a ∷ b ∷ []))) short ∙ take-append p (a ∷ b ∷ [])

take_end :
    (deframed : List ℕ)
    → 2 ≤ length deframed
    → take_octet temp_pack_size ppp_flag (record { deframed = deframed; escape = 0 })
      ≡ packet (drop_fcs deframed) between_packets
unfolding take_octet take_flag
take_end deframed h = ground arith

at_end :
    (more : List ℕ) (queued : List (List ℕ)) (p : List ℕ) (a b : ℕ)
    → stream (ppp_flag ∷ more) queued (record { deframed = p ++ (a ∷ b ∷ []); escape = 0 })
      ≡ stream more (queue_packet (frame p) queued) between_packets
unfolding after_action
at_end more queued p a b =
    let body = p ++ (a ∷ b ∷ []) in
    stream_next ppp_flag more queued _ _
      (take_end body (omega (arith, length-append p (a ∷ b ∷ []))))
    ∙ ap (λ t. stream more (queue_packet (frame t) queued) between_packets) (drop_fcs-append p a b)

pub stream-rfc1662_encode :
    (p more : List ℕ) (queued : List (List ℕ))
    → Octets p
    → length p + 2 ≤ temp_pack_size
    → stream (rfc1662_encode p ++ more) queued between_packets
      ≡ stream more (queue_packet (frame p) queued) between_packets
unfolding rfc1662_encode stream take_octet take_flag
stream-rfc1662_encode p more queued h l =
    let fcs = rfc1662_checksum p in
    let body = p ++ fcs_octets fcs in
    ap (λ t. stream t queued between_packets)
      (ap (λ t. ppp_flag ∷ t) (append_assoc (encode_octets body) (ppp_flag ∷ []) more))
    ∙ (opening (encode_octets body ++ (ppp_flag ∷ more))
        ∙ (stream-encode_octets body (ppp_flag ∷ more) queued []
              (Octets-append p (fcs_octets fcs) h (fcs_octets-Octets fcs))
              (omega (arith, length-append p (fcs_octets fcs)))
            ∙ at_end more queued p (bit_and fcs 0xFF) (bit_and (fcs / 256) 0xFF)))
  where
    opening :
        (rest : List ℕ)
        → stream (ppp_flag ∷ rest) queued between_packets ≡ stream rest queued between_packets
    opening rest = refl
