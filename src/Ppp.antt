-- ===== src/Ppp.antt =====
-- PPP frames between the ISDN line and pppd: src/ppp/pppd.c, less the start of the process.
pub mod Apart
pub mod Escape
pub mod Examples
pub mod Table
pub mod Crc
pub mod Stream
pub mod Read
pub mod Transfer
pub mod Limits
use ras.Base.{
  ℕ, zero, suc, ◌+◌, ◌-◌, ◌/◌, ◌%◌, bit_and, bit_xor, Bool, true, false, not, ◌&&◌, ◌||◌, List, [],
  ◌∷◌, ◌++◌, ◌==◌, ltb, leb, if◌then◌else◌, length, get_or, drop, take,
}
use ras.Ppp.Table.{ppp_crc16_table}

abbrev pub ppp_flag : ℕ
ppp_flag = 0x7e

abbrev pub ppp_escape : ℕ
ppp_escape = 0x7d

abbrev pub ppp_trans : ℕ
ppp_trans = 0x20

abbrev pub ppp_initfcs : ℕ
ppp_initfcs = 0xffff

-- The octets of `pppd_tx_buf` and of `temp_pack_buf`.
abbrev pub max_mtu : ℕ
max_mtu = 2048

abbrev pub temp_pack_size : ℕ
temp_pack_size = 2048

-- PPP_FCS
unfoldable pub ppp_fcs : ℕ → ℕ → ℕ
ppp_fcs fcs c = bit_xor (fcs / 256) (get_or ppp_crc16_table (bit_and (bit_xor fcs c) 0xff) 0)

-- The loop over the octets.
unfoldable pub fcs_loop : ℕ → List ℕ → ℕ
fcs_loop fcs [] = fcs
fcs_loop fcs (c ∷ cs) = fcs_loop (ppp_fcs fcs c) cs

unfoldable pub rfc1662_checksum : List ℕ → ℕ
rfc1662_checksum buf = bit_xor (fcs_loop ppp_initfcs buf) 0xFFFF

-- The octets written for one.
unfoldable pub encode_octet : ℕ → List ℕ
encode_octet e =
    if ltb e 0x20 || e == ppp_escape || e == ppp_flag
    then ppp_escape ∷ bit_xor e 0x20 ∷ []
    else e ∷ []

unfoldable pub encode_octets : List ℕ → List ℕ
encode_octets [] = []
encode_octets (e ∷ es) = encode_octet e ++ encode_octets es

-- The two octets of the checksum.
abbrev pub fcs_octets : ℕ → List ℕ
fcs_octets fcs = bit_and fcs 0xFF ∷ bit_and (fcs / 256) 0xFF ∷ []

-- All that is written into `hdlc_out`; its length is the result.
unfoldable pub rfc1662_encode : List ℕ → List ℕ
rfc1662_encode raw_in =
    ppp_flag ∷ (encode_octets (raw_in ++ fcs_octets (rfc1662_checksum raw_in)) ++ (ppp_flag ∷ []))

-- `struct rfc1662_vars`, with the first `deframed_bytes` octets of `dst`: the calls hand over the
-- same buffer each time.
pub record Rfc1662 : Type 0 where
  pub deframed : List ℕ
  pub escape : ℕ

-- What one octet leads to: the next octet, a return of the length of the packet in the buffer, or
-- a return of `-EINVAL`.
pub data Action : Type 0 where
  go_on : Rfc1662 → Action
  packet : List ℕ → Rfc1662 → Action
  too_many : Rfc1662 → Action

-- `ppp_rfc1662_state` at first, and after each packet.
abbrev pub between_packets : Rfc1662
between_packets = record { deframed = []; escape = 0 }

-- The octets less the last two.
abbrev pub drop_fcs : List ℕ → List ℕ
drop_fcs xs = take (length xs - 2) xs

unfoldable pub take_flag : Rfc1662 → Action
take_flag s =
    if not (s.escape == 0)
    then go_on s
    else if leb 2 (length s.deframed)
    then packet (drop_fcs s.deframed) between_packets
    else if length s.deframed == 1
    then go_on (record s { deframed = [] })
    else go_on s

unfoldable pub take_octet : ℕ → ℕ → Rfc1662 → Action
unfolding take_flag
take_octet dsize ch s =
    if ch == ppp_flag
    then take_flag s
    else if ch == ppp_escape
    then go_on (record s { escape = ppp_trans })
    else if ltb (length s.deframed) dsize
    then go_on (record { deframed = s.deframed ++ (bit_xor ch s.escape ∷ []); escape = 0 })
    else too_many (record s { escape = 0 })

-- What a call returns: 0 or the length of the packet, which the buffer holds, or `-EINVAL`; `*count`;
-- and the state.
pub data Returned : Type 0 where
  nothing : Returned
  frame : List ℕ → Returned
  einval : Returned

-- The loop from the octet number `i` on, with `count` as it is.
unfoldable pub decode_loop : ℕ → ℕ → ℕ → List ℕ → Rfc1662 → Returned × ℕ × Rfc1662
decode_loop dsize i count [] s = (nothing, count, s)
decode_loop dsize i count (ch ∷ src) s = elim (take_octet dsize ch s) [
  | go_on s' ↦ decode_loop dsize (i + 1) i src s'
  | packet p s' ↦ (frame p, i, s')
  | too_many s' ↦ (einval, i, s')
]

unfoldable pub rfc1662_decode : ℕ → List ℕ → ℕ → Rfc1662 → Returned × ℕ × Rfc1662
rfc1662_decode dsize src count s = decode_loop dsize 0 count src s

-- The packets queued for the line, and the state of the decoder. `stuck` is a loop out of rounds.
pub data Input : Type 0 where
  done : List (List ℕ) → Rfc1662 → Input
  stuck : List (List ℕ) → Rfc1662 → Input

abbrev pub queue_packet : Returned → List (List ℕ) → List (List ℕ)
queue_packet (frame p) queued = if length p == 0 then queued else queued ++ (p ∷ [])
queue_packet nothing queued = queued
queue_packet einval queued = queued

-- `while (bytes_read != len - 1)`, with the octets from `bytes_read` on.
unfoldable pub input_loop : ℕ → List ℕ → List (List ℕ) → Rfc1662 → Input
input_loop zero rest queued s = stuck queued s
input_loop (suc fuel) rest queued s = elim (length rest == 1) [
  | true ↦ done queued s
  | false ↦
      let (rv, count, s') = rfc1662_decode temp_pack_size rest 0 s in
      input_loop fuel (drop count rest) (queue_packet rv queued) s'
]
