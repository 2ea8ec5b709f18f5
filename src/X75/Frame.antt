-- ===== src/X75/Frame.antt =====
-- Parsing and building the address and control octets (src/x75/x75_subr.c, src/x75/x75_out.c).
use ras.Base.{ℕ, ◌-◌, ◌*◌, ◌/◌, ◌%◌, ◌^◌, bit_or, Bool, Option, none, some}
use ras.Base.{List, [], ◌∷◌, ◌==◌, ltb, if◌then◌else◌, u8, get_or}
use ras.Osmo.{Osmo, Msgb}
use ras.X75.Types.{Mode, Kind, command, response, info, illegal, frame_type, Frame}

-- `(x >> at) & 1`, as a test
abbrev pub bit : ℕ → ℕ → Bool
bit x at = x / 2 ^ at % 2 == 1

-- X75_ADDR_A to X75_ADDR_D
abbrev pub addr_a : ℕ
addr_a = 0x03

abbrev pub addr_b : ℕ
addr_b = 0x01

abbrev pub addr_c : ℕ
addr_c = 0x0F

abbrev pub addr_d : ℕ
addr_d = 0x07

-- The addresses that a station takes for a command and for a response.
unfoldable pub command_rx : Mode → ℕ
command_rx m =
    if m.mlp then (if m.dce then addr_d else addr_c) else (if m.dce then addr_b else addr_a)

unfoldable pub response_rx : Mode → ℕ
response_rx m =
    if m.mlp then (if m.dce then addr_c else addr_d) else (if m.dce then addr_a else addr_b)

-- `frame->cr` after the address octet `a`; it is left as it was where `a` is neither.
unfoldable pub decode_cr : Mode → ℕ → Option Kind → Option Kind
unfolding command_rx response_rx
decode_cr m a before =
    let after = if a == command_rx m then some command else before in
    if a == response_rx m then some response else after

-- The address octet that `x75_transmit_buffer` writes.
unfoldable pub address_tx : Mode → Kind → ℕ
address_tx m command =
    if m.mlp then (if m.dce then addr_c else addr_d) else (if m.dce then addr_a else addr_b)
address_tx m response =
    if m.mlp then (if m.dce then addr_d else addr_c) else (if m.dce then addr_b else addr_a)

-- `x & ~X75_SPF` of an octet
abbrev pub without_spf : ℕ → ℕ
without_spf x = x - 16 * (x / 16 % 2)

-- The control octets of the extended format, from the octet `d0` on; `none` is `-1`.
unfoldable pub decode_extended : ⦃o : Osmo⦄ → Msgb → Frame → Option (Frame × Msgb)
decode_extended ⦃o⦄ skb f =
    let d0 = get_or skb 0 0 in
    let d1 = get_or skb 1 0 in
    if d0 % 2 == 0
    then (if ltb (o.msgb_headlen skb) 2
        then none
        else some (
          record f {
            type = info;
            ns = d0 / 2 % 128;
            nr = d1 / 2 % 128;
            pf = bit d1 0;
            control0 = d0;
            control1 = d1;
          },
          o.msgb_pull skb 2,
        ))
    else if d0 % 4 == 1
    then (if ltb (o.msgb_headlen skb) 2
        then none
        else some (
          record f {
            type = frame_type (d0 % 16);
            nr = d1 / 2 % 128;
            pf = bit d1 0;
            control0 = d0;
            control1 = d1;
          },
          o.msgb_pull skb 2,
        ))
    else if d0 % 4 == 3
    then some (
      record f { type = frame_type (without_spf d0); pf = bit d0 4; control0 = d0; control1 = 0 },
      o.msgb_pull skb 1,
    )
    else some (f, skb)

-- The control octet `d0` of the standard format.
unfoldable pub decode_standard : ℕ → Frame → Frame
decode_standard d0 f =
    if d0 % 2 == 0
    then record f { type = info; ns = d0 / 2 % 8; nr = d0 / 32 % 8; pf = bit d0 4; control0 = d0 }
    else if d0 % 4 == 1
    then record f { type = frame_type (d0 % 16); nr = d0 / 32 % 8; pf = bit d0 4; control0 = d0 }
    else if d0 % 4 == 3
    then record f { type = frame_type (without_spf d0); pf = bit d0 4; control0 = d0 }
    else record f { control0 = d0 }

-- `x75_decode`, with what the caller's frame holds before; `none` is `-1`. The octets that are
-- read are there, by the tests of the length.
unfoldable pub decode : ⦃o : Osmo⦄ → Mode → Msgb → Frame → Option (Frame × Msgb)
decode ⦃o⦄ m skb before =
    let a = get_or skb 0 0 in
    let addressed = record before { type = illegal; cr = decode_cr m a before.cr } in
    let rest = o.msgb_pull skb 1 in
    if ltb (o.msgb_headlen skb) 2
    then none
    else if m.extended
    then decode_extended rest addressed
    else some (decode_standard (get_or rest 0 0) addressed, o.msgb_pull rest 1)

abbrev pub spf : Bool → ℕ
spf poll = if poll then 0x10 else 0

abbrev pub epf : Bool → ℕ
epf poll = if poll then 0x01 else 0

-- The octets that `x75_send_control` writes for the frame type of code `t`.
unfoldable pub control_octets : Mode → ℕ → Bool → ℕ → List ℕ
control_octets m t poll vr =
    if m.extended
    then (if t % 4 == 3
        then bit_or (u8 t) (spf poll) ∷ []
        else u8 t ∷ bit_or (u8 (vr * 2)) (epf poll) ∷ [])
    else (let octet = bit_or (u8 t) (spf poll) in
        (if t % 4 == 1 then u8 (bit_or octet (vr * 32)) else octet) ∷ [])

-- The octets that `x75_send_iframe` writes.
unfoldable pub iframe_octets : Mode → Bool → ℕ → ℕ → List ℕ
iframe_octets m poll vs vr =
    if m.extended
    then u8 (vs * 2) ∷ u8 (bit_or (epf poll) (vr * 2)) ∷ []
    else u8 (bit_or (u8 (bit_or (spf poll) (vr * 32))) (vs * 2)) ∷ []

-- The C/R bit of an FRMR information field.
abbrev pub response_bit : Option Kind → ℕ → ℕ
response_bit (some response) b = b
response_bit _ b = 0

-- The octets that `x75_transmit_frmr` writes. `& 0xFE` and the like are written as arithmetic.
unfoldable pub frmr_octets : Mode → Frame → ℕ → ℕ → ℕ → List ℕ
frmr_octets m f reason vs vr =
    if m.extended
    then 0x87
      ∷ f.control0
      ∷ f.control1
      ∷ (vs * 2 % 256)
      ∷ bit_or (vr * 2 % 256) (response_bit f.cr 0x01)
      ∷ reason
      ∷ []
    else 0x87
      ∷ f.control0
      ∷ bit_or (bit_or (vs * 2 % 16) (vr * 32 % 256)) (response_bit f.cr 0x10)
      ∷ reason
      ∷ []
