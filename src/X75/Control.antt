-- ===== src/X75/Control.antt =====
-- The frames of `x75_send_control`, as the other station's `x75_decode` reads them
-- (src/x75/x75_subr.c).
use ras.Base.{
  ℕ, ◌+◌, ◌*◌, ◌%◌, ◌<◌, bit_or, ◌≡◌, refl, Bool, true, false, some, [], ◌∷◌, if◌then◌else◌, u8,
  arith,
}
use ras.Osmo.{Osmo, Documented, HasMemory, Msgb}
use ras.X75.Types.{
  Mode, Kind, FrameType, sabm, sabme, disc, dm, ua, frame_type, type_code, Frame, X75Cb, modulus_of,
  modulus, Event,
}
use ras.X75.Frame.{
  bit, spf, epf, without_spf, address_tx, decode_standard, decode_extended, decode, control_octets,
}
use ras.X75.Send.{call, send_control}
use ras.X75.Codec.{peer, mode_of, addressed, decode_cr-address_tx, decode-standard, decode-extended}
use ras.X75.Supervisory.{standard_octets, extended_octets, supervisory_read}

-- What the other station has read.
abbrev pub Reads : ⦃o : Osmo⦄ → Mode → Msgb → Frame → FrameType → Kind → Bool → Frame → Type 0
Reads m buf g t kind poll f =
    (decode (peer m) buf g ≡ some (f, [])) × (f.type ≡ t) × (f.pf ≡ poll) × (f.cr ≡ some kind)

module _ ⦃o : Osmo⦄ (doc : Documented o) where
  read_supervisory :
      (e p d poll : Bool) (kind : Kind) (k vr : ℕ) (g : Frame)
      → k < 3
      → vr < modulus_of e
      → let m = mode_of e p d in
        (f : Frame) × Reads m
          (address_tx m kind ∷ control_octets m (k * 4 + 1) poll vr)
          g
          (frame_type (k * 4 + 1))
          kind
          poll
          f
        × (f.nr ≡ vr)
  unfolding decode_extended
  read_supervisory false p d poll kind k vr g h l =
      let m = mode_of false p d in
      let a = address_tx m kind in
      let x = k * 4 + 1 + spf poll + vr * 32 in
      (
        record g {
          type = frame_type (k * 4 + 1);
          nr = vr;
          pf = poll;
          cr = some kind;
          control0 = x;
        },
        (
          rw (
            standard_octets p d poll k vr h l,
            decode-standard doc (peer m) a x [] g refl,
            supervisory_read poll k vr (addressed (peer m) a g) h l,
            decode_cr-address_tx m kind g.cr,
          ),
          refl,
          refl,
          refl,
        ),
        refl,
      )
  read_supervisory true p d poll kind k vr g h l =
      let m = mode_of true p d in
      let a = address_tx m kind in
      let y = vr * 2 + epf poll in
      (
        record g {
          type = frame_type (k * 4 + 1);
          nr = vr;
          pf = poll;
          cr = some kind;
          control0 = k * 4 + 1;
          control1 = y;
        },
        (
          rw
              (
                extended_octets p d poll k vr h l,
                decode-extended doc (peer m) a (k * 4 + 1) (y ∷ []) g refl,
                doc.headlen,
                doc.pull ((k * 4 + 1) ∷ y ∷ []) 2,
                decode_cr-address_tx m kind g.cr,
              )
              (ground arith),
          refl,
          refl,
          refl,
        ),
        refl,
      )

-- The unnumbered frames that the code sends by `x75_send_control`.
abbrev pub is_unnumbered : FrameType → Bool
is_unnumbered sabm = true
is_unnumbered sabme = true
is_unnumbered disc = true
is_unnumbered dm = true
is_unnumbered ua = true
is_unnumbered _ = false

abbrev unnumbered_frame : Mode → Frame → FrameType → Kind → Bool → Frame
unnumbered_frame m g t kind poll = record g {
  type = t;
  pf = poll;
  cr = some kind;
  control0 = bit_or (type_code t) (spf poll);
  control1 = if m.extended then 0 else g.control1;
}

-- The octet of an unnumbered frame, as the tests of `x75_decode` see it.
unnumbered_octet :
    (t : FrameType) (poll : Bool)
    → is_unnumbered t ≡ true
    → let x = bit_or (type_code t) (spf poll) in
      (x % 4 ≡ 3)
      × (frame_type (without_spf x) ≡ t)
      × (bit x 4 ≡ poll)
      × (type_code t % 4 ≡ 3)
      × (u8 (type_code t) ≡ type_code t)
unfolding type_code frame_type
unnumbered_octet sabm true h = (refl, refl, refl, refl, refl)
unnumbered_octet sabm false h = (refl, refl, refl, refl, refl)
unnumbered_octet sabme true h = (refl, refl, refl, refl, refl)
unnumbered_octet sabme false h = (refl, refl, refl, refl, refl)
unnumbered_octet disc true h = (refl, refl, refl, refl, refl)
unnumbered_octet disc false h = (refl, refl, refl, refl, refl)
unnumbered_octet dm true h = (refl, refl, refl, refl, refl)
unnumbered_octet dm false h = (refl, refl, refl, refl, refl)
unnumbered_octet ua true h = (refl, refl, refl, refl, refl)
unnumbered_octet ua false h = (refl, refl, refl, refl, refl)
unnumbered_octet _ poll h = cc

unnumbered_octets :
    (m : Mode) (t : FrameType) (poll : Bool) (vr : ℕ)
    → is_unnumbered t ≡ true
    → control_octets m (type_code t) poll vr ≡ bit_or (type_code t) (spf poll) ∷ []
unfolding control_octets
unnumbered_octets m t poll vr h = ground (arith, unnumbered_octet t poll h)

standard_unnumbered :
    (x : ℕ) (f : Frame)
    → x % 4 ≡ 3
    → decode_standard x f
      ≡ record f { type = frame_type (without_spf x); pf = bit x 4; control0 = x }
unfolding decode_standard
standard_unnumbered x f h = ground arith

module _ ⦃o : Osmo⦄ (doc : Documented o) where
  read_unnumbered :
      (e p d poll : Bool) (kind : Kind) (t : FrameType) (vr : ℕ) (g : Frame)
      → is_unnumbered t ≡ true
      → let m = mode_of e p d in
        decode (peer m) (address_tx m kind ∷ control_octets m (type_code t) poll vr) g
        ≡ some (unnumbered_frame m g t kind poll, [])
  unfolding decode_extended
  read_unnumbered false p d poll kind t vr g h =
      let m = mode_of false p d in
      let a = address_tx m kind in
      let x = bit_or (type_code t) (spf poll) in
      let facts = unnumbered_octet t poll h in
      rw (
        unnumbered_octets m t poll vr h,
        decode-standard doc (peer m) a x [] g refl,
        standard_unnumbered x (addressed (peer m) a g) facts.0,
        facts.1,
        facts.2,
        decode_cr-address_tx m kind g.cr,
      )
  read_unnumbered true p d poll kind t vr g h =
      let m = mode_of true p d in
      let a = address_tx m kind in
      let x = bit_or (type_code t) (spf poll) in
      let facts = unnumbered_octet t poll h in
      rw
        (
          unnumbered_octets m t poll vr h,
          decode-extended doc (peer m) a x [] g refl,
          doc.pull (x ∷ []) 1,
          facts.1,
          decode_cr-address_tx m kind g.cr,
        )
        (ground (arith, facts.0, facts.2))

  -- The buffer that `x75_send_control` hands down, if there is memory for it.
  send_control-eq-call :
      (mem : HasMemory o) (c : X75Cb) (t : ℕ) (poll : Bool) (kind : Kind)
      → c.callbacks.data_transmit ≡ true
      → send_control t poll kind c
        ≡ call (Event.data_transmit (address_tx c.mode kind ∷ control_octets c.mode t poll c.vr)) c
  unfolding send_control
  send_control-eq-call mem c t poll kind h = ground (
    arith,
    mem.alloc 23,
    doc.put [] (control_octets c.mode t poll c.vr),
    doc.push (control_octets c.mode t poll c.vr) (address_tx c.mode kind ∷ []),
  )

  -- With the transmit callback set and memory left, `x75_send_control` for a SABM, SABME, DISC, DM
  -- or UA hands down one buffer and changes nothing else; the other station reads in it a frame of
  -- that type, with the same poll bit and the same command or response bit, and no octet is left.
  pub decode-send_control_unnumbered :
      (mem : HasMemory o) (c : X75Cb) (t : FrameType) (poll : Bool) (kind : Kind) (g : Frame)
      → c.callbacks.data_transmit ≡ true
      → is_unnumbered t ≡ true
      → (buf : Msgb) × (f : Frame) × (send_control (type_code t) poll kind c
          ≡ call (Event.data_transmit buf) c)
        × Reads c.mode buf g t kind poll f
  decode-send_control_unnumbered mem c t poll kind g h u = (
    address_tx c.mode kind ∷ control_octets c.mode (type_code t) poll c.vr,
    unnumbered_frame c.mode g t kind poll,
    send_control-eq-call mem c (type_code t) poll kind h,
    (read_unnumbered c.mode.extended c.mode.mlp c.mode.dce poll kind t c.vr g u, refl, refl, refl),
  )

  -- With the transmit callback set, memory left and V(R) below the modulus, `x75_send_control` for
  -- RR, RNR or REJ, which are the supervisory frames 0, 1 and 2, hands down one buffer and changes
  -- nothing else; the other station reads in it a frame of that type, with the same poll bit, the
  -- same command or response bit and the sender's V(R) as N(R), and no octet is left.
  pub decode-send_control_supervisory :
      (mem : HasMemory o) (c : X75Cb) (k : ℕ) (poll : Bool) (kind : Kind) (g : Frame)
      → c.callbacks.data_transmit ≡ true
      → k < 3
      → c.vr < modulus c
      → (buf : Msgb) × (f : Frame) × (send_control (k * 4 + 1) poll kind c
          ≡ call (Event.data_transmit buf) c)
        × Reads c.mode buf g (frame_type (k * 4 + 1)) kind poll f
        × (f.nr ≡ c.vr)
  decode-send_control_supervisory mem c k poll kind g h l r =
      let (f, reads, nr) =
        read_supervisory doc c.mode.extended c.mode.mlp c.mode.dce poll kind k c.vr g l r in
      (
        address_tx c.mode kind ∷ control_octets c.mode (k * 4 + 1) poll c.vr,
        f,
        send_control-eq-call mem c (k * 4 + 1) poll kind h,
        reads,
        nr,
      )
