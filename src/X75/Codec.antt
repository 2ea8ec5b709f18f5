-- ===== src/X75/Codec.antt =====
-- The frames of `x75_send_iframe`, as the other station's `x75_decode` reads them
-- (src/x75/x75_out.c, src/x75/x75_subr.c).
use ras.Base.{
  ℕ, ◌+◌, ◌*◌, ◌<◌, ◌≡◌, refl, Bool, true, false, not, Option, some, ◌∷◌, ◌++◌, u8, arith,
  if◌then◌else◌,
}
use ras.Osmo.{Osmo, Documented, Msgb}
use ras.X75.Types.{
  Mode, Kind, command, response, info, illegal, Frame, X75Cb, modulus_of, modulus, Event,
}
use ras.X75.Frame.{
  decode_cr, address_tx, decode_standard, decode_extended, decode, iframe_octets, spf, epf,
}
use ras.X75.Octets.{standard_iframe, extended_iframe}
use ras.X75.Send.{call, send_iframe}

-- The station at the other end of the line.
abbrev pub peer : Mode → Mode
peer m = record m { dce = not m.dce }

pub decode_cr-address_tx :
    (m : Mode) (k : Kind) (before : Option Kind)
    → decode_cr (peer m) (address_tx m k) before ≡ some k
unfolding decode_cr address_tx
decode_cr-address_tx m command before = ground arith
decode_cr-address_tx m response before = ground arith

abbrev pub addressed : Mode → ℕ → Frame → Frame
addressed m a g = record g { type = illegal; cr = decode_cr m a g.cr }

module _ ⦃o : Osmo⦄ (doc : Documented o) where
  pub decode-standard :
      (m : Mode) (a d0 : ℕ) (rest : Msgb) (g : Frame)
      → m.extended ≡ false
      → decode m (a ∷ d0 ∷ rest) g ≡ some (decode_standard d0 (addressed m a g), rest)
  unfolding decode
  decode-standard m a d0 rest g e =
      rw (e, doc.headlen (a ∷ d0 ∷ rest), doc.pull (a ∷ d0 ∷ rest) 1, doc.pull (d0 ∷ rest) 1)
        (ground arith)

  pub decode-extended :
      (m : Mode) (a d0 : ℕ) (rest : Msgb) (g : Frame)
      → m.extended ≡ true
      → decode m (a ∷ d0 ∷ rest) g ≡ decode_extended (d0 ∷ rest) (addressed m a g)
  unfolding decode
  decode-extended m a d0 rest g e =
      rw (e, doc.headlen (a ∷ d0 ∷ rest), doc.pull (a ∷ d0 ∷ rest) 1) (ground arith)

-- What the standard format's control octet of an I frame is read as.
decode_standard-info :
    (poll : Bool) (vs vr : ℕ) (f : Frame)
    → vs < 8
    → vr < 8
    → decode_standard (spf poll + vr * 32 + vs * 2) f ≡ record f {
      type = info;
      ns = vs;
      nr = vr;
      pf = poll;
      control0 = spf poll + vr * 32 + vs * 2;
    }
unfolding decode_standard
decode_standard-info true vs vr f h k = ground arith
decode_standard-info false vs vr f h k = ground arith

abbrev pub info_frame : Mode → Bool → ℕ → ℕ → Frame → Frame
info_frame m poll vs vr g = record g {
  type = info;
  nr = vr;
  ns = vs;
  cr = some command;
  pf = poll;
  control0 = if m.extended then vs * 2 else spf poll + vr * 32 + vs * 2;
  control1 = if m.extended then epf poll + vr * 2 else g.control1;
}

abbrev pub mode_of : Bool → Bool → Bool → Mode
mode_of e p d = record { extended = e; mlp = p; dce = d }

module _ ⦃o : Osmo⦄ (doc : Documented o) where
  -- An I frame, by the bits of the mode.
  pub decode_iframe :
      (e p d poll : Bool) (vs vr : ℕ) (payload : Msgb) (g : Frame)
      → vs < modulus_of e
      → vr < modulus_of e
      → let m = mode_of e p d in
        decode (peer m) (address_tx m command ∷ (iframe_octets m poll vs vr ++ payload)) g
        ≡ some (info_frame m poll vs vr g, payload)
  unfolding iframe_octets decode_extended
  decode_iframe false p d poll vs vr payload g h k =
      let m = mode_of false p d in
      let x = spf poll + vr * 32 + vs * 2 in
      let a = address_tx m command in
      rw (
        standard_iframe poll vs vr h k,
        decode-standard doc (peer m) a x payload g refl,
        decode_standard-info poll vs vr (addressed (peer m) a g) h k,
        decode_cr-address_tx m command g.cr,
      )
  decode_iframe true p d poll vs vr payload g h k =
      let m = mode_of true p d in
      let x = epf poll + vr * 2 in
      let a = address_tx m command in
      rw
        (
          extended_iframe poll vr k,
          decode-extended doc (peer m) a (u8 (vs * 2)) (x ∷ payload) g refl,
          doc.headlen,
          doc.pull (u8 (vs * 2) ∷ x ∷ payload) 2,
          decode_cr-address_tx m command g.cr,
        )
        (ground arith)

  -- With the transmit callback set and V(S) and V(R) below the modulus, `x75_send_iframe` hands
  -- down one buffer, and changes nothing else. The other station reads in it an I frame command
  -- with the sender's V(S) as N(S) and V(R) as N(R), the poll bit, and the octets given, whatever
  -- its frame held before.
  pub decode-send_iframe :
      (c : X75Cb) (skb : Msgb) (poll : Bool) (g : Frame)
      → c.callbacks.data_transmit ≡ true
      → c.vs < modulus c
      → c.vr < modulus c
      → (buf : Msgb) × (f : Frame) × (send_iframe skb poll c ≡ call (Event.data_transmit buf) c)
        × (decode (peer c.mode) buf g ≡ some (f, skb))
        × (f.type ≡ info)
        × (f.ns ≡ c.vs)
        × (f.nr ≡ c.vr)
        × (f.pf ≡ poll)
        × (f.cr ≡ some command)
  unfolding send_iframe
  decode-send_iframe c skb poll g t h k = (
    address_tx c.mode command ∷ (iframe_octets c.mode poll c.vs c.vr ++ skb),
    info_frame c.mode poll c.vs c.vr g,
    simp (doc.push, t),
    decode_iframe c.mode.extended c.mode.mlp c.mode.dce poll c.vs c.vr skb g h k,
    refl,
    refl,
    refl,
    refl,
    refl,
  )
