-- ===== src/X75/Send.antt =====
-- Handing calls to the upper layer, and buffers to the lower one: the callbacks of
-- src/x75/x75_iface.c, and what writes a frame (src/x75/x75_subr.c, src/x75/x75_out.c).
-- Freeing a buffer is not modelled: nothing reads it afterwards.
use ras.Base.{ℕ, ◌+◌, Bool, none, some, [], ◌∷◌, ◌++◌, if◌then◌else◌}
use ras.Osmo.{Osmo, Msgb}
use ras.X75.Types.{Kind, command, response, Code, Event, X75Cb}
use ras.X75.Frame.{address_tx, control_octets, iframe_octets, frmr_octets}

-- Append a call to what was done so far.
abbrev pub call : Event → X75Cb → X75Cb
call e c = record c { events = c.events ++ (e ∷ []) }

unfoldable pub connect_confirmation : Code → X75Cb → X75Cb
connect_confirmation reason c =
    if c.callbacks.connect_confirmation then call (Event.connect_confirmation reason) c else c

unfoldable pub connect_indication : Code → X75Cb → X75Cb
connect_indication reason c =
    if c.callbacks.connect_indication then call (Event.connect_indication reason) c else c

unfoldable pub disconnect_confirmation : Code → X75Cb → X75Cb
disconnect_confirmation reason c =
    if c.callbacks.disconnect_confirmation then call (Event.disconnect_confirmation reason) c else c

unfoldable pub disconnect_indication : Code → X75Cb → X75Cb
disconnect_indication reason c =
    if c.callbacks.disconnect_indication then call (Event.disconnect_indication reason) c else c

unfoldable pub data_indication : Msgb → X75Cb → X75Cb
data_indication skb c =
    if c.callbacks.data_indication then call (Event.data_indication skb) c else c

unfoldable pub data_transmit : Msgb → X75Cb → X75Cb
data_transmit skb c = if c.callbacks.data_transmit then call (Event.data_transmit skb) c else c

-- X75_HEADER_LEN
abbrev header_len : ℕ
header_len = 20

module _ ⦃o : Osmo⦄ where
  unfoldable pub transmit_buffer : Msgb → Kind → X75Cb → X75Cb
  unfolding data_transmit
  transmit_buffer skb type c = data_transmit (o.msgb_push skb (address_tx c.mode type ∷ [])) c

  unfoldable pub send_control : ℕ → Bool → Kind → X75Cb → X75Cb
  unfolding transmit_buffer
  send_control frametype poll_bit type c = elim (o.msgb_alloc (header_len + 3)) [
    | none ↦ c
    | some skb ↦
        transmit_buffer (o.msgb_put skb (control_octets c.mode frametype poll_bit c.vr)) type c
  ]

  unfoldable pub transmit_frmr : X75Cb → X75Cb
  unfolding transmit_buffer
  transmit_frmr c = elim (o.msgb_alloc (header_len + 7)) [
    | none ↦ c
    | some skb ↦
        transmit_buffer (o.msgb_put skb (frmr_octets c.mode c.frmr_data c.frmr_type c.vs c.vr))
          response c
  ]

  unfoldable pub send_iframe : Msgb → Bool → X75Cb → X75Cb
  unfolding transmit_buffer
  send_iframe skb poll_bit c =
      transmit_buffer (o.msgb_push skb (iframe_octets c.mode poll_bit c.vs c.vr)) command c
