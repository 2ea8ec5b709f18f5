-- ===== src/Line.antt =====
-- The HDLC frames on an ISDN line: the two loops of `handle_sample_buffer` in src/yate_x75.c and
-- src/yate_hdlc_ppp.c, the first of which is also that of src/file_hdlc_decoder.c. The decoder and
-- the encoder are libosmocore's.
pub mod Packets
pub mod Concrete
pub mod Transmit
pub mod Receive
use ras.Base.{
  ℕ, zero, suc, ◌+◌, ◌-◌, ◌*◌, ◌≤◌, ◌<◌, ◌≡◌, Bool, true, false, List, [], ◌∷◌, ◌++◌, ◌==◌, ltb,
  if◌then◌else◌, length, take, drop,
}

-- What a call of the decoder returns: 0, the octets of a frame, at least one, or an error.
pub data Decoding : Type 0 where
  no_frame framing_error length_error crc_error : Decoding
  hdlc_frame : List ℕ → Decoding

-- What a call of the encoder returns: the octets written, or an error.
pub data Sent : Type 0 where
  octets_sent : List ℕ → Sent
  send_error : Sent

-- `osmo_isdnhdlc_decode` and `osmo_isdnhdlc_encode`: from their state, the octets and the size of the
-- buffer, what is returned, `*count` and the state.
pub record Hdlc : Type 1 where
  pub Decoder : Type 0
  pub Encoder : Type 0
  pub isdnhdlc_decode : Decoder → List ℕ → ℕ → Decoding × ℕ × Decoder
  pub isdnhdlc_encode : Encoder → List ℕ → ℕ → Sent × ℕ × Encoder

-- The decoder takes no more octets than there are, and each call brings it nearer to the end of the
-- octets, counted in bits with those of an octet that it holds back. The encoder takes no more octets than there are,
-- and writes at least one octet where there is room, and no more than the room: it fills the line.
pub record Reads (h : Hdlc) : Type 0 where
  pub held : h.Decoder → ℕ
  pub few : (d : h.Decoder) → held d ≤ 8
  pub nearer :
      (d : h.Decoder) (x : ℕ) (xs : List ℕ) (size : ℕ)
      → let (rv, count, d') = h.isdnhdlc_decode d (x ∷ xs) size in
        held d' + 8 * length (drop count (x ∷ xs)) < held d + 8 * length (x ∷ xs)

pub record Fills (h : Hdlc) : Type 0 where
  pub fills :
      (e : h.Encoder) (src : List ℕ) (room : ℕ)
      → 0 < room
      → (out : List ℕ) × (count : ℕ) × (e' : h.Encoder) × (h.isdnhdlc_encode e src room
          ≡ (octets_sent out, count, e'))
        × (count ≤ length src)
        × (0 < length out)
        × (length out ≤ room)

-- The octets handed over on success, in the program's own state.
abbrev pub hand_over : {S : Type 0} → (List ℕ → S → S) → Decoding → S → S
hand_over received (hdlc_frame p) s = received p s
hand_over received _ s = s

-- Where a loop stands: at its end, or out of rounds.
pub data Loop (A : Type 0) : Type 0 where
  finished : A → Loop A
  running : Loop A

-- The packet on its way, `hdlc_tx_buf` with `hdlc_tx_buf_pos` and `hdlc_tx_buf_len`, and the queue.
pub record Tx : Type 0 where
  pub isdn_hdlc_tx_queue : List (List ℕ)
  pub tx_buf : List ℕ
  pub tx_pos : ℕ
  pub tx_len : ℕ

-- The octets written to the line, those that the encoder has taken, and the states.
pub record TxRun (E : Type 0) : Type 0 where
  pub out : List ℕ
  pub taken : List ℕ
  pub tx : Tx
  pub encoder : E

abbrev dequeued : List (List ℕ) → Tx → Tx
dequeued [] t = t
dequeued (m ∷ queue) t = record {
  isdn_hdlc_tx_queue = queue;
  tx_buf = m;
  tx_pos = 0;
  tx_len = length m;
}

-- The next packet, if none is on its way.
unfoldable pub next_packet : Tx → Tx
next_packet t = if t.tx_len == 0 then dequeued t.isdn_hdlc_tx_queue t else t

-- What is left of the packet on its way.
abbrev pub rest_of_packet : Tx → List ℕ
rest_of_packet t = take (t.tx_len - t.tx_pos) (drop t.tx_pos t.tx_buf)

-- So many octets of it are sent.
unfoldable pub move_on : ℕ → Tx → Tx
move_on count t =
    if t.tx_len == 0
    then t
    else if t.tx_pos + count == t.tx_len
    then record t { tx_pos = 0; tx_len = 0 }
    else record t { tx_pos = t.tx_pos + count }

module _ (h : Hdlc) where
  -- `while (samplesProcessed < num_samples)`, with the octets from there on.
  unfoldable pub rx_loop :
      {S : Type 0} → (List ℕ → S → S) → ℕ → ℕ → List ℕ → h.Decoder → S → Loop (h.Decoder × S)
  rx_loop received size fuel [] d s = finished (d, s)
  rx_loop received size zero (x ∷ xs) d s = running
  rx_loop received size (suc fuel) (x ∷ xs) d s =
      let (rv, count, d') = h.isdnhdlc_decode d (x ∷ xs) size in
      rx_loop received size fuel (drop count (x ∷ xs)) d' (hand_over received rv s)

  -- What is kept of a call of the encoder on the rest of the packet.
  unfoldable pub after_encode : Tx → TxRun h.Encoder → Sent × ℕ × h.Encoder → TxRun h.Encoder
  after_encode t r (octets_sent out, count, e) =
      if length out == 0 then record r { tx = t; encoder = e } else record {
        out = r.out ++ out;
        taken = r.taken ++ take count (rest_of_packet t);
        tx = move_on count t;
        encoder = e;
      }
  after_encode t r (send_error, count, e) = record r { tx = t; encoder = e }

  unfoldable pub tx_round : ℕ → Tx → TxRun h.Encoder → TxRun h.Encoder
  unfolding after_encode
  tx_round room t r = after_encode t r (h.isdnhdlc_encode r.encoder (rest_of_packet t) room)

  -- The second loop: it ends when `num_samples` octets are written.
  unfoldable pub tx_loop : ℕ → ℕ → TxRun h.Encoder → Loop (TxRun h.Encoder)
  tx_loop num_samples zero r = if ltb (length r.out) num_samples then running else finished r
  tx_loop num_samples (suc fuel) r = elim (ltb (length r.out) num_samples) [
    | true ↦ tx_loop num_samples fuel (tx_round (num_samples - length r.out) (next_packet r.tx) r)
    | false ↦ finished r
  ]
