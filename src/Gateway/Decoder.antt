-- ===== src/Gateway/Decoder.antt =====
-- The tool of src/file_hdlc_decoder.c, which looks for HDLC frames in a file of samples.
use ras.Base.{ℕ, ◌+◌, ◌-◌, ◌*◌, List, [], ◌∷◌, ◌++◌, length}
use ras.Ppp.{max_mtu}
use ras.Line.{Hdlc, Loop, finished, running, rx_loop}

-- `sizeof(hdlc_rx_buf) - 3`
abbrev pub file_rx_size : ℕ
file_rx_size = max_mtu * 2 - 3

module _ (h : Hdlc) where
  -- A frame is sent to the packet capture.
  abbrev pub capture : List ℕ → List (List ℕ) → List (List ℕ)
  capture frame captured = captured ++ (frame ∷ [])

  unfoldable pub decode_samples :
      List ℕ → h.Decoder → List (List ℕ) → Loop (h.Decoder × List (List ℕ))
  decode_samples in_buf d captured =
      rx_loop h capture file_rx_size (8 * length in_buf + 8) in_buf d captured

  -- The loop of `main`: the blocks of at most 16 octets that `fread` gives.
  unfoldable pub decode_file :
      List (List ℕ) → h.Decoder → List (List ℕ) → Loop (h.Decoder × List (List ℕ))
  decode_file [] d captured = finished (d, captured)
  decode_file (block ∷ blocks) d captured = elim (decode_samples block d captured) [
    | finished (d', captured') ↦ decode_file blocks d' captured'
    | running ↦ running
  ]
