-- ===== src/X75/Examples/Line.antt =====
-- Frames on the line, at concrete stations.
use ras.Base.{◌≡◌, ◌≢◌, refl, true, false, some, [], ◌∷◌, arith, ◌<◌}
use ras.Osmo.{Msgb}
use ras.Osmo.Concrete.{lists, lists-Documented}
use ras.X75.Types.{Frame, info, rr, illegal, command, Event}
use ras.X75.Frame.{decode}
use ras.X75.Carry.{carries_nr}
use ras.X75.Codec.{decode-send_iframe}
use ras.X75.Read.{decode_good}
use ras.X75.Send.{send_iframe, call}
use ras.X75.Examples.{standard_dce, standard_dte, no_frame, busy_link, rr_0, rr_0-decoded}

decode-send_iframe_example :
    (buf : Msgb) × (f : Frame) × (send_iframe (4 ∷ []) false busy_link
      ≡ call (Event.data_transmit buf) busy_link)
    × (decode standard_dte buf no_frame ≡ some (f, 4 ∷ []))
    × (f.type ≡ info)
    × (f.ns ≡ 1)
    × (f.nr ≡ 2)
    × (f.pf ≡ false)
    × (f.cr ≡ some command)
decode-send_iframe_example =
    decode-send_iframe lists-Documented busy_link (4 ∷ []) false no_frame refl (omega arith)
      (omega arith)

decode_good_example : (carries_nr rr ≡ true → 0 < 8) × (rr ≢ illegal)
decode_good_example =
    decode_good lists-Documented standard_dce rr_0 no_frame (omega arith, (omega arith, tt))
      rr_0-decoded
