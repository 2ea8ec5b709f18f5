-- ===== src/X75/Life/Frames.antt =====
-- The frames that arrive outside the data transfer state, as answers of the service
-- (src/x75/x75_in.c).
use ras.Base.{◌≡◌, refl, sym, ap, ◌∙◌, Bool, true, false, if◌then◌else◌}
use ras.Osmo.{Osmo, Msgb}
use ras.X75.Types.{
  State, disconnected, awaiting_connection, awaiting_disconnection, frame_reject, ok, notconnected,
  response, Mode, FrameType, info, rr, rnr, rej, sabm, sabme, disc, dm, ua, Frame, X75Cb,
}
use ras.X75.In.{
  send_ua, send_dm, accept_link, state0_dispatch, confirm_link, refuse_link, state1_dispatch,
  released, state2_dispatch, state4_dispatch,
}
use ras.X75.Life.{standing}
use ras.X75.Life.Untouched.{standing-either, standing-send_control}
use ras.X75.Life.Service.{
  frame, opening, same_type, frame_moves, accepts, recovers, confirms, refuses, released_by_ua,
  released_by_dm, all_set, Answers,
}
use ras.X75.Life.Ways.{quiet, still}
use ras.X75.Life.Told.{accept_link-Moves, confirm_link-Moves, refuse_link-Moves, released-Moves}

module _ ⦃o : Osmo⦄ where
  pub standing-send_dm : (pf : Bool) (c : X75Cb) → standing (send_dm pf c) ≡ standing c
  unfolding send_dm
  standing-send_dm pf c = standing-send_control 0x0F pf response c

  pub standing-send_ua : (pf : Bool) (c : X75Cb) → standing (send_ua pf c) ≡ standing c
  unfolding send_ua
  standing-send_ua pf c = standing-send_control 0x63 pf response c

  module _ (s : State) (f : Frame) (b : Msgb) (c : X75Cb) (st : c.state ≡ s) where
    -- The answer that a link in the state `s` gives to the frame, when it comes to `d`.
    abbrev To : X75Cb → Type 0
    To d = Answers c.mode (frame f b) s (standing c) (standing d)

    either-To :
        (t : Bool) (x y : X75Cb) → (t ≡ true → To x) → (t ≡ false → To y) → To (if t then x else y)
    either-To true x y p q = p refl
    either-To false x y p q = q refl

    same-To :
        (t : FrameType) (d : X75Cb)
        → f.type ≡ t
        → frame_moves c.mode s t f.pf ≡ false
        → standing d ≡ standing c
        → To d
    same-To t d e q same =
        quiet c.mode (frame f b) s (standing c) (standing d) same st (still c.mode s f b t e q)

  opens : (m : Mode) (f : Frame) → f.type ≡ sabm → m.extended ≡ false → f.type ≡ opening m
  opens m f e x = e ∙ sym (ap (λ x. if x then sabme else sabm) x)

  opens_extended : (m : Mode) (f : Frame) → f.type ≡ sabme → m.extended ≡ true → f.type ≡ opening m
  opens_extended m f e x = e ∙ sym (ap (λ x. if x then sabme else sabm) x)

  wrong_mode : (m : Mode) → m.extended ≡ true → same_type sabm (opening m) ≡ false
  wrong_mode m x = ap (λ x. same_type sabm (if x then sabme else sabm)) x

  wrong_mode_extended : (m : Mode) → m.extended ≡ false → same_type sabme (opening m) ≡ false
  wrong_mode_extended m x = ap (λ x. same_type sabme (if x then sabme else sabm)) x

  pub state0-Answers :
      (t : FrameType) (f : Frame) (b : Msgb) (c : X75Cb)
      → f.type ≡ t
      → c.callbacks ≡ all_set
      → c.state ≡ disconnected
      → Answers c.mode (frame f b) disconnected (standing c) (standing (state0_dispatch t f c))
  unfolding state0_dispatch
  state0-Answers sabm f b c e h st =
      either-To disconnected f b c st c.mode.extended (send_dm f.pf c) (accept_link f.pf c)
        (λ x.
          same-To disconnected f b c st sabm (send_dm f.pf c) e (wrong_mode c.mode x)
            (standing-send_dm f.pf c))
        (λ x. (_, _, accepts f b (opens c.mode f e x), accept_link-Moves f.pf c h))
  state0-Answers sabme f b c e h st =
      either-To disconnected f b c st c.mode.extended (accept_link f.pf c) (send_dm f.pf c)
        (λ x. (_, _, accepts f b (opens_extended c.mode f e x), accept_link-Moves f.pf c h))
        (λ x.
          same-To disconnected f b c st sabme (send_dm f.pf c) e (wrong_mode_extended c.mode x)
            (standing-send_dm f.pf c))
  state0-Answers disc f b c e h st =
      same-To disconnected f b c st disc (send_ua f.pf c) e refl (standing-send_ua f.pf c)
  state0-Answers t f b c e h st = same-To disconnected f b c st t c e refl refl

  pub state4-Answers :
      (t : FrameType) (f : Frame) (b : Msgb) (c : X75Cb)
      → f.type ≡ t
      → c.callbacks ≡ all_set
      → c.state ≡ frame_reject
      → Answers c.mode (frame f b) frame_reject (standing c) (standing (state4_dispatch t f c))
  unfolding state4_dispatch
  state4-Answers sabm f b c e h st =
      either-To frame_reject f b c st c.mode.extended (send_dm f.pf c) (accept_link f.pf c)
        (λ x.
          same-To frame_reject f b c st sabm (send_dm f.pf c) e (wrong_mode c.mode x)
            (standing-send_dm f.pf c))
        (λ x. (_, _, recovers f b (opens c.mode f e x), accept_link-Moves f.pf c h))
  state4-Answers sabme f b c e h st =
      either-To frame_reject f b c st c.mode.extended (accept_link f.pf c) (send_dm f.pf c)
        (λ x. (_, _, recovers f b (opens_extended c.mode f e x), accept_link-Moves f.pf c h))
        (λ x.
          same-To frame_reject f b c st sabme (send_dm f.pf c) e (wrong_mode_extended c.mode x)
            (standing-send_dm f.pf c))
  state4-Answers t f b c e h st = same-To frame_reject f b c st t c e refl refl

  pub state1-Answers :
      (t : FrameType) (f : Frame) (b : Msgb) (c : X75Cb)
      → f.type ≡ t
      → c.callbacks ≡ all_set
      → c.state ≡ awaiting_connection
      → Answers c.mode
          (frame f b)
          awaiting_connection
          (standing c)
          (standing (state1_dispatch t f c))
  unfolding state1_dispatch
  state1-Answers sabm f b c e h st =
      same-To awaiting_connection f b c st sabm (state1_dispatch sabm f c) e refl (
        standing-either c.mode.extended (send_dm f.pf c) (send_ua f.pf c) (standing-send_dm f.pf c)
          (standing-send_ua f.pf c))
  state1-Answers sabme f b c e h st =
      same-To awaiting_connection f b c st sabme (state1_dispatch sabme f c) e refl (
        standing-either c.mode.extended (send_ua f.pf c) (send_dm f.pf c) (standing-send_ua f.pf c)
          (standing-send_dm f.pf c))
  state1-Answers disc f b c e h st =
      same-To awaiting_connection f b c st disc (state1_dispatch disc f c) e refl
        (standing-send_dm f.pf c)
  state1-Answers ua f b c e h st =
      either-To awaiting_connection f b c st f.pf (confirm_link c) c
        (λ x. (_, _, confirms f b e x, confirm_link-Moves c h))
        (λ x. same-To awaiting_connection f b c st ua c e x refl)
  state1-Answers dm f b c e h st =
      either-To awaiting_connection f b c st f.pf (refuse_link c) c
        (λ x. (_, _, refuses f b e x, refuse_link-Moves c h))
        (λ x. same-To awaiting_connection f b c st dm c e x refl)
  state1-Answers t f b c e h st = same-To awaiting_connection f b c st t c e refl refl

  refused_data : (pf : Bool) (c : X75Cb) → standing (if pf then send_dm pf c else c) ≡ standing c
  refused_data pf c = standing-either pf (send_dm pf c) c (standing-send_dm pf c) refl

  pub state2-Answers :
      (t : FrameType) (f : Frame) (b : Msgb) (c : X75Cb)
      → f.type ≡ t
      → c.callbacks ≡ all_set
      → c.state ≡ awaiting_disconnection
      → Answers c.mode
          (frame f b)
          awaiting_disconnection
          (standing c)
          (standing (state2_dispatch t f c))
  unfolding state2_dispatch
  state2-Answers ua f b c e h st =
      either-To awaiting_disconnection f b c st f.pf (released ok c) c
        (λ x. (_, _, released_by_ua f b e x, released-Moves ok c h))
        (λ x. same-To awaiting_disconnection f b c st ua c e x refl)
  state2-Answers dm f b c e h st =
      either-To awaiting_disconnection f b c st f.pf (released notconnected c) c
        (λ x. (_, _, released_by_dm f b e x, released-Moves notconnected c h))
        (λ x. same-To awaiting_disconnection f b c st dm c e x refl)
  state2-Answers sabm f b c e h st =
      same-To awaiting_disconnection f b c st sabm (state2_dispatch sabm f c) e refl
        (standing-send_dm f.pf c)
  state2-Answers sabme f b c e h st =
      same-To awaiting_disconnection f b c st sabme (state2_dispatch sabme f c) e refl
        (standing-send_dm f.pf c)
  state2-Answers disc f b c e h st =
      same-To awaiting_disconnection f b c st disc (state2_dispatch disc f c) e refl
        (standing-send_ua f.pf c)
  state2-Answers info f b c e h st =
      same-To awaiting_disconnection f b c st info (state2_dispatch info f c) e refl
        (refused_data f.pf c)
  state2-Answers rr f b c e h st =
      same-To awaiting_disconnection f b c st rr (state2_dispatch rr f c) e refl
        (refused_data f.pf c)
  state2-Answers rnr f b c e h st =
      same-To awaiting_disconnection f b c st rnr (state2_dispatch rnr f c) e refl
        (refused_data f.pf c)
  state2-Answers rej f b c e h st =
      same-To awaiting_disconnection f b c st rej (state2_dispatch rej f c) e refl
        (refused_data f.pf c)
  state2-Answers t f b c e h st = same-To awaiting_disconnection f b c st t c e refl refl
