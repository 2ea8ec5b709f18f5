-- ===== src/X75/Handshake.antt =====
-- Setting up a link between two stations, frame by frame (src/x75).
use ras.Base.{
  ◌≡◌, refl, sym, subst, ap, append_assoc, ◌∙◌, Bool, true, false, some, [], ◌∷◌, ◌++◌,
  if◌then◌else◌, arith, ◌▹◌,
}
use ras.Osmo.{Osmo, Documented, HasMemory, Msgb}
use ras.X75.Types.{
  Mode, FrameType, sabm, sabme, ua, type_code, command, response, Code, ok, disconnected,
  awaiting_connection, data_transfer, Frame, X75Cb, Event, no_condition,
}
use ras.X75.Timer.{start_t1timer, stop_t2timer}
use ras.X75.Frame.{decode}
use ras.X75.Send.{call, send_control, connect_indication, connect_confirmation}
use ras.X75.Kick.{establish_data_link}
use ras.X75.In.{
  set_state, reset_link, send_ua, send_dm, accept_link, confirm_link, state0_dispatch,
  state1_dispatch, state0_machine, state1_machine,
}
use ras.X75.Transfer.{state_machine}
use ras.X75.Iface.{connect_dispatch, connect_request}
use ras.X75.Codec.{peer}
use ras.X75.Control.{Reads, is_unnumbered, decode-send_control_unnumbered}

-- The request of a mode.
abbrev pub request_type : Bool → FrameType
request_type true = sabme
request_type false = sabm

request_code : (e : Bool) → (if e then 0x6F else 0x2F) ≡ type_code (request_type e)
unfolding type_code
request_code true = refl
request_code false = refl

request-unnumbered : (e : Bool) → is_unnumbered (request_type e) ≡ true
request-unnumbered true = refl
request-unnumbered false = refl

-- A link just set up: data may flow, and both ends count from 0.
pub record IsUp (c : X75Cb) : Type 0 where
  pub state_up : c.state ≡ data_transfer
  pub vs_zero : c.vs ≡ 0
  pub vr_zero : c.vr ≡ 0
  pub va_zero : c.va ≡ 0
  pub calm : c.condition ≡ no_condition

module _ ⦃o : Osmo⦄ (doc : Documented o) (mem : HasMemory o) where
  abbrev requested : X75Cb → X75Cb
  requested c = c ▹ start_t1timer ▹ stop_t2timer ▹ set_state awaiting_connection

  -- A connect request hands down one frame: the request of the mode, a command with the poll bit.
  request_sent :
      (a : X75Cb) (g : Frame)
      → a.state ≡ disconnected
      → a.callbacks.data_transmit ≡ true
      → (buf : Msgb) × (f : Frame) × ((connect_request a).1.events
          ≡ a.events ++ (Event.data_transmit buf ∷ []))
        × Reads a.mode buf g (request_type a.mode.extended) command true f
        × ((connect_request a).1.state ≡ awaiting_connection)
        × ((connect_request a).1.mode ≡ a.mode)
        × ((connect_request a).1.callbacks ≡ a.callbacks)
  unfolding connect_request connect_dispatch establish_data_link start_t1timer stop_t2timer
  request_sent a g s t =
      let cleared = record a { condition = no_condition; n2count = 0 } in
      let e = a.mode.extended in
      let (buf, f, sent, reads) =
        decode-send_control_unnumbered doc mem cleared (request_type e) true command g t
          (request-unnumbered e) in
      let done : connect_request a ≡ (ok, requested (call (Event.data_transmit buf) cleared)) =
        ap (λ x. connect_dispatch x a) s
        ∙ (ap (λ n. (ok, requested (send_control n true command cleared))) (request_code e)
            ∙ ap (λ c. (ok, requested c)) sent) in
      (
        buf,
        f,
        ap (λ (r : Code × X75Cb). r.1.events) done,
        reads,
        ap (λ (r : Code × X75Cb). r.1.state) done,
        ap (λ (r : Code × X75Cb). r.1.mode) done,
        ap (λ (r : Code × X75Cb). r.1.callbacks) done,
      )

  abbrev accepted : X75Cb → X75Cb
  accepted c = c ▹ reset_link ▹ set_state data_transfer ▹ connect_indication ok

  accepted-IsUp : (c : X75Cb) → IsUp (accepted c)
  unfolding reset_link connect_indication
  accepted-IsUp c = ground arith

  accepted-events :
      (c : X75Cb)
      → c.callbacks.connect_indication ≡ true
      → (accepted c).events ≡ c.events ++ (Event.connect_indication ok ∷ [])
  unfolding reset_link connect_indication
  accepted-events c h = ground arith

  confirm_link-IsUp : (c : X75Cb) → IsUp (confirm_link c)
  unfolding confirm_link reset_link connect_confirmation
  confirm_link-IsUp c = ground arith

  request_fits :
      (e : Bool) (f : Frame) (b : X75Cb)
      → b.mode.extended ≡ e
      → state0_dispatch (request_type e) f b ≡ accept_link f.pf b
  unfolding state0_dispatch
  request_fits true f b h = ap (λ x. if x then accept_link f.pf b else send_dm f.pf b) h
  request_fits false f b h = ap (λ x. if x then send_dm f.pf b else accept_link f.pf b) h

  -- The station called answers with a UA, and is up.
  request_accepted :
      (b : X75Cb) (f g : Frame)
      → b.state ≡ disconnected
      → b.callbacks.data_transmit ≡ true
      → b.callbacks.connect_indication ≡ true
      → f.type ≡ request_type b.mode.extended
      → f.pf ≡ true
      → let b' = state_machine b.state [] f b in
        (buf : Msgb) × (h : Frame) × (b'.events
          ≡ b.events ++ (Event.data_transmit buf ∷ Event.connect_indication ok ∷ []))
        × Reads b.mode buf g ua response true h
        × IsUp b'
  unfolding state_machine state0_machine state0_dispatch accept_link send_ua type_code
  request_accepted b f g s t ci ft fp =
      let (buf, h, sent, reads) =
        decode-send_control_unnumbered doc mem b ua true response g t refl in
      let called = call (Event.data_transmit buf) b in
      let done : state_machine b.state [] f b ≡ accepted called =
        ap (λ x. state_machine x [] f b) s
        ∙ (ap (λ y. state0_dispatch y f b) ft
            ∙ (request_fits b.mode.extended f b refl
                ∙ (ap (λ p. accept_link p b) fp ∙ ap accepted sent))) in
      let IsDone = λ (c : X75Cb).
        (c.events ≡ b.events ++ (Event.data_transmit buf ∷ Event.connect_indication ok ∷ [])) in
      (
        buf,
        h,
        subst IsDone (sym done) (accepted-events called ci ∙ append_assoc b.events _ _),
        reads,
        subst IsUp (sym done) (accepted-IsUp called),
      )

  -- A UA with the final bit brings the calling station up.
  confirmed :
      (c : X75Cb) (f : Frame)
      → c.state ≡ awaiting_connection
      → f.type ≡ ua
      → f.pf ≡ true
      → IsUp (state_machine c.state [] f c)
  unfolding state_machine state1_machine state1_dispatch
  confirmed c f s ft fp =
      let done : state_machine c.state [] f c ≡ confirm_link c =
        ap (λ x. state_machine x [] f c) s
        ∙ (ap (λ y. state1_dispatch y f c) ft ∙ ap (λ p. if p then confirm_link c else c) fp) in
      subst IsUp (sym done) (confirm_link-IsUp c)

  -- Two stations of the same format at the two ends of a line are down, with the transmit callbacks
  -- and the connect indication of `b` set and memory left. A connect request of `a` sends one
  -- frame, which `b` reads, whatever its memory holds; on that frame `b` sends one frame back and
  -- tells its upper layer, and is up; `a` reads that frame and on it is up too. Both count from 0,
  -- with no condition set.
  pub handshake :
      (a b : X75Cb) (g h : Frame)
      → a.state ≡ disconnected
      → b.state ≡ disconnected
      → peer a.mode ≡ b.mode
      → peer b.mode ≡ a.mode
      → a.callbacks.data_transmit ≡ true
      → b.callbacks.data_transmit ≡ true
      → b.callbacks.connect_indication ≡ true
      → let a1 = (connect_request a).1 in
        (there : Msgb) × (back : Msgb) × (f1 : Frame) × (f2 : Frame) × (a1.events
          ≡ a.events ++ (Event.data_transmit there ∷ []))
        × (decode b.mode there g ≡ some (f1, []))
        × ((state_machine b.state [] f1 b).events
            ≡ b.events ++ (Event.data_transmit back ∷ Event.connect_indication ok ∷ []))
        × (decode a.mode back h ≡ some (f2, []))
        × IsUp (state_machine b.state [] f1 b)
        × IsUp (state_machine a1.state [] f2 a1)
  handshake a b g h sa sb pb pa ta tb ci =
      let (there, f1, ev1, (d1, t1, p1, k1), s1, _, _) = request_sent a g sa ta in
      let t1' = t1 ∙ ap (λ (m : Mode). request_type m.extended) pb in
      let (back, f2, ev2, (d2, t2, p2, k2), up) = request_accepted b f1 h sb tb ci t1' p1 in
      (
        there,
        back,
        f1,
        f2,
        ev1,
        subst (λ m. decode m there g ≡ some (f1, [])) pb d1,
        ev2,
        subst (λ m. decode m back h ≡ some (f2, [])) pa d2,
        up,
        confirmed (connect_request a).1 f2 s1 t2 p2,
      )
