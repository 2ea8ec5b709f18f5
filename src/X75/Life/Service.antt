-- ===== src/X75/Life/Service.antt =====
-- What a link promises its upper layer: the states, and what is told on the way from one to the
-- next, with the handlers of src/x75/x75_in.c, src/x75/x75_iface.c and src/x75/x75_timer.c.
use ras.Base.{◌≡◌, Bool, true, false, Option, none, some, List, [], ◌∷◌, ◌++◌, ◌⊎◌, if◌then◌else◌}
use ras.Osmo.{Osmo, Msgb, Expiry, t1timer_expiry}
use ras.X75.Types.{
  State, disconnected, awaiting_connection, awaiting_disconnection, data_transfer, frame_reject, ok,
  notconnected, refused, timedout, Mode, Callbacks, Event, FrameType, info, rr, rnr, rej, sabm,
  sabme, disc, dm, ua, frmr, illegal, Frame, X75Cb,
}
use ras.X75.Frame.{decode}
use ras.X75.Life.{
  Input, connects, disconnects, sends, receives, tunes, t1_runs_out, t2_runs_out, Standing,
}

-- An input as the service sees it: a frame is what `x75_decode` reads, a timer its function.
pub data Label : Type 0 where
  to_connect to_disconnect to_send to_tune unreadable : Label
  frame : Frame → Msgb → Label
  timer : Option Expiry → Label

unfoldable pub read_label : Option (Frame × Msgb) → Label
read_label none = unreadable
read_label (some (f, rest)) = frame f rest

unfoldable pub label : ⦃o : Osmo⦄ → Input → X75Cb → Label
unfolding read_label
label connects c = to_connect
label disconnects c = to_disconnect
label (sends skb) c = to_send
label (receives garbage skb) c = read_label (decode c.mode skb garbage)
label (tunes p) c = to_tune
label t1_runs_out c = timer c.t1timer.cb
label t2_runs_out c = timer c.t2timer.cb

-- The command that sets up a link of this mode.
abbrev pub opening : Mode → FrameType
opening m = if m.extended then sabme else sabm

-- The frames that may be answered by an FRMR.
abbrev pub rejectable : FrameType → Bool
rejectable info = true
rejectable rr = true
rejectable rnr = true
rejectable rej = true
rejectable illegal = true
rejectable _ = false

abbrev pub same_type : FrameType → FrameType → Bool
same_type sabm sabm = true
same_type sabme sabme = true
same_type _ _ = false

-- The frames on which a link cannot stay in its state.
abbrev pub frame_moves : Mode → State → FrameType → Bool → Bool
frame_moves m disconnected t pf = same_type t (opening m)
frame_moves m awaiting_connection ua pf = pf
frame_moves m awaiting_connection dm pf = pf
frame_moves m awaiting_disconnection ua pf = pf
frame_moves m awaiting_disconnection dm pf = pf
frame_moves m data_transfer disc pf = true
frame_moves m data_transfer dm pf = true
frame_moves m data_transfer frmr pf = true
frame_moves m data_transfer illegal pf = true
frame_moves m frame_reject t pf = same_type t (opening m)
frame_moves m _ _ pf = false

abbrev pub must_move : Mode → State → Label → Bool
must_move m disconnected to_connect = true
must_move m awaiting_disconnection to_connect = true
must_move m awaiting_connection to_disconnect = true
must_move m data_transfer to_disconnect = true
must_move m frame_reject to_disconnect = true
must_move m s (frame f rest) = frame_moves m s f.type f.pf
must_move m s _ = false

-- From a state, with what the upper layer is told, to the next.
pub data Leads (m : Mode) : Label → State → List Event → State → Type 0 where
  stays : (l : Label) (s : State) → must_move m s l ≡ false → Leads m l s [] s
  calls : Leads m to_connect disconnected [] awaiting_connection
  calls_at_release : Leads m to_connect awaiting_disconnection [] awaiting_connection
  aborts : Leads m to_disconnect awaiting_connection [] disconnected
  releases : Leads m to_disconnect data_transfer [] awaiting_disconnection
  releases_rejected : Leads m to_disconnect frame_reject [] awaiting_disconnection
  accepts :
      (f : Frame) (b : Msgb)
      → f.type ≡ opening m
      → Leads m (frame f b) disconnected (Event.connect_indication ok ∷ []) data_transfer
  recovers :
      (f : Frame) (b : Msgb)
      → f.type ≡ opening m
      → Leads m (frame f b) frame_reject (Event.connect_indication ok ∷ []) data_transfer
  confirms :
      (f : Frame) (b : Msgb)
      → f.type ≡ ua
      → f.pf ≡ true
      → Leads m (frame f b) awaiting_connection (Event.connect_confirmation ok ∷ []) data_transfer
  refuses :
      (f : Frame) (b : Msgb)
      → f.type ≡ dm
      → f.pf ≡ true
      → Leads m
          (frame f b)
          awaiting_connection
          (Event.disconnect_indication refused ∷ [])
          disconnected
  released_by_ua :
      (f : Frame) (b : Msgb)
      → f.type ≡ ua
      → f.pf ≡ true
      → Leads m
          (frame f b)
          awaiting_disconnection
          (Event.disconnect_confirmation ok ∷ [])
          disconnected
  released_by_dm :
      (f : Frame) (b : Msgb)
      → f.type ≡ dm
      → f.pf ≡ true
      → Leads m
          (frame f b)
          awaiting_disconnection
          (Event.disconnect_confirmation notconnected ∷ [])
          disconnected
  delivers :
      (f : Frame) (b : Msgb)
      → f.type ≡ info
      → Leads m (frame f b) data_transfer (Event.data_indication b ∷ []) data_transfer
  rejects :
      (f : Frame) (b : Msgb)
      → rejectable f.type ≡ true
      → Leads m (frame f b) data_transfer [] frame_reject
  restarts :
      (f : Frame) (b : Msgb)
      → f.type ≡ frmr
      → Leads m (frame f b) data_transfer [] awaiting_connection
  disconnected_by_peer :
      (f : Frame) (b : Msgb)
      → f.type ≡ disc
      → Leads m (frame f b) data_transfer (Event.disconnect_indication ok ∷ []) disconnected
  lost_by_peer :
      (f : Frame) (b : Msgb)
      → f.type ≡ dm
      → Leads m
          (frame f b)
          data_transfer
          (Event.disconnect_indication notconnected ∷ [])
          disconnected
  dials : Leads m (timer (some t1timer_expiry)) disconnected [] awaiting_connection
  gives_up :
      (s : State)
      → (s ≡ awaiting_connection) ⊎ ((s ≡ data_transfer) ⊎ (s ≡ frame_reject))
      → Leads m
          (timer (some t1timer_expiry))
          s
          (Event.disconnect_indication timedout ∷ [])
          disconnected
  gives_up_release :
      Leads m
        (timer (some t1timer_expiry))
        awaiting_disconnection
        (Event.disconnect_confirmation timedout ∷ [])
        disconnected

-- The callbacks of `cb` in src/yate_x75.c are all set.
abbrev pub all_set : Callbacks
all_set = record {
  connect_confirmation = true;
  connect_indication = true;
  disconnect_confirmation = true;
  disconnect_indication = true;
  data_indication = true;
  data_transmit = true;
}

-- The standing has come to the state `t`, and the upper layer has been told `es`.
pub record Moves (s : Standing) (es : List Event) (t : State) (s' : Standing) : Type 0 where
  pub to : s'.state ≡ t
  pub callbacks : s'.callbacks ≡ s.callbacks
  pub told : s'.told ≡ s.told ++ es

-- A link may go from `c` to `d` by the input `l`, in the state `s`.
abbrev pub Answers : Mode → Label → State → Standing → Standing → Type 0
Answers m l s c d = (es : List Event) × (t : State) × Leads m l s es t × Moves c es t d
