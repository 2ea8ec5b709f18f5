-- ===== src/X75/Life.antt =====
-- A link over its whole life: what happens to it, one call of an entry point after the other
-- (src/x75/x75_iface.c, src/x75/x75_timer.c), and what its upper layer is told meanwhile.
pub mod Untouched
pub mod Service
pub mod Ways
pub mod Told
pub mod Frames
pub mod Transfers
pub mod Requests
pub mod Expiries
pub mod Refines
pub mod Order
pub mod Watch
pub mod Watched
pub mod Carried
pub mod Alarm
pub mod Guard
use ras.Base.{ℕ, Bool, true, List, [], ◌∷◌, ◌≡◌}
use ras.Osmo.{Osmo, Msgb, Timer}
use ras.X75.Types.{State, Frame, Callbacks, Event, Parms, X75Cb}
use ras.X75.Kick.{Outcome, returns, exits, copies_null}
use ras.X75.Expiry.{expires}
use ras.X75.Iface.{connect_request, disconnect_request, data_request, data_received, setparms}

-- The calls of the upper layer, a frame from the lower one with what the local frame of
-- `x75_data_input` holds before, and the timers.
pub data Input : Type 0 where
  connects disconnects : Input
  sends : Msgb → Input
  receives : Frame → Msgb → Input
  tunes : Parms → Input
  t1_runs_out t2_runs_out : Input

-- The link as it is left, however the call ends.
abbrev pub left : Outcome → X75Cb
left (returns c) = c
left (exits c) = c
left (copies_null c) = c

module _ ⦃o : Osmo⦄ where
  -- A timer that runs out is no longer pending when its function is called.
  unfoldable pub happens : Input → X75Cb → Outcome
  happens connects c = returns (connect_request c).1
  happens disconnects c = returns (disconnect_request c).1
  happens (sends skb) c = (data_request skb c).1
  happens (receives garbage skb) c = (data_received garbage skb c).1
  happens (tunes p) c = returns (setparms p c).1
  happens t1_runs_out c = expires c.t1timer.cb (record c { t1timer = o.osmo_timer_del c.t1timer })
  happens t2_runs_out c = expires c.t2timer.cb (record c { t2timer = o.osmo_timer_del c.t2timer })

  -- The links that come of `c`; nothing more happens once the program has ended.
  pub data Reach (c : X75Cb) : X75Cb → Type 0 where
    here : Reach c c
    next : {d d' : X75Cb} → Reach c d → (i : Input) → happens i d ≡ returns d' → Reach c d'

-- The calls of callbacks but those that hand a buffer down.
abbrev pub upper : List Event → List Event
upper [] = []
upper (Event.data_transmit b ∷ es) = upper es
upper (Event.data_indication b ∷ es) = Event.data_indication b ∷ upper es
upper (Event.connect_confirmation r ∷ es) = Event.connect_confirmation r ∷ upper es
upper (Event.connect_indication r ∷ es) = Event.connect_indication r ∷ upper es
upper (Event.disconnect_confirmation r ∷ es) = Event.disconnect_confirmation r ∷ upper es
upper (Event.disconnect_indication r ∷ es) = Event.disconnect_indication r ∷ upper es

-- The part of a link that sending frames leaves alone.
pub record Standing : Type 0 where
  pub state : State
  pub callbacks : Callbacks
  pub told : List Event
  pub t1 : ℕ
  pub t1timer : Timer
  pub t1timer_running : Bool
  pub t2timer_running : Bool

abbrev pub standing : X75Cb → Standing
standing c = record {
  state = c.state;
  callbacks = c.callbacks;
  told = upper c.events;
  t1 = c.t1;
  t1timer = c.t1timer;
  t1timer_running = c.t1timer_running;
  t2timer_running = c.t2timer_running;
}
