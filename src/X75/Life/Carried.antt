-- ===== src/X75/Life/Carried.antt =====
-- A link that carries data, whatever happens to it but its release (src/x75/x75_in.c,
-- src/x75/x75_iface.c, src/x75/x75_timer.c).
use ras.Base.{
  Octets, ◌≡◌, ◌≢◌, refl, sym, subst, ap, Bool, true, false, not, ◌||◌, Option, none, some,
  if◌then◌else◌, arith,
}
use ras.Osmo.{Osmo, Documented, HasMemory, Msgb, Expiry, t1timer_expiry, t2timer_expiry}
use ras.X75.Types.{data_transfer, Frame, Parms, X75Cb}
use ras.X75.Frame.{decode}
use ras.X75.Kick.{Outcome, returns}
use ras.X75.Expiry.{t1_dispatch, t1_expires, t2_expires, expires}
use ras.X75.Iface.{connect_dispatch, connect_request, data_received, setparms}
use ras.X75.Core.{core}
use ras.X75.Wf.{Wf}
use ras.X75.T2.{t2_expires_rest}
use ras.X75.Input.{KeepsLink, data_input-Wf, data_request-Wf, t1_retry-Wf}
use ras.X75.Life.{
  Input, connects, disconnects, sends, receives, tunes, t1_runs_out, t2_runs_out, happens,
}

-- What does not release the link: no disconnect request, no DISC or DM frame, and T1 with a retry left.
abbrev pub Keeps : ⦃o : Osmo⦄ → Input → X75Cb → Type 0
Keeps connects c = Unit
Keeps disconnects c = ⊥
Keeps (sends skb) c = Unit
Keeps (receives garbage skb) c =
    Octets skb
    × ((f : Frame) (rest : Msgb) → decode c.mode skb garbage ≡ some (f, rest) → KeepsLink f)
Keeps (tunes p) c = Unit
Keeps t1_runs_out c = c.n2count ≢ c.n2
Keeps t2_runs_out c = c.n2count ≢ c.n2

module _ ⦃o : Osmo⦄ where
  -- A call that returns a well-formed link.
  abbrev pub ReturnsWf : Outcome → Type 0
  ReturnsWf r = (c' : X75Cb) × (r ≡ returns c') × Wf (core c')

  setparms-core : (p : Parms) (c : X75Cb) → c.state ≡ data_transfer → core (setparms p c).1 ≡ core c
  unfolding setparms
  setparms-core p c st = ground arith

  either-ReturnsWf :
      (b : Bool) (x y : Outcome) → ReturnsWf x → ReturnsWf y → ReturnsWf (if b then x else y)
  either-ReturnsWf true x y p q = p
  either-ReturnsWf false x y p q = q

  module _ (doc : Documented o) (mem : HasMemory o) where
    expires-Wf :
        (e : Option Expiry) (c : X75Cb)
        → Wf (core c)
        → c.state ≡ data_transfer
        → c.n2count ≢ c.n2
        → ReturnsWf (expires e c)
    unfolding expires t1_expires
    expires-Wf none c w st left = (c, refl, w)
    expires-Wf (some t1timer_expiry) c w st left =
        either-ReturnsWf (o.osmo_timer_pending c.t1timer || not c.t1timer_running) (returns c)
          (t1_dispatch c.state c) (c, refl, w)
          (subst (λ s. ReturnsWf (t1_dispatch s c)) (sym st) (t1_retry-Wf doc mem c w left))
    expires-Wf (some t2timer_expiry) c w st left =
        (t2_expires c, refl, subst Wf (sym (t2_expires_rest doc c).same_core) w)

    -- Whatever happens to a well-formed link in the data transfer state, but for a disconnect request, a
    -- DISC or DM frame and an expiry with no retry left, the call returns, so that the program neither ends
    -- nor copies a null pointer, and the link is well formed again. Frames may be of any octets.
    pub happens-Wf :
        (i : Input) (c : X75Cb)
        → Wf (core c)
        → c.state ≡ data_transfer
        → Keeps i c
        → (c' : X75Cb) × (happens i c ≡ returns c') × Wf (core c')
    unfolding happens connect_request connect_dispatch data_received
    happens-Wf connects c w st k = (c, ap (λ s. returns (connect_dispatch s c).1) st, w)
    happens-Wf disconnects c w st k = absurd k
    happens-Wf (sends skb) c w st k =
        let (c', r, w') = data_request-Wf doc mem skb c w st in (c', ap (λ p. p.1) r, w')
    happens-Wf (receives garbage skb) c w st k = data_input-Wf doc mem garbage skb c w st k.0 k.1
    happens-Wf (tunes p) c w st k =
        ((setparms p c).1, refl, subst Wf (sym (setparms-core p c st)) w)
    happens-Wf t1_runs_out c w st k =
        expires-Wf c.t1timer.cb (record c { t1timer = o.osmo_timer_del c.t1timer }) w st k
    happens-Wf t2_runs_out c w st k =
        expires-Wf c.t2timer.cb (record c { t2timer = o.osmo_timer_del c.t2timer }) w st k
