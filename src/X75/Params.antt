-- ===== src/X75/Params.antt =====
-- The parameters of a link: `x75_setparms` and `x75_getparms` (src/x75/x75_iface.c).
use ras.Base.{◌*◌, ◌%◌, ◌≤◌, ◌<◌, ◌≡◌, ◌⊎◌, inl, inr, true, false, ◌||◌, ltb, Bool-cases, arith}
use ras.Osmo.{Osmo}
use ras.X75.Types.{disconnected, ok, invalue, Parms, X75Cb, modulus_of}
use ras.X75.Iface.{window_fits, setparms, getparms}

-- What the code demands of the intervals and the retries, and of the window of a link that is down.
abbrev pub Positive : Parms → Type 0
Positive p = (1 ≤ p.t1) × (1 ≤ p.t2) × (1 ≤ p.n2)

abbrev pub WindowFits : Parms → Type 0
WindowFits p = (1 ≤ p.window) × (p.window < modulus_of p.mode.extended)

module _ ⦃o : Osmo⦄ where
  window_fits-WindowFits :
      (p : Parms) → (window_fits p ≡ true → WindowFits p) × (window_fits p ≡ false → ¬ WindowFits p)
  unfolding window_fits
  window_fits-WindowFits p = ((λ h. (ground arith, ground arith)), (λ h w. ground arith))

  -- The link with the parameters, the intervals in milliseconds and in 16 bits.
  abbrev pub retuned : Parms → X75Cb → X75Cb
  retuned p c = record c {
    mode = p.mode;
    window = p.window;
    t1 = p.t1 * 1000 % 65536;
    t2 = p.t2 * 1000 % 65536;
    n2 = p.n2 % 65536;
  }

  -- On a link that is down, parameters with an interval or the retries at 0, or with a window that
  -- is not between 1 and the modulus less one, are refused and nothing changes. Any others are taken:
  -- the mode and the window as given, the intervals in milliseconds and the retries, each cut to 16
  -- bits, so that an interval of 66 seconds or more is not the one given; and nothing else changes.
  pub setparms_lem :
      (p : Parms) (c : X75Cb)
      → c.state ≡ disconnected
      → (¬ (Positive p × WindowFits p) × (setparms p c ≡ (invalue, c)))
        ⊎ ((Positive p × WindowFits p) × (setparms p c ≡ (ok, retuned p c)))
  unfolding setparms
  setparms_lem p c s = elim (Bool-cases (ltb p.t1 1 || ltb p.t2 1 || ltb p.n2 1)) [
    | inl small ↦ inl ((λ h. ground arith), rw small)
    | inr positive ↦ elim (Bool-cases (window_fits p)) [
      | inl fits ↦ inr (
        ((ground arith, ground arith, ground arith), (window_fits-WindowFits p).0 fits),
        (let whole : p.window % 256 ≡ p.window =
              ground (arith, (window_fits-WindowFits p).0 fits) in
            rw (positive, s, fits, whole)),
      )
      | inr unfit ↦ inl ((λ h. (window_fits-WindowFits p).1 unfit h.1), rw (positive, s, unfit))
    ]
  ]

  -- On a link that is down, of intervals from 1 to 65 seconds, retries from 1 to 65535 and a window
  -- that fits, what is set is what is read back.
  pub getparms-setparms :
      (p : Parms) (c : X75Cb)
      → c.state ≡ disconnected
      → Positive p
      → p.t1 ≤ 65
      → p.t2 ≤ 65
      → p.n2 < 65536
      → WindowFits p
      → let q = getparms (setparms p c).1 in
        ((setparms p c).0 ≡ ok)
        × (q.t1 ≡ p.t1)
        × (q.t2 ≡ p.t2)
        × (q.n2 ≡ p.n2)
        × (q.window ≡ p.window)
        × (q.mode ≡ p.mode)
  unfolding setparms getparms window_fits
  getparms-setparms p c s pos h k l w = ground arith
