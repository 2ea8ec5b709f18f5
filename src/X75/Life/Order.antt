-- ===== src/X75/Life/Order.antt =====
-- The order of what the upper layer is told over the life of a link (src/x75/x75_in.c,
-- src/x75/x75_iface.c).
use ras.Base.{◌≡◌, refl, sym, subst, ap, ◌∙◌, Bool, true, false, List, [], ◌∷◌, ◌++◌}
use ras.Osmo.{Osmo}
use ras.X75.Types.{
  State, disconnected, data_transfer, frame_reject, Event, connect_confirmation, connect_indication,
  disconnect_confirmation, disconnect_indication, data_indication, data_transmit, Mode, X75Cb,
}
use ras.X75.Life.{Input, left, happens, Reach, here, next, upper}
use ras.X75.Life.Service.{
  Label, Leads, stays, calls, calls_at_release, aborts, releases, releases_rejected, accepts,
  recovers, confirms, refuses, released_by_ua, released_by_dm, delivers, rejects, restarts,
  disconnected_by_peer, lost_by_peer, dials, gives_up, gives_up_release, all_set,
}
use ras.X75.Life.Refines.{happens-Answers}

-- Whether the upper layer takes the link to be up, after a call.
abbrev pub up : Bool → Event → Bool
up b (connect_confirmation r) = true
up b (connect_indication r) = true
up b (disconnect_confirmation r) = false
up b (disconnect_indication r) = false
up b (data_indication m) = b
up b (data_transmit m) = b

abbrev pub ups : Bool → List Event → Bool
ups b [] = b
ups b (e ∷ es) = ups (up b e) es

-- Data comes only while the link is up.
abbrev pub Fits : Bool → Event → Type 0
Fits b (data_indication m) = b ≡ true
Fits b (connect_confirmation r) = Unit
Fits b (connect_indication r) = Unit
Fits b (disconnect_confirmation r) = Unit
Fits b (disconnect_indication r) = Unit
Fits b (data_transmit m) = Unit

abbrev pub InOrder : Bool → List Event → Type 0
InOrder b [] = Unit
InOrder b (e ∷ es) = Fits b e × InOrder (up b e) es

-- The states in which data is taken and given.
abbrev pub carries : State → Bool
carries data_transfer = true
carries frame_reject = true
carries _ = false

InOrder-append :
    (b : Bool) (es fs : List Event) → InOrder b es → InOrder (ups b es) fs → InOrder b (es ++ fs)
InOrder-append b [] fs p q = q
InOrder-append b (e ∷ es) fs p q = (p.0, InOrder-append (up b e) es fs p.1 q)

ups-append : (b : Bool) (es fs : List Event) → ups b (es ++ fs) ≡ ups (ups b es) fs
ups-append b [] fs = refl
ups-append b (e ∷ es) fs = ups-append (up b e) es fs

-- The service keeps the order: it carries data only while the link is up.
abbrev Keeps : Bool → State → List Event → State → Type 0
Keeps b s es t = (carries s ≡ true → b ≡ true) → InOrder b es × (carries t ≡ true → ups b es ≡ true)

Leads-Keeps :
    {m : Mode} {l : Label} {s t : State} {es : List Event} (b : Bool)
    → Leads m l s es t
    → Keeps b s es t
Leads-Keeps b (stays l s q) h = (tt, h)
Leads-Keeps b calls h = (tt, λ c. cc)
Leads-Keeps b calls_at_release h = (tt, λ c. cc)
Leads-Keeps b aborts h = (tt, λ c. cc)
Leads-Keeps b releases h = (tt, λ c. cc)
Leads-Keeps b releases_rejected h = (tt, λ c. cc)
Leads-Keeps b (accepts f m e) h = ((tt, tt), λ c. refl)
Leads-Keeps b (recovers f m e) h = ((tt, tt), λ c. refl)
Leads-Keeps b (confirms f m e p) h = ((tt, tt), λ c. refl)
Leads-Keeps b (refuses f m e p) h = ((tt, tt), λ c. cc)
Leads-Keeps b (released_by_ua f m e p) h = ((tt, tt), λ c. cc)
Leads-Keeps b (released_by_dm f m e p) h = ((tt, tt), λ c. cc)
Leads-Keeps b (delivers f m e) h = ((h refl, tt), h)
Leads-Keeps b (rejects f m e) h = (tt, λ c. h refl)
Leads-Keeps b (restarts f m e) h = (tt, λ c. cc)
Leads-Keeps b (disconnected_by_peer f m e) h = ((tt, tt), λ c. cc)
Leads-Keeps b (lost_by_peer f m e) h = ((tt, tt), λ c. cc)
Leads-Keeps b dials h = (tt, λ c. cc)
Leads-Keeps b (gives_up s e) h = ((tt, tt), λ c. cc)
Leads-Keeps b gives_up_release h = ((tt, tt), λ c. cc)

-- What holds of a link that began with nothing told.
pub record Orderly (c : X75Cb) : Type 0 where
  pub in_order : InOrder false (upper c.events)
  pub up_while_carried : carries c.state ≡ true → ups false (upper c.events) ≡ true
  pub callbacks : c.callbacks ≡ all_set

module _ ⦃o : Osmo⦄ where
  happens-Orderly : (i : Input) (c : X75Cb) → Orderly c → Orderly (left (happens i c))
  happens-Orderly i c k =
      let (es, t, leads, moves) = happens-Answers i c k.callbacks in
      let told = upper c.events in
      let (kept, carried) = Leads-Keeps (ups false told) leads k.up_while_carried in
      record {
        in_order =
            subst (InOrder false) (sym moves.told) (InOrder-append false told es k.in_order kept);
        up_while_carried = λ h.
            ap (ups false) moves.told
            ∙ (ups-append false told es ∙ carried (ap carries (sym moves.to) ∙ h));
        callbacks = moves.callbacks ∙ k.callbacks;
      }

  -- Let the callbacks of a link be all set, let it be in the disconnected state, and let its upper layer
  -- have been told nothing. In whatever order it is called, its timers run out and frames arrive, of any
  -- content: each data indication comes behind a connect indication or confirmation and before any
  -- disconnect one, and while the link is in the data transfer or the frame reject state, the last of
  -- these that came is a connect.
  pub run-Orderly :
      (c d : X75Cb)
      → c.state ≡ disconnected
      → upper c.events ≡ []
      → c.callbacks ≡ all_set
      → Reach c d
      → InOrder false (upper d.events)
        × (carries d.state ≡ true → ups false (upper d.events) ≡ true)
  run-Orderly c d st told h r = let k = all r in (k.in_order, k.up_while_carried)
    where
      start : Orderly c
      start = record {
        in_order = subst (InOrder false) (sym told) tt;
        up_while_carried = λ x. absurd (subst (λ s. carries s ≡ true → ⊥) (sym st) (λ y. cc) x);
        callbacks = h;
      }

      all : {d : X75Cb} → Reach c d → Orderly d
      all here = start
      all (next {d} {d'} r i e) = subst Orderly (ap left e) (happens-Orderly i d (all r))
