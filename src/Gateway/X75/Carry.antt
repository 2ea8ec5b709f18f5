-- ===== src/Gateway/X75/Carry.antt =====
-- What the link sends goes to the line, and what it receives to the TCP connection: the program of
-- src/yate_x75.c over any sequence of what `osmo_select_main` hands to it.
use ras.Base.{
  ℕ, ◌≡◌, refl, sym, subst, ap, ap₂, ◌∙◌, Bool, true, length, take, take_all, arith, if◌then◌else◌,
  List, [], ◌∷◌, ◌++◌, append-nil, append_assoc,
}
use ras.X75.Types.{
  Frame, X75Cb, connect_confirmation, connect_indication, disconnect_confirmation,
  disconnect_indication, data_indication, data_transmit,
}
use ras.X75.Types
use ras.X75.Kick.{Outcome, returns, exits, copies_null}
use ras.Line.{Hdlc, rest_of_packet}
use ras.Line.Packets.{concat, waiting, Sound}
use ras.Gateway.X75.{
  Gateway, Ended, ended, endless, exited, null_copied, and_then, call_back, call_backs, on_link,
}

-- The octets of the frames that the link sent, and of the payloads that it received, in order.
abbrev pub transmitted : List Types.Event → List ℕ
transmitted [] = []
transmitted (data_transmit skb ∷ log) = skb ++ transmitted log
transmitted (connect_confirmation c ∷ log) = transmitted log
transmitted (connect_indication c ∷ log) = transmitted log
transmitted (disconnect_confirmation c ∷ log) = transmitted log
transmitted (disconnect_indication c ∷ log) = transmitted log
transmitted (data_indication skb ∷ log) = transmitted log

abbrev pub indicated : List Types.Event → List ℕ
indicated [] = []
indicated (data_indication skb ∷ log) = skb ++ indicated log
indicated (connect_confirmation c ∷ log) = indicated log
indicated (connect_indication c ∷ log) = indicated log
indicated (disconnect_confirmation c ∷ log) = indicated log
indicated (disconnect_indication c ∷ log) = indicated log
indicated (data_transmit skb ∷ log) = indicated log

transmitted-append :
    (xs ys : List Types.Event) → transmitted (xs ++ ys) ≡ transmitted xs ++ transmitted ys
transmitted-append [] ys = refl
transmitted-append (data_transmit skb ∷ xs) ys =
    ap (λ t. skb ++ t) (transmitted-append xs ys)
    ∙ sym (append_assoc skb (transmitted xs) (transmitted ys))
transmitted-append (connect_confirmation c ∷ xs) ys = transmitted-append xs ys
transmitted-append (connect_indication c ∷ xs) ys = transmitted-append xs ys
transmitted-append (disconnect_confirmation c ∷ xs) ys = transmitted-append xs ys
transmitted-append (disconnect_indication c ∷ xs) ys = transmitted-append xs ys
transmitted-append (data_indication skb ∷ xs) ys = transmitted-append xs ys

indicated-append : (xs ys : List Types.Event) → indicated (xs ++ ys) ≡ indicated xs ++ indicated ys
indicated-append [] ys = refl
indicated-append (data_indication skb ∷ xs) ys =
    ap (λ t. skb ++ t) (indicated-append xs ys)
    ∙ sym (append_assoc skb (indicated xs) (indicated ys))
indicated-append (connect_confirmation c ∷ xs) ys = indicated-append xs ys
indicated-append (connect_indication c ∷ xs) ys = indicated-append xs ys
indicated-append (disconnect_confirmation c ∷ xs) ys = indicated-append xs ys
indicated-append (disconnect_indication c ∷ xs) ys = indicated-append xs ys
indicated-append (data_transmit skb ∷ xs) ys = indicated-append xs ys

concat-behind :
    (queue : List (List ℕ)) (skb : List ℕ) → concat (queue ++ (skb ∷ [])) ≡ concat queue ++ skb
concat-behind [] skb = append-nil skb
concat-behind (p ∷ queue) skb =
    ap (λ t. p ++ t) (concat-behind queue skb) ∙ sym (append_assoc p (concat queue) skb)

-- The octets that the encoder has taken, with those that wait, are those of the frames that the link
-- sent; the octets written to the TCP connection are those of the payloads that it received.
pub record Faithful (h : Hdlc) (g : Gateway h) : Type 0 where
  pub sends : g.taken ++ waiting g.tx ≡ transmitted g.log
  pub passes : g.telnet_out ≡ indicated g.log
  pub open_telnet : g.telnet ≡ true
  pub sound : Sound g.tx

-- However the program ends, it does return from each call, or exits, or hands on a null pointer.
abbrev pub EndsFaithful : (h : Hdlc) → Ended (Gateway h) → Type 0
EndsFaithful h (ended g) = Faithful h g
EndsFaithful h endless = ⊥
EndsFaithful h exited = Unit {0}
EndsFaithful h null_copied = Unit {0}

module _ (h : Hdlc) (wrote : ℕ → ℕ) (all : (n : ℕ) → wrote n ≡ n) where
  logged : Types.Event → Gateway h → Gateway h
  logged e g = let g' = call_back h wrote e g in record g' { log = g'.log ++ (e ∷ []) }

  -- Nothing is sent and nothing received.
  quiet :
      (e : Types.Event) (g g' : Gateway h)
      → Faithful h g
      → g'.tx ≡ g.tx
      → g'.taken ≡ g.taken
      → g'.telnet_out ≡ g.telnet_out
      → g'.telnet ≡ g.telnet
      → g'.log ≡ g.log ++ (e ∷ [])
      → transmitted (e ∷ []) ≡ []
      → indicated (e ∷ []) ≡ []
      → Faithful h g'
  quiet e g g' f tx taken out telnet log sends passes = record {
    sends =
        ap₂ (λ xs t. xs ++ waiting t) taken tx
        ∙ (f.sends
            ∙ sym (
                ap transmitted log
                ∙ (transmitted-append g.log (e ∷ [])
                    ∙ (ap (λ t. transmitted g.log ++ t) sends ∙ append-nil (transmitted g.log)))));
    passes =
        out
        ∙ (f.passes
            ∙ sym (
                ap indicated log
                ∙ (indicated-append g.log (e ∷ [])
                    ∙ (ap (λ t. indicated g.log ++ t) passes ∙ append-nil (indicated g.log)))));
    open_telnet = telnet ∙ f.open_telnet;
    sound = subst Sound (sym tx) f.sound;
  }

  payload_logged : List ℕ → Gateway h → Gateway h
  payload_logged skb g = record g {
    telnet_out = g.telnet_out ++ skb;
    log = g.log ++ (data_indication skb ∷ []);
  }

  payload_logged-Faithful :
      (skb : List ℕ) (g : Gateway h) → Faithful h g → Faithful h (payload_logged skb g)
  unfolding payload_logged
  payload_logged-Faithful skb g f = record {
    sends =
        f.sends
        ∙ sym
            (transmitted-append g.log (data_indication skb ∷ []) ∙ append-nil (transmitted g.log));
    passes =
        ap (λ t. t ++ skb) f.passes
        ∙ sym (
            indicated-append g.log (data_indication skb ∷ [])
            ∙ ap (λ t. indicated g.log ++ t) (append-nil skb));
    open_telnet = f.open_telnet;
    sound = f.sound;
  }

  frame_logged-Faithful :
      (skb : List ℕ) (g : Gateway h) → Faithful h g → Faithful h (logged (data_transmit skb) g)
  unfolding logged call_back
  frame_logged-Faithful skb g f =
      let rest = rest_of_packet g.tx in
      let queue = g.tx.isdn_hdlc_tx_queue in
      record {
        sends =
            ap (λ t. g.taken ++ t)
              (ap (λ t. rest ++ t) (concat-behind queue skb)
                ∙ sym (append_assoc rest (concat queue) skb))
            ∙ (sym (append_assoc g.taken (waiting g.tx) skb)
                ∙ (ap (λ t. t ++ skb) f.sends
                    ∙ sym (
                        transmitted-append g.log (data_transmit skb ∷ [])
                        ∙ ap (λ t. transmitted g.log ++ t) (append-nil skb))));
        passes =
            f.passes
            ∙ sym (indicated-append g.log (data_transmit skb ∷ []) ∙ append-nil (indicated g.log));
        open_telnet = f.open_telnet;
        sound = f.sound;
      }

  logged-Faithful : (e : Types.Event) (g : Gateway h) → Faithful h g → Faithful h (logged e g)
  unfolding logged call_back payload_logged
  logged-Faithful (connect_confirmation c) g f =
      quiet (connect_confirmation c) g _ f refl refl refl refl refl refl refl
  logged-Faithful (connect_indication c) g f =
      quiet (connect_indication c) g _ f refl refl refl refl refl refl refl
  logged-Faithful (disconnect_confirmation c) g f =
      quiet (disconnect_confirmation c) g _ f refl refl refl refl refl refl refl
  logged-Faithful (disconnect_indication c) g f =
      quiet (disconnect_indication c) g _ f refl refl refl refl refl refl refl
  logged-Faithful (data_indication skb) g f =
      let whole : take (wrote (length skb)) skb ≡ skb =
        take_all (wrote (length skb)) skb (omega (arith, all (length skb))) in
      let by = λ (b : Bool) (l : List ℕ).
        let g' = if b then record g { telnet_out = g.telnet_out ++ l } else g in
        record g' { log = g'.log ++ (data_indication skb ∷ []) } in
      subst (Faithful h) (sym (ap₂ by f.open_telnet whole)) (payload_logged-Faithful skb g f)
  logged-Faithful (data_transmit skb) g f = frame_logged-Faithful skb g f

  call_backs-Faithful :
      (events : List Types.Event) (g : Gateway h)
      → Faithful h g
      → Faithful h (call_backs h wrote events g)
  unfolding call_backs logged
  call_backs-Faithful [] g f = f
  call_backs-Faithful (e ∷ events) g f =
      call_backs-Faithful events (logged e g) (logged-Faithful e g f)

  -- The link itself is no part of it.
  pub with_link :
      (c : X75Cb) (g : Gateway h) → Faithful h g → Faithful h (record g { x75_instance = c })
  with_link c g f = record {
    sends = f.sends;
    passes = f.passes;
    open_telnet = f.open_telnet;
    sound = f.sound;
  }

  pub on_link-EndsFaithful :
      (f : X75Cb → Outcome) (g : Gateway h) → Faithful h g → EndsFaithful h (on_link h wrote f g)
  unfolding on_link
  on_link-EndsFaithful f g k = by_outcome (f (record (g.x75_instance) { events = [] }))
    where
      by_outcome :
          (r : Outcome)
          → EndsFaithful h (elim r [
            | returns c ↦
                ended (
                  call_backs h wrote c.events
                    (record g { x75_instance = record c { events = [] } }))
            | exits c ↦ exited
            | copies_null c ↦ null_copied
          ])
      by_outcome (returns c) =
          call_backs-Faithful c.events _ (with_link (record c { events = [] }) g k)
      by_outcome (exits c) = tt
      by_outcome (copies_null c) = tt

  pub and_then-EndsFaithful :
      (f : Gateway h → Ended (Gateway h)) (e : Ended (Gateway h))
      → ((g : Gateway h) → Faithful h g → EndsFaithful h (f g))
      → EndsFaithful h e
      → EndsFaithful h (and_then f e)
  and_then-EndsFaithful f (ended g) k l = k g l
  and_then-EndsFaithful f endless k l = l
  and_then-EndsFaithful f exited k l = l
  and_then-EndsFaithful f null_copied k l = l
