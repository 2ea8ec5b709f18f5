-- ===== src/X75/Delivery.antt =====
-- The frames of one kick, heard by the other station (src/x75/x75_out.c, src/x75/x75_in.c).
use ras.Base.{
  ℕ, suc, ◌+◌, ◌%◌, ◌<◌, ◌≡◌, refl, sym, subst, ap, ◌∙◌, Bool, true, false, List, [], ◌∷◌, ◌++◌,
  append-nil, append_assoc, length, length-take, take, drop, min, arith,
}
use ras.Osmo.{Osmo, Documented, HasMemory, Msgb, Queue}
use ras.X75.Types.{data_transfer, Mode, command, Event, Frame, X75Cb, modulus, modulus_of}
use ras.X75.Timer.{start_t1timer}
use ras.X75.Kick.{Outcome, returns, exits, copies_null, may_send, kick}
use ras.X75.Transfer.{on_info, input_decoded, data_input}
use ras.X75.Ring.{next-lt}
use ras.X75.Deliver.{delivered}
use ras.X75.Codec.{peer, info_frame, decode_iframe}
use ras.X75.Frame.{decode, address_tx, iframe_octets}
use ras.X75.Sending.{iframes, flight}
use ras.X75.Window.{kick-eq, kicked, room, armed, kick_start-lt}
use ras.X75.Core.{core}
use ras.X75.Wf.{Wf, in_range}
use ras.X75.Kick.{kick_start}
use ras.X75.Listening.{on_line, Ear, ear, with_buffer, Listens, input_one}

module _ ⦃o : Osmo⦄ where
  -- Buffers that arrive one after the other; `g` is what the local frame holds before each.
  unfoldable pub input_all : Frame → List Msgb → X75Cb → Outcome
  input_all g [] d = returns d
  input_all g (b ∷ bs) d = elim (data_input g b d) [
    | returns d' ↦ input_all g bs d'
    | exits d' ↦ exits d'
    | copies_null d' ↦ copies_null d'
  ]

  next_sum :
      (e : Bool) (v n : ℕ)
      → ((v + 1) % modulus_of e + n) % modulus_of e ≡ (v + suc n) % modulus_of e
  next_sum true v n = omega arith
  next_sum false v n = omega arith

  same_number : (e : Bool) (v : ℕ) → v < modulus_of e → (v + 0) % modulus_of e ≡ v
  same_number true v h = omega arith
  same_number false v h = omega arith

  with_buffer-Listens : (skb : Msgb) (e : Ear) (n : ℕ) → Listens n e → Listens n (with_buffer skb e)
  with_buffer-Listens skb e n l = record {
    in_transfer = l.in_transfer;
    all_sent = l.all_sent;
    all_acked = l.all_acked;
    in_range = l.in_range;
    none_waits = l.none_waits;
    hears = l.hears;
  }

  module _ (doc : Documented o) (c : X75Cb) (g : Frame) (vr_lt : c.vr < modulus c) where
    one_heard :
        (v : ℕ) (skb : Msgb) (d : X75Cb)
        → v < modulus c
        → Listens c.vr (ear d)
        → d.mode ≡ peer c.mode
        → v ≡ d.vr
        → (d' : X75Cb) × (data_input g
              (address_tx c.mode command ∷ (iframe_octets c.mode false v c.vr ++ skb))
              d
            ≡ returns d')
          × (ear d' ≡ with_buffer skb (ear d))
    unfolding data_input
    one_heard v skb d h l m e =
        let f = info_frame c.mode false v c.vr g in
        let read =
          decode_iframe doc c.mode.extended c.mode.mlp c.mode.dce false v c.vr skb g h vr_lt in
        let (ends, heard) = input_one skb f d l refl e refl in
        (
          on_info skb f d,
          ap
                (λ t.
                  input_decoded
                    (decode t
                      (address_tx c.mode command ∷ (iframe_octets c.mode false v c.vr ++ skb)) g)
                    d)
                m
              ∙ (ap (λ r. input_decoded r d) read ∙ ends),
          heard,
        )

    all_heard :
        (ws : Queue) (v : ℕ) (d : X75Cb)
        → v < modulus c
        → Listens c.vr (ear d)
        → d.mode ≡ peer c.mode
        → v ≡ d.vr
        → (d' : X75Cb) × (input_all g (on_line (iframes c v ws)) d ≡ returns d')
          × (delivered d'.events ≡ delivered d.events ++ ws)
          × (d'.vr ≡ (v + length ws) % modulus c)
    unfolding input_all iframes
    all_heard [] v d h l m e = (
      d,
      refl,
      sym (append-nil (delivered d.events)),
      sym e ∙ sym (same_number c.mode.extended v h),
    )
    all_heard (w ∷ ws) v d h l m e =
        let (d', ends, heard) = one_heard v w d h l m e in
        let counted =
          ap (λ n. (n + 1) % modulus c) e
          ∙ ap (λ (t : Mode). (d.vr + 1) % modulus_of t.extended) (sym m) in
        let (d'', ends', given, last) =
          all_heard ws ((v + 1) % modulus c) d' (next-lt c.mode.extended v)
            (subst (Listens c.vr) (sym heard) (with_buffer-Listens w (ear d) c.vr l))
            (ap (λ (x : Ear). x.mode) heard ∙ m) (counted ∙ sym (ap (λ (x : Ear). x.vr) heard)) in
        (
          d'',
          ap (go_on ws v) ends ∙ ends',
          given
              ∙ (ap (λ (x : Ear). x.given ++ ws) heard
                  ∙ append_assoc (delivered d.events) (w ∷ []) ws),
          last ∙ next_sum c.mode.extended v (length ws),
        )
      where
        go_on : Queue → ℕ → Outcome → Outcome
        go_on ws v r = elim r [
          | returns d' ↦ input_all g (on_line (iframes c ((v + 1) % modulus c) ws)) d'
          | exits d' ↦ exits d'
          | copies_null d' ↦ copies_null d'
        ]

module _ ⦃o : Osmo⦄ (doc : Documented o) (mem : HasMemory o) where
  armed-sent : (c : X75Cb) → ((armed c).events ≡ c.events) × ((armed c).vs ≡ c.vs)
  unfolding start_t1timer
  armed-sent c = (ground arith, ground arith)

  -- The hearing station: the link carries data in the other role, it has sent nothing that is not
  -- acknowledged, has nothing to send, and expects the number of the first frame.
  pub record Hears (c d : X75Cb) : Type 0 where
    pub in_transfer : d.state ≡ data_transfer
    pub other_role : d.mode ≡ peer c.mode
    pub all_sent : d.vs ≡ c.vr
    pub all_acked : d.va ≡ c.vr
    pub none_waits : d.write_queue_count ≡ 0
    pub expects : d.vr ≡ kick_start c
    pub indicates : d.callbacks.data_indication ≡ true

  -- Let the link be well formed and free to send, and let the other station, in the data transfer
  -- state and in the other role, expect the number that the link sends next; all that the station has
  -- sent is acknowledged up to V(R) of the link, nothing waits there to be sent, and its upper layer
  -- takes data. Then what `x75_kick` hands down reaches that station whole: when the buffers arrive
  -- there in order, `x75_data_input` returns for each, the upper layer is given the first frames of
  -- the queue, as many as the window has room for, in order and unchanged, and V(R) there is then
  -- V(S) of the sender.
  pub kick-heard :
      (c d : X75Cb) (g : Frame)
      → Wf (core c)
      → may_send c ≡ true
      → Hears c d
      → (c' : X75Cb) × (sent : List Event) × (d' : X75Cb) × (kick c ≡ returns c')
        × (c'.events ≡ c.events ++ sent)
        × (input_all g (on_line sent) d ≡ returns d')
        × (delivered d'.events ≡ delivered d.events ++ take (room c) c.write_queue)
        × (d'.vr ≡ c'.vs)
  kick-heard c d g w go t =
      let s = kick_start c in
      let ws = take (room c) c.write_queue in
      let count = min (length c.write_queue) (room c) in
      let bare =
        flight c ((s + count) % modulus c) (drop (room c) c.write_queue) (c.ack_queue ++ ws)
          (c.events ++ iframes c s ws) in
      let extended : d.mode.extended ≡ c.mode.extended =
        ap (λ (m : Mode). m.extended) t.other_role in
      let listens : Listens c.vr (ear d) = record {
        in_transfer = t.in_transfer;
        all_sent = t.all_sent;
        all_acked = t.all_acked;
        in_range = subst (λ e. c.vr < modulus_of e) (sym extended) w.vr_lt;
        none_waits = t.none_waits;
        hears = t.indicates;
      } in
      let (d', ends, given, last) =
        all_heard doc c g w.vr_lt ws s d (kick_start-lt c (in_range w)) listens t.other_role
          (sym t.expects) in
      let as_many : length ws ≡ count = omega (arith, length-take (room c) c.write_queue) in
      (
        kicked c,
        iframes c s ws,
        d',
        kick-eq doc mem c (record { write_counted = w.write_counted; ack_counted = w.ack_counted })
            w.transmits (in_range w) go,
        (armed-sent bare).0,
        ends,
        given,
        last ∙ (ap (λ n. (s + n) % modulus c) as_many ∙ sym (armed-sent bare).1),
      )
