-- ===== src/X75/Input.antt =====
-- The entry points of a link that carries data: `x75_data_input`, `x75_data_request` and the
-- function of T1 (src/x75/x75_in.c, src/x75/x75_iface.c, src/x75/x75_timer.c).
use ras.Base.{
  Octets, ◌<◌, ◌≡◌, ◌≢◌, refl, sym, subst, ap, ◌∙◌, true, Option, none, some, [], ◌∷◌,
  length-append, ==_of_ne, arith, ◌▹◌,
}
use ras.Osmo.{Osmo, Documented, HasMemory, Msgb}
use ras.X75.Types.{data_transfer, ok, disc, dm, Frame, X75Cb, modulus}
use ras.X75.Frame.{decode}
use ras.X75.Queues.{enqueue_write, requeue_frames}
use ras.X75.Kick.{returns}
use ras.X75.Transfer.{state_machine, state3_machine, input_decoded, data_input}
use ras.X75.Timer.{start_t1timer}
use ras.X75.Expiry.{count_retry, then_start, t1_dispatch}
use ras.X75.Iface.{data_dispatch, data_request}
use ras.X75.Core.{core}
use ras.X75.Wf.{Wf, kick-Wf, requeue_frames-Wf}
use ras.X75.Carry.{carries_nr, state3_dispatch-Wf}
use ras.X75.Read.{decode_good}

-- A frame that does not release the link.
abbrev pub KeepsLink : Frame → Type 0
KeepsLink f = (f.type ≢ disc) × (f.type ≢ dm)

module _ ⦃o : Osmo⦄ (doc : Documented o) (mem : HasMemory o) where
  pub enqueue_write-Wf : (skb : Msgb) (c : X75Cb) → Wf (core c) → Wf (core (enqueue_write skb c))
  unfolding enqueue_write
  enqueue_write-Wf skb c w =
      rw (doc.enqueue c.write_queue skb c.write_queue_count)
        (ground (arith, length-append c.write_queue (skb ∷ [])))

  transfer-Wf :
      (f : Frame) (b : Msgb) (c : X75Cb)
      → Wf (core c)
      → c.state ≡ data_transfer
      → (carries_nr f.type ≡ true → f.nr < modulus c)
      → KeepsLink f
      → Wf (core (state_machine c.state b f c))
  unfolding state_machine state3_machine
  transfer-Wf f b c w s h k =
      subst (λ t. Wf (core (state_machine t b f c))) (sym s)
        (state3_dispatch-Wf doc f.type b f c w h k.0 k.1)

  -- A frame that arrives in the data transfer state and is no DISC and no DM, well formed or not,
  -- leaves a well-formed link well formed, and `x75_data_input` returns. The octets may be any, and
  -- the local frame may hold anything before.
  pub data_input-Wf :
      (g : Frame) (skb : Msgb) (c : X75Cb)
      → Wf (core c)
      → c.state ≡ data_transfer
      → Octets skb
      → ((f : Frame) (rest : Msgb) → decode c.mode skb g ≡ some (f, rest) → KeepsLink f)
      → (c' : X75Cb) × (data_input g skb c ≡ returns c') × Wf (core c')
  unfolding data_input
  data_input-Wf g skb c w s h keeps = go (decode c.mode skb g) refl
    where
      go :
          (d : Option (Frame × Msgb))
          → decode c.mode skb g ≡ d
          → (c' : X75Cb) × (input_decoded d c ≡ returns c') × Wf (core c')
      go none e = (c, refl, w)
      go (some (f, b)) e =
          kick-Wf doc mem (state_machine c.state b f c)
            (transfer-Wf f b c w s (decode_good doc c.mode skb g h e).0 (keeps f b e))

  -- On a well-formed link in the data transfer state, `x75_data_request` returns X75_OK for any
  -- frame to be sent, and the link is well formed again.
  pub data_request-Wf :
      (skb : Msgb) (c : X75Cb)
      → Wf (core c)
      → c.state ≡ data_transfer
      → (c' : X75Cb) × (data_request skb c ≡ (ok, returns c')) × Wf (core c')
  unfolding data_request
  data_request-Wf skb c w s =
      let (c', r, w') = kick-Wf doc mem (enqueue_write skb c) (enqueue_write-Wf skb c w) in
      (c', ap (λ t. data_dispatch t skb c) s ∙ ap (λ r. (ok, r)) r, w')

  -- When T1 runs out on a well-formed link in the data transfer state and the count of retries is
  -- not N2, its function returns, and the link is well formed again.
  pub t1_retry-Wf :
      (c : X75Cb)
      → Wf (core c)
      → c.n2count ≢ c.n2
      → (c' : X75Cb) × (t1_dispatch data_transfer c ≡ returns c') × Wf (core c')
  unfolding t1_dispatch then_start start_t1timer
  t1_retry-Wf c w left =
      let again = count_retry c ▹ requeue_frames in
      let (c', r, w') = kick-Wf doc mem again (requeue_frames-Wf doc (count_retry c) w) in
      (start_t1timer c', rw (==_of_ne c.n2count c.n2 left, r), w')
