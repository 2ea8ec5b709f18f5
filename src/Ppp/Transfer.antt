-- ===== src/Ppp/Transfer.antt =====
-- Packets that pppd sends, encoded as src/ppp/pppd.c and RFC 1662 do, through `pppd_input_cb` of the
-- same file, however the reads cut the stream.
use ras.Base.{
  ℕ, suc, ◌+◌, ◌≤◌, ◌≡◌, refl, sym, ap, ◌∙◌, append-nil, append_assoc, List, [], ◌∷◌, ◌++◌, some,
  length, Octets, arith,
}
use mathlib.Core.Option.{some-injective, none-ne-some}
use ras.Ppp.{
  temp_pack_size, Rfc1662, Action, go_on, packet, too_many, between_packets, take_octet, frame,
  Input, done, stuck, queue_packet, input_loop, rfc1662_encode,
}
use ras.Ppp.Stream.{stream}
use ras.Ppp.Read.{input_loop-stream}
use ras.Ppp.Escape.{after_action, stream-rfc1662_encode}

-- What pppd writes for the packets.
unfoldable pub encoded : List (List ℕ) → List ℕ
encoded [] = []
encoded (p ∷ packets) = rfc1662_encode p ++ encoded packets

-- Packets of octets with room for the checksum.
abbrev pub Fitting : List (List ℕ) → Type 0
Fitting [] = Unit {0}
Fitting (p ∷ packets) = (Octets p × (length p + 2 ≤ temp_pack_size)) × Fitting packets

unfoldable pub queue_packets : List (List ℕ) → List (List ℕ) → List (List ℕ)
queue_packets [] queued = queued
queue_packets (p ∷ packets) queued = queue_packets packets (queue_packet (frame p) queued)

pub stream-encoded :
    (packets queued : List (List ℕ))
    → Fitting packets
    → stream (encoded packets) queued between_packets
      ≡ some (queue_packets packets queued, between_packets)
unfolding encoded queue_packets stream
stream-encoded [] queued h = refl
stream-encoded (p ∷ packets) queued h =
    stream-rfc1662_encode p (encoded packets) queued h.0.0 h.0.1
    ∙ stream-encoded packets (queue_packet (frame p) queued) h.1

-- Reads one after the other; the loop over each has as many rounds as octets, and one.
unfoldable pub reads : List (List ℕ) → List (List ℕ) → Rfc1662 → Input
reads [] queued s = done queued s
reads (read ∷ more) queued s = elim (input_loop (suc (length read)) read queued s) [
  | done queued' s' ↦ reads more queued' s'
  | stuck queued' s' ↦ stuck queued' s'
]

abbrev pub joined : List (List ℕ) → List ℕ
joined [] = []
joined (read ∷ more) = read ++ joined more

abbrev pub TwoOrMore : List (List ℕ) → Type 0
TwoOrMore [] = Unit {0}
TwoOrMore (read ∷ more) = (2 ≤ length read) × TwoOrMore more

-- Octets that are read to the end are read to any point before.
pub stream-split :
    (xs ys : List ℕ) (queued : List (List ℕ)) (s : Rfc1662) (end : List (List ℕ) × Rfc1662)
    → stream (xs ++ ys) queued s ≡ some end
    → (mid : List (List ℕ) × Rfc1662) × (stream xs queued s ≡ some mid)
      × (stream ys mid.0 mid.1 ≡ some end)
unfolding stream after_action
stream-split [] ys queued s end h = ((queued, s), refl, h)
stream-split (x ∷ xs) ys queued s end h =
    by_action (take_octet temp_pack_size x s) h (λ q t k. stream-split xs ys q t end k)
  where
    by_action :
        (a : Action)
        → after_action a (xs ++ ys) queued ≡ some end
        → ((q : List (List ℕ)) (t : Rfc1662)
            → stream (xs ++ ys) q t ≡ some end
            → (mid : List (List ℕ) × Rfc1662) × (stream xs q t ≡ some mid)
              × (stream ys mid.0 mid.1 ≡ some end))
        → (mid : List (List ℕ) × Rfc1662) × (after_action a xs queued ≡ some mid)
          × (stream ys mid.0 mid.1 ≡ some end)
    by_action (go_on s') k rec = rec queued s' k
    by_action (packet p s') k rec = rec (queue_packet (frame p) queued) s' k
    by_action (too_many s') k rec = absurd (none-ne-some _ k)

reads-stream :
    (chunks queued : List (List ℕ)) (s : Rfc1662) (end : List (List ℕ) × Rfc1662)
    → TwoOrMore chunks
    → stream (joined chunks) queued s ≡ some end
    → reads chunks queued s ≡ done end.0 end.1
unfolding reads stream
reads-stream [] queued s end h k = ap (λ t. done t.0 t.1) (some-injective _ _ k)
reads-stream (read ∷ chunks) queued s end h k =
    let (mid, first, rest) = stream-split read (joined chunks) queued s end k in
    ap (goes_on) (input_loop-stream (suc (length read)) read queued s mid h.0 (omega arith) first)
    ∙ reads-stream chunks mid.0 mid.1 end h.1 rest
  where
    goes_on : Input → Input
    goes_on r = elim r [
      | done queued' s' ↦ reads chunks queued' s'
      | stuck queued' s' ↦ stuck queued' s'
    ]

-- The packets that are not empty.
abbrev pub not_empty : List (List ℕ) → List (List ℕ)
not_empty [] = []
not_empty ([] ∷ packets) = not_empty packets
not_empty ((x ∷ p) ∷ packets) = (x ∷ p) ∷ not_empty packets

queue_packets-not_empty :
    (packets queued : List (List ℕ)) → queue_packets packets queued ≡ queued ++ not_empty packets
unfolding queue_packets
queue_packets-not_empty [] queued = sym (append-nil queued)
queue_packets-not_empty ([] ∷ packets) queued = queue_packets-not_empty packets queued
queue_packets-not_empty ((x ∷ p) ∷ packets) queued =
    let kept : queue_packet (frame (x ∷ p)) queued ≡ queued ++ ((x ∷ p) ∷ []) = ground arith in
    ap (queue_packets packets) kept
    ∙ (queue_packets-not_empty packets (queued ++ ((x ∷ p) ∷ []))
        ∙ append_assoc queued ((x ∷ p) ∷ []) (not_empty packets))

-- Let pppd write packets of at most 2046 octets, each encoded, and let reads of two octets or more
-- each cut that stream in any way. Then each call of `pppd_input_cb` comes to its end, and the packets
-- that are not empty are queued for the line, in order and unchanged.
pub reads-encoded :
    (packets chunks : List (List ℕ))
    → Fitting packets
    → TwoOrMore chunks
    → joined chunks ≡ encoded packets
    → reads chunks [] between_packets ≡ done (not_empty packets) between_packets
reads-encoded packets chunks h k e =
    reads-stream chunks [] between_packets (queue_packets packets [], between_packets) k
      (ap (λ t. stream t [] between_packets) e ∙ stream-encoded packets [] h)
    ∙ ap (λ q. done q between_packets) (queue_packets-not_empty packets [])
