-- ===== src/Ppp/Stream.antt =====
-- The stream that pppd writes, octet by octet, against the calls of `pppd_rfc1662_decode` that
-- `pppd_input_cb` of src/ppp/pppd.c makes.
use ras.Base.{
  ℕ, suc, ◌+◌, ◌≡◌, refl, ap, subst, ◌∙◌, List, [], ◌∷◌, ◌++◌, Option, none, some, length, arith,
}
use mathlib.Core.Option.{some-injective, none-ne-some}
use ras.Ppp.{
  ppp_flag, temp_pack_size, Rfc1662, Action, go_on, packet, too_many, between_packets, take_flag,
  take_octet, Returned, nothing, frame, einval, decode_loop, queue_packet,
}

-- One octet after the other, each once; nothing where the buffer is too small.
unfoldable pub stream : List ℕ → List (List ℕ) → Rfc1662 → Option (List (List ℕ) × Rfc1662)
stream [] queued s = some (queued, s)
stream (ch ∷ chs) queued s = elim (take_octet temp_pack_size ch s) [
  | go_on s' ↦ stream chs queued s'
  | packet p s' ↦ stream chs (queue_packet (frame p) queued) s'
  | too_many s' ↦ none
]

-- A packet ends at a flag only, and leaves the state between packets.
packet_at_flag :
    (ch : ℕ) (s : Rfc1662) (p : List ℕ) (s' : Rfc1662)
    → take_octet temp_pack_size ch s ≡ packet p s'
    → (ch ≡ ppp_flag) × (s' ≡ between_packets)
unfolding take_octet take_flag
packet_at_flag ch s p s' e = ground arith

-- What a call leaves to do, when the octets left are taken as they should be: all octets are read, or
-- a packet ends at the flag that the rest begins with.
abbrev pub last_index : ℕ → ℕ → List ℕ → ℕ
last_index i count [] = count
last_index i count (ch ∷ chs) = i + length chs

pub data Decoded (i count : ℕ) (src : List ℕ) (queued : List (List ℕ)) (s : Rfc1662)
    (end : List (List ℕ) × Rfc1662) : Type 0 where
  all_read :
      decode_loop temp_pack_size i count src s ≡ (nothing, last_index i count src, end.1)
      → queued ≡ end.0
      → Decoded i count src queued s end
  ended :
      (before after p : List ℕ)
      → decode_loop temp_pack_size i count src s ≡ (frame p, i + length before, between_packets)
      → src ≡ before ++ ppp_flag ∷ after
      → stream after (queue_packet (frame p) queued) between_packets ≡ some end
      → Decoded i count src queued s end

-- What the loop does with one octet.
unfoldable pub after_octet : ℕ → List ℕ → Action → Returned × ℕ × Rfc1662
after_octet i src a = elim a [
  | go_on s' ↦ decode_loop temp_pack_size (i + 1) i src s'
  | packet p s' ↦ (frame p, i, s')
  | too_many s' ↦ (einval, i, s')
]

pub decode_octet :
    (i count ch : ℕ) (src : List ℕ) (s : Rfc1662) (a : Action)
    → take_octet temp_pack_size ch s ≡ a
    → decode_loop temp_pack_size i count (ch ∷ src) s ≡ after_octet i src a
unfolding decode_loop after_octet
decode_octet i count ch src s a e = ap (after_octet i src) e

further :
    (i count ch : ℕ) (src : List ℕ) (queued : List (List ℕ)) (s s' : Rfc1662)
    (end : List (List ℕ) × Rfc1662)
    → take_octet temp_pack_size ch s ≡ go_on s'
    → Decoded (i + 1) i src queued s' end
    → Decoded i count (ch ∷ src) queued s end
unfolding after_octet
further i count ch src queued s s' end e (all_read d q) =
    all_read
      (decode_octet i count ch src s (go_on s') e
        ∙ (d ∙ ap (λ n. (nothing, n, end.1)) (last_index_next i src)))
      q
  where
    last_index_next : (i : ℕ) (src : List ℕ) → last_index (i + 1) i src ≡ i + length src
    last_index_next i [] = omega arith
    last_index_next i (c ∷ cs) = omega arith
further i count ch src queued s s' end e (ended before after p d split rest) =
    let index : i + 1 + length before ≡ i + suc (length before) = omega arith in
    ended (ch ∷ before) after p
      (decode_octet i count ch src s (go_on s') e
        ∙ (d ∙ ap (λ n. (frame p, n, between_packets)) index))
      (ap (λ t. ch ∷ t) split) rest

at_flag :
    (i count ch : ℕ) (src p : List ℕ) (queued : List (List ℕ)) (s s' : Rfc1662)
    (end : List (List ℕ) × Rfc1662)
    → take_octet temp_pack_size ch s ≡ packet p s'
    → stream src (queue_packet (frame p) queued) s' ≡ some end
    → Decoded i count (ch ∷ src) queued s end
unfolding after_octet
at_flag i count ch src p queued s s' end e r =
    let (flag, fresh) = packet_at_flag ch s p s' e in
    let index : i ≡ i + 0 = omega arith in
    ended [] src p
      (decode_octet i count ch src s (packet p s') e
        ∙ (ap (λ n. (frame p, n, s')) index ∙ ap (λ t. (frame p, i + 0, t)) fresh))
      (ap (λ t. t ∷ src) flag)
      (subst (λ t. stream src (queue_packet (frame p) queued) t ≡ some end) fresh r)

pub decoded :
    (src : List ℕ) (i count : ℕ) (queued : List (List ℕ)) (s : Rfc1662)
    (end : List (List ℕ) × Rfc1662)
    → stream src queued s ≡ some end
    → Decoded i count src queued s end
unfolding decode_loop stream
decoded [] i count queued s end h =
    let e = some-injective _ _ h in all_read (ap (λ t. (nothing, count, t.1)) e) (ap (λ t. t.0) e)
decoded (ch ∷ src) i count queued s end h =
    by_action (take_octet temp_pack_size ch s) refl h (λ n j t r. decoded src n j queued t end r)
  where
    by_action :
        (a : Action)
        → take_octet temp_pack_size ch s ≡ a
        → elim a [
          | go_on s' ↦ stream src queued s'
          | packet p s' ↦ stream src (queue_packet (frame p) queued) s'
          | too_many s' ↦ none
        ]
          ≡ some end
        → ((n j : ℕ) (t : Rfc1662) → stream src queued t ≡ some end → Decoded n j src queued t end)
        → Decoded i count (ch ∷ src) queued s end
    by_action (go_on s') e r rec = further i count ch src queued s s' end e (rec (i + 1) i s' r)
    by_action (packet p s') e r rec = at_flag i count ch src p queued s s' end e r
    by_action (too_many s') e r rec = absurd (none-ne-some _ r)
