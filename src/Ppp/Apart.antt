-- ===== src/Ppp/Apart.antt =====
-- The packets that a stream gives do not depend on those queued before (src/ppp/pppd.c).
use ras.Base.{
  ℕ, ◌≡◌, refl, sym, ap, ◌∙◌, List, [], ◌∷◌, ◌++◌, append-nil, append_assoc, some, arith,
}
use mathlib.Core.Option.{some-injective, none-ne-some}
use ras.Ppp.{
  Rfc1662, Action, go_on, packet, too_many, temp_pack_size, take_octet, frame, queue_packet,
}
use ras.Ppp.Stream.{stream}
use ras.Ppp.Escape.{after_action}

queue_packet-append :
    (p : List ℕ) (before queued : List (List ℕ))
    → queue_packet (frame p) (before ++ queued) ≡ before ++ queue_packet (frame p) queued
queue_packet-append [] before queued = refl
queue_packet-append (x ∷ p) before queued =
    ground (arith, append_assoc before queued ((x ∷ p) ∷ []))

-- What is queued already stays in front.
pub stream-behind :
    (xs : List ℕ) (before queued new : List (List ℕ)) (s s' : Rfc1662)
    → stream xs queued s ≡ some (new, s')
    → stream xs (before ++ queued) s ≡ some (before ++ new, s')
unfolding stream after_action
stream-behind [] before queued new s s' h =
    let e = some-injective _ _ h in ap (λ t. some (before ++ t.0, t.1)) e
stream-behind (x ∷ xs) before queued new s s' h =
    by_action (take_octet temp_pack_size x s) h (λ q t k. stream-behind xs before q new t s' k)
  where
    by_action :
        (a : Action)
        → after_action a xs queued ≡ some (new, s')
        → ((q : List (List ℕ)) (t : Rfc1662)
            → stream xs q t ≡ some (new, s')
            → stream xs (before ++ q) t ≡ some (before ++ new, s'))
        → after_action a xs (before ++ queued) ≡ some (before ++ new, s')
    by_action (go_on t) k rec = rec queued t k
    by_action (packet p t) k rec =
        ap (λ q. stream xs q t) (queue_packet-append p before queued)
        ∙ rec (queue_packet (frame p) queued) t k
    by_action (too_many t) k rec = absurd (none-ne-some _ k)

-- The packets queued do not depend on those before.
pub stream-apart :
    (xs : List ℕ) (queued new : List (List ℕ)) (s s' : Rfc1662)
    → stream xs queued s ≡ some (new, s')
    → (tail : List (List ℕ)) × (stream xs [] s ≡ some (tail, s')) × (new ≡ queued ++ tail)
unfolding stream after_action
stream-apart [] queued new s s' h =
    let e = some-injective _ _ h in
    ([], ap (λ t. some ([], t.1)) e, sym (ap (λ t. t.0) e) ∙ sym (append-nil queued))
stream-apart (x ∷ xs) queued new s s' h =
    by_action (take_octet temp_pack_size x s) h (λ q t k. stream-apart xs q new t s' k)
  where
    by_action :
        (a : Action)
        → after_action a xs queued ≡ some (new, s')
        → ((q : List (List ℕ)) (t : Rfc1662)
            → stream xs q t ≡ some (new, s')
            → (tail : List (List ℕ)) × (stream xs [] t ≡ some (tail, s')) × (new ≡ q ++ tail))
        → (tail : List (List ℕ)) × (after_action a xs [] ≡ some (tail, s')) × (new ≡ queued ++ tail)
    by_action (go_on t) k rec = rec queued t k
    by_action (packet p t) k rec =
        let one = queue_packet (frame p) [] in
        let here : queue_packet (frame p) queued ≡ queued ++ one =
          ap (queue_packet (frame p)) (sym (append-nil queued)) ∙ queue_packet-append p queued [] in
        let (tail, rest, all) = rec (queue_packet (frame p) queued) t k in
        (
          one ++ tail,
          ap (λ q. stream xs q t) (sym (append-nil one)) ∙ stream-behind xs one [] tail t s' rest,
          all ∙ (ap (λ q. q ++ tail) here ∙ append_assoc queued one tail),
        )
    by_action (too_many t) k rec = absurd (none-ne-some _ k)
