-- ===== src/X75/Life/Ways.antt =====
-- How answers of the service are put together.
use ras.Base.{◌≡◌, refl, sym, ap, ◌∙◌, Bool, true, false, List, [], ◌++◌, append-nil, if◌then◌else◌}
use ras.Osmo.{Msgb}
use ras.X75.Types.{
  State, disconnected, awaiting_connection, awaiting_disconnection, data_transfer, frame_reject,
  Mode, Event, FrameType, Frame, X75Cb,
}
use ras.X75.Life.{upper, Standing, standing}
use ras.X75.Life.Service.{Label, frame, frame_moves, must_move, stays, Moves, Answers}

pub quiet :
    (m : Mode) (l : Label) (s : State) (c d : Standing)
    → d ≡ c
    → c.state ≡ s
    → must_move m s l ≡ false
    → Answers m l s c d
quiet m l s c d same st q = (
  [],
  s,
  stays l s q,
  record {
    to = ap (λ (x : Standing). x.state) same ∙ st;
    callbacks = ap (λ (x : Standing). x.callbacks) same;
    told = ap (λ (x : Standing). x.told) same ∙ sym (append-nil c.told);
  },
)

pub still :
    (m : Mode) (s : State) (f : Frame) (b : Msgb) (t : FrameType)
    → f.type ≡ t
    → frame_moves m s t f.pf ≡ false
    → must_move m s (frame f b) ≡ false
still m disconnected f b t e q = ap (λ t. frame_moves m disconnected t f.pf) e ∙ q
still m awaiting_connection f b t e q = ap (λ t. frame_moves m awaiting_connection t f.pf) e ∙ q
still m awaiting_disconnection f b t e q =
    ap (λ t. frame_moves m awaiting_disconnection t f.pf) e ∙ q
still m data_transfer f b t e q = ap (λ t. frame_moves m data_transfer t f.pf) e ∙ q
still m frame_reject f b t e q = ap (λ t. frame_moves m frame_reject t f.pf) e ∙ q

-- From `c` to `d` the state stays, and nothing is told.
abbrev pub Silent : X75Cb → X75Cb → Type 0
Silent c d = (d.state ≡ c.state) × (d.callbacks ≡ c.callbacks) × (upper d.events ≡ upper c.events)

pub silent : (c d : X75Cb) → standing d ≡ standing c → Silent c d
silent c d e = (
  ap (λ (s : Standing). s.state) e,
  ap (λ (s : Standing). s.callbacks) e,
  ap (λ (s : Standing). s.told) e,
)

pub Silent-trans : (c d e : X75Cb) → Silent c d → Silent d e → Silent c e
Silent-trans c d e p q = (q.0 ∙ p.0, q.1 ∙ p.1, q.2 ∙ p.2)

-- What comes behind a silent part, and before one.
pub after :
    {es : List Event} {t : State} (c d : X75Cb) (s : Standing)
    → Silent c d
    → Moves (standing d) es t s
    → Moves (standing c) es t s
after {es} c d s q m = record {
  to = m.to;
  callbacks = m.callbacks ∙ q.1;
  told = m.told ∙ ap (λ l. l ++ es) q.2;
}

pub before :
    {m : Mode} {l : Label} {s : State} (c : Standing) (d e : X75Cb)
    → Answers m l s c (standing d)
    → Silent d e
    → Answers m l s c (standing e)
before c d e (es, t, leads, moves) q = (
  es,
  t,
  leads,
  record { to = q.0 ∙ moves.to; callbacks = q.1 ∙ moves.callbacks; told = q.2 ∙ moves.told },
)

pub silent-Answers :
    (m : Mode) (l : Label) (s : State) (c d : X75Cb)
    → c.state ≡ s
    → must_move m s l ≡ false
    → Silent c d
    → Answers m l s (standing c) (standing d)
silent-Answers m l s c d st q p =
    before (standing c) c d (quiet m l s (standing c) (standing c) refl st q) p

pub either-Answers :
    (m : Mode) (l : Label) (s : State) (c : Standing) (t : Bool) (x y : X75Cb)
    → Answers m l s c (standing x)
    → Answers m l s c (standing y)
    → Answers m l s c (standing (if t then x else y))
either-Answers m l s c true x y p q = p
either-Answers m l s c false x y p q = q
