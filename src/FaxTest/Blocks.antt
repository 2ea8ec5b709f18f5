-- ===== src/FaxTest/Blocks.antt =====
-- What becomes of blocks of 64 bits, marker or not (src/fax_test.c).
use ras.Base.{
  ℕ, ◌+◌, ◌<◌, ◌≡◌, ◌≢◌, refl, sym, ap, ◌∙◌, Bool, true, false, List, [], ◌∷◌, ◌++◌, append_assoc,
  ◌==◌, ==_of_ne, if◌then◌else◌, length, length-append, get_or, arith,
}
use ras.Fax.Types.{Spandsp, Fax}
use ras.Fax.{Ended, returns, copies_too_much, and_then, span_fax_bits}
use ras.FaxTest.{
  Bits, Receiver, syncword_bits, next_syncpos, put_bits, with_fax, is_marker, take_block, take_bit,
  take_bits,
}
use ras.FaxTest.Search.{search}

-- No sync word is completed within the bits.
abbrev pub Quiet : List ℕ → List ℕ → ℕ → Type 0
Quiet word [] syncpos = Unit
Quiet word (b ∷ bits) syncpos =
    (next_syncpos word b syncpos ≢ 64) × Quiet word bits (next_syncpos word b syncpos)

-- Blocks of 64 bits, and their bits.
abbrev pub Blocks : List (List ℕ) → Type 0
Blocks [] = Unit
Blocks (block ∷ blocks) = (length block ≡ 64) × Blocks blocks

abbrev pub joined : List (List ℕ) → List ℕ
joined [] = []
joined (block ∷ blocks) = block ++ joined blocks

-- The bits of the blocks that are no marker.
abbrev pub image : Bits → List (List ℕ) → List ℕ
image lib [] = []
image lib (block ∷ blocks) =
    if is_marker lib block then image lib blocks else block ++ image lib blocks

-- A receiver that has handed all it got to the decoder, and that is left if the decoder returns.
abbrev pub ready : {s : Spandsp} → Receiver s → ℕ → Fax s → Receiver s
ready r syncpos f = record r { syncpos = syncpos; frame_bits = []; data_mode = true; fax = f }

abbrev pub handed : {s : Spandsp} → Receiver s → ℕ → Fax s → Ended (Receiver s)
handed r syncpos f = returns (ready r syncpos f)

and_then_assoc :
    {A B C : Type 0} (f : A → Ended B) (g : B → Ended C) (e : Ended A)
    → and_then g (and_then f e) ≡ and_then (λ a. and_then g (f a)) e
and_then_assoc f g (returns a) = refl
and_then_assoc f g copies_too_much = refl

pub and_then_cong :
    {A B : Type 0} (f g : A → Ended B) (e : Ended A)
    → ((a : A) → f a ≡ g a)
    → and_then f e ≡ and_then g e
and_then_cong f g (returns a) h = h a
and_then_cong f g copies_too_much h = refl

put_bits-append :
    {s : Spandsp} (xs ys : List ℕ) (f : Fax s)
    → put_bits (xs ++ ys) f ≡ and_then (put_bits ys) (put_bits xs f)
unfolding put_bits
put_bits-append [] ys f = refl
put_bits-append (x ∷ xs) ys f =
    and_then_cong (put_bits (xs ++ ys)) (λ g. and_then (put_bits ys) (put_bits xs g))
      (span_fax_bits x f) (put_bits-append xs ys)
    ∙ sym (and_then_assoc (put_bits xs) (put_bits ys) (span_fax_bits x f))

pub search-append :
    (word xs ys : List ℕ) (p : ℕ) → search word (xs ++ ys) p ≡ search word ys (search word xs p)
unfolding search
search-append word [] ys p = refl
search-append word (x ∷ xs) ys p = search-append word xs ys (next_syncpos word x p)

pub Quiet-append :
    (word xs ys : List ℕ) (p : ℕ)
    → Quiet word (xs ++ ys) p
    → Quiet word xs p × Quiet word ys (search word xs p)
unfolding search
Quiet-append word [] ys p q = (tt, q)
Quiet-append word (x ∷ xs) ys p q =
    let (first, rest) = Quiet-append word xs ys (next_syncpos word x p) q.1 in ((q.0, first), rest)

pub get_or-append : (xs ys : List ℕ) (y : ℕ) → get_or (xs ++ (y ∷ ys)) (length xs) 0 ≡ y
get_or-append [] ys y = refl
get_or-append (x ∷ xs) ys y = get_or-append xs ys y

module _ (lib : Bits) {s : Spandsp} where
  -- The rest of a block, and what comes behind it.
  pub fill :
      (xs rest : List ℕ) (r : Receiver s)
      → length r.frame_bits + length xs ≡ 64
      → 0 < length xs
      → Quiet (syncword_bits lib) xs r.syncpos
      → take_bits lib (xs ++ rest) r
        ≡ and_then (take_bits lib rest) (
            take_block lib
              (r.frame_bits ++ xs)
              (record r { syncpos = search (syncword_bits lib) xs r.syncpos; frame_bits = [] }))
  unfolding take_bits take_bit search
  fill [] rest r h pos q = absurd (omega arith)
  fill (x ∷ []) rest r h pos q =
      let quiet = ==_of_ne (next_syncpos (syncword_bits lib) x r.syncpos) 64 q.0 in
      let full : (length (r.frame_bits ++ (x ∷ [])) == 64) ≡ true =
        ground (arith, length-append r.frame_bits (x ∷ [])) in
      rw (quiet, full)
  fill (x ∷ (y ∷ ys)) rest r h pos q =
      let next = next_syncpos (syncword_bits lib) x r.syncpos in
      let quiet = ==_of_ne next 64 q.0 in
      let more : (length (r.frame_bits ++ (x ∷ [])) == 64) ≡ false =
        ground (arith, length-append r.frame_bits (x ∷ [])) in
      rw (quiet, more)
        (fill (y ∷ ys) rest (record r { syncpos = next; frame_bits = r.frame_bits ++ (x ∷ []) })
            (omega (arith, length-append r.frame_bits (x ∷ []))) (omega arith) q.1
          ∙ ap
              (λ l. and_then (take_bits lib rest) (
                take_block lib l (record r {
                  syncpos = search (syncword_bits lib) (y ∷ ys) next;
                  frame_bits = [];
                })))
              (append_assoc r.frame_bits (x ∷ []) (y ∷ ys)))

  next_block :
      (blocks : List (List ℕ)) (block : List ℕ) (r : Receiver s) (q p : ℕ) (f : Fax s)
      → ((g : Fax s)
          → take_bits lib (joined blocks) (ready r p g)
            ≡ and_then (handed r q) (put_bits (image lib blocks) g))
      → and_then (take_bits lib (joined blocks)) (take_block lib block (ready r p f))
        ≡ and_then (handed r q) (put_bits (image lib (block ∷ blocks)) f)
  unfolding take_block
  next_block blocks block r q p f ih = go (is_marker lib block)
    where
      put : Ended (Fax s)
      put = put_bits block f

      go :
          (b : Bool)
          → and_then
              (take_bits lib (joined blocks))
              (if b then returns (ready r p f) else and_then (with_fax (ready r p f)) put)
            ≡ and_then
                (handed r q)
                (put_bits (if b then image lib blocks else block ++ image lib blocks) f)
      go true = ih f
      go false =
          and_then_assoc (with_fax (ready r p f)) (take_bits lib (joined blocks)) put
          ∙ (and_then_cong (λ g. take_bits lib (joined blocks) (ready r p g))
                (λ g. and_then (handed r q) (put_bits (image lib blocks) g)) put ih
              ∙ (sym (and_then_assoc (put_bits (image lib blocks)) (handed r q) put)
                  ∙ ap (and_then (handed r q)) (sym (put_bits-append block (image lib blocks) f))))

  pub take_bits-joined :
      (blocks : List (List ℕ)) (r : Receiver s) (p : ℕ) (f : Fax s)
      → Blocks blocks
      → Quiet (syncword_bits lib) (joined blocks) p
      → take_bits lib (joined blocks) (ready r p f)
        ≡ and_then
            (handed r (search (syncword_bits lib) (joined blocks) p))
            (put_bits (image lib blocks) f)
  unfolding take_bits search put_bits
  take_bits-joined [] r p f h q = refl
  take_bits-joined (block ∷ blocks) r p f h q =
      let word = syncword_bits lib in
      let (first, rest) = Quiet-append word block (joined blocks) p q in
      let p' = search word block p in
      let end = search word (joined blocks) p' in
      fill block (joined blocks) (ready r p f) (omega (arith, h.0)) (omega (arith, h.0)) first
      ∙ (next_block blocks block r end p' f (λ g. take_bits-joined blocks r p' g h.1 rest)
          ∙ ap (λ n. and_then (handed r n) (put_bits (image lib (block ∷ blocks)) f))
              (sym (search-append word block (joined blocks) p)))
