-- ===== src/FaxTest/Synced.antt =====
-- When the program takes the fax decoder to be in sync (src/fax_test.c).
use ras.Base.{
  ℕ, ◌<◌, ◌≡◌, refl, sym, subst, ap, ◌∙◌, Bool, true, false, List, [], ◌∷◌, ◌++◌, append-nil,
  append_assoc, ◌==◌, if◌then◌else◌, length, take, take_all, arith,
}
use ras.Fax.Types.{Spandsp, Fax}
use ras.Fax.{Ended, returns, copies_too_much, and_then}
use ras.FaxTest.{
  Bits, Receiver, syncword_bits, next_syncpos, sync_found, put_bits, with_fax, is_marker,
  take_block, take_bit, take_bits,
}
use ras.FaxTest.Search.{EndsWith, step-EndsWith, next_syncpos-le}

-- A property of what a call returns, if it does.
abbrev IfReturned : {A : Type 0} → (A → Type 0) → Ended A → Type 0
IfReturned P (returns a) = P a
IfReturned P copies_too_much = Unit

then_returned :
    {A B : Type 0} (P : A → Type 0) (Q : B → Type 0) (f : A → Ended B) (e : Ended A)
    → IfReturned P e
    → ((a : A) → P a → IfReturned Q (f a))
    → IfReturned Q (and_then f e)
then_returned P Q f (returns a) p k = k a p
then_returned P Q f copies_too_much p k = tt

abbrev pub Contains : List ℕ → List ℕ → Type 0
Contains bits word = (before : List ℕ) × (after : List ℕ) × (bits ≡ before ++ (word ++ after))

Contains-append : (bits word more : List ℕ) → Contains bits word → Contains (bits ++ more) word
Contains-append bits word more (before, after, e) = (
  before,
  after ++ more,
  ap (λ l. l ++ more) e
      ∙ (append_assoc before (word ++ after) more
          ∙ ap (λ l. before ++ l) (append_assoc word after more)),
)

module _ (lib : Bits) (sized : length (syncword_bits lib) ≡ 64) {s : Spandsp} where
  -- Where a receiver stands after the bits `before`.
  record Traced (before : List ℕ) (r : Receiver s) : Type 0 where
    pos : r.syncpos < 64
    ends : EndsWith before (take r.syncpos (syncword_bits lib))
    synced : r.in_sync ≡ true → Contains before (syncword_bits lib)

  with_fax-Traced :
      (before : List ℕ) (r : Receiver s) (e : Ended (Fax s))
      → Traced before r
      → IfReturned (Traced before) (and_then (with_fax r) e)
  with_fax-Traced before r (returns f) t = record { pos = t.pos; ends = t.ends; synced = t.synced }
  with_fax-Traced before r copies_too_much t = tt

  either-Traced :
      (before : List ℕ) (b : Bool) (x y : Ended (Receiver s))
      → (b ≡ true → IfReturned (Traced before) x)
      → (b ≡ false → IfReturned (Traced before) y)
      → IfReturned (Traced before) (if b then x else y)
  either-Traced before true x y p q = p refl
  either-Traced before false x y p q = q refl

  take_block-Traced :
      (before block : List ℕ) (r : Receiver s)
      → Traced before r
      → IfReturned (Traced before) (take_block lib block r)
  unfolding take_block
  take_block-Traced before block r t =
      let rest = if r.data_mode then and_then (with_fax r) (put_bits block r.fax) else returns r in
      either-Traced before (is_marker lib block) (returns (record r { data_mode = true })) rest
        (λ h. record { pos = t.pos; ends = t.ends; synced = t.synced })
        (λ h.
          either-Traced before r.data_mode (and_then (with_fax r) (put_bits block r.fax))
            (returns r) (λ h. with_fax-Traced before r (put_bits block r.fax) t) (λ h. t))

  take_bit-Traced :
      (before : List ℕ) (b : ℕ) (r : Receiver s)
      → Traced before r
      → IfReturned (Traced (before ++ (b ∷ []))) (take_bit lib b r)
  unfolding take_bit sync_found
  take_bit-Traced before b r t =
      let word = syncword_bits lib in
      let bits = r.frame_bits ++ (b ∷ []) in
      let next = next_syncpos word b r.syncpos in
      let moved = record r { syncpos = next; frame_bits = bits } in
      let here = before ++ (b ∷ []) in
      let ends : EndsWith here (take next word) =
        step-EndsWith word before b r.syncpos (omega (arith, sized, t.pos)) t.ends in
      let still : r.in_sync ≡ true → Contains here word =
        λ h. Contains-append before word (b ∷ []) (t.synced h) in
      let block = take_block lib bits (record moved { frame_bits = [] }) in
      either-Traced here (next == 64) (returns (sync_found moved))
        (if length bits == 64 then block else returns moved)
        (λ h. record {
          pos = omega arith;
          ends = (here, sym (append-nil here));
          synced = λ k. whole here next ends h;
        })
        (λ h.
          let small : next < 64 = ground (arith, next_syncpos-le word b r.syncpos, t.pos) in
          either-Traced here (length bits == 64) block (returns moved)
            (λ k.
              take_block-Traced here bits (record moved { frame_bits = [] })
                (record { pos = small; ends = ends; synced = still }))
            (λ k. record { pos = small; ends = ends; synced = still }))
    where
      whole :
          (here : List ℕ) (n : ℕ)
          → EndsWith here (take n (syncword_bits lib))
          → (n == 64) ≡ true
          → Contains here (syncword_bits lib)
      whole here n (rest, e) h = (
        rest,
        [],
        e
            ∙ ap (λ l. rest ++ l)
                (take_all n (syncword_bits lib) (ground (arith, sized))
                  ∙ sym (append-nil (syncword_bits lib))),
      )

  take_bits-Traced :
      (before bits : List ℕ) (r : Receiver s)
      → Traced before r
      → IfReturned (Traced (before ++ bits)) (take_bits lib bits r)
  unfolding take_bits
  take_bits-Traced before [] r t = subst (λ l. Traced l r) (sym (append-nil before)) t
  take_bits-Traced before (b ∷ bits) r t =
      then_returned (Traced (before ++ (b ∷ []))) (Traced (before ++ (b ∷ bits)))
        (take_bits lib bits) (take_bit lib b r) (take_bit-Traced before b r t)
        (λ r' t'.
          subst (λ l. IfReturned (Traced l) (take_bits lib bits r'))
            (append_assoc before (b ∷ []) bits) (take_bits-Traced (before ++ (b ∷ [])) bits r' t'))

  -- Let the conversion give 64 bits for the sync word, and let no bit of it be matched yet and the decoder
  -- not be in sync. If the program takes the decoder to be in sync after some bits, the sync word is among
  -- them, whole and in order.
  pub take_bits_synced :
      (bits : List ℕ) (r r' : Receiver s)
      → r.syncpos ≡ 0
      → r.in_sync ≡ false
      → take_bits lib bits r ≡ returns r'
      → r'.in_sync ≡ true
      → Contains bits (syncword_bits lib)
  take_bits_synced bits r r' z n e h =
      let start : Traced [] r = record {
        pos = omega (arith, z);
        ends = ([], ap (λ k. take k (syncword_bits lib)) (sym z));
        synced = λ k. absurd (cc (k, n));
      } in
      let t : Traced bits r' =
        subst (IfReturned (Traced bits)) e (take_bits-Traced [] bits r start) in
      t.synced h
