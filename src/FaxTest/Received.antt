-- ===== src/FaxTest/Received.antt =====
-- What reaches the fax decoder: the sync word, and the blocks of 64 bits behind it (src/fax_test.c).
use ras.Base.{
  ℕ, ◌+◌, ◌<◌, ◌≡◌, refl, sym, subst, ap, ap₂, ◌∙◌, true, false, List, [], ◌∷◌, ◌++◌, append_assoc,
  ◌==◌, ==_self, if◌then◌else◌, length, length-append, get_or, arith,
}
use ras.Fax.Types.{Spandsp}
use ras.Fax.{returns, and_then, span_in_sync}
use ras.FaxTest.{
  Bits, Receiver, syncword_bits, next_syncpos, sync_found, put_bits, with_fax, is_marker,
  take_block, take_bit, take_bits,
}
use ras.FaxTest.Search.{search}
use ras.FaxTest.Picture.{
  Block, raw, IsMarker, Right, picture, given, is_marker-true, image-picture, put_bits-given,
}
use ras.FaxTest.Blocks.{
  Quiet, Blocks, joined, image, handed, search-append, Quiet-append, get_or-append, fill,
  take_bits-joined,
}

module _ (lib : Bits) {s : Spandsp} where
  -- The rest of the sync word, on a receiver that has matched what is before it.
  take_bits-word :
      (before xs rest : List ℕ) (r : Receiver s)
      → syncword_bits lib ≡ before ++ xs
      → length before + length xs ≡ 64
      → 0 < length xs
      → take_bits lib (xs ++ rest) (record r { syncpos = length before; frame_bits = before })
        ≡ take_bits lib rest (sync_found r)
  unfolding take_bits take_bit sync_found next_syncpos
  take_bits-word before [] rest r e h pos = absurd (omega arith)
  take_bits-word before (x ∷ []) rest r e h pos =
      let same : (get_or (syncword_bits lib) (length before) 0 == x) ≡ true =
        ap (λ w. get_or w (length before) 0 == x) e
        ∙ (ap (λ b. b == x) (get_or-append before [] x) ∙ ==_self x) in
      let last : (length before + 1 == 64) ≡ true = ground arith in rw (same, same, last)
  take_bits-word before (x ∷ (y ∷ ys)) rest r e h pos =
      let same : (get_or (syncword_bits lib) (length before) 0 == x) ≡ true =
        ap (λ w. get_or w (length before) 0 == x) e
        ∙ (ap (λ b. b == x) (get_or-append before (y ∷ ys) x) ∙ ==_self x) in
      let long = length-append before (x ∷ []) in
      let more : (length before + 1 == 64) ≡ false = ground arith in
      let short : (length (before ++ (x ∷ [])) == 64) ≡ false = ground (arith, long) in
      rw (same, same, more, short)
        (ap
            (λ n.
              take_bits lib ((y ∷ ys) ++ rest)
                (record r { syncpos = n; frame_bits = before ++ (x ∷ []) }))
            (sym long)
          ∙ take_bits-word (before ++ (x ∷ [])) (y ∷ ys) rest r
              (e ∙ sym (append_assoc before (x ∷ []) (y ∷ ys))) (omega (arith, long)) (omega arith))

  marked :
      (mark : List ℕ) (r : Receiver s)
      → is_marker lib mark ≡ true
      → take_block lib mark r ≡ returns (record r { data_mode = true })
  unfolding take_block
  marked mark r is =
      let rest = if r.data_mode then and_then (with_fax r) (put_bits mark r.fax) else returns r in
      ap (λ b. if b then returns (record r { data_mode = true }) else rest) is

  -- The same with the tests of the program.
  take_bits-Blocks :
      (mark : List ℕ) (blocks : List (List ℕ)) (r : Receiver s)
      → length (syncword_bits lib) ≡ 64
      → length mark ≡ 64
      → is_marker lib mark ≡ true
      → Blocks blocks
      → Quiet (syncword_bits lib) (mark ++ joined blocks) 0
      → r.syncpos ≡ 0
      → r.frame_bits ≡ []
      → r.in_sync ≡ false
      → take_bits lib (syncword_bits lib ++ (mark ++ joined blocks)) r
        ≡ and_then
            (handed
              (record r { in_sync = true })
              (search (syncword_bits lib) (mark ++ joined blocks) 0))
            (put_bits (image lib blocks) (span_in_sync r.fax))
  unfolding sync_found
  take_bits-Blocks mark blocks r sized marks is h q z e n =
      let word = syncword_bits lib in
      let synced = record (sync_found r) { in_sync = true; fax = span_in_sync r.fax } in
      let (first, rest) = Quiet-append word mark (joined blocks) 0 q in
      let p = search word mark 0 in
      ap (take_bits lib (word ++ (mark ++ joined blocks))) (fresh r z e)
      ∙ (take_bits-word [] word (mark ++ joined blocks) r refl (omega (arith, sized))
            (omega (arith, sized))
          ∙ (ap (take_bits lib (mark ++ joined blocks)) (started r n)
              ∙ (fill lib mark (joined blocks) synced (omega (arith, marks)) (omega (arith, marks))
                    first
                  ∙ (ap (and_then (take_bits lib (joined blocks)))
                        (marked mark (record synced { syncpos = p; frame_bits = [] }) is)
                      ∙ (take_bits-joined lib blocks synced p (span_in_sync r.fax) h rest
                          ∙ ap
                              (λ k.
                                and_then (handed (record r { in_sync = true }) k)
                                  (put_bits (image lib blocks) (span_in_sync r.fax)))
                              (sym (search-append word mark (joined blocks) 0)))))))
    where
      fresh :
          (r : Receiver s)
          → r.syncpos ≡ 0
          → r.frame_bits ≡ []
          → r ≡ record r { syncpos = 0; frame_bits = [] }
      fresh r z e = ap₂ (λ n l. record r { syncpos = n; frame_bits = l }) z e

      started :
          (r : Receiver s)
          → r.in_sync ≡ false
          → sync_found r ≡ record (sync_found r) { in_sync = true; fax = span_in_sync r.fax }
      started r n =
          ap
            (λ b. record (sync_found r) {
              in_sync = true;
              fax = if b then r.fax else span_in_sync r.fax;
            })
            n

  -- Let the octets of the sync word be converted into 64 bits, and let the receiver be not in sync, with no
  -- bit of it matched and none collected. The sync word comes, then 64 bits of the octets 33 0f four times,
  -- and then blocks of 64 bits, each of those octets again or of others, and no sync word is completed behind
  -- the first. Then the decoder is brought into sync once, right behind the word, and is given, in their
  -- order, exactly the bits of the blocks of other octets; nothing is held back at the end.
  pub take_bits_received :
      (word mark : List ℕ) (blocks : List Block) (r : Receiver s)
      → lib.pbit2ubit (0x3E ∷ 0x37 ∷ 0x50 ∷ 0x96 ∷ 0xC1 ∷ 0xC8 ∷ 0xAF ∷ 0x69 ∷ []) 64 ≡ word
      → length word ≡ 64
      → IsMarker lib mark
      → length mark ≡ 64
      → Right lib blocks
      → Quiet word (mark ++ joined (raw blocks)) 0
      → r.syncpos ≡ 0
      → r.frame_bits ≡ []
      → r.in_sync ≡ false
      → take_bits lib (word ++ (mark ++ joined (raw blocks))) r
        ≡ and_then
            (handed (record r { in_sync = true }) (search word (mark ++ joined (raw blocks)) 0))
            (given (picture blocks) (span_in_sync r.fax))
  take_bits_received word mark blocks r told sized marks long right quiet z e n =
      let (same, lengths) = image-picture lib blocks right in
      let behind = mark ++ joined (raw blocks) in
      ap (λ w. take_bits lib (w ++ behind) r) (sym told)
      ∙ (take_bits-Blocks mark (raw blocks) r (subst (λ w. length w ≡ 64) (sym told) sized) long
            (is_marker-true lib mark marks) lengths (subst (λ w. Quiet w behind 0) (sym told) quiet)
            z e n
          ∙ (ap
                (λ w.
                  and_then (handed (record r { in_sync = true }) (search w behind 0))
                    (put_bits (image lib (raw blocks)) (span_in_sync r.fax)))
                told
              ∙ ap (and_then (handed (record r { in_sync = true }) (search word behind 0))) (
                  ap (λ l. put_bits l (span_in_sync r.fax)) same
                  ∙ put_bits-given (picture blocks) (span_in_sync r.fax))))
