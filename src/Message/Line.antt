-- ===== src/Message/Line.antt =====
-- The line buffer of `yate_message_read_cb` (src/yate_message.c).
use ras.Base.{
  zeros, ℕ, ◌+◌, ◌-◌, ◌<◌, ◌≡◌, refl, sym, ap, ◌∙◌, Bool, true, false, Option, none, some, List, [],
  ◌∷◌, ◌++◌, append_assoc, append-nil, ◌==◌, ==_of_ne, if◌then◌else◌, length, length-append,
  Bool-cases, inl, inr, arith,
}
use ras.Message.{Params, str_buf_size, newline, colon, call_execute, parse_incoming}
use ras.Message.Reply.{Without, parse_incoming-call_execute}
use mathlib.Core.Option.{some-injective, none-ne-some}

-- `yate_msg_buf` up to `yate_msg_buf_pos`, the parameters, the identifiers that were answered, and
-- the parameters that `call_initialize` was called with.
pub record Reader : Type 0 where
  pub line : List ℕ
  pub params : Params
  pub answered : List (List ℕ)
  pub initialized : List Params

-- After a message was parsed; `has_data` is whether `fd->data` is set.
unfoldable pub finish_line : Bool → Option (List ℕ) × Params → Reader → Reader
finish_line has_data (none, p) r = record r { params = p; line = [] }
finish_line has_data (some id, p) r = record r {
  params = p;
  line = [];
  answered = r.answered ++ (id ∷ []);
  initialized = if has_data then r.initialized ++ (p ∷ []) else r.initialized;
}

-- A line is complete. The rest of the buffer holds 0; what lies behind it is not looked into.
unfoldable pub take_line : Bool → Reader → Reader
take_line has_data r =
    let buf = r.line ++ zeros (str_buf_size - length r.line) in
    finish_line has_data (parse_incoming buf (length r.line + 1) r.params) r

-- The loop over the octets read; `false` is `-1`, the rest of them is dropped.
unfoldable pub read_octets : Bool → List ℕ → Reader → Bool × Reader
read_octets has_data [] r = (true, r)
read_octets has_data (x ∷ xs) r =
    let kept = record r { line = r.line ++ (x ∷ []) } in
    let next = read_octets has_data xs (if x == newline then take_line has_data r else kept) in
    if length r.line == str_buf_size - 1 then (false, record r { line = [] }) else next

finish_line-line :
    (b : Bool) (a : Option (List ℕ) × Params) (r : Reader) → (finish_line b a r).line ≡ []
unfolding finish_line
finish_line-line b (none, p) r = refl
finish_line-line b (some id, p) r = refl

take_line-line : (b : Bool) (r : Reader) → (take_line b r).line ≡ []
unfolding take_line
take_line-line b r =
    finish_line-line b
      (parse_incoming (r.line ++ zeros (str_buf_size - length r.line)) (length r.line + 1) r.params)
      r

-- If fewer than STR_BUF_SIZE octets are in the line buffer, then so it is after any octets read.
pub read_octets-bounded :
    (b : Bool) (xs : List ℕ) (r : Reader)
    → length r.line < str_buf_size
    → length (read_octets b xs r).1.line < str_buf_size
unfolding read_octets
read_octets-bounded b [] r h = h
read_octets-bounded b (x ∷ xs) r h =
    let kept = record r { line = r.line ++ (x ∷ []) } in
    elim (Bool-cases (length r.line == str_buf_size - 1)) [
      | inl full ↦ rw full (omega arith)
      | inr space ↦ elim (Bool-cases (x == newline)) [
        | inl ends ↦
            rw (space, ends)
              (read_octets-bounded b xs (take_line b r) (rw (take_line-line b r) (omega arith)))
        | inr more ↦
            rw (space, more)
              (read_octets-bounded b xs kept (ground (arith, length-append r.line (x ∷ []))))
      ]
    ]

-- Octets without a newline that with those in the buffer are at most 4094, and a newline behind
-- them, are taken as one line, and reading goes on behind it.
read_octets-line :
    (b : Bool) (line rest : List ℕ) (r : Reader)
    → Without newline line
    → length r.line + length line < str_buf_size - 1
    → read_octets b (line ++ (newline ∷ rest)) r
      ≡ read_octets b rest (take_line b (record r { line = r.line ++ line }))
unfolding read_octets
read_octets-line b [] rest r w h =
    rw (==_of_ne (length r.line) 4095 (λ e. omega arith))
      (ap (λ l. read_octets b rest (take_line b (record r { line = l }))) (sym (append-nil r.line)))
read_octets-line b (x ∷ line) rest r w h =
    let kept = record r { line = r.line ++ (x ∷ []) } in
    rw (==_of_ne (length r.line) 4095 (λ e. omega arith), ==_of_ne x newline w.0)
      (read_octets-line b line rest kept w.1 (omega (arith, length-append r.line (x ∷ [])))
        ∙ ap (λ l. read_octets b rest (take_line b (record r { line = l })))
            (append_assoc r.line (x ∷ []) line))

-- A message of yate: what is before the identifier, the identifier, the time, the type and the rest.
abbrev pub message : List ℕ → List ℕ → List ℕ → List ℕ → List ℕ
message head id time tail =
    head ++ (colon ∷ (id ++ (colon ∷ (time ++ (colon ∷ (call_execute ++ (colon ∷ tail)))))))

message-append :
    (head id time tail more : List ℕ)
    → message head id time tail ++ more ≡ message head id time (tail ++ more)
message-append head id time tail more =
    let last = call_execute ++ (colon ∷ tail) in
    append_assoc head (colon ∷ (id ++ (colon ∷ (time ++ (colon ∷ last))))) more
    ∙ ap (λ l. head ++ (colon ∷ l))
        (append_assoc id (colon ∷ (time ++ (colon ∷ last))) more
          ∙ ap (λ l. id ++ (colon ∷ l)) (append_assoc time (colon ∷ last) more))

length-message :
    (head id time tail : List ℕ)
    → length (message head id time tail) ≡ length head + length id + length time + length tail + 16
length-message head id time tail =
    let last = call_execute ++ (colon ∷ tail) in
    omega (
      arith,
      length-append head (colon ∷ (id ++ (colon ∷ (time ++ (colon ∷ last))))),
      length-append id (colon ∷ (time ++ (colon ∷ last))),
      length-append time (colon ∷ last),
    )

-- The reader behind a message with an answer.
abbrev pub answered_with : Bool → List ℕ → Params → Reader → Reader
answered_with has_data id p r = record r {
  line = [];
  params = p;
  answered = r.answered ++ (id ∷ []);
  initialized = if has_data then r.initialized ++ (p ∷ []) else r.initialized;
}

finish_line-some :
    (b : Bool) (id : List ℕ) (a : Option (List ℕ) × Params) (r : Reader)
    → a.0 ≡ some id
    → finish_line b a r ≡ answered_with b id a.1 r
unfolding finish_line
finish_line-some b id (none, p) r e = absurd (none-ne-some _ e)
finish_line-some b id (some found, p) r e = ap (λ n. answered_with b n p r) (some-injective _ _ e)

-- Let a `call.execute` message, with an identifier that is a string without a colon, any octets but a
-- newline and at most 4094 in all, come in the line buffer and the octets read, with a newline behind it.
-- Then it is answered with its identifier; the parameters are those that the parser reads from the whole
-- message with the 0 behind it, and the call is initialized once, with them, if `fd->data` is set; the line buffer is empty, and reading goes on behind the newline.
pub read_octets-call_execute :
    (b : Bool) (head id time tail line rest : List ℕ) (r : Reader)
    → Without colon head
    → Without colon id
    → Without 0 id
    → Without colon time
    → r.line ++ line ≡ message head id time tail
    → Without newline line
    → length (message head id time tail) < 4095
    → let all = message head id time tail in
      read_octets b (line ++ (newline ∷ rest)) r
      ≡ read_octets b rest (
          answered_with b id
            (parse_incoming (all ++ zeros (4096 - length all)) (length all + 1) r.params).1
            r)
unfolding take_line
read_octets-call_execute b head id time tail line rest r wh wi zi wt same w h =
    let all = message head id time tail in
    let room = zeros (str_buf_size - length all) in
    let result = parse_incoming (all ++ room) (length all + 1) r.params in
    let size = length-message head id time tail in
    let found : result.0 ≡ some id =
      ap (λ l. (parse_incoming l (length all + 1) r.params).0)
        (message-append head id time tail room)
      ∙ parse_incoming-call_execute head id time (tail ++ room) (length all + 1) r.params wh wi zi
          wt (omega (arith, size)) in
    read_octets-line b line rest r w (omega (arith, ap length same, length-append r.line line, h))
    ∙ (ap (λ l. read_octets b rest (take_line b (record r { line = l }))) same
        ∙ ap (read_octets b rest) (finish_line-some b id result (record r { line = all }) found))
