-- ===== src/Message/Stored.antt =====
-- What `yate_message_parse_parameter` copies into the arrays of the parameters
-- (src/yate_message.c).
use ras.Base.{
  ℕ, zero, suc, ◌+◌, ◌-◌, ◌<◌, Bool, true, false, Option, none, some, List, length, ◌==◌,
  if◌then◌else◌, arith,
}
use ras.Message.{
  Params, Parsing, so_far, str_buf_size, c_string, find, colon, equals_sign, cut_key, store,
  parameter_of, parse_parameter, parse_round, parse_loop, parse_parameters, answer, identified,
  parse_message, parse_incoming,
}

-- Each parameter fits its array, with the 0 behind it.
pub record Stored (p : Params) : Type 0 where
  pub called_fits : length p.called < str_buf_size
  pub caller_fits : length p.caller < str_buf_size
  pub format_fits : length p.format < str_buf_size

store-Stored :
    (key value : List ℕ) (p : Params)
    → length value < str_buf_size
    → Stored p
    → Stored (store key value p)
unfolding store
store-Stored key value p l h = ground arith

parameter_of-Stored :
    (r : Option (List ℕ × List ℕ)) (p : Params) → Stored p → Stored (parameter_of r p)
unfolding parameter_of
parameter_of-Stored none p h = h
parameter_of-Stored (some (key, value)) p h = ground (arith, store-Stored key value p)

parse_parameter-Stored : (s : List ℕ) (p : Params) → Stored p → Stored (parse_parameter s p)
unfolding parse_parameter
parse_parameter-Stored s p h = parameter_of-Stored (find equals_sign (length s) s) p h

parse_round-Stored :
    (loop : ℕ → Option (List ℕ) → ℕ → List ℕ → Params → Parsing)
    → (k : ℕ) (type : Option (List ℕ)) (n : ℕ) (start : List ℕ) (p : Params)
    → (r : Option (List ℕ × List ℕ))
    → ((j : ℕ) (t : Option (List ℕ)) (m : ℕ) (s : List ℕ) (q : Params)
        → Stored q
        → Stored (so_far (loop j t m s q)).1)
    → Stored p
    → Stored (so_far (parse_round loop k type n start p r)).1
unfolding parse_round
parse_round-Stored loop k type n start p none next h = parse_parameter-Stored (c_string start) p h
parse_round-Stored loop k type n start p (some (before, after)) next h =
    let argument = c_string before in
    next (k + 1) (if k == 1 then some (cut_key argument) else type) (n - length before) after
      (parse_parameter argument p) (parse_parameter-Stored argument p h)

parse_loop-Stored :
    (f k : ℕ) (type : Option (List ℕ)) (n : ℕ) (start : List ℕ) (p : Params)
    → Stored p
    → Stored (so_far (parse_loop f k type n start p)).1
unfolding parse_loop
parse_loop-Stored zero k type n start p h = h
parse_loop-Stored (suc f) k type n start p h =
    parse_round-Stored (parse_loop f) k type n start p (find colon n start) (parse_loop-Stored f) h

answer-Stored : (id : List ℕ) (r : Bool × Params) → Stored r.1 → Stored (answer id r).1
unfolding answer
answer-Stored id (true, p) h = h
answer-Stored id (false, p) h = h

identified-Stored :
    (n : ℕ) (r : Option (List ℕ × List ℕ)) (p : Params) → Stored p → Stored (identified n r p).1
unfolding identified parse_parameters
identified-Stored n none p h = h
identified-Stored n (some (id, after)) p h =
    answer-Stored id (parse_parameters after (n - length id - 1) p)
      (parse_loop-Stored (suc (length after)) 0 none (n - length id - 1) after p h)

-- If the called number, the caller and the format each fit their array of STR_BUF_SIZE octets with
-- the 0 behind, then so they do after any message was parsed, whatever its octets.
pub parse_incoming-Stored :
    (buf : List ℕ) (len : ℕ) (p : Params) → Stored p → Stored (parse_incoming buf len p).1
unfolding parse_incoming parse_message
parse_incoming-Stored buf len p h = go (find colon len buf)
  where
    go : (r : Option (List ℕ × List ℕ)) → Stored (parse_message len r p).1
    go none = h
    go (some (before, after)) =
        let rest = len - length before - 1 in identified-Stored rest (find colon rest after) p h
