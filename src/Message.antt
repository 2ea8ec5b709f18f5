-- ===== src/Message.antt =====
-- The text protocol with the telephone exchange, src/yate_message.c. A pointer into a buffer is the
-- list of the octets from there on. The code cuts strings in place, by writing 0 over a delimiter;
-- here the octets before it are a string of their own, as none reads across it again.
pub mod Stored
pub mod Fuel
pub mod Line
pub mod Reply
pub mod Examples
use ras.Base.{ℕ, zero, suc, ◌+◌, ◌-◌, Bool, true, false, not, ◌&&◌, ◌||◌, Option, none, some}
use ras.Base.{List, [], ◌∷◌, ◌++◌, ◌==◌, ltb, if◌then◌else◌, length}

-- STR_BUF_SIZE
abbrev pub str_buf_size : ℕ
str_buf_size = 4096

-- The octets of `=`, `:` and the end of a line.
abbrev pub equals_sign : ℕ
equals_sign = 61

abbrev pub colon : ℕ
colon = 58

abbrev pub newline : ℕ
newline = 10

-- `yate_called`, `yate_caller` and `yate_format`
pub record Params : Type 0 where
  pub called : List ℕ
  pub caller : List ℕ
  pub format : List ℕ

-- The string that begins here: the octets before the first 0.
unfoldable pub c_string : List ℕ → List ℕ
c_string [] = []
c_string (x ∷ xs) = let rest = c_string xs in if x == 0 then [] else x ∷ rest

abbrev pub extend : ℕ → Option (List ℕ × List ℕ) → Option (List ℕ × List ℕ)
extend x none = none
extend x (some (before, after)) = some (x ∷ before, after)

-- `memchr`, in `n` octets at most: those before the one sought, and those behind it.
unfoldable pub find : ℕ → ℕ → List ℕ → Option (List ℕ × List ℕ)
find c zero xs = none
find c (suc n) [] = none
find c (suc n) (x ∷ xs) =
    let rest = extend x (find c n xs) in if x == c then some ([], xs) else rest

-- `strcmp`, as a test
unfoldable pub same_string : List ℕ → List ℕ → Bool
same_string [] [] = true
same_string (x ∷ xs) (y ∷ ys) = x == y && same_string xs ys
same_string _ _ = false

-- "callednr", "caller" and "format"
abbrev pub key_called : List ℕ
key_called = 99 ∷ 97 ∷ 108 ∷ 108 ∷ 101 ∷ 100 ∷ 110 ∷ 114 ∷ []

abbrev pub key_caller : List ℕ
key_caller = 99 ∷ 97 ∷ 108 ∷ 108 ∷ 101 ∷ 114 ∷ []

abbrev pub key_format : List ℕ
key_format = 102 ∷ 111 ∷ 114 ∷ 109 ∷ 97 ∷ 116 ∷ []

-- "call.execute"
abbrev pub call_execute : List ℕ
call_execute = 99 ∷ 97 ∷ 108 ∷ 108 ∷ 46 ∷ 101 ∷ 120 ∷ 101 ∷ 99 ∷ 117 ∷ 116 ∷ 101 ∷ []

-- The three comparisons of a key.
unfoldable pub store : List ℕ → List ℕ → Params → Params
store key value p =
    let p1 = if same_string key key_called then record p { called = value } else p in
    let p2 = if same_string key key_caller then record p1 { caller = value } else p1 in
    if same_string key key_format then record p2 { format = value } else p2

unfoldable pub parameter_of : Option (List ℕ × List ℕ) → Params → Params
parameter_of none p = p
parameter_of (some (key, value)) p =
    if length key == 0
    then p
    else if ltb (str_buf_size - 1) (length value)
    then p
    else store key value p

unfoldable pub parse_parameter : List ℕ → Params → Params
unfolding parameter_of
parse_parameter s p = parameter_of (find equals_sign (length s) s) p

-- The string of an argument when `yate_message_parse_parameter` has cut it at its `=`.
unfoldable pub cut_key : List ℕ → List ℕ
cut_key s = elim (find equals_sign (length s) s) [ none ↦ s | some (key, value) ↦ key ]

unfoldable pub is_call_execute : Option (List ℕ) → Bool
is_call_execute none = false
is_call_execute (some type) = same_string type call_execute

-- Where the loop is: ended, or still running behind its fuel; with whether the type is `call.execute`.
pub data Parsing : Type 0 where
  parsed running : Bool × Params → Parsing

abbrev pub so_far : Parsing → Bool × Params
so_far (parsed r) = r
so_far (running r) = r

-- What follows from the search for the next colon.
unfoldable pub parse_round :
    (ℕ → Option (List ℕ) → ℕ → List ℕ → Params → Parsing)
    → ℕ
    → Option (List ℕ)
    → ℕ
    → List ℕ
    → Params
    → Option (List ℕ × List ℕ)
    → Parsing
parse_round loop counter type remaining start p none =
    parsed (is_call_execute type, parse_parameter (c_string start) p)
parse_round loop counter type remaining start p (some (before, after)) =
    let argument = c_string before in
    loop (counter + 1) (if counter == 1 then some (cut_key argument) else type)
      (remaining - length before) after (parse_parameter argument p)

-- The loop, from an argument on: the number of arguments before it, the string at `type`, the
-- octets that `remaining` allows to look at, and the memory.
unfoldable pub parse_loop : ℕ → ℕ → Option (List ℕ) → ℕ → List ℕ → Params → Parsing
unfolding parse_round
parse_loop zero counter type remaining start p = running (is_call_execute type, p)
parse_loop (suc fuel) counter type remaining start p =
    parse_round (parse_loop fuel) counter type remaining start p (find colon remaining start)

-- The call; each round takes a colon off, so that the fuel, the length of the memory and one, is enough.
unfoldable pub parse_parameters : List ℕ → ℕ → Params → Bool × Params
parse_parameters buf len p = so_far (parse_loop (suc (length buf)) 0 none len buf p)

-- The answer to a message, if there is one: its identifier, which is written into
-- `%%<message:%s:true:`, and the parameters.
unfoldable pub answer : List ℕ → Bool × Params → Option (List ℕ) × Params
answer id (true, p) = (some (c_string id), p)
answer id (false, p) = (none, p)

unfoldable pub identified : ℕ → Option (List ℕ × List ℕ) → Params → Option (List ℕ) × Params
unfolding answer
identified len none p = (none, p)
identified len (some (id, after)) p = answer id (parse_parameters after (len - length id - 1) p)

unfoldable pub parse_message : ℕ → Option (List ℕ × List ℕ) → Params → Option (List ℕ) × Params
unfolding identified
parse_message len none p = (none, p)
parse_message len (some (before, after)) p =
    let rest = len - length before - 1 in identified rest (find colon rest after) p

unfoldable pub parse_incoming : List ℕ → ℕ → Params → Option (List ℕ) × Params
unfolding parse_message
parse_incoming buf len p = parse_message len (find colon len buf) p
