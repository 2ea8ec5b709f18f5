-- ===== src/Message/Examples.antt =====
-- The text protocol at work: its properties at concrete messages.
use ras.Base.{zeros, none, ℕ, Bool, ◌≡◌, refl, true, some, List, [], ◌∷◌, ◌++◌, arith}
use ras.Message.{
  Params, parsed, newline, colon, call_execute, parse_incoming, parse_message, identified, find,
  answer, parse_parameters, parse_loop, parse_round, parse_parameter, parameter_of, store,
  same_string, c_string, cut_key, is_call_execute,
}
use ras.Message.Reply.{parse_incoming-call_execute}
use ras.Message.Stored.{Stored, parse_incoming-Stored}
use ras.Message.Fuel.{parse_parameters-ends}
use ras.Message.Line.{Reader, read_octets, message, answered_with, read_octets-call_execute}

abbrev nothing_known : Params
nothing_known = record { called = []; caller = []; format = [] }

abbrev waiting : Reader
waiting = record { line = 37 ∷ []; params = nothing_known; answered = []; initialized = [] }

-- `m:7:1:call.execute:caller=9`
abbrev execute_7 : List ℕ
execute_7 =
    (109 ∷ [])
    ++ (colon
        ∷ ((55 ∷ [])
            ++ (colon
                ∷ ((49 ∷ [])
                    ++ (colon
                        ∷ (call_execute
                            ++ (colon ∷ (99 ∷ 97 ∷ 108 ∷ 108 ∷ 101 ∷ 114 ∷ 61 ∷ 57 ∷ 0 ∷ []))))))))

-- The answer to it, and the caller.
execute_7-parsed :
    parse_incoming execute_7 28 nothing_known
    ≡ (some (55 ∷ []), record nothing_known { caller = 57 ∷ [] })
unfolding parse_incoming parse_message identified find answer parse_parameters parse_loop
    parse_round parse_parameter parameter_of store same_string c_string cut_key is_call_execute
execute_7-parsed = refl

parse_incoming-call_execute_example : (parse_incoming execute_7 28 nothing_known).0 ≡ some (55 ∷ [])
parse_incoming-call_execute_example =
    parse_incoming-call_execute (109 ∷ []) (55 ∷ []) (49 ∷ [])
      (99 ∷ 97 ∷ 108 ∷ 108 ∷ 101 ∷ 114 ∷ 61 ∷ 57 ∷ 0 ∷ []) 28 nothing_known ((λ e. omega arith), tt)
      ((λ e. omega arith), tt) ((λ e. omega arith), tt) ((λ e. omega arith), tt) (omega arith)

-- The message comes in two reads.
abbrev half_read : Reader
half_read = record waiting { line = 109 ∷ colon ∷ [] }

abbrev other_half : List ℕ
other_half = 55 ∷ (colon ∷ (49 ∷ (colon ∷ (call_execute ++ (colon ∷ [])))))

read_octets-call_execute_example :
    let all = message (109 ∷ []) (55 ∷ []) (49 ∷ []) [] in
    read_octets true (other_half ++ (newline ∷ 37 ∷ [])) half_read
    ≡ read_octets true (37 ∷ []) (
        answered_with true
          (55 ∷ [])
          (parse_incoming (all ++ zeros 4077) 20 nothing_known).1
          half_read)
read_octets-call_execute_example =
    read_octets-call_execute true (109 ∷ []) (55 ∷ []) (49 ∷ []) [] other_half (37 ∷ []) half_read
      ((λ e. omega arith), tt) ((λ e. omega arith), tt) ((λ e. omega arith), tt)
      ((λ e. omega arith), tt) refl
      (
        (λ e. omega arith),
        (
          (λ e. omega arith),
          (
            (λ e. omega arith),
            (
              (λ e. omega arith),
              (
                (λ e. omega arith),
                (
                  (λ e. omega arith),
                  (
                    (λ e. omega arith),
                    (
                      (λ e. omega arith),
                      (
                        (λ e. omega arith),
                        (
                          (λ e. omega arith),
                          (
                            (λ e. omega arith),
                            (
                              (λ e. omega arith),
                              (
                                (λ e. omega arith),
                                (
                                  (λ e. omega arith),
                                  (
                                    (λ e. omega arith),
                                    ((λ e. omega arith), ((λ e. omega arith), tt)),
                                  ),
                                ),
                              ),
                            ),
                          ),
                        ),
                      ),
                    ),
                  ),
                ),
              ),
            ),
          ),
        ),
      )
      (omega arith)

parse_incoming-Stored_example : Stored (parse_incoming execute_7 28 nothing_known).1
parse_incoming-Stored_example =
    parse_incoming-Stored execute_7 28 nothing_known
      (record { called_fits = omega arith; caller_fits = omega arith; format_fits = omega arith })

parse_parameters-ends_example :
    (r : Bool × Params) × (parse_loop 100 0 none 20 execute_7 nothing_known ≡ parsed r)
    × (parse_parameters execute_7 20 nothing_known ≡ r)
parse_parameters-ends_example = parse_parameters-ends execute_7 20 nothing_known 100 (omega arith)
