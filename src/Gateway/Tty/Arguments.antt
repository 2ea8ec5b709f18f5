-- ===== src/Gateway/Tty/Arguments.antt =====
-- The arguments of main (src/yate_tty.c, src/yate_x75.c).
use ras.Base.{
  ℕ, ◌%◌, ◌≡◌, ◌≢◌, refl, ap, ◌∙◌, Option, none, some, List, [], ◌∷◌, ◌++◌, ◌==◌, ==_of_ne,
  if◌then◌else◌,
}
use ras.Gateway.Tty.{split_at_space, arguments}

abbrev pub NoSpace : List ℕ → Type 0
NoSpace [] = Unit
NoSpace (c ∷ cs) = (c ≢ 0x20) × NoSpace cs

abbrev chosen : ℕ → List ℕ → Option (List ℕ × List ℕ) → Option (List ℕ × List ℕ)
chosen c cs found = elim found [
  | none ↦ if c == 0x20 then some ([], cs) else none
  | some (word, rest) ↦ if c == 0x20 then some ([], cs) else some (c ∷ word, rest)
]

split_at_space-word :
    (host port : List ℕ) → NoSpace host → split_at_space (host ++ (0x20 ∷ port)) ≡ some (host, port)
unfolding split_at_space
split_at_space-word [] port h = at_once (split_at_space port)
  where
    at_once : (found : Option (List ℕ × List ℕ)) → chosen 0x20 port found ≡ some ([], port)
    at_once none = refl
    at_once (some (word, rest)) = refl
split_at_space-word (c ∷ host) port h =
    ap (chosen c (host ++ (0x20 ∷ port))) (split_at_space-word host port h.1)
    ∙ ap (λ b. if b then some ([], host ++ (0x20 ∷ port)) else some (c ∷ host, port))
        (==_of_ne c 0x20 h.0)

-- One argument of a host without a space, a space and a port says the same as two arguments.
pub arguments_alike :
    (atoi : List ℕ → ℕ) (program host port : List ℕ)
    → NoSpace host
    → arguments atoi (program ∷ ((host ++ (0x20 ∷ port)) ∷ []))
      ≡ arguments atoi (program ∷ (host ∷ (port ∷ [])))
unfolding arguments
arguments_alike atoi program host port h =
    ap (λ found. elim found [ none ↦ none | some (host, port) ↦ some (host, atoi port % 65536) ])
      (split_at_space-word host port h)
