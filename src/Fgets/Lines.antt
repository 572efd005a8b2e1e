-- ===== src/Fgets/Lines.antt =====
-- Lines on standard input as commands.
use linux_interface_test.Base.{
  ℕ, zero, suc, ◌≤◌, ◌<◌, ◌≡◌, ◌≢◌, refl, arith, ◌==◌, if◌then◌else◌, List, [], ◌∷◌, ◌++◌, Bool,
  true, false, get_or, length, ap, ◌∙◌, sym,
}
use linux_interface_test.Fgets.{
  max_input_buf, ThreadStatus, thread_quit, thread_sleeping, thread_running, thread_block, fgets,
  status_of, option_list, input_loop,
}

abbrev pub NoNewline : List ℕ → Type 0
NoNewline [] = Unit {0}
NoNewline (c ∷ cs) = (c ≢ 10) × NoNewline cs

-- Lines of at most nine characters, which fit `inBuf` with their newline.
abbrev pub ShortLines : List (List ℕ) → Type 0
ShortLines [] = Unit {0}
ShortLines (l ∷ ls) = NoNewline l × (length l < max_input_buf) × ShortLines ls

abbrev pub text : List (List ℕ) → List ℕ
text [] = []
text (l ∷ ls) = l ++ (10 ∷ text ls)

-- What the first character of a line says; an empty line starts with its newline.
abbrev pub in_char_of : List ℕ → ℕ
in_char_of l = get_or (l ++ (10 ∷ [])) 0 0

-- The commands and the statuses that they ask for: q, s, r, b.
abbrev pub commands : List (ℕ × ThreadStatus)
commands =
    (113, thread_quit) ∷ (115, thread_sleeping) ∷ (114, thread_running) ∷ (98, thread_block) ∷ []

-- What a character asks for.
abbrev pub said : ℕ → List (ℕ × ThreadStatus) → List ThreadStatus
said c [] = []
said c (command ∷ rest) = if c == command.0 then command.1 ∷ [] else said c rest

said-status_of : (c : ℕ) → option_list (status_of c) ≡ said c commands
said-status_of c = ground arith

-- What the lines ask for, up to the first `q`.
abbrev pub obey : List (List ℕ) → List ThreadStatus × Bool
obey [] = ([], false)
obey (l ∷ ls) =
    if in_char_of l == 113
    then (thread_quit ∷ [], true)
    else (said (in_char_of l) commands ++ (obey ls).0, (obey ls).1)

fgets-line :
    (left : ℕ) (l rest : List ℕ)
    → NoNewline l
    → length l < left
    → fgets left (l ++ (10 ∷ rest)) ≡ (l ++ (10 ∷ []), rest)
unfolding fgets
fgets-line zero l rest h k = absurd (omega arith)
fgets-line (suc left) [] rest h k = refl
fgets-line (suc left) (c ∷ l) rest (other, h) k =
    ground (arith, other, fgets-line left l rest h (omega arith))

fgets-full : (l rest : List ℕ) → NoNewline l → fgets (length l) (l ++ rest) ≡ (l, rest)
unfolding fgets
fgets-full [] rest h = refl
fgets-full (c ∷ l) rest (other, h) = ground (arith, other, fgets-full l rest h)

-- A round of the loop, by the piece that `fgets` takes.
loop_piece :
    (fuel : ℕ) (c : ℕ) (cs piece rest : List ℕ)
    → fgets max_input_buf (c ∷ cs) ≡ (piece, rest)
    → input_loop (suc fuel) (c ∷ cs) ≡ (
        if get_or piece 0 0 == 113 then (thread_quit ∷ [], true) else (
          option_list (status_of (get_or piece 0 0)) ++ (input_loop fuel rest).0,
          (input_loop fuel rest).1,
        ))
unfolding input_loop
loop_piece fuel c cs piece rest h = rw (input_loop, h) refl

-- `InputLoop` on lines of at most nine characters: for each line that starts with q, s, r or b it stores the
-- status that this letter asks for, and for another line none, in order, up to the first line with a
-- q, and it returns if there is one. With fuel for each line; a
-- stream that ends with no `q` leaves it in its loop.
pub input_loop-obey :
    (ls : List (List ℕ)) (fuel : ℕ)
    → ShortLines ls
    → length ls ≤ fuel
    → input_loop fuel (text ls) ≡ obey ls
unfolding input_loop
input_loop-obey [] zero short enough = refl
input_loop-obey [] (suc fuel) short enough = refl
input_loop-obey (l ∷ ls) zero short enough = absurd (omega arith)
input_loop-obey ([] ∷ ls) (suc fuel) (plain, fits, short) enough =
    loop_piece fuel 10 (text ls) (10 ∷ []) (text ls)
      (fgets-line max_input_buf [] (text ls) plain fits)
    ∙ rw (input_loop-obey ls fuel short (omega arith)) refl
input_loop-obey ((d ∷ l) ∷ ls) (suc fuel) (plain, fits, short) enough =
    loop_piece fuel d (l ++ (10 ∷ text ls)) ((d ∷ l) ++ (10 ∷ [])) (text ls)
      (fgets-line max_input_buf (d ∷ l) (text ls) plain fits)
    ∙ rw (input_loop-obey ls fuel short (omega arith), said-status_of d) refl

-- A line of ten characters or more is taken for several commands: behind ten characters with no
-- newline, whose first is not `q`, the loop takes what follows for the next command.
pub input_loop-full :
    (c : ℕ) (cs rest : List ℕ) (fuel : ℕ)
    → NoNewline (c ∷ cs)
    → length (c ∷ cs) ≡ max_input_buf
    → c ≢ 113
    → input_loop (suc fuel) ((c ∷ cs) ++ rest)
      ≡ (option_list (status_of c) ++ (input_loop fuel rest).0, (input_loop fuel rest).1)
input_loop-full c cs rest fuel plain full other =
    loop_piece fuel c (cs ++ rest) (c ∷ cs) rest
      (ap (λ n. fgets n ((c ∷ cs) ++ rest)) (sym full) ∙ fgets-full (c ∷ cs) rest plain)
    ∙ ground (arith, other)
