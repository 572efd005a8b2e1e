-- ===== src/Logger/Rolling.antt =====
-- What a log file holds while it is written from its start again and again.
use linux_interface_test.Base.{
  length-drop, ℕ, suc, ◌+◌, ◌*◌, ◌≤◌, ◌<◌, ◌≡◌, refl, arith, leb, ltb, if◌then◌else◌, List, [], ◌∷◌,
  ◌++◌, append_assoc, append-nil, Bool-cases, inl, inr, none, some, length, length-append,
  length-take, take, drop, take-length_append, subst, ap, ◌∙◌, sym,
}
use linux_interface_test.Logger.{
  LogInfo, kilobytes, megabytes, file_size, is_need_roll, fprintf, log_line, log_lines, init_log,
}

abbrev pub AllShorter : ℕ → List (List ℕ) → Type 0
AllShorter longest [] = Unit {0}
AllShorter longest (line ∷ lines) = (length line ≤ longest) × AllShorter longest lines

abbrev pub concat : List (List ℕ) → List ℕ
concat [] = []
concat (line ∷ lines) = line ++ concat lines

-- Of the lines that were logged, the file begins with the last ones, those since the last start, whole
-- and in order, and behind them stands what is left of older ones; it is never larger than the limit
-- and one line.
pub record Rolls (longest : ℕ) (lines : List (List ℕ)) (log : LogInfo) : Type 0 where
  pub before : List (List ℕ)
  pub since : List (List ℕ)
  pub older : List ℕ
  pub logged : before ++ since ≡ lines
  pub holds : log.file ≡ concat since ++ older
  pub at_end : log.position ≡ length (concat since)
  pub bounded : length log.file < log.max_file_size + longest
  pub has_size : 0 < log.max_file_size

drop-append : (xs ys : List ℕ) (n : ℕ) → drop (length xs + n) (xs ++ ys) ≡ drop n ys
drop-append [] ys n = ap (λ k. drop k ys) (omega arith)
drop-append (x ∷ xs) ys n =
    let step : suc (length xs) + n ≡ suc (length xs + n) = omega arith in
    ap (λ k. drop k (x ∷ (xs ++ ys))) step ∙ drop-append xs ys n

concat-snoc :
    (lines : List (List ℕ)) (line : List ℕ) → concat (lines ++ (line ∷ [])) ≡ concat lines ++ line
concat-snoc [] line = append-nil line
concat-snoc (l ∷ lines) line =
    ap (λ t. l ++ t) (concat-snoc lines line) ∙ sym (append_assoc l (concat lines) line)

-- The file behind `fprintf` at the end of its new lines.
printed :
    (new older line : List ℕ)
    → take (length new) (new ++ older) ++ (line ++ drop (length new + length line) (new ++ older))
      ≡ (new ++ line) ++ drop (length line) older
printed new older line =
    rw (take-length_append new older, drop-append new older (length line))
      (sym (append_assoc new line _))

module _ (longest : ℕ) (lines : List (List ℕ)) (line : List ℕ) (log : LogInfo)
    (fits : length line ≤ longest) where
  fprintf-Rolls :
      (r : Rolls longest lines log)
      → log.position < log.max_file_size
      → Rolls longest (lines ++ (line ∷ [])) (fprintf line log)
  unfolding fprintf
  fprintf-Rolls r small =
      let file_now : take log.position log.file
            ++ (line ++ drop (log.position + length line) log.file)
          ≡ (concat r.since ++ line) ++ drop (length line) r.older =
        (λ i.
          take (r.at_end i) (r.holds i) ++ (line ++ drop (r.at_end i + length line) (r.holds i)))
        ∙ printed (concat r.since) r.older line in
      record {
        before = r.before;
        since = r.since ++ (line ∷ []);
        logged =
            sym (append_assoc r.before r.since (line ∷ [])) ∙ ap (λ ls. ls ++ (line ∷ [])) r.logged;
        older = drop (length line) r.older;
        holds =
            file_now ∙ ap (λ t. t ++ drop (length line) r.older) (sym (concat-snoc r.since line));
        at_end = omega (
          arith,
          r.at_end,
          ap length (concat-snoc r.since line),
          length-append (concat r.since) line,
        );
        bounded = omega (
          arith,
          r.bounded,
          r.at_end,
          ap length r.holds,
          length-append (concat r.since) r.older,
          length-append (take log.position log.file)
              (line ++ drop (log.position + length line) log.file),
          length-append line (drop (log.position + length line) log.file),
          length-take log.position log.file,
          length-drop (log.position + length line) log.file,
        );
        has_size = r.has_size;
      }

  rolled-Rolls : (r : Rolls longest lines log) → Rolls longest lines (record log { position = 0 })
  rolled-Rolls r = record {
    before = lines;
    logged = append-nil lines;
    since = [];
    older = log.file;
    holds = refl;
    at_end = refl;
    bounded = r.bounded;
    has_size = r.has_size;
  }

log_line-Rolls :
    (longest : ℕ) (lines : List (List ℕ)) (line : List ℕ) (log : LogInfo)
    → length line ≤ longest
    → Rolls longest lines log
    → Rolls longest (lines ++ (line ∷ [])) (log_line line log)
unfolding log_line is_need_roll
log_line-Rolls longest lines line log fits r =
    elim (Bool-cases (leb log.max_file_size log.position)) [
      | inl full ↦ rw full (
          fprintf-Rolls longest lines line (record log { position = 0 }) fits
            (rolled-Rolls longest lines line log fits r) r.has_size)
      | inr room ↦ rw room (fprintf-Rolls longest lines line log fits r (ground (arith, room)))
    ]

log_lines-Rolls :
    (longest : ℕ) (done lines : List (List ℕ)) (log : LogInfo)
    → AllShorter longest lines
    → Rolls longest done log
    → Rolls longest (done ++ lines) (log_lines lines log)
unfolding log_lines
log_lines-Rolls longest done [] log all r =
    subst (λ ls. Rolls longest ls log) (sym (append-nil done)) r
log_lines-Rolls longest done (line ∷ lines) log (fits, all) r =
    subst (λ ls. Rolls longest ls (log_lines lines (log_line line log)))
      (append_assoc done (line ∷ []) lines)
      (log_lines-Rolls longest (done ++ (line ∷ [])) lines (log_line line log) all
        (log_line-Rolls longest done line log fits r))

-- After any lines, none longer than `longest`, a log that `InitLog` has set up with a size that is not 0
-- is smaller than this size and `longest` together. It begins with the last of these lines, those since it was
-- last written from its start, whole and in order, and goes on with what is left of older ones; the next
-- line comes between the two.
pub log_lines-init :
    (longest n : ℕ) (lines : List (List ℕ)) (log : LogInfo)
    → init_log (suc n) ≡ some log
    → AllShorter longest lines
    → Rolls longest lines (log_lines lines log)
unfolding init_log
log_lines-init longest n lines log set_up all =
    log_lines-Rolls longest [] lines log all (subst (Rolls longest []) (cc set_up) first)
  where
    first : Rolls longest [] (record { file = []; position = 0; max_file_size = suc n })
    first = record {
      before = [];
      since = [];
      older = [];
      logged = refl;
      holds = refl;
      at_end = refl;
      bounded = omega arith;
      has_size = omega arith;
    }

-- A size in megabytes is taken exactly when it is below 2048; from there on the product overflows
-- `int`. In kilobytes the bound is 2097152.
pub file_size-megabytes :
    (n : ℕ)
    → (file_size n megabytes ≡ (if ltb n 2048 then some (some (n * 1048576)) else none))
      × (file_size n kilobytes ≡ (if ltb n 2097152 then some (some (n * 1024)) else none))
unfolding file_size
file_size-megabytes n = (ground arith, ground arith)
