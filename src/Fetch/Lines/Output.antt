-- ===== src/Fetch/Lines/Output.antt =====
-- What `write_lines` writes, and that it comes to an end.
use micro_config_drive.Base.{
  ℕ, zero, suc, ◌+◌, ◌^◌, ◌<◌, Bytes, length, length-append, Option, none, some, List, [], ◌∷◌,
  ◌++◌, append_assoc, append-nil, Bool, true, false, not, ◌==◌, ◌≡◌, refl, ◌∙◌, arith, inl, inr,
  Option-cases, Bool-cases,
}
use micro_config_drive.System.{Os, Trace, write}
use micro_config_drive.System.Io.{World}
use micro_config_drive.Fetch.Stream.{fgets, fgets_shorter, fgets_line, IsPlain}
use micro_config_drive.Fetch.Lines.{
  c_string, write_all, write_prefix, ends_line, end_line, write_line, less, write_lines,
}

-- The function returns, whatever the stream holds and whatever the writes answer: each round takes a
-- byte at least, so fuel for one round more than there are bytes is enough.
pub write_lines_total :
    (fuel : ℕ) (os : Os) (out : ℕ) (prefix : Option Bytes) (broken : Bool) (cl : ℕ) (s : Bytes)
    (w : World)
    → length s < fuel
    → (b : Bool) × ((write_lines fuel os out prefix broken cl s w).0 ≡ some b)
unfolding write_lines
write_lines_total zero os out prefix broken cl s w h = absurd (omega arith)
write_lines_total (suc fuel) os out prefix broken zero s w h = (true, refl)
write_lines_total (suc fuel) os out prefix broken (suc cl) s w h =
    elim (Option-cases (fgets 2048 broken s)) [
      | inl e ↦ (not broken, rw (write_lines, e) refl)
      | inr (l, e) ↦
          let shorter = fgets_shorter 2046 broken s l e in
          let text = c_string l.text in
          let v = (write_line os out prefix text w).1 in
          elim (Bool-cases ((write_line os out prefix text w).0)) [
            | inl f ↦
                let (b, ends) =
                  write_lines_total fuel os out prefix broken (less (suc cl) (length text)) l.rest v
                    (omega arith) in
                (b, rw (write_lines, e) (rw f ends))
            | inr f ↦ (false, rw (write_lines, e) (rw f refl))
          ]
    ]

-- Lines with their newlines.
abbrev pub join_lines : List Bytes → Bytes
join_lines [] = []
join_lines (l ∷ ls) = l ++ (b'\n' ∷ join_lines ls)

-- Each line fits into the buffer.
abbrev pub AllFit : List Bytes → Type 0
AllFit [] = Unit
AllFit (l ∷ ls) = IsPlain l × (length l + 1 < 2048) × AllFit ls

abbrev pub prefix_calls : ℕ → Option Bytes → Trace
prefix_calls out none = []
prefix_calls out (some prefix) = write out prefix ∷ []

-- The calls for some lines: the prefix, if any, and the line with its newline.
abbrev pub line_calls : ℕ → Option Bytes → List Bytes → Trace
line_calls out prefix [] = []
line_calls out prefix (l ∷ ls) =
    (prefix_calls out prefix ++ (write out (l ++ (b'\n' ∷ [])) ∷ [])) ++ line_calls out prefix ls

c_string-plain : (l : Bytes) → IsPlain l → c_string (l ++ (b'\n' ∷ [])) ≡ l ++ (b'\n' ∷ [])
unfolding c_string
c_string-plain [] p = refl
c_string-plain (c ∷ l) (p, q, r) = rw (q, c_string-plain l r)

ends_line-newline : (b : Bool) (l : Bytes) → ends_line b (l ++ (b'\n' ∷ [])) ≡ true
unfolding ends_line
ends_line-newline b [] = refl
ends_line-newline b (c ∷ l) = ends_line-newline (c == b'\n') l

less_line :
    (l : Bytes) (ls : List Bytes) (cl : ℕ)
    → length (join_lines (l ∷ ls)) ≡ cl
    → cl < 2 ^ 64
    → less cl (length (l ++ (b'\n' ∷ []))) ≡ length (join_lines ls)
unfolding less
less_line l ls cl e b =
    omega (arith, length-append l (b'\n' ∷ join_lines ls), length-append l (b'\n' ∷ []))

abbrev after : World → Trace → World
after w calls = record w { trace = w.trace ++ calls }

-- On a machine whose `write` always writes everything.
module _ (os : Os)
    (full : (t : Trace) (fd : ℕ) (text : Bytes) → os.written t fd text ≡ some (length text)) where
  write_all_full :
      (fd : ℕ) (text : Bytes) (w : World)
      → write_all os fd text w ≡ (true, after w (write fd text ∷ []))
  unfolding write_all
  write_all_full fd text w = ground (arith, full w.trace fd text)

  write_line_full :
      (out : ℕ) (prefix : Option Bytes) (l : Bytes) (w : World)
      → write_line os out prefix (l ++ (b'\n' ∷ [])) w
        ≡ (true, after w (prefix_calls out prefix ++ (write out (l ++ (b'\n' ∷ [])) ∷ [])))
  unfolding write_line write_prefix end_line
  write_line_full out none l w =
      rw (write_all_full out (l ++ (b'\n' ∷ [])) w) (rw (ends_line-newline _ l))
  write_line_full out (some prefix) l w =
      let v = after w (write out prefix ∷ []) in
      rw (write_all_full out prefix w) (
        rw (write_all_full out (l ++ (b'\n' ∷ [])) v)
          (rw (ends_line-newline _ l) (rw append_assoc)))

  -- Where every write is complete, each line of the content, for which `cl` stands, is written once and
  -- in order, behind the prefix if there is one, and nothing of what follows the content is written.
  -- The lines fit into the buffer, and their bytes are fewer than 2 ^ 64.
  pub write_lines_full :
      (fuel out : ℕ) (prefix : Option Bytes) (broken : Bool) (cl : ℕ) (ls : List Bytes)
      (rest : Bytes) (w : World)
      → AllFit ls
      → length (join_lines ls) ≡ cl
      → cl < 2 ^ 64
      → length ls < fuel
      → write_lines fuel os out prefix broken cl (join_lines ls ++ rest) w
        ≡ (some true, record w { trace = w.trace ++ line_calls out prefix ls })
  unfolding write_lines
  write_lines_full zero out prefix broken cl ls rest w p e b h = absurd (omega arith)
  write_lines_full (suc fuel) out prefix broken zero [] rest w p e b h = rw append-nil
  write_lines_full (suc fuel) out prefix broken (suc cl) [] rest w p e b h = absurd (omega arith)
  write_lines_full (suc fuel) out prefix broken zero (l ∷ ls) rest w p e b h =
      absurd (omega (arith, length-append l (b'\n' ∷ join_lines ls)))
  write_lines_full (suc fuel) out prefix broken (suc cl) (l ∷ ls) rest w (plain, fits, p) e b h =
      let line = l ++ (b'\n' ∷ []) in
      let v = after w (prefix_calls out prefix ++ (write out line ∷ [])) in
      rw
        (
          append_assoc l (b'\n' ∷ join_lines ls) rest,
          write_lines,
          fgets_line 2048 broken l (join_lines ls ++ rest) plain fits,
          c_string-plain l plain,
        )
        (rw (write_line_full out prefix l w) (
          rw (c_string-plain l plain, less_line l ls (suc cl) e b, write_line_full out prefix l w)
            (write_lines_full fuel out prefix broken (length (join_lines ls)) ls rest v p refl
                (omega (arith, length-append l (b'\n' ∷ join_lines ls))) (omega arith)
              ∙ rw append_assoc)))
