-- ===== src/Shell/Parsing/Lengths.antt =====
-- lab-shell/shell: how long the parts are into which the parser cuts a line.
use sistemas_operativos.Base.{
  ℕ, zero, suc, ◌≤◌, Bool, true, false, List, [], ◌∷◌, if◌then◌else◌, length, ◌==◌, arith,
}
use sistemas_operativos.Shell.State.{space, cut, skip_spaces, split_line}
use sistemas_operativos.Shell.Parsing.{get_token, drop}

-- The two parts of a string under a test.
abbrev pub pick : Bool → (x y : List ℕ × List ℕ) → List ℕ × List ℕ
pick t x y = if t then x else y

pub length-cut : (splitter : ℕ) (cs : List ℕ) → length (cut splitter cs).1 ≤ length cs
unfolding cut
length-cut splitter [] = omega arith
length-cut splitter (c ∷ cs) =
    elim (c == splitter)
      as (λ t.
        length (pick t ([], cs) (c ∷ (cut splitter cs).0, (cut splitter cs).1)).1
        ≤ suc (length cs)) [
          | true ↦ omega arith
          | false ↦ let ih = length-cut splitter cs in omega arith
        ]

pub length-skip_spaces : (cs : List ℕ) → length (skip_spaces cs) ≤ length cs
unfolding skip_spaces
length-skip_spaces [] = omega arith
length-skip_spaces (c ∷ cs) =
    let ih = length-skip_spaces cs in
    elim (c == space) as (λ t. length (if t then skip_spaces cs else c ∷ cs) ≤ suc (length cs)) [
      | true ↦ omega arith
      | false ↦ omega arith
    ]

pub length-get_token : (cs : List ℕ) → length (get_token cs).1 ≤ length cs
unfolding get_token
length-get_token [] = omega arith
length-get_token (c ∷ cs) =
    let ih = length-get_token cs in
    elim (c == space)
      as (λ t.
        length (pick t ([], c ∷ cs) (c ∷ (get_token cs).0, (get_token cs).1)).1 ≤ suc (length cs)) [
          | true ↦ omega arith
          | false ↦ omega arith
        ]

pub length-drop : (n : ℕ) (cs : List ℕ) → length (drop n cs) ≤ length cs
length-drop zero cs = omega arith
length-drop (suc n) [] = omega arith
length-drop (suc n) (c ∷ cs) = let ih = length-drop n cs in omega arith

-- What is left after a token and one more character is shorter.
pub length-rest : (c : ℕ) (cs : List ℕ) → length (drop 1 (get_token (c ∷ cs)).1) ≤ length cs
unfolding get_token
length-rest c cs =
    let ih = length-get_token cs in
    elim (c == space)
      as (λ t.
        length (drop 1 (pick t ([], c ∷ cs) (c ∷ (get_token cs).0, (get_token cs).1)).1)
        ≤ length cs) [
          | true ↦ omega arith
          | false ↦ let short = length-drop 1 (get_token cs).1 in omega arith
        ]

pub length-split_line :
    (splitter c : ℕ) (cs : List ℕ) → length (split_line (c ∷ cs) splitter).1 ≤ length cs
unfolding split_line cut
length-split_line splitter c cs =
    let behind = length-skip_spaces (cut splitter (c ∷ cs)).1 in
    let short = length-cut splitter cs in
    elim (c == splitter)
      as (λ t.
        length (skip_spaces (pick t ([], cs) (c ∷ (cut splitter cs).0, (cut splitter cs).1)).1)
        ≤ length cs) [
          | true ↦ length-skip_spaces cs
          | false ↦ let behind = length-skip_spaces (cut splitter cs).1 in omega arith
        ]

pub length-left : (splitter : ℕ) (buf : List ℕ) → length (split_line buf splitter).0 ≤ length buf
unfolding split_line cut
length-left splitter [] = omega arith
length-left splitter (c ∷ cs) =
    let ih = length-left splitter cs in
    elim (c == splitter)
      as (λ t.
        length (pick t ([], cs) (c ∷ (cut splitter cs).0, (cut splitter cs).1)).0
        ≤ suc (length cs)) [ true ↦ omega arith | false ↦ omega arith ]
