-- ===== src/Harness/Returned.antt =====
-- The part of one count in the file of KAT_test_Stream.py: what its two first passes send back to the device.
use iis_meds.Prelude.{
  Bool, ℕ, suc, List, [], ◌∷◌, ◌++◌, All, All-append, map, length, ltb, ◌==◌, true, false, Option,
  ok, ◌≡◌, refl, ap, sym, ◌∙◌, arith, append_assoc,
}
use iis_meds.Text.{lines_of, decimal, starts_with}
use iis_meds.Text.Lines.{decimal-IsPlain}
use iis_meds.Harness.{codes}
use iis_meds.Harness.Exchange.{mark_found, pass_line, pass_file}
use iis_meds.Harness.Kept.{Hex, AllCarry, handed, texts, passed, unmarked, pass_file-AllCarry}
use iis_meds.Harness.SentBack.{
  Told, told_lines, flat, IsLine, lines_of-flat, flat-append, told_lines-IsLine, a_kept, b_kept,
  plain-IsInKey, key_no_newline,
}

abbrev pub start_text : ℕ → List ℕ
start_text c = codes "count = " ++ decimal c

-- The bytes of each matrix, and '1'
abbrev pub returned : List Hex → List ℕ
returned [] = []
returned (x ∷ xs) = x.bytes ++ (49 ∷ []) ++ returned xs

pub handed-a_kept : (rs : List Told) → handed (a_kept rs) ≡ returned (map (λ r. r.a_inv) rs)
handed-a_kept [] = refl
handed-a_kept (r ∷ rs) = rw (handed-a_kept rs) refl

pub handed-b_kept : (rs : List Told) → handed (b_kept rs) ≡ returned (map (λ r. r.b_inv) rs)
handed-b_kept [] = refl
handed-b_kept (r ∷ rs) = rw (handed-b_kept rs) refl

pub texts-a_kept : (rs : List Told) → texts (a_kept rs) ≡ length rs
texts-a_kept [] = refl
texts-a_kept (r ∷ rs) = ap suc (texts-a_kept rs)

pub texts-b_kept : (rs : List Told) → texts (b_kept rs) ≡ length rs
texts-b_kept [] = refl
texts-b_kept (r ∷ rs) = ap suc (texts-b_kept rs)

pub starts_with-append : (xs ys : List ℕ) → starts_with (xs ++ ys) xs ≡ true
starts_with-append [] [] = refl
starts_with-append [] (y ∷ ys) = refl
starts_with-append (x ∷ xs) ys = rw (starts_with-append xs ys) (ground arith)

-- A pass first comes to the line that starts the part, and then to its rounds.
module _ (key : List ℕ) (answered : Bool) (limit c : ℕ) where
  pub pass_file-earlier :
      (earlier lines : List (List ℕ)) (number : ℕ) (input sent : List ℕ)
      → All (λ l. starts_with l (start_text c) ≡ false) earlier
      → pass_file key answered limit c (earlier ++ lines) (passed false number input sent)
        ≡ pass_file key answered limit c lines (passed false number input sent)
  unfolding pass_file pass_line
  pass_file-earlier [] lines number input sent h = refl
  pass_file-earlier (line ∷ earlier) lines number input sent h =
      rw (unmarked key limit c line (passed false number input sent) h.0)
        (pass_file-earlier earlier lines number input sent h.1)

  pub pass_file-start :
      (lines : List (List ℕ)) (number : ℕ) (input sent : List ℕ)
      → starts_with (start_text c ++ 10 ∷ []) key ≡ false
      → pass_file key answered limit c
          ((start_text c ++ 10 ∷ []) ∷ lines)
          (passed false number input sent)
        ≡ pass_file key answered limit c lines (passed true number input sent)
  unfolding pass_file pass_line mark_found
  pass_file-start lines number input sent e =
      rw (starts_with-append (start_text c) (10 ∷ []), e) refl

-- The lines of a file with a part at its end
pub part_lines :
    (c : ℕ) (earlier lines : List (List ℕ))
    → All IsLine earlier
    → All IsLine lines
    → lines_of (flat earlier ++ (start_text c ++ 10 ∷ []) ++ flat lines)
      ≡ earlier ++ ((start_text c ++ 10 ∷ []) ∷ lines)
part_lines c earlier lines h h' =
    let start = start_text c ++ 10 ∷ [] in
    let start-IsLine : IsLine start = (
      start_text c,
      refl,
      All-append (λ (x : ℕ). x == 10 ≡ false) (codes "count = ") (decimal c)
          (refl, (refl, (refl, (refl, (refl, (refl, (refl, (refl, tt))))))))
          (key_no_newline (decimal c) (plain-IsInKey (decimal c) (decimal-IsPlain c))),
    ) in
    ap lines_of
      (append_assoc (flat earlier) start (flat lines) ∙ sym (flat-append earlier (start ∷ lines)))
    ∙ lines_of-flat (earlier ++ (start ∷ lines))
        (All-append IsLine earlier (start ∷ lines) h (start-IsLine, h'))

module _ (c : ℕ) (earlier : List (List ℕ)) (r : Told) (more : List Told) where
  abbrev all : List Told
  all = r ∷ more

  abbrev pub file_before : List ℕ
  file_before = flat earlier ++ (start_text c ++ 10 ∷ [])

  pub file_lines :
      All IsLine earlier
      → lines_of (file_before ++ flat (told_lines 1 all))
        ≡ earlier ++ ((start_text c ++ 10 ∷ []) ∷ told_lines 1 all)
  file_lines h = part_lines c earlier (told_lines 1 all) h (told_lines-IsLine 1 all)

  pub whole_pass :
      (key : List ℕ) (xs : List (Option Hex)) (asked rest sent : List ℕ)
      → All IsLine earlier
      → All (λ l. starts_with l (start_text c) ≡ false) earlier
      → starts_with (start_text c ++ 10 ∷ []) key ≡ false
      → AllCarry key c (told_lines 1 all) xs
      → texts xs ≡ length all
      → length asked ≡ length all
      → pass_file key false
          (length all)
          c
          (lines_of (file_before ++ flat (told_lines 1 all)))
          (passed false 0 (asked ++ rest) sent)
        ≡ ok (passed false (length all) rest (sent ++ handed xs))
  whole_pass key xs asked rest sent lines before start carry count size =
      let limit = length all in
      let open_part : ltb 0 (texts xs) ≡ true = ground arith in
      let body =
        pass_file-AllCarry key limit c (told_lines 1 all) xs 0 asked rest sent carry (omega arith)
          (omega arith) in
      rw (file_lines lines) (
        pass_file-earlier key false limit c earlier _ 0 (asked ++ rest) sent before
        ∙ pass_file-start key false limit c (told_lines 1 all) 0 (asked ++ rest) sent start
        ∙ (rw open_part at body))
