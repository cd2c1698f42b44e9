-- ===== src/Harness/Answered.antt =====
-- `do_get_data_from_keygen` of sage-ref/KAT_test_Stream.py as a whole, for the parameter sets whose G_0 the
-- host does not keep: in the last pass the device answers each matrix with a part of the public key.
use iis_meds.Prelude.{
  ℕ, suc, ◌+◌, ◌-◌, List, [], ◌∷◌, ◌++◌, All, map, length, replicate, ltb, lt→ltb, ◌==◌, Bool, true,
  false, if◌then◌else◌, Option, none, some, ok, ◌≡◌, refl, ap, sym, ◌∙◌, arith, append_assoc,
  append-nil,
}
use iis_meds.Text.{lines_of, starts_with, strip}
use iis_meds.Harness.{codes, read_byte, send}
use iis_meds.Harness.Exchange.{
  is_big, take_g0, send_done, send_hex, Pass, give_back, mark_found, pass_line, pass_file,
  get_keygen,
}
use iis_meds.Harness.Kept.{
  Hex, hex_text, Carries, AllCarry, handed, texts, unmarked, pass_line-none,
}
use iis_meds.Harness.SentBack.{
  Told, told_input, told_lines, flat, read_text-hex, read_text-line, store_keys-told, IsLine,
  a_kept, b_kept, g_kept, a_kept-AllCarry, b_kept-AllCarry, g_kept-AllCarry,
}
use iis_meds.Harness.Returned.{
  start_text, returned, file_before, file_lines, whole_pass, pass_file-earlier, pass_file-start,
  handed-a_kept, handed-b_kept, texts-a_kept, texts-b_kept,
}

-- What comes over the line in the last pass: a byte and an answer for each matrix
abbrev pub answered_input : List (ℕ × Hex) → List ℕ → List ℕ
answered_input [] rest = rest
answered_input ((ready, y) ∷ ys) rest = ready ∷ (hex_text y ++ 10 ∷ answered_input ys rest)

abbrev pub answer_texts : List (ℕ × Hex) → List (List ℕ)
answer_texts [] = []
answer_texts ((ready, y) ∷ ys) = hex_text y ∷ answer_texts ys

abbrev pub answering : Bool → ℕ → List ℕ → List ℕ → List (List ℕ) → Pass
answering found number input sent answers = record {
  found = found;
  number = number;
  line_dev = record { input = input; sent = sent };
  answers = answers;
}

pass_line-answer :
    (key : List ℕ) (limit count_line : ℕ) (line : List ℕ) (x y : Hex) (number left ready : ℕ)
    (input sent : List ℕ) (answers : List (List ℕ))
    → Carries key count_line line (some x)
    → number + suc left ≡ limit
    → pass_line key true limit line (
        mark_found count_line line
          (answering (ltb 0 (suc left)) number (ready ∷ (hex_text y ++ 10 ∷ input)) sent answers))
      ≡ ok (
          answering
            (ltb 0 left)
            (number + 1)
            input
            (sent ++ x.bytes ++ 49 ∷ [])
            (answers ++ hex_text y ∷ []))
unfolding pass_line give_back read_byte send_hex send_done send
pass_line-answer key limit c line x y number left ready input sent answers
      (has_key, no_start, value) total =
    let before =
      answering (ltb 0 (suc left)) number (ready ∷ (hex_text y ++ 10 ∷ input)) sent answers in
    let open_part : ltb 0 (suc left) ≡ true = ground arith in
    let ends : (if number + 1 == limit then false else true) ≡ ltb 0 left = ground arith in
    rw
      (
        unmarked key limit c line before no_start,
        open_part,
        has_key,
        value,
        x.parsed,
        read_text-hex y input (sent ++ x.bytes),
        ends,
      )
      refl

pass_file-answers :
    (key : List ℕ) (limit count_line : ℕ) (lines : List (List ℕ)) (xs : List (Option Hex))
    (number : ℕ) (ys : List (ℕ × Hex)) (rest sent : List ℕ) (answers : List (List ℕ))
    → AllCarry key count_line lines xs
    → number + texts xs ≡ limit
    → length ys ≡ texts xs
    → pass_file key true limit count_line lines
        (answering (ltb 0 (texts xs)) number (answered_input ys rest) sent answers)
      ≡ ok (answering false limit rest (sent ++ handed xs) (answers ++ answer_texts ys))
unfolding pass_file
pass_file-answers key limit c [] [] number [] rest sent answers h total size =
    let e : number ≡ limit = omega arith in rw (e, append-nil sent, append-nil answers) refl
pass_file-answers key limit c [] [] number (y ∷ ys) rest sent answers h total size =
    absurd (omega arith)
pass_file-answers key limit c [] (x ∷ xs) number ys rest sent answers h total size = absurd h
pass_file-answers key limit c (line ∷ lines) [] number ys rest sent answers h total size = absurd h
pass_file-answers key limit c (line ∷ lines) (none ∷ xs) number ys rest sent answers h total size =
    rw
      (pass_line-none key limit c line true
        (answering (ltb 0 (texts xs)) number (answered_input ys rest) sent answers) h.0)
      (pass_file-answers key limit c lines xs number ys rest sent answers h.1 total size)
pass_file-answers key limit c (line ∷ lines) (some x ∷ xs) number [] rest sent answers h total
      size =
    absurd (omega arith)
pass_file-answers key limit c (line ∷ lines) (some x ∷ xs) number ((ready, y) ∷ ys) rest sent
      answers h total size =
    let joined : sent ++ x.bytes ++ 49 ∷ [] ++ handed xs
        ≡ sent ++ (x.bytes ++ 49 ∷ [] ++ handed xs) =
      append_assoc (sent ++ x.bytes) (49 ∷ []) (handed xs)
      ∙ append_assoc sent x.bytes (49 ∷ handed xs)
      ∙ ap (λ l. sent ++ l) (sym (append_assoc x.bytes (49 ∷ []) (handed xs))) in
    rw
      (
        pass_line-answer key limit c line x y number (texts xs) ready (answered_input ys rest) sent
            answers h.0 total,
        sym joined,
        sym (append_assoc answers (hex_text y ∷ []) (answer_texts ys)),
      )
      (pass_file-answers key limit c lines xs (number + 1) ys rest (sent ++ x.bytes ++ 49 ∷ [])
        (answers ++ hex_text y ∷ []) h.1 (omega arith) (omega arith))

handed-g_kept : (rs : List Told) → handed (g_kept rs) ≡ returned (map (λ r. r.g) rs)
handed-g_kept [] = refl
handed-g_kept (r ∷ rs) = rw (handed-g_kept rs) refl

texts-g_kept : (rs : List Told) → texts (g_kept rs) ≡ length rs
texts-g_kept [] = refl
texts-g_kept (r ∷ rs) = ap suc (texts-g_kept rs)

module _ (c : ℕ) (earlier : List (List ℕ)) (r : Told) (more : List Told) where
  last_pass :
      (ys : List (ℕ × Hex)) (rest sent : List ℕ)
      → All IsLine earlier
      → All (λ l. starts_with l (start_text c) ≡ false) earlier
      → length ys ≡ length (r ∷ more)
      → pass_file
          (codes "G_data")
          true
          (length (r ∷ more))
          c
          (lines_of (file_before c earlier r more ++ flat (told_lines 1 (r ∷ more))))
          (answering false 0 (answered_input ys rest) sent [])
        ≡ ok (
            answering false
              (length (r ∷ more))
              rest
              (sent ++ handed (g_kept (r ∷ more)))
              (answer_texts ys))
  last_pass ys rest sent lines before size =
      let limit = length (r ∷ more) in
      let xs = g_kept (r ∷ more) in
      let key = codes "G_data" in
      let open_part : ltb 0 (texts xs) ≡ true = lt→ltb 0 (texts xs) (omega arith) in
      let body =
        pass_file-answers key limit c (told_lines 1 (r ∷ more)) xs 0 ys rest sent []
          (g_kept-AllCarry c 1 (r ∷ more)) (omega (arith, texts-g_kept more))
          (omega (arith, texts-g_kept more)) in
      rw (file_lines c earlier r more lines) (
        pass_file-earlier key true limit c earlier _ 0 (answered_input ys rest) sent before
        ∙ pass_file-start key true limit c (told_lines 1 (r ∷ more)) 0 (answered_input ys rest) sent
            refl
        ∙ (rw open_part at body))

  -- For a name whose G_0 is not kept, in the part of a count whose number starts no earlier line, where
  -- the device tells hexadecimal texts for one round or more, and the secret key as a line with no white space at its ends, and asks for as many matrices in each of three
  -- passes: the host sends '1' for each round, the bytes of each A_inv and '1' for each, those of each B_inv, '1'
  -- for the secret key, and then those of each G. The results are the text of the secret key, the device's
  -- answers in the last pass, and the file with three lines for each round; what comes over the line behind
  -- all this is still to be read.
  pub get_keygen_lem :
      (name asked_a asked_b rest sent sk : List ℕ) (ready : ℕ) (ys : List (ℕ × Hex))
      → is_big name ≡ false
      → All (λ x. x == 10 ≡ false) sk
      → strip (sk ++ 10 ∷ []) ≡ sk
      → All IsLine earlier
      → All (λ l. starts_with l (start_text c) ≡ false) earlier
      → length asked_a ≡ length (r ∷ more)
      → length asked_b ≡ length (r ∷ more)
      → length ys ≡ length (r ∷ more)
      → get_keygen name
          (suc (length (r ∷ more)))
          c
          (record {
            input =
                told_input
                  (r ∷ more)
                  (asked_a ++ (asked_b ++ (ready ∷ (sk ++ 10 ∷ answered_input ys rest))));
            sent = sent;
          })
          (file_before c earlier r more)
        ≡ ok (
          sk,
          answer_texts ys,
          record {
            input = rest;
            sent =
                sent
                ++ replicate (length (r ∷ more)) 49
                ++ returned (map (λ t. t.a_inv) (r ∷ more))
                ++ returned (map (λ t. t.b_inv) (r ∷ more))
                ++ (49 ∷ [])
                ++ returned (map (λ t. t.g) (r ∷ more));
          },
          file_before c earlier r more ++ flat (told_lines 1 (r ∷ more)),
        )
  unfolding get_keygen take_g0 read_byte send_done send
  get_keygen_lem name asked_a asked_b rest sent sk ready ys small one_line stripped lines before
        size_a size_b size_g =
      let all = r ∷ more in
      let sk_input = ready ∷ (sk ++ 10 ∷ answered_input ys rest) in
      let ones = sent ++ replicate (length all) 49 in
      let a_sent = ones ++ handed (a_kept all) in
      let b_sent = a_sent ++ handed (b_kept all) in
      let rounds : suc (length all) - 1 ≡ length all = omega arith in
      rw
        (
          small,
          rounds,
          store_keys-told [] 1 all (asked_a ++ (asked_b ++ sk_input)) sent
              (file_before c earlier r more),
          whole_pass c earlier r more (codes "A_inv_data") (a_kept all) asked_a
              (asked_b ++ sk_input) ones lines before refl (a_kept-AllCarry c 1 all)
              (texts-a_kept all) size_a,
          whole_pass c earlier r more (codes "B_inv_data") (b_kept all) asked_b sk_input a_sent
              lines before refl (b_kept-AllCarry c 1 all) (texts-b_kept all) size_b,
          read_text-line sk (answered_input ys rest) b_sent one_line stripped,
          last_pass ys rest (b_sent ++ 49 ∷ []) lines before size_g,
          sym (handed-a_kept all),
          sym (handed-b_kept all),
          sym (handed-g_kept all),
        )
        refl
