-- ===== src/Harness/Kept.antt =====
-- The matrices that KAT_test_Stream.py keeps in a file for the device: what it sends back from the file
-- is what the device has given.
use iis_meds.Prelude.{
  ℕ, suc, ◌+◌, List, [], ◌∷◌, ◌++◌, All, length, ◌==◌, ltb, Bool, true, false, if◌then◌else◌,
  Bool-cases, inl, inr, Option, none, some, ok, ◌≡◌, refl, ap, sym, ◌∙◌, arith, append_assoc,
  append-nil,
}
use iis_meds.Text.{decimal, is_space}
use iis_meds.Text.Lines.{
  IsPlain, strip_right-newline, strip_right-behind, strip_right-plain, before-plain,
}
use iis_meds.Harness.{codes, starts_with, strip, second_piece, from_hex, read_byte, send}
use iis_meds.Harness.Exchange.{
  send_done, send_hex, entry_line, entry_value, Pass, give_back, mark_found, pass_line, pass_file,
}

-- A character of a key, behind the first one
abbrev pub IsInKey : ℕ → Type 0
IsInKey c = (c == 61 ≡ false) × (c == 10 ≡ false)

second_piece-key :
    (key text : List ℕ)
    → All IsInKey key
    → All IsPlain text
    → second_piece 61 (key ++ (32 ∷ 61 ∷ 32 ∷ text)) ≡ ok (32 ∷ text)
second_piece-key [] text h p = rw (before-plain text p) refl
second_piece-key (c ∷ key) text h p = rw h.0.0 (second_piece-key key text h.1 p)

-- A key that does not start with white space, and a text with characters
pub entry_value-entry_line :
    (c : ℕ) (key : List ℕ) (d : ℕ) (text : List ℕ)
    → is_space c ≡ false
    → All IsInKey (c ∷ key)
    → All IsPlain (d ∷ text)
    → entry_value (entry_line (c ∷ key) (d ∷ text)) ≡ ok (d ∷ text)
unfolding entry_value entry_line
entry_value-entry_line c key d text first h p =
    let equals : List ℕ = 32 ∷ 61 ∷ 32 ∷ [] in
    let stripped : strip (entry_line (c ∷ key) (d ∷ text))
        ≡ c ∷ (key ++ (32 ∷ 61 ∷ 32 ∷ d ∷ text)) =
      rw (first, append_assoc (key ++ equals) (d ∷ text) (10 ∷ []))
        (strip_right-behind (c ∷ (key ++ equals)) (d ∷ text ++ 10 ∷ []) d text
            (strip_right-newline d text p)
          ∙ ap (◌∷◌ c) (append_assoc key equals (d ∷ text))) in
    rw (stripped, second_piece-key (c ∷ key) (d ∷ text) h p, p.0.0)
      (ap ok (strip_right-plain (d ∷ text) p))

-- A hexadecimal text, and the bytes that it stands for
pub record Hex : Type 0 where
  pub digit : ℕ
  pub digits : List ℕ
  pub bytes : List ℕ
  pub plain : All IsPlain (digit ∷ digits)
  pub parsed : from_hex (digit ∷ digits) ≡ ok bytes

abbrev pub hex_text : Hex → List ℕ
hex_text x = x.digit ∷ x.digits

-- What a line is to a pass: it has the key and a text, or neither the key nor the start of a part.
abbrev pub Carries : List ℕ → ℕ → List ℕ → Option Hex → Type 0
Carries key count_line line none =
    (starts_with line key ≡ false)
    × (starts_with line (codes "count = " ++ decimal count_line) ≡ false)
Carries key count_line line (some x) =
    (starts_with line key ≡ true)
    × (starts_with line (codes "count = " ++ decimal count_line) ≡ false)
    × (entry_value line ≡ ok (hex_text x))

abbrev pub AllCarry : List ℕ → ℕ → List (List ℕ) → List (Option Hex) → Type 0
AllCarry key count_line [] [] = Unit
AllCarry key count_line (line ∷ lines) (x ∷ xs) =
    Carries key count_line line x × AllCarry key count_line lines xs
AllCarry key count_line lines xs = ⊥

-- What the device is given for the lines: the bytes of each text, and '1'.
abbrev pub handed : List (Option Hex) → List ℕ
handed [] = []
handed (none ∷ xs) = handed xs
handed (some x ∷ xs) = x.bytes ++ (49 ∷ []) ++ handed xs

abbrev pub texts : List (Option Hex) → ℕ
texts [] = 0
texts (none ∷ xs) = texts xs
texts (some x ∷ xs) = suc (texts xs)

abbrev pub passed : Bool → ℕ → List ℕ → List ℕ → Pass
passed found number input sent = record {
  found = found;
  number = number;
  line_dev = record { input = input; sent = sent };
  answers = [];
}

module _ (key : List ℕ) (limit count_line : ℕ) (line : List ℕ) where
  pub unmarked :
      (s : Pass)
      → starts_with line (codes "count = " ++ decimal count_line) ≡ false
      → mark_found count_line line s ≡ s
  unfolding mark_found
  unmarked s no_start = rw no_start refl

  pub pass_line-none :
      (answered : Bool) (s : Pass)
      → Carries key count_line line none
      → pass_line key answered limit line (mark_found count_line line s) ≡ ok s
  unfolding pass_line
  pass_line-none answered s (no_key, no_start) = elim (Bool-cases s.found) [
    | inl e ↦ rw (unmarked s no_start, no_key, e) refl
    | inr e ↦ rw (unmarked s no_start, no_key, e) refl
  ]

  pass_line-some :
      (x : Hex) (number left b : ℕ) (input sent : List ℕ)
      → Carries key count_line line (some x)
      → number + suc left ≡ limit
      → pass_line key false limit line
          (mark_found count_line line (passed (ltb 0 (suc left)) number (b ∷ input) sent))
        ≡ ok (passed (ltb 0 left) (number + 1) input (sent ++ x.bytes ++ 49 ∷ []))
  unfolding pass_line give_back read_byte send_hex send_done send
  pass_line-some x number left b input sent (has_key, no_start, value) total =
      let before = passed (ltb 0 (suc left)) number (b ∷ input) sent in
      let open_part : ltb 0 (suc left) ≡ true = ground arith in
      let ends : (if number + 1 == limit then false else true) ≡ ltb 0 left = ground arith in
      rw (unmarked before no_start, open_part, has_key, value, x.parsed, ends) refl

pub pass_file-AllCarry :
    (key : List ℕ) (limit count_line : ℕ) (lines : List (List ℕ)) (xs : List (Option Hex))
    (number : ℕ) (asked rest sent : List ℕ)
    → AllCarry key count_line lines xs
    → number + texts xs ≡ limit
    → length asked ≡ texts xs
    → pass_file key false limit count_line lines (record {
      found = ltb 0 (texts xs);
      number = number;
      line_dev = record { input = asked ++ rest; sent = sent };
      answers = [];
    })
      ≡ ok (record {
        found = false;
        number = limit;
        line_dev = record { input = rest; sent = sent ++ handed xs };
        answers = [];
      })
unfolding pass_file
pass_file-AllCarry key limit c [] [] number [] rest sent h total size =
    let e : number ≡ limit = omega arith in rw (e, append-nil sent) refl
pass_file-AllCarry key limit c [] [] number (b ∷ asked) rest sent h total size =
    absurd (omega arith)
pass_file-AllCarry key limit c [] (x ∷ xs) number asked rest sent h total size = absurd h
pass_file-AllCarry key limit c (line ∷ lines) [] number asked rest sent h total size = absurd h
pass_file-AllCarry key limit c (line ∷ lines) (none ∷ xs) number asked rest sent h total size =
    rw
      (pass_line-none key limit c line false (passed (ltb 0 (texts xs)) number (asked ++ rest) sent)
        h.0)
      (pass_file-AllCarry key limit c lines xs number asked rest sent h.1 total size)
pass_file-AllCarry key limit c (line ∷ lines) (some x ∷ xs) number [] rest sent h total size =
    absurd (omega arith)
pass_file-AllCarry key limit c (line ∷ lines) (some x ∷ xs) number (b ∷ asked) rest sent h total
      size =
    let joined : sent ++ x.bytes ++ 49 ∷ [] ++ handed xs
        ≡ sent ++ (x.bytes ++ 49 ∷ [] ++ handed xs) =
      append_assoc (sent ++ x.bytes) (49 ∷ []) (handed xs)
      ∙ append_assoc sent x.bytes (49 ∷ handed xs)
      ∙ ap (λ l. sent ++ l) (sym (append_assoc x.bytes (49 ∷ []) (handed xs))) in
    rw
      (
        pass_line-some key limit c line x number (texts xs) b (asked ++ rest) sent h.0 total,
        sym joined,
      )
      (pass_file-AllCarry key limit c lines xs (number + 1) asked rest (sent ++ x.bytes ++ 49 ∷ [])
        h.1 (omega arith) (omega arith))
