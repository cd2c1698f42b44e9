-- ===== src/Harness/SentBack.antt =====
-- The rounds of key generation in KAT_test_Stream.py: the device tells its matrices, the host keeps them in
-- its file, and sends them back.
use iis_meds.Prelude.{
  ℕ, ◌+◌, List, [], ◌∷◌, ◌++◌, All, All-append, length, replicate, ◌==◌, Bool, true, false, Option,
  none, some, ok, ◌≡◌, refl, ap₂, sym, not, ◌&&◌, ◌||◌, ◌∙◌, arith, append_assoc, append-nil,
}
use iis_meds.Text.{lines_of, decimal}
use iis_meds.Text.Lines.{IsPlain, decimal-IsPlain, strip-plain, lines_of-line}
use iis_meds.Harness.{strip, codes, readline, taken_line, cut_line, read_byte, send}
use iis_meds.Harness.Exchange.{read_text, send_done, entry_line, give_g0, store_keys}
use iis_meds.Harness.Kept.{Hex, hex_text, IsInKey, entry_value-entry_line, AllCarry}

-- What the device tells in one round, behind a byte that says that it is ready
pub record Told : Type 0 where
  pub ready : ℕ
  pub a_inv : Hex
  pub b_inv : Hex
  pub g : Hex

-- What comes over the line for these rounds, before `rest`
abbrev pub told_input : List Told → List ℕ → List ℕ
told_input [] rest = rest
told_input (r ∷ rs) rest =
    r.ready
    ∷ (hex_text r.a_inv
        ++ 10 ∷ (hex_text r.b_inv ++ 10 ∷ (hex_text r.g ++ 10 ∷ told_input rs rest)))

abbrev pub a_key : ℕ → List ℕ
a_key i = codes "A_inv_data " ++ decimal i

abbrev pub b_key : ℕ → List ℕ
b_key i = codes "B_inv_data " ++ decimal i

abbrev pub g_key : ℕ → List ℕ
g_key i = codes "G_data " ++ decimal i

-- The lines of the file for the rounds from i on
abbrev pub told_lines : ℕ → List Told → List (List ℕ)
told_lines i [] = []
told_lines i (r ∷ rs) =
    entry_line (a_key i) (hex_text r.a_inv)
    ∷ entry_line (b_key i) (hex_text r.b_inv)
    ∷ entry_line (g_key i) (hex_text r.g)
    ∷ told_lines (i + 1) rs

abbrev pub flat : List (List ℕ) → List ℕ
flat [] = []
flat (line ∷ lines) = line ++ flat lines

cut_line-newline :
    (xs more : List ℕ)
    → All (λ c. c == 10 ≡ false) xs
    → cut_line (xs ++ 10 ∷ more) ≡ some (xs ++ 10 ∷ [], more)
cut_line-newline [] more h = refl
cut_line-newline (c ∷ xs) more h = rw (h.0, cut_line-newline xs more h.1) refl

-- A line that has no white space at its ends
pub read_text-line :
    (xs more sent : List ℕ)
    → All (λ c. c == 10 ≡ false) xs
    → strip (xs ++ 10 ∷ []) ≡ xs
    → read_text (record { input = xs ++ 10 ∷ more; sent = sent })
      ≡ ok (xs, record { input = more; sent = sent })
unfolding read_text readline taken_line
read_text-line xs more sent h e = rw (cut_line-newline xs more h, e) refl

pub plain_no_newline : (xs : List ℕ) → All IsPlain xs → All (λ c. c == 10 ≡ false) xs
plain_no_newline [] h = tt
plain_no_newline (c ∷ xs) h = (h.0.2, plain_no_newline xs h.1)

pub read_text-hex :
    (x : Hex) (more sent : List ℕ)
    → read_text (record { input = hex_text x ++ 10 ∷ more; sent = sent })
      ≡ ok (hex_text x, record { input = more; sent = sent })
read_text-hex x more sent =
    read_text-line (hex_text x) more sent (plain_no_newline (hex_text x) x.plain)
      (strip-plain x.digit x.digits x.plain)

pub store_keys-told :
    (g0 : List ℕ) (i : ℕ) (rs : List Told) (rest sent file : List ℕ)
    → store_keys false g0 i (length rs) (record { input = told_input rs rest; sent = sent }) file
      ≡ ok (
        record { input = rest; sent = sent ++ replicate (length rs) 49 },
        file ++ flat (told_lines i rs),
      )
unfolding store_keys give_g0 read_byte send_done send
store_keys-told g0 i [] rest sent file = rw (append-nil sent, append-nil file) refl
store_keys-told g0 i (r ∷ rs) rest sent file =
    let after = told_input rs rest in
    let second = hex_text r.g ++ 10 ∷ after in
    let first = hex_text r.b_inv ++ 10 ∷ second in
    let a = entry_line (a_key i) (hex_text r.a_inv) in
    let b = entry_line (b_key i) (hex_text r.b_inv) in
    let g = entry_line (g_key i) (hex_text r.g) in
    let later = flat (told_lines (i + 1) rs) in
    rw
      (
        read_text-hex r.a_inv first sent,
        read_text-hex r.b_inv second sent,
        read_text-hex r.g after sent,
      )
      (store_keys-told g0 (i + 1) rs rest (sent ++ 49 ∷ []) (file ++ a ++ b ++ g)
        ∙ ap₂ (λ out text. ok (record { input = rest; sent = out }, text))
            (append_assoc sent (49 ∷ []) (replicate (length rs) 49))
            (append_assoc (file ++ a ++ b) g later
              ∙ append_assoc (file ++ a) b (g ++ later)
              ∙ append_assoc file a (b ++ (g ++ later))))

-- A body without a newline, and then a newline
abbrev pub IsLine : List ℕ → Type 0
IsLine line = (body : List ℕ) × (line ≡ body ++ 10 ∷ []) × All (λ c. c == 10 ≡ false) body

pub lines_of-flat : (lines : List (List ℕ)) → All IsLine lines → lines_of (flat lines) ≡ lines
lines_of-flat [] h = refl
lines_of-flat (line ∷ lines) ((body, e, no_newline), h) =
    let cut : lines_of (flat (line ∷ lines)) ≡ (body ++ 10 ∷ []) ∷ lines_of (flat lines) =
      rw (e, append_assoc body (10 ∷ []) (flat lines))
        (lines_of-line body (flat lines) no_newline) in
    cut ∙ ap₂ (λ l ls. l ∷ ls) (sym e) (lines_of-flat lines h)

pub flat-append : (xs ys : List (List ℕ)) → flat (xs ++ ys) ≡ flat xs ++ flat ys
flat-append [] ys = refl
flat-append (x ∷ xs) ys = rw (flat-append xs ys) (sym (append_assoc x (flat xs) (flat ys)))

abbrev in_key : List ℕ → Bool
in_key [] = true
in_key (c ∷ key) = not (c == 61 || c == 10) && in_key key

in_key-IsInKey : (key : List ℕ) → in_key key ≡ true → All IsInKey key
in_key-IsInKey [] e = tt
in_key-IsInKey (c ∷ key) e = ((ground arith, ground arith), in_key-IsInKey key (ground arith))

pub plain-IsInKey : (xs : List ℕ) → All IsPlain xs → All IsInKey xs
plain-IsInKey [] h = tt
plain-IsInKey (c ∷ xs) h = ((h.0.1, h.0.2), plain-IsInKey xs h.1)

-- A key with a number behind it
pub numbered-IsInKey : (key : List ℕ) (i : ℕ) → in_key key ≡ true → All IsInKey (key ++ decimal i)
numbered-IsInKey key i e =
    All-append IsInKey key (decimal i) (in_key-IsInKey key e)
      (plain-IsInKey (decimal i) (decimal-IsPlain i))

pub key_no_newline : (key : List ℕ) → All IsInKey key → All (λ c. c == 10 ≡ false) key
key_no_newline [] h = tt
key_no_newline (c ∷ key) h = (h.0.1, key_no_newline key h.1)

pub entry_line-IsLine :
    (key : List ℕ) (x : Hex) → All IsInKey key → IsLine (entry_line key (hex_text x))
unfolding entry_line
entry_line-IsLine key x h =
    let no_newline = λ (c : ℕ). c == 10 ≡ false in
    (
      key ++ (32 ∷ 61 ∷ 32 ∷ []) ++ hex_text x,
      refl,
      All-append no_newline (key ++ (32 ∷ 61 ∷ 32 ∷ [])) (hex_text x)
          (All-append no_newline key (32 ∷ 61 ∷ 32 ∷ []) (key_no_newline key h)
            (refl, (refl, (refl, tt))))
          (key_no_newline (hex_text x) (plain-IsInKey (hex_text x) x.plain)),
    )

pub told_lines-IsLine : (i : ℕ) (rs : List Told) → All IsLine (told_lines i rs)
told_lines-IsLine i [] = tt
told_lines-IsLine i (r ∷ rs) = (
  entry_line-IsLine (a_key i) r.a_inv (numbered-IsInKey (codes "A_inv_data ") i refl),
  (
    entry_line-IsLine (b_key i) r.b_inv (numbered-IsInKey (codes "B_inv_data ") i refl),
    (
      entry_line-IsLine (g_key i) r.g (numbered-IsInKey (codes "G_data ") i refl),
      told_lines-IsLine (i + 1) rs,
    ),
  ),
)

abbrev pub a_kept : List Told → List (Option Hex)
a_kept [] = []
a_kept (r ∷ rs) = some r.a_inv ∷ none ∷ none ∷ a_kept rs

abbrev pub b_kept : List Told → List (Option Hex)
b_kept [] = []
b_kept (r ∷ rs) = none ∷ some r.b_inv ∷ none ∷ b_kept rs

pub a_kept-AllCarry :
    (c i : ℕ) (rs : List Told) → AllCarry (codes "A_inv_data") c (told_lines i rs) (a_kept rs)
unfolding entry_line
a_kept-AllCarry c i [] = tt
a_kept-AllCarry c i (r ∷ rs) =
    let value =
      entry_value-entry_line 65 (codes "_inv_data " ++ decimal i) r.a_inv.digit r.a_inv.digits refl
        (numbered-IsInKey (codes "A_inv_data ") i refl) r.a_inv.plain in
    ((refl, refl, value), ((refl, refl), ((refl, refl), a_kept-AllCarry c (i + 1) rs)))

pub b_kept-AllCarry :
    (c i : ℕ) (rs : List Told) → AllCarry (codes "B_inv_data") c (told_lines i rs) (b_kept rs)
unfolding entry_line
b_kept-AllCarry c i [] = tt
b_kept-AllCarry c i (r ∷ rs) =
    let value =
      entry_value-entry_line 66 (codes "_inv_data " ++ decimal i) r.b_inv.digit r.b_inv.digits refl
        (numbered-IsInKey (codes "B_inv_data ") i refl) r.b_inv.plain in
    ((refl, refl), ((refl, refl, value), ((refl, refl), b_kept-AllCarry c (i + 1) rs)))

abbrev pub g_kept : List Told → List (Option Hex)
g_kept [] = []
g_kept (r ∷ rs) = none ∷ none ∷ some r.g ∷ g_kept rs

pub g_kept-AllCarry :
    (c i : ℕ) (rs : List Told) → AllCarry (codes "G_data") c (told_lines i rs) (g_kept rs)
unfolding entry_line
g_kept-AllCarry c i [] = tt
g_kept-AllCarry c i (r ∷ rs) =
    let value =
      entry_value-entry_line 71 (codes "_data " ++ decimal i) r.g.digit r.g.digits refl
        (numbered-IsInKey (codes "G_data ") i refl) r.g.plain in
    ((refl, refl), ((refl, refl), ((refl, refl, value), g_kept-AllCarry c (i + 1) rs)))
