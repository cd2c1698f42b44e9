-- ===== src/Harness/Signed.antt =====
-- `do_get_data_from_sig` of sage-ref/KAT_test_Stream.py, for the parameter sets whose G_0 the host does not
-- keep: the secret key of a count goes to the device, the host keeps the matrices of all rounds, sends them
-- back, and collects the parts of the signed message.
use iis_meds.Prelude.{
  ℕ, suc, ◌+◌, ◌≤◌, List, [], ◌∷◌, ◌++◌, All, length, replicate, ◌==◌, true, false, ok, ◌≡◌, refl,
  ap₂, ◌∙◌, arith, append_assoc, append-nil,
}
use iis_meds.Text.{lines_of, starts_with, decimal}
use iis_meds.Text.Lines.{IsPlain, strip-plain}
use iis_meds.Harness.{codes, read_byte, send}
use iis_meds.Harness.Exchange.{
  is_big, read_text, take_g0, give_g0, send_done, send_hex, entry_line, mark_found, store_tilde,
  give_a, give_b, tilde_line, tilde_file, get_sig,
}
use iis_meds.Harness.Kept.{Hex, hex_text, entry_value-entry_line}
use iis_meds.Harness.SentBack.{
  read_text-hex, flat, IsLine, entry_line-IsLine, numbered-IsInKey, read_text-line,
  plain_no_newline,
}
use iis_meds.Harness.Returned.{start_text, part_lines, starts_with-append}
use iis_meds.Harness.SentKey.{IsOther, pass_key-key}
use iis_meds.Harness.Answered.{answering}

-- What the device tells in one round of signing, behind a byte that says that it is ready
pub record Tilde : Type 0 where
  pub ready : ℕ
  pub a : Hex
  pub b : Hex

abbrev pub tilde_input : List Tilde → List ℕ → List ℕ
tilde_input [] rest = rest
tilde_input (r ∷ rs) rest =
    r.ready ∷ (hex_text r.a ++ 10 ∷ (hex_text r.b ++ 10 ∷ tilde_input rs rest))

-- A part of the signed message, which may be empty, behind a byte
pub record Part : Type 0 where
  pub ready : ℕ
  pub text : List ℕ
  pub plain : All IsPlain text

abbrev pub parts_input : List Part → List ℕ → List ℕ
parts_input [] rest = rest
parts_input (y ∷ ys) rest = y.ready ∷ (y.text ++ 10 ∷ parts_input ys rest)

abbrev pub part_texts : List Part → List (List ℕ)
part_texts [] = []
part_texts (y ∷ ys) = y.text ∷ part_texts ys

abbrev at_key : ℕ → List ℕ
at_key i = codes "A_tilde_data " ++ decimal i

abbrev bt_key : ℕ → List ℕ
bt_key i = codes "B_tilde_data " ++ decimal i

abbrev pub tilde_lines : ℕ → List Tilde → List (List ℕ)
tilde_lines i [] = []
tilde_lines i (r ∷ rs) =
    entry_line (at_key i) (hex_text r.a)
    ∷ entry_line (bt_key i) (hex_text r.b)
    ∷ tilde_lines (i + 1) rs

-- The bytes of both matrices of each round, and '1'
abbrev pub tilde_returned : List Tilde → List ℕ
tilde_returned [] = []
tilde_returned (r ∷ rs) = r.a.bytes ++ (r.b.bytes ++ 49 ∷ tilde_returned rs)

read_text-plain :
    (xs more sent : List ℕ)
    → All IsPlain xs
    → read_text (record { input = xs ++ 10 ∷ more; sent = sent })
      ≡ ok (xs, record { input = more; sent = sent })
read_text-plain [] more sent h = read_text-line [] more sent tt refl
read_text-plain (c ∷ xs) more sent h =
    read_text-line (c ∷ xs) more sent (plain_no_newline (c ∷ xs) h) (strip-plain c xs h)

store_tilde-told :
    (g0 : List ℕ) (i : ℕ) (rs : List Tilde) (rest sent file : List ℕ)
    → store_tilde false g0 i (length rs) (record { input = tilde_input rs rest; sent = sent }) file
      ≡ ok (
        record { input = rest; sent = sent ++ replicate (length rs) 49 },
        file ++ flat (tilde_lines i rs),
      )
unfolding store_tilde give_g0 read_byte send_done send
store_tilde-told g0 i [] rest sent file = rw (append-nil sent, append-nil file) refl
store_tilde-told g0 i (r ∷ rs) rest sent file =
    let after = tilde_input rs rest in
    let a = entry_line (at_key i) (hex_text r.a) in
    let b = entry_line (bt_key i) (hex_text r.b) in
    let later = flat (tilde_lines (i + 1) rs) in
    rw (read_text-hex r.a (hex_text r.b ++ 10 ∷ after) sent, read_text-hex r.b after sent)
      (store_tilde-told g0 (i + 1) rs rest (sent ++ 49 ∷ []) (file ++ a ++ b)
        ∙ ap₂ (λ out text. ok (record { input = rest; sent = out }, text))
            (append_assoc sent (49 ∷ []) (replicate (length rs) 49))
            (append_assoc (file ++ a) b later ∙ append_assoc file a (b ++ later)))

tilde_lines-IsLine : (i : ℕ) (rs : List Tilde) → All IsLine (tilde_lines i rs)
tilde_lines-IsLine i [] = tt
tilde_lines-IsLine i (r ∷ rs) = (
  entry_line-IsLine (at_key i) r.a (numbered-IsInKey (codes "A_tilde_data ") i refl),
  (
    entry_line-IsLine (bt_key i) r.b (numbered-IsInKey (codes "B_tilde_data ") i refl),
    tilde_lines-IsLine (i + 1) rs,
  ),
)

tilde_file-parts :
    (t c i : ℕ) (rs : List Tilde) (ys : List Part) (number : ℕ) (rest sent : List ℕ)
    (answers : List (List ℕ))
    → number + length rs ≤ t
    → length ys ≡ length rs
    → tilde_file t c (tilde_lines i rs) (answering true number (parts_input ys rest) sent answers)
      ≡ ok (
          answering true
            (number + length rs)
            rest
            (sent ++ tilde_returned rs)
            (answers ++ part_texts ys))
unfolding tilde_file tilde_line mark_found give_a give_b read_byte send_hex send_done send
    entry_line
tilde_file-parts t c i [] [] number rest sent answers le size =
    let e : number + 0 ≡ number = omega arith in rw (e, append-nil sent, append-nil answers) refl
tilde_file-parts t c i [] (y ∷ ys) number rest sent answers le size = absurd (omega arith)
tilde_file-parts t c i (r ∷ rs) [] number rest sent answers le size = absurd (omega arith)
tilde_file-parts t c i (r ∷ rs) (y ∷ ys) number rest sent answers le size =
    let value_a =
      entry_value-entry_line 65 (codes "_tilde_data " ++ decimal i) r.a.digit r.a.digits refl
        (numbered-IsInKey (codes "A_tilde_data ") i refl) r.a.plain in
    let value_b =
      entry_value-entry_line 66 (codes "_tilde_data " ++ decimal i) r.b.digit r.b.digits refl
        (numbered-IsInKey (codes "B_tilde_data ") i refl) r.b.plain in
    let counted : number + 1 + length rs ≡ number + suc (length rs) = omega arith in
    let joined : sent ++ r.a.bytes ++ r.b.bytes ++ 49 ∷ [] ++ tilde_returned rs
        ≡ sent ++ (r.a.bytes ++ (r.b.bytes ++ 49 ∷ tilde_returned rs)) =
      append_assoc (sent ++ r.a.bytes ++ r.b.bytes) (49 ∷ []) (tilde_returned rs)
      ∙ append_assoc (sent ++ r.a.bytes) r.b.bytes (49 ∷ tilde_returned rs)
      ∙ append_assoc sent r.a.bytes (r.b.bytes ++ 49 ∷ tilde_returned rs) in
    let open_part : (number + 1 == t + 1) ≡ false = ground arith in
    rw
      (
        value_a,
        r.a.parsed,
        value_b,
        r.b.parsed,
        read_text-plain y.text (parts_input ys rest) (sent ++ r.a.bytes ++ r.b.bytes) y.plain,
        open_part,
      )
      (tilde_file-parts t c (i + 1) rs ys (number + 1) rest
          (sent ++ r.a.bytes ++ r.b.bytes ++ 49 ∷ []) (answers ++ y.text ∷ []) (omega arith)
          (omega arith)
        ∙ (rw (counted, joined, append_assoc answers (y.text ∷ []) (part_texts ys)) refl))

tilde_file-earlier :
    (t c : ℕ) (earlier lines : List (List ℕ)) (number : ℕ) (input sent : List ℕ)
    (answers : List (List ℕ))
    → All (λ l. starts_with l (start_text c) ≡ false) earlier
    → tilde_file t c (earlier ++ lines) (answering false number input sent answers)
      ≡ tilde_file t c lines (answering false number input sent answers)
unfolding tilde_file tilde_line mark_found
tilde_file-earlier t c [] lines number input sent answers h = refl
tilde_file-earlier t c (line ∷ earlier) lines number input sent answers h =
    rw h.0 (tilde_file-earlier t c earlier lines number input sent answers h.1)

tilde_file-start :
    (t c : ℕ) (lines : List (List ℕ)) (number : ℕ) (input sent : List ℕ) (answers : List (List ℕ))
    → tilde_file t c ((start_text c ++ 10 ∷ []) ∷ lines) (answering false number input sent answers)
      ≡ tilde_file t c lines (answering true number input sent answers)
unfolding tilde_file tilde_line mark_found
tilde_file-start t c lines number input sent answers =
    rw (starts_with-append (start_text c) (10 ∷ [])) refl

module _ (c : ℕ) (earlier : List (List ℕ)) (rs : List Tilde) (ys : List Part) where
  parts_read :
      (rest sent : List ℕ)
      → All IsLine earlier
      → All (λ l. starts_with l (start_text c) ≡ false) earlier
      → length ys ≡ length rs
      → tilde_file
          (length rs)
          c
          (lines_of (flat earlier ++ (start_text c ++ 10 ∷ []) ++ flat (tilde_lines 0 rs)))
          (answering false 0 (parts_input ys rest) sent [])
        ≡ ok (answering true (0 + length rs) rest (sent ++ tilde_returned rs) (part_texts ys))
  parts_read rest sent lines before size =
      let t = length rs in
      let input = parts_input ys rest in
      rw (part_lines c earlier (tilde_lines 0 rs) lines (tilde_lines-IsLine 0 rs)) (
        tilde_file-earlier t c earlier _ 0 input sent [] before
        ∙ tilde_file-start t c (tilde_lines 0 rs) 0 input sent []
        ∙ tilde_file-parts t c 0 rs ys 0 rest sent [] (omega arith) size)

  -- For a name whose G_0 is not kept; where the lines of the response have, from the one on that starts the
  -- part of the count, one secret key, in hexadecimal, and no other start; where no earlier line of the file
  -- starts the part; and where the device tells hexadecimal matrices for t rounds, and t + 1 parts: the host
  -- sends the key, '1', '1' for each round, the bytes of both matrices of each round and '1' for each round,
  -- and '1'. The results are the texts of all parts, and the file with two lines for each round; what comes
  -- over the line behind all this is still to be read.
  pub get_sig_lem :
      (name response rest sent : List ℕ) (above others later : List (List ℕ)) (sk : Hex) (ready : ℕ)
      (last : Part)
      → is_big name ≡ false
      → lines_of response
        ≡ above
          ++ ((start_text c ++ 10 ∷ [])
              ∷ (others ++ (entry_line (codes "sk") (hex_text sk) ∷ later)))
      → All (λ l. starts_with l (start_text c) ≡ false) above
      → All (IsOther c) others
      → All (IsOther c) later
      → All IsLine earlier
      → All (λ l. starts_with l (start_text c) ≡ false) earlier
      → length ys ≡ length rs
      → get_sig name
          (length rs)
          c
          (record {
            input = ready ∷ tilde_input rs (parts_input ys (last.ready ∷ (last.text ++ 10 ∷ rest)));
            sent = sent;
          })
          response
          (flat earlier ++ (start_text c ++ 10 ∷ []))
        ≡ ok (
          part_texts ys ++ last.text ∷ [],
          record {
            input = rest;
            sent =
                sent
                ++ sk.bytes
                ++ 49 ∷ []
                ++ replicate (length rs) 49
                ++ tilde_returned rs
                ++ 49 ∷ [];
          },
          flat earlier ++ (start_text c ++ 10 ∷ []) ++ flat (tilde_lines 0 rs),
        )
  unfolding get_sig take_g0 read_byte send_done send
  get_sig_lem name response rest sent above others later sk ready last small lines before no_key
        behind file_lines file_before size =
      let end = last.ready ∷ (last.text ++ 10 ∷ rest) in
      let parts = parts_input ys end in
      let keyed = sent ++ sk.bytes ++ 49 ∷ [] in
      let ones = keyed ++ replicate (length rs) 49 in
      rw
        (
          small,
          lines,
          pass_key-key c above others later sk ready (tilde_input rs parts) sent before no_key
              behind,
          store_tilde-told [] 0 rs parts keyed (flat earlier ++ (start_text c ++ 10 ∷ [])),
          parts_read end ones file_lines file_before size,
          read_text-plain last.text rest (ones ++ tilde_returned rs) last.plain,
        )
        refl
