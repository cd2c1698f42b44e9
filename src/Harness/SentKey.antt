-- ===== src/Harness/SentKey.antt =====
-- The secret key that `do_get_data_from_sig` of sage-ref/KAT_test_Stream.py finds in the response file, and
-- sends to the device.
use iis_meds.Prelude.{
  ℕ, List, [], ◌∷◌, ◌++◌, All, Bool, true, false, ok, ◌≡◌, refl, ◌∙◌, append-nil,
}
use iis_meds.Text.{starts_with}
use iis_meds.Harness.{codes, Device, read_byte, send}
use iis_meds.Harness.Exchange.{send_done, send_hex, entry_line, pass_key}
use iis_meds.Harness.Kept.{Hex, hex_text, entry_value-entry_line}
use iis_meds.Harness.Returned.{start_text, starts_with-append}

-- A line that neither starts the part of the count nor holds a secret key
abbrev pub IsOther : ℕ → List ℕ → Type 0
IsOther c line =
    (starts_with line (start_text c) ≡ false) × (starts_with line (codes "sk = ") ≡ false)

pass_key-earlier :
    (c : ℕ) (earlier lines : List (List ℕ)) (dev : Device)
    → All (λ l. starts_with l (start_text c) ≡ false) earlier
    → pass_key c (earlier ++ lines) false dev ≡ pass_key c lines false dev
unfolding pass_key
pass_key-earlier c [] lines dev h = refl
pass_key-earlier c (line ∷ earlier) lines dev h = rw h.0 (pass_key-earlier c earlier lines dev h.1)

pass_key-other :
    (c : ℕ) (others lines : List (List ℕ)) (found : Bool) (dev : Device)
    → All (IsOther c) others
    → pass_key c (others ++ lines) found dev ≡ pass_key c lines found dev
unfolding pass_key
pass_key-other c [] lines found dev h = refl
pass_key-other c (line ∷ others) lines true dev ((no_start, no_key), h) =
    rw (no_start, no_key) (pass_key-other c others lines true dev h)
pass_key-other c (line ∷ others) lines false dev ((no_start, no_key), h) =
    rw no_start (pass_key-other c others lines false dev h)

-- The key stands in the part of the count, behind other lines.
pub pass_key-key :
    (c : ℕ) (earlier others later : List (List ℕ)) (sk : Hex) (ready : ℕ) (input sent : List ℕ)
    → All (λ l. starts_with l (start_text c) ≡ false) earlier
    → All (IsOther c) others
    → All (IsOther c) later
    → pass_key c
        (earlier
          ++ ((start_text c ++ 10 ∷ [])
              ∷ (others ++ (entry_line (codes "sk") (hex_text sk) ∷ later))))
        false
        (record { input = ready ∷ input; sent = sent })
      ≡ ok (false, record { input = input; sent = sent ++ sk.bytes ++ 49 ∷ [] })
unfolding pass_key read_byte send_hex send_done send entry_line
pass_key-key c earlier others later sk ready input sent before no_key behind =
    let value =
      entry_value-entry_line 115 (codes "k") sk.digit sk.digits refl
        ((refl, refl), ((refl, refl), tt)) sk.plain in
    let dev : Device = record { input = ready ∷ input; sent = sent } in
    let sk_line = entry_line (codes "sk") (hex_text sk) in
    let after : Device = record { input = input; sent = sent ++ sk.bytes ++ 49 ∷ [] } in
    let skipped = pass_key-other c later [] false after behind in
    let done : pass_key c later false after ≡ ok (false, after) =
      (rw (append-nil later) at skipped) in
    pass_key-earlier c earlier _ dev before
    ∙ (rw (starts_with-append (start_text c) (10 ∷ []))
        (pass_key-other c others (sk_line ∷ later) true dev no_key ∙ (rw (value, sk.parsed) done)))
