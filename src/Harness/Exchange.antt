-- ===== src/Harness/Exchange.antt =====
-- `do_get_data_from_keygen` and `do_get_data_from_sig` of sage-ref/KAT_test_Stream.py: the device has too
-- little memory for its matrices, so the host keeps them in a file and sends them back. A file is its
-- text, written at the end and read from the start.
use iis_meds.Prelude.{
  ℕ, zero, suc, ◌+◌, ◌-◌, List, [], ◌∷◌, ◌++◌, ◌==◌, ◌&&◌, ◌||◌, Bool, true, false, if◌then◌else◌,
  Result, ok, ◌>>=◌,
}
use iis_meds.Text.{lines_of, decimal, same_text}
use iis_meds.Harness.{
  codes, starts_with, strip, second_piece, from_hex, Device, readline, read_byte, send,
}

-- The parameter sets whose G_0 the host keeps, too
unfoldable pub is_big : List ℕ → Bool
is_big name = same_text name (codes "MEDS167717") || same_text name (codes "MEDS134180")

-- `dev.readline().strip()`
unfoldable pub read_text : Device → Result (List ℕ × Device)
read_text dev = do (line, dev') ← readline dev; ok (strip line, dev')

-- `dev.write('1'.encode())`
unfoldable pub send_done : Device → Device
send_done dev = send (49 ∷ []) dev

-- `for byte in bytes.fromhex(text): dev.write(bytes([byte]))`
unfoldable pub send_hex : List ℕ → Device → Result Device
send_hex text dev = do bytes ← from_hex text; ok (send bytes dev)

-- A line of a file: `f"{key} = " + text + '\n'`
unfoldable pub entry_line : List ℕ → List ℕ → List ℕ
entry_line key text = key ++ codes " = " ++ text ++ codes "\n"

-- `line.strip().split('=')[1].strip()`
unfoldable pub entry_value : List ℕ → Result (List ℕ)
entry_value line = do piece ← second_piece 61 (strip line); ok (strip piece)

-- G_0 from the device, for a big set: its text, and the file with its line
unfoldable pub take_g0 : Bool → Device → List ℕ → Result (List ℕ × Device × List ℕ)
take_g0 true dev file = do
  (_, dev1) ← read_byte dev
  (g0, dev2) ← read_text dev1
  ok (g0, send_done dev2, file ++ entry_line (codes "G0_data") g0)
take_g0 false dev file = ok ([], dev, file)

-- G_0 back to the device, for a big set
unfoldable pub give_g0 : Bool → List ℕ → Device → Result Device
give_g0 true g0 dev = send_hex g0 dev
give_g0 false g0 dev = ok dev

-- `for i in range(1, MEDS_s)`: from i on, `count` rounds
unfoldable pub store_keys : Bool → List ℕ → ℕ → ℕ → Device → List ℕ → Result (Device × List ℕ)
store_keys big g0 i zero dev file = ok (dev, file)
store_keys big g0 i (suc count) dev file = do
  (_, dev1) ← read_byte dev
  dev2 ← give_g0 big g0 dev1
  (a_inv, dev3) ← read_text dev2
  (b_inv, dev4) ← read_text dev3
  (g, dev5) ← read_text dev4
  dev6 ← give_g0 big g0 dev5
  store_keys big g0 (i + 1) count (send_done dev6) (
      file
      ++ entry_line (codes "A_inv_data " ++ decimal i) a_inv
      ++ entry_line (codes "B_inv_data " ++ decimal i) b_inv
      ++ entry_line (codes "G_data " ++ decimal i) g)

-- What a pass over a file keeps: `found`, the number of lines sent, the line, and what the device answered.
pub record Pass : Type 0 where
  pub found : Bool
  pub number : ℕ
  pub line_dev : Device
  pub answers : List (List ℕ)

-- The matrix of a line back to the device; `answered` tells if the device gives a text for it.
unfoldable pub give_back : Bool → List ℕ → Device → Result (List (List ℕ) × Device)
give_back false line dev = do
  (_, dev1) ← read_byte dev
  text ← entry_value line
  dev2 ← send_hex text dev1
  ok ([], send_done dev2)
give_back true line dev = do
  (_, dev1) ← read_byte dev
  text ← entry_value line
  dev2 ← send_hex text dev1
  (answer, dev3) ← read_text dev2
  ok (answer ∷ [], send_done dev3)

-- `if line.startswith(f"count = {count_line}"): found = True`
unfoldable pub mark_found : ℕ → List ℕ → Pass → Pass
mark_found count_line line s =
    if starts_with line (codes "count = " ++ decimal count_line)
    then record s { found = true }
    else s

-- The body of the three passes of `do_get_data_from_keygen`: a line with the key is sent, up to `limit`.
unfoldable pub pass_line : List ℕ → Bool → ℕ → List ℕ → Pass → Result Pass
pass_line key answered limit line s =
    let sent : Result Pass = (do
      (answer, dev) ← give_back answered line s.line_dev
      ok (record {
        found = if s.number + 1 == limit then false else s.found;
        number = s.number + 1;
        line_dev = dev;
        answers = s.answers ++ answer;
      })) in
    if s.found && starts_with line key then sent else ok s

unfoldable pub pass_file : List ℕ → Bool → ℕ → ℕ → List (List ℕ) → Pass → Result Pass
pass_file key answered limit count_line [] s = ok s
pass_file key answered limit count_line (line ∷ lines) s = do
  s' ← pass_line key answered limit line (mark_found count_line line s)
  pass_file key answered limit count_line lines s'

-- `do_get_data_from_keygen(PARAMETER, MEDS_s, FILE, count_line)`: the texts of the secret key and of the parts of the
-- public key, with the device and the file after it
unfoldable pub get_keygen :
    List ℕ → ℕ → ℕ → Device → List ℕ → Result (List ℕ × List (List ℕ) × Device × List ℕ)
get_keygen name meds_s count_line dev file = do
  (g0, dev1, file1) ← take_g0 (is_big name) dev file
  (dev2, file2) ← store_keys (is_big name) g0 1 (meds_s - 1) dev1 file1
  let lines = lines_of file2
  a ←
      pass_file (codes "A_inv_data") false (meds_s - 1) count_line lines
        (record { found = false; number = 0; line_dev = dev2; answers = [] })
  b ←
      pass_file (codes "B_inv_data") false (meds_s - 1) count_line lines
        (record { found = a.found; number = 0; line_dev = a.line_dev; answers = [] })
  (_, dev3) ← read_byte b.line_dev
  (sk, dev4) ← read_text dev3
  g ←
      pass_file (codes "G_data") true (meds_s - 1) count_line lines
        (record { found = b.found; number = 0; line_dev = send_done dev4; answers = [] })
  ok (sk, g.answers, g.line_dev, file2)

-- `do_get_data_from_sig`: the secret key of this count goes back to the device.
unfoldable pub pass_key : ℕ → List (List ℕ) → Bool → Device → Result (Bool × Device)
pass_key count_line [] found dev = ok (found, dev)
pass_key count_line (line ∷ lines) found dev = do
  let now = if starts_with line (codes "count = " ++ decimal count_line) then true else found
  let sent : Result (Bool × Device) = (do
    sk ← entry_value line
    (_, dev1) ← read_byte dev
    dev2 ← send_hex sk dev1
    ok (false, send_done dev2))
  (found', dev') ← if now && starts_with line (codes "sk = ") then sent else ok (now, dev)
  pass_key count_line lines found' dev'

-- `for i in range(0, MEDS_t)`: from i on, `count` rounds
unfoldable pub store_tilde : Bool → List ℕ → ℕ → ℕ → Device → List ℕ → Result (Device × List ℕ)
store_tilde big g0 i zero dev file = ok (dev, file)
store_tilde big g0 i (suc count) dev file = do
  (_, dev1) ← read_byte dev
  (a, dev2) ← read_text dev1
  (b, dev3) ← read_text dev2
  dev4 ← give_g0 big g0 dev3
  store_tilde big g0 (i + 1) count (send_done dev4) (
      file
      ++ entry_line (codes "A_tilde_data " ++ decimal i) a
      ++ entry_line (codes "B_tilde_data " ++ decimal i) b)

-- `if line.startswith("A_tilde_data")`
unfoldable pub give_a : List ℕ → Device → Result Device
give_a line dev = do (_, dev1) ← read_byte dev; a ← entry_value line; send_hex a dev1

-- `if line.startswith("B_tilde_data")`; `line_B == MEDS_t + 1` ends the part of this count.
unfoldable pub give_b : ℕ → List ℕ → Pass → Result Pass
give_b meds_t line s = do
  b ← entry_value line
  dev1 ← send_hex b s.line_dev
  (sm, dev2) ← read_text dev1
  let full = s.number + 1 == meds_t + 1
  ok (record {
    found = if full then false else s.found;
    number = if full then 0 else s.number + 1;
    line_dev = send_done dev2;
    answers = s.answers ++ (sm ∷ []);
  })

unfoldable pub tilde_line : ℕ → List ℕ → Pass → Result Pass
tilde_line meds_t line s =
    let with_a : Result Pass = (do
      dev ← give_a line s.line_dev
      ok (record s { line_dev = dev })) in
    let with_b = give_b meds_t line s in
    if s.found && starts_with line (codes "A_tilde_data")
    then with_a
    else if s.found && starts_with line (codes "B_tilde_data")
    then with_b
    else ok s

unfoldable pub tilde_file : ℕ → ℕ → List (List ℕ) → Pass → Result Pass
tilde_file meds_t count_line [] s = ok s
tilde_file meds_t count_line (line ∷ lines) s = do
  s' ← tilde_line meds_t line (mark_found count_line line s)
  tilde_file meds_t count_line lines s'

-- `do_get_data_from_sig(PARAMETER, MEDS_t, FILE_RSQ, count_line, FILE_Result)`: the texts of the parts of the signed message
unfoldable pub get_sig :
    List ℕ → ℕ → ℕ → Device → List ℕ → List ℕ → Result (List (List ℕ) × Device × List ℕ)
get_sig name meds_t count_line dev response file = do
  (found, dev1) ← pass_key count_line (lines_of response) false dev
  (g0, dev2, file1) ← take_g0 (is_big name) dev1 file
  (dev3, file2) ← store_tilde (is_big name) g0 0 meds_t dev2 file1
  s ←
      tilde_file meds_t count_line (lines_of file2)
        (record { found = found; number = 0; line_dev = dev3; answers = [] })
  (_, dev4) ← read_byte s.line_dev
  (sm, dev5) ← read_text dev4
  ok (s.answers ++ (sm ∷ []), send_done dev5, file2)
