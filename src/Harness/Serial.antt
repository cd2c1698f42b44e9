-- ===== src/Harness/Serial.antt =====
-- The main loop of sage-ref/KAT_test_Serial_IO.py.
pub mod Ends
pub mod Invariant
use iis_meds.Prelude.{
  ℕ, zero, suc, ◌+◌, List, [], ◌∷◌, ◌++◌, Bool, true, false, if◌then◌else◌, Result, ok, raised,
  value_error, ◌>>=◌,
}
use iis_meds.Harness.{
  codes, starts_with, contains, strip, second_piece, from_hex, Device, readline, send, four_bytes,
  seed_code, msg_code, pk_code, sk_code, sml_code, sm_code, stop_code, State, start, read_rsq,
  close_rsq, read_rsp, close_rsp, check_data, stop,
}

-- The globals. The request file is the list of its lines, each of which is one write; the response file
-- is its text. `checks` counts the runs of the checking program.
pub record Host : Type 0 where
  pub state : State
  pub dev : Device
  pub parameter : List ℕ
  pub request : List (List ℕ)
  pub response : List ℕ
  pub response_open : Bool
  pub count_pk : ℕ
  pub checks : ℕ

-- `file_rsp.write(text)`, a ValueError on a closed file
unfoldable pub write_response : List ℕ → Host → Result Host
write_response text h =
    if h.response_open then ok (record h { response = h.response ++ text }) else raised value_error

-- `file_rsp.write(line.strip() + '\n')`
unfoldable pub echo_line : List ℕ → Host → Result Host
echo_line line h = write_response (strip line ++ (10 ∷ [])) h

-- The line with its bytes sent behind a code
unfoldable pub forward : List ℕ → List ℕ → Host → Result Host
forward line prefix h = do
  h' ← echo_line line h
  piece ← second_piece 61 (strip line)
  bytes ← from_hex (strip piece)
  ok (record h' { dev = send bytes (send prefix h'.dev) })

-- A code is sent, and a line of the device goes to the response file.
unfoldable pub ask : ℕ → Host → Result Host
ask code h = do
  (line, dev) ← readline (send (four_bytes code) h.dev)
  write_response line (record h { dev = dev })

unfoldable pub finish : Host → Result Host
finish h = do
  (line, dev) ← readline (send (four_bytes stop_code) h.dev)
  ok (record h { dev = dev; state = close_rsp; response_open = false })

-- The kinds of lines in a request file
pub data Command : Type 0 where
  count_line seed_line mlen_line msg_line pk_line sk_line sml_line sm_line finished_line
        other_line :
      Command

-- The chain of `elif line.startswith(…)`
unfoldable pub command : List ℕ → Command
command line =
    if starts_with line (codes "count")
    then count_line
    else if starts_with line (codes "seed")
    then seed_line
    else if starts_with line (codes "mlen")
    then mlen_line
    else if starts_with line (codes "msg")
    then msg_line
    else if starts_with line (codes "pk")
    then pk_line
    else if starts_with line (codes "sk")
    then sk_line
    else if starts_with line (codes "sml")
    then sml_line
    else if starts_with line (codes "sm")
    then sm_line
    else if starts_with line (codes "finished")
    then finished_line
    else other_line

-- The branches of the chain
unfoldable pub act : Command → List ℕ → Host → Result Host
act count_line line h = echo_line line h
act seed_line line h = forward line (four_bytes seed_code) h
act mlen_line line h = echo_line line h
act msg_line line h = forward line (msg_code ∷ []) (record h { count_pk = h.count_pk + 1 })
act pk_line line h = ask pk_code h
act sk_line line h = ask sk_code h
act sml_line line h = ask sml_code h
act sm_line line h = ask sm_code h
act finished_line line h = finish h
act other_line line h = ok h

-- One line of the request file
unfoldable pub handle : List ℕ → Host → Result Host
handle line h = act (command line) line h

-- `for line in file_req`
unfoldable pub handle_all : List (List ℕ) → Host → Result Host
handle_all [] h = ok h
handle_all (line ∷ lines) h = do h' ← handle line h; handle_all lines h'

-- One round of `while True`
unfoldable pub round : State → Host → Result Host
round start h = do
  (x, dev) ← readline h.dev
  piece ← second_piece 45 x
  let next = if contains x (codes "KAT_test_Serial_IO.elf") then read_rsq else start
  ok (record h { dev = dev; parameter = strip piece; request = []; state = next })
round read_rsq h = do
  (x, dev) ← readline h.dev
  let next = if contains x (codes "finished\n") then close_rsq else read_rsq
  ok (record h { dev = dev; request = h.request ++ (x ∷ []); state = next })
round close_rsq h = ok (record h { state = read_rsp })
round read_rsp h =
    handle_all h.request
      (record h { response = codes "# " ++ h.parameter ++ codes "\n\n"; response_open = true })
round close_rsp h = ok (record h { state = check_data })
round check_data h = ok (record h { state = stop; checks = h.checks + 1 })
round stop h = ok h

unfoldable pub step : Host → Result Host
step h = round h.state h

-- Some rounds
unfoldable pub run : ℕ → Host → Result Host
run zero h = ok h
run (suc count) h = do h' ← step h; run count h'
