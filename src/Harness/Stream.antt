-- ===== src/Harness/Stream.antt =====
-- `do_check_parameter` and the main loop of sage-ref/KAT_test_Stream.py.
use iis_meds.Prelude.{
  ℕ, zero, suc, ◌+◌, ◌-◌, List, [], ◌∷◌, ◌++◌, length, ltb, if◌then◌else◌, Option, none, some,
  Result, ok, raised, type_error, get_elem?, index_error, ◌>>=◌,
}
use iis_meds.Params.{Param, params}
use iis_meds.Harness.{
  codes, contains, strip, second_piece, from_hex, Device, readline, read_byte, send, four_bytes,
  seed_code, msg_code, pk_code, sk_code, sml_code, sm_code, stop_code, State, start, read_rsq,
  close_rsq, read_rsp, close_rsp, check_data, stop,
}
use iis_meds.Harness.Serial.{
  Command, count_line, seed_line, mlen_line, msg_line, pk_line, sk_line, sml_line, sm_line,
  finished_line, other_line, command,
}
use iis_meds.Text.{same_text}
use iis_meds.Harness.Exchange.{get_keygen, get_sig}

-- The name in the lines of api.h: the last one between quotes behind CRYPTO_ALGNAME
unfoldable pub alg_name : List (List ℕ) → List ℕ → Result (List ℕ)
alg_name [] name = ok name
alg_name (line ∷ lines) name = do
  found ← if contains line (codes "CRYPTO_ALGNAME") then second_piece 34 line else ok name
  alg_name lines found

-- The chain of `elif(alg_name == …)`
unfoldable pub param_index : List ℕ → ℕ
param_index name =
    if same_text name (codes "MEDS9923")
    then 0
    else if same_text name (codes "MEDS13220")
    then 1
    else if same_text name (codes "MEDS41711")
    then 2
    else if same_text name (codes "MEDS55604")
    then 3
    else if same_text name (codes "MEDS134180")
    then 4
    else if same_text name (codes "MEDS167717")
    then 5
    else 6

unfoldable pub param_at : Option Param → Result Param
param_at none = raised index_error
param_at (some p) = ok p

-- `do_check_parameter()`, where api.h is a list of lines, or no file (an empty name)
unfoldable pub check_parameter : Option (List (List ℕ)) → Result (ℕ × ℕ × List ℕ)
check_parameter api = do
  name ← elim api [ some lines ↦ alg_name lines [] | none ↦ ok [] ]
  p ← param_at (get_elem? params (param_index name))
  ok (p.s, p.t, name)

-- The globals. `pk` and `sk`, and `sm`, are 0 before the first keys and the first signature.
pub record Streamer : Type 0 where
  pub state : State
  pub dev : Device
  pub parameter : List ℕ
  pub request : List (List ℕ)
  pub response : List ℕ
  pub keygen_file : List ℕ
  pub sig_file : List ℕ
  pub counted : ℕ
  pub keys : Option (List ℕ × List (List ℕ))
  pub signed : Option (List (List ℕ))
  pub checks : ℕ

abbrev pub write_text : List ℕ → Streamer → Streamer
write_text text h = record h { response = h.response ++ text }

-- `line.strip() + '\n'`
abbrev pub stripped : List ℕ → List ℕ
stripped line = strip line ++ (10 ∷ [])

-- The bytes of the line behind '='
unfoldable pub line_bytes : List ℕ → Result (List ℕ)
line_bytes line = do piece ← second_piece 61 (strip line); from_hex (strip piece)

abbrev pub join_texts : List (List ℕ) → List ℕ
join_texts [] = []
join_texts (t ∷ ts) = t ++ join_texts ts

-- The texts of more than two characters
abbrev pub long_texts : List (List ℕ) → List (List ℕ)
long_texts [] = []
long_texts (t ∷ ts) = let rest = long_texts ts in if ltb 2 (length t) then t ∷ rest else rest

module _ (meds_s meds_t : ℕ) where
  -- The branches of the chain of `elif line.startswith(…)`, whose tests are those of Serial
  unfoldable pub perform : Command → List ℕ → Streamer → Result Streamer
  perform count_line line h = ok (record h {
    response = h.response ++ stripped line;
    keygen_file = h.keygen_file ++ stripped line;
    sig_file = h.sig_file ++ stripped line;
    counted = h.counted + 1;
  })
  perform seed_line line h = do
    bytes ← line_bytes line
    ok (record (write_text (stripped line) h) {
      dev = send bytes (send (four_bytes seed_code) h.dev);
    })
  perform mlen_line line h = ok (write_text (stripped line) h)
  perform msg_line line h = do
    bytes ← line_bytes line
    (_, dev) ← read_byte (send (four_bytes msg_code) h.dev)
    ok (record (write_text (stripped line) h) { dev = send bytes dev })
  perform pk_line line h = do
    (sk, pk, dev1, file) ←
        get_keygen h.parameter meds_s (h.counted - 1) (send (four_bytes pk_code) h.dev)
          h.keygen_file
    (_, dev2) ← readline dev1
    ok (record (write_text (codes "pk = " ++ join_texts pk ++ codes "\n") h) {
      dev = dev2;
      keygen_file = file;
      keys = some (sk, pk);
    })
  perform sk_line line h = do
    (_, dev) ← readline (send (four_bytes sk_code) h.dev)
    elim h.keys [
      | some (sk, pk) ↦ ok (record (write_text (sk ++ codes "\n") h) { dev = dev })
      | none ↦ raised type_error
    ]
  perform sml_line line h = do
    (sm, dev1, file) ←
        get_sig h.parameter meds_t (h.counted - 1) (send (four_bytes sml_code) h.dev) h.response
          h.sig_file
    (sml, dev2) ← readline dev1
    ok (record (write_text sml h) { dev = dev2; sig_file = file; signed = some sm })
  perform sm_line line h = do
    (_, dev) ← readline (send (four_bytes sm_code) h.dev)
    elim h.signed [
      | some sm ↦
          ok (record (write_text (codes "sm = " ++ join_texts (long_texts sm) ++ codes "\n") h) {
            dev = dev;
          })
      | none ↦ raised type_error
    ]
  perform finished_line line h = do
    (_, dev) ← readline (send (four_bytes stop_code) h.dev)
    ok (record h { dev = dev; state = close_rsp })
  perform other_line line h = ok h

  unfoldable pub perform_all : List (List ℕ) → Streamer → Result Streamer
  perform_all [] h = ok h
  perform_all (line ∷ lines) h = do h' ← perform (command line) line h; perform_all lines h'

  -- One round of `while True`
  unfoldable pub stream_round : State → Streamer → Result Streamer
  stream_round start h = do
    (x, dev) ← readline (send (49 ∷ []) h.dev)
    piece ← second_piece 45 x
    let next = if contains x (codes "KAT_test_Stream.elf") then read_rsq else start
    ok (record h { dev = dev; parameter = strip piece; request = []; state = next })
  stream_round read_rsq h = do
    (x, dev) ← readline h.dev
    let next = if contains x (codes "finished\n") then close_rsq else read_rsq
    ok (record h { dev = dev; request = h.request ++ (x ∷ []); state = next })
  stream_round close_rsq h = ok (record h { state = read_rsp })
  stream_round read_rsp h = perform_all h.request (record h {
    response = codes "# " ++ h.parameter ++ codes "\n\n";
    keygen_file = [];
    sig_file = [];
    keys = none;
    signed = none;
  })
  stream_round close_rsp h = ok (record h { state = check_data })
  stream_round check_data h = ok (record h { state = stop; checks = h.checks + 1 })
  stream_round stop h = ok h

  -- Some rounds
  unfoldable pub stream_run : ℕ → Streamer → Result Streamer
  stream_run zero h = ok h
  stream_run (suc rounds) h = do h' ← stream_round h.state h; stream_run rounds h'
