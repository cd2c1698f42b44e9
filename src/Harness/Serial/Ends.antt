-- ===== src/Harness/Serial/Ends.antt =====
-- The host comes to its last state.
use iis_meds.Prelude.{
  ℕ, zero, suc, ◌+◌, List, [], ◌∷◌, ◌++◌, All, length, append_assoc, append-nil, true, false, some,
  ok, bind-ok, ◌≡◌, refl, ap, sym, ◌∙◌, arith, ◌==◌, eq-true,
}
use iis_meds.Harness.{
  codes, contains, strip, second_piece, Device, cut_line, taken_line, readline, send, four_bytes,
  stop_code, start, read_rsq, close_rsq, read_rsp, close_rsp, stop,
}
use iis_meds.Harness.Serial.{
  Host, finished_line, command, act, finish, handle, handle_all, round, step, run,
}

-- A text with a newline at its end and nowhere else
abbrev pub IsLine : List ℕ → Type 0
IsLine [] = ⊥
IsLine (c ∷ []) = c ≡ 10
IsLine (c ∷ d ∷ text) = ((c == 10) ≡ false) × IsLine (d ∷ text)

cut_line-append : (line rest : List ℕ) → IsLine line → cut_line (line ++ rest) ≡ some (line, rest)
cut_line-append [] rest h = absurd h
cut_line-append (c ∷ []) rest h = rw (eq-true c 10 h) refl
cut_line-append (c ∷ d ∷ line) rest h = rw (cut_line-append (d ∷ line) rest h.1, h.0) refl

-- All lines, one after the other
abbrev pub concat : List (List ℕ) → List ℕ
concat [] = []
concat (t ∷ ts) = t ++ concat ts

run-add : (a b : ℕ) (h : Host) {mid : Host} → run a h ≡ ok mid → run (a + b) h ≡ run b mid
unfolding run
run-add zero b h {mid} e =
    let none_more : 0 + b ≡ b = omega arith in let same : h ≡ mid = cc in rw (none_more, same) refl
run-add (suc a) b h {mid} e =
    let (next, run0, e0) = bind-ok (step h) _ e in
    let more : suc a + b ≡ suc (a + b) = omega arith in rw (more, run0) (run-add a b next e0)

readline-line :
    (dev : Device) (line rest : List ℕ)
    → IsLine line
    → dev.input ≡ line ++ rest
    → readline dev ≡ ok (line, record dev { input = rest })
unfolding readline taken_line
readline-line dev line rest is at = rw (at, cut_line-append line rest is) refl

-- While the device sends its request, the lines are collected, up to the first that has the end mark.
collect :
    (lines : List (List ℕ)) (last rest : List ℕ) (h : Host)
    → All (λ line. IsLine line × (contains line (codes "finished\n") ≡ false)) lines
    → IsLine last × (contains last (codes "finished\n") ≡ true)
    → h.state ≡ read_rsq
    → h.dev.input ≡ concat lines ++ (last ++ rest)
    → run (length lines + 1) h
      ≡ ok (record h {
        state = close_rsq;
        dev = record { input = rest; sent = h.dev.sent };
        request = h.request ++ lines ++ (last ∷ []);
      })
unfolding run step round
collect [] last rest h all (is, mark) at input =
    rw (at, readline-line h.dev last rest is input, mark, append-nil h.request) refl
collect (line ∷ lines) last rest h ((is, unmarked), all) (is_last, mark) at input =
    let read =
      readline-line h.dev line (concat lines ++ (last ++ rest)) is
        (input ∙ append_assoc line (concat lines) (last ++ rest)) in
    let next = record h {
      dev = record { input = concat lines ++ (last ++ rest); sent = h.dev.sent };
      request = h.request ++ (line ∷ []);
      state = read_rsq;
    } in
    let more : suc (length lines) + 1 ≡ suc (length lines + 1) = omega arith in
    let later = collect lines last rest next all (is_last, mark) refl refl in
    rw (more, at, read, unmarked)
      (later
        ∙ ap
            (λ r. ok (record h {
              state = close_rsq;
              dev = record { input = rest; sent = h.dev.sent };
              request = r ++ (last ∷ []);
            }))
            (append_assoc h.request (line ∷ []) lines))

handle_all-append :
    (lines : List (List ℕ)) (last : List ℕ) (h : Host) {h' : Host}
    → handle_all (lines ++ (last ∷ [])) h ≡ ok h'
    → (mid : Host) × (handle last mid ≡ ok h')
unfolding handle_all
handle_all-append [] last h {h'} e =
    let (out, run0, e0) = bind-ok (handle last h) _ e in (h, run0 ∙ e0)
handle_all-append (line ∷ lines) last h e =
    let (mid, run0, e0) = bind-ok (handle line h) _ e in handle_all-append lines last mid e0

finish-closed : (h : Host) {h' : Host} → finish h ≡ ok h' → h'.state ≡ close_rsp
unfolding finish
finish-closed h {h'} e =
    let ((line, dev), run0, e0) = bind-ok (readline (send (four_bytes stop_code) h.dev)) _ e in
    let same : record h { dev = dev; state = close_rsp; response_open = false } ≡ h' = cc in
    ap (λ x. x.state) (sym same)

-- The last line ends the loop.
ends :
    (lines : List (List ℕ)) (last : List ℕ) (h : Host) {h' : Host}
    → command last ≡ finished_line
    → handle_all (lines ++ (last ∷ [])) h ≡ ok h'
    → h'.state ≡ close_rsp
unfolding handle act
ends lines last h kind e =
    let (mid, run0) = handle_all-append lines last h e in finish-closed mid (rw kind at run0)

-- The host before the first round, with all that the device will send.
abbrev pub boot : List ℕ → Host
boot input = record {
  state = start;
  dev = record { input = input; sent = [] };
  parameter = [];
  request = [];
  response = [];
  response_open = false;
  count_pk = 0;
  checks = 0;
}

-- The host when it starts to handle a request
abbrev pub ready : List ℕ → List ℕ → List (List ℕ) → List ℕ → Host
ready input parameter request response = record {
  state = read_rsp;
  dev = record { input = input; sent = [] };
  parameter = parameter;
  request = request;
  response = response;
  response_open = true;
  count_pk = 0;
  checks = 0;
}

-- A device that sends a first line with the name of the program and of the parameter set, then lines
-- without the end mark, and one with the mark that starts with "finished", and that then answers so that all lines are handled, brings the host to
-- its last state in as many rounds as there are lines and six more, after one check.
pub run-stop :
    (hello : List ℕ) (name : List ℕ) (lines : List (List ℕ)) (last answers : List ℕ) {done : Host}
    → IsLine hello × (contains hello (codes "KAT_test_Serial_IO.elf") ≡ true)
    → second_piece 45 hello ≡ ok name
    → All (λ line. IsLine line × (contains line (codes "finished\n") ≡ false)) lines
    → IsLine last × (contains last (codes "finished\n") ≡ true)
    → command last ≡ finished_line
    → handle_all (lines ++ (last ∷ [])) (
        ready answers
          (strip name)
          (lines ++ (last ∷ []))
          (codes "# " ++ strip name ++ codes "\n\n"))
      ≡ ok done
    → (out : Host) × (run (length lines + 6) (boot (hello ++ (concat lines ++ (last ++ answers))))
        ≡ ok out)
      × (out.state ≡ stop)
      × (out.checks ≡ done.checks + 1)
      × (out.response ≡ done.response)
      × (out.dev ≡ done.dev)
unfolding run step round
run-stop hello name lines last answers {done} (is, elf) piece all marked kind handled =
    let input = concat lines ++ (last ++ answers) in
    let first = readline-line (boot (hello ++ input)).dev hello input is refl in
    let reading = record (boot input) { parameter = strip name; state = read_rsq } in
    let got = collect lines last answers reading all marked refl refl in
    let closing = ends lines last _ kind handled in
    let opened : run 1 (boot (hello ++ input)) ≡ ok reading = rw (first, piece, elf) refl in
    let count : length lines + 6 ≡ 1 + ((length lines + 1) + 4) = omega arith in
    let out = record done { state = stop; checks = done.checks + 1 } in
    let whole : run (1 + ((length lines + 1) + 4)) (boot (hello ++ input)) ≡ ok out =
      run-add 1 ((length lines + 1) + 4) (boot (hello ++ input)) opened
      ∙ run-add (length lines + 1) 4 reading got
      ∙ rw (handled, closing) refl in
    (out, rw count whole, refl, refl, refl, refl)
