-- ===== src/Harness/Serial/Invariant.antt =====
-- What holds of the host between two rounds.
use iis_meds.Prelude.{
  Option, some, none, ℕ, zero, suc, ◌+◌, List, [], ◌∷◌, ◌++◌, Bool, true, false, if◌then◌else◌, ok,
  bind-ok, Bool-cases, ◌≡◌, refl, ap, sym, ◌∙◌, ◌⊎◌, inl, inr, arith, subst,
}
use iis_meds.Harness.{
  codes, contains, strip, second_piece, from_hex, Device, cut_line, taken_line, readline, send,
  four_bytes, seed_code, msg_code, pk_code, sk_code, sml_code, sm_code, stop_code, State, start,
  read_rsq, close_rsq, read_rsp, close_rsp, check_data, stop,
}
use iis_meds.Harness.Serial.{
  Host, Command, count_line, seed_line, mlen_line, msg_line, pk_line, sk_line, sml_line, sm_line,
  finished_line, other_line, command, act, write_response, echo_line, forward, ask, finish, handle,
  handle_all, round, step, run,
}

-- A write leaves the state, the open file and the checks as they are, and was to an open file.
record Kept (h h' : Host) : Type 0 where
  state : h'.state ≡ h.state
  open_before : h.response_open ≡ true
  open_after : h'.response_open ≡ true
  checks : h'.checks ≡ h.checks

write_response-Kept :
    (text : List ℕ) (h : Host) {h' : Host} → write_response text h ≡ ok h' → Kept h h'
unfolding write_response
write_response-Kept text h {h'} e = elim (Bool-cases h.response_open) [
  | inl o ↦
      let run = rw o at e in
      let same : record h { response = h.response ++ text } ≡ h' = cc in
      subst (Kept h) same (record { state = refl; open_before = o; open_after = o; checks = refl })
  | inr o ↦ let run = rw o at e in cc
]

echo_line-Kept : (line : List ℕ) (h : Host) {h' : Host} → echo_line line h ≡ ok h' → Kept h h'
unfolding echo_line
echo_line-Kept line h e = write_response-Kept (strip line ++ (10 ∷ [])) h e

forward-Kept :
    (line prefix : List ℕ) (h : Host) {h' : Host} → forward line prefix h ≡ ok h' → Kept h h'
unfolding forward
forward-Kept line prefix h {h'} e =
    let (mid, run0, e0) = bind-ok (echo_line line h) _ e in
    let (piece, run1, e1) = bind-ok (second_piece 61 (strip line)) _ e0 in
    let (bytes, run2, e2) = bind-ok (from_hex (strip piece)) _ e1 in
    let k = echo_line-Kept line h run0 in
    let same : record mid { dev = send bytes (send prefix mid.dev) } ≡ h' = cc in
    subst (Kept h) same (record {
      state = k.state;
      open_before = k.open_before;
      open_after = k.open_after;
      checks = k.checks;
    })

ask-Kept : (code : ℕ) (h : Host) {h' : Host} → ask code h ≡ ok h' → Kept h h'
unfolding ask
ask-Kept code h e =
    let ((line, dev), run0, e0) = bind-ok (readline (send (four_bytes code) h.dev)) _ e in
    let k = write_response-Kept line (record h { dev = dev }) e0 in
    record {
      state = k.state;
      open_before = k.open_before;
      open_after = k.open_after;
      checks = k.checks;
    }

-- What one line does: nothing, a write, or the end.
data Handled (h h' : Host) : Type 0 where
  ignored : h ≡ h' → Handled h h'
  wrote : Kept h h' → Handled h h'
  ended : h'.state ≡ close_rsp → h'.response_open ≡ false → h'.checks ≡ h.checks → Handled h h'

finish-Handled : (h : Host) {h' : Host} → finish h ≡ ok h' → Handled h h'
unfolding finish
finish-Handled h {h'} e =
    let ((line, dev), run0, e0) = bind-ok (readline (send (four_bytes stop_code) h.dev)) _ e in
    let same : record h { dev = dev; state = close_rsp; response_open = false } ≡ h' = cc in
    subst (Handled h) same (ended refl refl refl)

unchanged : {h h' : Host} → ok h ≡ ok h' → Handled h h'
unchanged e = ignored cc

act-Handled :
    (c : Command) (line : List ℕ) (h : Host) {h' : Host} → act c line h ≡ ok h' → Handled h h'
unfolding act
act-Handled count_line line h e = wrote (echo_line-Kept line h e)
act-Handled seed_line line h e = wrote (forward-Kept line (four_bytes seed_code) h e)
act-Handled mlen_line line h e = wrote (echo_line-Kept line h e)
act-Handled msg_line line h e =
    let k = forward-Kept line (msg_code ∷ []) (record h { count_pk = h.count_pk + 1 }) e in
    wrote (record {
      state = k.state;
      open_before = k.open_before;
      open_after = k.open_after;
      checks = k.checks;
    })
act-Handled pk_line line h e = wrote (ask-Kept pk_code h e)
act-Handled sk_line line h e = wrote (ask-Kept sk_code h e)
act-Handled sml_line line h e = wrote (ask-Kept sml_code h e)
act-Handled sm_line line h e = wrote (ask-Kept sm_code h e)
act-Handled finished_line line h e = finish-Handled h e
act-Handled other_line line h e = unchanged e

handle-Handled : (line : List ℕ) (h : Host) {h' : Host} → handle line h ≡ ok h' → Handled h h'
unfolding handle
handle-Handled line h e = act-Handled (command line) line h e

-- Within the loop over the lines: still reading, or at the end with the file closed.
abbrev IsHandling : Host → Type 0
IsHandling h =
    (h.checks ≡ 0) × ((h.state ≡ read_rsp) ⊎ ((h.state ≡ close_rsp) × (h.response_open ≡ false)))

Handled-IsHandling : (h h' : Host) → Handled h h' → IsHandling h → IsHandling h'
Handled-IsHandling h h' (ignored e) handling = subst IsHandling e handling
Handled-IsHandling h h' (wrote k) (z, inl s) = (k.checks ∙ z, inl (k.state ∙ s))
Handled-IsHandling h h' (wrote k) (z, inr (s, shut)) = let o = k.open_before in cc
Handled-IsHandling h h' (ended s shut same) (z, place) = (same ∙ z, inr (s, shut))

handle_all-IsHandling :
    (lines : List (List ℕ)) (h : Host) {h' : Host}
    → handle_all lines h ≡ ok h'
    → IsHandling h
    → IsHandling h'
unfolding handle_all
handle_all-IsHandling [] h {h'} e handling =
    let same : h ≡ h' = cc in subst IsHandling same handling
handle_all-IsHandling (line ∷ lines) h e handling =
    let (mid, run0, e0) = bind-ok (handle line h) _ e in
    handle_all-IsHandling lines mid e0
      (Handled-IsHandling h mid (handle-Handled line h run0) handling)

-- What holds in each state: nothing is sent before the request file is complete; the response file is
-- open in no state but the one that writes it; the check runs once, at the end.
abbrev pub InState : State → Host → Type 0
InState start h = (h.dev.sent ≡ []) × (h.response_open ≡ false) × (h.checks ≡ 0)
InState read_rsq h = (h.dev.sent ≡ []) × (h.response_open ≡ false) × (h.checks ≡ 0)
InState close_rsq h = (h.dev.sent ≡ []) × (h.response_open ≡ false) × (h.checks ≡ 0)
InState read_rsp h = h.checks ≡ 0
InState close_rsp h = (h.response_open ≡ false) × (h.checks ≡ 0)
InState check_data h = (h.response_open ≡ false) × (h.checks ≡ 0)
InState stop h = (h.response_open ≡ false) × (h.checks ≡ 1)

abbrev pub Inv : Host → Type 0
Inv h = InState h.state h

IsHandling-Inv : (h : Host) → IsHandling h → Inv h
IsHandling-Inv h (z, inl s) = subst (λ x. InState x h) (sym s) z
IsHandling-Inv h (z, inr (s, shut)) = subst (λ x. InState x h) (sym s) (shut, z)

taken_line-sent :
    (dev : Device) (cut : Option (List ℕ × List ℕ)) {line : List ℕ} {dev' : Device}
    → taken_line dev cut ≡ ok (line, dev')
    → dev'.sent ≡ dev.sent
unfolding taken_line
taken_line-sent dev none e = cc
taken_line-sent dev (some (line, rest)) {dev' = dev'} e =
    let same : record dev { input = rest } ≡ dev' = cc in ap (λ d. d.sent) (sym same)

readline-sent :
    (dev : Device) {line : List ℕ} {dev' : Device}
    → readline dev ≡ ok (line, dev')
    → dev'.sent ≡ dev.sent
unfolding readline
readline-sent dev e = taken_line-sent dev (cut_line dev.input) e

start_next :
    (b : Bool) (h : Host)
    → InState start h
    → Inv (record h { state = if b then read_rsq else start })
start_next true h i = i
start_next false h i = i

rsq_next :
    (b : Bool) (h : Host)
    → InState start h
    → Inv (record h { state = if b then close_rsq else read_rsq })
rsq_next true h i = i
rsq_next false h i = i

round-Inv :
    (s : State) (h : Host) {h' : Host} → h.state ≡ s → InState s h → round s h ≡ ok h' → Inv h'
unfolding round
round-Inv start h {h'} at i e =
    let ((x, dev), run0, e0) = bind-ok (readline h.dev) _ e in
    let (piece, run1, e1) = bind-ok (second_piece 45 x) _ e0 in
    let next = if contains x (codes "KAT_test_Serial_IO.elf") then read_rsq else start in
    let same : record h { dev = dev; parameter = strip piece; request = []; state = next } ≡ h' =
      cc in
    subst Inv same (
      start_next (contains x (codes "KAT_test_Serial_IO.elf"))
        (record h { dev = dev; parameter = strip piece; request = [] })
        (readline-sent h.dev run0 ∙ i.0, i.1, i.2))
round-Inv read_rsq h {h'} at i e =
    let ((x, dev), run0, e0) = bind-ok (readline h.dev) _ e in
    let next = if contains x (codes "finished\n") then close_rsq else read_rsq in
    let same : record h { dev = dev; request = h.request ++ (x ∷ []); state = next } ≡ h' = cc in
    subst Inv same (
      rsq_next (contains x (codes "finished\n"))
        (record h { dev = dev; request = h.request ++ (x ∷ []) })
        (readline-sent h.dev run0 ∙ i.0, i.1, i.2))
round-Inv close_rsq h {h'} at i e =
    let same : record h { state = read_rsp } ≡ h' = cc in subst Inv same i.2
round-Inv read_rsp h {h'} at i e =
    IsHandling-Inv h' (handle_all-IsHandling h.request _ e (i, inl at))
round-Inv close_rsp h {h'} at i e =
    let same : record h { state = check_data } ≡ h' = cc in subst Inv same i
round-Inv check_data h {h'} at i e =
    let same : record h { state = stop; checks = h.checks + 1 } ≡ h' = cc in
    subst Inv same (i.0, omega (arith, i.1))
round-Inv stop h {h'} at i e =
    let same : h ≡ h' = cc in subst Inv same (subst (λ x. InState x h) (sym at) i)

-- From a host that has the invariant, `count` rounds lead to a host that has it.
pub run-Inv : (count : ℕ) (h : Host) {h' : Host} → Inv h → run count h ≡ ok h' → Inv h'
unfolding run step
run-Inv zero h {h'} i e = let same : h ≡ h' = cc in subst Inv same i
run-Inv (suc count) h i e =
    let (mid, run0, e0) = bind-ok (round h.state h) _ e in
    run-Inv count mid (round-Inv h.state h refl i run0) e0
