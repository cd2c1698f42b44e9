-- ===== src/Harness.antt =====
-- The test harnesses sage-ref/KAT_test_Serial_IO.py and sage-ref/KAT_test_Stream.py: a host talks to a
-- device over a serial line, writes files and compares. Here what they share; a text is the list of
-- its code points, and what comes over the line is ASCII.
pub mod Serial
pub mod Stream
pub mod Parameters
pub mod Exchange
pub mod Kept
pub mod SentBack
pub mod Returned
pub mod Answered
pub mod Signed
pub mod SentKey
pub use iis_meds.Text.{codes, starts_with, contains, strip, second_piece, from_hex}
use iis_meds.Prelude.{
  ℕ, zero, suc, ◌+◌, ◌-◌, ◌*◌, List, [], ◌∷◌, ◌++◌, take, drop, length, ltb, leb, ◌==◌, ◌&&◌, ◌||◌,
  not, Bool, true, false, if◌then◌else◌, Option, none, some, Result, ok, raised, running,
  index_error, value_error, ◌>>=◌,
}

-- The line to the device: the bytes that will still come, and those that have been sent.
pub record Device : Type 0 where
  pub input : List ℕ
  pub sent : List ℕ

abbrev pub behind : ℕ → Option (List ℕ × List ℕ) → Option (List ℕ × List ℕ)
behind c none = none
behind c (some (line, rest)) = some (c ∷ line, rest)

-- A text up to the first newline, and what is behind it
abbrev pub cut_line : List ℕ → Option (List ℕ × List ℕ)
cut_line [] = none
cut_line (c ∷ text) =
    let later = behind c (cut_line text) in if c == 10 then some (c ∷ [], text) else later

unfoldable pub taken_line : Device → Option (List ℕ × List ℕ) → Result (List ℕ × Device)
taken_line dev none = running
taken_line dev (some (line, rest)) = ok (line, record dev { input = rest })

-- `dev.readline()` waits for a newline: where none comes, it never returns.
unfoldable pub readline : Device → Result (List ℕ × Device)
readline dev = taken_line dev (cut_line dev.input)

-- `dev.read(1)`
unfoldable pub read_byte : Device → Result (ℕ × Device)
read_byte dev = elim dev.input [ [] ↦ running | c ∷ rest ↦ ok (c, record dev { input = rest }) ]

-- `dev.write(bytes)`
unfoldable pub send : List ℕ → Device → Device
send bytes dev = record dev { sent = dev.sent ++ bytes }

-- `CODE.to_bytes(4, 'big')` for a code below 256
abbrev pub four_bytes : ℕ → List ℕ
four_bytes c = 0 ∷ 0 ∷ 0 ∷ c ∷ []

abbrev pub seed_code : ℕ
seed_code = 18

abbrev pub msg_code : ℕ
msg_code = 19

abbrev pub pk_code : ℕ
pk_code = 20

abbrev pub sk_code : ℕ
sk_code = 21

abbrev pub sml_code : ℕ
sml_code = 22

abbrev pub sm_code : ℕ
sm_code = 23

abbrev pub stop_code : ℕ
stop_code = 24

-- The constants `STATE_…`
pub data State : Type 0 where
  start read_rsq close_rsq read_rsp close_rsp check_data stop : State
