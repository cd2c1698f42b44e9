-- ===== src/Tests/Harnesses.antt =====
-- A run of sage-ref/KAT_test_Serial_IO.py.
use iis_meds.Prelude.{ℕ, ◌+◌, List, [], ◌∷◌, ◌++◌, false, ok, ◌≡◌, refl, arith}
use iis_meds.Harness.{codes, taken_line, readline, send, strip, close_rsp, read_rsq, stop}
use iis_meds.Harness.Serial.{
  Host, write_response, echo_line, forward, ask, finish, command, act, handle, handle_all, round,
  step, run,
}
use iis_meds.Harness.Serial.Invariant.{Inv, run-Inv}
use iis_meds.Harness.Serial.Ends.{concat, boot, ready, run-stop}

abbrev hello : List ℕ
hello = codes "KAT_test_Serial_IO.elf-toy\n"

abbrev request : List (List ℕ)
request = codes "count = 0\n" ∷ codes "seed = 0aFF\n" ∷ codes "pk =\n" ∷ codes "sml =\n" ∷ []

abbrev answers : List ℕ
answers = codes "pk = 77\nsml = 5\nbye\n"

abbrev done : Host
done = record {
  state = close_rsp;
  dev = record {
    input = [];
    sent = 0 ∷ 0 ∷ 0 ∷ 18 ∷ 10 ∷ 255 ∷ 0 ∷ 0 ∷ 0 ∷ 20 ∷ 0 ∷ 0 ∷ 0 ∷ 22 ∷ 0 ∷ 0 ∷ 0 ∷ 24 ∷ [];
  };
  parameter = codes "toy";
  request = request ++ (codes "finished\n" ∷ []);
  response = codes "# toy\n\ncount = 0\nseed = 0aFF\npk = 77\nsml = 5\n";
  response_open = false;
  count_pk = 0;
  checks = 0;
}

handled :
    handle_all (request ++ (codes "finished\n" ∷ [])) (
      ready answers
        (strip (codes "toy\n"))
        (request ++ (codes "finished\n" ∷ []))
        (codes "# " ++ strip (codes "toy\n") ++ codes "\n\n"))
    ≡ ok done
unfolding handle_all handle act command echo_line forward ask finish write_response readline
    taken_line send
handled = refl

run-stop_example :
    (out : Host) × (run
        (4 + 6)
        (boot (hello ++ (concat request ++ (codes "finished\n" ++ answers))))
      ≡ ok out)
    × (out.state ≡ stop)
    × (out.checks ≡ 0 + 1)
    × (out.response ≡ done.response)
    × (out.dev ≡ done.dev)
unfolding command
run-stop_example =
    run-stop hello (codes "toy\n") request (codes "finished\n") answers {done = done}
      (ground arith, refl) refl (ground arith) (ground arith, refl) refl handled

one_round : run 1 (boot hello) ≡ ok (record (boot []) { parameter = codes "toy"; state = read_rsq })
unfolding run step round readline taken_line
one_round = refl

run-Inv_example : Inv (record (boot []) { parameter = codes "toy"; state = read_rsq })
run-Inv_example = run-Inv 1 (boot hello) (refl, refl, refl) one_round
