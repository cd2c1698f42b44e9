-- ===== src/Tests/Returned.antt =====
-- One round of key generation, and one of signing, in sage-ref/KAT_test_Stream.py, in the part of count 1.
use iis_meds.Prelude.{ℕ, List, [], ◌∷◌, ok, ◌≡◌, refl}
use iis_meds.Harness.{codes}
use iis_meds.Harness.Exchange.{entry_line, get_keygen, get_sig, is_big}
use iis_meds.Harness.Kept.{Hex}
use iis_meds.Harness.SentBack.{Told, told_input}
use iis_meds.Harness.Returned.{file_before}
use iis_meds.Harness.Signed.{Tilde, tilde_input, Part, parts_input, get_sig_lem}
use iis_meds.Harness.Answered.{get_keygen_lem}

-- The texts "07", "1f" and "20"
abbrev seven : Hex
seven = record {
  digit = 48;
  digits = 55 ∷ [];
  bytes = 7 ∷ [];
  plain = ((refl, refl, refl), ((refl, refl, refl), tt));
  parsed = refl;
}

abbrev thirty_one : Hex
thirty_one = record {
  digit = 49;
  digits = 102 ∷ [];
  bytes = 31 ∷ [];
  plain = ((refl, refl, refl), ((refl, refl, refl), tt));
  parsed = refl;
}

abbrev told : Told
told = record { ready = 1; a_inv = seven; b_inv = thirty_one; g = seven }

abbrev earlier : List (List ℕ)
earlier = codes "count = 0\n" ∷ codes "A_inv_data 1 = 05\n" ∷ []

get_keygen_lem_example :
    get_keygen
      (codes "toy")
      2
      1
      (record {
        input =
            told_input
              (told ∷ [])
              (8 ∷ 9 ∷ 3 ∷ 115 ∷ 107 ∷ 32 ∷ 61 ∷ 32 ∷ 55 ∷ 10 ∷ 2 ∷ 49 ∷ 102 ∷ 10 ∷ 11 ∷ []);
        sent = 60 ∷ [];
      })
      (file_before 1 earlier told [])
    ≡ ok (
      codes "sk = 7",
      codes "1f" ∷ [],
      record { input = 11 ∷ []; sent = 60 ∷ 49 ∷ 7 ∷ 49 ∷ 31 ∷ 49 ∷ 49 ∷ 7 ∷ 49 ∷ [] },
      codes
          "count = 0\nA_inv_data 1 = 05\ncount = 1\nA_inv_data 1 = 07\nB_inv_data 1 = 1f\nG_data 1 = 07\n",
    )
unfolding entry_line is_big
get_keygen_lem_example =
    get_keygen_lem 1 earlier told [] (codes "toy") (8 ∷ []) (9 ∷ []) (11 ∷ []) (60 ∷ [])
      (codes "sk = 7") 3 ((2, thirty_one) ∷ []) refl
      (refl, (refl, (refl, (refl, (refl, (refl, tt)))))) refl
      (
        (
          codes "count = 0",
          refl,
          (refl, (refl, (refl, (refl, (refl, (refl, (refl, (refl, (refl, tt))))))))),
        ),
        (
          (
            codes "A_inv_data 1 = 05",
            refl,
            (
              refl,
              (
                refl,
                (
                  refl,
                  (
                    refl,
                    (
                      refl,
                      (
                        refl,
                        (
                          refl,
                          (
                            refl,
                            (
                              refl,
                              (refl, (refl, (refl, (refl, (refl, (refl, (refl, (refl, tt)))))))),
                            ),
                          ),
                        ),
                      ),
                    ),
                  ),
                ),
              ),
            ),
          ),
          tt,
        ),
      )
      (refl, (refl, tt)) refl refl refl

abbrev round : Tilde
round = record { ready = 1; a = seven; b = thirty_one }

-- An empty part, and "0"
abbrev no_part : Part
no_part = record { ready = 2; text = []; plain = tt }

abbrev last_part : Part
last_part = record { ready = 3; text = codes "0"; plain = ((refl, refl, refl), tt) }

get_sig_lem_example :
    get_sig
      (codes "toy")
      1
      1
      (record {
        input = 4 ∷ tilde_input (round ∷ []) (parts_input (no_part ∷ []) (3 ∷ 48 ∷ 10 ∷ 11 ∷ []));
        sent = 60 ∷ [];
      })
      (codes "count = 0\nsk = 05\ncount = 1\nseed = 00\nsk = 07\n")
      (codes "count = 0\ncount = 1\n")
    ≡ ok (
      [] ∷ codes "0" ∷ [],
      record { input = 11 ∷ []; sent = 60 ∷ 7 ∷ 49 ∷ 49 ∷ 7 ∷ 31 ∷ 49 ∷ 49 ∷ [] },
      codes "count = 0\ncount = 1\nA_tilde_data 0 = 07\nB_tilde_data 0 = 1f\n",
    )
unfolding entry_line is_big
get_sig_lem_example =
    get_sig_lem 1 (codes "count = 0\n" ∷ []) (round ∷ []) (no_part ∷ []) (codes "toy")
      (codes "count = 0\nsk = 05\ncount = 1\nseed = 00\nsk = 07\n") (11 ∷ []) (60 ∷ [])
      (codes "count = 0\n" ∷ codes "sk = 05\n" ∷ []) (codes "seed = 00\n" ∷ []) [] seven 4 last_part
      refl refl (refl, (refl, tt)) ((refl, refl), tt) tt
      (
        (
          codes "count = 0",
          refl,
          (refl, (refl, (refl, (refl, (refl, (refl, (refl, (refl, (refl, tt))))))))),
        ),
        tt,
      )
      (refl, tt) refl
