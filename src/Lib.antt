-- ===== src/Lib.antt =====
-- MEDS, a signature scheme from matrix equivalence: the Python reference implementation.
--
-- sage-ref/meds.py makes key pairs, signs and verifies. It draws matrices over a prime field from
-- streams of SHAKE256, packs them into bits (sage-ref/bitstream.py), and derives the seeds of its t
-- rounds from one root in a binary tree (sage-ref/seedtree.py); a signature shows the seeds of all
-- rounds but w, as a path through the tree. sage-ref/util.py joins these parts, and
-- sage-ref/params.py holds the parameter sets and the sizes of keys and signatures.
--
-- Files, and the code that each one is about:
--   Prelude and its children: tests, lists, results with exceptions, `&` and `|` as arithmetic.
--   Logarithm: `math.ceil(math.log(n, 2))`.
--   BitStream: the class of sage-ref/bitstream.py; a method takes the object and returns the new one,
--     or the exception. Digits is the view of a stream as binary digits; LastByte, Write, Read,
--     RoundTrip and Narrow are about `write` and `read`.
--   SeedTree: `Node` and `SeedTree` of sage-ref/seedtree.py; the attribute `height` is an index.
--     Items, Deleted, Mirror, Patch and Count are about its methods.
--   Params: `Param` and `params` of sage-ref/params.py.
--   Shake: the parameter that stands for SHAKE256.
--   Util: sage-ref/util.py. Hashing has `XOF`, `H` and `G`; SeedPath has `SeedTreeToPath` and
--     `PathToSeedTree`; Challenge has `PaseHash`, and Choice and
--     Enough are about it; Compress has `Compress`,
--     `Decompress`, `CompressG` and `DecompressG`, and RoundTrip, Tabulate, Regions, Positions and
--     Standard are about them;
--     Solve has `solve_symb` and `solve_comp`, Narrow is about the second, Sizes about the first;
--     Sampling has `ExpandFqs`, `ExpandInvMat`, `ExpandSystMat`, `pi` and `SF`; Rows is about `pi`, and Linear
--     has what linear algebra says of the matrices, as a record of laws; Accepted is about what
--     `ExpandSystMat` draws, and Invertible about `ExpandInvMat`.
--   Meds: `crypto_sign` and `crypto_sign_open` of sage-ref/meds.py; Accept and Rounds are
--     about the second, Sizes about the bytes of a public key. KeyGen has `crypto_sign_keypair` and
--     the class `MEDS`, and SecretKey and PublicKey are about the bytes of the keys, and
--     Layout about those of a signed message, for which Squares and Responses
--     have the sizes of its matrices and answers; Complete is about verification of what is signed, with Rerun for rounds that are run
--     again, Answers for those that are answered, and Replay for all of them;
--     KeyPair, Matching and EndToEnd are about keys that are made, and then used.
--   Sage: the interface that stands for the field and the matrices of Sage.
--   RandomBytes: sage-ref/randombytes.py; its three globals are a record. Counter and Output are about
--     its functions.
--   Params.Headers: the C headers that sage-ref/params.py prints. Params.Reports has its other reports and
--     its search for t and w, and Params.Search is about the search.
--   Text: the operations on texts that the harnesses use.
--   Harness: what sage-ref/KAT_test_*.py share, the device on the line. Serial is the loop of
--     KAT_test_Serial_IO.py, as a step function on its globals; Invariant and Ends are about it. Exchange
--     and Stream are KAT_test_Stream.py, and Parameters is about its `do_check_parameter`; Kept (a pass over
--     a file), SentBack (the lines of a file), Returned and Answered are about `do_get_data_from_keygen`,
--     Signed and SentKey are about `do_get_data_from_sig`, and Text.Lines, on lines of a text, is for them.
--   Tests: concrete runs, and the theorems at concrete inputs.
--
-- Bytes and field elements are native numbers, and Python's integers too where they are never below
-- 0. An exception is the value `raised e`. A loop that may not end takes fuel, and gives `running`
-- when the fuel is used up; the loops of BitStream take a fuel that is above the bits to write or
-- read, of which each round takes eight, so it suffices. The loop of RandomBytes has the length of the
-- request as fuel, of which each round takes sixteen. The loops that draw from SHAKE256 again until a
-- test holds end only where the stream lets them: their fuel is an argument.
--
-- Not modelled: PyCryptodome in sage-ref/Crypto, of which SHAKE256 is a parameter; Sage, whose
-- operations are parameters too; printing, logging and command lines; the C implementation in ref/
-- and reserver_code/; `solve_opt` of sage-ref/util.py, which nothing calls; include/proc_bench.py,
-- which sorts floats that a third-party parser reads;
-- in sage-ref/params.py the value of the float `fiat_shamir` (what `log2` says of it is a parameter),
-- `print_table` and the console of `interactive`.
pub mod Prelude
pub mod Logarithm
pub mod BitStream
pub mod SeedTree
pub mod Params
pub mod RandomBytes
pub mod Shake
pub mod Sage
pub mod Util
pub mod Meds
pub mod Text
pub mod Harness
mod Tests
