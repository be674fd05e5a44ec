-- ===== src/Lib.antt =====
-- Bitcoin Script in Python: the interpreter, the helpers on serialized scripts, the script templates,
-- and the verification of blocks from the files of Bitcoin Core, in the package src/bitcoin_script/.
--
-- The program. ScriptEngine.verify (src/bitcoin_script/engine/engine.py) decides whether an input may
-- spend an output: it runs scriptSig and scriptPubKey, or the script of a witness program, on a
-- ScriptStack (engine/stack.py), one opcode at a time, by the handlers of engine/operations.py. The
-- handlers read numbers and truth values by the codecs of ScriptStack and raise the exceptions of
-- engine/errors.py. src/bitcoin_script/script_utils.py walks over serialized scripts on its own, for
-- the callers of the interpreter, and src/bitcoin_script/script_types/ makes, reads and classifies the
-- standard scripts; verify takes the P2PKH script of a P2WPKH program from there.
-- src/bitcoin_script/blockchain/ verifies whole blocks: parser.py reads them from blk files, utxo.py
-- keeps the unspent outputs in SQLite, flags.py says which rules hold at a height, and verifier.py
-- looks up the outputs that a block spends, makes the signature hashes, has each input judged by the
-- K semantics (in the process itself or in a pool), and moves the UTXO set on. The K semantics is run
-- by src/bitcoin_script/k_semantics/semantics.py, which hands over a configuration and reads the final
-- pattern. asm.py assembles scripts from text, engine/flags.py reads and names flags, benchmark/
-- extracts the inputs of blocks into a dataset and has them judged again, and cli.py is the command
-- line of all of these.
--
-- The files.
--   Prelude: numbers, lists and byte strings, and lemmas on them; Prelude/Int: integers;
--     Prelude/Bits: masks and shifts; Prelude/Little: little-endian numbers of a width;
--     Prelude/Text: texts as lists of code points, their words and their hex digits.
--   Errors: the exceptions, as values, and the results of calls.
--   Engine/Stack: ScriptStack and the monad of calls that change a stack or raise. A Python list is
--     held with its last element first. Engine/Outcome: rules for what such calls return and raise.
--   Engine/Number: element_to_bool, element_to_int, int_to_element and bool_to_element. Below it,
--     Value has the number of a byte string, RoundTrip, Minimal and Truth the laws.
--   Engine/Library: what the interpreter calls outside the repository, as parameters.
--   Engine/Operations: StackOps, ArithOps and CryptoOps hold the handlers under their own names,
--     Dispatch the table of handlers; Shuffle, Numeric, Indexed and Multisig hold what is proved of
--     them.
--   Engine/Run: `_run_script` and `_execute_opcode`. run_item is one round of the loop, run_items
--     the loop, run_script the function, unpack the assignment to the loop's variables. Below it,
--     Exceptions, Skipped, Limits, Nesting and Cooked.
--   Engine/Verify: verify, execute, `_verify_p2wpkh`, `_verify_p2wsh` and reset, on a record of the
--     engine's attributes. Below it, Total, History and Refuses.
--   Engine/Flags: from_names and names (engine/flags.py), with RoundTrip and Commas below it.
--   Asm: parse_asm (asm.py). token_hex is one round of its loop; Asm/Opcodes has the table. Below it,
--     Join has texts that are put together, Pushes the scripts of pushes, Words texts of hex words and
--     of integers.
--   ScriptUtils: Codec (numbers, the witness blob, patterns) and Walk (the loops over a script);
--     Tokens is the common view of the loops, and Refinement says that they are functions of it;
--     Paths has classify_script, with Classes below it.
--   ScriptTypes: a module for each file of script_types/, then RoundTrip, Agreement, Classes and
--     Keys.
--   Blockchain/Flags: flags_for_block (blockchain/flags.py), with Activation below it.
--   Blockchain/BlockFile: BlockFileParser (blockchain/parser.py). iter_from is
--     `_iter_blocks_in_file`, scan_from the loop of scan_headers. Below it, Layout has the bytes of a
--     header, Written the files that are written and read, Scan the scan of the headers.
--   Blockchain/Pack, Taproot, Sighash: `_compact_size` and struct.pack, `_taproot_sighash`, and
--     `_compute_sighash_blob` (blockchain/verifier.py), on the records of Blockchain/Transaction.
--   Blockchain/Utxo: UTXOSet (blockchain/utxo.py), on a record of the SQL statements; IsTable is what
--     SQLite documents of them.
--   Blockchain/Tasks: what `_verify_block_inner` has judged of an input, and by whom.
--   Blockchain/VerifyBlock: `_verify_block_inner` and BlockResult (blockchain/verifier.py). verify_tx
--     is one round of the loop, verify_block_inner the method. Below it, View is the UTXO set as a
--     function of the outpoint, Store and Refines say that the statements are steps of it, Steps has
--     the parts of a run without an exception, Pool and Accepts the process pool and the errors.
--   Blockchain/Chain: verify_chain, `_load_chain`, `_walk_chain_length` and verify_block
--     (blockchain/verifier.py). gather is the first pass over the headers and walk the second;
--     verify_blocks is the loop of verify_chain. Below it, Verified has what verify_chain leaves,
--     Scanned the index of the headers, Walk and Order the blocks that it leads to.
--   Blockchain/Downloader: download_blocks and verify_chain (blockchain/downloader.py), which is named
--     verify_chain_links here.
--   KSemantics: `_find_cell`, `_list_items`, stack (final_stack here), is_stuck, error, success and the
--     configuration of verify_script (k_semantics/semantics.py), on patterns of KORE. Cells has the
--     two walks by recursion, Judging the judge that the block verifier makes of the K semantics, in
--     its own process and in `_verify_input_worker`.
--   Benchmark: the records and eras of benchmark/; Extractor has extract_inputs_from_block,
--     `_update_utxo_only` and `_verify_with_k`, and below it SameUtxo and SameTask the block verifier
--     beside them; Extraction has extract_dataset with its checkpoints, on a list of blocks, Frame and
--     Steps what a walk adds, and Resumed the runs behind a run; ChainWalk has `_walk_chain`. Api has
--     benchmark/api_extractor.py: reconstruct_tx, the extraction of a block that the API describes,
--     and the loop over the pages; below it, Targets has extract_dataset_api, Description says what
--     describes a transaction, Reconstructed what reconstruct_tx makes of it, SameInputs and SameBlock
--     have the extraction from the files beside it, Pages the pages. Dataset has save_dataset and
--     load_dataset, with RoundTrip below it.
--   Cli: how cli.py shows a stack item, and the prevouts of its repl, with Shown below it.
--   Examples, in most of these: the theorems at concrete inputs.
--
-- How the code is read. A byte is a natural number, and where a fact needs it below 256 it says so;
-- `bytes` are lists. Python's integers are integers without bounds, and a list index may be negative
-- as in Python. A call that changes a stack takes the stacks and answers a result and the stacks
-- behind it, whether it returned or raised. `try`/`finally` resets on every way out.
--
-- Bounds and fuel. The loops of script_utils.py recurse on fuel, the length of the script: each round
-- takes a byte, and the tokens put together are the whole script, so no byte is left. The loops over
-- a blk file recurse on the length of the file, and each round takes eight bytes. int_to_element
-- recurses on the absolute value, which each round divides by 256.
-- The walks of `_load_chain` and `_walk_chain_length` along the hashes take fuel, one unit a block,
-- since nothing in the code ends them on a cycle of hashes; a theorem says how much is enough.
-- The walks over a pattern take its size as fuel, and each round takes a node away; theorems say that
-- it is enough. The digits of a number in asm.py take the number as fuel. The walk over the chain in
-- benchmark/extractor.py takes the fuel of `_load_chain`, and the loop over the pages of the API one
-- unit a page; a theorem says how much is enough.
-- Everything else is structural.
-- What is packed into a width raises outside it, as struct.pack and to_bytes do.
--
-- What is a parameter: hashlib's digests, SignatureHash, CECKey and the iterator of CScript of
-- python-bitcoinlib (Engine/Library); RIPEMD-160 may be missing. The iterator yields byte strings,
-- integers or triples (Yielded), and may then raise; Engine.Run.Cooked and Engine.Verify.Refuses assume
-- what python-bitcoinlib documents of it, no other theorem assumes anything. For the blocks:
-- CBlock.deserialize and the fields of its transactions, SHA-256, SignatureHash, SQLite (Table,
-- with the laws IsTable), and what judges an input, in the process and in a worker (Judge). A
-- worker is not assumed to judge as the process does but where a theorem says so. For the K
-- semantics: the run from the configuration to the final pattern. For the downloader: what the node
-- answers at a height. For the dataset: MessagePack, which is taken to read the object that was
-- written. For the extraction over the API: what it answers, and the bytes and the transactions
-- that python-bitcoinlib makes (Wire).
-- Texts are ASCII, where Python's upper, isspace and int know more characters; int reads 4300 digits at
-- most.
--
-- What is not modelled: the scripts that CScript encodes from a list (P2PKH and P2SH creation, and
-- `_parse_asm` of cli.py) and the redeem script that p2sh.py iterates; the UTXO set behind a block
-- that an exception ends; the callback of verify_chain; the single requests of the downloader;
-- blockchain/validation.py, whose functions have no bodies; of k_semantics/, the loading of the
-- interpreter, its C interface, the parser of KORE and the build of the K sources; of benchmark/, the
-- timing, the reports, libbitcoinconsensus, the choice of the representative heights and the single
-- requests of the API; of cli.py, the parsing of arguments and the output; clocks, logs and the
-- messages of exceptions. An xor.dat without a byte is left out.
pub mod Prelude
pub mod Errors
pub mod Engine
pub mod Asm
pub mod ScriptUtils
pub mod ScriptTypes
pub mod Blockchain
pub mod KSemantics
pub mod Benchmark
pub mod Cli
