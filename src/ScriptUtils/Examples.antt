-- ===== src/ScriptUtils/Examples.antt =====
-- The theorems on script_utils.py at a concrete script: a code separator, a push whose data holds its
-- byte, another code separator, and a push that the end of the script cuts short.
use bitcoin_script.Prelude.{◌≡◌, [], ◌∷◌, Bytes}
use bitcoin_script.ScriptUtils.Walk.{remove_codeseparators}
use bitcoin_script.ScriptUtils.Tokens.{tokens, without_codeseps, unparse}
use bitcoin_script.ScriptUtils.Refinement.{remove_codeseparators-tokens}

abbrev script : Bytes
script = 0xab ∷ 0x02 ∷ 0xab ∷ 0x07 ∷ 0xab ∷ 0xac ∷ 0x4c ∷ 0x03 ∷ 0x09 ∷ []

remove_codeseparators-tokens_example :
    remove_codeseparators script ≡ unparse (without_codeseps (tokens script))
remove_codeseparators-tokens_example = remove_codeseparators-tokens script
