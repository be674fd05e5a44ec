-- ===== src/Engine/Flags/Examples.antt =====
-- The names of flags at concrete texts.
use bitcoin_script.Prelude.{◌≡◌, refl, [], ◌∷◌, arith}
use bitcoin_script.Prelude.Text.{codes}
use bitcoin_script.Errors.{Error, ok, err}
use bitcoin_script.Engine.Flags.{
  member_named, with_members, comma_parts, split_commas, skip_spaces, drop_spaces, strip, drop_text,
  add_flag, add_tokens, add_texts, from_names, names,
}
use bitcoin_script.Engine.Flags.RoundTrip.{from_names-names}

-- Names in one text, with spaces, in lower case and with the prefix of Bitcoin Core.
spelled_test : from_names (codes "p2sh, Witness," ∷ codes "SCRIPT_VERIFY_TAPROOT" ∷ []) ≡ ok 0x20801
unfolding from_names add_texts add_tokens split_commas comma_parts strip skip_spaces drop_spaces
    add_flag member_named drop_text
spelled_test = refl

all_test : from_names (codes "ALL" ∷ []) ≡ ok 0x3ffff
unfolding from_names add_texts add_tokens split_commas comma_parts strip skip_spaces drop_spaces
    add_flag member_named with_members drop_text
all_test = refl

-- The prefix does not stand before an alias.
prefixed_alias_test : from_names (codes "SCRIPT_VERIFY_ALL" ∷ []) ≡ err Error.value_error
unfolding from_names add_texts add_tokens split_commas comma_parts strip skip_spaces drop_spaces
    add_flag member_named drop_text
prefixed_alias_test = refl

from_names-names_example : from_names (names 0x20801) ≡ ok 0x20801
from_names-names_example = from_names-names 0x20801 (omega arith)
