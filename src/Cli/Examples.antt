-- ===== src/Cli/Examples.antt =====
-- Stack items as the command line shows them.
use bitcoin_script.Prelude.{◌≡◌, refl, [], ◌∷◌}
use bitcoin_script.Prelude.Int.{negsuc, neg}
use bitcoin_script.Cli.{number, item_value, format_stack_item}

negative_test : format_stack_item (0x00 ∷ 0x81 ∷ []) ≡ number (0x00 ∷ 0x81 ∷ []) (negsuc 255)
unfolding format_stack_item item_value neg
negative_test = refl
