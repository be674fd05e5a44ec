-- ===== src/Engine/Run.antt =====
-- The execution loop of class ScriptEngine (engine/engine.py): `_execute_opcode` and `_run_script`.
pub mod Exceptions
pub mod Skipped
pub mod Limits
pub mod Nesting
pub mod Cooked
use bitcoin_script.Prelude.{
  ℕ, zero, suc, ◌+◌, ◌-◌, Bool, true, false, not, ◌&&◌, ◌||◌, Option, none, some, List, [], ◌∷◌,
  Bytes, length, if◌then◌else◌, ◌==◌, ltb, leb,
}
use bitcoin_script.Prelude.Int.{ℤ, pos, negsuc}
use bitcoin_script.Engine.Stack.{
  Error, is_script_error, Result, ok, err, ScriptStack, Action, pure, raise, ◌>>=◌, ◌>>◌, skip,
  push, pop, push_alt, pop_alt, size, is_empty,
}
use bitcoin_script.Engine.Number.{element_to_bool, int_to_element}
use bitcoin_script.Engine.Library.{Library, Yielded, byte_string, integer, triple, Iteration}
use bitcoin_script.Engine.Operations.CryptoOps.{
  SigContext, op_checksig, op_checksigverify, op_checkmultisig, op_checkmultisigverify,
}
use bitcoin_script.Engine.Operations.Dispatch.{contains, get_handler}

abbrev pub max_script_size : ℕ
max_script_size = 10_000

abbrev pub max_ops_per_script : ℕ
max_ops_per_script = 201

abbrev pub max_stack_size : ℕ
max_stack_size = 1_000

abbrev pub max_element_size : ℕ
max_element_size = 520

abbrev pub nops : List ℕ
nops = 0x61 ∷ 0xb0 ∷ 0xb3 ∷ 0xb4 ∷ 0xb5 ∷ 0xb6 ∷ 0xb7 ∷ 0xb8 ∷ 0xb9 ∷ []

abbrev pub always_invalid : List ℕ
always_invalid = 0x65 ∷ 0x66 ∷ []

-- `all(bools)`
abbrev pub all_true : List Bool → Bool
all_true [] = true
all_true (b ∷ bs) = b && all_true bs

-- The engine's attributes that a running script reads: `_tx`, `_input_index`, `_input_value`,
-- `_script_code` and `_sigversion`.
pub record Context (Tx : Type 0) : Type 0 where
  pub tx : Option Tx
  pub input_index : ℤ
  pub input_value : ℤ
  pub script_code : Bytes
  pub sigversion : ℕ

-- The local variables of the loop. `cond_stack` has its last element first.
pub record Locals : Type 0 where
  pub cond_stack : List Bool
  pub op_count : ℕ

abbrev pub locals : List Bool → ℕ → Locals
locals conds count = record { cond_stack = conds; op_count = count }

-- `executing = not cond_stack or all(cond_stack)`
unfoldable pub executing : List Bool → Bool
executing [] = true
executing (b ∷ bs) = all_true (b ∷ bs)

unfoldable pub raise_if : Bool → Error → Action (Unit {0})
raise_if true e = raise e
raise_if false e = skip

-- What `opcode, data, _sop_idx` are unpacked to: the opcode, and `bytes(data)` if there is data.
pub record Item : Type 0 where
  pub opcode : ℕ
  pub payload : Option Bytes

-- `bytes(n)`
abbrev pub zero_bytes : ℕ → Bytes
zero_bytes zero = []
zero_bytes (suc n) = 0 ∷ zero_bytes n

-- A byte string of three bytes is unpacked into three integers; one of another length raises ValueError,
-- and an integer TypeError.
unfoldable pub unpack : Yielded → Result Item
unpack (triple opcode payload) = ok (record { opcode = opcode; payload = payload })
unpack (byte_string (a ∷ b ∷ c ∷ [])) = ok (record { opcode = a; payload = some (zero_bytes b) })
unpack (byte_string bytes) = err Error.value_error
unpack (integer n) = err Error.library_error

run_handler : Result (Action (Unit {0})) → Action (Unit {0})
run_handler (ok handler) = handler
run_handler (err Error.key_error) = raise Error.script_invalid
run_handler (err e) = raise e

module _ {Tx : Type 0} (lib : Library Tx) (ctx : Context Tx) where
  sig_context : Tx → SigContext Tx
  sig_context tx = record {
    tx = tx;
    input_index = ctx.input_index;
    input_value = ctx.input_value;
    script_code = ctx.script_code;
    sigversion = ctx.sigversion;
  }

  -- The signature-checking opcodes, which need a transaction.
  run_signature_opcode : ℕ → Option Tx → Action (Unit {0})
  unfolding sig_context
  run_signature_opcode opcode none = raise Error.script_invalid
  run_signature_opcode opcode (some tx) =
      if opcode == 0xac
      then op_checksig lib (sig_context tx)
      else (if opcode == 0xad
          then op_checksigverify lib (sig_context tx)
          else (if opcode == 0xae
              then op_checkmultisig lib (sig_context tx)
              else op_checkmultisigverify lib (sig_context tx)))

  need_element : Action (Unit {0})
  unfolding raise_if
  need_element s = raise_if (is_empty s) Error.verify_failed s

  -- `_execute_opcode`
  unfoldable pub execute_opcode : ℕ → Action (Unit {0})
  unfolding run_handler run_signature_opcode need_element
  execute_opcode opcode =
      if contains always_invalid opcode
      then raise Error.script_invalid
      else (if opcode == 0x6a
          then raise Error.script_invalid
          else (if contains nops opcode
              then skip
              else (if contains (0x50 ∷ 0x62 ∷ 0x89 ∷ 0x8a ∷ []) opcode
                  then raise Error.script_invalid
                  else (if opcode == 0x6b
                      then (do element ← pop; push_alt element)
                      else (if opcode == 0x6c
                          then (do element ← pop_alt; push element)
                          else (if opcode == 0xab
                              then skip
                              else (if contains (0xb1 ∷ 0xb2 ∷ []) opcode
                                  then need_element
                                  else (if contains (0xac ∷ 0xad ∷ 0xae ∷ 0xaf ∷ []) opcode
                                      then run_signature_opcode opcode ctx.tx
                                      else run_handler (get_handler lib.hashes opcode)))))))))

  -- The first branch of the loop: a data push.
  run_push : Bytes → Locals → Action Locals
  unfolding raise_if
  run_push push_data l =
      if executing l.cond_stack
      then (do
        raise_if (ltb max_element_size (length push_data)) Error.push_size
        push push_data
        pure l)
      else pure l

  -- The value that OP_IF and OP_NOTIF put on the condition stack; the stack is popped only where
  -- the branch is taken.
  branch_value : Bool → Bool → Action Bool
  branch_value negated true = do
    element ← pop
    pure (if negated then not (element_to_bool element) else element_to_bool element)
  branch_value negated false = pure false

  run_else : List Bool → ℕ → Action Locals
  run_else [] count = raise Error.unbalanced_conditional
  run_else (top ∷ below) count =
      if (length below == 0) || all_true below
      then pure (locals (not top ∷ below) count)
      else pure (locals (top ∷ below) count)

  run_endif : List Bool → ℕ → Action Locals
  run_endif [] count = raise Error.unbalanced_conditional
  run_endif (top ∷ below) count = pure (locals below count)

  -- The opcodes that no condition skips, and then the others.
  run_opcode : ℕ → List Bool → ℕ → Action Locals
  unfolding branch_value run_else run_endif
  run_opcode opcode conds count =
      if opcode == 0x63
      then (do val ← branch_value false (executing conds); pure (locals (val ∷ conds) count))
      else (if opcode == 0x64
          then (do val ← branch_value true (executing conds); pure (locals (val ∷ conds) count))
          else (if opcode == 0x67
              then run_else conds count
              else (if opcode == 0x68
                  then run_endif conds count
                  else (if not (executing conds)
                      then pure (locals conds count)
                      else (if opcode == 0x4f
                          then (do push (int_to_element (negsuc 0)); pure (locals conds count))
                          else (if leb 0x51 opcode && leb opcode 0x60
                              then (do
                                push (int_to_element (pos (opcode - 0x50)))
                                pure (locals conds count))
                              else (do execute_opcode opcode; pure (locals conds count))))))))

  check_stack_size : Action (Unit {0})
  unfolding raise_if
  check_stack_size s = raise_if (ltb max_stack_size (size s + length s.alt)) Error.stack_size s

  -- `if opcode > _OP_16: op_count += 1`
  count_op : ℕ → ℕ → ℕ
  count_op opcode count = if ltb 0x60 opcode then count + 1 else count

  run_counted : ℕ → Locals → Action Locals
  unfolding count_op check_stack_size raise_if
  run_counted opcode l = do
    let count = count_op opcode l.op_count
    raise_if (ltb 0x60 opcode && ltb max_ops_per_script count) Error.op_count
    check_stack_size
    run_opcode opcode l.cond_stack count

  -- One round of the loop.
  unfoldable pub run_item : ℕ → Option Bytes → Locals → Action Locals
  unfolding run_push run_counted run_opcode
  run_item opcode (some push_data) l = run_push push_data l
  run_item opcode none l = run_counted opcode l

  -- The loop over what the iterator yields, and the iterator's own exception behind it.
  unfoldable pub run_items : List Yielded → Bool → Locals → Action Locals
  run_items [] true l = raise Error.library_error
  run_items [] false l = pure l
  run_items (object ∷ objects) fails l = elim (unpack object) [
    | err e ↦ raise e
    | ok item ↦ (do l' ← run_item item.opcode item.payload l; run_items objects fails l')
  ]

-- `except ScriptError: raise`, and any other exception becomes ScriptInvalidError.
unfoldable pub convert_result : {A : Type 0} → Result A × ScriptStack → Result A × ScriptStack
convert_result (ok a, s) = (ok a, s)
convert_result (err e, s) = (err (if is_script_error e then e else Error.script_invalid), s)

unfoldable pub as_script_error : {A : Type 0} → Action A → Action A
unfolding convert_result
as_script_error m s = convert_result (m s)

unfoldable pub finish : List Bool → Action (Unit {0})
finish [] = skip
finish (b ∷ bs) = raise Error.unbalanced_conditional

-- `_run_script`
unfoldable pub run_script : {Tx : Type 0} → Library Tx → Context Tx → Bytes → Action (Unit {0})
unfolding raise_if finish
run_script lib ctx script = do
  raise_if (ltb max_script_size (length script)) Error.script_size
  let iteration = lib.iterate script
  l ← as_script_error (run_items lib ctx iteration.items iteration.fails (locals [] 0))
  finish l.cond_stack
