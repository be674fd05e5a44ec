-- ===== src/Blockchain/Taproot/Size.antt =====
-- The length of the BIP 341 message.
use bitcoin_script.Prelude.{
  ℕ, zero, suc, ◌+◌, ◌-◌, ◌*◌, ◌/◌, ◌^◌, ◌<◌, ◌≡◌, refl, ap, Bool, true, false, not, ◌&&◌, Option,
  none, some, List, [], ◌∷◌, Bytes, All, length, get_elem?, bit_or, if◌then◌else◌, ◌==◌, arith,
  Bool-cases, inl, inr,
}
use mathlib.Core.Path.{subst}
use mathlib.Core.Option.{some-injective}
use bitcoin_script.Prelude.Int.{ℤ}
use bitcoin_script.Prelude.Bits.{bit_or_step, bit_or-zero}
use bitcoin_script.Blockchain.Transaction.{TxIn, TxOut}
use bitcoin_script.Blockchain.Pack.{sized}
use bitcoin_script.Blockchain.Pack.Makes.{
  Makes, IsMade, Makes-both, IsMade-both, Makes-some, Makes-to_bytes_le, IsSigned,
  Makes-pack_signed, IsSizable, IsMade-sized, Makes-sized, Makes-joined, sum,
}
use bitcoin_script.Blockchain.Taproot.{
  hashed, base_type, anyone_can_pay, pack_u32, pack_i64, outpoint, output, concat_map, Signing,
  when_bytes, annex_part, has_annex, all_inputs, own_input, zeros, single_output, script_path,
  taproot_message,
}

IsMade-concat_map :
    {A : Type 0} (f : A → Option Bytes) (xs : List A)
    → All (λ x. IsMade (f x)) xs
    → IsMade (concat_map f xs)
unfolding concat_map
IsMade-concat_map f [] h = ([], refl)
IsMade-concat_map f (x ∷ xs) (h, more) =
    IsMade-both (f x) (concat_map f xs) h (IsMade-concat_map f xs more)

-- The fields that are packed are in range; a txid has 32 bytes.
abbrev pub IsInput : TxIn → Type 0
IsInput vin =
    (length vin.prevout_hash ≡ 32) × (vin.prevout_n < 256 ^ 4) × (vin.n_sequence < 256 ^ 4)

abbrev pub IsOutput : TxOut → Type 0
IsOutput vout = IsSigned 8 vout.n_value × IsSizable vout.script_pubkey

abbrev pub IsAnnex : Option Bytes → Type 0
IsAnnex none = Unit {0}
IsAnnex (some annex) = IsSizable annex

-- A spend by a script has the hash of its leaf.
abbrev pub IsLeaf : ℕ → Option Bytes → Type 0
IsLeaf ext_flag none = (ext_flag == 1) ≡ false
IsLeaf ext_flag (some leaf) = length leaf ≡ 32

-- What makes the fields of a signature hash well formed, the 34 bytes of the own output's P2TR script
-- included.
pub record IsSigning (s : Signing) : Type 0 where
  pub hash_type_fits : s.hash_type < 256
  pub ext_flag_fits : s.ext_flag < 128
  pub version_fits : IsSigned 4 s.tx.n_version
  pub lock_time_fits : s.tx.n_lock_time < 256 ^ 4
  pub index_fits : s.input_index < 256 ^ 4
  pub codesep_fits : s.codesep_pos < 256 ^ 4
  pub inputs_fit : All IsInput s.tx.vin
  pub outputs_fit : All IsOutput s.tx.vout
  pub amounts_fit : All (IsSigned 8) s.prevout_amounts
  pub scripts_fit : All IsSizable s.prevout_scripts
  pub annex_fits : IsAnnex s.annex
  pub leaf_fits : IsLeaf s.ext_flag s.tapleaf_hash
  pub own_vin : TxIn
  pub own_vin_there : get_elem? s.tx.vin s.input_index ≡ some own_vin
  pub own_amount : ℤ
  pub own_amount_there : get_elem? s.prevout_amounts s.input_index ≡ some own_amount
  pub own_script : Bytes
  pub own_script_there : get_elem? s.prevout_scripts s.input_index ≡ some own_script
  pub own_script_p2tr : length own_script ≡ 34

All-get_elem? :
    {A : Type 0} (P : A → Type 0) (xs : List A) (i : ℕ) (x : A)
    → All P xs
    → get_elem? xs i ≡ some x
    → P x
All-get_elem? P [] i x h e = absurd (cc)
All-get_elem? P (y ∷ ys) zero x (h, more) e = subst P (some-injective _ _ e) h
All-get_elem? P (y ∷ ys) (suc i) x (h, more) e = All-get_elem? P ys i x more e

Makes-outpoint : (vin : TxIn) → IsInput vin → Makes (outpoint vin) 36
unfolding outpoint
Makes-outpoint vin (h, n, q) =
    Makes-both (some vin.prevout_hash) (pack_u32 vin.prevout_n) 32 4 36 (vin.prevout_hash, refl, h)
      (Makes-to_bytes_le 4 vin.prevout_n n) refl

IsMade-output : (vout : TxOut) → IsOutput vout → IsMade (output vout)
unfolding output
IsMade-output vout (v, s) =
    let (b, e, l) = Makes-pack_signed 8 vout.n_value v in
    IsMade-both (pack_i64 vout.n_value) (sized vout.script_pubkey) (b, e)
      (IsMade-sized vout.script_pubkey s)

All-map :
    {A : Type 0} {P Q : A → Type 0} (xs : List A) → ((x : A) → P x → Q x) → All P xs → All Q xs
All-map [] f h = tt
All-map (x ∷ xs) f (h, more) = (f x h, All-map xs f more)

outpoint-IsMade : (vin : TxIn) → IsInput vin → IsMade (outpoint vin)
outpoint-IsMade vin h = let (b, e, l) = Makes-outpoint vin h in (b, e)

amount-IsMade : (n : ℤ) → IsSigned 8 n → IsMade (pack_i64 n)
amount-IsMade n h = let (b, e, l) = Makes-pack_signed 8 n h in (b, e)

sequence-IsMade : (vin : TxIn) → IsInput vin → IsMade (pack_u32 vin.n_sequence)
sequence-IsMade vin (h, n, q) = let (b, e, l) = Makes-to_bytes_le 4 vin.n_sequence q in (b, e)

the_half : (n : ℕ) → n * 2 / 2 ≡ n
the_half n = omega arith

length-zeros : (n : ℕ) → length (zeros n) ≡ n
length-zeros zero = refl
length-zeros (suc n) = omega (arith, length-zeros n)

Makes-when_bytes :
    (t : Bool) (o : Option Bytes) (n : ℕ) → Makes o n → Makes (when_bytes t o) (if t then n else 0)
Makes-when_bytes true o n h = h
Makes-when_bytes false o n h = ([], refl, refl)

own_input-Makes :
    (vin : TxIn) (amount : ℤ) (spk : Bytes)
    → IsInput vin
    → IsSigned 8 amount
    → length spk ≡ 34
    → Makes (own_input (some vin) (some amount) (some spk)) 83
unfolding own_input
own_input-Makes vin amount spk h a l = Makes-joined _ (36 ∷ 8 ∷ 35 ∷ 4 ∷ []) (
  Makes-outpoint vin h,
  (
    Makes-pack_signed 8 amount a,
    (Makes-sized spk 34 l (omega arith), (Makes-to_bytes_le 4 vin.n_sequence h.2, tt)),
  ),
)

script_path-Makes :
    (ext_flag : ℕ) (leaf : Option Bytes) (codesep_pos : ℕ)
    → IsLeaf ext_flag leaf
    → codesep_pos < 256 ^ 4
    → Makes
        (when_bytes (ext_flag == 1) (script_path leaf codesep_pos))
        (if ext_flag == 1 then 37 else 0)
unfolding script_path
script_path-Makes ext_flag none codesep_pos h c = rw (h) ([], refl, refl)
script_path-Makes ext_flag (some leaf) codesep_pos h c = Makes-when_bytes (ext_flag == 1) _ 37 (
    Makes-joined _ (32 ∷ 1 ∷ 4 ∷ [])
      ((leaf, refl, h), (Makes-some (0x00 ∷ []), (Makes-to_bytes_le 4 codesep_pos c, tt))))

spend_type_fits :
    (ext_flag : ℕ) (annex : Option Bytes)
    → ext_flag < 128
    → bit_or (ext_flag * 2) (has_annex annex) < 256
spend_type_fits ext_flag none h = omega (arith, h, bit_or-zero (ext_flag * 2))
spend_type_fits ext_flag (some annex) h = omega (
  arith,
  h,
  bit_or_step (ext_flag * 2) 1,
  ap (λ (x : ℕ). bit_or x 0) (the_half ext_flag),
  bit_or-zero ext_flag,
)

own_part-Makes :
    (s : Signing)
    → IsSigning s
    → Makes
        (if anyone_can_pay s.hash_type
          then own_input
              (get_elem? s.tx.vin s.input_index)
              (get_elem? s.prevout_amounts s.input_index)
              (get_elem? s.prevout_scripts s.input_index)
          else pack_u32 s.input_index)
        (if anyone_can_pay s.hash_type then 83 else 4)
own_part-Makes s w = elim (Bool-cases (anyone_can_pay s.hash_type)) [
  | inl a ↦
      rw (a, w.own_vin_there, w.own_amount_there, w.own_script_there)
        (own_input-Makes w.own_vin w.own_amount w.own_script
          (All-get_elem? IsInput s.tx.vin s.input_index w.own_vin w.inputs_fit w.own_vin_there)
          (All-get_elem? (IsSigned 8) s.prevout_amounts s.input_index w.own_amount w.amounts_fit
            w.own_amount_there)
          w.own_script_p2tr)
  | inr a ↦ rw (a) (Makes-to_bytes_le 4 s.input_index w.index_fits)
]

-- The sizes of the parts of the message, in order.
abbrev part_sizes : Signing → List ℕ
part_sizes s =
    1
    ∷ 1
    ∷ 4
    ∷ 4
    ∷ (if not (anyone_can_pay s.hash_type) then 128 else 0)
    ∷ (if not (base_type s.hash_type == 2) && not (base_type s.hash_type == 3) then 32 else 0)
    ∷ 1
    ∷ (if anyone_can_pay s.hash_type then 83 else 4)
    ∷ 32 * has_annex s.annex
    ∷ (if base_type s.hash_type == 3 then 32 else 0)
    ∷ (if s.ext_flag == 1 then 37 else 0)
    ∷ []

abbrev pub one_if : Bool → ℕ
one_if b = if b then 1 else 0

-- The length that BIP 341 states, with its epoch byte, and 37 bytes more for a spend by a script.
abbrev pub bip341_size : Signing → ℕ
bip341_size s =
    1
    + 174
    - 49 * one_if (anyone_can_pay s.hash_type)
    - 32 * one_if (base_type s.hash_type == 2)
    + 32 * has_annex s.annex
    + 37 * one_if (s.ext_flag == 1)

size_sum : (s : Signing) → sum (part_sizes s) ≡ bip341_size s
size_sum s = ground arith

module _ (sha256 : Bytes → Bytes) (digest : (m : Bytes) → length (sha256 m) ≡ 32) where
  Makes-hashed : (o : Option Bytes) → IsMade o → Makes (hashed sha256 o) 32
  unfolding hashed
  Makes-hashed o (b, e) = (sha256 b, rw (hashed, e) refl, digest b)

  all_inputs-Makes : (s : Signing) → IsSigning s → Makes (all_inputs sha256 s) 128
  unfolding all_inputs
  all_inputs-Makes s w = Makes-joined _ (32 ∷ 32 ∷ 32 ∷ 32 ∷ []) (
    Makes-hashed _
        (IsMade-concat_map outpoint s.tx.vin (All-map s.tx.vin outpoint-IsMade w.inputs_fit)),
    (
      Makes-hashed _ (
          IsMade-concat_map pack_i64 s.prevout_amounts
            (All-map s.prevout_amounts amount-IsMade w.amounts_fit)),
      (
        Makes-hashed _ (
            IsMade-concat_map sized s.prevout_scripts
              (All-map s.prevout_scripts IsMade-sized w.scripts_fit)),
        (
          Makes-hashed _ (
              IsMade-concat_map (λ (vin : TxIn). pack_u32 vin.n_sequence) s.tx.vin
                (All-map s.tx.vin sequence-IsMade w.inputs_fit)),
          tt,
        ),
      ),
    ),
  )

  single_output-Makes :
      (i : ℕ) (vout : List TxOut)
      → All IsOutput vout
      → Makes (single_output sha256 (get_elem? vout i)) 32
  unfolding single_output
  single_output-Makes i [] h = (zeros 32, refl, length-zeros 32)
  single_output-Makes zero (x ∷ xs) (h, more) = Makes-hashed (output x) (IsMade-output x h)
  single_output-Makes (suc i) (x ∷ xs) (h, more) = single_output-Makes i xs more

  annex_part-Makes :
      (annex : Option Bytes)
      → IsAnnex annex
      → Makes (annex_part sha256 annex) (32 * has_annex annex)
  unfolding annex_part
  annex_part-Makes none h = ([], refl, refl)
  annex_part-Makes (some annex) h = Makes-hashed (sized annex) (IsMade-sized annex h)

  parts-Makes : (s : Signing) → IsSigning s → Makes (taproot_message sha256 s) (sum (part_sizes s))
  unfolding taproot_message
  parts-Makes s w = Makes-joined _ (part_sizes s) (
    Makes-some (0x00 ∷ []),
    (
      Makes-to_bytes_le 1 s.hash_type w.hash_type_fits,
      (
        Makes-pack_signed 4 s.tx.n_version w.version_fits,
        (
          Makes-to_bytes_le 4 s.tx.n_lock_time w.lock_time_fits,
          (
            Makes-when_bytes (not (anyone_can_pay s.hash_type)) _ 128 (all_inputs-Makes s w),
            (
              Makes-when_bytes
                  (not (base_type s.hash_type == 2) && not (base_type s.hash_type == 3)) _ 32
                  (Makes-hashed _ (
                    IsMade-concat_map output s.tx.vout
                      (All-map s.tx.vout IsMade-output w.outputs_fit))),
              (
                Makes-to_bytes_le 1 _ (spend_type_fits s.ext_flag s.annex w.ext_flag_fits),
                (
                  own_part-Makes s w,
                  (
                    annex_part-Makes s.annex w.annex_fits,
                    (
                      Makes-when_bytes (base_type s.hash_type == 3) _ 32
                          (single_output-Makes s.input_index s.tx.vout w.outputs_fit),
                      (
                        script_path-Makes s.ext_flag s.tapleaf_hash s.codesep_pos w.leaf_fits
                            w.codesep_fits,
                        tt,
                      ),
                    ),
                  ),
                ),
              ),
            ),
          ),
        ),
      ),
    ),
  )

-- For a well-formed spend of a P2TR output, and a SHA-256 that answers 32 bytes, the message that
-- _taproot_sighash hashes is made without an exception and has the length that BIP 341 states: 175
-- bytes, less 49 with ANYONECANPAY, less 32 with NONE, and 32 more with an annex and 37 more for a
-- spend by a script.
pub taproot_message-bip341_size :
    (sha256 : Bytes → Bytes) (s : Signing)
    → ((m : Bytes) → length (sha256 m) ≡ 32)
    → IsSigning s
    → Makes (taproot_message sha256 s) (bip341_size s)
taproot_message-bip341_size sha256 s digest w =
    subst (Makes (taproot_message sha256 s)) (size_sum s) (parts-Makes sha256 digest s w)
