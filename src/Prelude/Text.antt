-- ===== src/Prelude/Text.antt =====
-- Text as the list of its code points, which are ASCII, and what Python's `str` and `bytes` do with it.
use Prim.Native.Char.{code}
use Prim.Native.String.{String}
use Prim.Native.Nat.{ℕ, ◌+◌, ◌-◌, ◌*◌, ◌/◌, ◌%◌, ◌<◌}
use mathlib.Core.Path.{◌≡◌, refl, ap, ◌∙◌}
use mathlib.Core.Bool.{Bool, true, false, ◌&&◌, ◌||◌}
use mathlib.Core.Option.{Option, none, some}
use mathlib.Core.List.{List, [], ◌∷◌, ◌++◌, map}
use native.Mathlib.Omega.{arith}
use bitcoin_script.Prelude.Tests.{leb, if◌then◌else◌}
use bitcoin_script.Prelude.Lists.{Bytes, IsByte, All}

abbrev pub Text : Type 0
Text = List ℕ

abbrev pub codes : String → Text
codes String.[] = []
codes (String.◌∷◌ c s) = code c ∷ codes s

-- `str.isspace`
abbrev pub is_space : ℕ → Bool
is_space c = (leb 9 c && leb c 13) || (leb 28 c && leb c 32)

-- A word that has ended, if there is one.
abbrev pub end_word : Text → List Text → List Text
end_word [] words = words
end_word (c ∷ word) words = (c ∷ word) ∷ words

-- A character, a space or not, before a word and the words behind it.
abbrev pub put_char : Bool → ℕ → Text × List Text → Text × List Text
put_char true c (word, words) = ([], end_word word words)
put_char false c (word, words) = (c ∷ word, words)

-- The word that the text begins in, and the words behind it.
unfoldable pub first_word : Text → Text × List Text
first_word [] = ([], [])
first_word (c ∷ text) = put_char (is_space c) c (first_word text)

-- `str.split()`
unfoldable pub split : Text → List Text
split text = end_word (first_word text).0 (first_word text).1

-- `not text.strip()`
unfoldable pub is_blank : Text → Bool
is_blank [] = true
is_blank (c ∷ text) = is_space c && is_blank text

abbrev pub upper : ℕ → ℕ
upper c = if leb 97 c && leb c 122 then c - 32 else c

-- `str.upper`
abbrev pub to_upper : Text → Text
to_upper text = map upper text

abbrev pub hex_digit : ℕ → ℕ
hex_digit d = if leb d 9 then 48 + d else 87 + d

-- `bytes.hex`
unfoldable pub to_hex : Bytes → Text
to_hex [] = []
to_hex (b ∷ bytes) = hex_digit (b / 16) ∷ hex_digit (b % 16) ∷ to_hex bytes

abbrev pub hex_value : ℕ → Option ℕ
hex_value c =
    if leb 48 c && leb c 57
    then some (c - 48)
    else (if leb 97 c && leb c 102
        then some (c - 87)
        else (if leb 65 c && leb c 70 then some (c - 55) else none))

abbrev pub hex_byte : Option ℕ → Option ℕ → Option Bytes → Option Bytes
hex_byte (some high) (some low) (some bytes) = some ((high * 16 + low) ∷ bytes)
hex_byte (some high) (some low) none = none
hex_byte (some high) none bytes = none
hex_byte none low bytes = none

-- `bytes.fromhex`, where there is no space.
unfoldable pub from_hex : Text → Option Bytes
from_hex [] = some []
from_hex (c ∷ []) = none
from_hex (c ∷ d ∷ text) = hex_byte (hex_value c) (hex_value d) (from_hex text)

end_word-append :
    (word : Text) (words more : List Text)
    → end_word word (words ++ more) ≡ end_word word words ++ more
end_word-append [] words more = refl
end_word-append (c ∷ word) words more = refl

-- A text that stands before a space begins in the same word, and the rest comes behind.
first_word-append :
    (text : Text) (c : ℕ) (more : Text)
    → is_space c ≡ true
    → first_word (text ++ c ∷ more) ≡ ((first_word text).0, (first_word text).1 ++ split more)
unfolding first_word split
first_word-append [] c more h = rw (h) refl
first_word-append (d ∷ text) c more h =
    ap (put_char (is_space d) d) (first_word-append text c more h)
    ∙ one_more (is_space d) (first_word text).0 (first_word text).1
  where
    one_more :
        (space : Bool) (word : Text) (words : List Text)
        → put_char space d (word, words ++ split more)
          ≡ ((put_char space d (word, words)).0, (put_char space d (word, words)).1 ++ split more)
    one_more true word words =
        ap (λ (ws : List Text). ([], ws)) (end_word-append word words (split more))
    one_more false word words = refl

pub split-append :
    (text : Text) (c : ℕ) (more : Text)
    → is_space c ≡ true
    → split (text ++ c ∷ more) ≡ split text ++ split more
unfolding split
split-append text c more h =
    ap (λ (w : Text × List Text). end_word w.0 w.1) (first_word-append text c more h)
    ∙ end_word-append (first_word text).0 (first_word text).1 (split more)

pub is_blank-split : (text : Text) → is_blank text ≡ true → split text ≡ []
unfolding is_blank split first_word
is_blank-split [] h = refl
is_blank-split (c ∷ text) h =
    all_blank (is_space c) (is_blank text) (first_word text).0 (first_word text).1 h
      (is_blank-split text)
  where
    all_blank :
        (space blank : Bool) (word : Text) (words : List Text)
        → (space && blank) ≡ true
        → (blank ≡ true → end_word word words ≡ [])
        → end_word (put_char space c (word, words)).0 (put_char space c (word, words)).1 ≡ []
    all_blank true blank word words h f = f h
    all_blank false blank word words h f = absurd (cc h)

-- The bytes of two hex texts, the first of which is whole.
abbrev pub behind : Bytes → Option Bytes → Option Bytes
behind bytes none = none
behind bytes (some more) = some (bytes ++ more)

hex_byte-behind :
    (high low : Option ℕ) (r r' rest : Option Bytes) (bytes : Bytes)
    → hex_byte high low r ≡ some bytes
    → ((x : Bytes) → r ≡ some x → r' ≡ behind x rest)
    → hex_byte high low r' ≡ behind bytes rest
hex_byte-behind (some high) (some low) (some x) r' rest bytes h f =
    ap (hex_byte (some high) (some low)) (f x refl)
    ∙ moved rest
    ∙ ap (λ (o : Option Bytes). elim o [ none ↦ none | some b ↦ behind b rest ]) h
  where
    moved :
        (rest : Option Bytes)
        → hex_byte (some high) (some low) (behind x rest) ≡ behind ((high * 16 + low) ∷ x) rest
    moved none = refl
    moved (some more) = refl
hex_byte-behind (some high) (some low) none r' rest bytes h f = absurd (cc h)
hex_byte-behind (some high) none r r' rest bytes h f = absurd (cc h)
hex_byte-behind none low r r' rest bytes h f = absurd (cc h)

pub from_hex-append :
    (a b : Text) (bytes : Bytes)
    → from_hex a ≡ some bytes
    → from_hex (a ++ b) ≡ behind bytes (from_hex b)
unfolding from_hex
from_hex-append [] b bytes h =
    own (from_hex b)
    ∙ ap (λ (o : Option Bytes). elim o [ none ↦ none | some x ↦ behind x (from_hex b) ]) h
  where
    own : (o : Option Bytes) → o ≡ behind [] o
    own none = refl
    own (some x) = refl
from_hex-append (c ∷ []) b bytes h = absurd (cc h)
from_hex-append (c ∷ d ∷ a) b bytes h =
    hex_byte-behind (hex_value c) (hex_value d) (from_hex a) (from_hex (a ++ b)) (from_hex b) bytes
      h (λ x e. from_hex-append a b x e)

hex_value-hex_digit : (d : ℕ) → d < 16 → hex_value (hex_digit d) ≡ some d
hex_value-hex_digit d h = ground (arith, h)

pub from_hex-to_hex : (bytes : Bytes) → All IsByte bytes → from_hex (to_hex bytes) ≡ some bytes
unfolding from_hex to_hex
from_hex-to_hex [] h = refl
from_hex-to_hex (b ∷ bytes) (h, more) =
    rw
      (
        hex_value-hex_digit (b / 16) (omega (arith, h)),
        hex_value-hex_digit (b % 16) (omega arith),
        from_hex-to_hex bytes more,
      )
      (ap (λ (n : ℕ). some (n ∷ bytes)) (omega arith))
