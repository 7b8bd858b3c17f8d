-- ===== src/Disk/Lines.antt =====
-- `BufRead::lines` and `str::lines`: the lines of a file, each decoded from UTF-8.
use erbridge_palu.Prelude.{
  ℕ, ◌+◌, ◌-◌, ◌*◌, Bool, true, false, not, ◌&&◌, Option, none, some, List, [], ◌∷◌, map, reverse,
  Text, leb, ltb, nat_beq, if◌then◌else◌,
}
use erbridge_palu.Disk.Paths.{Bytes}

-- What is known of a character in the middle: the bytes that it needs, its bits so far, and the
-- least code point that may be encoded in so many bytes.
pub record Partial : Type 0 where
  pub need : ℕ
  pub bits : ℕ
  pub least : ℕ

abbrev pub nothing : Partial
nothing = record { need = 0; bits = 0; least = 0 }

abbrev pub needing : ℕ → ℕ → ℕ → Partial
needing need bits least = record { need = need; bits = bits; least = least }

-- A byte gives a code point or not, or is refused.
pub data Decoded : Type 0 where
  point : ℕ → Decoded
  more : Partial → Decoded
  invalid : Decoded

unfoldable pub first_byte : ℕ → Decoded
first_byte b =
    if ltb b 128
    then point b
    else if leb 194 b && ltb b 224
    then more (needing 1 (b - 192) 128)
    else if leb 224 b && ltb b 240
    then more (needing 2 (b - 224) 2048)
    else if leb 240 b && ltb b 245
    then more (needing 3 (b - 240) 65536)
    else invalid

unfoldable pub is_scalar : ℕ → ℕ → Bool
is_scalar least c = leb least c && leb c 1114111 && not (leb 55296 c && leb c 57343)

unfoldable pub next_byte : Partial → ℕ → Decoded
unfolding is_scalar
next_byte p b =
    if not (leb 128 b && ltb b 192)
    then invalid
    else if ltb 1 p.need
    then more (needing (p.need - 1) (p.bits * 64 + (b - 128)) p.least)
    else if is_scalar p.least (p.bits * 64 + (b - 128))
    then point (p.bits * 64 + (b - 128))
    else invalid

unfoldable pub decode_byte : Partial → ℕ → Decoded
unfolding first_byte next_byte
decode_byte p b = if nat_beq p.need 0 then first_byte b else next_byte p b

-- `String::from_utf8`
unfoldable pub decode_from : Partial → Bytes → Option Text
unfolding decode_byte
decode_from p [] = if nat_beq p.need 0 then some [] else none
decode_from p (b ∷ bs) = elim (decode_byte p b) [
  | invalid ↦ none
  | more p' ↦ decode_from p' bs
  | point c ↦ elim (decode_from nothing bs) [ none ↦ none | some s ↦ some (c ∷ s) ]
]

unfoldable pub from_utf8 : Bytes → Option Text
unfolding decode_from
from_utf8 bs = decode_from nothing bs

-- A line without its end, from its bytes in reverse.
abbrev pub finish_line : List ℕ → List ℕ
finish_line [] = []
finish_line (c ∷ cs) = if nat_beq c 13 then reverse cs else reverse (c ∷ cs)

-- The lines after `before`, the start of the first one in reverse. The last one needs no end.
unfoldable pub split_from : List ℕ → List ℕ → List (List ℕ)
split_from [] [] = []
split_from (c ∷ before) [] = reverse (c ∷ before) ∷ []
split_from before (c ∷ cs) = elim (nat_beq c 10) [
  | true ↦ finish_line before ∷ split_from [] cs
  | false ↦ split_from (c ∷ before) cs
]

unfoldable pub str_lines : Text → List Text
unfolding split_from
str_lines s = split_from [] s

unfoldable pub lines : Bytes → List (Option Text)
unfolding split_from from_utf8
lines bs = map from_utf8 (split_from [] bs)
