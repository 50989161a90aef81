-- ===== src/Text/Utf8.antt =====
-- The functions of Go's `unicode/utf8` that the program uses, on texts as lists of bytes.
use gotifacts.Prelude.{
  ℕ, zero, suc, ◌-◌, Bool, true, false, not, ◌&&◌, [], ◌∷◌, leb, ltb, ◌==◌, if◌then◌else◌, length,
  take, drop, get_or,
}
use gotifacts.Text.{Text}

-- utf8.UTFMax
abbrev pub utf_max : ℕ
utf_max = 4

abbrev within : ℕ → ℕ → ℕ → Bool
within lo hi c = leb lo c && leb c hi

-- utf8.RuneStart: no continuation byte
unfoldable pub rune_start : ℕ → Bool
rune_start c = not (within 0x80 0xbf c)

-- The bytes of the encoding that a first byte begins; 1 for a byte that begins none.
unfoldable pub rune_size : ℕ → ℕ
rune_size c =
    if within 0xc2 0xdf c
    then 2
    else if within 0xe0 0xef c
    then 3
    else if within 0xf0 0xf4 c
    then 4
    else 1

-- Whether a second byte may follow a first byte.
unfoldable pub accepts : ℕ → ℕ → Bool
accepts c d =
    if c == 0xe0
    then within 0xa0 0xbf d
    else if c == 0xed
    then within 0x80 0x9f d
    else if c == 0xf0
    then within 0x90 0xbf d
    else if c == 0xf4
    then within 0x80 0x8f d
    else within 0x80 0xbf d

-- The tests of utf8.FullRune on the bytes that are there, when they are fewer than the encoding has.
unfoldable pub broken_off : ℕ → Text → Bool
broken_off c [] = true
broken_off c (d ∷ []) = accepts c d
broken_off c (d ∷ e ∷ rest) = accepts c d && within 0x80 0xbf e

-- utf8.FullRune
unfoldable pub full_rune : Text → Bool
unfolding rune_size broken_off accepts
full_rune [] = false
full_rune (c ∷ s) = if leb (rune_size c) (suc (length s)) then true else not (broken_off c s)

-- Whether a text begins with the encoding of a rune, of two bytes or more.
unfoldable pub encoded : ℕ → Text → Bool
encoded c [] = false
encoded c (d ∷ []) = rune_size c == 2 && accepts c d
encoded c (d ∷ e ∷ []) =
    if rune_size c == 2 then accepts c d else rune_size c == 3 && accepts c d && within 0x80 0xbf e
encoded c (d ∷ e ∷ f ∷ s) =
    if rune_size c == 2
    then accepts c d
    else if rune_size c == 3
    then accepts c d && within 0x80 0xbf e
    else rune_size c == 4 && accepts c d && within 0x80 0xbf e && within 0x80 0xbf f

-- The bytes of the first rune of a text, 0 if it begins with none: utf8.DecodeRune.
unfoldable pub first_width : ℕ → Text → ℕ
unfolding encoded rune_size accepts
first_width c s = if ltb c 0x80 then 1 else if encoded c s then rune_size c else 0

-- utf8.Valid, with the bytes of the current rune that are left over from its first byte
unfoldable pub valid_from : ℕ → Text → Bool
unfolding first_width
valid_from left [] = true
valid_from (suc left) (c ∷ s) = valid_from left s
valid_from zero (c ∷ s) =
    let rest = valid_from (first_width c s - 1) s in if first_width c s == 0 then false else rest

unfoldable pub valid : Text → Bool
unfolding valid_from
valid s = valid_from 0 s

-- strings.ToValidUTF8 with the replacement U+FFFD: each run of bytes that begin no rune is replaced
-- once. The flag says that such a run is under way.
unfoldable pub to_valid_from : ℕ → Bool → Text → Text
unfolding first_width
to_valid_from left bad [] = []
to_valid_from (suc left) bad (c ∷ s) = c ∷ to_valid_from left false s
to_valid_from zero bad (c ∷ s) =
    let kept = to_valid_from (first_width c s - 1) false s in
    let replaced = to_valid_from 0 true s in
    if not (first_width c s == 0)
    then c ∷ kept
    else if bad
    then replaced
    else 0xef ∷ 0xbf ∷ 0xbd ∷ replaced

unfoldable pub to_valid : Text → Text
unfolding to_valid_from
to_valid s = to_valid_from 0 false s

-- utf8.RuneCountInString, of a valid text
unfoldable pub rune_count : Text → ℕ
unfolding rune_start
rune_count [] = 0
rune_count (c ∷ s) = let rest = rune_count s in if rune_start c then suc rest else rest

-- The first runes of a valid text.
unfoldable pub take_runes : ℕ → Text → Text
unfolding rune_start
take_runes n [] = []
take_runes zero (c ∷ s) = let rest = take_runes zero s in if rune_start c then [] else c ∷ rest
take_runes (suc n) (c ∷ s) =
    let begun = take_runes n s in
    let inside = take_runes (suc n) s in if rune_start c then c ∷ begun else c ∷ inside

-- The loop that the program runs over the last bytes of a text: the bytes that it still looks at,
-- and the place behind the one that it looks at.
unfoldable pub trim_last : ℕ → ℕ → Text → Text
unfolding full_rune rune_start
trim_last zero i b = b
trim_last (suc n) zero b = b
trim_last (suc n) (suc i) b =
    let earlier = trim_last n i b in
    if rune_start (get_or b i 0)
    then if not (full_rune (drop i b)) then take i b else b
    else earlier
