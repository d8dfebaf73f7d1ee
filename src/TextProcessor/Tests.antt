-- ===== src/TextProcessor/Tests.antt =====
-- Texts that are cut, with characters of one to four bytes and with bytes that are no text.
use toolsy.Prelude.{false, none, [], ◌∷◌, ◌≡◌, refl}
use toolsy.Bytes.{Bytes}
use toolsy.TextProcessor.{
  rune_width, runes_from, runes, valid_from, valid, cut_runes, truncate_string_to_bytes,
  truncate_string_utf8, truncate_bytes_to_valid_utf8_string, to_valid_utf8, valid_runes_from,
  truncate_bytes,
}
use toolsy.TextProcessor.Bounds.{IsTruncated, truncate_string_utf8-IsTruncated}
use toolsy.TextProcessor.Reading.{Reader}

-- "aé€😀": characters of one, two, three and four bytes.
abbrev text : Bytes
text = 97 ∷ 195 ∷ 169 ∷ 226 ∷ 130 ∷ 172 ∷ 240 ∷ 159 ∷ 152 ∷ 128 ∷ []

abbrev dots : Bytes
dots = 46 ∷ 46 ∷ []

reads :
    runes text
    ≡ (97 ∷ []) ∷ (195 ∷ 169 ∷ []) ∷ (226 ∷ 130 ∷ 172 ∷ []) ∷ (240 ∷ 159 ∷ 152 ∷ 128 ∷ []) ∷ []
unfolding runes runes_from rune_width
reads = refl

-- A surrogate and an overlong form are no runes.
rejects : valid (237 ∷ 160 ∷ 128 ∷ []) ≡ false
unfolding valid valid_from rune_width
rejects = refl

cuts : truncate_string_utf8 text 7 dots ≡ 97 ∷ 195 ∷ 169 ∷ 46 ∷ 46 ∷ []
unfolding truncate_string_utf8 truncate_string_to_bytes cut_runes runes runes_from rune_width
cuts = refl

-- In a text that is not valid UTF-8, a byte that begins no rune counts for three, so that the cut may
-- fall within a character.
cuts_within :
    truncate_string_to_bytes (255 ∷ 195 ∷ 169 ∷ 226 ∷ 130 ∷ 172 ∷ []) 5
    ≡ 255 ∷ 195 ∷ 169 ∷ 226 ∷ 130 ∷ []
unfolding truncate_string_to_bytes cut_runes runes runes_from rune_width
cuts_within = refl

drops :
    truncate_bytes_to_valid_utf8_string (255 ∷ 97 ∷ 98 ∷ 99 ∷ []) 2 dots ≡ 97 ∷ 98 ∷ 46 ∷ 46 ∷ []
unfolding truncate_bytes_to_valid_utf8_string to_valid_utf8 valid_runes_from rune_width
    truncate_string_to_bytes cut_runes runes runes_from
drops = refl

cuts_bytes : truncate_bytes text 3 dots ≡ 97 ∷ 195 ∷ 169 ∷ 46 ∷ 46 ∷ []
unfolding truncate_bytes
cuts_bytes = refl

truncate_string_utf8-IsTruncated_example :
    IsTruncated text 7 dots (truncate_string_utf8 text 7 dots)
unfolding valid valid_from rune_width
truncate_string_utf8-IsTruncated_example = truncate_string_utf8-IsTruncated text 7 dots refl refl

abbrev reader : Reader
reader = record { content = text; failure = none }
