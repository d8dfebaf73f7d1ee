-- ===== src/Sql/Segments.antt =====
-- internal/sqlutil/readonly.go: SQL text as a sequence of words, literals, quoted names, comments
-- and other bytes, written down independently of the scanner.
use toolsy.Prelude.{
  ℕ, Bool, true, false, not, ◌&&◌, ◌||◌, List, [], ◌∷◌, ◌++◌, ◌==◌, if◌then◌else◌, all, ◌≡◌,
}
use toolsy.Bytes.{Bytes}
use toolsy.Sql.{is_word_start, is_word_byte, next_is}

pub data Segment : Type 0 where
  word string_literal quoted_name line_note block_note : Bytes → Segment
  other : ℕ → Segment

-- The body of a literal, with each quote doubled, before `rest`.
unfoldable pub doubled : ℕ → Bytes → Bytes → Bytes
doubled q [] rest = rest
doubled q (c ∷ cs) rest =
    let after = doubled q cs rest in if c == q then c ∷ c ∷ after else c ∷ after

-- The text of a segment, before `rest`.
unfoldable pub render : Segment → Bytes → Bytes
unfolding doubled
render (word w) rest = w ++ rest
render (string_literal b) rest = 39 ∷ doubled 39 b (39 ∷ rest)
render (quoted_name b) rest = 34 ∷ doubled 34 b (34 ∷ rest)
render (line_note b) rest = 45 ∷ 45 ∷ (b ++ (10 ∷ rest))
render (block_note b) rest = 47 ∷ 42 ∷ (b ++ (42 ∷ 47 ∷ rest))
render (other c) rest = c ∷ rest

unfoldable pub render_all : List Segment → Bytes
unfolding render
render_all [] = []
render_all (s ∷ ss) = render s (render_all ss)

-- The words of a text, in order.
abbrev pub words : List Segment → List Bytes
words [] = []
words (word w ∷ ss) = w ∷ words ss
words (string_literal b ∷ ss) = words ss
words (quoted_name b ∷ ss) = words ss
words (line_note b ∷ ss) = words ss
words (block_note b ∷ ss) = words ss
words (other c ∷ ss) = words ss

abbrev pub starts_word : Bytes → Bool
starts_word [] = false
starts_word (c ∷ cs) = is_word_start c

abbrev pub continues_word : Bytes → Bool
continues_word [] = false
continues_word (c ∷ cs) = is_word_byte c

abbrev pub lacks_newline : Bytes → Bool
lacks_newline [] = true
lacks_newline (c ∷ cs) = not (c == 10) && lacks_newline cs

abbrev pub lacks_close : Bytes → Bool
lacks_close [] = true
lacks_close (c ∷ cs) = not (c == 42 && next_is 47 cs) && lacks_close cs

-- The segment is read as it was written, before `rest`: a word is maximal, a literal is not
-- followed by its own quote, a comment does not hold its end, and another byte starts nothing.
abbrev pub fits : Segment → Bytes → Bool
fits (word w) rest = starts_word w && all is_word_byte w && not (continues_word rest)
fits (string_literal b) rest = not (next_is 39 rest)
fits (quoted_name b) rest = not (next_is 34 rest)
fits (line_note b) rest = lacks_newline b
fits (block_note b) rest = lacks_close b
fits (other c) rest =
    not (c == 39 || c == 34 || c == 59 || is_word_start c)
    && not (c == 45 && next_is 45 rest)
    && not (c == 47 && next_is 42 rest)

-- Every segment is read as it was written, before those that follow it.
abbrev pub IsText : List Segment → Type 0
IsText [] = Unit
IsText (s ∷ ss) = (fits s (render_all ss) ≡ true) × IsText ss
