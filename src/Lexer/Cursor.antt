-- ===== src/Lexer/Cursor.antt =====
-- src/lexer/cursor.rs: the character cursor. The text behind the byte offset is the list of its
-- characters; the offset itself, which serves to slice the text, is the count of bytes read.
use yabumi.Common.{
  ℕ, suc, ◌+◌, ◌==◌, ltb, Bool, true, false, [], ◌∷◌, Option, some, none, if◌then◌else◌, Text,
}
use yabumi.Diagnostics.Position.{Position}

-- `char::len_utf8`
abbrev pub len_utf8 : ℕ → ℕ
len_utf8 c = if ltb c 0x80 then 1 else if ltb c 0x800 then 2 else if ltb c 0x10000 then 3 else 4

pub record Cursor : Type 0 where
  pub rest : Text
  pub byte_pos : ℕ
  pub position : Position

abbrev pub new : Text → Cursor
new s = record { rest = s; byte_pos = 0; position = record { line = 1; col = 1 } }

abbrev first : Text → Option ℕ
first [] = none
first (c ∷ cs) = some c

abbrev pub peek : Cursor → Option ℕ
peek c = first c.rest

abbrev second : Text → Option ℕ
second [] = none
second (c ∷ cs) = first cs

abbrev pub peek2 : Cursor → Option ℕ
peek2 c = second c.rest

abbrev pub advance : ℕ → Position → Position
advance c p =
    if c == 10
    then record { line = suc p.line; col = 1 }
    else record { line = p.line; col = suc p.col }

abbrev bump_in : Text → Cursor → Option ℕ × Cursor
bump_in [] c = (none, c)
bump_in (x ∷ xs) c = (
  some x,
  record { rest = xs; byte_pos = c.byte_pos + len_utf8 x; position = advance x c.position },
)

-- The character read, and the cursor behind it.
unfoldable pub bump : Cursor → Option ℕ × Cursor
bump c = bump_in c.rest c

abbrev pub is_eof : Cursor → Bool
is_eof c = at_end c.rest
  where
    at_end : Text → Bool
    at_end [] = true
    at_end (x ∷ xs) = false
