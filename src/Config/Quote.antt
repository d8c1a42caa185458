-- ===== src/Config/Quote.antt =====
-- The verb `%q` of package fmt, which is strconv.Quote, on strings that are valid UTF-8.
use e2e.Base.{
  ℕ, ◌+◌, ◌/◌, ◌%◌, Bool, ◌&&◌, ◌||◌, [], ◌∷◌, ◌++◌, Text, ltb, leb, ◌==◌, nat_eq, if◌then◌else◌,
}

-- A digit of a number in hexadecimal, in lower case.
unfoldable pub hex_digit : ℕ → ℕ
hex_digit d = if ltb d 10 then b'0' + d else 87 + d

unfoldable pub hex2 : ℕ → Text
hex2 n = hex_digit (n / 16 % 16) ∷ hex_digit (n % 16) ∷ []

unfoldable pub hex4 : ℕ → Text
hex4 n = hex2 (n / 256 % 256) ++ hex2 (n % 256)

unfoldable pub hex8 : ℕ → Text
hex8 n = hex4 (n / 65536 % 65536) ++ hex4 (n % 65536)

-- The tables of printable code points from 0x80 on are a parameter.
module _ (is_print : ℕ → Bool) where
  -- `strconv.IsPrint`
  unfoldable pub printable : ℕ → Bool
  printable c = if ltb c 0x80 then leb 32 c && ltb c 127 else is_print c

  -- `appendEscapedRune` with the quote `"`
  unfoldable pub escape_rune : ℕ → Text
  unfolding printable
  escape_rune c =
      if c == b'"' || c == b'\\'
      then b'\\' ∷ c ∷ []
      else if printable c
      then c ∷ []
      else if c == 7
      then b'\\' ∷ b'a' ∷ []
      else if c == 8
      then b'\\' ∷ b'b' ∷ []
      else if c == 12
      then b'\\' ∷ b'f' ∷ []
      else if c == 10
      then b'\\' ∷ b'n' ∷ []
      else if c == 13
      then b'\\' ∷ b'r' ∷ []
      else if c == 9
      then b'\\' ∷ b't' ∷ []
      else if c == 11
      then b'\\' ∷ b'v' ∷ []
      else if ltb c 32 || c == 127
      then b'\\' ∷ b'x' ∷ hex2 c
      else if ltb c 65536
      then b'\\' ∷ b'u' ∷ hex4 c
      else b'\\' ∷ b'U' ∷ hex8 c

  unfoldable pub escape : Text → Text
  escape [] = []
  escape (c ∷ s) = escape_rune c ++ escape s

  unfoldable pub quote : Text → Text
  unfolding escape
  quote s = b'"' ∷ (escape s ++ b'"' ∷ [])
