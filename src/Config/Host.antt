-- ===== src/Config/Host.antt =====
-- The host and port of a URL, as net/url and net split and join them.
use e2e.Base.{
  ℕ, ◌+◌, Bool, true, false, ◌&&◌, ◌||◌, Option, none, some, [], ◌∷◌, ◌++◌, Text, leb, ◌==◌, nat_eq,
  if◌then◌else◌,
}

-- A text cut at the last place where a character stands.
unfoldable pub cut_last : ℕ → Text → Option (Text × Text)
cut_last sep [] = none
cut_last sep (c ∷ s) = elim (cut_last sep s) [
  | some (before, after) ↦ some (c ∷ before, after)
  | none ↦ if c == sep then some ([], s) else none
]

unfoldable pub all_digits : Text → Bool
all_digits [] = true
all_digits (c ∷ s) = (leb b'0' c && leb c b'9') && all_digits s

unfoldable pub contains_char : ℕ → Text → Bool
contains_char x [] = false
contains_char x (c ∷ s) = c == x || contains_char x s

-- A host that is written in brackets, without them.
unfoldable pub strip_brackets : Text → Text
unfolding cut_last
strip_brackets [] = []
strip_brackets (c ∷ s) = elim (cut_last b']' s) [
  | some (inner, []) ↦ if c == b'[' then inner else c ∷ s
  | _ ↦ c ∷ s
]

-- `splitHostPort` of net/url: `URL.Hostname` and `URL.Port`.
unfoldable pub split_host_port : Text → Text × Text
unfolding strip_brackets all_digits cut_last
split_host_port h = elim (cut_last b':' h) [
  | none ↦ (strip_brackets h, [])
  | some (before, after) ↦
      if all_digits after then (strip_brackets before, after) else (strip_brackets h, [])
]

-- `net.JoinHostPort`
unfoldable pub join_host_port : Text → Text → Text
unfolding contains_char
join_host_port host port =
    if contains_char b':' host then b'[' ∷ (host ++ b']' ∷ b':' ∷ port) else host ++ b':' ∷ port

-- Letters without their case. It compares a text with an ASCII text as `strings.EqualFold` does:
-- the only other code points that fold to ASCII letters are the long s and the Kelvin sign.
unfoldable pub fold : ℕ → ℕ
fold c =
    if leb b'A' c && leb c b'Z'
    then c + 32
    else if c == 0x17f
    then b's'
    else if c == 0x212a
    then b'k'
    else c

unfoldable pub equal_fold : Text → Text → Bool
unfolding fold
equal_fold [] [] = true
equal_fold (c ∷ s) (d ∷ t) = fold c == fold d && equal_fold s t
equal_fold _ _ = false
