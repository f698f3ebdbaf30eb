-- ===== src/Webapp/Markdown.antt =====
-- wrappers/thewordDao.ts: the title in the description of a proposal, by regular expressions with
-- their backtracking. A text is a list of character codes.
use theword_monorepo.Prelude.{
  ℕ, zero, suc, Bool, false, ◌&&◌, ◌||◌, Option, none, some, [], ◌∷◌, leb, ◌==◌, if◌then◌else◌,
}
use theword_monorepo.Sdk.Hex.{Text}

-- The characters of `\s`.
unfoldable pub is_space : ℕ → Bool
is_space c =
    (leb 9 c && leb c 13)
    || (c == 32)
    || (c == 0xa0)
    || (c == 0x1680)
    || (leb 0x2000 c && leb c 0x200a)
    || (c == 0x2028)
    || (c == 0x2029)
    || (c == 0x202f)
    || (c == 0x205f)
    || (c == 0x3000)
    || (c == 0xfeff)

-- The first of two ways to match that succeeds.
abbrev pub or_else : Option Text → Option Text → Option Text
or_else none other = other
or_else (some t) other = some t

-- `\s*`, as many as possible first, and then the rest of the expression.
unfoldable pub spaces : (Text → Option Text) → Text → Option Text
spaces rest [] = rest []
spaces rest (c ∷ t) =
    let longer = spaces rest t in if is_space c then or_else longer (rest (c ∷ t)) else rest (c ∷ t)

-- `\s+`
abbrev pub some_spaces : (Text → Option Text) → Text → Option Text
some_spaces rest [] = none
some_spaces rest (c ∷ t) = if is_space c then spaces rest t else none

-- `#{0,n}`, as many as possible first.
unfoldable pub hashes : ℕ → (Text → Option Text) → Text → Option Text
hashes zero rest t = rest t
hashes (suc n) rest [] = rest []
hashes (suc n) rest (c ∷ t) =
    let longer = hashes n rest t in
    if c == b'#' then or_else longer (rest (c ∷ t)) else rest (c ∷ t)

-- `#{1,6}`
abbrev pub some_hashes : (Text → Option Text) → Text → Option Text
some_hashes rest [] = none
some_hashes rest (c ∷ t) = if c == b'#' then hashes 5 rest t else none

-- The text up to the end of its line, and what follows.
abbrev pub line : Text → Text
line [] = []
line (c ∷ t) = let rest = line t in if c == 10 then [] else c ∷ rest

abbrev pub after_line : Text → Text
after_line [] = []
after_line (c ∷ t) = let rest = after_line t in if c == 10 then c ∷ t else rest

abbrev pub nonempty : Text → Option Text
nonempty [] = none
nonempty (c ∷ t) = some (c ∷ t)

-- The group `([^\n]+)`
abbrev pub title_line : Text → Option Text
title_line t = nonempty (line t)

unfoldable pub extract_hash_title : Text → Option Text
extract_hash_title body = spaces (some_hashes (some_spaces title_line)) body

abbrev pub is_underline : ℕ → Text → Bool
is_underline c (x ∷ y ∷ z ∷ t) = (x == c) && (y == c) && (z == c)
is_underline c _ = false

-- A line, its end, and three `=` or three `-` at least.
abbrev pub underlined_after : Text → Text → Option Text
underlined_after title [] = none
underlined_after title (c ∷ t) =
    if is_underline b'=' t || is_underline b'-' t then nonempty title else none

abbrev pub underlined : Text → Option Text
underlined t = underlined_after (line t) (after_line t)

unfoldable pub extract_equal_title : Text → Option Text
extract_equal_title body = spaces underlined body

-- A body that is missing or empty has no title.
unfoldable pub extract_title : Option Text → Option Text
extract_title none = none
extract_title (some []) = none
extract_title (some (c ∷ t)) = or_else (extract_hash_title (c ∷ t)) (extract_equal_title (c ∷ t))

-- `text.replace(/cc/g, '')`: each pair of the character is removed, from the left.
unfoldable pub remove_pairs : ℕ → Text → Text
remove_pairs c [] = []
remove_pairs c (x ∷ []) = x ∷ []
remove_pairs c (x ∷ y ∷ t) =
    let rest = remove_pairs c t in
    let later = remove_pairs c (y ∷ t) in if (x == c) && (y == c) then rest else x ∷ later

abbrev pub remove_markdown_style : Option Text → Option Text
remove_markdown_style none = none
remove_markdown_style (some t) = some (remove_pairs b'*' (remove_pairs b'_' t))

-- `text.replace(/\\n/g, '\n')`: a backslash and an `n` are a new line.
unfoldable pub unescape_lines : Text → Text
unescape_lines [] = []
unescape_lines (x ∷ []) = x ∷ []
unescape_lines (x ∷ y ∷ t) =
    let rest = unescape_lines t in
    let later = unescape_lines (y ∷ t) in if (x == 92) && (y == b'n') then 10 ∷ rest else x ∷ later

abbrev pub untitled : Text
untitled = b'U' ∷ b'n' ∷ b't' ∷ b'i' ∷ b't' ∷ b'l' ∷ b'e' ∷ b'd' ∷ []

abbrev pub or_default : {A : Type 0} → A → Option A → A
or_default a none = a
or_default a (some b) = b

unfoldable pub title_of : Option Text → Text
title_of description = or_default untitled (remove_markdown_style (extract_title description))
