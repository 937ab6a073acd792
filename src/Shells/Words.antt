-- ===== src/Shells/Words.antt =====
-- `arg.split()`, `arg.split(' ')` with its first piece, `text in name`, and lists of integers in a
-- command.
use pyaseba.Base.{Option, none, some, List, [], ◌∷◌, Text, if◌then◌else◌, ℤ}
use pyaseba.Base.Texts.{push_head, has_substring}
use pyaseba.Base.Lines.{is_space}
use pyaseba.Base.Numerals.{int_of}

-- The pieces between white space, the empty ones too.
unfoldable pub split_spaces : Text → List Text
split_spaces [] = [] ∷ []
split_spaces (c ∷ s) =
    let rest = split_spaces s in if is_space c then [] ∷ rest else push_head c rest

abbrev pub drop_empty : List Text → List Text
drop_empty [] = []
drop_empty ([] ∷ pieces) = drop_empty pieces
drop_empty ((c ∷ piece) ∷ pieces) = (c ∷ piece) ∷ drop_empty pieces

-- `s.split()`
unfoldable pub split_words : Text → List Text
unfolding split_spaces
split_words s = drop_empty (split_spaces s)

-- The first of the pieces, if there is any.
abbrev pub head_of : List Text → Option Text
head_of [] = none
head_of (piece ∷ pieces) = some piece

abbrev pub both : Option ℤ → Option (List ℤ) → Option (List ℤ)
both none rest = none
both (some n) none = none
both (some n) (some ns) = some (n ∷ ns)

-- `[int(x) for x in xs]`; none if a piece is no numeral.
unfoldable pub ints_of : List Text → Option (List ℤ)
unfolding int_of
ints_of [] = some []
ints_of (x ∷ xs) = both (int_of x) (ints_of xs)

-- `[i for i in options if text in i]`
unfoldable pub matching : Text → List Text → List Text
unfolding has_substring
matching part [] = []
matching part (option ∷ options) =
    let rest = matching part options in if has_substring part option then option ∷ rest else rest
