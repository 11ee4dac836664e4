-- ===== src/Prelude/Chars.antt =====
-- Texts as lists of code points, where the program looks into them.
use Prim.Native.Char.{code}
use Prim.Native.String.{String}
use Prim.Native.Nat.{ℕ, ◌+◌}
use mathlib.Core.Bool.{Bool, ◌&&◌, ◌||◌}
use mathlib.Core.List.{List, [], ◌∷◌, ◌++◌}
use mathlib.Core.Option.{Option, none, some}
use open_htap_stack.Prelude.Tests.{leb, ◌==◌, if◌then◌else◌}

abbrev pub codes : String → List ℕ
codes String.[] = []
codes (String.◌∷◌ c s) = code c ∷ codes s

-- `str.lower`, as far as a token can tell: the two code points outside ASCII whose lower case has an
-- ASCII letter are the Kelvin sign and the dotted capital I.
unfoldable pub lower : List ℕ → List ℕ
lower [] = []
lower (c ∷ cs) =
    let rest = lower cs in
    if leb 65 c && leb c 90
    then (c + 32) ∷ rest
    else if c == 8490
    then 107 ∷ rest
    else if c == 304
    then 105 ∷ 775 ∷ rest
    else c ∷ rest

-- What `str.strip` and `str.split` take for white space.
unfoldable pub is_space : ℕ → Bool
is_space c =
    (leb 9 c && leb c 13)
    || (leb 28 c && leb c 32)
    || c == 133
    || c == 160
    || c == 5760
    || (leb 8192 c && leb c 8202)
    || c == 8232
    || c == 8233
    || c == 8239
    || c == 8287
    || c == 12288

abbrev pub flush_word : List ℕ → List (List ℕ) → List (List ℕ)
flush_word [] words = words
flush_word (c ∷ cs) words = (c ∷ cs) ∷ words

-- `text.split()`; the first list is the word so far.
unfoldable pub split : List ℕ → List ℕ → List (List ℕ)
unfolding is_space
split word [] = flush_word word []
split word (c ∷ cs) =
    let longer = split (word ++ c ∷ []) cs in
    let fresh = split [] cs in if is_space c then flush_word word fresh else longer

-- `text[len(prefix):]`, where the text starts with the prefix.
unfoldable pub behind : List ℕ → List ℕ → Option (List ℕ)
behind [] text = some text
behind (p ∷ ps) [] = none
behind (p ∷ ps) (c ∷ cs) = if p == c then behind ps cs else none
