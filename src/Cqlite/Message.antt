-- ===== src/Cqlite/Message.antt =====
-- `readable_error` of backend/app/db/cqlite_client.py. A text is the list of its code points. The loop
-- has fuel; that it is enough is shown in Stripped.
use open_htap_stack.Prelude.{
  ℕ, zero, suc, ◌+◌, Bool, true, false, ◌||◌, Option, none, some, List, [], ◌∷◌, ◌++◌,
  if◌then◌else◌, length, take,
}
use open_htap_stack.Prelude.Chars.{codes, split, behind}

-- `" ".join(words)`
unfoldable pub join : List (List ℕ) → List ℕ
join [] = []
join (w ∷ []) = w
join (w ∷ v ∷ ws) = w ++ 32 ∷ join (v ∷ ws)

abbrev pub prefixes : List (List ℕ)
prefixes =
    codes "FFI error: "
    ∷ codes "DataFusion error: "
    ∷ codes "Execution error: "
    ∷ codes "External error: "
    ∷ codes "cqlite: "
    ∷ []

-- The body of the `for` loop, with what `behind` gives.
unfoldable pub strip_one : Option (List ℕ) → List ℕ → Bool × List ℕ
strip_one none text = (false, text)
strip_one (some rest) text = (true, rest)

-- The `for` loop: whether a prefix was stripped, and the text.
unfoldable pub sweep : List (List ℕ) → List ℕ → Bool × List ℕ
unfolding behind strip_one
sweep [] text = (false, text)
sweep (p ∷ ps) text =
    let (here, after) = strip_one (behind p text) text in
    let (later, rest) = sweep ps after in (here || later, rest)

-- The `while` loop; `none` where the fuel runs out.
unfoldable pub strip_all : ℕ → List (List ℕ) → List ℕ → Option (List ℕ)
unfolding sweep
strip_all zero ps text = none
strip_all (suc fuel) ps text =
    let (stripped, rest) = sweep ps text in
    let again = strip_all fuel ps rest in if stripped then again else some rest

abbrev pub message_limit : ℕ
message_limit = 400

abbrev pub cut : Option (List ℕ) → List ℕ
cut none = []
cut (some text) = take message_limit text

unfoldable pub readable_error : List ℕ → List ℕ
unfolding split join strip_all
readable_error error =
    let text = join (split [] error) in cut (strip_all (length text + 1) prefixes text)
