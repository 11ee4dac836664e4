-- ===== src/Cdc/Shown.antt =====
-- What the page shows of a blob in backend/app/routes/streaming.py: its base64 text tells the bytes.
use open_htap_stack.Prelude.{
  ℕ, ◌+◌, ◌-◌, ◌*◌, ◌/◌, ◌%◌, ◌<◌, ◌≡◌, refl, ap, sym, ◌∙◌, List, [], ◌∷◌, ◌++◌, All, ltb, ◌==◌,
  if◌then◌else◌, arith, false,
}
use open_htap_stack.Cdc.Values.{
  bytes, json_safe, b64encode, base64_char, Json, atom, object, member_then, text,
}

abbrev pub IsByte : ℕ → Type 0
IsByte b = b < 256

-- The place of a character in the alphabet.
sextet : ℕ → ℕ
sextet c =
    if ltb 96 c
    then c - 71
    else if ltb 64 c
    then c - 65
    else if ltb 47 c
    then c + 4
    else if c == 43
    then 62
    else 63

sextet-base64_char : (n : ℕ) → n < 64 → sextet (base64_char n) ≡ n
unfolding sextet base64_char
sextet-base64_char n h = ground arith

base64_char-ne_pad : (n : ℕ) → n < 64 → (base64_char n == 61) ≡ false
unfolding base64_char
base64_char-ne_pad n h = ground arith

-- Four characters back to the bytes that they stand for.
last_bytes : ℕ → ℕ → ℕ → ℕ → List ℕ
last_bytes a b c d =
    if c == 61
    then (sextet a * 4 + sextet b / 16) ∷ []
    else if d == 61
    then (sextet a * 4 + sextet b / 16) ∷ (sextet b % 16 * 16 + sextet c / 4) ∷ []
    else (sextet a * 4 + sextet b / 16)
      ∷ (sextet b % 16 * 16 + sextet c / 4)
      ∷ (sextet c % 4 * 64 + sextet d)
      ∷ []

from_base64 : List ℕ → List ℕ
unfolding last_bytes
from_base64 (a ∷ b ∷ c ∷ d ∷ rest) = last_bytes a b c d ++ from_base64 rest
from_base64 _ = []

one_byte :
    (a : ℕ) → a < 256 → last_bytes (base64_char (a / 4)) (base64_char (a % 4 * 16)) 61 61 ≡ a ∷ []
unfolding last_bytes
one_byte a h = ground (arith, sextet-base64_char (a / 4), sextet-base64_char (a % 4 * 16))

two_bytes :
    (a b : ℕ)
    → a < 256
    → b < 256
    → last_bytes
        (base64_char (a / 4))
        (base64_char (a % 4 * 16 + b / 16))
        (base64_char (b % 16 * 4))
        61
      ≡ a ∷ b ∷ []
unfolding last_bytes
two_bytes a b h k = rw (base64_char-ne_pad (b % 16 * 4) (omega arith)) (
    ground (
      arith,
      sextet-base64_char (a / 4),
      sextet-base64_char (a % 4 * 16 + b / 16),
      sextet-base64_char (b % 16 * 4),
    ))

three_bytes :
    (a b c : ℕ)
    → a < 256
    → b < 256
    → c < 256
    → last_bytes
        (base64_char (a / 4))
        (base64_char (a % 4 * 16 + b / 16))
        (base64_char (b % 16 * 4 + c / 64))
        (base64_char (c % 64))
      ≡ a ∷ b ∷ c ∷ []
unfolding last_bytes
three_bytes a b c h k l =
    rw
      (
        base64_char-ne_pad (b % 16 * 4 + c / 64) (omega arith),
        base64_char-ne_pad (c % 64) (omega arith),
      )
      (ground (
        arith,
        sextet-base64_char (a / 4),
        sextet-base64_char (a % 4 * 16 + b / 16),
        sextet-base64_char (b % 16 * 4 + c / 64),
        sextet-base64_char (c % 64),
      ))

from_base64-b64encode : (bs : List ℕ) → All IsByte bs → from_base64 (b64encode bs) ≡ bs
unfolding from_base64 b64encode
from_base64-b64encode [] h = refl
from_base64-b64encode (a ∷ []) h = ap (λ (l : List ℕ). l ++ []) (one_byte a h.0)
from_base64-b64encode (a ∷ b ∷ []) h = ap (λ (l : List ℕ). l ++ []) (two_bytes a b h.0 h.1.0)
from_base64-b64encode (a ∷ b ∷ c ∷ rest) h =
    rw (three_bytes a b c h.0 h.1.0 h.1.1.0, from_base64-b64encode rest h.1.1.1)

-- The bytes behind what the page was sent for a blob.
abbrev blob_of : Json → List ℕ
blob_of (object (member_then name (atom (text shown)) rest)) = from_base64 shown
blob_of other = []

-- What the page is sent for a blob tells every byte of it: two blobs that are shown alike are the same
-- bytes.
pub json_safe-bytes_reversible :
    (a b : List ℕ) → All IsByte a → All IsByte b → json_safe (bytes a) ≡ json_safe (bytes b) → a ≡ b
unfolding json_safe
json_safe-bytes_reversible a b ha hb same =
    sym (from_base64-b64encode a ha) ∙ ap blob_of same ∙ from_base64-b64encode b hb
