-- ===== src/Buffer.antt =====
-- Node's `Buffer` as the list of its bytes, and the conversions to and from hexadecimal text.
use Prim.Native.Char.{code}
use chain_nodelib.Prelude.{
  ℕ, ◌+◌, ◌-◌, ◌*◌, ◌/◌, ◌%◌, String, Bool, true, false, ◌&&◌, ◌||◌, List, [], ◌∷◌, ltb, leb, ◌==◌,
  if◌then◌else◌,
}

abbrev pub Buffer : Type 0
Buffer = List ℕ

-- The code points of a text.
abbrev pub codes : String → List ℕ
codes String.[] = []
codes (String.◌∷◌ c s) = code c ∷ codes s

-- `[0-9A-Fa-f]`
abbrev pub is_hex_digit : ℕ → Bool
is_hex_digit c =
    (leb b'0' c && leb c b'9') || (leb b'A' c && leb c b'F') || (leb b'a' c && leb c b'f')

abbrev pub hex_value : ℕ → ℕ
hex_value c = if leb c b'9' then c - b'0' else if leb c b'F' then c - 55 else c - 87

-- `buffer.toString('hex')`, in lower case
abbrev pub hex_digit : ℕ → ℕ
hex_digit d = if ltb d 10 then d + b'0' else d + 87

abbrev pub to_hex : Buffer → List ℕ
to_hex [] = []
to_hex (b ∷ bs) = hex_digit (b / 16) ∷ hex_digit (b % 16) ∷ to_hex bs

-- `Buffer.from(text, 'hex')`: it stops at the first pair that is not hexadecimal
abbrev pub from_hex : List ℕ → Buffer
from_hex [] = []
from_hex (h ∷ []) = []
from_hex (h ∷ l ∷ cs) =
    if is_hex_digit h && is_hex_digit l then (hex_value h * 16 + hex_value l) ∷ from_hex cs else []

-- `text.toUpperCase()`, on hexadecimal digits
abbrev pub to_upper_case : List ℕ → List ℕ
to_upper_case [] = []
to_upper_case (c ∷ cs) = (if leb b'a' c && leb c b'z' then c - 32 else c) ∷ to_upper_case cs

-- `===` on texts that are given by their code points
abbrev pub same_text : List ℕ → List ℕ → Bool
same_text [] [] = true
same_text [] (y ∷ ys) = false
same_text (x ∷ xs) [] = false
same_text (x ∷ xs) (y ∷ ys) = x == y && same_text xs ys
