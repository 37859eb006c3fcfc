-- ===== src/HdWallet/Format.antt =====
-- The format path of `derivef`: its placeholders are filled with the arguments in their order.
use native.Mathlib.Nat.{pow-suc}
use chain_nodelib.Prelude.{
  ℕ, zero, suc, ◌+◌, ◌-◌, ◌*◌, ◌/◌, ◌%◌, ◌^◌, ◌<◌, ◌≡◌, ◌≢◌, refl, List, [], ◌∷◌, ◌++◌, arith, ltb,
  length, map, none, some, All, if◌then◌else◌,
}
use chain_nodelib.Method.{ok, err, thrown}
use chain_nodelib.Number.{whole}
use chain_nodelib.HdWallet.{
  word, opening, closing, kind, decimal, number_text, Formatted, prepend, scan, ow_uint32s, format,
}

-- A format path as its author means it: characters, and placeholders with a name.
pub data Piece : Type 0 where
  char : ℕ → Piece
  placeholder : List ℕ → Piece

abbrev pub print : List Piece → List ℕ
print [] = []
print (char c ∷ ps) = c ∷ print ps
print (placeholder name ∷ ps) = (b'{' ∷ name) ++ b'}' ∷ print ps

-- No character opens a placeholder, and the names are made of word characters.
abbrev pub IsPiece : Piece → Type 0
IsPiece (char c) = kind c ≢ opening
IsPiece (placeholder name) = All (λ c. kind c ≡ word) name

abbrev pub placeholders : List Piece → ℕ
placeholders [] = 0
placeholders (char c ∷ ps) = placeholders ps
placeholders (placeholder name ∷ ps) = suc (placeholders ps)

-- The text with the numbers in the places of the placeholders.
abbrev pub filled : List Piece → List ℕ → List ℕ
filled [] ns = []
filled (char c ∷ ps) ns = c ∷ filled ps ns
filled (placeholder name ∷ ps) [] = filled ps []
filled (placeholder name ∷ ps) (n ∷ ns) = number_text n ++ filled ps ns

-- What the scan answers for a printed format path.
abbrev fill : List Piece → List ℕ → Formatted
fill [] ns = ok ([], ns)
fill (char c ∷ ps) ns = prepend (c ∷ []) (fill ps ns)
fill (placeholder name ∷ ps) [] = err (thrown "Insufficient argument for format path")
fill (placeholder name ∷ ps) (n ∷ ns) = prepend (number_text n) (fill ps ns)

kind_opening : kind b'{' ≡ opening
unfolding kind
kind_opening = refl

kind_closing : kind b'}' ≡ closing
unfolding kind
kind_closing = refl

scan-name :
    (before name cs ns : List ℕ)
    → All (λ c. kind c ≡ word) name
    → scan (some before) (name ++ b'}' ∷ cs) ns ≡ scan (some []) (b'}' ∷ cs) ns
unfolding scan
scan-name before [] cs ns h = ground (arith, kind_closing)
scan-name before (c ∷ name) cs ns (w, h) = rw (w, scan) (scan-name (before ++ c ∷ []) name cs ns h)

scan-print : (ps : List Piece) (ns : List ℕ) → All IsPiece ps → scan none (print ps) ns ≡ fill ps ns
unfolding scan
scan-print [] ns h = refl
scan-print (char c ∷ ps) ns (p, h) = ground (arith, scan-print ps ns h)
scan-print (placeholder name ∷ ps) [] (p, h) =
    ground (arith, kind_opening, kind_closing, scan-name [] name (print ps) [] p)
scan-print (placeholder name ∷ ps) (n ∷ ns) (p, h) =
    ground (
      arith,
      kind_opening,
      kind_closing,
      scan-name [] name (print ps) (n ∷ ns) p,
      scan-print ps ns h,
    )

-- The numbers that no placeholder takes.
abbrev unused : List Piece → List ℕ → List ℕ
unused [] ns = ns
unused (char c ∷ ps) ns = unused ps ns
unused (placeholder name ∷ ps) [] = []
unused (placeholder name ∷ ps) (n ∷ ns) = unused ps ns

length-unused :
    (ps : List Piece) (ns : List ℕ) → length (unused ps ns) ≡ length ns - placeholders ps
length-unused [] ns = omega arith
length-unused (char c ∷ ps) ns = length-unused ps ns
length-unused (placeholder name ∷ ps) [] = omega arith
length-unused (placeholder name ∷ ps) (n ∷ ns) = omega (arith, length-unused ps ns)

fill-result :
    (ps : List Piece) (ns : List ℕ)
    → fill ps ns ≡ (
        if ltb (length ns) (placeholders ps)
        then err (thrown "Insufficient argument for format path")
        else ok (filled ps ns, unused ps ns))
fill-result [] ns = ground arith
fill-result (char c ∷ ps) ns = ground (arith, fill-result ps ns)
fill-result (placeholder name ∷ ps) [] = ground arith
fill-result (placeholder name ∷ ps) (n ∷ ns) = ground (arith, fill-result ps ns)

ow_uint32s-map : (ns : List ℕ) → All (λ n. n < 2 ^ 32) ns → ow_uint32s (map whole ns) ≡ ok ns
ow_uint32s-map [] h = refl
ow_uint32s-map (n ∷ ns) (p, h) = ground (arith, ow_uint32s-map ns h)

-- A format path with as many placeholders as there are 32-bit arguments becomes the text with the
-- arguments in the places of the placeholders, in order; with more placeholders `derivef` throws
-- that arguments are missing, and with fewer that an argument is never used.
pub format-print :
    (ps : List Piece) (ns : List ℕ)
    → All IsPiece ps
    → All (λ n. n < 2 ^ 32) ns
    → format (print ps) (map whole ns) ≡ (
        if ltb (length ns) (placeholders ps)
        then err (thrown "Insufficient argument for format path")
        else if ltb (placeholders ps) (length ns)
        then err (thrown "Argument never used")
        else ok (filled ps ns))
unfolding format
format-print ps ns h k =
    ground (arith, ow_uint32s-map ns k, scan-print ps ns h, fill-result ps ns, length-unused ps ns)

-- The number that a text of decimal digits stands for, behind digits that stand for `start`.
abbrev pub read : ℕ → List ℕ → ℕ
read start [] = start
read start (c ∷ cs) = read (start * 10 + (c - b'0')) cs

read-concat :
    (cs : List ℕ) (start c : ℕ) → read start (cs ++ c ∷ []) ≡ read start cs * 10 + (c - b'0')
read-concat [] start c = refl
read-concat (d ∷ cs) start c = read-concat cs (start * 10 + (d - b'0')) c

read-decimal : (digits n : ℕ) → n < 10 ^ digits → read 0 (decimal digits n) ≡ n
unfolding decimal
read-decimal zero n h = omega arith
read-decimal (suc digits) n h =
    let bound : n < 10 ^ digits * 10 = omega (arith, pow-suc 10 digits) in
    ground (
      arith,
      read-decimal digits (n / 10) (omega arith),
      read-concat (decimal digits (n / 10)) 0 (b'0' + n % 10),
    )

-- The text of a number that `derivef` admits stands for that number: ten digits are enough.
pub read-number_text : (n : ℕ) → n < 2 ^ 32 → read 0 (number_text n) ≡ n
read-number_text n h = read-decimal 10 n (omega arith)
