-- ===== src/Logger/Text.antt =====
-- Text as the logger of src/logger handles it: bytes, decimal numbers, `strncpy`.
use Prim.Native.Char.{code}
use Prim.Native.String.{String}
use ttserver.Base.{
  ℕ, zero, suc, ◌+◌, ◌-◌, ◌*◌, ◌/◌, ◌%◌, List, [], ◌∷◌, ◌++◌, ltb, ◌==◌, if◌then◌else◌, take,
  length, replicate,
}

-- The bytes of an ASCII text.
abbrev pub codes : String → List ℕ
codes String.[] = []
codes (String.◌∷◌ c s) = code c ∷ codes s

-- The decimal digits of a number below 10 ^ fuel.
unfoldable pub digits : ℕ → ℕ → List ℕ
digits zero n = []
digits (suc fuel) n =
    let higher = digits fuel (n / 10) in
    if ltb n 10 then (b'0' + n) ∷ [] else higher ++ (b'0' + n % 10) ∷ []

-- `std::to_string` of an unsigned integer, and `<<` of one: at most 20 digits.
unfoldable pub to_string : ℕ → List ℕ
to_string n = digits 20 n

-- The bytes in front of the first zero.
unfoldable pub until_nul : List ℕ → List ℕ
until_nul [] = []
until_nul (c ∷ s) = if c == 0 then [] else c ∷ until_nul s

-- `strncpy`: what it puts into a buffer of `n` bytes.
unfoldable pub strncpy : ℕ → List ℕ → List ℕ
unfolding until_nul
strncpy n s = let copied = take n (until_nul s) in copied ++ replicate (n - length copied) 0

-- The number that digits stand for.
unfoldable pub number_of : ℕ → List ℕ → ℕ
number_of acc [] = acc
number_of acc (c ∷ s) = number_of (acc * 10 + (c - b'0')) s
