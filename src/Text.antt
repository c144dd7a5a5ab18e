-- ===== src/Text.antt =====
-- The functions of Go's `strings` and `strconv` that the program calls, over texts as lists of
-- bytes. Texts are ASCII: there the byte, rune and Unicode versions of these functions agree.
pub mod Laws
pub mod Trim
pub mod Order
pub mod HostPort
use Prim.Native.Char.{code}
use caddy_reverse_proxy.Common.{
  ℕ, zero, suc, ◌+◌, ◌-◌, ◌*◌, ◌/◌, ◌%◌, ◌^◌, String, Bool, true, false, ◌&&◌, ◌||◌, Option, none,
  some, List, [], ◌∷◌, ◌++◌, map, ltb, leb, eqb, if◌then◌else◌, any,
}
use caddy_reverse_proxy.Common.Int.{ℤ, pos, negsuc}

abbrev pub Text : Type 0
Text = List ℕ

-- The bytes of a literal.
abbrev pub codes : String → Text
codes String.[] = []
codes (String.◌∷◌ c s) = code c ∷ codes s

infix 50 ◌==◌
unfoldable pub ◌==◌ : Text → Text → Bool
◌==◌ [] [] = true
◌==◌ (a ∷ s) (b ∷ t) = eqb a b && s == t
◌==◌ _ _ = false

-- The ASCII characters of unicode.IsSpace.
abbrev pub is_space : ℕ → Bool
is_space c = eqb c 32 || leb 9 c && leb c 13

abbrev pub is_lower : ℕ → Bool
is_lower c = leb b'a' c && leb c b'z'

abbrev pub is_upper : ℕ → Bool
is_upper c = leb b'A' c && leb c b'Z'

abbrev pub is_digit : ℕ → Bool
is_digit c = leb b'0' c && leb c b'9'

unfoldable pub lower : ℕ → ℕ
lower c = if is_upper c then c + 32 else c

unfoldable pub upper : ℕ → ℕ
upper c = if is_lower c then c - 32 else c

-- strings.ToLower, strings.ToUpper
unfoldable pub to_lower : Text → Text
unfolding lower
to_lower s = map lower s

unfoldable pub to_upper : Text → Text
unfolding upper
to_upper s = map upper s

-- strings.TrimLeftFunc
unfoldable pub trim_left : (ℕ → Bool) → Text → Text
trim_left p [] = []
trim_left p (c ∷ s) = if p c then trim_left p s else c ∷ s

abbrev pub push_kept : (ℕ → Bool) → ℕ → Text → Text
push_kept p c [] = if p c then [] else c ∷ []
push_kept p c (d ∷ s) = c ∷ d ∷ s

-- strings.TrimRightFunc
unfoldable pub trim_right : (ℕ → Bool) → Text → Text
trim_right p [] = []
trim_right p (c ∷ s) = push_kept p c (trim_right p s)

-- strings.TrimFunc
unfoldable pub trim : (ℕ → Bool) → Text → Text
unfolding trim_left trim_right
trim p s = trim_right p (trim_left p s)

-- strings.TrimSpace
unfoldable pub trim_space : Text → Text
unfolding trim
trim_space s = trim is_space s

unfoldable pub has_prefix : Text → Text → Bool
has_prefix s [] = true
has_prefix [] (d ∷ p) = false
has_prefix (c ∷ s) (d ∷ p) = eqb c d && has_prefix s p

unfoldable pub drop : ℕ → Text → Text
drop zero s = s
drop (suc n) [] = []
drop (suc n) (c ∷ s) = drop n s

-- strings.TrimSuffix(s, ".")
unfoldable pub trim_suffix_dot : Text → Text
trim_suffix_dot [] = []
trim_suffix_dot (c ∷ []) = if eqb c b'.' then [] else c ∷ []
trim_suffix_dot (c ∷ d ∷ s) = c ∷ trim_suffix_dot (d ∷ s)

-- strings.Contains of one character, and strings.ContainsAny.
unfoldable pub contains : ℕ → Text → Bool
unfolding any
contains d s = any (eqb d) s

unfoldable pub contains_any : Text → Text → Bool
unfolding contains
contains_any cutset s = any (λ c. contains c cutset) s

abbrev push_first : ℕ → List Text → List Text
push_first c [] = (c ∷ []) ∷ []
push_first c (w ∷ ws) = (c ∷ w) ∷ ws

-- strings.Split at one character: never empty.
unfoldable pub split : ℕ → Text → List Text
split d [] = [] ∷ []
split d (c ∷ s) = let rest = split d s in if eqb c d then [] ∷ rest else push_first c rest

unfoldable pub last_or : ℕ → Text → ℕ
last_or c [] = c
last_or c (d ∷ s) = last_or d s

-- The digits of a number below 10 ^ fuel, in front of `rest`.
decimal_from : ℕ → ℕ → Text → Text
decimal_from zero n rest = rest
decimal_from (suc fuel) n rest =
    let digit = b'0' + n % 10 in
    let more = decimal_from fuel (n / 10) (digit ∷ rest) in if ltb n 10 then digit ∷ rest else more

-- strconv.Itoa; a number n has at most n + 1 digits.
unfoldable pub itoa : ℤ → Text
unfolding decimal_from
itoa (pos n) = decimal_from (suc n) n []
itoa (negsuc n) = b'-' ∷ decimal_from (suc (suc n)) (suc n) []

digits_value : ℕ → Text → Option ℕ
digits_value acc [] = some acc
digits_value acc (c ∷ s) = if is_digit c then digits_value (acc * 10 + (c - b'0')) s else none

unsigned_value : Text → Option ℕ
unsigned_value [] = none
unsigned_value (c ∷ s) = digits_value 0 (c ∷ s)

abbrev bounded : ℕ → (ℕ → ℤ) → Option ℕ → Option ℤ
bounded limit sign none = none
bounded limit sign (some n) = if ltb limit n then none else some (sign n)

abbrev negative : ℕ → ℤ
negative zero = pos 0
negative (suc n) = negsuc n

-- strconv.Atoi on a 64-bit machine; `none` for its syntax and range errors.
unfoldable pub atoi : Text → Option ℤ
unfolding digits_value unsigned_value
atoi [] = none
atoi (c ∷ s) =
    if eqb c b'-'
    then bounded (2 ^ 63) negative (unsigned_value s)
    else if eqb c b'+'
    then bounded (2 ^ 63 - 1) pos (unsigned_value s)
    else bounded (2 ^ 63 - 1) pos (unsigned_value (c ∷ s))
