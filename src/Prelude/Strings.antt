-- ===== src/Prelude/Strings.antt =====
-- What the program uses of Go's packages `strings` and `strconv`, on texts as lists of byte values.
use Prim.Native.Nat.{ℕ, zero, suc, ◌+◌, ◌-◌, ◌*◌}
use mathlib.Core.Path.{◌≡◌, refl}
use mathlib.Core.Logic.{◌≢◌}
use mathlib.Core.Bool.{Bool, true, false, ◌&&◌, ◌||◌}
use mathlib.Core.Option.{Option, none, some}
use mathlib.Core.List.{List, [], ◌∷◌, ◌++◌, map, reverse}
use native.Mathlib.Omega.{arith}
use nyyu_market.Prelude.Lists.{All, length}
use nyyu_market.Prelude.Tests.{ltb, ◌==◌, if◌then◌else◌}
use nyyu_market.Prelude.Text.{Bytes}

abbrev pub upper_byte : ℕ → ℕ
upper_byte c = if ltb 96 c && ltb c 123 then c - 32 else c

abbrev pub lower_byte : ℕ → ℕ
lower_byte c = if ltb 64 c && ltb c 91 then c + 32 else c

-- `strings.ToUpper` and `strings.ToLower`
unfoldable pub to_upper : Bytes → Bytes
to_upper s = map upper_byte s

unfoldable pub to_lower : Bytes → Bytes
to_lower s = map lower_byte s

-- `strings.HasPrefix`, with what follows the prefix.
unfoldable pub cut_prefix : Bytes → Bytes → Option Bytes
cut_prefix [] s = some s
cut_prefix (a ∷ p) [] = none
cut_prefix (a ∷ p) (c ∷ s) = if a == c then cut_prefix p s else none

abbrev pub has_prefix : Bytes → Bytes → Bool
has_prefix p s = elim (cut_prefix p s) [ some rest ↦ true | none ↦ false ]

abbrev pub is_empty : Bytes → Bool
is_empty [] = true
is_empty (c ∷ s) = false

abbrev pub cut_step : ℕ → Option Bytes → Option (Bytes × Bytes) → Option (Bytes × Bytes)
cut_step c (some rest) later = some ([], rest)
cut_step c none none = none
cut_step c none (some (a, b)) = some (c ∷ a, b)

-- `strings.SplitN(s, sep, 2)` for a text `sep` that is not empty, `none` where `s` does not contain it.
unfoldable pub cut : Bytes → Bytes → Option (Bytes × Bytes)
cut sep [] = none
cut sep (c ∷ s) = cut_step c (cut_prefix sep (c ∷ s)) (cut sep s)

-- `strings.Contains`
abbrev pub contains : Bytes → Bytes → Bool
contains sep s = elim (cut sep s) [ some parts ↦ true | none ↦ false ]

abbrev pub is_space : ℕ → Bool
is_space c = (c == 32) || (ltb 8 c && ltb c 14)

unfoldable pub trim_left : Bytes → Bytes
trim_left [] = []
trim_left (c ∷ s) = let rest = trim_left s in if is_space c then rest else c ∷ s

-- `strings.TrimSpace` of an ASCII text.
unfoldable pub trim_space : Bytes → Bytes
trim_space s = reverse (trim_left (reverse (trim_left s)))

-- `strings.Split` at a byte; the first part, and those after it.
unfoldable pub split_from : ℕ → Bytes → Bytes × List Bytes
split_from sep [] = ([], [])
split_from sep (c ∷ s) =
    let (part, parts) = split_from sep s in
    if c == sep then ([], part ∷ parts) else (c ∷ part, parts)

abbrev pub split : ℕ → Bytes → List Bytes
split sep s = let (part, parts) = split_from sep s in part ∷ parts

abbrev pub add_front : ℕ → Option (Bytes × Bytes) → Option (Bytes × Bytes)
add_front c none = none
add_front c (some (a, b)) = some (c ∷ a, b)

-- `strings.SplitN(s, sep, 2)`, `none` where it does not give two parts.
unfoldable pub split_first : ℕ → Bytes → Option (Bytes × Bytes)
split_first sep [] = none
split_first sep (c ∷ s) =
    let rest = split_first sep s in if c == sep then some ([], s) else add_front c rest

-- `strings.ReplaceAll(s, sep, "")` for a byte.
unfoldable pub strip : ℕ → Bytes → Bytes
strip sep [] = []
strip sep (c ∷ s) = let rest = strip sep s in if c == sep then rest else c ∷ rest

abbrev pub replace_at : Bytes → ℕ → Bytes → (Bytes → Bytes) → Option Bytes → Bytes
replace_at new c s go none = c ∷ go s
replace_at new c s go (some rest) = new ++ go rest

-- `strings.ReplaceAll` of a text that is not empty; each round takes one byte at least.
unfoldable pub replace_from : ℕ → Bytes → Bytes → Bytes → Bytes
replace_from zero old new s = s
replace_from (suc k) old new [] = []
replace_from (suc k) old new (c ∷ s) =
    replace_at new c s (replace_from k old new) (cut_prefix old (c ∷ s))

abbrev pub replace_all : Bytes → Bytes → Bytes → Bytes
replace_all old new s = replace_from (length s) old new s

-- The integer of a JSON number or of `strconv.ParseInt`: its sign and its size.
abbrev pub Integer : Type 0
Integer = Bool × ℕ

abbrev pub is_digit : ℕ → Bool
is_digit c = ltb 47 c && ltb c 58

digits : ℕ → Bytes → Option ℕ
digits a [] = some a
digits a (c ∷ s) = let rest = digits (a * 10 + (c - b'0')) s in if is_digit c then rest else none

-- One digit at least.
number_of : Bytes → Option ℕ
unfolding digits
number_of [] = none
number_of (c ∷ s) = digits 0 (c ∷ s)

-- What is returned beside an error is taken: zero for a bad text, the last value within reach.
clamp : Bool → Option ℕ → Integer
clamp negative none = (false, 0)
clamp true (some n) = (true, if ltb 9223372036854775808 n then 9223372036854775808 else n)
clamp false (some n) = (false, if ltb 9223372036854775807 n then 9223372036854775807 else n)

-- `n, _ := strconv.ParseInt(s, 10, 64)`
unfoldable pub parse_int : Bytes → Integer
unfolding number_of clamp
parse_int [] = (false, 0)
parse_int (c ∷ s) =
    if c == b'-'
    then clamp true (number_of s)
    else (if c == b'+' then clamp false (number_of s) else clamp false (number_of (c ∷ s)))

-- No byte of the text is the separator.
abbrev pub NoByte : ℕ → Bytes → Type 0
NoByte sep = All (λ c. c ≢ sep)

pub strip-append : (sep : ℕ) (s t : Bytes) → strip sep (s ++ t) ≡ strip sep s ++ strip sep t
unfolding strip
strip-append sep [] t = refl
strip-append sep (c ∷ s) t = ground (arith, strip-append sep s t)

pub strip-NoByte : (sep : ℕ) (s : Bytes) → NoByte sep s → strip sep s ≡ s
unfolding strip
strip-NoByte sep [] h = refl
strip-NoByte sep (c ∷ s) h = ground (arith, h.0, strip-NoByte sep s h.1)

pub split_first-append :
    (sep : ℕ) (s t : Bytes) → NoByte sep s → split_first sep (s ++ (sep ∷ t)) ≡ some (s, t)
unfolding split_first
split_first-append sep [] t h = ground arith
split_first-append sep (c ∷ s) t h = rw (split_first-append sep s t h.1) (ground (arith, h.0))

pub split-NoByte : (sep : ℕ) (s : Bytes) → NoByte sep s → split_from sep s ≡ (s, [])
unfolding split_from
split-NoByte sep [] h = refl
split-NoByte sep (c ∷ s) h = rw (split-NoByte sep s h.1) (ground (arith, h.0))

pub split-append :
    (sep : ℕ) (s t : Bytes)
    → NoByte sep s
    → split_from sep (s ++ (sep ∷ t)) ≡ (s, (split_from sep t).0 ∷ (split_from sep t).1)
unfolding split_from
split-append sep [] t h = ground arith
split-append sep (c ∷ s) t h = rw (split-append sep s t h.1) (ground (arith, h.0))
