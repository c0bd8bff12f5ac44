-- ===== src/Prelude/Text.antt =====
-- Texts as lists of byte values: equality, prefixes, and the decimal form that `fmt` gives a number.
use Prim.Native.Nat.{ℕ, zero, suc, ◌+◌, ◌-◌, ◌*◌, ◌/◌, ◌%◌, ◌<◌}
use Prim.Native.Char.{code}
use Prim.Native.String.{String}
use mathlib.Core.Path.{◌≡◌, refl, ap, sym, ◌∙◌}
use mathlib.Core.Logic.{◌≢◌}
use mathlib.Core.Bool.{Bool, true, false, ◌&&◌}
use mathlib.Core.List.{List, [], ◌∷◌, ◌++◌}
use native.Mathlib.Omega.{arith}
use nyyu_market.Prelude.Lists.{All}
use nyyu_market.Prelude.Tests.{ltb, ◌==◌, if◌then◌else◌}

abbrev pub Bytes : Type 0
Bytes = List ℕ

abbrev pub codes : String → Bytes
codes String.[] = []
codes (String.◌∷◌ c s) = code c ∷ codes s

unfoldable pub bytes_eq : Bytes → Bytes → Bool
bytes_eq [] [] = true
bytes_eq (a ∷ s) (b ∷ t) = (a == b) && bytes_eq s t
bytes_eq _ _ = false

pub bytes_eq_refl : (s : Bytes) → bytes_eq s s ≡ true
unfolding bytes_eq
bytes_eq_refl [] = refl
bytes_eq_refl (a ∷ s) = ground (arith, bytes_eq_refl s)

pub eq_of_bytes_eq : (s t : Bytes) → bytes_eq s t ≡ true → s ≡ t
unfolding bytes_eq
eq_of_bytes_eq [] [] h = refl
eq_of_bytes_eq [] (b ∷ t) h = cc
eq_of_bytes_eq (a ∷ s) [] h = cc
eq_of_bytes_eq (a ∷ s) (b ∷ t) h = ground (arith, eq_of_bytes_eq s t)

-- `len(k) > len(p) && k[:len(p)] == p`
unfoldable pub has_proper_prefix : Bytes → Bytes → Bool
has_proper_prefix [] [] = false
has_proper_prefix [] (c ∷ k) = true
has_proper_prefix (a ∷ p) [] = false
has_proper_prefix (a ∷ p) (c ∷ k) = (a == c) && has_proper_prefix p k

pub has_proper_prefix-append : (p r : Bytes) → r ≢ [] → has_proper_prefix p (p ++ r) ≡ true
unfolding has_proper_prefix
has_proper_prefix-append [] [] h = absurd (h refl)
has_proper_prefix-append [] (c ∷ r) h = refl
has_proper_prefix-append (a ∷ p) r h = ground (arith, has_proper_prefix-append p r h)

pub append_of_has_proper_prefix :
    (p k : Bytes) → has_proper_prefix p k ≡ true → (r : Bytes) × (k ≡ p ++ r)
unfolding has_proper_prefix
append_of_has_proper_prefix [] [] h = ([], refl)
append_of_has_proper_prefix [] (c ∷ k) h = (c ∷ k, refl)
append_of_has_proper_prefix (a ∷ p) [] h = absurd (ground arith)
append_of_has_proper_prefix (a ∷ p) (c ∷ k) h =
    let rest : (r : Bytes) × (k ≡ p ++ r) = append_of_has_proper_prefix p k (ground arith) in
    (rest.0, ground (arith, rest.1))

-- No separator inside.
abbrev pub NoColon : Bytes → Type 0
NoColon = All (λ c. c ≢ b':')

-- What stands before the first colon is determined.
pub append-colon_inj :
    (s t : Bytes) {u v : Bytes}
    → NoColon s
    → NoColon t
    → s ++ (b':' ∷ u) ≡ t ++ (b':' ∷ v)
    → (s ≡ t) × (u ≡ v)
append-colon_inj [] [] hs ht e = (refl, cc)
append-colon_inj [] (b ∷ t) hs ht e = absurd (ht.0 (cc))
append-colon_inj (a ∷ s) [] hs ht e = absurd (hs.0 (cc))
append-colon_inj (a ∷ s) (b ∷ t) {u} {v} hs ht e =
    let ih = append-colon_inj s t {u = u} {v = v} hs.1 ht.1 (cc) in (cc (ih.0), ih.1)

emit : ℕ → ℕ → Bytes → Bytes
emit zero n out = out
emit (suc k) n out =
    let rest = emit k (n / 10) ((b'0' + n % 10) ∷ out) in
    if ltb n 10 then (b'0' + n) ∷ out else rest

-- `%d` of a number that is not negative; `suc n` rounds are enough.
unfoldable pub format_int : ℕ → Bytes
unfolding emit
format_int n = emit (suc n) n []

value : ℕ → Bytes → ℕ
value a [] = a
value a (c ∷ s) = value (a * 10 + (c - b'0')) s

value-emit : (k n : ℕ) (out : Bytes) → n < k → value 0 (emit k n out) ≡ value n out
unfolding emit value
value-emit zero n out h = elim h [ ]
value-emit (suc k) n out h = ground (arith, value-emit k (n / 10) ((b'0' + n % 10) ∷ out))

-- Two numbers with one decimal form are equal.
pub format_int_inj : (m n : ℕ) → format_int m ≡ format_int n → m ≡ n
unfolding format_int value
format_int_inj m n e =
    sym (value-emit (suc m) m [] (omega arith))
    ∙ ap (value 0) e
    ∙ value-emit (suc n) n [] (omega arith)

-- A decimal form is not empty.
emit-ne-nil : (k n c : ℕ) (out : Bytes) → emit k n (c ∷ out) ≢ []
unfolding emit
emit-ne-nil zero n c out = λ e. cc
emit-ne-nil (suc k) n c out = ground (arith, emit-ne-nil k (n / 10) (b'0' + n % 10) (c ∷ out))

pub format_int-ne-nil : (n : ℕ) → format_int n ≢ []
unfolding format_int
format_int-ne-nil n = ground (arith, emit-ne-nil n (n / 10) (b'0' + n % 10) [])
