-- ===== src/Base/Text.antt =====
-- Go's strings.TrimSpace, ToLower and EqualFold. Case is folded for ASCII letters; EqualFold also
-- takes the long s (U+017F) for an s and the Kelvin sign (U+212A) for a k, as Go does.
use Prim.Native.Char.{Char, code}
use Prim.Native.String.{String}
use Prim.Native.Nat.{ℕ, zero, suc, ◌+◌, ◌-◌, ◌*◌, ◌/◌, ◌%◌, ◌^◌, ◌≤◌}
use tailscale_derp.Base.Int.{ℤ, pos, negsuc}
use native.Mathlib.Omega.{arith}
use mathlib.Core.Option.{Option, none, some}
use mathlib.Core.Logic.{inl, inr}
use mathlib.Core.Path.{◌≡◌, refl, subst, sym}
use mathlib.Core.Bool.{Bool, true, false, ◌&&◌, ◌||◌}
use mathlib.Core.List.{List, [], ◌∷◌}
use text.Mathlib.Text.{◌==◌ as str_eq}
use text.Mathlib.TextEquality.{eq_iff}
use text.Mathlib.TextPositions.{eq_refl}
use tailscale_derp.Base.Tests.{leb, ◌==◌, Option-cases, if◌then◌else◌}

unfoldable pub is_space : Char → Bool
is_space c =
    leb 9 (code c) && leb (code c) 13
    || code c == 32
    || code c == 0x85
    || code c == 0xa0
    || code c == 0x1680
    || leb 0x2000 (code c) && leb (code c) 0x200a
    || code c == 0x2028
    || code c == 0x2029
    || code c == 0x202f
    || code c == 0x205f
    || code c == 0x3000

trim_left : String → String
unfolding is_space
trim_left String.[] = String.[]
trim_left (String.◌∷◌ c s) = if is_space c then trim_left s else String.◌∷◌ c s

trim_right : String → String
unfolding is_space
trim_right String.[] = String.[]
trim_right (String.◌∷◌ c s) =
    let rest = trim_right s in if is_space c && str_eq rest "" then String.[] else String.◌∷◌ c rest

unfoldable pub trim_space : String → String
unfolding trim_left trim_right
trim_space s = trim_right (trim_left s)

abbrev capitals : List (ℕ × Char)
capitals =
    (65, "a")
    ∷ (66, "b")
    ∷ (67, "c")
    ∷ (68, "d")
    ∷ (69, "e")
    ∷ (70, "f")
    ∷ (71, "g")
    ∷ (72, "h")
    ∷ (73, "i")
    ∷ (74, "j")
    ∷ (75, "k")
    ∷ (76, "l")
    ∷ (77, "m")
    ∷ (78, "n")
    ∷ (79, "o")
    ∷ (80, "p")
    ∷ (81, "q")
    ∷ (82, "r")
    ∷ (83, "s")
    ∷ (84, "t")
    ∷ (85, "u")
    ∷ (86, "v")
    ∷ (87, "w")
    ∷ (88, "x")
    ∷ (89, "y")
    ∷ (90, "z")
    ∷ []

find_char : List (ℕ × Char) → Char → Char
find_char [] c = c
find_char ((n, d) ∷ rest) c = if code c == n then d else find_char rest c

unfoldable pub to_lower : String → String
unfolding find_char
to_lower String.[] = String.[]
to_lower (String.◌∷◌ c s) = String.◌∷◌ (find_char capitals c) (to_lower s)

fold : String → String
unfolding find_char
fold String.[] = String.[]
fold (String.◌∷◌ c s) =
    String.◌∷◌ (find_char ((0x17f, "s") ∷ (0x212a, "k") ∷ []) (find_char capitals c)) (fold s)

unfoldable pub equal_fold : String → String → Bool
unfolding fold
equal_fold s t = str_eq (fold s) (fold t)

-- What folds to one of two texts that differ does not fold to the other.
pub other_fold :
    (s t u : String) → equal_fold u s ≡ true → equal_fold s t ≡ false → equal_fold u t ≡ false
unfolding equal_fold
other_fold s t u p q =
    subst (λ x. str_eq x (fold t) ≡ false) (sym ((eq_iff (fold u) (fold s)).0 p)) q

pub equal_fold_refl : (s : String) → equal_fold s s ≡ true
unfolding equal_fold
equal_fold_refl s = eq_refl (fold s)

unfoldable pub is_digit : Char → Bool
is_digit c = leb 48 (code c) && leb (code c) 57

digits : ℕ → String → Option ℕ
unfolding is_digit
digits n String.[] = some n
digits n (String.◌∷◌ c s) =
    let rest = digits (n * 10 + (code c - 48)) s in if is_digit c then rest else none

abbrev at_most : ℕ → Option ℕ → Option ℕ
at_most bound none = none
at_most bound (some n) = if leb n bound then some n else none

-- strconv.ParseUint(s, 10, bits): decimal digits, at least one, up to `bound`.
unfoldable pub parse_uint : ℕ → String → Option ℕ
unfolding digits
parse_uint bound s = if str_eq s "" then none else at_most bound (digits 0 s)

-- A result is in range.
pub parse_uint-le : (bound : ℕ) (s : String) (n : ℕ) → parse_uint bound s ≡ some n → n ≤ bound
unfolding parse_uint
parse_uint-le bound s n h = elim (Option-cases (digits 0 s)) [
  | inl e ↦ absurd (not_none (ground (arith, e)))
  | inr (k, e) ↦ ground (arith, e)
]
  where
    not_none : none ≡ some n → ⊥
    not_none q = cc

abbrev pub signed : Bool → Option ℕ → Option ℤ
signed negative none = none
signed true (some n) = if n == 0 then some (pos 0) else some (negsuc (n - 1))
signed false (some n) = some (pos n)

-- strconv.Atoi.
unfoldable pub atoi : String → Option ℤ
unfolding parse_uint
atoi String.[] = none
atoi (String.◌∷◌ c s) =
    if code c == 45
    then signed true (parse_uint (2 ^ 63) s)
    else if code c == 43
    then signed false (parse_uint (2 ^ 63 - 1) s)
    else signed false (parse_uint (2 ^ 63 - 1) (String.◌∷◌ c s))

abbrev digit_chars : List (ℕ × Char)
digit_chars =
    (0, "0")
    ∷ (1, "1")
    ∷ (2, "2")
    ∷ (3, "3")
    ∷ (4, "4")
    ∷ (5, "5")
    ∷ (6, "6")
    ∷ (7, "7")
    ∷ (8, "8")
    ∷ []

digit_char : List (ℕ × Char) → ℕ → Char
digit_char [] n = "9"
digit_char ((k, c) ∷ rest) n = if k == n then c else digit_char rest n

decimal_from : ℕ → ℕ → String → String
unfolding digit_char
decimal_from zero n rest = rest
decimal_from (suc fuel) n rest =
    let more = decimal_from fuel (n / 10) (String.◌∷◌ (digit_char digit_chars (n % 10)) rest) in
    if n / 10 == 0 then String.◌∷◌ (digit_char digit_chars (n % 10)) rest else more

-- fmt's %d of an int, which has at most nineteen digits.
unfoldable pub decimal : ℤ → String
unfolding decimal_from
decimal (pos n) = decimal_from 19 n ""
decimal (negsuc n) = String.◌∷◌ "-" (decimal_from 19 (n + 1) "")

trims_and_lowers : to_lower (trim_space " Nat-PMP\t") ≡ "nat-pmp"
unfolding trim_space to_lower
trims_and_lowers = refl

folds : equal_fold "derpMap" "DERPMap" ≡ true
unfolding equal_fold
folds = refl

prints : decimal (pos 900) ≡ "900"
unfolding decimal
prints = refl

reads_sign : atoi "-7" ≡ some (negsuc 6)
unfolding atoi
reads_sign = refl
