-- ===== src/Prelude/Strings.antt =====
-- Python's `str` as the list of its code points, and the methods of it that the program calls.
use Prim.Native.Nat.{ℕ, zero, suc, ◌+◌, ◌/◌, ◌%◌, ◌<◌}
use Prim.Native.Char.{code}
use Prim.Native.String.{String}
use mathlib.Core.Path.{◌≡◌, refl, ap}
use mathlib.Core.Logic.{◌↔◌, inl, inr}
use mathlib.Core.Bool.{Bool, true, false, ◌&&◌, ◌||◌}
use mathlib.Core.List.{List, [], ◌∷◌, ◌++◌, map, reverse}
use native.Mathlib.Omega.{arith}
use agentic_execution.Prelude.Tests.{ltb, leb, ◌==◌, if◌then◌else◌, Bool-cases}

abbrev pub Text : Type 0
Text = List ℕ

abbrev pub codes : String → Text
codes String.[] = []
codes (String.◌∷◌ c s) = code c ∷ codes s

unfoldable pub text_eq : Text → Text → Bool
text_eq [] [] = true
text_eq (a ∷ as') (b ∷ bs) = a == b && text_eq as' bs
text_eq _ _ = false

pub text_eq_refl : (s : Text) → text_eq s s ≡ true
unfolding text_eq
text_eq_refl [] = refl
text_eq_refl (a ∷ s) = ground (arith, text_eq_refl s)

pub eq-of-text_eq : (s t : Text) → text_eq s t ≡ true → s ≡ t
unfolding text_eq
eq-of-text_eq [] [] h = refl
eq-of-text_eq [] (b ∷ t) h = cc
eq-of-text_eq (a ∷ s) [] h = cc
eq-of-text_eq (a ∷ s) (b ∷ t) h = ground (arith, eq-of-text_eq s t)

pub text_eq_iff : (s t : Text) → (text_eq s t ≡ true) ↔ (s ≡ t)
text_eq_iff s t = (eq-of-text_eq s t, λ e. rw e (text_eq_refl t))

-- `str.isspace` of one code point.
unfoldable pub is_space : ℕ → Bool
is_space c =
    leb 9 c && leb c 13
    || (leb 28 c && leb c 32)
    || c == 133
    || c == 160
    || c == 5760
    || (leb 8192 c && leb c 8202)
    || (leb 8232 c && leb c 8233)
    || c == 8239
    || c == 8287
    || c == 12288

unfoldable pub lstrip : Text → Text
lstrip [] = []
lstrip (c ∷ s) = let rest = lstrip s in if is_space c then rest else c ∷ s

-- `str.strip()`
unfoldable pub strip : Text → Text
unfolding lstrip
strip s = reverse (lstrip (reverse (lstrip s)))

-- `" ".join(text.split())`: the words, with one space between.
unfoldable pub collapse_after : Bool → Text → Text
collapse_after pending [] = []
collapse_after pending (ch ∷ s) = elim (is_space ch) [
  | true ↦ collapse_after true s
  | false ↦ (if pending then 32 ∷ ch ∷ [] else ch ∷ []) ++ collapse_after false s
]

unfoldable pub collapse : Text → Text
unfolding collapse_after lstrip
collapse s = collapse_after false (lstrip s)

-- `str.rstrip()`
unfoldable pub rstrip : Text → Text
unfolding lstrip
rstrip s = reverse (lstrip (reverse s))

-- `s.startswith(prefix)` and `part in s`
unfoldable pub starts_with : Text → Text → Bool
starts_with [] s = true
starts_with (a ∷ prefix) [] = false
starts_with (a ∷ prefix) (b ∷ s) = a == b && starts_with prefix s

unfoldable pub contains : Text → Text → Bool
unfolding starts_with
contains part [] = starts_with part []
contains part (c ∷ s) = starts_with part (c ∷ s) || contains part s

-- `str.splitlines()`, where a carriage return and a line feed are one break.
abbrev is_break : ℕ → Bool
is_break c =
    leb 10 c && leb c 13 || (leb 28 c && leb c 30) || c == 133 || (leb 8232 c && leb c 8233)

abbrev to_first : ℕ → List Text → List Text
to_first c [] = (c ∷ []) ∷ []
to_first c (line ∷ rest) = (c ∷ line) ∷ rest

unfoldable pub split_lines : Text → List Text
unfolding starts_with
split_lines [] = []
split_lines (c ∷ s) =
    let rest = split_lines s in
    if c == 13 && starts_with (10 ∷ []) s
    then rest
    else if is_break c
    then [] ∷ rest
    else to_first c rest

-- `str.lower()`, up to what a comparison with ASCII text shows: the code points that it takes to
-- an ASCII one are the capitals and the Kelvin sign, and all others are left as they are.
abbrev lower_char : ℕ → ℕ
lower_char c = if leb 65 c && leb c 90 then c + 32 else if c == 8490 then 107 else c

unfoldable pub lower : Text → Text
lower = map lower_char

-- `sep.join(parts)`
unfoldable pub join : Text → List Text → Text
join sep [] = []
join sep (s ∷ []) = s
join sep (s ∷ t ∷ rest) = s ++ (sep ++ join sep (t ∷ rest))

-- `str(n)` of a number, by its digits. A number has fewer digits than it counts, plus one.
unfoldable pub digits_within : ℕ → ℕ → Text
digits_within zero n = []
digits_within (suc fuel) n =
    let front = digits_within fuel (n / 10) in
    if ltb n 10 then (48 + n) ∷ [] else front ++ (48 + n % 10) ∷ []

unfoldable pub decimal : ℕ → Text
unfolding digits_within
decimal n = digits_within (n + 1) n

-- `digits_within` always stops with a number below 10 before its fuel does.
pub digits_within-fuel : (f g n : ℕ) → n < f → n < g → digits_within f n ≡ digits_within g n
unfolding digits_within
digits_within-fuel zero g n h k = elim h [ ]
digits_within-fuel (suc f) zero n h k = elim k [ ]
digits_within-fuel (suc f) (suc g) n h k = elim (Bool-cases (ltb n 10)) [
  | inl small ↦ rw small
  | inr large ↦ rw large (
      ap (λ (t : Text). t ++ (48 + n % 10) ∷ [])
        (digits_within-fuel f g (n / 10) (ground arith) (ground arith)))
]
