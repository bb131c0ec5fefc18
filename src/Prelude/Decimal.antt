-- ===== src/Prelude/Decimal.antt =====
-- Decimal text: `std::to_string` of an unsigned number, and the digit loop that the parsers share.
use Prim.Native.Nat.{ℕ, zero, suc, ◌+◌, ◌-◌, ◌*◌, ◌/◌, ◌%◌, ◌^◌, ◌≤◌, ◌<◌}
use mathlib.Core.Bool.{Bool, false, ◌&&◌}
use mathlib.Core.List.{[], ◌∷◌, ◌++◌}
use mathlib.Core.Logic.{inl, inr}
use mathlib.Core.Option.{Option, none, some}
use mathlib.Core.Path.{◌≡◌, refl}
use native.Mathlib.Omega.{arith}
use ultra_net.Prelude.Tests.{ltb, leb, if◌then◌else◌, Bool-cases}
use ultra_net.Prelude.Lists.{length}
use ultra_net.Prelude.Words.{Bytes, codes}

abbrev pub max_i64 : ℕ
max_i64 = 2 ^ 63 - 1

abbrev pub is_digit : ℕ → Bool
is_digit c = leb 48 c && leb c 57

-- The digits of a number in front of a text, the last one first. One more than the number is
-- enough fuel.
show_loop : ℕ → ℕ → Bytes → Bytes
show_loop zero n out = out
show_loop (suc f) n out =
    let rest = show_loop f (n / 10) ((48 + n % 10) ∷ out) in
    if ltb n 10 then (48 + n) ∷ out else rest

unfoldable pub to_string : ℕ → Bytes
unfolding show_loop
to_string n = show_loop (suc n) n []

-- `while (p < end && *p >= '0' && *p <= '9') { v = v * 10 + (*p - '0'); p++; }` on an int64_t:
-- the value and the text behind the digits; `none` where the sum leaves the type's range.
unfoldable pub read_digits : Bytes → ℕ → Option (ℕ × Bytes)
read_digits [] v = some (v, [])
read_digits (c ∷ s) v =
    let next = v * 10 + (c - 48) in
    let rest = read_digits s next in
    if is_digit c then (if leb next max_i64 then rest else none) else some (v, c ∷ s)

-- The text does not begin with a digit.
abbrev pub NoDigit : Bytes → Type 0
NoDigit [] = Unit {0}
NoDigit (c ∷ s) = is_digit c ≡ false

show_loop-append : (f n : ℕ) (out s : Bytes) → show_loop f n out ++ s ≡ show_loop f n (out ++ s)
unfolding show_loop
show_loop-append zero n out s = refl
show_loop-append (suc f) n out s =
    ground (arith, show_loop-append f (n / 10) ((48 + n % 10) ∷ out) s)

read_digits-show_loop :
    (f n : ℕ) (out : Bytes)
    → n < f
    → n ≤ max_i64
    → read_digits (show_loop f n out) 0 ≡ read_digits out n
unfolding show_loop read_digits
read_digits-show_loop zero n out h fits = absurd (omega arith)
read_digits-show_loop (suc f) n out h fits =
    ground (arith, read_digits-show_loop f (n / 10) ((48 + n % 10) ∷ out))

read_digits-NoDigit : (s : Bytes) (v : ℕ) → NoDigit s → read_digits s v ≡ some (v, s)
unfolding read_digits
read_digits-NoDigit [] v h = refl
read_digits-NoDigit (c ∷ s) v h = rw h

-- A printed number in front of a text that begins with no digit is read back.
pub read_digits-to_string :
    (n : ℕ) (s : Bytes) → n ≤ max_i64 → NoDigit s → read_digits (to_string n ++ s) 0 ≡ some (n, s)
unfolding to_string
read_digits-to_string n s fits h =
    rw (show_loop-append (suc n) n [] s, read_digits-show_loop (suc n) n s (omega arith) fits)
      (read_digits-NoDigit s n h)

-- What the loop leaves is no longer than what it was given.
pub read_digits-length :
    (s : Bytes) (v : ℕ) {n : ℕ} {r : Bytes} → read_digits s v ≡ some (n, r) → length r ≤ length s
unfolding read_digits
read_digits-length [] v h = ground arith
read_digits-length (c ∷ s) v {n} {r} h =
    ground (arith, read_digits-length s (v * 10 + (c - 48)) {n = n} {r = r})

-- More input behind the number changes nothing, if the digits ended inside the first part.
pub read_digits-append :
    (s t : Bytes) (v c : ℕ) {n : ℕ} {r : Bytes}
    → read_digits s v ≡ some (n, c ∷ r)
    → read_digits (s ++ t) v ≡ some (n, c ∷ r ++ t)
unfolding read_digits
read_digits-append [] t v c h = cc
read_digits-append (d ∷ s) t v c {n} {r} h =
    ground (arith, read_digits-append s t (v * 10 + (d - 48)) c {n = n} {r = r})

to_string_thousand : to_string 1024 ≡ codes "1024"
unfolding to_string
to_string_thousand = refl

show_loop_front :
    (f n : ℕ) (out : Bytes)
    → n < f
    → (c : ℕ) × (s : Bytes) × (show_loop f n out ≡ c ∷ s) × (48 ≤ c) × (c ≤ 57)
unfolding show_loop
show_loop_front zero n out h = absurd (omega arith)
show_loop_front (suc f) n out h = elim (Bool-cases (ltb n 10)) [
  | inl small ↦ (48 + n, out, ground arith, omega arith, ground arith)
  | inr big ↦
      let (c, s, e, lo, hi) = show_loop_front f (n / 10) ((48 + n % 10) ∷ out) (ground arith) in
      (c, s, ground arith, lo, hi)
]

-- A printed number begins with a digit.
pub to_string_front : (n : ℕ) → (c : ℕ) × (s : Bytes) × (to_string n ≡ c ∷ s) × (48 ≤ c) × (c ≤ 57)
unfolding to_string
to_string_front n = show_loop_front (suc n) n [] (omega arith)
