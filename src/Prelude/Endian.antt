-- ===== src/Prelude/Endian.antt =====
-- Numbers as bytes, the highest first (network order) or the lowest first (the order of the hosts
-- that the library runs on, which is what a memcpy of an integer copies).
use Prim.Native.Nat.{ℕ, zero, suc, ◌+◌, ◌*◌, ◌/◌, ◌%◌, ◌^◌, ◌<◌}
use mathlib.Core.List.{[], ◌∷◌, ◌++◌, append_assoc}
use mathlib.Core.Logic.{inl, inr}
use mathlib.Core.Option.{Option, none, some}
use mathlib.Core.Path.{◌≡◌, refl, ap, ◌∙◌}
use native.Mathlib.Nat.{pow-suc}
use native.Mathlib.Omega.{arith}
use ultra_net.Prelude.Lists.{length, length-append}
use ultra_net.Prelude.Tests.{Option-cases}
use ultra_net.Prelude.Words.{Bytes, All, IsByte, ◌>>=◌}

-- The k low bytes of a number, the highest first.
abbrev pub be_bytes : ℕ → ℕ → Bytes
be_bytes zero v = []
be_bytes (suc k) v = be_bytes k (v / 256) ++ (v % 256) ∷ []

-- Reads k bytes behind the value so far, `v = (v << 8) | byte`. At most eight are ever read from 0,
-- so that the sum stays below 2 ^ 64.
abbrev pub take_be : ℕ → Bytes → ℕ → Option (ℕ × Bytes)
take_be zero s v = some (v, s)
take_be (suc k) [] v = none
take_be (suc k) (b ∷ s) v = take_be k s (v * 256 + b)

-- The k low bytes of a number, the lowest first.
abbrev pub le_bytes : ℕ → ℕ → Bytes
le_bytes zero v = []
le_bytes (suc k) v = v % 256 ∷ le_bytes k (v / 256)

abbrev pub take_le : ℕ → Bytes → Option (ℕ × Bytes)
take_le zero s = some (0, s)
take_le (suc k) [] = none
take_le (suc k) (b ∷ s) = do (v, r) ← take_le k s; some (v * 256 + b, r)

pub length-be_bytes : (k v : ℕ) → length (be_bytes k v) ≡ k
length-be_bytes zero v = refl
length-be_bytes (suc k) v =
    omega (arith, length-append (be_bytes k (v / 256)) (v % 256 ∷ []), length-be_bytes k (v / 256))

pub length-le_bytes : (k v : ℕ) → length (le_bytes k v) ≡ k
length-le_bytes zero v = refl
length-le_bytes (suc k) v = ap suc (length-le_bytes k (v / 256))

take_be-snoc :
    (k : ℕ) (xs s : Bytes) (b v n : ℕ) {r : Bytes}
    → length xs ≡ k
    → take_be k (xs ++ b ∷ s) v ≡ some (n, r)
    → take_be (suc k) (xs ++ b ∷ s) v ≡ some (n * 256 + b, s)
take_be-snoc zero [] s b v n h e = ground arith
take_be-snoc zero (x ∷ xs) s b v n h e = absurd (omega arith)
take_be-snoc (suc k) [] s b v n h e = absurd (omega arith)
take_be-snoc (suc k) (x ∷ xs) s b v n {r} h e =
    take_be-snoc k xs s b (v * 256 + x) n {r = r} (omega arith) e

-- A number of k bytes is read back, whatever follows.
pub take_be-be_bytes :
    (k v : ℕ) (s : Bytes) → v < 256 ^ k → take_be k (be_bytes k v ++ s) 0 ≡ some (v, s)
take_be-be_bytes zero v s h = ground arith
take_be-be_bytes (suc k) v s h =
    let p : v / 256 < 256 ^ k = omega (arith, pow-suc 256 k) in
    rw append_assoc (
      take_be-snoc k (be_bytes k (v / 256)) s (v % 256) 0 (v / 256) (length-be_bytes k (v / 256))
        (take_be-be_bytes k (v / 256) (v % 256 ∷ s) p)
      ∙ ap (λ n. some (n, s)) (omega arith))

pub take_le-le_bytes :
    (k v : ℕ) (s : Bytes) → v < 256 ^ k → take_le k (le_bytes k v ++ s) ≡ some (v, s)
take_le-le_bytes zero v s h = ground arith
take_le-le_bytes (suc k) v s h =
    let p : v / 256 < 256 ^ k = omega (arith, pow-suc 256 k) in
    ground (arith, take_le-le_bytes k (v / 256) s p)

pub le_bytes-IsByte : (k v : ℕ) → All IsByte (le_bytes k v)
le_bytes-IsByte zero v = tt
le_bytes-IsByte (suc k) v = (omega arith, le_bytes-IsByte k (v / 256))

-- More bytes behind do not change what is read.
pub take_be-append :
    (k : ℕ) (s t : Bytes) (v : ℕ) {n : ℕ} {r : Bytes}
    → take_be k s v ≡ some (n, r)
    → take_be k (s ++ t) v ≡ some (n, r ++ t)
take_be-append zero s t v h = ground arith
take_be-append (suc k) [] t v h = cc
take_be-append (suc k) (b ∷ s) t v h = take_be-append k s t (v * 256 + b) h

pub take_be-length :
    (k : ℕ) (s : Bytes) (v : ℕ) {n : ℕ} {r : Bytes}
    → take_be k s v ≡ some (n, r)
    → length s ≡ k + length r
take_be-length zero s v h = ground arith
take_be-length (suc k) [] v h = cc
take_be-length (suc k) (b ∷ s) v h = omega (arith, take_be-length k s (v * 256 + b) h)

pub take_le-length :
    (k : ℕ) (s : Bytes) {n : ℕ} {r : Bytes} → take_le k s ≡ some (n, r) → length s ≡ k + length r
take_le-length zero s h = ground arith
take_le-length (suc k) [] h = cc
take_le-length (suc k) (b ∷ s) {n} {r} h = elim (Option-cases (take_le k s)) [
  | inl e ↦ absurd (ground arith)
  | inr ((m, q), e) ↦ ground (arith, take_le-length k s e)
]

pub take_le-append :
    (k : ℕ) (s t : Bytes) {n : ℕ} {r : Bytes}
    → take_le k s ≡ some (n, r)
    → take_le k (s ++ t) ≡ some (n, r ++ t)
take_le-append zero s t h = ground arith
take_le-append (suc k) [] t h = cc
take_le-append (suc k) (b ∷ s) t {n} {r} h = elim (Option-cases (take_le k s)) [
  | inl e ↦ absurd (ground arith)
  | inr ((m, q), e) ↦ ground (arith, take_le-append k s t e)
]
