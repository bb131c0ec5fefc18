-- ===== src/Resp/Lines.antt =====
-- Resp.antt: the scans of one line, and of a line with a number.
use ultra_net.Prelude.{
  ℕ, ◌+◌, ◌≤◌, ◌≡◌, refl, [], ◌∷◌, ◌++◌, some, arith, length, Bytes, Option-cases, inl, inr,
}
use ultra_net.Prelude.Decimal.{
  read_digits, to_string, max_i64, read_digits-to_string, read_digits-length, read_digits-append,
}
use ultra_net.Resp.{Scan, ready, incomplete, undefined, cr, lf, crlf, number_line, bulk_header}

pub crlf-ready : (s : Bytes) {t : Bytes} → crlf s ≡ ready t → s ≡ cr ∷ lf ∷ t
unfolding crlf
crlf-ready [] h = cc
crlf-ready (c ∷ []) h = cc
crlf-ready (c ∷ d ∷ s) h = ground arith

-- A number and its line end are read back.
pub number_line-to_string :
    (n : ℕ) (s : Bytes) → n ≤ max_i64 → number_line (to_string n ++ cr ∷ lf ∷ s) ≡ ready (n, s)
unfolding number_line crlf
number_line-to_string n s fits = ground (arith, read_digits-to_string n (cr ∷ lf ∷ s) fits refl)

number_line_parts :
    (s : Bytes) {n : ℕ} {r : Bytes}
    → number_line s ≡ ready (n, r)
    → read_digits s 0 ≡ some (n, cr ∷ lf ∷ r)
unfolding number_line
number_line_parts s {n} {r} h = elim (Option-cases (read_digits s 0)) [
  | inl e ↦ ground arith
  | inr ((m, q), e) ↦ after m q e (crlf q) refl
]
  where
    after :
        (m : ℕ) (q : Bytes)
        → read_digits s 0 ≡ some (m, q)
        → (c : Scan Bytes) → crlf q ≡ c
        → read_digits s 0 ≡ some (n, cr ∷ lf ∷ r)
    after m q e (ready t) k = ground (arith, crlf-ready q k)
    after m q e incomplete k = ground arith
    after m q e undefined k = ground arith

-- A line that was read is at least two bytes, and reads the same with more bytes behind it.
pub number_line-length :
    (s : Bytes) {n : ℕ} {r : Bytes} → number_line s ≡ ready (n, r) → length r + 2 ≤ length s
number_line-length s {n} {r} h = omega (arith, read_digits-length s 0 (number_line_parts s h))

pub number_line-append :
    (s t : Bytes) {n : ℕ} {r : Bytes}
    → number_line s ≡ ready (n, r)
    → number_line (s ++ t) ≡ ready (n, r ++ t)
unfolding number_line crlf
number_line-append s t {n} {r} h =
    ground (arith, read_digits-append s t 0 cr (number_line_parts s h))

pub bulk_header-to_string :
    (n : ℕ) (s : Bytes)
    → n ≤ max_i64
    → bulk_header (b'$' ∷ (to_string n ++ cr ∷ lf ∷ s)) ≡ ready (n, s)
unfolding bulk_header
bulk_header-to_string n s fits = number_line-to_string n s fits

pub bulk_header-length :
    (s : Bytes) {n : ℕ} {r : Bytes} → bulk_header s ≡ ready (n, r) → length r + 3 ≤ length s
unfolding bulk_header
bulk_header-length [] h = cc
bulk_header-length (c ∷ s) {n} {r} h = ground (arith, number_line-length s {n = n} {r = r})

pub bulk_header-append :
    (s t : Bytes) {n : ℕ} {r : Bytes}
    → bulk_header s ≡ ready (n, r)
    → bulk_header (s ++ t) ≡ ready (n, r ++ t)
unfolding bulk_header
bulk_header-append [] t h = cc
bulk_header-append (c ∷ s) t {n} {r} h = ground (arith, number_line-append s t {n = n} {r = r})
