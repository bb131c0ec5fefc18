-- ===== src/Resp/Response.antt =====
-- Resp.antt: the scan for the end of a reply: it makes progress, its fuel is enough, and it is stable
-- under more input.
use ultra_net.Prelude.{
  ℕ, zero, suc, ◌+◌, ◌≤◌, ◌<◌, ◌≡◌, refl, [], ◌∷◌, ◌++◌, arith, ◌==◌, length, length-append, Bytes,
  drop-append, inl, inr, length-drop, Bool-cases,
}
use ultra_net.Resp.{
  Scan, ready, returns, crlf, number_line, line_end, bulk_end, sign, elements_end, array_end,
  response_end, detect_response,
}
use ultra_net.Prelude.Decimal.{read_digits}
use ultra_net.Resp.Lines.{number_line-length, number_line-append}
use ultra_net.Resp.Rounds.{Scan-cases}

sign-length : (s : Bytes) → length (sign s).1 ≤ length s
sign-length [] = omega arith
sign-length (c ∷ s) = ground arith

sign-append :
    (s t : Bytes) {n : ℕ} {r : Bytes}
    → number_line (sign s).1 ≡ ready (n, r)
    → ((sign (s ++ t)).0 ≡ (sign s).0) × (number_line (sign (s ++ t)).1 ≡ ready (n, r ++ t))
sign-append [] t h = absurd (unfold number_line read_digits crlf in cc)
sign-append (c ∷ s) t {n} {r} h = elim (Bool-cases (c == b'-')) [
  | inl e ↦ ground (arith, number_line-append s t {n = n} {r = r})
  | inr e ↦ ground (arith, number_line-append (c ∷ s) t {n = n} {r = r})
]

line_end-length : (s : Bytes) {r : Bytes} → line_end s ≡ ready r → length r < length s
unfolding line_end
line_end-length [] h = cc
line_end-length (c ∷ []) h = cc
line_end-length (c ∷ d ∷ s) {r} h = ground (arith, line_end-length (d ∷ s) {r = r})

line_end-append :
    (s t : Bytes) {r : Bytes} → line_end s ≡ ready r → line_end (s ++ t) ≡ ready (r ++ t)
unfolding line_end
line_end-append [] t h = cc
line_end-append (c ∷ []) t h = cc
line_end-append (c ∷ d ∷ s) t {r} h = ground (arith, line_end-append (d ∷ s) t {r = r})

bulk_end-length : (s : Bytes) {r : Bytes} → bulk_end s ≡ ready r → length r < length s
unfolding bulk_end
bulk_end-length s {r} h = elim (Scan-cases (number_line (sign s).1)) [
  | inl ((n, q), e) ↦
      ground (arith, number_line-length (sign s).1 e, sign-length s, length-drop (n + 2) q)
  | inr (inl e) ↦ absurd (ground arith)
  | inr (inr e) ↦ absurd (ground arith)
]

bulk_end-append :
    (s t : Bytes) {r : Bytes} → bulk_end s ≡ ready r → bulk_end (s ++ t) ≡ ready (r ++ t)
unfolding bulk_end
bulk_end-append s t {r} h = elim (Scan-cases (number_line (sign s).1)) [
  | inl ((n, q), e) ↦ ground (arith, sign-append s t e, drop-append (n + 2) q t, length-append q t)
  | inr (inl e) ↦ absurd (ground arith)
  | inr (inr e) ↦ absurd (ground arith)
]

elements_end-length :
    (one : Bytes → Scan Bytes)
    → ((s r : Bytes) → one s ≡ ready r → length r < length s)
    → (n : ℕ) (s : Bytes) {r : Bytes} → elements_end one n s ≡ ready r
    → length r ≤ length s
unfolding elements_end
elements_end-length one shrinks zero s h = ground arith
elements_end-length one shrinks (suc n) s {r} h = elim (Scan-cases (one s)) [
  | inl (q, e) ↦
      omega (arith, shrinks s q e, elements_end-length one shrinks n q {r = r} (ground arith))
  | inr (inl e) ↦ absurd (ground arith)
  | inr (inr e) ↦ absurd (ground arith)
]

array_end-length :
    (one : Bytes → Scan Bytes)
    → ((s r : Bytes) → one s ≡ ready r → length r < length s)
    → (s : Bytes) {r : Bytes} → array_end one s ≡ ready r
    → length r < length s
unfolding array_end
array_end-length one shrinks s {r} h = elim (Scan-cases (number_line (sign s).1)) [
  | inl ((n, q), e) ↦ ground (
    arith,
    number_line-length (sign s).1 e,
    sign-length s,
    elements_end-length one shrinks n q {r = r},
  )
  | inr (inl e) ↦ absurd (ground arith)
  | inr (inr e) ↦ absurd (ground arith)
]

-- A reply that was found has at least one byte.
pub response_end-length : (f : ℕ) (s r : Bytes) → response_end f s ≡ ready r → length r < length s
unfolding response_end
response_end-length zero s r h = cc
response_end-length (suc f) [] r h = cc
response_end-length (suc f) (c ∷ s) r h = ground (
  arith,
  line_end-length s {r = r},
  bulk_end-length s {r = r},
  array_end-length (response_end f) (response_end-length f) s {r = r},
)

elements_end-append :
    (one two : Bytes → Scan Bytes) (t : Bytes)
    → ((s r : Bytes) → one s ≡ ready r → two (s ++ t) ≡ ready (r ++ t))
    → (n : ℕ) (s : Bytes) {r : Bytes} → elements_end one n s ≡ ready r
    → elements_end two n (s ++ t) ≡ ready (r ++ t)
unfolding elements_end
elements_end-append one two t stable zero s h = ground arith
elements_end-append one two t stable (suc n) s {r} h = elim (Scan-cases (one s)) [
  | inl (q, e) ↦ ground (arith, stable s q e, elements_end-append one two t stable n q {r = r})
  | inr (inl e) ↦ absurd (ground arith)
  | inr (inr e) ↦ absurd (ground arith)
]

array_end-append :
    (one two : Bytes → Scan Bytes) (t : Bytes)
    → ((s r : Bytes) → one s ≡ ready r → two (s ++ t) ≡ ready (r ++ t))
    → (s : Bytes) {r : Bytes} → array_end one s ≡ ready r
    → array_end two (s ++ t) ≡ ready (r ++ t)
unfolding array_end
array_end-append one two t stable s {r} h = elim (Scan-cases (number_line (sign s).1)) [
  | inl ((n, q), e) ↦
      ground (arith, sign-append s t e, elements_end-append one two t stable n q {r = r})
  | inr (inl e) ↦ absurd (ground arith)
  | inr (inr e) ↦ absurd (ground arith)
]

-- A reply that was found is found with more fuel and with more bytes behind it.
response_end-append :
    (f g : ℕ) (t s r : Bytes)
    → f ≤ g
    → response_end f s ≡ ready r
    → response_end g (s ++ t) ≡ ready (r ++ t)
unfolding response_end
response_end-append zero g t s r le h = cc
response_end-append (suc f) zero t s r le h = absurd (omega arith)
response_end-append (suc f) (suc g) t [] r le h = cc
response_end-append (suc f) (suc g) t (c ∷ s) r le h = ground (
  arith,
  line_end-append s t {r = r},
  bulk_end-append s t {r = r},
  array_end-append (response_end f) (response_end g) t
      (λ s r. response_end-append f g t s r (omega arith)) s {r = r},
)

elements_end-congr :
    (one two : Bytes → Scan Bytes) (f : ℕ)
    → ((s r : Bytes) → one s ≡ ready r → length r < length s)
    → ((s : Bytes) → length s < f → one s ≡ two s)
    → (n : ℕ) (s : Bytes) → length s < f
    → elements_end one n s ≡ elements_end two n s
unfolding elements_end
elements_end-congr one two f shrinks same zero s h = refl
elements_end-congr one two f shrinks same (suc n) s h = elim (Scan-cases (one s)) [
  | inl (q, e) ↦ ground (
    arith,
    same s h,
    elements_end-congr one two f shrinks same n q (omega (arith, shrinks s q e)),
  )
  | inr (inl e) ↦ ground (arith, same s h)
  | inr (inr e) ↦ ground (arith, same s h)
]

array_end-congr :
    (one two : Bytes → Scan Bytes) (f : ℕ)
    → ((s r : Bytes) → one s ≡ ready r → length r < length s)
    → ((s : Bytes) → length s < f → one s ≡ two s)
    → (s : Bytes) → length s ≤ f
    → array_end one s ≡ array_end two s
unfolding array_end
array_end-congr one two f shrinks same s h = elim (Scan-cases (number_line (sign s).1)) [
  | inl ((n, q), e) ↦ ground (
    arith,
    elements_end-congr one two f shrinks same n q
        (omega (arith, number_line-length (sign s).1 e, sign-length s)),
  )
  | inr (inl e) ↦ ground arith
  | inr (inr e) ↦ ground arith
]

-- Any two fuels beyond the length of the buffer give the same result, which is thus that of the
-- recursion in the source.
pub response_end_fuel :
    (f g : ℕ) (s : Bytes) → length s < f → length s < g → response_end f s ≡ response_end g s
unfolding response_end
response_end_fuel zero g s hf hg = absurd (omega arith)
response_end_fuel (suc f) zero s hf hg = absurd (omega arith)
response_end_fuel (suc f) (suc g) [] hf hg = refl
response_end_fuel (suc f) (suc g) (c ∷ s) hf hg =
    let same =
      array_end-congr (response_end f) (response_end g) (length s) (response_end-length f)
        (λ r h. response_end_fuel f g r (omega arith) (omega arith)) s (omega arith) in
    ground (arith, same)

-- A reply that was found is found again, at the same length, when more bytes stand behind it, and
-- lies within the buffer.
pub detect_response-append :
    (s t : Bytes) {n : ℕ}
    → detect_response s ≡ returns n
    → 0 < n
    → (detect_response (s ++ t) ≡ returns n) × (n ≤ length s)
unfolding detect_response
detect_response-append s t {n} h pos = elim (Scan-cases (response_end (suc (length s)) s)) [
  | inl (r, e) ↦ ground (
    arith,
    response_end-length (suc (length s)) s r e,
    response_end-append (suc (length s)) (suc (length (s ++ t))) t s r
        (omega (arith, length-append s t)) e,
    length-append s t,
    length-append r t,
  )
  | inr (inl e) ↦ absurd (ground arith)
  | inr (inr e) ↦ absurd (ground arith)
]
