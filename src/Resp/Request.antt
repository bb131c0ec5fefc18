-- ===== src/Resp/Request.antt =====
-- Resp.antt: how `parse_request` behaves on a buffer that fills up, and how the fast scan
-- `detect_request_boundary` agrees with it.
use ultra_net.Prelude.{
  ℕ, suc, ◌-◌, ◌≤◌, ◌<◌, ◌≡◌, ◌≢◌, refl, sym, subst, [], ◌∷◌, ◌++◌, some, arith, ◌==◌, length,
  length-append, Bytes, inl, inr, Bool-cases, Option-cases, false,
}
use ultra_net.Resp.{
  Scan, ready, incomplete, RespRequest, Outcome, returns, cr, lf, crlf, number_line, bulk_header,
  parse_args, parse_request, skip_args, detect_request_boundary, request_end, passed, parse_inline,
  to_cr, inline_end,
}
use ultra_net.Resp
use ultra_net.Resp.Rounds.{Scan-cases, parse_args-append, skip_args-parse_args}
use ultra_net.Resp.Lines.{crlf-ready, number_line-append}

to_cr-append :
    (s t : Bytes) {l r : Bytes} → to_cr s ≡ some (l, r) → to_cr (s ++ t) ≡ some (l, r ++ t)
unfolding to_cr
to_cr-append [] t h = cc
to_cr-append (c ∷ s) t {l} {r} h = elim (Option-cases (to_cr s)) [
  | inl e ↦ ground arith
  | inr ((k, q), e) ↦ ground (arith, to_cr-append s t {l = k} {r = q} e)
]

to_cr-length : (s : Bytes) {l r : Bytes} → to_cr s ≡ some (l, r) → length r ≤ length s
unfolding to_cr
to_cr-length [] h = cc
to_cr-length (c ∷ s) {l} {r} h = elim (Option-cases (to_cr s)) [
  | inl e ↦ ground arith
  | inr ((k, q), e) ↦ ground (arith, to_cr-length s {l = k} {r = q} e)
]

-- The line that an inline command was read from.
record Line (s : Bytes) (q : RespRequest) : Type 0 where
  line : Bytes
  rest : Bytes
  ended : to_cr s ≡ some (line, cr ∷ lf ∷ rest)
  args : q.args ≡ Resp.split_spaces line []
  consumed : q.consumed ≡ length s - length rest

parse_inline-Line : (s : Bytes) → 0 < (parse_inline s).consumed → Line s (parse_inline s)
unfolding parse_inline
parse_inline-Line s pos = elim (Option-cases (to_cr s)) [
  | inl e ↦ absurd (ground arith)
  | inr ((l, r), e) ↦ elim (Scan-cases (crlf r)) [
    | inl (t, k) ↦ record {
      line = l;
      rest = t;
      ended = ground (arith, crlf-ready r k);
      args = ground arith;
      consumed = ground arith;
    }
    | inr (inl k) ↦ absurd (ground arith)
    | inr (inr k) ↦ absurd (ground arith)
  ]
]

parse_inline-append :
    (s t : Bytes) → 0 < (parse_inline s).consumed → parse_inline (s ++ t) ≡ parse_inline s
parse_inline-append s t pos =
    let l = parse_inline-Line s pos in
    unfold parse_inline crlf in
    ground (arith, to_cr-append s t l.ended, length-append s t, length-append l.rest t, l.ended)

crlf_done : (s : Bytes) → crlf (cr ∷ lf ∷ s) ≡ ready s
unfolding crlf
crlf_done s = refl

-- A command that was found is found again, with the same arguments and length, when more bytes
-- stand behind it; so a buffer may be filled and scanned in pieces of any size. It lies within the
-- buffer.
pub parse_request-append :
    (s t : Bytes) (q : RespRequest)
    → parse_request s ≡ returns q
    → 0 < q.consumed
    → (parse_request (s ++ t) ≡ returns q) × (q.consumed ≤ length s)
unfolding parse_request
parse_request-append [] t q h pos = ground arith
parse_request-append (c ∷ s) t q h pos = elim (Bool-cases (c == b'*')) [
  | inl star ↦ elim (Scan-cases (number_line s)) [
    | inl ((n, r), e) ↦
        let loop : parse_args (suc (length s)) n r [] ≡ returns q = ground arith in
        let (z, _, c, l) = skip_args-parse_args (suc (length s)) n r [] q loop pos in
        ground (
          arith,
          number_line-append s t e,
          parse_args-append (suc (length s)) n r t [] q loop pos,
          length-append s t,
          c,
        )
    | inr (inl e) ↦ absurd (ground arith)
    | inr (inr e) ↦ absurd (ground arith)
  ]
  | inr other ↦ inline_case other
]
  where
    inline_case :
        (c == b'*') ≡ false
        → (parse_request (c ∷ s ++ t) ≡ returns q) × (q.consumed ≤ length (c ∷ s))
    inline_case other =
        let e : parse_inline (c ∷ s) ≡ q = ground arith in
        let l = parse_inline-Line (c ∷ s) (subst (λ p. 0 < p.consumed) (sym e) pos) in
        ground (arith, parse_inline-append (c ∷ s) t, l.consumed)

-- Where the parser finds a command in at least four bytes, the fast scan finds its end.
pub detect_request_boundary-parse_request :
    (s : Bytes) (q : RespRequest)
    → parse_request s ≡ returns q
    → 0 < q.consumed
    → 4 ≤ length s
    → detect_request_boundary s ≡ returns q.consumed
unfolding parse_request detect_request_boundary request_end inline_end
detect_request_boundary-parse_request [] q h pos long = ground arith
detect_request_boundary-parse_request (c ∷ s) q h pos long = elim (Bool-cases (c == b'*')) [
  | inl star ↦ elim (Scan-cases (number_line s)) [
    | inl ((n, r), e) ↦
        let loop : parse_args (suc (length s)) n r [] ≡ returns q = ground arith in
        let (z, k, c, l) = skip_args-parse_args (suc (length s)) n r [] q loop pos in
        ground (arith, k, c)
    | inr (inl e) ↦ absurd (ground arith)
    | inr (inr e) ↦ absurd (ground arith)
  ]
  | inr other ↦ inline_case other
]
  where
    inline_case : (c == b'*') ≡ false → detect_request_boundary (c ∷ s) ≡ returns q.consumed
    inline_case other =
        let e : parse_inline (c ∷ s) ≡ q = ground arith in
        let l = parse_inline-Line (c ∷ s) (subst (λ p. 0 < p.consumed) (sym e) pos) in
        ground (arith, l.consumed, l.ended, crlf_done l.rest)

-- A command of one letter, written inline, is read by the parser, while the fast scan asks for more
-- bytes.
pub short_inline :
    (c : ℕ)
    → c ≢ cr
    → c ≢ b' '
    → c ≢ b'*'
    → (parse_request (c ∷ cr ∷ lf ∷ []) ≡ returns (record { args = (c ∷ []) ∷ []; consumed = 3 }))
      × (detect_request_boundary (c ∷ cr ∷ lf ∷ []) ≡ returns 0)
unfolding parse_request parse_inline to_cr crlf Resp.split_spaces detect_request_boundary
short_inline c h k l = ground arith
