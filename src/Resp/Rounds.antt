-- ===== src/Resp/Rounds.antt =====
-- Resp.antt: one round of the loop over the arguments of a command, and the loop.
use ultra_net.Prelude.{
  ℕ, zero, suc, ◌+◌, ◌-◌, ◌≤◌, ◌<◌, ◌≡◌, refl, ap, ◌∙◌, List, [], ◌∷◌, ◌++◌, arith, length,
  length-append, Bytes, take-append, drop-append, drop_two, take, drop, inl, inr, ◌⊎◌, length-drop,
}
use ultra_net.Resp.{
  Scan, ready, RespRequest, returns, cr, lf, crlf, bulk_header, parse_args, skip_args,
}
use ultra_net.Resp.Lines.{crlf-ready, bulk_header-length, bulk_header-append}

pub Scan-cases {ℓ} :
    {A : Type ℓ} (s : Scan A)
    → ((a : A) × (s ≡ ready a)) ⊎ ((s ≡ Scan.incomplete) ⊎ (s ≡ Scan.undefined))
Scan-cases (ready a) = inl (a, refl)
Scan-cases Scan.incomplete = inr (inl refl)
Scan-cases Scan.undefined = inr (inr refl)

-- What one round of the loop over the arguments has read, if a command was found in the end.
record Round (len n : ℕ) (s : Bytes) (done : List Bytes) (q : RespRequest) : Type 0 where
  size : ℕ
  after : Bytes
  rest : Bytes
  header : bulk_header s ≡ ready (size, after)
  enough : size + 2 ≤ length after
  closed_by : drop size after ≡ cr ∷ lf ∷ rest
  go_on : parse_args len n rest (done ++ take size after ∷ []) ≡ returns q

parse_args-Round :
    (len n : ℕ) (s : Bytes) (done : List Bytes) (q : RespRequest)
    → parse_args len (suc n) s done ≡ returns q
    → 0 < q.consumed
    → Round len n s done q
unfolding parse_args
parse_args-Round len n s done q h pos = elim (Scan-cases (bulk_header s)) [
  | inl ((m, r), e) ↦ elim (Scan-cases (crlf (drop m r))) [
    | inl (t, k) ↦ record {
      size = m;
      after = r;
      rest = t;
      header = e;
      enough = ground arith;
      closed_by = crlf-ready (drop m r) k;
      go_on = ground arith;
    }
    | inr (inl k) ↦ absurd (ground arith)
    | inr (inr k) ↦ absurd (ground arith)
  ]
  | inr (inl e) ↦ absurd (ground arith)
  | inr (inr e) ↦ absurd (ground arith)
]

Round-rest :
    {len n : ℕ} {s : Bytes} {done : List Bytes} {q : RespRequest} (r : Round len n s done q)
    → length r.rest < length s
Round-rest {s} r =
    omega (arith, bulk_header-length s r.header, ap length r.closed_by, length-drop r.size r.after)

Round-append :
    {len n : ℕ} {s : Bytes} {done : List Bytes} {q : RespRequest} (r : Round len n s done q)
    (t : Bytes)
    → parse_args (len + length t) (suc n) (s ++ t) done
      ≡ parse_args (len + length t) n (r.rest ++ t) (done ++ take r.size r.after ∷ [])
unfolding parse_args crlf
Round-append {s} r t = ground (
  arith,
  bulk_header-append s t r.header,
  drop-append r.size r.after t,
  take-append r.size r.after t,
  length-append r.after t,
  r.closed_by,
  r.enough,
)

pub parse_args-append :
    (len n : ℕ) (s t : Bytes) (done : List Bytes) (q : RespRequest)
    → parse_args len n s done ≡ returns q
    → 0 < q.consumed
    → parse_args (len + length t) n (s ++ t) done ≡ returns q
parse_args-append len zero s t done q h pos = unfold parse_args in ground (arith, length-append s t)
parse_args-append len (suc n) s t done q h pos =
    let r = parse_args-Round len n s done q h pos in
    Round-append r t ∙ parse_args-append len n r.rest t _ q r.go_on pos

-- The fast scan ends where the loop over the arguments does.
pub skip_args-parse_args :
    (len n : ℕ) (s : Bytes) (done : List Bytes) (q : RespRequest)
    → parse_args len n s done ≡ returns q
    → 0 < q.consumed
    → (r : Bytes) × (skip_args n s ≡ ready r)
      × (q.consumed ≡ len - length r)
      × (length r ≤ length s)
skip_args-parse_args len zero s done q h pos =
    unfold parse_args skip_args in (s, ground arith, ground arith, ground arith)
skip_args-parse_args len (suc n) s done q h pos =
    let r = parse_args-Round len n s done q h pos in
    let (t, e, c, l) = skip_args-parse_args len n r.rest _ q r.go_on pos in
    (t, skip_round r ∙ e, c, omega (arith, Round-rest r))
  where
    skip_round :
        {done : List Bytes} (r : Round len n s done q) → skip_args (suc n) s ≡ skip_args n r.rest
    skip_round r =
        unfold skip_args in ground (arith, r.header, r.enough, drop_two r.size r.after r.closed_by)
