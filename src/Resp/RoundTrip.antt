-- ===== src/Resp/RoundTrip.antt =====
-- Resp.antt: commands that `encode_request` writes are read back.
use ultra_net.Prelude.{
  ℕ, suc, ◌-◌, ◌≤◌, ◌≡◌, List, [], ◌∷◌, ◌++◌, arith, length, length-append, Bytes, append_assoc,
  append-nil, All, take-append_self, drop-append_self,
}
use ultra_net.Prelude.Decimal.{to_string, max_i64}
use ultra_net.Resp.{
  returns, cr, lf, crlf, encode_bulk, encode_args, encode_request, parse_args, parse_request,
}
use ultra_net.Resp.Lines.{number_line-to_string, bulk_header-to_string}

-- The lengths of the arguments fit an int64_t.
abbrev pub AreShort : List Bytes → Type 0
AreShort = All (λ arg. length arg ≤ max_i64)

bulk_front :
    (arg s : Bytes)
    → encode_bulk arg ++ s ≡ b'$' ∷ (to_string (length arg) ++ cr ∷ lf ∷ (arg ++ cr ∷ lf ∷ s))
unfolding encode_bulk
bulk_front arg s = simp append_assoc

after_header :
    (len n : ℕ) (arg s : Bytes) (done : List Bytes)
    → length arg ≤ max_i64
    → parse_args len
        (suc n)
        (b'$' ∷ (to_string (length arg) ++ cr ∷ lf ∷ (arg ++ cr ∷ lf ∷ s)))
        done
      ≡ parse_args len n s (done ++ arg ∷ [])
unfolding parse_args crlf
after_header len n arg s done fits = ground (
  arith,
  bulk_header-to_string (length arg) (arg ++ cr ∷ lf ∷ s) fits,
  take-append_self arg (cr ∷ lf ∷ s),
  drop-append_self arg (cr ∷ lf ∷ s),
  length-append arg (cr ∷ lf ∷ s),
)

parse_args-encode_args :
    (len : ℕ) (args : List Bytes) (s : Bytes) (done : List Bytes)
    → AreShort args
    → parse_args len (length args) (encode_args args ++ s) done
      ≡ returns (record { args = done ++ args; consumed = len - length s })
unfolding encode_args
parse_args-encode_args len [] s done short = unfold parse_args in rw append-nil
parse_args-encode_args len (arg ∷ args) s done (fits, short) = rw (
  append_assoc,
  bulk_front,
  after_header len (length args) arg _ done fits,
  parse_args-encode_args len args s (done ++ arg ∷ []) short,
  append_assoc,
)

length-encode_request :
    (args : List Bytes) (s : Bytes)
    → length (b'*' ∷ (to_string (length args) ++ cr ∷ lf ∷ (encode_args args ++ s))) - length s
      ≡ length (encode_request args)
unfolding encode_request
length-encode_request args s = grind (arith, length-append, append_assoc)

-- The parser reads back the arguments of an encoded command, whatever bytes they hold and whatever
-- comes behind it, and consumes exactly the encoded command.
pub parse_request-encode_request :
    (args : List Bytes) (s : Bytes)
    → length args ≤ max_i64
    → AreShort args
    → parse_request (encode_request args ++ s)
      ≡ returns (record { args = args; consumed = length (encode_request args) })
unfolding parse_request encode_request
parse_request-encode_request args s few short = rw append_assoc (
    ground (
      arith,
      number_line-to_string (length args) (encode_args args ++ s) few,
      parse_args-encode_args
          (suc (length (to_string (length args) ++ cr ∷ lf ∷ (encode_args args ++ s)))) args s []
          short,
      length-encode_request args s,
    ))
