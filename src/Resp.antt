-- ===== src/Resp.antt =====
-- app/redis-proxy/resp.hpp: the boundaries and arguments of RESP commands and replies. A pointer
-- into the buffer is the list of the bytes from it to the end. The lengths and counts are int64_t:
-- a digit string beyond that range makes the sum overflow, which C++ leaves undefined, and so the
-- result is `undefined` there.
pub mod Lines
pub mod RoundTrip
pub mod Rounds
pub mod Request
pub mod Response
pub mod Replies
mod Tests
use ultra_net.Prelude.{
  ℕ, zero, suc, ◌+◌, ◌-◌, Bool, true, false, ◌&&◌, List, [], ◌∷◌, ◌++◌, Option, none, some, ltb,
  ◌==◌, if◌then◌else◌, length, take, drop, Bytes,
}
use ultra_net.Prelude.Decimal.{read_digits, to_string}

abbrev pub cr : ℕ
cr = 13

abbrev pub lf : ℕ
lf = 10

-- What a scan of the buffer comes to: a value, a need for more bytes, or undefined behaviour.
pub data Scan {ℓ} (A : Type ℓ) : Type ℓ where
  ready : A → Scan A
  incomplete undefined : Scan A

infixl 5 ◌>>=◌
abbrev pub ◌>>=◌ {ℓ κ} : {A : Type ℓ} {B : Type κ} → Scan A → (A → Scan B) → Scan B
ready a >>= f = f a
incomplete >>= f = incomplete
undefined >>= f = undefined

-- The two bytes that end a line.
pub crlf : Bytes → Scan Bytes
crlf [] = incomplete
crlf (c ∷ []) = incomplete
crlf (c ∷ d ∷ s) = if c == cr && d == lf then ready s else incomplete

-- The digits of a count or a length.
abbrev pub digits : Bytes → Scan (ℕ × Bytes)
digits s = elim (read_digits s 0) [ none ↦ undefined | some r ↦ ready r ]

-- Digits and the end of the line.
pub number_line : Bytes → Scan (ℕ × Bytes)
number_line s = do (n, r) ← digits s; t ← crlf r; ready (n, t)

-- `$<len>\r\n`.
pub bulk_header : Bytes → Scan (ℕ × Bytes)
bulk_header [] = incomplete
bulk_header (c ∷ s) = if c == b'$' then number_line s else incomplete

pub record RespRequest : Type 0 where
  pub args : List Bytes
  pub consumed : ℕ

-- What the function returns, or that its behaviour is undefined.
pub data Outcome {ℓ} (A : Type ℓ) : Type ℓ where
  returns : A → Outcome A
  undefined : Outcome A

abbrev pub need_more : List Bytes → Outcome RespRequest
need_more args = returns (record { args = args; consumed = 0 })

-- The continuation of a scan inside `parse_request`, which keeps the arguments that it has.
abbrev pub on_scan {ℓ} :
    {A : Type ℓ} → List Bytes → Scan A → (A → Outcome RespRequest) → Outcome RespRequest
on_scan args (ready a) f = f a
on_scan args incomplete f = need_more args
on_scan args undefined f = undefined

-- The loop over the arguments; `len` is the length of the whole buffer.
pub parse_args : ℕ → ℕ → Bytes → List Bytes → Outcome RespRequest
parse_args len zero s args = returns (record { args = args; consumed = len - length s })
parse_args len (suc n) s args = on_scan args (bulk_header s) λ r.
    (if ltb (length r.1) (r.0 + 2)
      then need_more args
      else (let args' = args ++ (take r.0 r.1) ∷ [] in
          on_scan args' (crlf (drop r.0 r.1)) λ t. parse_args len n t args'))

-- The bytes before the first carriage return, and those from it on.
pub to_cr : Bytes → Option (Bytes × Bytes)
to_cr [] = none
to_cr (c ∷ s) =
    if c == cr
    then some ([], c ∷ s)
    else elim (to_cr s) [ none ↦ none | some (l, r) ↦ some (c ∷ l, r) ]

-- Runs of spaces make no empty argument.
abbrev pub push_arg : Bytes → List Bytes → List Bytes
push_arg [] args = args
push_arg (c ∷ cs) args = (c ∷ cs) ∷ args

-- The arguments between spaces; `cur` is the one that is being read.
pub split_spaces : Bytes → Bytes → List Bytes
split_spaces [] cur = push_arg cur []
split_spaces (c ∷ s) cur =
    let stop = push_arg cur (split_spaces s []) in
    let go_on = split_spaces s (cur ++ c ∷ []) in if c == b' ' then stop else go_on

pub parse_inline : Bytes → RespRequest
parse_inline s = elim (to_cr s) [
  | none ↦ record { args = []; consumed = 0 }
  | some (line, r) ↦ elim (crlf r) [
    | ready t ↦ record { args = split_spaces line []; consumed = length s - length t }
    | incomplete ↦ record { args = []; consumed = 0 }
    | undefined ↦ record { args = []; consumed = 0 }
  ]
]

pub parse_request : Bytes → Outcome RespRequest
parse_request [] = need_more []
parse_request (c ∷ s) =
    if c == b'*'
    then on_scan [] (number_line s) (λ r. parse_args (length (c ∷ s)) r.0 r.1 [])
    else returns (parse_inline (c ∷ s))

-- `$<len>\r\n<arg>\r\n`
pub encode_bulk : Bytes → Bytes
encode_bulk arg = b'$' ∷ (to_string (length arg) ++ cr ∷ lf ∷ (arg ++ cr ∷ lf ∷ []))

pub encode_args : List Bytes → Bytes
encode_args [] = []
encode_args (arg ∷ args) = encode_bulk arg ++ encode_args args

pub encode_request : List Bytes → Bytes
encode_request args = b'*' ∷ (to_string (length args) ++ cr ∷ lf ∷ encode_args args)

-- The loop of `detect_request_boundary`: the two bytes behind the argument are not looked at.
pub skip_args : ℕ → Bytes → Scan Bytes
skip_args zero s = ready s
skip_args (suc n) s = do
  (m, r) ← bulk_header s
  if ltb (length r) (m + 2) then incomplete else skip_args n (drop (m + 2) r)

-- The length of what a scan has passed over; 0 asks for more bytes.
abbrev pub passed : Bytes → Scan Bytes → Outcome ℕ
passed s (ready r) = returns (length s - length r)
passed s incomplete = returns 0
passed s undefined = undefined

pub inline_end : Bytes → Scan Bytes
inline_end s = elim (to_cr s) [ none ↦ incomplete | some (l, r) ↦ crlf r ]

pub request_end : Bytes → Scan Bytes
request_end [] = incomplete
request_end (c ∷ s) =
    if c == b'*' then (do (n, r) ← number_line s; skip_args n r) else inline_end (c ∷ s)

pub detect_request_boundary : Bytes → Outcome ℕ
detect_request_boundary s = if ltb (length s) 4 then returns 0 else passed s (request_end s)

-- `while (p < end)` up to the first "\r\n".
pub line_end : Bytes → Scan Bytes
line_end [] = incomplete
line_end (c ∷ []) = incomplete
line_end (c ∷ d ∷ s) = let rest = line_end (d ∷ s) in if c == cr && d == lf then ready s else rest

-- `negative`, and the text behind the sign.
abbrev pub sign : Bytes → Bool × Bytes
sign [] = (false, [])
sign (c ∷ s) = if c == b'-' then (true, s) else (false, c ∷ s)

pub bulk_end : Bytes → Scan Bytes
bulk_end s = do
  (n, r) ← number_line (sign s).1
  if (sign s).0
      then ready r
      else (if ltb (length r) (n + 2) then incomplete else ready (drop (n + 2) r))

-- The elements of an array, each found by `one`.
pub elements_end : (Bytes → Scan Bytes) → ℕ → Bytes → Scan Bytes
elements_end one zero s = ready s
elements_end one (suc n) s = do r ← one s; elements_end one n r

-- The count of an array, and its elements.
pub array_end : (Bytes → Scan Bytes) → Bytes → Scan Bytes
array_end one s = do
  (n, r) ← number_line (sign s).1
  if (sign s).0 then ready r else elements_end one n r

-- The end of the reply at the front of the buffer. Each level of nesting takes a byte, so that fuel
-- beyond the length of the buffer is enough; without fuel the scan asks for more bytes.
pub response_end : ℕ → Bytes → Scan Bytes
response_end zero s = incomplete
response_end (suc f) [] = incomplete
response_end (suc f) (c ∷ s) =
    if c == b'+'
    then line_end s
    else if c == b'-'
    then line_end s
    else if c == b':'
    then line_end s
    else if c == b'$'
    then bulk_end s
    else if c == b'*'
    then array_end (response_end f) s
    else incomplete

pub detect_response : Bytes → Outcome ℕ
detect_response s = passed s (response_end (suc (length s)) s)
