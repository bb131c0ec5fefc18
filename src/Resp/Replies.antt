-- ===== src/Resp/Replies.antt =====
-- Resp.antt: the replies of the protocol, as the specification that `detect_response` answers to.
use ultra_net.Prelude.{
  ℕ, suc, ◌+◌, ◌-◌, ◌≤◌, ◌<◌, ◌≡◌, ◌≢◌, refl, ◌∙◌, [], ◌∷◌, ◌++◌, arith, length, length-append,
  Bytes, drop-append_self, drop_two, append_assoc, All, codes, false,
}
use ultra_net.Prelude.Decimal.{to_string, read_digits, max_i64, to_string_front}
use ultra_net.Resp.{
  Scan, ready, returns, cr, lf, crlf, number_line, line_end, bulk_end, sign, elements_end,
  array_end, response_end, detect_response,
}
use ultra_net.Resp.Lines.{number_line-to_string}

mutual
  pub data Reply : Type 0 where
    simple error integer bulk : Bytes → Reply
    null_bulk null_array : Reply
    array : Replies → Reply

  pub data Replies : Type 0 where
    none : Replies
    more : Reply → Replies → Replies

abbrev pub count : Replies → ℕ
count none = 0
count (more r rs) = suc (count rs)

-- The bytes of a reply on the wire.
mutual
  pub wire : Reply → Bytes
  wire (simple t) = b'+' ∷ (t ++ cr ∷ lf ∷ [])
  wire (error t) = b'-' ∷ (t ++ cr ∷ lf ∷ [])
  wire (integer t) = b':' ∷ (t ++ cr ∷ lf ∷ [])
  wire (bulk t) = b'$' ∷ (to_string (length t) ++ cr ∷ lf ∷ (t ++ cr ∷ lf ∷ []))
  wire null_bulk = codes "$-1\r\n"
  wire null_array = codes "*-1\r\n"
  wire (array rs) = b'*' ∷ (to_string (count rs) ++ cr ∷ lf ∷ wire_all rs)

  pub wire_all : Replies → Bytes
  wire_all none = []
  wire_all (more r rs) = wire r ++ wire_all rs

-- A line of text holds no carriage return, and lengths and counts fit an int64_t.
unfoldable mutual
  pub IsWire : Reply → Type 0
  IsWire (simple t) = All (λ c. c ≢ cr) t
  IsWire (error t) = All (λ c. c ≢ cr) t
  IsWire (integer t) = All (λ c. c ≢ cr) t
  IsWire (bulk t) = length t ≤ max_i64
  IsWire null_bulk = Unit
  IsWire null_array = Unit
  IsWire (array rs) = (count rs ≤ max_i64) × AreWire rs

  pub AreWire : Replies → Type 0
  AreWire none = Unit
  AreWire (more r rs) = IsWire r × AreWire rs

line_end-append : (t s : Bytes) → All (λ c. c ≢ cr) t → line_end (t ++ cr ∷ lf ∷ s) ≡ ready s
unfolding line_end
line_end-append [] s h = refl
line_end-append (c ∷ []) s (h, hs) = ground arith
line_end-append (c ∷ d ∷ t) s (h, hs) = ground (arith, line_end-append (d ∷ t) s hs)

sign-to_string : (n : ℕ) (s : Bytes) → sign (to_string n ++ s) ≡ (false, to_string n ++ s)
sign-to_string n s = ground (arith, to_string_front n)

bulk_end-wire :
    (t s : Bytes)
    → length t ≤ max_i64
    → bulk_end ((to_string (length t) ++ cr ∷ lf ∷ (t ++ cr ∷ lf ∷ [])) ++ s) ≡ ready s
unfolding bulk_end
bulk_end-wire t s fits = simp append_assoc (
    ground (
      arith,
      sign-to_string (length t) (cr ∷ lf ∷ (t ++ cr ∷ lf ∷ s)),
      number_line-to_string (length t) (t ++ cr ∷ lf ∷ s) fits,
      drop_two (length t) (t ++ cr ∷ lf ∷ s) (drop-append_self t (cr ∷ lf ∷ s)),
      length-append t (cr ∷ lf ∷ s),
    ))

array_end-to_string :
    (one : Bytes → Scan Bytes) (n : ℕ) (t s : Bytes)
    → n ≤ max_i64
    → array_end one ((to_string n ++ cr ∷ lf ∷ t) ++ s) ≡ elements_end one n (t ++ s)
unfolding array_end
array_end-to_string one n t s fits =
    simp append_assoc
      (ground (arith, sign-to_string n (cr ∷ lf ∷ (t ++ s)), number_line-to_string n (t ++ s) fits))

text_line : (t s : Bytes) → All (λ c. c ≢ cr) t → line_end ((t ++ cr ∷ lf ∷ []) ++ s) ≡ ready s
text_line t s h = simp append_assoc (line_end-append t s h)

bulk_end_null : (s : Bytes) → bulk_end (codes "-1\r\n" ++ s) ≡ ready s
unfolding bulk_end number_line crlf read_digits
bulk_end_null s = refl

array_end_null :
    (one : Bytes → Scan Bytes) (s : Bytes) → array_end one (codes "-1\r\n" ++ s) ≡ ready s
unfolding array_end number_line crlf read_digits
array_end_null one s = refl

elements_end-none : (one : Bytes → Scan Bytes) (s : Bytes) → elements_end one 0 s ≡ ready s
unfolding elements_end
elements_end-none one s = refl

elements_end-more :
    (f : ℕ) (s t u : Bytes) (n : ℕ)
    → response_end f (s ++ (t ++ u)) ≡ ready (t ++ u)
    → elements_end (response_end f) (suc n) ((s ++ t) ++ u)
      ≡ elements_end (response_end f) n (t ++ u)
unfolding elements_end
elements_end-more f s t u n e = rw append_assoc (rw e refl)

length_split : (s t u : Bytes) → length ((s ++ t) ++ u) ≡ length s + length (t ++ u)
length_split s t u = rw append_assoc (length-append s (t ++ u))

below_array :
    (n : ℕ) (t s : Bytes) (f : ℕ)
    → length (b'*' ∷ ((to_string n ++ cr ∷ lf ∷ t) ++ s)) ≤ f
    → length (t ++ s) < f
below_array n t s f h = omega (arith, length_split (to_string n) (cr ∷ lf ∷ t) s)

at_pred :
    (f : ℕ) (s t u : Bytes)
    → length ((s ++ t) ++ u) < f
    → response_end (suc (f - 1)) (s ++ (t ++ u)) ≡ ready (t ++ u)
    → response_end f (s ++ (t ++ u)) ≡ ready (t ++ u)
at_pred f s t u h e = let k : suc (f - 1) ≡ f = omega arith in rw k at e

mutual
  unfolding wire wire_all IsWire AreWire response_end

  response_end-wire :
      (r : Reply) (f : ℕ) (s : Bytes)
      → IsWire r
      → length (wire r ++ s) ≤ f
      → response_end (suc f) (wire r ++ s) ≡ ready s
  response_end-wire (simple t) f s v h = text_line t s v
  response_end-wire (error t) f s v h = text_line t s v
  response_end-wire (integer t) f s v h = text_line t s v
  response_end-wire (bulk t) f s v h = bulk_end-wire t s v
  response_end-wire null_bulk f s v h = bulk_end_null s
  response_end-wire null_array f s v h = array_end_null (response_end f) s
  response_end-wire (array rs) f s (few, vs) h =
      array_end-to_string (response_end f) (count rs) (wire_all rs) s few
      ∙ elements_end-wire rs f s vs (below_array (count rs) (wire_all rs) s f h)

  elements_end-wire :
      (rs : Replies) (f : ℕ) (s : Bytes)
      → AreWire rs
      → length (wire_all rs ++ s) < f
      → elements_end (response_end f) (count rs) (wire_all rs ++ s) ≡ ready s
  elements_end-wire none f s v h = elements_end-none (response_end f) s
  elements_end-wire (more r rs) f s (v, vs) h =
      elements_end-more f (wire r) (wire_all rs) s (count rs) (
        at_pred f (wire r) (wire_all rs) s h (
          response_end-wire r (f - 1) (wire_all rs ++ s) v (
            omega (
              arith,
              length_split (wire r) (wire_all rs) s,
              length-append (wire r) (wire_all rs ++ s),
            ))))
      ∙ elements_end-wire rs f s vs (omega (arith, length_split (wire r) (wire_all rs) s))

-- The scan finds the end of every reply of the protocol, arrays nested to any depth included, and
-- nothing of what comes behind it.
pub detect_response-wire :
    (r : Reply) (s : Bytes) → IsWire r → detect_response (wire r ++ s) ≡ returns (length (wire r))
unfolding detect_response
detect_response-wire r s v =
    ground (
      arith,
      response_end-wire r (length (wire r ++ s)) s v (omega arith),
      length-append (wire r) s,
    )
