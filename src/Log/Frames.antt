-- ===== src/Log/Frames.antt =====
-- Log.antt: a record that was written whole is read back; one that was cut short is noticed.
use Prim.Native.Nat.{bit_xor}
use ultra_net.Prelude.{
  ℕ, zero, suc, ◌+◌, ◌/◌, ◌%◌, ◌^◌, ◌≤◌, ◌<◌, ◌≡◌, refl, sym, ap, ◌∙◌, true, List, [], ◌∷◌, ◌++◌,
  some, arith, ◌==◌, length, length-append, take, drop, take-append_self, drop-append_self, Bytes,
  append_assoc, u32, Bool-cases, inl, inr, append-nil, All, All-append, IsByte,
}
use ultra_net.Prelude.Bits.{xor-lt}
use ultra_net.Prelude.Endian.{take_le-le_bytes, length-le_bytes, le_bytes-IsByte, take_le-append}
use ultra_net.Log.{
  crc_bits, crc_bytes, crc32_iso_hdlc, Frame, covered, frame_bytes, log_bytes, got, has_prefix,
  read_body, read_fields, read_frame, write_le_u32, read_le_u32, write_le_u64, read_le_u64,
}

-- The sizes of a record fit its fields.
pub record IsFrame (k : ℕ) (f : Frame) : Type 0 where
  pub type : f.type < 256
  pub ids : length f.ids ≡ k
  pub id_bytes : All IsByte f.ids
  pub body_bytes : All IsByte f.body
  pub body : length f.body + k + 13 < 2 ^ 32

crc_bits-lt : (n crc : ℕ) → crc < 2 ^ 32 → crc_bits n crc < 2 ^ 32
unfolding crc_bits
crc_bits-lt zero crc h = h
crc_bits-lt (suc n) crc h = elim (Bool-cases (crc % 2 == 0)) [
  | inl e ↦ rw e (crc_bits-lt n (crc / 2) (omega arith))
  | inr o ↦ rw o (
      crc_bits-lt n (bit_xor (crc / 2) 0xedb88320)
        (xor-lt 32 (crc / 2) 0xedb88320 (omega arith) (omega arith)))
]

crc_bytes-lt : (crc : ℕ) (s : Bytes) → crc < 2 ^ 32 → All IsByte s → crc_bytes crc s < 2 ^ 32
unfolding crc_bytes
crc_bytes-lt crc [] h v = h
crc_bytes-lt crc (b ∷ s) h (v, vs) =
    crc_bytes-lt (crc_bits 8 (bit_xor crc b)) s
      (crc_bits-lt 8 (bit_xor crc b) (xor-lt 32 crc b h (omega arith))) vs

write_le_u32-IsByte : (v : ℕ) → All IsByte (write_le_u32 v)
unfolding write_le_u32
write_le_u32-IsByte v = le_bytes-IsByte 4 v

pub length-write_le_u32 : (v : ℕ) → length (write_le_u32 v) ≡ 4
unfolding write_le_u32
length-write_le_u32 v = length-le_bytes 4 v

pub read_le_u32-write_le_u32 :
    (v : ℕ) (t : Bytes) → v < 2 ^ 32 → read_le_u32 (write_le_u32 v ++ t) ≡ some (v, t)
unfolding read_le_u32 write_le_u32
read_le_u32-write_le_u32 v t h = take_le-le_bytes 4 v t h

pub length-write_le_u64 : (v : ℕ) → length (write_le_u64 v) ≡ 8
unfolding write_le_u64
length-write_le_u64 v = length-le_bytes 8 v

pub write_le_u64-IsByte : (v : ℕ) → All IsByte (write_le_u64 v)
unfolding write_le_u64
write_le_u64-IsByte v = le_bytes-IsByte 8 v

pub read_le_u64-write_le_u64 :
    (v : ℕ) (t : Bytes) → v < 2 ^ 64 → read_le_u64 (write_le_u64 v ++ t) ≡ v
unfolding read_le_u64 write_le_u64
read_le_u64-write_le_u64 v t h = ground (arith, take_le-le_bytes 8 v t h)

pub read_le_u32-append :
    (s t : Bytes) {n : ℕ} {r : Bytes}
    → read_le_u32 s ≡ some (n, r)
    → read_le_u32 (s ++ t) ≡ some (n, r ++ t)
unfolding read_le_u32
read_le_u32-append s t {n} {r} h = take_le-append 4 s t {n = n} {r = r} h

covered-IsByte : (k : ℕ) (f : Frame) → IsFrame k f → All IsByte (covered f)
unfolding covered
covered-IsByte k f v = (
  v.type,
  All-append IsByte f.ids _ v.id_bytes (
      All-append IsByte (write_le_u32 (u32 (length f.body))) f.body
        (write_le_u32-IsByte (u32 (length f.body))) v.body_bytes),
)

checksum-lt : (k : ℕ) (f : Frame) → IsFrame k f → crc32_iso_hdlc (covered f) < 2 ^ 32
unfolding crc32_iso_hdlc
checksum-lt k f v =
    xor-lt 32 (crc_bytes 0xffffffff (covered f)) 0xffffffff
      (crc_bytes-lt 0xffffffff (covered f) (omega arith) (covered-IsByte k f v)) (omega arith)

pub has_prefix_self : (m s : Bytes) → has_prefix m (m ++ s) ≡ true
unfolding has_prefix
has_prefix_self [] s = refl
has_prefix_self (b ∷ m) s = ground (arith, has_prefix_self m s)

length-covered : (k : ℕ) (f : Frame) → IsFrame k f → length (covered f) ≡ 5 + k + length f.body
unfolding covered
length-covered k f v = omega (
  arith,
  v.ids,
  length-append f.ids (write_le_u32 (u32 (length f.body)) ++ f.body),
  length-append (write_le_u32 (u32 (length f.body))) f.body,
  length-write_le_u32 (u32 (length f.body)),
)

-- The file behind the magic number of a record, as its fields.
pub covered_as :
    (f : Frame) (t : Bytes)
    → covered f ++ t ≡ f.type ∷ (f.ids ++ (write_le_u32 (u32 (length f.body)) ++ (f.body ++ t)))
unfolding covered
covered_as f t = simp append_assoc

read_body_back :
    (k : ℕ) (f : Frame) (c s t : Bytes)
    → IsFrame k f
    → c ≡ covered f ++ (write_le_u32 (crc32_iso_hdlc (covered f)) ++ t)
    → 13 + k + length f.body ≤ length s
    → read_body k f.type f.ids
        (length f.body)
        c
        (f.body ++ (write_le_u32 (crc32_iso_hdlc (covered f)) ++ t))
        s
      ≡ got f (drop (13 + k + length f.body) s)
unfolding read_body
read_body_back k f c s t v e room =
    let n = length f.body in
    let crc = crc32_iso_hdlc (covered f) in
    let whole : take (5 + k + n) c ≡ covered f =
      ap (take (5 + k + n)) e
      ∙ ap (λ m. take m (covered f ++ (write_le_u32 crc ++ t))) (sym (length-covered k f v))
      ∙ take-append_self (covered f) (write_le_u32 crc ++ t) in
    let need : u32 (13 + k + n) ≡ 13 + k + n = omega (arith, v.body) in
    let span : u32 (5 + k + n) ≡ 5 + k + n = omega (arith, v.body) in
    ground (
      arith,
      need,
      span,
      whole,
      room,
      take-append_self f.body (write_le_u32 crc ++ t),
      drop-append_self f.body (write_le_u32 crc ++ t),
      read_le_u32-write_le_u32 crc t (checksum-lt k f v),
    )

read_fields_back :
    (k : ℕ) (f : Frame) (r s : Bytes)
    → length f.ids ≡ k
    → length f.body < 2 ^ 32
    → let c = f.type ∷ (f.ids ++ (write_le_u32 (u32 (length f.body)) ++ r)) in
      read_fields k c s ≡ read_body k f.type f.ids (length f.body) c r s
unfolding read_fields
read_fields_back k f r s e h =
    let field = write_le_u32 (u32 (length f.body)) ++ r in
    let behind : drop k (f.ids ++ field) ≡ field =
      ap (λ m. drop m (f.ids ++ field)) (sym e) ∙ drop-append_self f.ids field in
    let front : take k (f.ids ++ field) ≡ f.ids =
      ap (λ m. take m (f.ids ++ field)) (sym e) ∙ take-append_self f.ids field in
    let size : u32 (length f.body) ≡ length f.body = omega (arith, h) in
    ground
      (arith, behind, front, size, read_le_u32-write_le_u32 (u32 (length f.body)) r (omega arith))

pub length-frame_bytes :
    (magic : Bytes) (k : ℕ) (f : Frame)
    → length magic ≡ 4
    → IsFrame k f
    → length (frame_bytes magic f) ≡ 13 + k + length f.body
unfolding frame_bytes
length-frame_bytes magic k f m v = omega (
  arith,
  m,
  length-append magic (covered f ++ write_le_u32 (crc32_iso_hdlc (covered f))),
  length-append (covered f) (write_le_u32 (crc32_iso_hdlc (covered f))),
  length-write_le_u32 (crc32_iso_hdlc (covered f)),
  length-covered k f v,
)

pub frame_bytes_as :
    (magic : Bytes) (f : Frame)
    → frame_bytes magic f ≡ magic ++ (covered f ++ write_le_u32 (crc32_iso_hdlc (covered f)))
unfolding frame_bytes
frame_bytes_as magic f = refl

pub frame_split :
    (magic : Bytes) (f : Frame) (t : Bytes)
    → frame_bytes magic f ++ t
      ≡ magic ++ (covered f ++ (write_le_u32 (crc32_iso_hdlc (covered f)) ++ t))
unfolding frame_bytes
frame_split magic f t = simp append_assoc

-- A record that was written whole is read back, and the scan goes on behind it.
pub read_frame-frame_bytes :
    (magic : Bytes) (k : ℕ) (f : Frame) (t : Bytes)
    → length magic ≡ 4
    → IsFrame k f
    → read_frame magic k (frame_bytes magic f ++ t) ≡ got f t
unfolding read_frame
read_frame-frame_bytes magic k f t m v =
    let n = length f.body in
    let rest = write_le_u32 (crc32_iso_hdlc (covered f)) ++ t in
    let fields = f.type ∷ (f.ids ++ (write_le_u32 (u32 n) ++ (f.body ++ rest))) in
    let s = frame_bytes magic f ++ t in
    let size : length s ≡ 13 + k + n + length t =
      omega (arith, length-append (frame_bytes magic f) t, length-frame_bytes magic k f m v) in
    let magical : has_prefix magic s ≡ true =
      ap (has_prefix magic) (frame_split magic f t) ∙ has_prefix_self magic (covered f ++ rest) in
    let behind : drop 4 s ≡ fields =
      ap (drop 4) (frame_split magic f t)
      ∙ ap (λ j. drop j (magic ++ (covered f ++ rest))) (sym m)
      ∙ drop-append_self magic (covered f ++ rest)
      ∙ covered_as f rest in
    let next : drop (13 + k + n) s ≡ t =
      ap (λ j. drop j s) (sym (length-frame_bytes magic k f m v))
      ∙ drop-append_self (frame_bytes magic f) t in
    let read : read_fields k (drop 4 s) s ≡ got f t =
      ap (λ c. read_fields k c s) behind
      ∙ read_fields_back k f (f.body ++ rest) s v.ids (omega (arith, v.body))
      ∙ read_body_back k f fields s t v (sym (covered_as f rest)) (omega (arith, size))
      ∙ ap (got f) next in
    ground (arith, size, magical, read)

pub log_bytes-snoc :
    (m : Bytes) (fs : List Frame) (f : Frame)
    → log_bytes m (fs ++ (f ∷ [])) ≡ log_bytes m fs ++ frame_bytes m f
unfolding log_bytes
log_bytes-snoc m [] f = append-nil (frame_bytes m f)
log_bytes-snoc m (g ∷ fs) f =
    ap (λ t. frame_bytes m g ++ t) (log_bytes-snoc m fs f)
    ∙ sym (append_assoc (frame_bytes m g) (log_bytes m fs) (frame_bytes m f))

pub log_bytes-nil : (m : Bytes) → [] ≡ log_bytes m []
unfolding log_bytes
log_bytes-nil m = refl
