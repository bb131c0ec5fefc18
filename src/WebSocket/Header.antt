-- ===== src/WebSocket/Header.antt =====
-- WebSocket.antt: the header that the encoder writes is the one that the decoder reads.
use Prim.Native.Nat.{bit_and, bit_or}
use ultra_net.Prelude.{
  ℕ, suc, ◌+◌, ◌<◌, ◌^◌, ◌≡◌, refl, ap, Bool, true, false, not, [], ◌∷◌, ◌++◌, some, arith, ltb,
  leb, ◌==◌, length, if◌then◌else◌, Bytes, inl, inr, Bool-cases,
}
use ultra_net.Prelude.Bits.{byte_masks, or_high, xor_twice}
use ultra_net.Prelude.Endian.{take_be-be_bytes, length-be_bytes, be_bytes}
use ultra_net.WebSocket.{length_field, read_length, extended_size, apply_key, key_byte}

-- Applying a key twice gives the payload back.
pub apply_key_twice : (k i : ℕ) (s : Bytes) → apply_key k i (apply_key k i s) ≡ s
unfolding apply_key
apply_key_twice k i [] = refl
apply_key_twice k i (c ∷ s) = rw (xor_twice c (key_byte k i), apply_key_twice k (i + 1) s)

pub length-apply_key : (k i : ℕ) (s : Bytes) → length (apply_key k i s) ≡ length s
unfolding apply_key
length-apply_key k i [] = refl
length-apply_key k i (c ∷ s) = ap suc (length-apply_key k (i + 1) s)

-- The second byte of a frame and the extended length behind it.
pub record IsRead (apply_mask : Bool) (n : ℕ) : Type 0 where
  pub first : ℕ
  pub extended : Bytes
  pub written : length_field apply_mask n ≡ first ∷ extended
  pub mask_bit : not (bit_and first 0x80 == 0) ≡ apply_mask
  pub size : length extended ≡ extended_size n
  pub read :
      (s : Bytes)
      → read_length (bit_and first 0x7f) (extended ++ s) ≡ some (n, 2 + extended_size n, s)

abbrev mask_bit_of : Bool → ℕ
mask_bit_of apply_mask = if apply_mask then 0x80 else 0

joined : (m : Bool) (n : ℕ) → n < 128 → bit_or (mask_bit_of m) n ≡ mask_bit_of m + n
joined true n h = (or_high n h).0
joined false n h = omega (arith, (or_high n h).1)

mask_bit_read :
    (m : Bool) (n : ℕ)
    → n < 128
    → (not (bit_and (mask_bit_of m + n) 0x80 == 0) ≡ m) × (bit_and (mask_bit_of m + n) 0x7f ≡ n)
mask_bit_read true n h = ground (arith, byte_masks (128 + n) (omega arith))
mask_bit_read false n h = ground (arith, byte_masks (0 + n) (omega arith))

pub length_field-IsRead : (m : Bool) (n : ℕ) → n < 2 ^ 63 → IsRead m n
unfolding length_field read_length
length_field-IsRead m n h = elim (Bool-cases (ltb n 126)) [
  | inl small ↦ record {
    first = mask_bit_of m + n;
    extended = [];
    written = ground (arith, joined m n (ground arith));
    mask_bit = (mask_bit_read m n (ground arith)).0;
    size = ground arith;
    read = λ s. ground (arith, mask_bit_read m n (ground arith));
  }
  | inr big ↦ elim (Bool-cases (leb n 65535)) [
    | inl medium ↦ record {
      first = mask_bit_of m + 126;
      extended = be_bytes 2 n;
      written = ground (arith, joined m 126 (omega arith));
      mask_bit = (mask_bit_read m 126 (omega arith)).0;
      size = ground (arith, length-be_bytes 2 n);
      read = λ s.
          ground (arith, mask_bit_read m 126 (omega arith), take_be-be_bytes 2 n s (ground arith));
    }
    | inr large ↦ record {
      first = mask_bit_of m + 127;
      extended = be_bytes 8 n;
      written = ground (arith, joined m 127 (omega arith));
      mask_bit = (mask_bit_read m 127 (omega arith)).0;
      size = ground (arith, length-be_bytes 8 n);
      read = λ s.
          ground (arith, mask_bit_read m 127 (omega arith), take_be-be_bytes 8 n s (omega arith));
    }
  ]
]
