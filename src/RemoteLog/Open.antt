-- ===== src/RemoteLog/Open.antt =====
-- The constructor of RemoteLog.antt, which has a loop of its own over the file, against the scan.
use ultra_net.Prelude.{
  ℕ, zero, suc, ◌+◌, ◌≤◌, ◌<◌, ◌^◌, ◌≡◌, refl, ap, ◌∙◌, Bool, List, [], ◌∷◌, some, arith, ltb, ◌==◌,
  length, take, drop, Bytes, u32, Bool-cases, Option-cases, inl, inr, length-drop, ◌⊎◌, ◌||◌, not,
}
use ultra_net.Log.{
  Frame, Read, torn, got, undefined, read_body, read_fields, read_frame, Scan, undefined, scanned,
  scan_loop, scan, has_prefix, read_le_u32, crc32_iso_hdlc,
}
use ultra_net.RemoteLog.{
  magic, data_ids, is_data, msg_id, Round, ends, goes_on, open_body, open_fields, open_round,
  open_loop, remote_log,
}

-- The round of the constructor that goes with what the scan reads.
pub round_of : Read → Round
round_of torn = ends
round_of undefined = ends
round_of (got f t) = goes_on f.type (msg_id f) t

open_body_agrees :
    (type : ℕ) (ids : Bytes) (n : ℕ) (c r s : Bytes)
    → length s < 2 ^ 32
    → open_body type ids n c r s ≡ round_of (read_body 8 type ids n c r s)
unfolding open_body read_body round_of msg_id
open_body_agrees type ids n c r s small = elim (Bool-cases (ltb (length s) (21 + n))) [
  | inl t ↦ elim (Bool-cases (ltb (length s) (u32 (21 + n)))) [
    | inl u ↦ ground (arith, t, u)
    | inr u ↦ ground (arith, t, u)
  ]
  | inr o ↦
      let fits : 21 + n ≤ length s = ground (arith, o) in
      let need : u32 (21 + n) ≡ 21 + n = omega (arith, fits, small) in
      elim (Option-cases (read_le_u32 (drop n r))) [
        | inl e ↦ ground (arith, o, need, e)
        | inr ((crc, q), e) ↦ elim (Bool-cases (crc32_iso_hdlc (take (u32 (13 + n)) c) == crc)) [
          | inl x ↦ ground (arith, o, need, e, x)
          | inr x ↦ ground (arith, o, need, e, x)
        ]
      ]
]

open_fields_agrees :
    (c s : Bytes) → length s < 2 ^ 32 → open_fields c s ≡ round_of (read_fields 8 c s)
unfolding open_fields read_fields round_of
open_fields_agrees [] s small = refl
open_fields_agrees (type ∷ r) s small = elim (Option-cases (read_le_u32 (drop 8 r))) [
  | inl e ↦ ground (arith, e)
  | inr ((n, q), e) ↦ ground (arith, e, open_body_agrees type (take 8 r) n (type ∷ r) q s small)
]

open_round_agrees : (s : Bytes) → length s < 2 ^ 32 → open_round s ≡ round_of (read_frame magic 8 s)
unfolding open_round read_frame round_of
open_round_agrees s small = elim (Bool-cases (ltb (length s) 21)) [
  | inl t ↦ ground (arith, t)
  | inr o ↦ elim (Bool-cases (has_prefix magic s)) [
    | inl h ↦ ground (arith, o, h, open_fields_agrees (drop 4 s) s small)
    | inr h ↦ ground (arith, o, h)
  ]
]

-- A round that goes on has taken some of the file.
open_body_shrinks :
    (type : ℕ) (ids : Bytes) (n : ℕ) (c r s : Bytes) {y id : ℕ} {t : Bytes}
    → length s < 2 ^ 32
    → open_body type ids n c r s ≡ goes_on y id t
    → length t < length s
unfolding open_body
open_body_shrinks type ids n c r s {y} {id} {t} small h =
    elim (Bool-cases (ltb (length s) (21 + n))) [
      | inl x ↦ absurd (ground (arith, x, h))
      | inr o ↦ elim (Option-cases (read_le_u32 (drop n r))) [
        | inl e ↦ absurd (ground (arith, o, e, h))
        | inr ((crc, q), e) ↦ elim (Bool-cases (crc32_iso_hdlc (take (u32 (13 + n)) c) == crc)) [
          | inl x ↦
              let fits : 21 + n ≤ length s = ground (arith, o) in
              let rest : t ≡ drop (u32 (21 + n)) s = ground (arith, o, e, x, h) in
              omega (arith, fits, small, ap length rest, length-drop (u32 (21 + n)) s)
          | inr x ↦ absurd (ground (arith, o, e, x, h))
        ]
      ]
    ]

open_fields_shrinks :
    (c s : Bytes) {y id : ℕ} {t : Bytes}
    → length s < 2 ^ 32
    → open_fields c s ≡ goes_on y id t
    → length t < length s
unfolding open_fields
open_fields_shrinks [] s small h = absurd (cc h)
open_fields_shrinks (type ∷ r) s {y} {id} {t} small h =
    elim (Option-cases (read_le_u32 (drop 8 r))) [
      | inl e ↦ absurd (ground (arith, e, h))
      | inr ((n, q), e) ↦
          open_body_shrinks type (take 8 r) n (type ∷ r) q s {y = y} {id = id} {t = t} small
            (ground (arith, e, h))
    ]

open_round_shrinks :
    (s : Bytes) {y id : ℕ} {t : Bytes}
    → length s < 2 ^ 32
    → open_round s ≡ goes_on y id t
    → length t < length s
unfolding open_round
open_round_shrinks s {y} {id} {t} small h =
    elim (Bool-cases (ltb (length s) 21 || not (has_prefix magic s))) [
      | inl x ↦ absurd (ground (arith, x, h))
      | inr o ↦
          open_fields_shrinks (drop 4 s) s {y = y} {id = id} {t = t} small (ground (arith, o, h))
    ]

open_round-nil : open_round [] ≡ ends
unfolding open_round
open_round-nil = refl

Read-cases :
    (x : Read) → (x ≡ torn) ⊎ (x ≡ Read.undefined) ⊎ ((f : Frame) × (t : Bytes) × (x ≡ got f t))
Read-cases torn = inl refl
Read-cases Read.undefined = inr (inl refl)
Read-cases (got f t) = inr (inr (f, t, refl))

Scan-cases :
    (x : Scan) → (x ≡ Scan.undefined) ⊎ ((fs : List Frame) × (bad : Bool) × (x ≡ scanned fs bad))
Scan-cases Scan.undefined = inl refl
Scan-cases (scanned fs bad) = inr (fs, bad, refl)

open_loop_agrees :
    (fuel : ℕ) (s : Bytes) {fs : List Frame} {bad : Bool}
    → length s < 2 ^ 32
    → length s < fuel
    → scan_loop magic 8 fuel s ≡ scanned fs bad
    → open_loop fuel s ≡ some (data_ids fs)
unfolding open_loop scan_loop data_ids is_data round_of
open_loop_agrees zero s small enough h = absurd (omega arith)
open_loop_agrees (suc fuel) [] {fs} {bad} small enough h = ground (arith, open_round-nil, h)
open_loop_agrees (suc fuel) (b ∷ s) {fs} {bad} small enough h =
    let agrees = open_round_agrees (b ∷ s) small in
    elim (Read-cases (read_frame magic 8 (b ∷ s))) [
      | inl e ↦ ground (arith, agrees, e, h)
      | inr (inl e) ↦ absurd (ground (arith, e, h))
      | inr (inr (f, t, e)) ↦
          let shrinks = open_round_shrinks (b ∷ s) small (agrees ∙ ap round_of e) in
          elim (Scan-cases (scan_loop magic 8 fuel t)) [
            | inl u ↦ absurd (ground (arith, e, u, h))
            | inr (gs, bad', u) ↦ ground (
              arith,
              agrees,
              e,
              u,
              h,
              open_loop_agrees fuel t (omega (arith, small, shrinks))
                  (omega (arith, enough, shrinks)) u,
            )
          ]
    ]

-- The two readers of the log agree: on a file of less than 2 ^ 32 bytes on which the scan reads nothing
-- out of bounds, the constructor returns, and knows the ids of the data records that the scan finds.
pub remote_log-scan :
    (bytes : Bytes) (opened : Bool) {fs : List Frame} {bad : Bool}
    → length bytes < 2 ^ 32
    → scan magic 8 bytes ≡ scanned fs bad
    → remote_log bytes opened ≡ some (record { fd_open = opened; file = bytes; ids = data_ids fs })
unfolding remote_log scan
remote_log-scan bytes opened {fs} {bad} small h =
    ground (
      arith,
      open_loop_agrees (suc (length bytes)) bytes {fs = fs} {bad = bad} small (omega arith) h,
    )
