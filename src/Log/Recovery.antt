-- ===== src/Log/Recovery.antt =====
-- Log.antt: what the scan finds in a file of whole records, and in one whose last record is torn.
use ultra_net.Prelude.{
  ℕ, suc, ◌+◌, ◌≤◌, ◌<◌, ◌≡◌, refl, sym, ap, ◌∙◌, Bool, true, false, List, [], ◌∷◌, ◌++◌, some,
  arith, ltb, length, length-append, append-nil, ◌-◌, drop, append_assoc, Bytes, drop-append,
  drop-append_self, length-drop, u32, All, Option-cases, Bool-cases, inl, inr,
}
use ultra_net.Log.{
  Frame, frame_bytes, log_bytes, torn, got, read_frame, Scan, scanned, add_frame, scan_loop, scan,
  covered, has_prefix, read_fields, read_body, read_le_u32, write_le_u32, crc32_iso_hdlc,
}
use ultra_net.Log.Frames.{
  IsFrame, read_frame-frame_bytes, length-frame_bytes, frame_bytes_as, covered_as,
  read_le_u32-append, read_le_u32-write_le_u32,
}

read_frame-nil : (magic : Bytes) (k : ℕ) → read_frame magic k [] ≡ torn
unfolding read_frame
read_frame-nil magic k = ground arith

pub read_frame_no_magic :
    (magic : Bytes) (k : ℕ) (s : Bytes) → has_prefix magic s ≡ false → read_frame magic k s ≡ torn
unfolding read_frame
read_frame_no_magic magic k s e = ground (arith, e)

-- What a round of the loop does, told by what was read.
scan_loop-got :
    (magic : Bytes) (k n : ℕ) (s : Bytes) (f : Frame) (t : Bytes)
    → read_frame magic k s ≡ got f t
    → scan_loop magic k (suc n) s ≡ add_frame f (scan_loop magic k n t)
unfolding scan_loop
scan_loop-got magic k n [] f t e = absurd (ground (arith, e, read_frame-nil magic k))
scan_loop-got magic k n (b ∷ s) f t e = ground (arith, e)

scan_loop-nil : (magic : Bytes) (k n : ℕ) → scan_loop magic k (suc n) [] ≡ scanned [] false
unfolding scan_loop
scan_loop-nil magic k n = refl

scan_loop_torn :
    (magic : Bytes) (k n : ℕ) (s : Bytes)
    → 0 < length s
    → read_frame magic k s ≡ torn
    → scan_loop magic k (suc n) s ≡ scanned [] true
unfolding scan_loop
scan_loop_torn magic k n [] pos e = absurd (omega arith)
scan_loop_torn magic k n (b ∷ s) pos e = ground (arith, e)

-- A record in front of anything else, in the loop.
scan_loop-frame_bytes :
    (magic : Bytes) (k n : ℕ) (f : Frame) (t : Bytes)
    → length magic ≡ 4
    → IsFrame k f
    → scan_loop magic k (suc n) (frame_bytes magic f ++ t) ≡ add_frame f (scan_loop magic k n t)
scan_loop-frame_bytes magic k n f t m v =
    scan_loop-got magic k n (frame_bytes magic f ++ t) f t (read_frame-frame_bytes magic k f t m v)

abbrev append_frames : List Frame → Scan → Scan
append_frames [] r = r
append_frames (f ∷ fs) r = add_frame f (append_frames fs r)

scan_loop-log_bytes :
    (magic : Bytes) (k n : ℕ) (fs : List Frame) (t : Bytes)
    → length magic ≡ 4
    → All (IsFrame k) fs
    → scan_loop magic k (length fs + n) (log_bytes magic fs ++ t)
      ≡ append_frames fs (scan_loop magic k n t)
unfolding log_bytes
scan_loop-log_bytes magic k n [] t m v =
    let none_left : length {A = Frame} [] + n ≡ n = omega arith in
    ap (λ j. scan_loop magic k j t) none_left
scan_loop-log_bytes magic k n (f ∷ fs) t m (v, vs) =
    let again : length (f ∷ fs) + n ≡ suc (length fs + n) = omega arith in
    ap (λ j. scan_loop magic k j ((frame_bytes magic f ++ log_bytes magic fs) ++ t)) again
    ∙ ap (scan_loop magic k (suc (length fs + n))) (append_assoc (frame_bytes magic f) _ t)
    ∙ scan_loop-frame_bytes magic k (length fs + n) f (log_bytes magic fs ++ t) m v
    ∙ ap (add_frame f) (scan_loop-log_bytes magic k n fs t m vs)

append_frames-scanned :
    (fs : List Frame) (bad : Bool) → append_frames fs (scanned [] bad) ≡ scanned fs bad
append_frames-scanned [] bad = refl
append_frames-scanned (f ∷ fs) bad = rw (append_frames-scanned fs bad) refl

-- Each record takes a byte at least, so that there are no more records than bytes.
count-log_bytes :
    (magic : Bytes) (k : ℕ) (fs : List Frame)
    → length magic ≡ 4
    → All (IsFrame k) fs
    → length fs ≤ length (log_bytes magic fs)
unfolding log_bytes
count-log_bytes magic k [] m v = omega arith
count-log_bytes magic k (f ∷ fs) m (v, vs) = omega (
  arith,
  length-append (frame_bytes magic f) (log_bytes magic fs),
  length-frame_bytes magic k f m v,
  count-log_bytes magic k fs m vs,
)

read_fields_torn :
    (k : ℕ) (f : Frame) (c p q : Bytes)
    → IsFrame k f
    → c ++ q
      ≡ f.type
        ∷ (f.ids
            ++ (write_le_u32 (u32 (length f.body))
                ++ (f.body ++ write_le_u32 (crc32_iso_hdlc (covered f)))))
    → 9 + k ≤ length c
    → length p < 13 + k + length f.body
    → read_fields k c p ≡ torn
unfolding read_fields read_body
read_fields_torn k f [] p q v e room short = absurd (omega arith)
read_fields_torn k f (b ∷ c) p q v e room short = elim (Option-cases (read_le_u32 (drop k c))) [
  | inl o ↦ ground (arith, o)
  | inr ((n, r), g) ↦
      let field =
        write_le_u32 (u32 (length f.body))
        ++ (f.body ++ write_le_u32 (crc32_iso_hdlc (covered f))) in
      let tails : c ++ q ≡ f.ids ++ field = cc e in
      let at : drop k c ++ q ≡ field =
        sym (drop-append k c q (omega (arith, room)))
        ∙ ap (drop k) tails
        ∙ ap (λ j. drop j (f.ids ++ field)) (sym v.ids)
        ∙ drop-append_self f.ids field in
      let read : some (n, r ++ q)
          ≡ some (u32 (length f.body), f.body ++ write_le_u32 (crc32_iso_hdlc (covered f))) =
        sym (read_le_u32-append (drop k c) q g)
        ∙ ap read_le_u32 at
        ∙ read_le_u32-write_le_u32 (u32 (length f.body)) _ (omega arith) in
      let same : n ≡ length f.body = ground (arith, read, v.body) in
      ground (arith, g, same, v.body, short)
]

-- A record of which only the first bytes are in the file.
pub read_frame_torn :
    (magic : Bytes) (k : ℕ) (f : Frame) (p q : Bytes)
    → length magic ≡ 4
    → IsFrame k f
    → p ++ q ≡ frame_bytes magic f
    → 0 < length q
    → read_frame magic k p ≡ torn
unfolding read_frame
read_frame_torn magic k f p q m v e pos =
    let w = write_le_u32 (crc32_iso_hdlc (covered f)) in
    let short : length p < 13 + k + length f.body =
      omega (arith, length-append p q, ap length e, length-frame_bytes magic k f m v) in
    elim (Bool-cases (ltb (length p) (13 + k))) [
      | inl t ↦ ground (arith, t)
      | inr o ↦
          let room : 13 + k ≤ length p = ground (arith, o) in
          let fields : drop 4 p ++ q ≡ covered f ++ w =
            sym (drop-append 4 p q (omega (arith, room)))
            ∙ ap (drop 4) (e ∙ frame_bytes_as magic f)
            ∙ ap (λ j. drop j (magic ++ (covered f ++ w))) (sym m)
            ∙ drop-append_self magic (covered f ++ w) in
          let left : 9 + k ≤ length (drop 4 p) = omega (arith, room, length-drop 4 p) in
          ground
            (arith, o, read_fields_torn k f (drop 4 p) p q v (fields ∙ covered_as f w) left short)
    ]

-- A file of whole records is read back, record by record, and is not torn.
pub scan-log_bytes :
    (magic : Bytes) (k : ℕ) (fs : List Frame)
    → length magic ≡ 4
    → All (IsFrame k) fs
    → scan magic k (log_bytes magic fs) ≡ scanned fs false
unfolding scan
scan-log_bytes magic k fs m v =
    let size = length (log_bytes magic fs) in
    let few = count-log_bytes magic k fs m v in
    let fuel : suc size ≡ length fs + suc (size - length fs) = omega (arith, few) in
    ap (scan_loop magic k (suc size)) (sym (append-nil (log_bytes magic fs)))
    ∙ ap (λ j. scan_loop magic k j (log_bytes magic fs ++ [])) fuel
    ∙ scan_loop-log_bytes magic k (suc (size - length fs)) fs [] m v
    ∙ ap (append_frames fs) (scan_loop-nil magic k (size - length fs))
    ∙ append_frames-scanned fs false

-- Where the record behind whole ones is not whole, those are read back, and the file is torn.
pub scan_torn :
    (magic : Bytes) (k : ℕ) (fs : List Frame) (t : Bytes)
    → length magic ≡ 4
    → All (IsFrame k) fs
    → 0 < length t
    → read_frame magic k t ≡ torn
    → scan magic k (log_bytes magic fs ++ t) ≡ scanned fs true
unfolding scan
scan_torn magic k fs t m v pos e =
    let s = log_bytes magic fs ++ t in
    let few = count-log_bytes magic k fs m v in
    let fuel : suc (length s) ≡ length fs + suc (length s - length fs) =
      omega (arith, few, length-append (log_bytes magic fs) t) in
    ap (λ j. scan_loop magic k j s) fuel
    ∙ scan_loop-log_bytes magic k (suc (length s - length fs)) fs t m v
    ∙ ap (append_frames fs) (scan_loop_torn magic k (length s - length fs) t pos e)
    ∙ append_frames-scanned fs true
