-- ===== src/RemoteLog/Loss.antt =====
-- RemoteLog.antt: what comes of a record behind a write that failed.
use ultra_net.Prelude.{
  ℕ, ◌<◌, ◌≡◌, refl, sym, ap, ◌∙◌, Bool, true, false, List, [], ◌∷◌, ◌++◌, Option, some, none,
  arith, length, length-drop, take, drop, append_assoc, Bytes, zero, suc, length-append,
}
use ultra_net.Log.{Frame, frame_bytes, log_bytes, has_prefix}
use ultra_net.Log.Frames.{frame_bytes_as, length-frame_bytes}
use ultra_net.RemoteLog.{
  magic, mem, data_ids, RemoteLog, Answer, waits, answers, fsync, write_loop, record_of,
  append_record_locked, insert_id, append_data, scan_result, scan_remote_log,
}
use ultra_net.Log.Recovery.{read_frame_no_magic}
use ultra_net.RemoteLog.Append.{IsLog, IsCall, append_record_locked-file, record_of-IsFrame}
use ultra_net.RemoteLog.Recovery.{scan_remote_log_torn}

write_loop_failed :
    (file rec : Bytes) → 0 < length rec → write_loop (none ∷ []) file rec ≡ (file, answers false)
unfolding write_loop
write_loop_failed file [] h = absurd (omega arith)
write_loop_failed file (b ∷ r) h = refl

write_loop_short :
    (file rec : Bytes) (n : ℕ)
    → n < length rec
    → write_loop (some n ∷ none ∷ []) file rec ≡ (file ++ take n rec, answers false)
unfolding write_loop
write_loop_short file [] n h = absurd (omega arith)
write_loop_short file (b ∷ r) n h =
    write_loop_failed (file ++ take n (b ∷ r)) (drop n (b ∷ r))
      (omega (arith, length-drop n (b ∷ r)))

-- What a write of n bytes and then an error leave.
append_record_locked_short :
    (l : RemoteLog) (f : Frame) (n : ℕ)
    → l.fd_open ≡ true
    → n < length (frame_bytes magic f)
    → append_record_locked l f (some n ∷ none ∷ []) true ≡ (
      record { fd_open = true; file = l.file ++ take n (frame_bytes magic f); ids = l.ids },
      answers false,
    )
unfolding append_record_locked fsync
append_record_locked_short l f n o h =
    ground (arith, o, write_loop_short l.file (frame_bytes magic f) n h)

append_data_new :
    (l : RemoteLog) (id : ℕ) (body : Bytes) (os : List (Option ℕ)) (synced : Bool)
    → mem id l.ids ≡ false
    → let r = append_record_locked l (record_of 1 id body) os synced in
      append_data l id body os synced ≡ (insert_id id r.0 r.1, r.1)
unfolding append_data
append_data_new l id body os synced m = ground (arith, m)

insert_id-file : (id : ℕ) (l : RemoteLog) (a : Answer) → (insert_id id l a).file ≡ l.file
unfolding insert_id
insert_id-file id l waits = refl
insert_id-file id l (answers true) = refl
insert_id-file id l (answers false) = refl

insert_id-false : (id : ℕ) (l : RemoteLog) → insert_id id l (answers false) ≡ l
unfolding insert_id
insert_id-false id l = refl

-- A front of one to three bytes of a record, with another record behind it.
short_front :
    (f g : Frame) (n : ℕ)
    → 0 < n
    → n < 4
    → has_prefix magic (take n (frame_bytes magic f) ++ frame_bytes magic g) ≡ false
unfolding has_prefix
short_front f g zero pos h = absurd (omega arith)
short_front f g (suc zero) pos h = rw (frame_bytes_as magic f, frame_bytes_as magic g) refl
short_front f g (suc (suc zero)) pos h = rw (frame_bytes_as magic f, frame_bytes_as magic g) refl
short_front f g (suc (suc (suc zero))) pos h =
    rw (frame_bytes_as magic f, frame_bytes_as magic g) refl
short_front f g (suc (suc (suc (suc n)))) pos h = absurd (omega arith)

-- In a file of whole records, where a write of one to three bytes of a new message's record is followed
-- by an error, the record of another new message, whose `append_data` answers true afterwards, is not
-- found by a scan: it finds the records before the two, and that the file is torn.
pub append_data_lost :
    (l : RemoteLog) (fs : List Frame) (id id2 n : ℕ) (body body2 : Bytes) (os : List (Option ℕ))
    (synced : Bool)
    → IsLog l fs
    → l.fd_open ≡ true
    → IsCall id body
    → IsCall id2 body2
    → mem id (data_ids fs) ≡ false
    → mem id2 (data_ids fs) ≡ false
    → 0 < n
    → n < 4
    → (append_data (append_data l id body (some n ∷ none ∷ []) true).0 id2 body2 os synced).1
      ≡ answers true
    → scan_remote_log (
        some
          (append_data
            (append_data l id body (some n ∷ none ∷ []) true).0
            id2
            body2
            os
            synced).0.file)
      ≡ some (scan_result fs true)
append_data_lost l fs id id2 n body body2 os synced v o c c2 m m2 pos h ok =
    let f = record_of 1 id body in
    let g = record_of 1 id2 body2 in
    let cut : RemoteLog = record {
      fd_open = true;
      file = l.file ++ take n (frame_bytes magic f);
      ids = l.ids;
    } in
    let size = length-frame_bytes magic 8 f refl (record_of-IsFrame 1 id body (omega arith) c) in
    let first : append_data l id body (some n ∷ none ∷ []) true ≡ (cut, answers false) =
      append_data_new l id body (some n ∷ none ∷ []) true (v.ids id ∙ m)
      ∙ ap (λ r. (insert_id id r.0 r.1, r.1))
          (append_record_locked_short l f n o (omega (arith, size)))
      ∙ ap (λ k. (k, answers false)) (insert_id-false id cut) in
    let second = append_data_new cut id2 body2 os synced (v.ids id2 ∙ m2) in
    let answer : (append_record_locked cut g os synced).1 ≡ answers true =
      sym (ap (λ r. r.1) second)
      ∙ ap (λ r. (append_data r.0 id2 body2 os synced).1) (sym first)
      ∙ ok in
    let file : (append_data cut id2 body2 os synced).0.file
        ≡ log_bytes magic fs ++ (take n (frame_bytes magic f) ++ frame_bytes magic g) =
      ap (λ r. r.0.file) second
      ∙ insert_id-file id2 _ _
      ∙ append_record_locked-file cut g os synced answer
      ∙ append_assoc l.file _ _
      ∙ ap (λ t. t ++ (take n (frame_bytes magic f) ++ frame_bytes magic g)) v.file in
    ap (λ r. scan_remote_log (some (append_data r.0 id2 body2 os synced).0.file)) first
    ∙ ap (λ t. scan_remote_log (some t)) file
    ∙ scan_remote_log_torn fs _ v.frames
        (omega (
          arith,
          length-append (take n (frame_bytes magic f)) (frame_bytes magic g),
          length-frame_bytes magic 8 g refl (record_of-IsFrame 1 id2 body2 (omega arith) c2),
        ))
        (read_frame_no_magic magic 8 _ (short_front f g n pos h))
