-- ===== src/ReceiverLog/Durable.antt =====
-- The receiver's log: what its file holds of what its index says.
use ultra_net.Prelude.{
  zero, suc, ◌+◌, ◌<◌, ◌^◌, ◌≡◌, refl, sym, ap, ◌∙◌, Bool, true, false, List, [], ◌∷◌, ◌++◌, map,
  some, arith, ◌==◌, Bytes, ◌&&◌, ◌||◌, inl, inr, All, All-append, IsByte, length, length-append,
  append_assoc, append-nil, drop, drop-append_self, take, take-append-drop,
}
use ultra_net.Log.{Frame, frame_bytes, log_bytes, write_le_u64, read_le_u64}
use ultra_net.Log.Frames.{
  log_bytes-snoc, IsFrame, length-write_le_u64, write_le_u64-IsByte, read_le_u64-write_le_u64,
}
use ultra_net.ReceiverLog.Index.{Key, same}
use ultra_net.ReceiverLog.State.{PendingRec, State}
use ultra_net.ReceiverLog.Flush.{
  magic, Write, frame_of, batch_bytes, write_full, wrote, interrupted, failed, committed,
  swap_pending,
}
use ultra_net.ReceiverLog.Open.{key_of}
use ultra_net.ReceiverLog.Persist.{persist, pends, persist-commit_index}

-- A data record for the key in the file.
unfoldable pub has_record : Key → List Frame → Bool
has_record k [] = false
has_record k (f ∷ fs) = ((f.type == 1) && same k (key_of f)) || has_record k fs

pub record IsPending (r : PendingRec) : Type 0 where
  pub type : r.type < 256
  pub sender : r.id.sender < 2 ^ 64
  pub msg_id : r.id.msg_id < 2 ^ 64
  pub bytes : All IsByte r.body
  pub size : length r.body + 29 < 2 ^ 32

pub record IsDurable (s : State) (fs : List Frame) : Type 0 where
  pub file : s.file ≡ log_bytes magic fs
  pub frames : All (IsFrame 16) fs
  pub pending : All IsPending s.pending
  pub recorded : (k : Key) → persist k s.index ≡ some true → has_record k fs ≡ true
  pub waiting : (k : Key) → persist k s.index ≡ some false → pends k s.pending ≡ true

frame_of-IsFrame : (r : PendingRec) → IsPending r → IsFrame 16 (frame_of r)
unfolding frame_of
frame_of-IsFrame r v = record {
  type = v.type;
  ids = omega (
    arith,
    length-append (write_le_u64 r.id.sender) (write_le_u64 r.id.msg_id),
    length-write_le_u64 r.id.sender,
    length-write_le_u64 r.id.msg_id,
  );
  id_bytes =
      All-append IsByte (write_le_u64 r.id.sender) (write_le_u64 r.id.msg_id)
        (write_le_u64-IsByte r.id.sender) (write_le_u64-IsByte r.id.msg_id);
  body_bytes = v.bytes;
  body = omega (arith, v.size);
}

pub key_of-frame_of : (r : PendingRec) → IsPending r → key_of (frame_of r) ≡ r.id
unfolding key_of frame_of
key_of-frame_of r v =
    let a = write_le_u64 r.id.sender in
    let b = write_le_u64 r.id.msg_id in
    let second : drop 8 (a ++ b) ≡ b =
      ap (λ n. drop n (a ++ b)) (sym (length-write_le_u64 r.id.sender)) ∙ drop-append_self a b in
    let sender : read_le_u64 (a ++ b) ≡ r.id.sender =
      read_le_u64-write_le_u64 r.id.sender b v.sender in
    let msg_id : read_le_u64 (drop 8 (a ++ b)) ≡ r.id.msg_id =
      ap read_le_u64 (second ∙ sym (append-nil b))
      ∙ read_le_u64-write_le_u64 r.id.msg_id [] v.msg_id in
    ground (arith, sender, msg_id)

pub frame_of_type : (r : PendingRec) → (frame_of r).type ≡ r.type
unfolding frame_of
frame_of_type r = refl

pub frame_of_body : (r : PendingRec) → (frame_of r).body ≡ r.body
unfolding frame_of
frame_of_body r = refl

frames_of-IsFrame : (rs : List PendingRec) → All IsPending rs → All (IsFrame 16) (map frame_of rs)
frames_of-IsFrame [] v = tt
frames_of-IsFrame (r ∷ rs) (v, vs) = (frame_of-IsFrame r v, frames_of-IsFrame rs vs)

batch_bytes-log_bytes :
    (fs : List Frame) (rs : List PendingRec)
    → log_bytes magic fs ++ batch_bytes rs ≡ log_bytes magic (fs ++ map frame_of rs)
unfolding batch_bytes
batch_bytes-log_bytes fs [] =
    append-nil (log_bytes magic fs) ∙ ap (log_bytes magic) (sym (append-nil fs))
batch_bytes-log_bytes fs (r ∷ rs) =
    let f = frame_of r in
    sym (append_assoc (log_bytes magic fs) (frame_bytes magic f) (batch_bytes rs))
    ∙ ap (λ t. t ++ batch_bytes rs) (sym (log_bytes-snoc magic fs f))
    ∙ batch_bytes-log_bytes (fs ++ (f ∷ [])) rs
    ∙ ap (log_bytes magic) (append_assoc fs (f ∷ []) (map frame_of rs))

has_record-append :
    (k : Key) (fs gs : List Frame) → has_record k (fs ++ gs) ≡ (has_record k fs || has_record k gs)
unfolding has_record
has_record-append k [] gs = refl
has_record-append k (f ∷ fs) gs = ground (arith, has_record-append k fs gs)

has_record-frames :
    (k : Key) (rs : List PendingRec)
    → All IsPending rs
    → has_record k (map frame_of rs) ≡ pends k rs
unfolding has_record pends
has_record-frames k [] v = refl
has_record-frames k (r ∷ rs) (v, vs) =
    ground (arith, frame_of_type r, key_of-frame_of r v, has_record-frames k rs vs)

-- A call that succeeded wrote the whole batch.
write_full-whole :
    (ws : List Write) (file rec : Bytes)
    → (write_full ws file rec).1 ≡ some true
    → (write_full ws file rec).0 ≡ file ++ rec
unfolding write_full
write_full-whole ws file [] h = sym (append-nil file)
write_full-whole [] file (b ∷ r) h = absurd (cc h)
write_full-whole (interrupted ∷ ws) file (b ∷ r) h = write_full-whole ws file (b ∷ r) h
write_full-whole (failed ∷ ws) file (b ∷ r) h = absurd (cc h)
write_full-whole (wrote zero ∷ ws) file (b ∷ r) h = absurd (cc h)
write_full-whole (wrote (suc n) ∷ ws) file (b ∷ r) h =
    write_full-whole ws (file ++ take (suc n) (b ∷ r)) (drop (suc n) (b ∷ r)) h
    ∙ append_assoc file (take (suc n) (b ∷ r)) (drop (suc n) (b ∷ r))
    ∙ ap (λ t. file ++ t) (take-append-drop (suc n) (b ∷ r))

-- A flush that succeeded has added the batch to the file.
pub commit_written-IsDurable :
    (s : State) (fs : List Frame) (ws : List Write)
    → IsDurable s fs
    → (write_full ws s.file (batch_bytes s.pending)).1 ≡ some true
    → IsDurable
        (committed s.pending (swap_pending s) (write_full ws s.file (batch_bytes s.pending)).0)
        (fs ++ map frame_of s.pending)
unfolding committed swap_pending
commit_written-IsDurable s fs ws v h = record {
  file =
      write_full-whole ws s.file (batch_bytes s.pending) h
      ∙ ap (λ t. t ++ batch_bytes s.pending) v.file
      ∙ batch_bytes-log_bytes fs s.pending;
  frames =
      All-append (IsFrame 16) fs (map frame_of s.pending) v.frames
        (frames_of-IsFrame s.pending v.pending);
  pending = tt;
  recorded = λ k p.
      let held = has_record-append k fs (map frame_of s.pending) in
      let batch = has_record-frames k s.pending v.pending in
      elim (persist-commit_index s.pending k s.index {b = true} p) [
        | inl (g, d) ↦ ground (arith, held, v.recorded k g)
        | inr (t, q) ↦ ground (arith, held, batch, q)
      ];
  waiting = λ k p. elim (persist-commit_index s.pending k s.index {b = false} p) [
    | inl (g, d) ↦ absurd (ground (arith, d refl, v.waiting k g))
    | inr (t, q) ↦ absurd (cc t)
  ];
}
