-- ===== src/RemoteLog/Append.antt =====
-- RemoteLog.antt: what the append operations leave in the file.
use ultra_net.Prelude.{
  ℕ, ◌+◌, ◌<◌, ◌^◌, ◌≡◌, refl, sym, ap, ◌∙◌, Bool, true, List, [], ◌∷◌, ◌++◌, Option, some, none,
  arith, length, take, drop, append_assoc, append-nil, Bytes, u32, All, Bool-cases, inl, inr, ◌||◌,
  if◌then◌else◌, take-append-drop, take-append_self, subst, ◌⊎◌, IsByte, All-append,
}
use ultra_net.Log.{Frame, frame_bytes, log_bytes, write_le_u64, read_le_u64}
use ultra_net.Log.Frames.{
  IsFrame, log_bytes-snoc, length-write_le_u64, write_le_u64-IsByte, read_le_u64-write_le_u64,
}
use ultra_net.RemoteLog.{
  magic, mem, data_ids, is_data, msg_id, RemoteLog, Answer, waits, answers, fsync, write_loop,
  record_of, append_record_locked, insert_id, append_data, append_ack,
}

-- Whatever the calls of `write` give, the file grows by a front of the record: by all of it where
-- the loop ends well.
pub write_loop-front :
    (os : List (Option ℕ)) (file rec : Bytes)
    → (p : Bytes) × (q : Bytes) × (p ++ q ≡ rec)
      × ((write_loop os file rec).0 ≡ file ++ p)
      × ((write_loop os file rec).1 ≡ answers true → q ≡ [])
unfolding write_loop
write_loop-front os file [] = ([], [], refl, sym (append-nil file), λ h. refl)
write_loop-front [] file (b ∷ r) = ([], b ∷ r, refl, sym (append-nil file), λ h. absurd (cc h))
write_loop-front (none ∷ os) file (b ∷ r) =
    ([], b ∷ r, refl, sym (append-nil file), λ h. absurd (cc h))
write_loop-front (some n ∷ os) file (b ∷ r) =
    let (p, q, e, grows, whole) = write_loop-front os (file ++ take n (b ∷ r)) (drop n (b ∷ r)) in
    (
      take n (b ∷ r) ++ p,
      q,
      append_assoc (take n (b ∷ r)) p q
          ∙ ap (λ t. take n (b ∷ r) ++ t) e
          ∙ take-append-drop n (b ∷ r),
      grows ∙ append_assoc file (take n (b ∷ r)) p,
      whole,
    )

pub append_record_locked-front :
    (l : RemoteLog) (f : Frame) (os : List (Option ℕ)) (synced : Bool)
    → (p : Bytes) × (q : Bytes) × (p ++ q ≡ frame_bytes magic f)
      × ((append_record_locked l f os synced).0.file ≡ l.file ++ p)
unfolding append_record_locked
append_record_locked-front l f os synced =
    let (p, q, e, grows, whole) = write_loop-front os l.file (frame_bytes magic f) in
    elim (Bool-cases l.fd_open) [
      | inl t ↦ (p, q, e, ground (arith, t, grows))
      | inr o ↦ ([], frame_bytes magic f, refl, ground (arith, o, append-nil l.file))
    ]

-- A file of whole records, and the ids in memory are those of the data among them.
pub record IsLog (l : RemoteLog) (fs : List Frame) : Type 0 where
  pub file : l.file ≡ log_bytes magic fs
  pub frames : All (IsFrame 8) fs
  pub ids : (i : ℕ) → mem i l.ids ≡ mem i (data_ids fs)

-- What a call asks to be written fits the fields of a record.
pub record IsCall (id : ℕ) (body : Bytes) : Type 0 where
  pub msg_id : id < 2 ^ 64
  pub bytes : All IsByte body
  pub size : length body + 21 < 2 ^ 32

pub record_of_as :
    (type id : ℕ) (body : Bytes)
    → length body < 2 ^ 32
    → record_of type id body ≡ record { type = type; ids = write_le_u64 id; body = body }
unfolding record_of
record_of_as type id body h =
    let n : u32 (length body) ≡ length body = omega (arith, h) in
    let all : take (u32 (length body)) body ≡ body =
      ap (λ j. take j body) n
      ∙ ap (take (length body)) (sym (append-nil body))
      ∙ take-append_self body [] in
    ap (λ b. record { type = type; ids = write_le_u64 id; body = b }) all

pub record_of-IsFrame :
    (type id : ℕ) (body : Bytes) → type < 256 → IsCall id body → IsFrame 8 (record_of type id body)
record_of-IsFrame type id body t v =
    subst (IsFrame 8) (sym (record_of_as type id body (omega (arith, v.size)))) (record {
      type = t;
      ids = length-write_le_u64 id;
      id_bytes = write_le_u64-IsByte id;
      body_bytes = v.bytes;
      body = omega (arith, v.size);
    })

-- The record that an append which answers true leaves behind the others.
pub Answer-cases : (a : Answer) → (a ≡ waits) ⊎ ((ok : Bool) × (a ≡ answers ok))
Answer-cases waits = inl refl
Answer-cases (answers ok) = inr (ok, refl)

pub append_record_locked-file :
    (l : RemoteLog) (f : Frame) (os : List (Option ℕ)) (synced : Bool)
    → (append_record_locked l f os synced).1 ≡ answers true
    → (append_record_locked l f os synced).0.file ≡ l.file ++ frame_bytes magic f
unfolding append_record_locked fsync
append_record_locked-file l f os synced h =
    let (p, q, e, grows, whole) = write_loop-front os l.file (frame_bytes magic f) in
    elim (Bool-cases l.fd_open) [
      | inl t ↦ elim (Answer-cases (write_loop os l.file (frame_bytes magic f)).1) [
        | inl w ↦ absurd (ground (arith, t, w, h))
        | inr (ok, w) ↦
            let fine : ok ≡ true = ground (arith, t, w, h) in
            let all : p ≡ frame_bytes magic f =
              sym (append-nil p) ∙ ap (λ r. p ++ r) (sym (whole (w ∙ ap answers fine))) ∙ e in
            ground (arith, t, grows ∙ ap (λ r. l.file ++ r) all)
      ]
      | inr o ↦ absurd (ground (arith, o, h))
    ]

mem-append_self : (i : ℕ) (is js : List ℕ) → mem i (is ++ js) ≡ (mem i is || mem i js)
unfolding mem
mem-append_self i [] js = refl
mem-append_self i (j ∷ is) js = ground (arith, mem-append_self i is js)

pub data_ids-append : (fs gs : List Frame) → data_ids (fs ++ gs) ≡ data_ids fs ++ data_ids gs
unfolding data_ids
data_ids-append [] gs = refl
data_ids-append (f ∷ fs) gs = ground (arith, data_ids-append fs gs)

mem_either :
    (i j : ℕ) (is js : List ℕ) → mem i is ≡ mem i js → mem i (j ∷ is) ≡ mem i (js ++ (j ∷ []))
unfolding mem
mem_either i j is js e = ground (arith, e, mem-append_self i js (j ∷ []))

pub append_record_locked-ids :
    (l : RemoteLog) (f : Frame) (os : List (Option ℕ)) (synced : Bool)
    → (append_record_locked l f os synced).0.ids ≡ l.ids
unfolding append_record_locked
append_record_locked-ids l f os synced = elim (Bool-cases l.fd_open) [
  | inl t ↦ ground (arith, t)
  | inr o ↦ ground (arith, o)
]

data_ids-record_of :
    (id : ℕ) (body : Bytes) → IsCall id body → data_ids (record_of 1 id body ∷ []) ≡ id ∷ []
unfolding data_ids is_data msg_id record_of
data_ids-record_of id body c =
    ap (λ i. i ∷ [])
      (ap read_le_u64 (sym (append-nil (write_le_u64 id)))
        ∙ read_le_u64-write_le_u64 id [] c.msg_id)

-- The state that `append_data` makes of a log whose id is new.
insert_id-IsLog :
    (l l' : RemoteLog) (fs : List Frame) (id : ℕ) (body : Bytes)
    → IsLog l fs
    → IsCall id body
    → l'.file ≡ l.file ++ frame_bytes magic (record_of 1 id body)
    → l'.ids ≡ l.ids
    → IsLog (insert_id id l' (answers true)) (fs ++ (record_of 1 id body ∷ []))
unfolding insert_id
insert_id-IsLog l l' fs id body v c file ids =
    let f = record_of 1 id body in
    record {
      file = file ∙ ap (λ t. t ++ frame_bytes magic f) v.file ∙ sym (log_bytes-snoc magic fs f);
      frames =
          All-append (IsFrame 8) fs (f ∷ []) v.frames
            (record_of-IsFrame 1 id body (omega arith) c, tt);
      ids = λ i.
          ap (λ js. mem i (id ∷ js)) ids
          ∙ mem_either i id l.ids (data_ids fs) (v.ids i)
          ∙ ap (λ js. mem i (data_ids fs ++ js)) (sym (data_ids-record_of id body c))
          ∙ ap (mem i) (sym (data_ids-append fs (f ∷ [])));
    }

-- What the calls that answer true are to leave in the log.
unfoldable pub add_data : List Frame → ℕ → Bytes → List Frame
add_data fs id body = if mem id (data_ids fs) then fs else fs ++ (record_of 1 id body ∷ [])

unfoldable pub add_ack : List Frame → ℕ → List Frame
add_ack fs id = fs ++ (record_of 2 id [] ∷ [])

pub append_data-IsLog :
    (l : RemoteLog) (fs : List Frame) (id : ℕ) (body : Bytes) (os : List (Option ℕ)) (synced : Bool)
    → IsLog l fs
    → IsCall id body
    → (append_data l id body os synced).1 ≡ answers true
    → IsLog (append_data l id body os synced).0 (add_data fs id body)
unfolding append_data add_data insert_id
append_data-IsLog l fs id body os synced v c h = elim (Bool-cases (mem id l.ids)) [
  | inl t ↦ rw (t, sym (v.ids id) ∙ t) v
  | inr o ↦
      let f = record_of 1 id body in
      let answer : (append_record_locked l f os synced).1 ≡ answers true = ground (arith, o, h) in
      rw (o, sym (v.ids id) ∙ o, answer)
        (insert_id-IsLog l (append_record_locked l f os synced).0 fs id body v c
          (append_record_locked-file l f os synced answer) (append_record_locked-ids l f os synced))
]

pub append_ack-IsLog :
    (l : RemoteLog) (fs : List Frame) (id : ℕ) (os : List (Option ℕ)) (synced : Bool)
    → IsLog l fs
    → id < 2 ^ 64
    → (append_ack l id os synced).1 ≡ answers true
    → IsLog (append_ack l id os synced).0 (add_ack fs id)
unfolding append_ack add_ack data_ids is_data record_of
append_ack-IsLog l fs id os synced v c h =
    let f = record_of 2 id [] in
    let call : IsCall id [] = record { msg_id = c; bytes = tt; size = omega arith } in
    record {
      file =
          append_record_locked-file l f os synced h
          ∙ ap (λ t. t ++ frame_bytes magic f) v.file
          ∙ sym (log_bytes-snoc magic fs f);
      frames =
          All-append (IsFrame 8) fs (f ∷ []) v.frames
            (record_of-IsFrame 2 id [] (omega arith) call, tt);
      ids = λ i.
          ap (mem i) (append_record_locked-ids l f os synced)
          ∙ v.ids i
          ∙ ap (mem i) (sym (append-nil (data_ids fs)) ∙ sym (data_ids-append fs (f ∷ [])));
    }
