-- ===== src/Sender/Written.antt =====
-- Sender.antt: the record of a message, in the file of the log.
use ultra_net.Prelude.{
  ℕ, ◌≡◌, refl, sym, ap, ◌∙◌, inl, inr, Bool, true, false, List, [], ◌++◌, Option, arith, ◌==◌,
  Bytes, Bool-cases, ◌⊎◌, append_assoc, append-nil, subst,
}
use ultra_net.Log.{Frame, frame_bytes}
use ultra_net.RemoteLog.{
  magic, RemoteLog, Answer, waits, answers, mem, append_data, append_ack, append_record_locked,
  insert_id, record_of,
}
use ultra_net.RemoteLog.Append.{
  append_record_locked-ids, append_record_locked-front, append_record_locked-file,
}

module _ (id : ℕ) (frame : Bytes) (old : List ℕ) where
  -- The whole record of the message, with its frame, is in the file.
  abbrev pub Written : Bytes → Type 0
  Written file =
      (p : Bytes) × (q : Bytes) × (file ≡ p ++ (frame_bytes magic (record_of 1 id frame) ++ q))

  -- If the log knows the message, it knew it at the start, or its record is in the file.
  abbrev pub Backed : RemoteLog → Type 0
  Backed l = mem id l.ids ≡ true → (mem id old ≡ true) ⊎ Written l.file

  Written-more : (file more : Bytes) → Written file → Written (file ++ more)
  Written-more file more (p, q, e) =
      let r = frame_bytes magic (record_of 1 id frame) in
      (
        p,
        q ++ more,
        ap (λ t. t ++ more) e
            ∙ append_assoc p (r ++ q) more
            ∙ ap (λ t. p ++ t) (append_assoc r q more),
      )

  Backed-more :
      (l m : RemoteLog) (more : Bytes)
      → m.ids ≡ l.ids
      → m.file ≡ l.file ++ more
      → Backed l
      → Backed m
  Backed-more l m more ids file v h = elim (v (ap (mem id) (sym ids) ∙ h)) [
    | inl o ↦ inl o
    | inr w ↦ inr (subst Written (sym file) (Written-more l.file more w))
  ]

  append-Backed :
      (l : RemoteLog) (f : Frame) (os : List (Option ℕ)) (synced : Bool)
      → Backed l
      → Backed (append_record_locked l f os synced).0
  append-Backed l f os synced v =
      let (p, q, e, grows) = append_record_locked-front l f os synced in
      Backed-more l (append_record_locked l f os synced).0 p
        (append_record_locked-ids l f os synced) grows v

  insert_id-Backed :
      (k : ℕ) (l : RemoteLog) (a : Answer)
      → Backed l
      → ((id == k) ≡ true → a ≡ answers true → Written l.file)
      → Backed (insert_id k l a)
  unfolding insert_id mem
  insert_id-Backed k l waits v w h = v h
  insert_id-Backed k l (answers false) v w h = v h
  insert_id-Backed k l (answers true) v w h = elim (Bool-cases (id == k)) [
    | inl t ↦ inr (w t refl)
    | inr o ↦ v (ground (arith, o, h))
  ]

  fresh-Written :
      (l : RemoteLog) (k : ℕ) (body : Bytes) (os : List (Option ℕ)) (synced : Bool)
      → ((id == k) ≡ true → body ≡ frame)
      → (id == k) ≡ true
      → (append_record_locked l (record_of 1 k body) os synced).1 ≡ answers true
      → Written (append_record_locked l (record_of 1 k body) os synced).0.file
  fresh-Written l k body os synced own t a =
      let key : k ≡ id = ground (arith, t) in
      let r = frame_bytes magic (record_of 1 id frame) in
      let same : frame_bytes magic (record_of 1 k body) ≡ r =
        ap (λ j. frame_bytes magic (record_of 1 j body)) key
        ∙ ap (λ b. frame_bytes magic (record_of 1 id b)) (own t) in
      (
        l.file,
        [],
        append_record_locked-file l (record_of 1 k body) os synced a
            ∙ ap (λ b. l.file ++ b) (same ∙ sym (append-nil r)),
      )

  pub append_data-Backed :
      (l : RemoteLog) (k : ℕ) (body : Bytes) (os : List (Option ℕ)) (synced : Bool)
      → ((id == k) ≡ true → body ≡ frame)
      → Backed l
      → Backed (append_data l k body os synced).0
  unfolding append_data
  append_data-Backed l k body os synced own v = elim (Bool-cases (mem k l.ids)) [
    | inl t ↦ rw t v
    | inr o ↦
        let x = append_record_locked l (record_of 1 k body) os synced in
        rw o (
          insert_id-Backed k x.0 x.1 (append-Backed l (record_of 1 k body) os synced v)
            (fresh-Written l k body os synced own))
  ]

  pub append_ack-Backed :
      (l : RemoteLog) (k : ℕ) (os : List (Option ℕ)) (synced : Bool)
      → Backed l
      → Backed (append_ack l k os synced).0
  unfolding append_ack
  append_ack-Backed l k os synced v = append-Backed l (record_of 2 k []) os synced v
