-- ===== src/Sender/Logged.antt =====
-- Sender.antt: the log has the ids of the messages in the table.
use ultra_net.Prelude.{
  ℕ, ◌≡◌, refl, sym, subst, ap, ◌∙◌, inl, inr, Bool, true, false, List, [], ◌∷◌, Option, some,
  arith, ◌==◌, Bytes, Bool-cases, Option-cases, if_intro,
}
use ultra_net.RemoteLog.{
  RemoteLog, Answer, waits, answers, mem, append_data, append_ack, append_record_locked, insert_id,
  record_of,
}
use ultra_net.RemoteLog.Append.{append_record_locked-ids, Answer-cases}
use ultra_net.Sender.{
  UnackedItem, Sender, Disk, erase, put, track_unacked, logged, log_data, track, log_ack, note_ack,
  mark_failed, mark_dead, mark_sent, is_due, restamp,
}
use ultra_net.Sender.Written.{Backed, append_data-Backed, append_ack-Backed}
use ultra_net.Sender.Acked.{log_data_unacked, log_ack_unacked}

unfoldable pub keys : List UnackedItem → List ℕ
keys [] = []
keys (i ∷ m) = i.msg_id ∷ keys m

-- The log knows the ids of the table.
abbrev pub Known : List UnackedItem → RemoteLog → Type 0
Known m l = (k : ℕ) → mem k (keys m) ≡ true → mem k l.ids ≡ true

pub record IsLogged (id : ℕ) (frame : Bytes) (old : List ℕ) (s : Sender) : Type 0 where
  pub log : RemoteLog
  pub opened : s.log ≡ some log
  pub known : Known s.unacked log
  pub written : Backed id frame old log

pub keys-mark_failed : (k : ℕ) (m : List UnackedItem) → keys (mark_failed k m) ≡ keys m
unfolding keys mark_failed
keys-mark_failed k [] = refl
keys-mark_failed k (i ∷ m) =
    if_intro (λ r. keys r ≡ i.msg_id ∷ keys m) (k == i.msg_id) _ _ (λ _. refl)
      (λ _. ap (λ ks. i.msg_id ∷ ks) (keys-mark_failed k m))

pub keys-mark_dead : (n : ℕ) (m : List UnackedItem) → keys (mark_dead n m) ≡ keys m
unfolding keys mark_dead
keys-mark_dead n [] = refl
keys-mark_dead n (i ∷ m) =
    if_intro (λ r. keys r ≡ i.msg_id ∷ keys m) (i.node == n) _ _
      (λ _. ap (λ ks. i.msg_id ∷ ks) (keys-mark_dead n m))
      (λ _. ap (λ ks. i.msg_id ∷ ks) (keys-mark_dead n m))

pub keys-mark_sent : (k now : ℕ) (m : List UnackedItem) → keys (mark_sent k now m) ≡ keys m
unfolding keys mark_sent
keys-mark_sent k now [] = refl
keys-mark_sent k now (i ∷ m) =
    if_intro (λ r. keys r ≡ i.msg_id ∷ keys m) (k == i.msg_id) _ _ (λ _. refl)
      (λ _. ap (λ ks. i.msg_id ∷ ks) (keys-mark_sent k now m))

pub keys-restamp : (limit now : ℕ) (m : List UnackedItem) → keys (restamp limit now m) ≡ keys m
unfolding keys restamp
keys-restamp limit now [] = refl
keys-restamp limit now (i ∷ m) =
    if_intro (λ r. keys r ≡ i.msg_id ∷ keys m) (is_due limit now i) _ _
      (λ _. ap (λ ks. i.msg_id ∷ ks) (keys-restamp limit now m))
      (λ _. ap (λ ks. i.msg_id ∷ ks) (keys-restamp limit now m))

-- What is in the table after an erasure was in it before.
mem-erase :
    (j k : ℕ) (m : List UnackedItem) → mem j (keys (erase k m)) ≡ true → mem j (keys m) ≡ true
unfolding keys erase mem
mem-erase j k [] h = h
mem-erase j k (i ∷ m) h = elim (Bool-cases (k == i.msg_id)) [
  | inl e ↦ ground (arith, mem-erase j k m (ground (arith, e, h)))
  | inr o ↦ elim (Bool-cases (j == i.msg_id)) [
    | inl y ↦ ground (arith, y)
    | inr n ↦ ground (arith, n, mem-erase j k m (ground (arith, o, n, h)))
  ]
]

insert_id_grows :
    (id k : ℕ) (l : RemoteLog) (a : Answer)
    → mem k l.ids ≡ true
    → mem k (insert_id id l a).ids ≡ true
unfolding insert_id mem
insert_id_grows id k l waits h = h
insert_id_grows id k l (answers false) h = h
insert_id_grows id k l (answers true) h = ground (arith, h)

-- The log forgets no id.
append_data_grows :
    (l : RemoteLog) (id : ℕ) (body : Bytes) (os : List (Option ℕ)) (synced : Bool) (k : ℕ)
    → mem k l.ids ≡ true
    → mem k (append_data l id body os synced).0.ids ≡ true
unfolding append_data
append_data_grows l id body os synced k h =
    let x = append_record_locked l (record_of 1 id body) os synced in
    if_intro {X = RemoteLog × Answer} (λ r. mem k r.0.ids ≡ true) (mem id l.ids) _ _ (λ _. h)
      (λ _.
        insert_id_grows id k x.0 x.1
          (ap (mem k) (append_record_locked-ids l (record_of 1 id body) os synced) ∙ h))

insert_id_known :
    (id : ℕ) (l : RemoteLog) (a : Answer) → a ≡ answers true → mem id (insert_id id l a).ids ≡ true
unfolding insert_id mem
insert_id_known id l waits h = absurd (cc h)
insert_id_known id l (answers false) h = absurd (cc h)
insert_id_known id l (answers true) h = ground arith

append_data_known :
    (l : RemoteLog) (id : ℕ) (body : Bytes) (os : List (Option ℕ)) (synced : Bool)
    → (append_data l id body os synced).1 ≡ answers true
    → mem id (append_data l id body os synced).0.ids ≡ true
unfolding append_data insert_id mem
append_data_known l id body os synced h = elim (Bool-cases (mem id l.ids)) [
  | inl t ↦ ground (arith, t)
  | inr o ↦
      let x = append_record_locked l (record_of 1 id body) os synced in
      ground (arith, o, insert_id_known id x.0 x.1 (ground (arith, o, h)))
]

module _ (the_id : ℕ) (the_frame : Bytes) (old : List ℕ) where
  abbrev Kept : Sender → Type 0
  Kept s = IsLogged the_id the_frame old s

  log_data_grows :
      (s s' : Sender) (l : RemoteLog) (id : ℕ) (frame : Bytes) (disk : Disk) (b : Bool)
      → s.log ≡ some l
      → log_data s id frame disk ≡ some (s', b)
      → ((the_id == id) ≡ true → frame ≡ the_frame)
      → Backed the_id the_frame old l
      → (l' : RemoteLog) × (s'.log ≡ some l')
        × Backed the_id the_frame old l'
        × ((k : ℕ) → mem k l.ids ≡ true → mem k l'.ids ≡ true)
        × (b ≡ true → mem id l'.ids ≡ true)
  unfolding log_data logged
  log_data_grows s s' l id frame disk b o h own v =
      let x = append_data l id frame disk.writes disk.synced in
      elim (Answer-cases x.1) [
        | inl w ↦ absurd (ground (arith, o, h, w))
        | inr (ok, w) ↦ (
          x.0,
          ground (arith, o, h, w),
          append_data-Backed the_id the_frame old l id frame disk.writes disk.synced own v,
          append_data_grows l id frame disk.writes disk.synced,
          λ t. append_data_known l id frame disk.writes disk.synced (ground (arith, o, h, w, t)),
        )
      ]

  log_ack_grows :
      (s s' : Sender) (l : RemoteLog) (id : ℕ) (disk : Disk) (b : Bool)
      → s.log ≡ some l
      → log_ack s id disk ≡ some (s', b)
      → Backed the_id the_frame old l
      → (l' : RemoteLog) × (s'.log ≡ some l') × Backed the_id the_frame old l' × (l'.ids ≡ l.ids)
  unfolding log_ack logged append_ack
  log_ack_grows s s' l id disk b o h v =
      let f = record_of 2 id [] in
      let x = append_record_locked l f disk.writes disk.synced in
      elim (Answer-cases x.1) [
        | inl w ↦ absurd (ground (arith, o, h, w))
        | inr (ok, w) ↦ (
          x.0,
          ground (arith, o, h, w),
          append_ack-Backed the_id the_frame old l id disk.writes disk.synced v,
          append_record_locked-ids l f disk.writes disk.synced,
        )
      ]

  -- A step that leaves the log and the keys.
  pub same-IsLogged :
      (s t : Sender) → t.log ≡ s.log → keys t.unacked ≡ keys s.unacked → Kept s → Kept t
  same-IsLogged s t log same v = record {
    log = v.log;
    opened = log ∙ v.opened;
    known = λ k h. v.known k (ap (mem k) (sym same) ∙ h);
    written = v.written;
  }

  put_known :
      (i : UnackedItem) (m : List UnackedItem) (l l' : RemoteLog)
      → ((k : ℕ) → mem k l.ids ≡ true → mem k l'.ids ≡ true)
      → mem i.msg_id l'.ids ≡ true
      → Known m l
      → Known (put i m) l'
  unfolding put keys mem
  put_known i m l l' grows own known k h = elim (Bool-cases (k == i.msg_id)) [
    | inl e ↦ subst (λ j. mem j l'.ids ≡ true) (ground (arith, e)) own
    | inr o ↦ grows k (known k (mem-erase k i.msg_id m (ground (arith, o, h))))
  ]

  pub track-IsLogged :
      (s s' : Sender) (n id : ℕ) (f : Bytes) (now : ℕ) (disk : Disk) (b : Bool)
      → track s n id f now disk ≡ some (s', b)
      → ((the_id == id) ≡ true → f ≡ the_frame)
      → Kept s
      → Kept s'
  unfolding track track_unacked
  track-IsLogged s s' n id f now disk b h mine v = elim (Option-cases (log_data s id f disk)) [
    | inl e ↦ absurd (ground (arith, e, h))
    | inr ((t, ok), e) ↦
        let (l', opened, written, grows, own) =
          log_data_grows s t v.log id f disk ok v.opened e mine v.written in
        let same = log_data_unacked s t id f disk ok e in
        elim (Bool-cases ok) [
          | inr o ↦ subst Kept {x = t} {y = s'} (ground (arith, e, o, h)) (record {
            log = l';
            opened = opened;
            written = written;
            known = λ k w. grows k (v.known k (ap (λ m. mem k (keys m)) (sym same) ∙ w));
          })
          | inl o ↦
              subst Kept {x = track_unacked t n id f now} {y = s'} (ground (arith, e, o, h))
                (record {
                  log = l';
                  opened = opened;
                  written = written;
                  known =
                      put_known _ t.unacked v.log l' grows (own o)
                        (λ k w. v.known k (ap (λ m. mem k (keys m)) (sym same) ∙ w));
                })
        ]
  ]

  pub note_ack-IsLogged :
      (s t : Sender) (id : ℕ) (disk : Disk) → note_ack s id disk ≡ some t → Kept s → Kept t
  unfolding note_ack
  note_ack-IsLogged s t id disk h v = elim (Option-cases (log_ack s id disk)) [
    | inl e ↦ absurd (ground (arith, e, h))
    | inr ((u, ok), e) ↦
        let (l', opened, written, ids) = log_ack_grows s u v.log id disk ok v.opened e v.written in
        let same = log_ack_unacked s u id disk ok e in
        let v' : Kept u = record {
          log = l';
          opened = opened;
          written = written;
          known = λ k w. ap (mem k) ids ∙ v.known k (ap (λ m. mem k (keys m)) (sym same) ∙ w);
        } in
        elim (Bool-cases ok) [
          | inr o ↦ subst Kept {x = u} {y = t} (ground (arith, e, o, h)) v'
          | inl o ↦
              subst Kept {x = record u { unacked = erase id u.unacked }} {y = t}
                (ground (arith, e, o, h))
                (record {
                  log = l';
                  opened = opened;
                  written = written;
                  known = λ k w. v'.known k (mem-erase k id u.unacked w);
                })
        ]
  ]
