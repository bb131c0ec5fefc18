-- ===== src/Sender/Kept.antt =====
-- Sender.antt: a message stays in the table until its acknowledgement.
use ultra_net.Prelude.{
  if_intro, ℕ, ◌≡◌, refl, ap, ◌∙◌, inl, inr, true, false, List, [], ◌∷◌, some, arith, ◌==◌, Bytes,
  Bool-cases,
}
use ultra_net.Sender.{
  UnackedItem, find, erase, put, mark_failed, mark_dead, mark_sent, is_due, restamp,
}

-- The table has the message, with this frame, for this node.
unfoldable pub Holds : ℕ → Bytes → ℕ → List UnackedItem → Type 0
Holds id frame node m =
    (j : UnackedItem) × (find id m ≡ some j) × (j.frame ≡ frame) × (j.node ≡ node)

module _ (id : ℕ) (frame : Bytes) (node : ℕ) where
  here-Holds :
      (i : UnackedItem) (m : List UnackedItem)
      → (id == i.msg_id) ≡ true
      → i.frame ≡ frame
      → i.node ≡ node
      → Holds id frame node (i ∷ m)
  unfolding Holds find
  here-Holds i m e f n = (i, ground (arith, e), f, n)

  there-Holds :
      (i : UnackedItem) (m : List UnackedItem)
      → (id == i.msg_id) ≡ false
      → Holds id frame node m
      → Holds id frame node (i ∷ m)
  unfolding Holds find
  there-Holds i m o (j, e, f, n) = (j, ground (arith, o, e), f, n)

  -- The message is at the front, or behind it.
  front-Holds :
      (i : UnackedItem) (m : List UnackedItem)
      → (id == i.msg_id) ≡ true
      → Holds id frame node (i ∷ m)
      → (i.frame ≡ frame) × (i.node ≡ node)
  unfolding Holds find
  front-Holds i m e (j, h, f, n) =
      let same : i ≡ j = ground (arith, e, h) in (ap frame_field same ∙ f, ap node_field same ∙ n)
    where
      frame_field : UnackedItem → Bytes
      frame_field i = i.frame

      node_field : UnackedItem → ℕ
      node_field i = i.node

  rest-Holds :
      (i : UnackedItem) (m : List UnackedItem)
      → (id == i.msg_id) ≡ false
      → Holds id frame node (i ∷ m)
      → Holds id frame node m
  unfolding Holds find
  rest-Holds i m o (j, h, f, n) = (j, ground (arith, o, h), f, n)

  nil-Holds : {X : Type 0} → Holds id frame node [] → X
  unfolding Holds find
  nil-Holds (j, h, f, n) = absurd (cc h)

  -- A loop that leaves the keys, the frames and the nodes of the entries leaves the message.
  cons-Holds :
      (i i' : UnackedItem) (m m' : List UnackedItem)
      → i'.msg_id ≡ i.msg_id
      → i'.frame ≡ i.frame
      → i'.node ≡ i.node
      → (Holds id frame node m → Holds id frame node m')
      → Holds id frame node (i ∷ m)
      → Holds id frame node (i' ∷ m')
  cons-Holds i i' m m' k f n rest h = elim (Bool-cases (id == i.msg_id)) [
    | inl e ↦
        let (hf, hn) = front-Holds i m e h in
        here-Holds i' m' (ap (λ x. id == x) k ∙ e) (f ∙ hf) (n ∙ hn)
    | inr o ↦ there-Holds i' m' (ap (λ x. id == x) k ∙ o) (rest (rest-Holds i m o h))
  ]

  pub mark_failed-Holds :
      (k : ℕ) (m : List UnackedItem) → Holds id frame node m → Holds id frame node (mark_failed k m)
  unfolding mark_failed
  mark_failed-Holds k [] h = h
  mark_failed-Holds k (i ∷ m) h =
      if_intro (Holds id frame node) (k == i.msg_id) _ _
        (λ _. cons-Holds i _ m m refl refl refl (λ w. w) h)
        (λ _. cons-Holds i i m _ refl refl refl (mark_failed-Holds k m) h)

  pub mark_dead-Holds :
      (k : ℕ) (m : List UnackedItem) → Holds id frame node m → Holds id frame node (mark_dead k m)
  unfolding mark_dead
  mark_dead-Holds k [] h = h
  mark_dead-Holds k (i ∷ m) h =
      if_intro (Holds id frame node) (i.node == k) _ _
        (λ _. cons-Holds i _ m _ refl refl refl (mark_dead-Holds k m) h)
        (λ _. cons-Holds i i m _ refl refl refl (mark_dead-Holds k m) h)

  pub mark_sent-Holds :
      (k now : ℕ) (m : List UnackedItem)
      → Holds id frame node m
      → Holds id frame node (mark_sent k now m)
  unfolding mark_sent
  mark_sent-Holds k now [] h = h
  mark_sent-Holds k now (i ∷ m) h =
      if_intro (Holds id frame node) (k == i.msg_id) _ _
        (λ _. cons-Holds i _ m m refl refl refl (λ w. w) h)
        (λ _. cons-Holds i i m _ refl refl refl (mark_sent-Holds k now m) h)

  pub restamp-Holds :
      (limit now : ℕ) (m : List UnackedItem)
      → Holds id frame node m
      → Holds id frame node (restamp limit now m)
  unfolding restamp
  restamp-Holds limit now [] h = h
  restamp-Holds limit now (i ∷ m) h =
      if_intro (Holds id frame node) (is_due limit now i) _ _
        (λ _. cons-Holds i _ m _ refl refl refl (restamp-Holds limit now m) h)
        (λ _. cons-Holds i i m _ refl refl refl (restamp-Holds limit now m) h)

  pub erase-Holds :
      (k : ℕ) (m : List UnackedItem)
      → (id == k) ≡ false
      → Holds id frame node m
      → Holds id frame node (erase k m)
  unfolding erase
  erase-Holds k [] o h = h
  erase-Holds k (i ∷ m) o h =
      if_intro (Holds id frame node) (k == i.msg_id) _ _
        (λ e. erase-Holds k m o (rest-Holds i m (ground (arith, o, e)) h))
        (λ _. cons-Holds i i m _ refl refl refl (erase-Holds k m o) h)

  pub put-Holds :
      (i : UnackedItem) (m : List UnackedItem)
      → ((id == i.msg_id) ≡ true → (i.frame ≡ frame) × (i.node ≡ node))
      → Holds id frame node m
      → Holds id frame node (put i m)
  unfolding put
  put-Holds i m own h = elim (Bool-cases (id == i.msg_id)) [
    | inl e ↦ let (f, n) = own e in here-Holds i (erase i.msg_id m) e f n
    | inr o ↦ there-Holds i (erase i.msg_id m) o (erase-Holds i.msg_id m o h)
  ]
