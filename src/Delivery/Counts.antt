-- ===== src/Delivery/Counts.antt =====
-- Delivery.antt: counts of mail and of messages.
use ultra_net.Prelude.{
  ℕ, zero, suc, ◌≤◌, ◌≡◌, refl, ◌∙◌, inl, inr, Bool, true, false, List, [], ◌∷◌, some, arith,
  if◌then◌else◌, Bool-cases, Option-cases,
}
use ultra_net.ReceiverLog.Index.{Key, same, same_eq, same_refl}
use ultra_net.Delivery.{Mail}
use ultra_net.Delivery.Accept.{key_of_envelope}
use ultra_net.Delivery.Once.{mails}
use ultra_net.Delivery.Run.{take_at, count, remove}

pub take_at-mails :
    (i : ℕ) (ms : List Mail) (x : Mail) (rest : List Mail) (k : Key)
    → take_at i ms ≡ some (x, rest)
    → mails k ms
      ≡ (if same k (key_of_envelope x.envelope) then suc (mails k rest) else mails k rest)
unfolding take_at mails
take_at-mails i [] x rest k h = absurd (cc h)
take_at-mails zero (m ∷ ms) x rest k h = ground (arith, h)
take_at-mails (suc i) (m ∷ ms) x rest k h = elim (Option-cases (take_at i ms)) [
  | inl e ↦ absurd (ground (arith, e, h))
  | inr ((y, left), e) ↦ ground (arith, e, h, take_at-mails i ms y left k e)
]

pub count-remove_self :
    (k : Key) (js : List Key) (c : ℕ) → count k js ≡ suc c → count k (remove k js) ≡ c
unfolding count remove
count-remove_self k [] c h = absurd (omega (arith, h))
count-remove_self k (j ∷ js) c h = elim (Bool-cases (same k j)) [
  | inl t ↦ ground (arith, t, h)
  | inr o ↦ ground (arith, o, count-remove_self k js c (ground (arith, o, h)))
]

pub count-remove_ne :
    (j k : Key) (js : List Key) → same k j ≡ false → count k (remove j js) ≡ count k js
unfolding count remove
count-remove_ne j k [] o = refl
count-remove_ne j k (i ∷ js) o = elim (Bool-cases (same j i)) [
  | inl t ↦ ground (arith, t, o, same_eq j i t)
  | inr u ↦ elim (Bool-cases (same k i)) [
    | inl t ↦ ground (arith, u, t, count-remove_ne j k js o)
    | inr w ↦ ground (arith, u, w, count-remove_ne j k js o)
  ]
]

pub count_own : (k : Key) (js : List Key) → count k (k ∷ js) ≡ suc (count k js)
unfolding count
count_own k js = ground (arith, same_refl k)

pub count_other : (j k : Key) (js : List Key) → same k j ≡ false → count k (j ∷ js) ≡ count k js
unfolding count
count_other j k js o = ground (arith, o)

pub taken_own :
    (i : ℕ) (ms : List Mail) (x : Mail) (rest : List Mail)
    → take_at i ms ≡ some (x, rest)
    → mails (key_of_envelope x.envelope) ms ≡ suc (mails (key_of_envelope x.envelope) rest)
taken_own i ms x rest h =
    take_at-mails i ms x rest (key_of_envelope x.envelope) h
    ∙ ground (arith, same_refl (key_of_envelope x.envelope))

pub taken_less :
    (i : ℕ) (ms : List Mail) (x : Mail) (rest : List Mail) (k : Key)
    → take_at i ms ≡ some (x, rest)
    → mails k rest ≤ mails k ms
taken_less i ms x rest k h = ground (arith, take_at-mails i ms x rest k h)

pub ended_own :
    (k : Key) (js : List Key) (b : Bool)
    → count k (if b then js else k ∷ js) ≡ (if b then count k js else suc (count k js))
ended_own k js true = refl
ended_own k js false = count_own k js

pub ended_other :
    (k j : Key) (js : List Key) (b : Bool)
    → same j k ≡ false
    → count j (if b then js else k ∷ js) ≡ count j js
ended_other k j js true o = refl
ended_other k j js false o = count_other k j js o
