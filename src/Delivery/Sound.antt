-- ===== src/Delivery/Sound.antt =====
-- Delivery.antt: every step of a node with a log keeps the invariant.
use ultra_net.Prelude.{
  ℕ, suc, ◌+◌, ◌≤◌, ◌≡◌, refl, sym, subst, ap, ◌∙◌, ◌⊎◌, inl, inr, Bool, true, false, List, [], ◌∷◌,
  Option, none, some, arith, ◌==◌, if◌then◌else◌, Bool-cases, ◌>>=◌,
}
use ultra_net.ReceiverLog.Index.{Key, Entry, find}
use ultra_net.Delivery.{DedupState, lookup, Node, Mail, Envelope}
use ultra_net.Delivery.Accept.{
  Io, flush_round, handle_routed, key_of_envelope, begin_dispatch, DeliverResult, has_thrown,
  finish_remote_delivery,
}
use ultra_net.Delivery.Distinct.{IsDistinct}
use ultra_net.Delivery.Held.{is_held, is_done, Owns}
use ultra_net.Delivery.Once.{runs, IsUnique, mails, IsOnce, AllOnce}
use ultra_net.Delivery.Claim.{begin-AllOnce}
use ultra_net.Delivery.Finish.{finish-AllOnce, held_not_done}
use ultra_net.Delivery.Arrive.{handle_routed-AllOnce, flush_round-AllOnce}
use ultra_net.Delivery.Replays.{replay-AllOnce}
use ultra_net.Delivery.Run.{
  System, Event, arrives, flushes, begins, ends, holds, spawns, take_at, count, remove, begin, end,
  step, run,
}
use ultra_net.Delivery.Counts.{
  taken_own, taken_less, count-remove_self, count-remove_ne, count_own, count_other, ended_own,
  ended_other,
}

pub IsSound : System → Type 0
IsSound s = AllOnce s.node (λ k. count k s.running) (λ k. count k s.ended)

-- An envelope less in the mailboxes.
fewer-AllOnce :
    (n : Node) (rest : List Mail) (r d : Key → ℕ)
    → ((k : Key) → mails k rest ≤ mails k n.mail)
    → AllOnce n r d
    → AllOnce (record n { mail = rest }) r d
fewer-AllOnce n rest r d less v = record {
  logs = v.logs;
  unique = v.unique;
  distinct = v.distinct;
  each = λ k.
      let w = v.each k in
      record {
        alone = omega (arith, w.alone, less k);
        held = elim w.held [ inl z ↦ inl (omega (arith, z, less k)) | inr x ↦ inr x ];
        running = w.running;
        once = w.once;
        owns = w.owns;
      };
}

begin_cases :
    (s : System) (e : Envelope) (n : Node)
    → (begin s e n ≡ record s { node = n })
      ⊎ (begin s e n ≡ record s {
        node = (begin_dispatch n e).0;
        running = if (begin_dispatch n e).1 then key_of_envelope e ∷ s.running else s.running;
      })
unfolding begin
begin_cases s e n = elim (Bool-cases (e.correlation_id == 0)) [
  | inl t ↦ inl (ground (arith, t))
  | inr o ↦ inr (ground (arith, o))
]

in_mail :
    {a b : ℕ} (r : ℕ) (e : Option Entry)
    → a ≡ suc b
    → (a + r ≡ 0) ⊎ (is_held e ≡ true)
    → is_held e ≡ true
in_mail r e own (inl z) = absurd (omega (arith, own, z))
in_mail r e own (inr h) = h

begun :
    (s : System) (x : Node × Bool) (j : Key)
    → ((x.1 ≡ true) × AllOnce x.0 (λ k. count k (j ∷ s.running)) (λ k. count k s.ended))
      ⊎ ((x.1 ≡ false) × AllOnce x.0 (λ k. count k s.running) (λ k. count k s.ended))
    → AllOnce x.0 (λ k. count k (if x.1 then j ∷ s.running else s.running)) (λ k. count k s.ended)
begun s x j (inl (t, a)) =
    subst
      (λ b.
        AllOnce x.0 (λ k. count k (if b then j ∷ s.running else s.running)) (λ k. count k s.ended))
      (sym t) a
begun s x j (inr (f, a)) =
    subst
      (λ b.
        AllOnce x.0 (λ k. count k (if b then j ∷ s.running else s.running)) (λ k. count k s.ended))
      (sym f) a

begin-IsSound :
    (s : System) (x : Mail) (rest : List Mail) (i : ℕ)
    → IsSound s
    → take_at i s.node.mail ≡ some (x, rest)
    → IsSound (begin s x.envelope (record s.node { mail = rest }))
unfolding IsSound
begin-IsSound s x rest i v h =
    let n = record s.node { mail = rest } in
    let j = key_of_envelope x.envelope in
    let own = taken_own i s.node.mail x rest h in
    let fewer =
      fewer-AllOnce s.node rest (λ k. count k s.running) (λ k. count k s.ended)
        (λ k. taken_less i s.node.mail x rest k h) v in
    elim (begin_cases s x.envelope n) [
      | inl e ↦ subst IsSound (sym e) fewer
      | inr e ↦ subst IsSound (sym e) (
          begun s (begin_dispatch n x.envelope) j (
            begin-AllOnce n x.envelope (λ k. count k s.running) (λ k. count k (j ∷ s.running))
              (λ k. count k s.ended) fewer (omega (arith, own, (v.each j).alone))
              (in_mail (count j s.running) (find j s.node.rcv.index) own (v.each j).held)
              (count_own j s.running) (λ k o. count_other j k s.running o)))
    ]

ends-IsSound :
    (s : System) (n : Node) (k : Key) (conn : ℕ) (result : DeliverResult) (io : Io)
    → IsSound s
    → (count k s.running == 0) ≡ false
    → finish_remote_delivery s.node k conn result io ≡ some n
    → IsSound (end s k result n)
unfolding IsSound end
ends-IsSound s n k conn result io v some_run h =
    let one : count k s.running ≡ 1 = ground (arith, some_run, (v.each k).alone) in
    finish-AllOnce s.node k (λ j. count j s.running) (λ j. count j (remove k s.running))
      (λ j. count j s.ended) v one (count-remove_self k s.running 0 one)
      (λ j o. count-remove_ne k j s.running o) n conn result io
      (λ j. count j (if has_thrown result then s.ended else k ∷ s.ended))
      (ended_own k s.ended (has_thrown result))
      (λ j o. ended_other k j s.ended (has_thrown result) o) h

bind_some :
    {A B : Type 0} (o : Option A) (f : A → Option B) (b : B)
    → (o >>= f) ≡ some b
    → (a : A) × (o ≡ some a) × (f a ≡ some b)
bind_some none f b h = absurd (cc h)
bind_some (some a) f b h = (a, refl, h)

some_eq : {A : Type 0} (a b : A) → some a ≡ some b → a ≡ b
some_eq a b h = cc h

step-IsSound : (s t : System) (e : Event) → IsSound s → step s e ≡ some t → IsSound t
unfolding step IsSound
step-IsSound s t (arrives frame conn io) v h =
    let (n, e, f) = bind_some (handle_routed s.node frame conn io) _ t h in
    subst IsSound (some_eq _ t f) (
      handle_routed-AllOnce s.node n frame conn io (λ k. count k s.running) (λ k. count k s.ended) v
        e)
step-IsSound s t (flushes io) v h =
    let (n, e, f) = bind_some (flush_round s.node io) _ t h in
    subst IsSound (some_eq _ t f)
      (flush_round-AllOnce s.node n io (λ k. count k s.running) (λ k. count k s.ended) v e)
step-IsSound s t (begins i) v h =
    let (x, e, f) = bind_some (take_at i s.node.mail) _ t h in
    subst IsSound (some_eq _ t f) (begin-IsSound s x.0 x.1 i v e)
step-IsSound s t (ends k conn result io) v h = elim (Bool-cases (count k s.running == 0)) [
  | inl z ↦ absurd (ground (arith, z, h))
  | inr o ↦
      let (n, e, f) =
        bind_some (finish_remote_delivery s.node k conn result io) (λ n. some (end s k result n)) t
          (ground (arith, o, h)) in
      subst IsSound (some_eq _ t f) (ends-IsSound s n k conn result io v o e)
]
step-IsSound s t (holds b) v h =
    subst IsSound (some_eq _ t h)
      (record { logs = v.logs; unique = v.unique; distinct = v.distinct; each = v.each })
step-IsSound s t (spawns a) v h = subst IsSound (some_eq _ t h) (
    replay-AllOnce (record s.node { actors = a ∷ s.node.actors }) a.uri (λ k. count k s.running)
      (λ k. count k s.ended)
      (record { logs = v.logs; unique = v.unique; distinct = v.distinct; each = v.each }))

run-IsSound : (s t : System) (es : List Event) → IsSound s → run s es ≡ some t → IsSound t
unfolding run
run-IsSound s t [] v h = subst IsSound (some_eq s t h) v
run-IsSound s t (e ∷ es) v h =
    let (u, first, rest) = bind_some (step s e) (λ u. run u es) t h in
    run-IsSound u t es (step-IsSound s u e v first) rest

mails_none : (k : Key) → mails k [] ≡ 0
unfolding mails
mails_none k = refl

runs_none : (k : Key) → runs (lookup k []) ≡ 0
unfolding runs lookup
runs_none k = refl

start-IsSound :
    (n : Node) (before : List Key)
    → n.logging ≡ true
    → n.dedup ≡ []
    → n.mail ≡ []
    → IsDistinct n.rcv.index
    → ((j : Key) → Owns j (find j n.rcv.index))
    → ((j : Key)
        → (count j before ≡ 0) ⊎ ((count j before ≡ 1) × (is_done (find j n.rcv.index) ≡ true)))
    → IsSound (record { node = n; running = []; ended = before })
unfolding IsSound count IsUnique
start-IsSound n before logs no_table no_mail distinct own done = record {
  logs = logs;
  unique = subst IsUnique (sym no_table) tt;
  distinct = distinct;
  each = λ k. record {
    alone = omega (arith, ap (mails k) no_mail ∙ mails_none k);
    held = inl (omega (arith, ap (mails k) no_mail ∙ mails_none k));
    running = ap (λ m. runs (lookup k m)) no_table ∙ runs_none k;
    once = done k;
    owns = own k;
  };
}

one_at_most :
    {k : Key} {e : Option Entry} {t : Option DedupState} {h r d : ℕ}
    → IsOnce k e t h r d
    → d + (h + r) ≤ 1
one_at_most {e} v = elim v.once [
  | inl z ↦ omega (arith, z, v.alone)
  | inr (one, done) ↦ elim v.held [
    | inl z ↦ omega (arith, z, one)
    | inr held ↦ absurd (cc (done, held_not_done e held))
  ]
]

-- On a node with a log, in any run of its steps: what arrives, spawns of actors, flushes that succeed
-- or fail, and handlers that run at the same time, throws included. Of a message, the envelopes in the
-- mailboxes, the handlers that run and the handlers that have ended without a throw are one at most
-- together, and those that ended before the run count. At the start the mailboxes and the table of
-- messages are empty, the log has one entry for a message, the frame of which is its own, and the entry
-- of each message that ended before, which did so once, is persisted and marked as executed.
pub handled_once :
    (n : Node) (before : List Key) (es : List Event) (t : System) (k : Key)
    → n.logging ≡ true
    → n.dedup ≡ []
    → n.mail ≡ []
    → IsDistinct n.rcv.index
    → ((j : Key) → Owns j (find j n.rcv.index))
    → ((j : Key)
        → (count j before ≡ 0) ⊎ ((count j before ≡ 1) × (is_done (find j n.rcv.index) ≡ true)))
    → run (record { node = n; running = []; ended = before }) es ≡ some t
    → count k t.ended + (mails k t.node.mail + count k t.running) ≤ 1
unfolding IsSound
handled_once n before es t k logs no_table no_mail distinct own done h =
    let v =
      run-IsSound (record { node = n; running = []; ended = before }) t es
        (start-IsSound n before logs no_table no_mail distinct own done) h in
    one_at_most (v.each k)
