-- ===== src/Delivery/Run.antt =====
-- Delivery.antt: a node with a log, over any sequence of steps.
use ultra_net.Prelude.{
  ℕ, zero, suc, Bool, List, [], ◌∷◌, Option, none, some, ◌==◌, if◌then◌else◌, Bytes, ◌>>=◌,
}
use ultra_net.ReceiverLog.Index.{Key, same}
use ultra_net.Delivery.Push.{replay_receiver_for}
use ultra_net.Delivery.{LocalActor, Node, Mail, Envelope}
use ultra_net.Delivery.Accept.{
  Io, flush_round, handle_routed, key_of_envelope, begin_dispatch, DeliverResult, has_thrown,
  finish_remote_delivery,
}

-- `running` are the messages whose handler has begun and not ended, `ended` those whose handler has
-- ended without a throw, each once for each time.
pub record System : Type 0 where
  pub node : Node
  pub running : List Key
  pub ended : List Key

pub data Event : Type 0 where
  -- A frame from a connection, and a round of the loop that flushes.
  arrives : Bytes → ℕ → Io → Event
  flushes : Io → Event
  -- The handler of the message at this place in the mailboxes begins; that of this message ends.
  begins : ℕ → Event
  ends : Key → ℕ → DeliverResult → Io → Event
  holds : Bool → Event
  -- An actor is spawned, and is given what waits for it.
  spawns : LocalActor → Event

unfoldable pub take_at : ℕ → List Mail → Option (Mail × List Mail)
take_at i [] = none
take_at zero (m ∷ ms) = some (m, ms)
take_at (suc i) (m ∷ ms) = elim (take_at i ms) [ none ↦ none | some (x, rest) ↦ some (x, m ∷ rest) ]

unfoldable pub count : Key → List Key → ℕ
count k [] = 0
count k (j ∷ js) = let rest = count k js in if same k j then suc rest else rest

unfoldable pub remove : Key → List Key → List Key
remove k [] = []
remove k (j ∷ js) = let rest = remove k js in if same k j then js else j ∷ rest

-- The handler of a message without an id runs at once, and nothing keeps account of it.
unfoldable pub begin : System → Envelope → Node → System
begin s e n =
    let (n', runs_now) = begin_dispatch n e in
    if e.correlation_id == 0 then record s { node = n } else record s {
      node = n';
      running = if runs_now then key_of_envelope e ∷ s.running else s.running;
    }

unfoldable pub end : System → Key → DeliverResult → Node → System
end s k result n = record {
  node = n;
  running = remove k s.running;
  ended = if has_thrown result then s.ended else k ∷ s.ended;
}

-- None where the event cannot happen, or a call of `write` has not returned.
unfoldable pub step : System → Event → Option System
step s (arrives frame conn io) =
    handle_routed s.node frame conn io >>= (λ n. some (record s { node = n }))
step s (flushes io) = flush_round s.node io >>= (λ n. some (record s { node = n }))
step s (begins i) =
    take_at i s.node.mail >>= (λ x. some (begin s x.0.envelope (record s.node { mail = x.1 })))
step s (ends k conn result io) =
    let rest = finish_remote_delivery s.node k conn result io >>= (λ n. some (end s k result n)) in
    if count k s.running == 0 then none else rest
step s (holds b) = some (record s { node = record s.node { hold_handler = b } })
step s (spawns a) =
    let n = record s.node { actors = a ∷ s.node.actors } in
    some (record s { node = replay_receiver_for n a.uri })

unfoldable pub run : System → List Event → Option System
run s [] = some s
run s (e ∷ es) = step s e >>= (λ t. run t es)
