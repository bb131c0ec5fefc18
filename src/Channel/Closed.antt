-- ===== src/Channel/Closed.antt =====
-- Channel.antt: nothing is sent into a closed channel.
use ultra_net.Prelude.{ℕ, ◌≡◌, true}
use ultra_net.Channel.{Channel}
use ultra_net.Channel.Steps.{System}

module _ {A : Type 0} (capacity : ℕ) (default : A) where
  -- The channel stays closed, and no value is sent.
  IsShutStep : System A → System A → Type 0
  IsShutStep s t = (t.channel.closed ≡ true) × (t.sent ≡ s.sent)
