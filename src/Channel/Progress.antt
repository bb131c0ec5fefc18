-- ===== src/Channel/Progress.antt =====
-- Channel.antt: what the reservations promise to those that wait.
use ultra_net.Prelude.{ℕ, ◌^◌, ◌<◌, ◌≡◌, inl, inr, false, List, ◌∷◌, some, arith, length}
use ultra_net.Channel.{Channel, do_read}
use ultra_net.Channel.Await.{read, read_resume, take_reserved}
use ultra_net.Channel.Ring.{contents, contents-do_read}
use ultra_net.Channel.Reserve.{IsOpen}
use ultra_net.Channel.Outcomes.{IsSound}
use ultra_net.Channel.Steps.{Event, start, run}
use ultra_net.Channel.Order.{run-IsFifo}

module _ {A : Type 0} (capacity : ℕ) (default : A) where
  unclosed-IsOpen :
      {n rs ws : ℕ} (c : Channel A)
      → c.closed ≡ false
      → IsSound capacity default n rs ws c
      → IsOpen capacity 0 0 n rs ws c
  unclosed-IsOpen c o (inl v) = v
  unclosed-IsOpen c o (inr v) = absurd (cc (o, v.shut))

  read_resume_open :
      (c : Channel A)
      → 0 < c.count
      → (read_resume capacity default c read).self.value ≡ some (do_read capacity default c).0
  unfolding read_resume take_reserved read
  read_resume_open c h = ground arith

  -- From a new channel, with a capacity between 1 and 2 ^ 64 - 1 and in fewer than 2 ^ 64 events: if
  -- the channel is open and a reader was woken that has not run, then the read gives it, when it runs,
  -- the oldest value that the channel holds.
  pub woken_reader :
      (es : List (Event A))
      → 0 < capacity
      → capacity < 2 ^ 64
      → length es < 2 ^ 64
      → (run capacity default (start capacity default) es).channel.closed ≡ false
      → 0 < (run capacity default (start capacity default) es).readers_woken
      → (a : A) × (rest : List A) × (contents capacity default
            (run capacity default (start capacity default) es).channel
          ≡ a ∷ rest)
        × ((read_resume capacity default
              (run capacity default (start capacity default) es).channel
              read).self.value
            ≡ some a)
  woken_reader es pos small few still woken =
      let s = run capacity default (start capacity default) es in
      let v = run-IsFifo capacity default es pos small few in
      let o = unclosed-IsOpen s.channel still v.sound in
      let some_left : 0 < s.channel.count = omega (arith, o.backed, o.readers_hold, woken) in
      (
        (do_read capacity default s.channel).0,
        contents capacity default (do_read capacity default s.channel).1,
        contents-do_read capacity default s.channel (omega (arith, o.ring.fits, small)) some_left,
        read_resume_open s.channel some_left,
      )
