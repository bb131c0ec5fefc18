-- ===== src/Channel/Sound.antt =====
-- Channel.antt: every locked part of a method keeps the invariant.
use ultra_net.Prelude.{ℕ, suc, ◌+◌, ◌%◌, ◌^◌, ◌<◌, ◌≡◌, inl, inr, not, ◌&&◌, arith}
use ultra_net.Channel.{Channel, try_write, try_read}
use ultra_net.Channel.Await.{
  write, read, write_ready, write_resume, read_ready, read_resume, take_reserved,
}
use ultra_net.Channel.Reserve.{IsOpen}
use ultra_net.Channel.Outcomes.{
  IsSound, IsPut, IsGot, fresh-IsPut, reserved-IsPut, nothing-IsPut, fresh-IsGot, reserved-IsGot,
  nothing-IsGot,
}
use ultra_net.Channel.Shut.{
  released-IsPut, read_and_wake-IsGot, shut_reserved-IsGot, shut_empty-IsGot,
}
use ultra_net.Channel.Steps.{blocked, accepted, taken}

module _ {A : Type 0} (capacity : ℕ) (default : A) where
  module _ {n rs ws : ℕ} (small : capacity < 2 ^ 64) (few : n < 2 ^ 64) where
    pub room_exact :
        (c : Channel A)
        → IsOpen capacity 0 0 n rs ws c
        → (c.count + c.write_reserved) % 2 ^ 64 ≡ c.count + c.write_reserved
    room_exact c v = omega (arith, v.room, small)

    pub write_ready-IsPut :
        (c : Channel A) (a : A)
        → IsSound capacity default n rs ws c
        → IsPut capacity default n rs ws c
            (write_ready capacity c (write a)).to_wake
            (accepted
              ((write_ready capacity c (write a)).flag
                && not (write_ready capacity c (write a)).self.closed)
              a)
            (write_ready capacity c (write a)).channel
    unfolding write_ready write accepted
    write_ready-IsPut c a (inr v) =
        ground (arith, v.shut, nothing-IsPut capacity default small few c (inr v))
    write_ready-IsPut c a (inl v) = ground (
      arith,
      v.open_still,
      room_exact c v,
      nothing-IsPut capacity default small few c (inl v),
      fresh-IsPut capacity default small few c a v,
    )

    pub write_resume-IsPut :
        (c : Channel A) (a : A)
        → IsSound capacity default n rs (suc ws) c
        → IsPut capacity default n rs ws c
            (write_resume capacity c (blocked a)).to_wake
            (accepted
              ((write_resume capacity c (blocked a)).flag
                && not (write_resume capacity c (blocked a)).self.closed)
              a)
            (write_resume capacity c (blocked a)).channel
    unfolding write_resume blocked accepted
    write_resume-IsPut c a (inr v) =
        ground (arith, v.shut, released-IsPut capacity default small few c v)
    write_resume-IsPut c a (inl v) =
        ground (arith, v.open_still, reserved-IsPut capacity default small few c a v)

    pub try_write-IsPut :
        (c : Channel A) (a : A)
        → IsSound capacity default n rs ws c
        → IsPut capacity default n rs ws c
            (try_write capacity c a).1
            (accepted (try_write capacity c a).0 a)
            (try_write capacity c a).2
    unfolding try_write accepted
    try_write-IsPut c a (inr v) =
        ground (arith, v.shut, nothing-IsPut capacity default small few c (inr v))
    try_write-IsPut c a (inl v) = ground (
      arith,
      v.open_still,
      room_exact c v,
      nothing-IsPut capacity default small few c (inl v),
      fresh-IsPut capacity default small few c a v,
    )

    pub read_ready-IsGot :
        (c : Channel A)
        → IsSound capacity default n rs ws c
        → IsGot capacity default n rs ws c
            (read_ready capacity default c read).to_wake
            (taken (read_ready capacity default c read).self.value)
            (read_ready capacity default c read).channel
    unfolding read_ready read taken
    read_ready-IsGot c (inr v) = ground (
      arith,
      v.shut,
      nothing-IsGot capacity default small few c (inr v),
      read_and_wake-IsGot capacity default small few c v,
    )
    read_ready-IsGot c (inl v) = ground (
      arith,
      v.open_still,
      nothing-IsGot capacity default small few c (inl v),
      fresh-IsGot capacity default small few c v,
    )

    pub read_resume-IsGot :
        (c : Channel A)
        → IsSound capacity default n (suc rs) ws c
        → IsGot capacity default n rs ws c
            (read_resume capacity default c read).to_wake
            (taken (read_resume capacity default c read).self.value)
            (read_resume capacity default c read).channel
    unfolding read_resume take_reserved read taken
    read_resume-IsGot c (inr v) = ground (
      arith,
      v.shut,
      shut_empty-IsGot capacity default small few c v,
      shut_reserved-IsGot capacity default small few c v,
    )
    read_resume-IsGot c (inl v) =
        ground (arith, v.backed, v.readers_hold, reserved-IsGot capacity default small few c v)

    pub try_read-IsGot :
        (c : Channel A)
        → IsSound capacity default n rs ws c
        → IsGot capacity default n rs ws c
            (try_read capacity default c).1
            (taken (try_read capacity default c).0)
            (try_read capacity default c).2
    unfolding try_read taken
    try_read-IsGot c (inr v) = ground (
      arith,
      v.shut,
      nothing-IsGot capacity default small few c (inr v),
      read_and_wake-IsGot capacity default small few c v,
    )
    try_read-IsGot c (inl v) = ground (
      arith,
      v.open_still,
      nothing-IsGot capacity default small few c (inl v),
      fresh-IsGot capacity default small few c v,
    )
