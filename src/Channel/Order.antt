-- ===== src/Channel/Order.antt =====
-- Channel.antt: whole runs of the coroutines that use a channel.
use ultra_net.Prelude.{
  ℕ, zero, suc, ◌+◌, ◌^◌, ◌<◌, ◌≡◌, refl, sym, subst, ap, ◌∙◌, inl, List, [], ◌∷◌, ◌++◌, Option,
  arith, length, append_assoc,
}
use ultra_net.Channel.{new, close}
use ultra_net.Channel.Ring.{contents, contents-new, new-IsRing}
use ultra_net.Channel.Reserve.{add_woken}
use ultra_net.Channel.Outcomes.{IsSound, IsPut, IsGot}
use ultra_net.Channel.Sound.{
  write_ready-IsPut, write_resume-IsPut, try_write-IsPut, read_ready-IsGot, read_resume-IsGot,
  try_read-IsGot,
}
use ultra_net.Channel.Waits.{
  IsSound-suc, write_suspend-IsPut, read_suspend-IsGot, close-IsSound, contents-close,
}
use ultra_net.Channel.Steps.{
  System, Event, write_first, write_wait, write_again, write_now, read_first, read_wait, read_again,
  read_now, closes, written, was_read, start, step, run, resume_writer, resume_reader,
}

module _ {A : Type 0} (capacity : ℕ) (default : A) where
  -- The reservations are sound after at most `n` events, and the values that were sent are those that
  -- were received and behind them those that the channel holds, in the order in which they were sent.
  pub record IsFifo (n : ℕ) (s : System A) : Type 0 where
    pub sound : IsSound capacity default n s.readers_woken s.writers_woken s.channel
    pub order : s.sent ≡ s.received ++ contents capacity default s.channel

  pub start-IsFifo : 0 < capacity → IsFifo 0 (start capacity default)
  unfolding start new
  start-IsFifo h = record {
    sound = inl (record {
      open_still = refl;
      ring = new-IsRing capacity default h;
      backed = omega arith;
      room = omega arith;
      readers_hold = refl;
      writers_hold = refl;
      readers_wait = inl refl;
      writers_wait = inl refl;
      readers_fit = omega arith;
      writers_fit = omega arith;
    });
    order = sym (contents-new capacity default);
  }

  put-IsFifo :
      {n rs ws : ℕ} (s t : System A) (xs : List A) (h : Option ℕ)
      → IsPut capacity default n rs ws s.channel h xs t.channel
      → s.sent ≡ s.received ++ contents capacity default s.channel
      → t.readers_woken ≡ add_woken h rs
      → t.writers_woken ≡ ws
      → t.sent ≡ s.sent ++ xs
      → t.received ≡ s.received
      → IsFifo n t
  put-IsFifo {n} s t xs h p order er ew es ec = record {
    sound = rw (er, ew) p.sound;
    order =
        rw (ec, es, order, p.more)
          (append_assoc s.received (contents capacity default s.channel) xs);
  }

  got-IsFifo :
      {n rs ws : ℕ} (s t : System A) (xs : List A) (h : Option ℕ)
      → IsGot capacity default n rs ws s.channel h xs t.channel
      → s.sent ≡ s.received ++ contents capacity default s.channel
      → t.readers_woken ≡ rs
      → t.writers_woken ≡ add_woken h ws
      → t.sent ≡ s.sent
      → t.received ≡ s.received ++ xs
      → IsFifo n t
  got-IsFifo {n} s t xs h p order er ew es ec = record {
    sound = rw (er, ew) p.sound;
    order =
        rw (es, ec, order, p.less)
          (sym (append_assoc s.received xs (contents capacity default t.channel)));
  }

  module _ {n : ℕ} (small : capacity < 2 ^ 64) (few : suc n < 2 ^ 64) where
    later : (s : System A) → IsFifo n s → IsFifo (suc n) s
    later s v = record { sound = IsSound-suc default s.channel v.sound; order = v.order }

    resume_writer-IsFifo :
        (k : ℕ) (s : System A) (a : A)
        → s.writers_woken ≡ k
        → IsFifo n s
        → IsFifo (suc n) (resume_writer capacity default k s a)
    unfolding resume_writer written
    resume_writer-IsFifo zero s a e v = later s v
    resume_writer-IsFifo (suc k) s a e v =
        put-IsFifo s _ _ _
          (write_resume-IsPut capacity default small few s.channel a (
            IsSound-suc default s.channel
              (subst (λ w. IsSound capacity default n s.readers_woken w s.channel) e v.sound)))
          v.order refl refl refl refl

    resume_reader-IsFifo :
        (k : ℕ) (s : System A)
        → s.readers_woken ≡ k
        → IsFifo n s
        → IsFifo (suc n) (resume_reader capacity default k s)
    unfolding resume_reader was_read
    resume_reader-IsFifo zero s e v = later s v
    resume_reader-IsFifo (suc k) s e v =
        got-IsFifo s _ _ _
          (read_resume-IsGot capacity default small few s.channel (
            IsSound-suc default s.channel
              (subst (λ r. IsSound capacity default n r s.writers_woken s.channel) e v.sound)))
          v.order refl refl refl refl

    closes-IsFifo : (s : System A) → IsFifo n s → IsFifo (suc n) (step capacity default s closes)
    unfolding step close
    closes-IsFifo s v = record {
      sound = close-IsSound capacity default s.channel few (IsSound-suc default s.channel v.sound);
      order =
          v.order ∙ ap (λ xs. s.received ++ xs) (sym (contents-close capacity default s.channel));
    }

    pub step-IsFifo :
        (s : System A) (e : Event A) → IsFifo n s → IsFifo (suc n) (step capacity default s e)
    unfolding step written was_read
    step-IsFifo s (write_first a) v =
        put-IsFifo s _ _ _
          (write_ready-IsPut capacity default small few s.channel a
            (IsSound-suc default s.channel v.sound))
          v.order refl refl refl refl
    step-IsFifo s (write_wait a me) v =
        put-IsFifo s _ _ _ (write_suspend-IsPut capacity default small few s.channel a me v.sound)
          v.order refl refl refl refl
    step-IsFifo s (write_again a) v = resume_writer-IsFifo s.writers_woken s a refl v
    step-IsFifo s (write_now a) v =
        put-IsFifo s _ _ _
          (try_write-IsPut capacity default small few s.channel a
            (IsSound-suc default s.channel v.sound))
          v.order refl refl refl refl
    step-IsFifo s read_first v =
        got-IsFifo s _ _ _
          (read_ready-IsGot capacity default small few s.channel
            (IsSound-suc default s.channel v.sound))
          v.order refl refl refl refl
    step-IsFifo s (read_wait me) v =
        got-IsFifo s _ _ _ (read_suspend-IsGot capacity default small few s.channel me v.sound)
          v.order refl refl refl refl
    step-IsFifo s read_again v = resume_reader-IsFifo s.readers_woken s refl v
    step-IsFifo s read_now v =
        got-IsFifo s _ _ _
          (try_read-IsGot capacity default small few s.channel
            (IsSound-suc default s.channel v.sound))
          v.order refl refl refl refl
    step-IsFifo s closes v = closes-IsFifo s v

  run_from :
      {n : ℕ} (s : System A) (es : List (Event A))
      → capacity < 2 ^ 64
      → n + length es < 2 ^ 64
      → IsFifo n s
      → IsFifo (n + length es) (run capacity default s es)
  unfolding run
  run_from {n} s [] small few v = subst (λ k. IsFifo k s) (omega arith) v
  run_from {n} s (e ∷ es) small few v =
      subst (λ k. IsFifo k (run capacity default (step capacity default s e) es)) (omega arith)
        (run_from (step capacity default s e) es small (omega arith)
          (step-IsFifo small (omega arith) s e v))

  -- From a new channel, with a capacity between 1 and 2 ^ 64 - 1 and in fewer than 2 ^ 64 events: what
  -- the readers were given and behind it what the channel holds are the values that were sent, in the
  -- order in which they were; and of an open channel each woken coroutine holds one reservation, the
  -- reserved elements are there, the reserved places are free, and coroutines wait only if all else is
  -- reserved; of a closed channel none waits.
  pub run-IsFifo :
      (es : List (Event A))
      → 0 < capacity
      → capacity < 2 ^ 64
      → length es < 2 ^ 64
      → IsFifo (length es) (run capacity default (start capacity default) es)
  run-IsFifo es pos small few =
      subst (λ k. IsFifo k (run capacity default (start capacity default) es)) (omega arith)
        (run_from (start capacity default) es small (omega arith) (start-IsFifo pos))
