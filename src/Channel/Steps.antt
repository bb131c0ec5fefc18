-- ===== src/Channel/Steps.antt =====
-- Channel.antt: a channel and the coroutines that use it, one locked part of a method at a time. A
-- coroutine that was scheduled runs at any later time; it is counted until it does.
use ultra_net.Prelude.{
  ℕ, zero, suc, Bool, true, false, not, ◌&&◌, List, [], ◌∷◌, ◌++◌, Option, none, some,
  if◌then◌else◌, ◌+◌, length,
}
use ultra_net.Channel.{Channel, new, close, try_write, try_read}
use ultra_net.Channel.Await.{
  Outcome, WriteAwaitable, ReadAwaitable, write, read, write_ready, write_suspend, write_resume,
  read_ready, read_suspend, read_resume,
}
use ultra_net.Channel.Reserve.{add_woken}

-- `sent` holds the values whose writers were told so, `received` those that readers were given.
pub record System {ℓ} (A : Type ℓ) : Type ℓ where
  pub channel : Channel A
  pub readers_woken : ℕ
  pub writers_woken : ℕ
  pub sent : List A
  pub received : List A

-- The locked part that runs: of a write or a read before the coroutine waits, as it starts to wait,
-- and when it runs again, and the calls that do not wait.
pub data Event {ℓ} (A : Type ℓ) : Type ℓ where
  write_first write_again write_now : A → Event A
  write_wait : A → ℕ → Event A
  read_first read_again read_now closes : Event A
  read_wait : ℕ → Event A

module _ {ℓ} {A : Type ℓ} where
  -- The awaitable of a writer that `await_ready` has sent to wait.
  unfoldable pub blocked : A → WriteAwaitable A
  blocked a = record { value = a; would_block = true; closed = false }

  unfoldable pub accepted : Bool → A → List A
  accepted b a = if b then a ∷ [] else []

  unfoldable pub taken : Option A → List A
  taken none = []
  taken (some a) = a ∷ []

  unfoldable pub written : System A → A → Outcome A (WriteAwaitable A) → System A
  written s a o = record s {
    channel = o.channel;
    readers_woken = add_woken o.to_wake s.readers_woken;
    sent = s.sent ++ accepted (o.flag && not o.self.closed) a;
  }

  unfoldable pub was_read : System A → Outcome A (ReadAwaitable A) → System A
  was_read s o = record s {
    channel = o.channel;
    writers_woken = add_woken o.to_wake s.writers_woken;
    received = s.received ++ taken o.self.value;
  }

module _ {ℓ} {A : Type ℓ} (capacity : ℕ) (default : A) where
  unfoldable pub start : System A
  start = record {
    channel = new capacity default;
    readers_woken = 0;
    writers_woken = 0;
    sent = [];
    received = [];
  }

  -- A coroutine runs again only if one was woken; the count is of those.
  unfoldable pub resume_writer : ℕ → System A → A → System A
  resume_writer zero s a = s
  resume_writer (suc k) s a =
      written (record s { writers_woken = k }) a (write_resume capacity s.channel (blocked a))

  unfoldable pub resume_reader : ℕ → System A → System A
  resume_reader zero s = s
  resume_reader (suc k) s =
      was_read (record s { readers_woken = k }) (read_resume capacity default s.channel read)

  unfoldable pub step : System A → Event A → System A
  step s (write_first a) = written s a (write_ready capacity s.channel (write a))
  step s (write_wait a me) = written s a (write_suspend capacity s.channel (blocked a) me)
  step s (write_again a) = resume_writer s.writers_woken s a
  step s (write_now a) =
      let (ok, h, c) = try_write capacity s.channel a in
      record s {
        channel = c;
        readers_woken = add_woken h s.readers_woken;
        sent = s.sent ++ accepted ok a;
      }
  step s read_first = was_read s (read_ready capacity default s.channel read)
  step s (read_wait me) = was_read s (read_suspend capacity default s.channel read me)
  step s read_again = resume_reader s.readers_woken s
  step s read_now =
      let (a, h, c) = try_read capacity default s.channel in
      record s {
        channel = c;
        writers_woken = add_woken h s.writers_woken;
        received = s.received ++ taken a;
      }
  step s closes =
      let (rs, ws, c) = close s.channel in
      record s {
        channel = c;
        readers_woken = s.readers_woken + length rs;
        writers_woken = s.writers_woken + length ws;
      }

  unfoldable pub run : System A → List (Event A) → System A
  run s [] = s
  run s (e ∷ es) = run (step s e) es
