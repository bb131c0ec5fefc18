-- ===== src/Channel/Tests.antt =====
-- Channel.antt at concrete inputs.
use ultra_net.Prelude.{ℕ, ◌≡◌, refl, List, [], ◌∷◌, some, arith}
use ultra_net.Channel.{
  advance, close, dec, do_read, do_write, new, read_and_wake, try_read, try_write, wake_one_reader,
  wake_one_writer, write_and_wake,
}
use ultra_net.Channel.Await.{
  read, read_ready, read_resume, read_suspend, take_reserved, write, write_ready, write_resume,
  write_suspend,
}
use ultra_net.Channel.Reserve.{add_woken}
use ultra_net.Channel.Ring.{contents, window}
use ultra_net.Channel.Steps.{
  System, Event, write_first, write_wait, write_again, write_now, read_first, read_wait, read_now,
  accepted, blocked, resume_reader, resume_writer, run, start, step, taken, was_read, written,
}
use ultra_net.Channel.Order.{IsFifo, run-IsFifo}
use ultra_net.Channel.Progress.{woken_reader}

-- A channel for two: the third writer waits, is woken by a read, and writes.
abbrev crowded : List (Event ℕ)
crowded =
    write_first 1
    ∷ write_first 2
    ∷ write_first 3
    ∷ write_wait 3 30
    ∷ read_first
    ∷ write_again 3
    ∷ read_first
    ∷ []

-- A reader that waits and is woken by a write, with another reader in between.
abbrev served : List (Event ℕ)
served = read_first ∷ read_wait 20 ∷ write_now 7 ∷ read_now ∷ []

abbrev after : List (Event ℕ) → System ℕ
after es = run 2 0 (start 2 0) es

crowded_received : (after crowded).received ≡ 1 ∷ 2 ∷ []
unfolding advance close dec do_read do_write new read_and_wake try_read try_write wake_one_reader
    wake_one_writer write_and_wake read read_ready read_resume read_suspend take_reserved write
    write_ready write_resume write_suspend accepted blocked resume_reader resume_writer run start
    step taken was_read written add_woken
crowded_received = refl

crowded-contents : contents 2 0 (after crowded).channel ≡ 3 ∷ []
unfolding advance close dec do_read do_write new read_and_wake try_read try_write wake_one_reader
    wake_one_writer write_and_wake read read_ready read_resume read_suspend take_reserved write
    write_ready write_resume write_suspend accepted blocked resume_reader resume_writer run start
    step taken was_read written add_woken contents window
crowded-contents = refl

served_received : (after served).received ≡ []
unfolding advance close dec do_read do_write new read_and_wake try_read try_write wake_one_reader
    wake_one_writer write_and_wake read read_ready read_resume read_suspend take_reserved write
    write_ready write_resume write_suspend accepted blocked resume_reader resume_writer run start
    step taken was_read written add_woken
served_received = refl

run-IsFifo_example : IsFifo 2 0 7 (after crowded)
run-IsFifo_example = run-IsFifo 2 0 crowded (omega arith) (omega arith) (omega arith)

woken_reader_example :
    (a : ℕ) × (rest : List ℕ) × (contents 2 0 (after served).channel ≡ a ∷ rest)
    × ((read_resume 2 0 (after served).channel read).self.value ≡ some a)
unfolding advance close dec do_read do_write new read_and_wake try_read try_write wake_one_reader
    wake_one_writer write_and_wake read read_ready read_resume read_suspend take_reserved write
    write_ready write_resume write_suspend accepted blocked resume_reader resume_writer run start
    step taken was_read written add_woken
woken_reader_example =
    woken_reader 2 0 served (omega arith) (omega arith) (omega arith) refl (omega arith)
