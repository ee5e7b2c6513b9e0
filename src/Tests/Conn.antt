-- ===== src/Tests/Conn.antt =====
-- conn.go on concrete connections: reading, writing and closing.
use electricity.Common.{
  ℕ, ◌+◌, ◌≡◌, refl, sym, ◌∙◌, append-nil, ◌-◌, Bool, true, false, none, some, List, [], ◌∷◌, arith,
}
use electricity.Const.RecordType
use electricity.Record.HalfConn.{HalfConn}
use electricity.Record.Encrypt.{encrypt}
use electricity.Conn.State.{Conn}
use electricity.Conn.Handshake.{message, read_handshake}
use electricity.Conn.Handshake.Reassembly.{IsArriving, stream, frames, read_handshake-stream}
use electricity.Conn.Frames.{IsPlain, frame}
use electricity.Conn.Write.{
  Output, Written, Network, write_record_locked, write_chunk, write_fragment, write_sealed, write,
}
use electricity.Conn.Write.Sizes.{IsSmall}
use electricity.Conn.Write.Trail.{Accounts, Writes}
use electricity.Conn.Write.Total.{write_record_locked-Writes}
use electricity.Conn.Write.Framing.{IsClear}
use electricity.Conn.Exchange.{added, read_handshake-write}
use electricity.Conn.Close.{write_data, close_notify}
use electricity.Conn.Close.Silent.{with_error, Quiet, write_data-Writes, close_notify-Quiet}
use electricity.Conn.Interlock.{
  Interlock, Steps, here, next, write_entered, write_left, start, enter_write, enter_close,
  sends_close_notify, close-alone,
}
use electricity.Tests.Records.{primitives, direction, no_random}

abbrev clear : HalfConn ℕ
clear = record (direction []) { cipher = none }

abbrev reading : List ℕ → Conn ℕ
reading raw = record {
  half = clear;
  in_err = none;
  out_err = none;
  vers = 0x0303;
  have_vers = true;
  handshake_complete = false;
  raw_input = raw;
  input = [];
  hand = [];
  retry_count = 0;
  alerts = [];
}

abbrev writing : Bool → Output ℕ
writing complete = record {
  half = clear;
  err = none;
  vers = 0x0303;
  handshake_complete = complete;
  sizing_disabled = false;
  buffering = false;
  send_buf = [];
  bytes_sent = 0;
  packets_sent = 0;
  close_notify_sent = false;
  close_notify_err = none;
  sent = [];
}

abbrev working : Network ℕ
working = record { fails_after = λ sent bytes. none; random = λ c. no_random }

-- A network that takes three bytes of each write.
abbrev breaking : Network ℕ
breaking = record { fails_after = λ sent bytes. some 3; random = λ c. no_random }

primitives-IsSmall : IsSmall primitives
primitives-IsSmall = record {
  overhead = λ s. omega arith;
  nonce_len = λ s. omega arith;
  block_size = λ s. omega arith;
  some_block = λ s. omega arith;
  mac_size = λ s. omega arith;
}

reading-IsPlain : (raw : List ℕ) → IsPlain 0x0303 (reading raw)
reading-IsPlain raw = record {
  no_cipher = refl;
  no_mac = refl;
  no_err = refl;
  no_input = refl;
  small = omega arith;
  same_vers = λ h. refl;
}

abbrev finished : List ℕ
finished = 20 ∷ (0 ∷ (0 ∷ (1 ∷ (7 ∷ []))))

-- A message in two records, cut inside its header, with the next record behind it.
abbrev cut_up : List (List ℕ)
cut_up = (20 ∷ (0 ∷ [])) ∷ ((0 ∷ (1 ∷ (7 ∷ []))) ∷ [])

cut_up-IsArriving : IsArriving 0x0303 cut_up (21 ∷ []) (reading (frames 0x0303 cut_up (21 ∷ [])))
cut_up-IsArriving = record {
  plain = reading-IsPlain (frames 0x0303 cut_up (21 ∷ []));
  whole = (
    record { some_bytes = refl; fits = omega arith },
    (record { some_bytes = refl; fits = omega arith }, tt),
  );
  raw = refl;
  bytes = omega arith;
  eight = refl;
  room = omega arith;
}

read_handshake-stream_example :
    (c' : Conn ℕ) × (come : List (List ℕ)) × (read_handshake primitives
        (reading (frames 0x0303 cut_up (21 ∷ [])))
      ≡ message c' finished)
    × IsArriving 0x0303 come (21 ∷ []) c'
    × (stream c' come ≡ [])
read_handshake-stream_example =
    read_handshake-stream primitives 0x0303 (21 ∷ []) 20 0 0 1 (7 ∷ []) []
      (reading (frames 0x0303 cut_up (21 ∷ []))) cut_up cut_up-IsArriving refl refl (omega arith)

writing-IsClear : (complete : Bool) → IsClear (writing complete)
writing-IsClear complete = record { no_cipher = refl; flushed = λ h. refl; small = omega arith }

finished_record :
    added primitives working (λ sent bytes. refl) finished (writing false) ≡ frame 0x0303 finished
unfolding write_record_locked encrypt write_fragment write_sealed write write_chunk
finished_record = refl

read_handshake-write_example :
    (d' : Conn ℕ) × (read_handshake primitives (reading (frame 0x0303 finished))
      ≡ message d' finished)
    × (d'.hand ≡ [])
    × (d'.raw_input ≡ [])
read_handshake-write_example =
    read_handshake-write primitives working (λ sent bytes. refl) 20 0 0 1 (7 ∷ []) []
      (writing false) (reading (frame 0x0303 finished)) (writing-IsClear false)
      (reading-IsPlain (frame 0x0303 finished)) refl
      (sym (
        append-nil (added primitives working (λ sent bytes. refl) finished (writing false))
        ∙ finished_record))
      (omega arith) refl (omega arith) refl (omega arith)

write_record_locked-Writes_example :
    Writes primitives breaking RecordType.handshake
      (writing false)
      finished
      0
      (write_record_locked primitives breaking RecordType.handshake finished (writing false))
    × Accounts 0 5
        (write_record_locked primitives breaking RecordType.handshake finished (writing false))
write_record_locked-Writes_example =
    write_record_locked-Writes primitives breaking RecordType.handshake primitives-IsSmall finished
      (writing false) refl

write_data-Writes_example :
    (r : Written ℕ) × Writes primitives breaking RecordType.application_data
      (writing true)
      finished
      0
      r
    × Accounts 0 5 r
    × (write_data primitives breaking finished (writing true) ≡ with_error r)
write_data-Writes_example =
    write_data-Writes primitives breaking primitives-IsSmall finished (writing true) refl refl refl

close_notify-Quiet_example :
    Quiet primitives working finished (close_notify primitives working (writing true))
close_notify-Quiet_example =
    close_notify-Quiet primitives working primitives-IsSmall finished (writing true)

-- A write that came and went.
abbrev idle_again : Interlock
idle_again = record { active_call = 2 - 2; writing = 1 - 1; closing = 0 }

abbrev closed : Interlock
closed = record { active_call = 1; writing = 1 - 1; closing = 0 + 1 }

once_written : Steps start idle_again
unfolding enter_write
once_written =
    next (next here (write_entered start 0 2 2 refl refl))
      (write_left (record { active_call = 2; writing = 1; closing = 0 }) (omega arith))

close-alone_example :
    (idle_again.writing ≡ 0)
    × (idle_again.closing ≡ 0)
    × (closed.writing ≡ 0)
    × (closed.closing ≡ 1)
unfolding enter_close sends_close_notify
close-alone_example = close-alone 0 1 1 once_written refl refl refl here
