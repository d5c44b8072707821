-- ===== src/Process/Stops/Status.antt =====
-- The constructor of StopReason on the statuses that wait(2) describes.
use building_a_debugger.Common.{
  ℕ, ◌+◌, ◌*◌, ◌/◌, ◌%◌, ◌<◌, ◌≡◌, refl, ap, ◌∙◌, arith, true, false, ◌==◌, some,
}
use building_a_debugger.Process.State.{exited, terminated, stopped}
use building_a_debugger.Process.StopReason.{plain_reason, stop_reason}

as_exit :
    (status : ℕ)
    → status % 128 == 0 ≡ true
    → stop_reason status ≡ some (plain_reason exited (status / 256 % 256))
unfolding stop_reason
as_exit status e = rw e refl

as_signal :
    (status : ℕ)
    → status % 128 == 0 ≡ false
    → status % 128 == 127 ≡ false
    → stop_reason status ≡ some (plain_reason terminated (status % 128))
unfolding stop_reason
as_signal status e f = rw (e, f) refl

as_stop :
    (status : ℕ)
    → status % 128 == 0 ≡ false
    → status % 128 == 127 ≡ true
    → status % 256 == 127 ≡ true
    → stop_reason status ≡ some (plain_reason stopped (status / 256 % 256))
unfolding stop_reason
as_stop status e f g = rw (e, f, g) refl

-- A status of an exit reads as its code, that of a death by a signal as the signal, with a core
-- dump or without, and that of a stop as the signal that stopped the process.
pub stop_reason_lem :
    (code signal core stop : ℕ)
    → code < 256
    → 0 < signal
    → signal < 127
    → core < 2
    → stop < 256
    → (stop_reason (256 * code) ≡ some (plain_reason exited code))
      × (stop_reason (signal + 128 * core) ≡ some (plain_reason terminated signal))
      × (stop_reason (127 + 256 * stop) ≡ some (plain_reason stopped stop))
stop_reason_lem code signal core stop hc hs ht hd hp = (
  as_exit (256 * code) (ground arith) ∙ ap (λ t. some (plain_reason exited t)) exit_code,
  as_signal (signal + 128 * core) (ground arith) (ground arith)
      ∙ ap (λ t. some (plain_reason terminated t)) its_signal,
  as_stop (127 + 256 * stop) (ground arith) (ground arith) (ground arith)
      ∙ ap (λ t. some (plain_reason stopped t)) stop_signal,
)
  where
    exit_code : 256 * code / 256 % 256 ≡ code
    exit_code = omega arith

    its_signal : (signal + 128 * core) % 128 ≡ signal
    its_signal = omega arith

    stop_signal : (127 + 256 * stop) / 256 % 256 ≡ stop
    stop_signal = omega arith
