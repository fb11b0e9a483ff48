-- ===== src/Engine/Tests.antt =====
-- The theorems on internal/engine at concrete runs.
use slip_stream_plus.Prelude.{◌≡◌, ◌⊎◌, refl, true, false}
use slip_stream_plus.Engine.Manager.Supervisor.{
  waiting, exited, backing_off, due, gone, cancelled, stopped, finished, Watch, watched, Reach,
  begin, after, look, wait_over, wake, exits, cancel, stop, wait_for_all, step, look_from,
  is_serving, is_due, Reach-finished, Reach-orphan,
}

-- The instance's process exits and its supervisor is about to start it again.
abbrev about_to_start : Watch
about_to_start = record watched { place = due; process = false }

due-Reach : Reach about_to_start
unfolding step look_from is_serving
due-Reach =
    after wake (record watched { place = backing_off; process = false }) about_to_start
      (after look (record watched { place = exited; process = false }) _
        (after wait_over (record watched { place = waiting; process = false }) _
          (after exits (record watched { place = waiting }) _ (after look watched _ begin refl)
            refl)
          refl)
        refl)
      refl

Reach-orphan_example :
    (t : Watch) × Reach t × (t.stage ≡ finished) × (t.place ≡ gone) × (t.process ≡ true)
Reach-orphan_example = Reach-orphan about_to_start due-Reach refl refl

-- `Shutdown` while the supervisor waits for the process.
abbrev shut : Watch
shut = record watched { stage = finished; place = gone; process = false }

shut-Reach : Reach shut
unfolding step look_from is_serving is_due
shut-Reach =
    after wait_for_all (record shut { stage = stopped }) shut
      (after look (record shut { stage = stopped; place = exited }) _
        (after wait_over (record shut { stage = stopped; place = waiting }) _
          (after stop (record watched { stage = cancelled; place = waiting }) _
            (after cancel (record watched { place = waiting }) _ (after look watched _ begin refl)
              refl)
            refl)
          refl)
        refl)
      refl

Reach-finished_example : (shut.place ≡ gone) × ((shut.process ≡ false) ⊎ (shut.late ≡ true))
Reach-finished_example = Reach-finished shut shut-Reach refl
