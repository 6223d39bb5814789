-- ===== src/Live/Transport/Tests.antt =====
-- src/features/live/transport-supervisor.ts: a drop, a resume that overtakes it, and an end.
use asad.Base.{◌≡◌, refl, true, List, [], ◌∷◌, length}
use asad.Live.Transport.{
  device, transport, opened, recovering, initial, resolved, attempt_open, open_settled,
  close_settled, handle, report, resume, close, timer_fired,
}
use asad.Live.Transport.Final.{
  Event, started, resumed, reported, open_done, close_done, timer_done, step, run, without_index,
  IsClosed, close-IsClosed,
}
use asad.Live.Transport.Stale.{report-stale}

-- The first open succeeds, the transport drops, and a person resumes before `close` has settled.
abbrev overtaken : List Event
overtaken =
    started
    ∷ open_done 0 (resolved true)
    ∷ reported transport "dropped"
    ∷ resumed
    ∷ open_done 0 (resolved true)
    ∷ close_done 0
    ∷ []

still_open : (run initial overtaken).phase ≡ opened
unfolding run step attempt_open open_settled close_settled handle report resume
still_open = refl

-- The retry of the drop is set all the same, and takes the open transport back to recovering.
opens_again :
    ((step (run initial overtaken) (timer_done 0)).phase ≡ recovering)
    × (length (step (run initial overtaken) (timer_done 0)).opens ≡ 1)
unfolding run step attempt_open open_settled close_settled handle report resume timer_fired
opens_again = (refl, refl)

close-IsClosed_example :
    IsClosed
      (run initial overtaken).emitted
      (run initial overtaken).open_token
      (run (close (run initial overtaken)) (timer_done 0 ∷ resumed ∷ []))
close-IsClosed_example = close-IsClosed (run initial overtaken) (timer_done 0 ∷ resumed ∷ [])

report-stale_example :
    let r = report (run initial (started ∷ [])) device "unplugged" in
    step r (open_done 0 (resolved true)) ≡ record r { opens = without_index r.opens 0 }
unfolding run step attempt_open
report-stale_example = report-stale (started ∷ []) device "unplugged" 0 (resolved true) refl refl
