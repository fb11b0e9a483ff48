-- ===== src/Central/Upstream/Writer.antt =====
-- cmd/centralserver/upstream.go: `upstreamWriter`, which takes slices out of the write queue and writes them to the
-- upstream. An event is a send into the queue, or what the goroutine does at a select; the channel is never closed.
pub mod Flush
pub mod Prefix
use slip_stream_plus.Prelude.{
  ℕ, ◌+◌, ◌<◌, ◌≡◌, refl, sym, ap, ◌∙◌, Bool, true, false, if◌then◌else◌, List, [], ◌∷◌, ◌++◌, map,
  length, ltb, arith, if_lem, subst, All, zero, suc,
}
use mathlib.Core.List.{append-nil, append_assoc}
use slip_stream_plus.Tunnel.Protocol.{Bytes}
use slip_stream_plus.Central.State.{write_ch_cap}

-- In its loop, writing what is left after the cancellation, emptying the queue after a failure, or returned.
pub data Phase : Type 0 where
  serving flushing discarding returned : Phase

-- `written` is what the upstream took whole, in order, and `accepted` what the queue had room for.
pub record Writer : Type 0 where
  pub phase : Phase
  pub write_ch : List Bytes
  pub written : List Bytes
  pub accepted : List Bytes

unfoldable pub new_writer : Writer
new_writer = record { phase = serving; write_ch = []; written = []; accepted = [] }

pub data WriterEvent : Type 0 where
  -- `case writeCh <- data: default:` of a handler
  send : Bytes → WriterEvent
  -- the queue's case of a select, or its default; whether the upstream takes what is written
  take : Bool → WriterEvent
  -- `<-ctx.Done()`
  cancelled : WriterEvent

-- `case data := <-writeCh`, if the queue is empty: the loop's select waits, and the other two return.
unfoldable pub take_nothing : Phase → Phase
take_nothing serving = serving
take_nothing flushing = returned
take_nothing discarding = returned
take_nothing returned = returned

-- The same with a slice in the queue.
unfoldable pub take_slice : Phase → Bool → Bytes → List Bytes → Writer → Writer
take_slice serving true chunk rest w = record w {
  write_ch = rest;
  written = w.written ++ (chunk ∷ []);
}
take_slice serving false chunk rest w = record w { phase = discarding; write_ch = rest }
take_slice flushing true chunk rest w = record w {
  write_ch = rest;
  written = w.written ++ (chunk ∷ []);
}
take_slice flushing false chunk rest w = record w { write_ch = rest }
take_slice discarding ok chunk rest w = record w { write_ch = rest }
take_slice returned ok chunk rest w = w

unfoldable pub take_from : List Bytes → Bool → Writer → Writer
unfolding take_nothing take_slice
take_from [] ok w = record w { phase = take_nothing w.phase }
take_from (chunk ∷ rest) ok w = take_slice w.phase ok chunk rest w

-- The context's case: only the loop's select has one.
unfoldable pub cancel_at : Phase → Phase
cancel_at serving = flushing
cancel_at flushing = flushing
cancel_at discarding = discarding
cancel_at returned = returned

unfoldable pub offer : Bytes → Writer → Writer
offer chunk w =
    if ltb (length w.write_ch) write_ch_cap
    then record w { write_ch = w.write_ch ++ (chunk ∷ []); accepted = w.accepted ++ (chunk ∷ []) }
    else w

unfoldable pub write_step : WriterEvent → Writer → Writer
unfolding offer take_from cancel_at
write_step (send chunk) w = offer chunk w
write_step (take ok) w = take_from w.write_ch ok w
write_step cancelled w = record w { phase = cancel_at w.phase }

-- `upstreamWriter` beside the handlers that send into its queue.
unfoldable pub upstream_writer : List WriterEvent → Writer → Writer
unfolding write_step
upstream_writer [] w = w
upstream_writer (e ∷ rest) w = upstream_writer rest (write_step e w)
