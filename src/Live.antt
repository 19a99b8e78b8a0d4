-- ===== src/Live.antt =====
-- crates/blackbox-ws/src/client.rs and crates/blackbox-server/src/main.rs: the client and the loop over
-- the events, joined by a channel as the live mode of `run_tui_mode` joins them.
pub mod Tape
pub mod Replayed
pub mod Texts
pub mod Books
pub mod Rerun
pub mod Reproduced
pub mod Client
use k_blackbox.Base.{ℕ, suc, List, [], ◌∷◌, ◌++◌, Bool, String}
use k_blackbox.Decimal.{Decimal}
use k_blackbox.Words.{Time, Float}
use k_blackbox.Checksum.{Hasher}
use k_blackbox.Export.{Encoder}
use k_blackbox.Client.Connection.{
  Wire, WsEvent, disconnected, Output, event, subscribe_to, send_ping, Turn, WsClient, Flow, go,
  ended, failed, connect_and_run,
}
use k_blackbox.Processor.Defs.{Clock}
use k_blackbox.Processor.Run.{RunState, Outcome}
use k_blackbox.Processor.Run
use k_blackbox.Processor.Capture.{Tools, LogClock, LoggedState}
use k_blackbox.Processor.Logged.{process_ws_events}

-- One turn of the client's `run`: whether the server is reached and takes the first subscription, and
-- what arrives then.
pub record Attempt : Type 0 where
  pub reached : Bool
  pub accepted : Bool
  pub now : Time
  pub turns : List Turn

module _ {D N : Type 0} where
  -- What is sent on the channel.
  abbrev pub events : List (Output D N) → List (WsEvent D)
  events [] = []
  events (event e ∷ os) = e ∷ events os
  events (subscribe_to v ∷ os) = events os
  events (send_ping v ∷ os) = events os

module _ {D : Type 0} where
  -- A connection that ended or failed is announced, and the next one is made.
  abbrev pub after_attempt : Flow D → List (WsEvent D) → List (WsEvent D)
  after_attempt (go c) later = []
  after_attempt ended later = disconnected ∷ later
  after_attempt failed later = disconnected ∷ later

module _ {D F N : Type 0} (w : Wire D F N) (client : WsClient) where
  -- The events that the client's `run` sends. Its sleeps are in `Client.Backoff`.
  unfoldable pub run : List Attempt → List (WsEvent D)
  unfolding connect_and_run
  run [] = []
  run (a ∷ later) =
      let (os, flow) = connect_and_run w client a.reached a.accepted a.now a.turns in
      events os ++ after_attempt flow (run later)

-- The channel hands the events on in their order; the `n`th is handled at `clock n`.
unfoldable pub stamped : {C D : Type 0} → (ℕ → C) → ℕ → List (WsEvent D) → List (C × WsEvent D)
stamped clock n [] = []
stamped clock n (e ∷ es) = (clock n, e) ∷ stamped clock (suc n) es

module _ {D F N : Type 0} ⦃d : Decimal D⦄ (tools : Tools D F N) (w : Wire D F N)
    (client : WsClient) where
  unfoldable pub live_session :
      (ℕ → LogClock) → List Attempt → LoggedState D F N → LoggedState D F N
  unfolding run stamped process_ws_events
  live_session clock attempts l =
      process_ws_events tools (stamped clock 0 (run w client attempts)) l

-- The same client, joined with the loop of `run`.
module _ {D F N : Type 0} ⦃d : Decimal D⦄ (f : Float F) (h : Hasher) (enc : Encoder F N)
    (format_id : ℕ → String → String) (w : Wire D F N) (client : WsClient) where
  unfoldable pub run_session :
      (ℕ → Clock) → List Attempt → RunState D F N → Outcome (RunState D F N)
  unfolding run stamped Run.process_ws_events
  run_session clock attempts r =
      Run.process_ws_events f h enc format_id (stamped clock 0 (run w client attempts)) r
