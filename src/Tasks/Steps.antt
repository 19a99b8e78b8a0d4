-- ===== src/Tasks/Steps.antt =====
-- crates/blackbox-server/src: the steps that the tasks of the terminal mode take on the state that they
-- share: the loop over the events, the keys, a recording that is played, an incident that is replayed,
-- and the made-up data. A handler is taken as one step, and the steps come in any order.
use k_blackbox.Base.{ℕ, ◌≡◌, List, Bool, true, Option, none, String}
use k_blackbox.Decimal.{Decimal}
use k_blackbox.Words.{Time}
use k_blackbox.Export.{Encoder}
use k_blackbox.State.{AppState, push_event, record_stopped}
use k_blackbox.Client.Connection.{Wire, WsEvent}
use k_blackbox.Incident.{IncidentManager}
use k_blackbox.Processor.Capture.{Tools, LogClock, LoggedState}
use k_blackbox.Processor.Logged.{process_event}
use k_blackbox.Playback
use k_blackbox.Playback.{frame_events}
use k_blackbox.Tui.Keys.{KeyCode}
use k_blackbox.Tui.App.{TuiApp}
use k_blackbox.Tui.Export.{Paths, replay_incident_frames}
use k_blackbox.Tui.Console.{Console, Turn, on, on_press}
use k_blackbox.Setup.{prepare_tui}
use k_blackbox.Mock
use k_blackbox.Mock.{Products, Reading, tick}

-- What the tasks take from their dependencies. `ten` is 10.0.
pub record Env (D F N : Type 0) : Type 1 where
  pub tools : Tools D F N
  pub wire : Wire D F N
  pub encoder : Encoder F N
  pub paths : Paths
  pub products : Products D
  pub ten : F

module _ {D F N : Type 0} where
  abbrev pub with_state : LoggedState D F N → AppState D F → LoggedState D F N
  with_state l s = record l { state = s }

pub data Step {D F N : Type 0} ⦃d : Decimal D⦄ (env : Env D F N) (l : LoggedState D F N)
    : LoggedState D F N → Type 0 where
  -- An event of the connection or of a recording.
  event : (clock : LogClock) (e : WsEvent D) → Step env l (process_event env.tools clock e l)
  -- A key, after which the terminal goes on.
  press :
      (key : Option KeyCode) (symbols : List String) (t : Turn D F) (app : TuiApp) {c : Console D F}
      → on_press env.tools.float env.encoder env.paths true key symbols t
          (record { app = app; state = l.state })
        ≡ on c
      → Step env l (with_state l c.state)
  -- The task of an incident that is replayed.
  replayed :
      (now : Time) (content : Option (List String))
      → Step env l (with_state l (replay_incident_frames now content l.state))
  -- A recording is opened, a frame of it played, and it ends.
  opened :
      (requested : List String) (started joined : Time) (input : String)
      → Step env l (
          with_state l
            (Playback.begin env.tools.float env.wire requested started joined input l.state))
  played :
      (requested : List String) (text : String)
      → Step env l (with_state l (frame_events env.tools.float env.wire requested text l.state).1)
  stopped : (now : Time) → Step env l (with_state l (push_event now record_stopped l.state))
  -- The made-up data.
  mocked :
      (now : Time) (symbols : List String)
      → Step env l (with_state l (Mock.begin env.products env.tools.float now symbols l.state))
  ticked :
      (counter : ℕ) (clock : String → Reading) (symbols : List String)
      → Step env l
          (with_state l (tick env.products env.tools.float env.ten counter clock symbols l.state))

-- The options that the shared state is made from.
pub record Options : Type 0 where
  pub now : Time
  pub logged : Time
  pub depth : ℕ
  pub symbols : List String
  pub created : Bool
  pub path : Option String

-- The start, where the loop has no recorder of its own.
abbrev pub initial : {D F N : Type 0} → Env D F N → Options → IncidentManager N → LoggedState D F N
initial env o manager = record {
  state = prepare_tui env.tools.float o.now o.logged o.depth o.symbols o.created o.path;
  manager = manager;
  recorder = none;
}

pub data Reach {D F N : Type 0} ⦃d : Decimal D⦄ (env : Env D F N) (o : Options)
    : LoggedState D F N → Type 0 where
  starts : (manager : IncidentManager N) → Reach env o (initial env o manager)
  later : {l l' : LoggedState D F N} → Reach env o l → Step env l l' → Reach env o l'
