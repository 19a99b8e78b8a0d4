-- ===== src/Tasks/Reachable.antt =====
-- crates/blackbox-server/src: the shared state that the tasks reach, in whatever order they run.
use k_blackbox.Base.{subst, true}
use k_blackbox.Decimal.{Decimal}
use k_blackbox.State.{record_stopped}
use k_blackbox.Processor.Capture.{LoggedState}
use k_blackbox.Tasks.Sound.{IsSound, push_event-IsSound}
use k_blackbox.Tasks.Events.{process_event-IsSound}
use k_blackbox.Tasks.Terminal.{FlowIsSound, on_press-IsSound, replay_incident_frames-IsSound}
use k_blackbox.Tasks.Recordings.{begin-IsSound, frame_events-IsSound}
use k_blackbox.Tasks.Starts.{prepare_tui-IsSound, mock_begin-IsSound, tick-IsSound}
use k_blackbox.Tasks.Steps.{
  Env, Step, event, press, replayed, opened, played, stopped, mocked, ticked, Options, Reach,
  starts, later,
}

module _ {D F N : Type 0} ⦃d : Decimal D⦄ (env : Env D F N) where
  Step-IsSound : {l l' : LoggedState D F N} → Step env l l' → IsSound l.state → IsSound l'.state
  Step-IsSound {l} (event clock e) v = process_event-IsSound env.tools clock e l v
  Step-IsSound {l} (press key symbols t app e) v = subst FlowIsSound e (
      on_press-IsSound env.tools.float env.encoder env.paths true key symbols t
        (record { app = app; state = l.state }) v)
  Step-IsSound {l} (replayed now content) v = replay_incident_frames-IsSound now content l.state v
  Step-IsSound {l} (opened requested started joined input) v =
      begin-IsSound env.tools.float env.wire requested started joined input l.state v
  Step-IsSound {l} (played requested text) v =
      frame_events-IsSound env.tools.float env.wire requested text l.state v
  Step-IsSound {l} (stopped now) v = push_event-IsSound now record_stopped l.state v
  Step-IsSound {l} (mocked now symbols) v =
      mock_begin-IsSound env.products env.tools.float now symbols l.state v
  Step-IsSound {l} (ticked counter clock symbols) v =
      tick-IsSound env.products env.tools.float env.ten counter clock symbols l.state v

  -- In every state that the tasks of the terminal mode reach, in whatever order they run: the log has at
  -- most 500 events, at most 1000 frames are kept and 2000 for each symbol, each proof of integrity has at
  -- most 1000 latencies, every book has both sides in order and no quantity zero, and the flag, the
  -- recorder and the path of the recording agree.
  pub Reach-IsSound : (o : Options) {l : LoggedState D F N} → Reach env o l → IsSound l.state
  Reach-IsSound o (starts manager) =
      prepare_tui-IsSound D env.tools.float o.now o.logged o.depth o.symbols o.created o.path
  Reach-IsSound o (later r st) = Step-IsSound st (Reach-IsSound o r)
