-- ===== src/Compactor/Restart/Windowed.antt =====
-- Where a window is kept, a restart has the window that the live session has.
use hugen.Prelude.{ℕ, suc, ◌≡◌, none, List, [], ◌∷◌}
use hugen.Prelude.Text.{Text}
use hugen.Compactor.{HistoryEntry, prune_window}
use hugen.Compactor.Frames.{Frame, user_message}
use hugen.Compactor.Live
use hugen.Compactor.Recovery.{latest_from}
use hugen.Compactor.Emission.{window, Env, Session, emit}
use hugen.Compactor.Restart.Log.{entries}

-- The frames, the newest first.
unfoldable pub emitted : Env → List Frame → Session → Session
unfolding emit
emitted env [] s = s
emitted env (f ∷ older) s = (emit env f (emitted env older s)).1

module _ (env : Env) (st : env.strategy ≡ window) (l : ℕ)
    (size : env.window_size ≡ suc (suc l)) where
  -- The brief, then the rest of the log's entries, of which the session has the window.
  record IsWindow (u : HistoryEntry) (s : Session) : Type 0 where
    rest : List HistoryEntry
    all_entries : entries env.renderer 0 s.log ≡ u ∷ rest
    history : s.state.history ≡ prune_window (suc (suc l)) (u ∷ rest)
    no_digest : latest_from none s.log ≡ none

  abbrev brief_frame : Frame → Text → Frame
  brief_frame f text = record f { payload = user_message text }
