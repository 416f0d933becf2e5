-- ===== src/Monitor/Listings/Follows.antt =====
-- Which children have been asked for, whatever changes.
use config_monitor.Base.{ℕ, ◌≡◌, Bool, true, ◌||◌, some, List, Text, text_eq, nat_eq, contains}
use config_monitor.Monitor.{Callback, ConfigMonitor, ZkOutput}
use config_monitor.Monitor.Listings.{Turn, turns}
use config_monitor.Monitor.Listings.Steps.{last_names, ever_listed, state, Follows}

module _ (prefix : Text) (id : ℕ) (cb : Callback) where
  record Ran (ts : List Turn) (names : List Text) (m : ConfigMonitor) (asking : Bool)
      (sent : List ZkOutput) (asked : List Text) : Type 0 where
    monitor' : ConfigMonitor
    asking' : Bool
    sent' : List ZkOutput
    asked' : List Text
    ran :
        turns prefix id ts (state prefix id cb names m asking sent)
        ≡ some (state prefix id cb (last_names ts names) monitor' asking' sent')
    follows : Follows prefix id cb (last_names ts names) monitor' asking' sent' asked'
    real :
        (n : Text) → contains asked' n ≡ true → (contains asked n || ever_listed ts names n) ≡ true
