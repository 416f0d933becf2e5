-- ===== src/Monitor/Tests/Followed.antt =====
-- A node that comes, changes and goes while it is watched.
use config_monitor.Base.{◌≡◌, refl, none, some, List, [], ◌∷◌, text}
use config_monitor.Zk.Types.{is_delete_event, is_dummy_event}
use config_monitor.Monitor.{watch_path}
use config_monitor.Monitor.Follows.{Followed, Turn, becomes, answers, reads, turns, settle}
use config_monitor.Monitor.Follows.Watched.{first_asked, after}
use config_monitor.Monitor.Follows.Invariant.{Says}
use config_monitor.Monitor.Follows.Current.{started, watch_path_follows}
use config_monitor.Monitor.Follows.Missed.{Leaves, watch_path_misses}
use config_monitor.Monitor.Tests.{monitoring}

-- Set before the first read and after it is sent, and deleted once the answer is there.
abbrev history : List Turn
history =
    becomes (some (some (text "v1")))
    ∷ answers
    ∷ becomes (some (some (text "v2")))
    ∷ answers
    ∷ reads
    ∷ becomes none
    ∷ []

watch_path_follows_example :
    (f f' : Followed) × (turns
        (text "/c")
        2
        history
        (started none (watch_path (text "/c") 3 monitoring).state)
      ≡ some f)
    × (settle (text "/c") 2 f ≡ some f')
    × (f'.node ≡ (after history (first_asked none)).node)
    × Says (text "/c") 2 3 f'.node f'.told
unfolding is_delete_event is_dummy_event
watch_path_follows_example =
    watch_path_follows monitoring (text "/c") 3 none history
      (tt, (λ out. refl, (tt, (λ out. refl, (tt, (tt, λ out. refl))))))

abbrev early : List Turn
early = becomes (some (some (text "v1"))) ∷ answers ∷ []

watch_path_misses_example :
    (f f' : Followed) × (turns
        (text "/c")
        2
        early
        (started none (watch_path (text "/c") 3 monitoring).state)
      ≡ some f)
    × (settle (text "/c") 2 f ≡ some f')
    × Says (text "/c") 2 3 (some (some (text "v1"))) f'.told
    × Leaves (text "/c") 2 3 (some none) none f'
    × Leaves (text "/c") 2 3 none (some none) f'
unfolding is_delete_event
watch_path_misses_example =
    watch_path_misses monitoring (text "/c") 3 none early (some (text "v1")) none
      (tt, (λ out. refl, λ out. refl)) refl
