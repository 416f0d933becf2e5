-- ===== src/File/Poll/Listings.antt =====
-- The watch on the children of a directory of local_file.hpp on a calm disk, as the shape of `Watch`.
use config_monitor.Base.{◌≡◌, refl, List, [], ◌∷◌, arith, Text, text_eq, returns, ◌>>=◌}
use config_monitor.Base.Dict.{Dict}
use config_monitor.File.Types.{ok, child_event}
use config_monitor.File.Disk.{Disk, IsCalm}
use config_monitor.File.State.{LocFile, Callback, Call, children, updata_path_children}
use config_monitor.File.Poll.{same_texts, handle_monitor_sub}
use config_monitor.File.Poll.Watch.{tell, updated, Told}

abbrev pub listed_now : List Text → List Text → Callback → Call
listed_now last now cb = children cb ok child_event now

module _ (d : Disk) (fs : d.Fs) (c : IsCalm d fs) where
  abbrev pub listings_after : Dict Text (List Text) → Dict Text (List Text) → Dict Text (List Text)
  listings_after l seen = updated same_texts listed_now c.listing l seen

  abbrev pub ToldOf : Dict Text (List Text) → Dict Text Callback → Type 0
  ToldOf l monitor = Told same_texts listed_now c.listing l monitor

  handle_monitor_sub-tell :
      (l : Dict Text (List Text)) (monitor : Dict Text Callback) (s : LocFile)
      → handle_monitor_sub d fs l monitor s ≡ (
          tell same_texts listed_now c.listing l monitor >>= λ notices.
          returns
            (record s { last_path_children = listings_after l s.last_path_children }, notices))
  unfolding handle_monitor_sub tell updated updata_path_children
  handle_monitor_sub-tell [] monitor s = refl
  handle_monitor_sub-tell ((path, last) ∷ l) monitor s = ground (
    arith,
    c.listing_now path,
    handle_monitor_sub-tell l monitor s,
    handle_monitor_sub-tell l monitor (updata_path_children path (c.listing path) s),
  )

  pub sub_polled :
      (l : Dict Text (List Text)) (monitor : Dict Text Callback) (s : LocFile)
      (r : ToldOf l monitor)
      → handle_monitor_sub d fs l monitor s
        ≡ returns
            (record s { last_path_children = listings_after l s.last_path_children }, r.notices)
  sub_polled l monitor s r = rw (handle_monitor_sub-tell l monitor s, r.ran) refl
