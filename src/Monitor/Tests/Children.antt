-- ===== src/Monitor/Tests/Children.antt =====
-- A child that comes, changes and goes while it is watched.
use config_monitor.Base.{none, some, List, [], ◌∷◌, Text, text}
use config_monitor.Monitor.Listings
use config_monitor.Monitor.Child.{Child, Turn, becomes, reads}
use config_monitor.Monitor.Child.Word.{Word}

abbrev parent : Text
parent = text "/d"

abbrev child : Text
child = text "/d/e"

-- Read, changed, and deleted before it is read again.
abbrev history : List Turn
history = reads ∷ becomes (some (some (text "v"))) ∷ becomes none ∷ []

-- A child comes before the first listing, and the other goes after it.
abbrev arrivals : List Listings.Turn
arrivals =
    Listings.becomes (text "e" ∷ text "f" ∷ [])
    ∷ Listings.answers
    ∷ Listings.becomes (text "f" ∷ [])
    ∷ []
