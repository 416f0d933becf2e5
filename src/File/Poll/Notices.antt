-- ===== src/File/Poll/Notices.antt =====
-- The calls that a poll makes, path by path.
use config_monitor.Base.{◌≡◌, refl, List, [], ◌∷◌, ◌++◌, arith, Text, text_eq, ◌==◌, if◌then◌else◌}
use config_monitor.File.State.{Call}
use config_monitor.File.Poll.{Notice}

-- The calls about one path, in their order.
unfoldable pub calls_for : Text → List Notice → List Call
calls_for p [] = []
calls_for p ((q, call) ∷ rest) = if p == q then call ∷ calls_for p rest else calls_for p rest

pub calls_for-append :
    (p : Text) (xs ys : List Notice) → calls_for p (xs ++ ys) ≡ calls_for p xs ++ calls_for p ys
unfolding calls_for
calls_for-append p [] ys = refl
calls_for-append p ((q, call) ∷ xs) ys = ground (arith, calls_for-append p xs ys)
