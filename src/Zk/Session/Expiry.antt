-- ===== src/Zk/Session/Expiry.antt =====
-- The thread of cppzk.hpp that looks for an expired session: its rounds, with what happens in each.
use config_monitor.Base.{
  ◌≡◌, refl, Bool, true, false, not, ◌&&◌, ◌||◌, List, [], ◌∷◌, ◌++◌, arith, if◌then◌else◌,
}
use config_monitor.Zk.Session.{
  Happening, watched, destroyed, connected_state, expired_session_state, other_state, Session,
  happen_all, detect,
}
use config_monitor.Zk.Session.Waiting.{last_verdict, happen_all-is_conntected}

-- Whether a notice of expiry came.
abbrev pub expired_in : List Happening → Bool
expired_in [] = false
expired_in (watched true expired_session_state ∷ hs) = true
expired_in (_ ∷ hs) = expired_in hs

last_verdict-append :
    (xs ys : List Happening) (b : Bool)
    → last_verdict (xs ++ ys) b ≡ last_verdict ys (last_verdict xs b)
last_verdict-append [] ys b = refl
last_verdict-append (x ∷ xs) ys b = last_verdict-append xs ys _

module _ {H : Type 0} where
  -- What the flags of a session are worth together: only a session that was connected is read.
  abbrev pub IsDetecting : Session H → Type 0
  IsDetecting s = (not s.need_detect || s.is_conntected) ≡ true

  happen_all-IsDetecting :
      (hs : List Happening) (s : Session H) → IsDetecting s → IsDetecting (happen_all hs s)
  unfolding happen_all
  happen_all-IsDetecting [] s d = d
  happen_all-IsDetecting (watched true connected_state ∷ hs) s d =
      happen_all-IsDetecting hs _ (ground arith)
  happen_all-IsDetecting (watched true expired_session_state ∷ hs) s d =
      happen_all-IsDetecting hs _ refl
  happen_all-IsDetecting (watched true (other_state n) ∷ hs) s d = happen_all-IsDetecting hs _ d
  happen_all-IsDetecting (watched false connected_state ∷ hs) s d = happen_all-IsDetecting hs _ d
  happen_all-IsDetecting (watched false expired_session_state ∷ hs) s d =
      happen_all-IsDetecting hs _ d
  happen_all-IsDetecting (watched false (other_state n) ∷ hs) s d = happen_all-IsDetecting hs _ d
  happen_all-IsDetecting (destroyed ∷ hs) s d = happen_all-IsDetecting hs _ d

  happen_all-need_detect :
      (hs : List Happening) (s : Session H)
      → (happen_all hs s).need_detect ≡ (s.need_detect && not (expired_in hs))
  unfolding happen_all
  happen_all-need_detect [] s = ground arith
  happen_all-need_detect (watched true connected_state ∷ hs) s = happen_all-need_detect hs _
  happen_all-need_detect (watched true expired_session_state ∷ hs) s =
      ground
        (arith, happen_all-need_detect hs (record s { need_detect = false; is_conntected = false }))
  happen_all-need_detect (watched true (other_state n) ∷ hs) s = happen_all-need_detect hs _
  happen_all-need_detect (watched false connected_state ∷ hs) s = happen_all-need_detect hs _
  happen_all-need_detect (watched false expired_session_state ∷ hs) s = happen_all-need_detect hs _
  happen_all-need_detect (watched false (other_state n) ∷ hs) s = happen_all-need_detect hs _
  happen_all-need_detect (destroyed ∷ hs) s = happen_all-need_detect hs _

  pub detect_lost :
      (asleep reading : List Happening) (s : Session H)
      → (detect asleep reading s).1 ≡ true
      → (detect asleep reading s).0.is_conntected ≡ false
  unfolding detect
  detect_lost asleep reading s e = ground arith

  -- A round of the thread keeps it true that a session to be detected is connected, and calls
  -- `expired_cb_` exactly when the last word on the connection is that it has expired, from the
  -- flag before the round through the sleep and through the read where one is made. The read is
  -- made exactly when the session is to be detected and no notice of expiry came in the sleep.
  pub detect_lem :
      (asleep reading : List Happening) (s : Session H)
      → IsDetecting s
      → let r = detect asleep reading s in
        let seen = if s.need_detect && not (expired_in asleep) then asleep ++ reading else asleep in
        IsDetecting r.0 × (r.1 ≡ not (last_verdict seen s.is_conntected))
  unfolding detect
  detect_lem asleep reading s d =
      let s' = happen_all asleep s in
      ground (
        arith,
        happen_all-IsDetecting asleep s d,
        happen_all-IsDetecting reading s' (happen_all-IsDetecting asleep s d),
        happen_all-need_detect asleep s,
        happen_all-is_conntected asleep s,
        happen_all-is_conntected reading s',
        last_verdict-append asleep reading s.is_conntected,
      )
