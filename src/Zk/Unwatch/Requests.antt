-- ===== src/Zk/Unwatch/Requests.antt =====
-- `async_remove_watches` of cppzk.hpp when the client may refuse a request at once: the code that
-- it returns then is dropped, and nothing follows.
use config_monitor.Base.{
  ℕ, ◌≡◌, ◌≢◌, ap, ◌∙◌, false, Option, none, some, List, [], ◌∷◌, ◌++◌, map, arith, Text, eqb,
  if◌then◌else◌,
}
use config_monitor.Zk.Types.{Rc, zok, failed, ErrorCode, make_ec}
use config_monitor.Zk.Client.{or_nil}
use config_monitor.Zk.Delete.{child_path, Answer, answered, unanswered}
use config_monitor.Zk.Unwatch.{
  Log, data_watch, any_watch, type_of, unwatch_chain, data_calls, async_remove_watches,
  async_remove_watches-calls,
}

module _ (submit reply : Log → Rc) where
  -- One request for the front of the list, and what its completion does.
  unfoldable pub request_chain : Log → List Text → Log × Answer
  unfolding make_ec
  request_chain log [] = (log, unanswered)
  request_chain log (p ∷ []) =
      let log' = log ++ ((p, type_of (p ∷ [])) ∷ []) in
      if failed (submit log') then (log', unanswered) else (log', answered (make_ec (reply log')))
  request_chain log (p ∷ q ∷ rest) =
      let log' = log ++ ((p, type_of (p ∷ q ∷ rest)) ∷ []) in
      let more = request_chain log' (q ∷ rest) in
      if failed (submit log') then (log', unanswered) else more

  -- The listing is none when its request is refused.
  unfoldable pub request_unwatch : Option (Rc × Option (List Text)) → Text → ℕ → Log × Answer
  unfolding request_chain make_ec
  request_unwatch listing path watch_type =
      let log : Log = (path, data_watch) ∷ [] in
      if eqb watch_type 0
      then if failed (submit log) then (log, unanswered) else (log, answered (make_ec (reply log)))
      else elim listing [
        | none ↦ ([], unanswered)
        | some (rc, strings) ↦
            let chain = request_chain [] (map (child_path path) (or_nil strings) ++ (path ∷ [])) in
            if failed rc then ([], answered (make_ec rc)) else chain
      ]

  request_chain-unwatch_chain :
      ((log : Log) → failed (submit log) ≡ false)
      → (p : Text) (rest : List Text) (log : Log)
      → request_chain log (p ∷ rest)
        ≡ (let r = unwatch_chain reply log (p ∷ rest) in (r.0, answered r.1))
  unfolding request_chain unwatch_chain
  request_chain-unwatch_chain accepts p [] log =
      ground (arith, accepts (log ++ ((p, type_of (p ∷ [])) ∷ [])))
  request_chain-unwatch_chain accepts p (q ∷ rest) log =
      let log' = log ++ ((p, type_of (p ∷ q ∷ rest)) ∷ []) in
      ground (arith, accepts log', request_chain-unwatch_chain accepts q rest log')

  snoc_chain :
      ((log : Log) → failed (submit log) ≡ false)
      → (subs : List Text) (p : Text)
      → request_chain [] (subs ++ (p ∷ []))
        ≡ (let r = unwatch_chain reply [] (subs ++ (p ∷ [])) in (r.0, answered r.1))
  snoc_chain accepts [] p = request_chain-unwatch_chain accepts p [] []
  snoc_chain accepts (q ∷ subs) p = request_chain-unwatch_chain accepts q (subs ++ (p ∷ [])) []

  pub request_unwatch-async_remove_watches :
      (rc : Rc) (strings : Option (List Text)) (path : Text) (watch_type : ℕ)
      → ((log : Log) → failed (submit log) ≡ false)
      → request_unwatch (some (rc, strings)) path watch_type
        ≡ (let r = async_remove_watches reply rc strings path watch_type in (r.0, answered r.1))
  unfolding request_unwatch async_remove_watches
  request_unwatch-async_remove_watches rc strings path watch_type accepts = ground (
    arith,
    accepts ((path, data_watch) ∷ []),
    snoc_chain accepts (map (child_path path) (or_nil strings)) path,
  )

  -- When the client accepts every request: the removal of the watch of a path asks for its data
  -- watches alone, and the callback has the code of that request. The removal of the watch of
  -- sub-paths, when the listing completes with `ZOK`, asks for the data watches of each child,
  -- by its full path and in the order of the listing, and then for all watches of the path
  -- itself, whatever the codes are; the callback has the code of the last.
  pub request_unwatch-calls :
      (listing : Option (Rc × Option (List Text))) (strings : Option (List Text)) (path : Text)
      (watch_type : ℕ)
      → ((log : Log) → failed (submit log) ≡ false)
      → watch_type ≢ 0
      → let one : Log = (path, data_watch) ∷ [] in
        let all : Log =
          map (λ n. (child_path path n, data_watch)) (or_nil strings) ++ ((path, any_watch) ∷ []) in
        (request_unwatch listing path 0 ≡ (one, answered (make_ec (reply one))))
        × (request_unwatch (some (zok, strings)) path watch_type
            ≡ (all, answered (make_ec (reply all))))
  unfolding request_unwatch data_calls
  request_unwatch-calls listing strings path watch_type accepts sub = (
    ground (arith, accepts ((path, data_watch) ∷ [])),
    request_unwatch-async_remove_watches zok strings path watch_type accepts
        ∙ ap (λ (r : Log × ErrorCode). (r.0, answered r.1))
            (async_remove_watches-calls reply strings path watch_type sub),
  )
