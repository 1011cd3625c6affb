-- ===== src/LogEngine/Logging.antt =====
-- Where the log engine writes (logengine.cpp: its operations).
use nymea_remoteproxy.Base.{
  ℕ, Bool, true, false, List, [], ◌∷◌, String, str_append, suc, ◌==◌, ◌≡◌, ◌≢◌, refl, arith, All,
  ◌∙◌, ap, inl, inr, Bool-cases,
}
use nymea_remoteproxy.LogEngine.{
  Now, FileCall, writes, renames, LogEngine, tunnels_file_name, statistics_file_name,
  new_log_engine, open_file, close_files, rename_file, rotate_logs, enable, disable, log_statistics,
}

-- Lines that are logged one after the other.
abbrev log_all : (ℕ → Bool) → (ℕ → Bool) → List (Now × String) → LogEngine → LogEngine
log_all opens renamed [] e = e
log_all opens renamed ((now, line) ∷ calls) e =
    log_all opens renamed calls (log_statistics opens renamed now line e)

module _ (opens renamed : ℕ → Bool) where
  -- A call of one of the engine's operations.
  pub data Call : Type 0 where
    enables disables : Call
    logs : Now → String → Call

  unfoldable pub perform : Call → LogEngine → LogEngine
  perform enables e = enable opens renamed e
  perform disables e = disable opens renamed e
  perform (logs now line) e = log_statistics opens renamed now line e

  unfoldable pub perform_all : List Call → LogEngine → LogEngine
  perform_all [] e = e
  perform_all (call ∷ calls) e = perform_all calls (perform call e)

  abbrev InLog : FileCall → Type 0
  InLog (writes file line) = file ≡ str_append statistics_file_name ".log"
  InLog (renames before after) = Unit

  -- An open file has the name of the log, and all lines went there.
  abbrev IsLogging : LogEngine → Type 0
  IsLogging e =
      (e.statistics_file.is_open ≡ true
        → e.statistics_file.file_name ≡ str_append statistics_file_name ".log")
      × (e.tunnels_file.is_open ≡ true
          → e.tunnels_file.file_name ≡ str_append tunnels_file_name ".log")
      × All InLog e.file_calls

  perform-IsLogging : (call : Call) (e : LogEngine) → IsLogging e → IsLogging (perform call e)
  unfolding perform enable disable log_statistics rotate_logs close_files open_file rename_file
  perform-IsLogging enables e h = (λ o. refl, λ o. refl, h.2)
  perform-IsLogging disables e h =
      (λ o. absurd (ground (arith, o)), λ o. absurd (ground (arith, o)), h.2)
  perform-IsLogging (logs now line) e h = elim (Bool-cases e.statistics_file.is_open) [
    | inr closed ↦ rw closed (λ o. absurd (ground (arith, o)), h.1, h.2)
    | inl opened ↦ elim (Bool-cases (e.current_day == now.day)) [
      | inl same ↦ rw (opened, same) (λ o. h.0 opened, h.1, (h.0 opened, h.2))
      | inr other ↦ rw (opened, other) (λ o. refl, λ o. refl, (tt, (tt, (h.0 opened, h.2))))
    ]
  ]

  ended :
      (calls : List (Now × String)) (e : LogEngine)
      → e.statistics_file.is_open ≡ false
      → log_all opens renamed calls e ≡ e
  unfolding log_statistics
  ended [] e closed = refl
  ended ((now, line) ∷ calls) e closed =
      ap (log_all opens renamed calls) (rw (log_statistics, closed)) ∙ ended calls e closed

  -- When the log of the statistics does not open again as the logs are rotated, the engine logs the
  -- line of this call, and nothing of what it is given after it.
  pub logging_ends :
      (now : Now) (line : String) (calls : List (Now × String)) (e : LogEngine)
      → e.statistics_file.is_open ≡ true
      → e.current_day ≢ now.day
      → opens (suc (suc e.past_calls)) ≡ false
      → let e' = log_statistics opens renamed now line e in log_all opens renamed calls e' ≡ e'
  unfolding log_statistics rotate_logs open_file close_files
  logging_ends now line calls e opened other fails =
      ended calls _ (ground (arith, opened, other, fails))

  all_in_place : (calls : List Call) (e : LogEngine) → IsLogging e → IsLogging (perform_all calls e)
  unfolding perform_all
  all_in_place [] e h = h
  all_in_place (call ∷ calls) e h = all_in_place calls (perform call e) (perform-IsLogging call e h)

  -- Whatever is called after the engine was made, a file that is open has the name of its log, not
  -- one that it was renamed to, and every line was written to the log of the statistics.
  pub logged_in_place :
      (calls : List Call) (now : Now) → IsLogging (perform_all calls (new_log_engine now))
  logged_in_place calls now =
      all_in_place calls (new_log_engine now)
        (λ o. absurd (ground (arith, o)), λ o. absurd (ground (arith, o)), tt)
