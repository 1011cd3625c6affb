-- ===== src/LogEngine.antt =====
-- libnymea-remoteproxy/logengine.h and logengine.cpp: the files of the log engine. The files are
-- Qt's and the system's: whether a file opens or is renamed is answered by the number of the
-- call.
pub mod Logging
use nymea_remoteproxy.Base.{
  ℕ, Bool, true, false, not, List, [], ◌∷◌, String, str_append, if◌then◌else◌, suc, ◌==◌,
}

-- A QFile: the file that it stands for, and whether it is open.
pub record File : Type 0 where
  pub file_name : String
  pub is_open : Bool

-- QDateTime::currentDateTimeUtc(): the day of the month, and its texts.
pub record Now : Type 0 where
  pub day : ℕ
  pub timestamp : String
  pub postfix : String

-- What becomes of the files, the latest first.
pub data FileCall : Type 0 where
  writes renames : String → String → FileCall

pub record LogEngine : Type 0 where
  pub tunnels_file : File
  pub statistics_file : File
  pub enabled : Bool
  pub current_day : ℕ
  pub past_calls : ℕ
  pub file_calls : List FileCall

abbrev pub tunnels_file_name : String
tunnels_file_name = "/var/log/nymea-remoteproxy-tunnels"

abbrev pub statistics_file_name : String
statistics_file_name = "/var/log/nymea-remoteproxy-statistics"

abbrev pub closed_file : File
closed_file = record { file_name = ""; is_open = false }

abbrev pub new_log_engine : Now → LogEngine
new_log_engine now = record {
  tunnels_file = closed_file;
  statistics_file = closed_file;
  enabled = false;
  current_day = now.day;
  past_calls = 0;
  file_calls = [];
}

module _ (opens renamed : ℕ → Bool) where
  -- setFileName and open; a file that is still open is closed by setFileName.
  unfoldable pub open_file : String → ℕ → File → File
  open_file name call f = record f { file_name = name; is_open = opens call }

  abbrev pub open_statistics : LogEngine → LogEngine
  open_statistics e = record e {
    statistics_file =
        open_file (str_append statistics_file_name ".log") e.past_calls e.statistics_file;
    past_calls = suc e.past_calls;
  }

  abbrev pub open_tunnels : LogEngine → LogEngine
  open_tunnels e = record e {
    tunnels_file = open_file (str_append tunnels_file_name ".log") e.past_calls e.tunnels_file;
    past_calls = suc e.past_calls;
  }

  unfoldable pub close_files : LogEngine → LogEngine
  close_files e = record e {
    tunnels_file = record e.tunnels_file { is_open = false };
    statistics_file = record e.statistics_file { is_open = false };
  }

  -- QFile::rename, which takes over the new name when it succeeds.
  unfoldable pub rename_file : String → ℕ → File → File
  rename_file name call f = if renamed call then record f { file_name = name } else f

  abbrev pub rename_files : String → LogEngine → LogEngine
  rename_files postfix e =
      let tunnels = str_append tunnels_file_name postfix in
      let statistics = str_append statistics_file_name postfix in
      record e {
        tunnels_file = rename_file tunnels e.past_calls e.tunnels_file;
        statistics_file = rename_file statistics (suc e.past_calls) e.statistics_file;
        past_calls = suc (suc e.past_calls);
        file_calls =
            renames e.statistics_file.file_name statistics
            ∷ renames e.tunnels_file.file_name tunnels
            ∷ e.file_calls;
      }

  unfoldable pub rotate_logs : Now → LogEngine → LogEngine
  rotate_logs now e = open_tunnels (open_statistics (rename_files now.postfix (close_files e)))

  unfoldable pub enable : LogEngine → LogEngine
  enable e = open_tunnels (open_statistics (record e { enabled = true }))

  unfoldable pub disable : LogEngine → LogEngine
  disable e = close_files (record e { enabled = false })

  -- The line that is logged, for the three numbers in text.
  abbrev pub statistics_line : Now → String → String → String → String
  statistics_line now tunnels connections troughput = str_append now.timestamp (
      str_append " " (
        str_append tunnels
          (str_append " " (str_append connections (str_append " " (str_append troughput "\n"))))))

  unfoldable pub log_statistics : Now → String → LogEngine → LogEngine
  log_statistics now line e =
      if not e.statistics_file.is_open
      then e
      else let e' = record e {
        file_calls = writes e.statistics_file.file_name line ∷ e.file_calls;
      } in
        if e.current_day == now.day
        then e'
        else rotate_logs now (record e' { current_day = now.day })
