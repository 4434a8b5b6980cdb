-- ===== src/Session/Books.antt =====
-- What `log_session` (src/logging.C) writes to utmp, wtmp and lastlog, on every build.
use libptytty.Base.{true, List, [], ◌∷◌}
use libptytty.Sys.{
  Utmp, Lastlog, Record, M, Event, appended, wrote_at, utmp_record, lastlog_record, put_utmp,
  logged_wtmp, logged_lastlog,
}
use libptytty.Sys.Notes.{Notes}

-- A record written whole.
pub data Entry : Type 0 where
  in_utmp in_wtmp : Utmp → Entry
  in_lastlog : Lastlog → Entry

unfoldable pub entry_of : Event → List Entry
entry_of (put_utmp u) = in_utmp u ∷ []
entry_of (logged_wtmp u) = in_wtmp u ∷ []
entry_of (appended fd u true) = in_wtmp u ∷ []
entry_of (logged_lastlog uid ll) = in_lastlog ll ∷ []
entry_of (wrote_at fd (utmp_record u) at) = in_utmp u ∷ []
entry_of (wrote_at fd (lastlog_record ll) at) = in_lastlog ll ∷ []
entry_of _ = []

abbrev pub entry_in : Record → Entry
entry_in (utmp_record u) = in_utmp u
entry_in (lastlog_record ll) = in_lastlog ll

-- What a run adds to the databases if it returns.
abbrev pub IsBooked : {A : Type 0} → (A → List Entry → Type 0) → M A → Type 0
IsBooked P m = Notes entry_of P m
