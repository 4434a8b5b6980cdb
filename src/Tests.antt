-- ===== src/Tests.antt =====
-- A system and a build to run the library's code on, and the theorems at concrete inputs.
mod Descriptors
mod Privileges
mod Sessions
mod Turns
mod Vectors
mod Serving
mod Remote
use libptytty.Base.{
  ◌^◌, ◌+◌, ◌-◌, ◌≡◌, refl, pos, true, false, Bytes, none, some, List, [], ◌∷◌, ◌++◌, arith, codes,
  length, drop, take, replicate, strncpy, subst, ap, Option, minus_one,
}
use libptytty.Sys.{
  Os, Message, posix_openpt, setresid, get_pty, log_in, destroy, Command, Utmp, user_process,
}
use libptytty.Sys.Returns.{Returns}
use libptytty.Sys.Balance.{Quiet}
use libptytty.Sys.Quiet.{IsQuiet}
use libptytty.Config.{Config, unix98, bsd, utmp_pid}
use libptytty.Unix.{set_utf8_mode, Unix, TtyConf, new_unix, get as unix_get}
use libptytty.Unix.Flags.{Sets, set_utf8_mode-Sets}
use libptytty.Unix.GetPty
use libptytty.Unix.Ownership.{Terminals, Fetched, get_pty-Fetched}
use libptytty.Unix.Put.{Emptied}
use libptytty.Unix.Get.{Acquired, get-Acquired}
use libptytty.Session.{log_session, login, delete_unix}
use libptytty.Session.Records.{fill_id}
use libptytty.Session.FillId.{fill_id_lem}
use libptytty.Session.Wtmp.{updwtmp}
use libptytty.Session.WtmpLaws.{Clean, updwtmp-Clean}
use libptytty.Session.Safety.{Loggable, log_session-IsQuiet}
use libptytty.Session.Lifecycle.{
  Call, logs_in, closes_tty, sets_utf8, takes_control, life, life-Quiet, delete_unix-Emptied,
  LoggedIn, login-LoggedIn,
}
use libptytty.FdPass.{recv_fd}
use libptytty.FdPass.Laws.{Messages, Keeps, recv_fd-Keeps}
use libptytty.Proxy.Server.{serve, host_of}
use libptytty.Proxy.Server.Serve.{Gone, serve-Gone}
use libptytty.Proxy.Client.{new_proxy, get as proxy_get, login as proxy_login, delete_proxy, Proxy}
use libptytty.Proxy.Client.Laws
use libptytty.Proxy.Client.Token.{Served, Uses, get-Served, login-Uses, delete_proxy-Uses}
use libptytty.Process.{Statics}
use libptytty.Api.{api_life}
use libptytty.Api.Life.{api_life-Quiet}
use libptytty.Error.{new_error, what, string_at, copy_error, delete_error, copy_error-dangles}
use libptytty.Proxy.Hostname.{host_of-strncpy}

abbrev message : Message
message = record {
  control = some (record { rights = true; cmsg_len = 20; fds = pos 7 ∷ [] });
  byte = 0;
}

-- Every call succeeds, and every descriptor is 7.
abbrev pub os : Os
os = record {
  open_file = λ w s m. pos 7;
  open_db = λ w f m. pos 7;
  open_master = λ w m. pos 7;
  open_pair = λ w. none;
  open_slave = λ w. none;
  dup = λ w fd. pos 7;
  grantpt = λ w fd. pos 0;
  unlockpt = λ w fd. pos 0;
  ptsname = λ w fd. some (codes "/dev/pts/7");
  ttyname = λ w fd. some (codes "/dev/pts/7");
  access = λ w s. pos 0;
  isastream = λ w fd. pos 1;
  find_module = λ w fd s. pos 0;
  tcgetattr = λ w fd. some 5;
  ttyslot = λ w. pos 3;
  getuid = λ w. 1000;
  getpwuid = λ w u. some (record { pw_name = some (codes "me") });
  time = λ w. 1;
  getutid = λ w u. some u;
  setlk = λ w fd. none;
  fstat_size = λ w fd. some 384;
  append = λ w fd u. false;
  malloc = λ w. true;
  sendmsg = λ w s fd. pos 1;
  recvmsg = λ w s. some message;
  new_object = λ w. length w + 4096;
  read_reply = λ w. some 4096;
  socketpair = λ w. none;
  fork = λ w. minus_one;
  is_bad_fd = λ w fd. false;
  getgid = λ w. 100;
  geteuid = λ w. 0;
  getegid = λ w. 100;
  commands = λ w. [];
  output = λ w. codes "hello" ∷ codes "bye" ∷ [];
  execl = λ w. true;
}

abbrev pub config : Config
config = record {
  backend = unix98 posix_openpt;
  tiocsctty = true;
  iutf8 = some 14;
  tty_gid_support = true;
  have_revoke = false;
  i_push = false;
  have_isastream = false;
  utmp_support = some utmp_pid;
  wtmp_support = true;
  have_updwtmp = false;
  lastlog_support = true;
  have_lastlog = true;
  have_host = true;
  line_size = 32;
  id_size = 4;
  user_size = 32;
  host_size = 256;
  lastlog_line_size = 32;
  lastlog_host_size = 256;
  restore_mode = 0o666;
  reentrant = true;
  cmsg_header = 16;
  cmsg_space = 24;
  set_ids = some setresid;
  helper = true;
}

abbrev pub conf : TtyConf
conf = record { gid = 5; mode = 0o620 }

pub terminals : Terminals os
terminals = record {
  ptsname_known = λ w fd. (codes "/dev/pts/7", refl);
  ttyname_known = λ w fd. (codes "/dev/pts/7", refl);
  open_result = λ w s m. refl;
  pair_open = λ w a b e. cc e;
}

abbrev pub host : Bytes
host = codes "h:0"

abbrev pub logged_in : Unix
logged_in = record {
  pty = pos 7;
  tty = pos 8;
  name = some (codes "/dev/pts/7");
  utmp_pos = none;
  login_shell = some true;
  cmd_pid = pos 42;
}

loggable : Loggable utmp_pid logged_in
loggable = record { name = refl; shell = refl; slot = λ e. cc e }

arrived : Option Message → Message
arrived none = message
arrived (some m) = m

pub messages : Messages os config
unfolding arrived
messages w s m e =
    let same : message ≡ m = ap arrived e in
    subst (λ (x : Message). libptytty.FdPass.Laws.WellFormed config x.control) same
      (λ _. (omega arith, refl, omega arith))

abbrev pub commands : List Command
commands =
    record { kind = get_pty; id = 0; login_shell = false; cmd_pid = pos 0; hostname = [] }
    ∷ record {
      kind = log_in;
      id = 4098;
      login_shell = true;
      cmd_pid = pos 42;
      hostname = strncpy host 512;
    }
    ∷ record { kind = destroy; id = 1; login_shell = false; cmd_pid = pos 0; hostname = [] }
    ∷ record { kind = get_pty; id = 0; login_shell = false; cmd_pid = pos 0; hostname = [] }
    ∷ record { kind = destroy; id = 4098; login_shell = false; cmd_pid = pos 0; hostname = [] }
    ∷ []

serve-Gone_example :
    Returns
      (Gone os config conf (pos 3) 7 terminals 0 [])
      (serve os config conf (pos 3) commands [])
serve-Gone_example = serve-Gone os config conf (pos 3) 7 terminals commands []

abbrev pub client_calls : List Call
client_calls = logs_in (pos 42) true host ∷ sets_utf8 true ∷ takes_control ∷ closes_tty ∷ []

get-Acquired_example :
    Returns (Acquired config (pos 0) 7 0 []) (unix_get os config conf new_unix [])
unfolding new_unix
get-Acquired_example = get-Acquired os config conf 7 new_unix [] terminals (refl, refl)

recv_fd-Keeps_example : Returns (Keeps os config 7 0 []) (recv_fd os config (pos 3) [])
recv_fd-Keeps_example = recv_fd-Keeps os config 7 (pos 3) [] messages

entry : Utmp
entry = record {
  line = codes "pts/7";
  id = codes "ts/7";
  user = codes "me";
  host = [];
  pid = pos 42;
  kind = user_process;
  time = 1;
}

updwtmp-Clean_example : Returns (Clean os []) (updwtmp os entry [])
updwtmp-Clean_example = updwtmp-Clean os entry []

delete_unix-Emptied_example :
    Returns (Emptied os config conf 7 logged_in []) (delete_unix os config conf logged_in [])
delete_unix-Emptied_example =
    delete_unix-Emptied os config 7 conf logged_in []
      λ db e i. record { name = refl; shell = refl; slot = λ d. cc (e, d) }

proxy_get-Acquired_example :
    Returns
      (Laws.Acquired os config (pos 3) 7 messages 0 [])
      (proxy_get os config (pos 3) new_proxy [])
unfolding new_proxy
proxy_get-Acquired_example =
    Laws.proxy_get-Acquired os config (pos 3) 7 messages new_proxy [] refl refl refl

idle : Unix
idle = record logged_in { cmd_pid = pos 0; login_shell = none }

login-LoggedIn_example :
    Returns (LoggedIn config 7 [] idle) (login os config idle (pos 42) true (some host) [])
unfolding idle
login-LoggedIn_example =
    login-LoggedIn os config 7 idle (pos 42) true (some host) [] refl (λ e. cc e) (λ db e i. cc i)

get_pty-Fetched_example : Returns (Fetched 7 []) (GetPty.get_pty os bsd minus_one none [])
get_pty-Fetched_example = get_pty-Fetched os terminals 7 minus_one refl bsd none []

fill_id_lem_example :
    fill_id (codes "pts/12") 4
    ≡ drop (length (codes "pts/12") - 4) (codes "pts/12")
      ++ replicate (4 - length (codes "pts/12")) 0
fill_id_lem_example = fill_id_lem (codes "pts/12") 4

statics : Statics
statics = record { sock_fd = pos 3; lock_fd = pos 4; helper_pid = pos 99 }

api_life-Quiet_example : Returns (Quiet 7 []) (api_life os config conf statics client_calls [])
api_life-Quiet_example = api_life-Quiet os config conf statics 7 terminals client_calls [] messages

get-Served_example : Returns (Served config []) (proxy_get os config (pos 3) new_proxy [])
get-Served_example = get-Served os config (pos 3) new_proxy []

set_utf8_mode-Sets_example :
    Returns
      (λ _. Sets os config logged_in true [] (some 14))
      (set_utf8_mode os config logged_in true [])
set_utf8_mode-Sets_example = set_utf8_mode-Sets os config logged_in true []

copy_error-dangles_example :
    let (e, m) = new_error (codes "no") (some 96) ((32, codes "other") ∷ []) in
    (what (copy_error e) ≡ some 96)
    × (string_at 96 m ≡ some (codes "no"))
    × (delete_error e m ≡ some ((32, codes "other") ∷ []))
    × (delete_error (copy_error e) ((32, codes "other") ∷ []) ≡ none)
unfolding string_at
copy_error-dangles_example = copy_error-dangles (codes "no") 96 ((32, codes "other") ∷ []) refl
