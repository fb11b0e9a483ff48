-- ===== src/Gui.antt =====
-- internal/gui/server.go: the state of the dashboard's server, its requests and its answers, and the recording of the
-- bandwidth. The user managers that were ever made stand in a list, and a pointer to one of them is its place: the
-- proxy has the pointer that main.go gave it, and the server its own.
mod Tests
pub mod Handlers
pub mod Serving
pub mod Steps
pub mod Access
pub mod Changes
pub mod UserChanges
pub mod Names
pub mod Reload
pub mod History
use Prim.Native.String.{String}
use slip_stream_plus.Prelude.{
  ℕ, ◌+◌, ◌-◌, ◌/◌, Bool, List, [], ◌∷◌, ◌++◌, ltb, ◌==◌, if◌then◌else◌, length, drop, Option, none,
  some, get_elem?,
}
use slip_stream_plus.Prelude.Int.{ℤ, pos, negsuc, ◌+ℤ◌, ◌-ℤ◌, wrap64}
use slip_stream_plus.Config.Validation.{Config}
use slip_stream_plus.Engine.Instance.{Instance}
use slip_stream_plus.Engine.Manager.Control as Engine
use slip_stream_plus.Users as Users

pub record BwPoint : Type 0 where
  pub time : ℤ
  pub tx : ℤ
  pub rx : ℤ

-- The checker that the server holds: what `SetPacketSplit` has set, and whether it has been started and not stopped.
pub record Checker : Type 0 where
  pub packet_split : Bool
  pub running : Bool

-- `APIServer`, and what it shares with the rest of the process. `file` is the configuration that `Save` wrote last,
-- none when it wrote none or a write has failed; `restarts` counts the restarts that are under way.
pub record ApiServer : Type 0 where
  pub manager : Engine.Manager
  pub cfg : Config
  pub file : Option Config
  pub user_mgr : Option ℕ
  pub checker : Option Checker
  pub bw_history : List BwPoint
  pub last_tx : ℤ
  pub last_rx : ℤ
  pub user_managers : List Users.Manager
  pub proxy_users : Option ℕ
  pub restarts : ℕ

-- What a pointer to a user manager points to.
unfoldable pub deref : Option ℕ → List Users.Manager → Option Users.Manager
deref none managers = none
deref (some at) managers = get_elem? managers at

-- `s.userMgr = users.NewManager(s.cfg.Socks.Users)`
unfoldable pub renew_users : ApiServer → ApiServer
renew_users s = record s {
  user_managers = s.user_managers ++ (Users.new_manager s.cfg.users ∷ []);
  user_mgr = some (length s.user_managers);
}

-- What is outside of the process while a request is served: which instances start, whether the file is written, and
-- what the file holds, none when it cannot be read or parsed.
pub record World : Type 0 where
  pub starts : ℕ → Bool
  pub saves : Bool
  pub stored : Option Config

-- `s.cfg.Save(s.configPath)` for a configuration; the flag says that there was no error.
unfoldable pub save : World → Config → ApiServer → ApiServer × Bool
save w c s = (record s { file = if w.saves then some c else none }, w.saves)

-- Which of the handlers that `Start` registers the path leads to.
pub data Route : Type 0 where
  status config reload restart bandwidth users user_action instance' dashboard : Route

-- `parts` are the parts of the path between the slashes, and `id` is what `strconv.Atoi` makes of the third; a body is
-- none when it cannot be decoded.
pub record Request : Type 0 where
  pub route : Route
  pub method : String
  pub parts : List String
  pub id : Option ℤ
  pub basic_auth : Option (String × String)
  pub config_body : Option Config
  pub user_body : Option Users.UserConfig

-- The bodies of the answers. `message` is a text for people.
pub data Body : Type 0 where
  nothing page message : Body
  done : String → Body
  instances : List Instance → String → String → Body
  the_config : Config → Body
  history : List BwPoint → Body
  statuses : List Users.UserStatus → Body

-- A status code and a body.
abbrev pub Response : Type 0
Response = ℕ × Body

-- `/ 10` on an int64, which truncates.
unfoldable pub tenth : ℤ → ℤ
tenth (pos n) = pos (n / 10)
tenth (negsuc n) = if (n + 1) / 10 == 0 then pos 0 else negsuc ((n + 1) / 10 - 1)

unfoldable pub total_tx : List Instance → ℤ → ℤ
total_tx [] sum = sum
total_tx (i ∷ rest) sum = total_tx rest (wrap64 (sum +ℤ i.tx_bytes))

unfoldable pub total_rx : List Instance → ℤ → ℤ
total_rx [] sum = sum
total_rx (i ∷ rest) sum = total_rx rest (wrap64 (sum +ℤ i.rx_bytes))

abbrev pub history_size : ℕ
history_size = 8640

-- The last points, no more than the history has room for.
unfoldable pub trim : List BwPoint → List BwPoint
trim points =
    if ltb history_size (length points) then drop (length points - history_size) points else points

-- A round of `collectBandwidth`, at a time.
unfoldable pub collect_bandwidth : ℤ → ApiServer → ApiServer
unfolding total_tx total_rx tenth trim
collect_bandwidth now s =
    let tx = total_tx s.manager.instances (pos 0) in
    let rx = total_rx s.manager.instances (pos 0) in
    let point : BwPoint = record {
      time = now;
      tx = tenth (wrap64 (tx -ℤ s.last_tx));
      rx = tenth (wrap64 (rx -ℤ s.last_rx));
    } in
    record s { bw_history = trim (s.bw_history ++ (point ∷ [])); last_tx = tx; last_rx = rx }
