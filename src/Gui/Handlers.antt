-- ===== src/Gui/Handlers.antt =====
-- internal/gui/handlers.go: a function for each handler, from the server to its answer and the server.
use Prim.Native.String.{String}
use text.Mathlib.Text.{◌==◌ as str_eq}
use slip_stream_plus.Prelude.{
  ℕ, ◌+◌, Bool, true, false, not, ◌||◌, List, [], ◌∷◌, ◌++◌, map, ltb, if◌then◌else◌, length,
  Option, none, some, get_elem?, set,
}
use slip_stream_plus.Prelude.Int.{ℤ, pos, negsuc}
use slip_stream_plus.Prelude.Maps.{insert, string_key}
use slip_stream_plus.Config.Validation.{Config, refused, taken, validate, load}
use slip_stream_plus.Engine.Manager.Control as Engine
use slip_stream_plus.Users.{UserConfig, Manager, get_user, all_users, reset_used_bytes, new_manager}
use slip_stream_plus.Users as Users
use slip_stream_plus.Gui.{
  ApiServer, Checker, World, Request, Response, nothing, message, done, instances, the_config,
  history, statuses, deref, renew_users, save,
}

unfoldable pub handle_status : ApiServer → Response
handle_status s = (200, instances s.manager.instances s.cfg.strategy s.cfg.listen)

unfoldable pub handle_bandwidth : ApiServer → Response
handle_bandwidth s = (200, history s.bw_history)

-- The handling of a POST of a configuration that `Validate` has filled in.
unfoldable pub store_config : World → Config → ApiServer → Response × ApiServer
unfolding save
store_config w c s =
    let saved = save w c s in
    if saved.1 then ((200, done "saved"), record saved.0 { cfg = c }) else ((500, message), saved.0)

unfoldable pub post_config : World → Request → ApiServer → Response × ApiServer
unfolding store_config validate
post_config w r s = elim r.config_body [
  | none ↦ ((400, message), s)
  | some c ↦ elim (validate c) [ refused _ ↦ ((400, message), s) | taken d ↦ store_config w d s ]
]

unfoldable pub handle_config : World → Request → ApiServer → Response × ApiServer
unfolding post_config
handle_config w r s =
    if str_eq r.method "OPTIONS"
    then ((200, nothing), s)
    else if str_eq r.method "GET"
    then ((200, the_config s.cfg), s)
    else if str_eq r.method "POST"
    then post_config w r s
    else ((405, message), s)

unfoldable pub stopped : Option Checker → Option Checker
stopped none = none
stopped (some c) = some (record c { running = false })

-- If there is a checker, stop it.
unfoldable pub stop_checker : ApiServer → ApiServer
unfolding stopped
stop_checker s = record s { checker = stopped s.checker }

unfoldable pub fresh : Option Checker → Option Checker
fresh none = none
fresh (some _) = some (record { packet_split = false; running = true })

-- If there is a checker, a new one takes its place; `NewChecker` does not know of packet splitting.
unfoldable pub new_checker : ApiServer → ApiServer
unfolding fresh
new_checker s = record s { checker = fresh s.checker }

-- The user manager is renewed if there was one and there are users.
unfoldable pub reload_users : ApiServer → ApiServer
unfolding renew_users
reload_users s = elim s.user_mgr [
  | none ↦ s
  | some _ ↦ if ltb 0 (length s.cfg.users) then renew_users s else s
]

-- The binary of the running configuration stays if the loaded one has none.
unfoldable pub with_binary : Config → ApiServer → Config
with_binary loaded s = record loaded {
  slipstream_binary =
      if str_eq loaded.slipstream_binary ""
      then s.cfg.slipstream_binary
      else loaded.slipstream_binary;
}

-- What follows when the manager has reloaded.
unfoldable pub put_to_use : Engine.Manager → Config → ApiServer → ApiServer
unfolding new_checker reload_users
put_to_use m c s = reload_users (new_checker (record s { manager = m; cfg = c }))

-- `handleReload` behind `Load`.
unfoldable pub reload_with : World → Config → ApiServer → Response × ApiServer
unfolding stop_checker with_binary put_to_use
reload_with w loaded s =
    let c = with_binary loaded s in
    let reloaded = Engine.reload w.starts c s.manager in
    elim (reloaded.0) [
      | some _ ↦ ((500, message), record (stop_checker s) { manager = reloaded.1 })
      | none ↦ ((200, done "reloaded"), put_to_use (reloaded.1) c (stop_checker s))
    ]

unfoldable pub post_reload : World → ApiServer → Response × ApiServer
unfolding reload_with load
post_reload w s = elim (load w.stored) [ none ↦ ((400, message), s) | some c ↦ reload_with w c s ]

unfoldable pub handle_reload : World → Request → ApiServer → Response × ApiServer
unfolding post_reload
handle_reload w r s =
    if str_eq r.method "OPTIONS"
    then ((200, nothing), s)
    else if not (str_eq r.method "POST")
    then ((405, message), s)
    else post_reload w s

unfoldable pub handle_restart : Request → ApiServer → Response × ApiServer
handle_restart r s =
    if str_eq r.method "OPTIONS"
    then ((200, nothing), s)
    else if not (str_eq r.method "POST")
    then ((405, message), s)
    else ((200, done "restarting"), record s { restarts = s.restarts + 1 })

-- What the goroutine of `handleRestart` leaves when the process is not replaced.
unfoldable pub shut_down : ApiServer → ApiServer
unfolding stop_checker
shut_down s = record (stop_checker s) { manager = Engine.shutdown s.manager }

-- `RestartInstance` for the number that the path has.
unfoldable pub restart_at : ℤ → ApiServer → Response × ApiServer
restart_at (negsuc _) s = ((500, message), s)
restart_at (pos id) s = elim (Engine.restart id s.manager) [
  | none ↦ ((500, message), s)
  | some m ↦ ((200, done "restarting"), record s { manager = m })
]

-- Whether the path has a fourth part, which is the given one.
unfoldable pub fourth_is : String → List String → Bool
fourth_is action parts = elim (get_elem? parts 3) [ none ↦ false | some part ↦ str_eq part action ]

unfoldable pub handle_instance : Request → ApiServer → Response × ApiServer
unfolding fourth_is restart_at
handle_instance r s =
    if str_eq r.method "OPTIONS"
    then ((200, nothing), s)
    else if not (fourth_is "restart" r.parts)
    then ((404, message), s)
    else (elim r.id [
      | none ↦ ((400, message), s)
      | some id ↦ if not (str_eq r.method "POST") then ((405, message), s) else restart_at id s
    ])

-- Whether a user of the configuration has the name.
unfoldable pub has_name : String → List UserConfig → Bool
has_name name [] = false
has_name name (u ∷ rest) = if str_eq u.username name then true else has_name name rest

-- The users of the configuration are replaced and saved; if that works, `renew` follows. An error leaves the new users
-- in the configuration.
unfoldable pub change_users :
    World → (ApiServer → ApiServer) → String → List UserConfig → ApiServer → Response × ApiServer
unfolding save
change_users w renew answer us s =
    let c = record s.cfg { users = us } in
    let saved = save w c (record s { cfg = c }) in
    if saved.1 then ((200, done answer), renew saved.0) else ((500, message), saved.0)

unfoldable pub add_user : World → UserConfig → ApiServer → Response × ApiServer
unfolding change_users has_name renew_users
add_user w uc s =
    if str_eq uc.username "" || str_eq uc.password ""
    then ((400, message), s)
    else if has_name uc.username s.cfg.users
    then ((409, message), s)
    else change_users w renew_users "added" (s.cfg.users ++ (uc ∷ [])) s

unfoldable pub get_users : ApiServer → List Users.UserStatus
unfolding deref
get_users s = elim (deref s.user_mgr s.user_managers) [
  | none ↦ []
  | some m ↦ map Users.status (all_users m.users m.ordering)
]

unfoldable pub handle_users : World → Request → ApiServer → Response × ApiServer
unfolding get_users add_user
handle_users w r s =
    if str_eq r.method "OPTIONS"
    then ((200, nothing), s)
    else if str_eq r.method "GET"
    then ((200, statuses (get_users s)), s)
    else if str_eq r.method "POST"
    then (elim r.user_body [ none ↦ ((400, message), s) | some uc ↦ add_user w uc s ])
    else ((405, message), s)

-- `user.ResetUsedBytes()`, on the user that the manager at the place holds.
unfoldable pub reset_at : ℕ → String → ApiServer → Response × ApiServer
unfolding get_user reset_used_bytes
reset_at at username s = elim (get_elem? s.user_managers at) [
  | none ↦ ((404, message), s)
  | some m ↦ elim (get_user username m) [
    | none ↦ ((404, message), s)
    | some u ↦ (
      (200, done "reset"),
      record s {
        user_managers =
            set s.user_managers at
              (record m { users = insert username (reset_used_bytes u) m.users });
      },
    )
  ]
]

unfoldable pub reset_user : String → ApiServer → Response × ApiServer
unfolding reset_at
reset_user username s = elim s.user_mgr [
  | none ↦ ((404, message), s)
  | some at ↦ reset_at at username s
]

-- The first user with the name gets the new entry, under the old name.
unfoldable pub replace_user : UserConfig → String → List UserConfig → List UserConfig
replace_user uc name [] = []
replace_user uc name (u ∷ rest) =
    if str_eq u.username name
    then record uc { username = name } ∷ rest
    else u ∷ replace_user uc name rest

unfoldable pub edit_user : World → UserConfig → String → ApiServer → Response × ApiServer
unfolding replace_user has_name change_users renew_users
edit_user w uc name s =
    if has_name name s.cfg.users
    then change_users w renew_users "updated" (replace_user uc name s.cfg.users) s
    else ((404, message), s)

unfoldable pub without_user : String → List UserConfig → List UserConfig
without_user name [] = []
without_user name (u ∷ rest) =
    if str_eq u.username name then without_user name rest else u ∷ without_user name rest

-- A manager for the users that are left, or none.
unfoldable pub renew_or_drop : ApiServer → ApiServer
unfolding renew_users
renew_or_drop s = if ltb 0 (length s.cfg.users) then renew_users s else record s { user_mgr = none }

unfoldable pub delete_user : World → String → ApiServer → Response × ApiServer
unfolding without_user change_users renew_or_drop
delete_user w name s = change_users w renew_or_drop "deleted" (without_user name s.cfg.users) s

unfoldable pub act_on_user : World → Request → String → String → ApiServer → Response × ApiServer
unfolding reset_user edit_user delete_user
act_on_user w r name action s =
    if str_eq action "reset"
    then reset_user name s
    else if str_eq action "edit"
    then (elim r.user_body [ none ↦ ((400, message), s) | some uc ↦ edit_user w uc name s ])
    else if str_eq action "delete"
    then delete_user w name s
    else ((404, message), s)

unfoldable pub handle_user_action : World → Request → ApiServer → Response × ApiServer
unfolding act_on_user
handle_user_action w r s =
    if str_eq r.method "OPTIONS" then ((200, nothing), s) else (elim r.parts [
      | _ ∷ _ ∷ name ∷ action ∷ _ ↦ act_on_user w r name action s
      | _ ↦ ((404, message), s)
    ])
