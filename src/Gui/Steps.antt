-- ===== src/Gui/Steps.antt =====
-- internal/gui/handlers.go: all that a request can do to the server, as a relation.
use Prim.Native.String.{String}
use text.Mathlib.Text.{◌==◌ as str_eq}
use slip_stream_plus.Prelude.{
  ℕ, ◌+◌, ◌≡◌, refl, true, false, not, ◌||◌, List, [], ◌∷◌, ◌++◌, Option, none, some, if_lem,
  Option_lem,
}
use slip_stream_plus.Prelude.Int.{ℤ, pos, negsuc}
use slip_stream_plus.Config.Validation.{Config, Checked, refused, taken, validate, load}
use slip_stream_plus.Engine.Manager.Control as Engine
use slip_stream_plus.Users.{UserConfig}
use slip_stream_plus.Gui.{
  ApiServer, World, Route, Request, Response, message, done, renew_users, status, config, reload,
  restart, bandwidth, users, user_action, instance', dashboard,
}
use slip_stream_plus.Gui.Handlers.{
  store_config, post_config, handle_config, reload_with, post_reload, handle_reload, handle_restart,
  restart_at, handle_instance, fourth_is, has_name, change_users, add_user, handle_users, reset_at,
  reset_user, replace_user, edit_user, without_user, renew_or_drop, delete_user, act_on_user,
  handle_user_action,
}
use slip_stream_plus.Gui.Serving.{serve_http, authorized, serve}

-- What a served request has done. Only an answer that it refuses or that asks for something leaves no trace.
pub data Served (w : World) (r : Request) (s : ApiServer) : Response × ApiServer → Type 0 where
  same : (a : Response) → Served w r s (a, s)
  stored :
      (c d : Config)
      → r.config_body ≡ some c
      → validate c ≡ taken d
      → Served w r s (store_config w d s)
  reloaded : (c : Config) → load w.stored ≡ some c → Served w r s (reload_with w c s)
  scheduled : Served w r s ((200, done "restarting"), record s { restarts = s.restarts + 1 })
  restarted :
      (id : ℕ) (m : Engine.Manager)
      → Engine.restart id s.manager ≡ some m
      → Served w r s ((200, done "restarting"), record s { manager = m })
  added :
      (uc : UserConfig)
      → has_name uc.username s.cfg.users ≡ false
      → Served w r s (change_users w renew_users "added" (s.cfg.users ++ (uc ∷ [])) s)
  edited :
      (uc : UserConfig) (name : String)
      → has_name name s.cfg.users ≡ true
      → Served w r s (change_users w renew_users "updated" (replace_user uc name s.cfg.users) s)
  deleted :
      (name : String)
      → Served w r s (change_users w renew_or_drop "deleted" (without_user name s.cfg.users) s)
  reset : (at : ℕ) (name : String) → Served w r s (reset_at at name s)

-- Each handler is such a step.
module _ (w : World) (r : Request) (s : ApiServer) where
  post_config-Served : Served w r s (post_config w r s)
  unfolding post_config
  post_config-Served =
      Option_lem (Served w r s) r.config_body (λ _. same _) (λ c e. checked c e (validate c) refl)
    where
      checked :
          (c : Config)
          → r.config_body ≡ some c
          → (v : Checked Config) → validate c ≡ v
          → Served w r s (elim v [ refused _ ↦ ((400, message), s) | taken d ↦ store_config w d s ])
      checked c b (refused _) e = same _
      checked c b (taken d) e = stored c d b e

  handle_config-Served : Served w r s (handle_config w r s)
  unfolding handle_config
  handle_config-Served =
      if_lem (Served w r s) (str_eq r.method "OPTIONS") (λ _. same _)
        (λ _.
          if_lem (Served w r s) (str_eq r.method "GET") (λ _. same _)
            (λ _.
              if_lem (Served w r s) (str_eq r.method "POST") (λ _. post_config-Served)
                (λ _. same _)))

  handle_reload-Served : Served w r s (handle_reload w r s)
  unfolding handle_reload post_reload
  handle_reload-Served =
      if_lem (Served w r s) (str_eq r.method "OPTIONS") (λ _. same _)
        (λ _.
          if_lem (Served w r s) (not (str_eq r.method "POST")) (λ _. same _)
            (λ _. Option_lem (Served w r s) (load w.stored) (λ _. same _) (λ c e. reloaded c e)))

  handle_restart-Served : Served w r s (handle_restart r s)
  unfolding handle_restart
  handle_restart-Served =
      if_lem (Served w r s) (str_eq r.method "OPTIONS") (λ _. same _)
        (λ _. if_lem (Served w r s) (not (str_eq r.method "POST")) (λ _. same _) (λ _. scheduled))

  restart_at-Served : (id : ℤ) → Served w r s (restart_at id s)
  unfolding restart_at
  restart_at-Served (negsuc n) = same _
  restart_at-Served (pos id) =
      Option_lem (Served w r s) (Engine.restart id s.manager) (λ _. same _)
        (λ m e. restarted id m e)

  handle_instance-Served : Served w r s (handle_instance r s)
  unfolding handle_instance
  handle_instance-Served =
      if_lem (Served w r s) (str_eq r.method "OPTIONS") (λ _. same _)
        (λ _.
          if_lem (Served w r s) (not (fourth_is "restart" r.parts)) (λ _. same _)
            (λ _.
              Option_lem (Served w r s) r.id (λ _. same _)
                (λ id _.
                  if_lem (Served w r s) (not (str_eq r.method "POST")) (λ _. same _)
                    (λ _. restart_at-Served id))))

  add_user-Served : (uc : UserConfig) → Served w r s (add_user w uc s)
  unfolding add_user
  add_user-Served uc =
      if_lem (Served w r s) (str_eq uc.username "" || str_eq uc.password "") (λ _. same _)
        (λ _.
          if_lem (Served w r s) (has_name uc.username s.cfg.users) (λ _. same _) (λ h. added uc h))

  handle_users-Served : Served w r s (handle_users w r s)
  unfolding handle_users
  handle_users-Served =
      if_lem (Served w r s) (str_eq r.method "OPTIONS") (λ _. same _)
        (λ _.
          if_lem (Served w r s) (str_eq r.method "GET") (λ _. same _)
            (λ _.
              if_lem (Served w r s) (str_eq r.method "POST")
                (λ _.
                  Option_lem (Served w r s) r.user_body (λ _. same _) (λ uc _. add_user-Served uc))
                (λ _. same _)))

  edit_user-Served : (uc : UserConfig) (name : String) → Served w r s (edit_user w uc name s)
  unfolding edit_user
  edit_user-Served uc name =
      if_lem (Served w r s) (has_name name s.cfg.users) (λ h. edited uc name h) (λ _. same _)

  act_on_user-Served : (name action : String) → Served w r s (act_on_user w r name action s)
  unfolding act_on_user reset_user delete_user
  act_on_user-Served name action =
      if_lem (Served w r s) (str_eq action "reset")
        (λ _. Option_lem (Served w r s) s.user_mgr (λ _. same _) (λ at _. reset at name))
        (λ _.
          if_lem (Served w r s) (str_eq action "edit")
            (λ _.
              Option_lem (Served w r s) r.user_body (λ _. same _)
                (λ uc _. edit_user-Served uc name))
            (λ _. if_lem (Served w r s) (str_eq action "delete") (λ _. deleted name) (λ _. same _)))

  handle_user_action-Served : Served w r s (handle_user_action w r s)
  unfolding handle_user_action
  handle_user_action-Served =
      if_lem (Served w r s) (str_eq r.method "OPTIONS") (λ _. same _) (λ _. routed r.parts)
    where
      routed :
          (parts : List String)
          → Served w r s (elim parts [
            | _ ∷ _ ∷ name ∷ action ∷ _ ↦ act_on_user w r name action s
            | _ ↦ ((404, message), s)
          ])
      routed [] = same _
      routed (_ ∷ []) = same _
      routed (_ ∷ _ ∷ []) = same _
      routed (_ ∷ _ ∷ _ ∷ []) = same _
      routed (_ ∷ _ ∷ name ∷ action ∷ _) = act_on_user-Served name action

  pub serve_http-Served : (route : Route) → Served w r s (serve_http route w r s)
  unfolding serve_http
  serve_http-Served status = same _
  serve_http-Served config = handle_config-Served
  serve_http-Served reload = handle_reload-Served
  serve_http-Served restart = handle_restart-Served
  serve_http-Served bandwidth = same _
  serve_http-Served users = handle_users-Served
  serve_http-Served user_action = handle_user_action-Served
  serve_http-Served instance' = handle_instance-Served
  serve_http-Served dashboard = same _

-- Behind the guard of the dashboard.
pub serve-Served :
    (auth : Option (String × String)) (w : World) (r : Request) (s : ApiServer)
    → Served w r s (serve auth w r s)
unfolding serve
serve-Served none w r s = serve_http-Served w r s r.route
serve-Served (some creds) w r s =
    if_lem (Served w r s) (authorized creds r) (λ _. serve_http-Served w r s r.route) (λ _. same _)
