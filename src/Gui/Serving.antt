-- ===== src/Gui/Serving.antt =====
-- internal/gui/server.go: the handler that `Start` builds, and the requests that it serves.
use Prim.Native.String.{String}
use text.Mathlib.Text.{◌==◌ as str_eq}
use slip_stream_plus.Prelude.{
  Bool, false, not, ◌&&◌, List, [], ◌∷◌, if◌then◌else◌, Option, none, some,
}
use slip_stream_plus.Gui.{
  ApiServer, World, Request, Response, Route, page, message, status, config, reload, restart,
  bandwidth, users, user_action, instance', dashboard,
}
use slip_stream_plus.Gui.Handlers.{
  handle_status, handle_bandwidth, handle_config, handle_reload, handle_restart, handle_instance,
  handle_users, handle_user_action,
}

-- The handlers by their paths.
unfoldable pub serve_http : Route → World → Request → ApiServer → Response × ApiServer
unfolding handle_status handle_bandwidth handle_config handle_reload handle_restart handle_instance
    handle_users handle_user_action
serve_http status w r s = (handle_status s, s)
serve_http config w r s = handle_config w r s
serve_http reload w r s = handle_reload w r s
serve_http restart w r s = handle_restart r s
serve_http bandwidth w r s = (handle_bandwidth s, s)
serve_http users w r s = handle_users w r s
serve_http user_action w r s = handle_user_action w r s
serve_http instance' w r s = handle_instance r s
serve_http dashboard w r s = ((200, page), s)

-- Whether the request has the name and the password.
unfoldable pub authorized : String × String → Request → Bool
authorized creds r = elim r.basic_auth [
  | none ↦ false
  | some (u, p) ↦ str_eq u (creds.0) && str_eq p (creds.1)
]

-- The name and the password that `Start` reads, if both are set.
unfoldable pub gui_auth : ApiServer → Option (String × String)
gui_auth s =
    if not (str_eq s.cfg.gui_username "") && not (str_eq s.cfg.gui_password "")
    then some (s.cfg.gui_username, s.cfg.gui_password)
    else none

-- A request to the handler that `Start` has built.
unfoldable pub serve : Option (String × String) → World → Request → ApiServer → Response × ApiServer
unfolding authorized serve_http
serve none w r s = serve_http r.route w r s
serve (some creds) w r s =
    if authorized creds r then serve_http r.route w r s else ((401, message), s)

-- Requests one after the other.
unfoldable pub serve_all : Option (String × String) → List (World × Request) → ApiServer → ApiServer
unfolding serve
serve_all auth [] s = s
serve_all auth ((w, r) ∷ rest) s = serve_all auth rest (serve auth w r s).1
