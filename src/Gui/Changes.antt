-- ===== src/Gui/Changes.antt =====
-- internal/gui/server.go and handlers.go: what is changed by which answers.
use Prim.Native.String.{String}
use text.Mathlib.Text.{◌==◌ as str_eq}
use slip_stream_plus.Prelude.{
  ◌≡◌, ◌⊎◌, inl, inr, refl, ap, ◌∙◌, true, ◌&&◌, Option, none, some, get_elem?, arith, if_lem,
  Option_lem, Bool-cases,
}
use slip_stream_plus.Prelude.Maps.{eqb-true, string_key}
use slip_stream_plus.Engine.Manager.Control as Engine
use slip_stream_plus.Users.{get_user}
use slip_stream_plus.Gui.{ApiServer, World, Request, Response}
use slip_stream_plus.Gui.Handlers.{store_config, with_binary, reload_with, change_users, reset_at}
use slip_stream_plus.Gui.Serving.{authorized, serve}
use slip_stream_plus.Gui.Steps.{
  Served, same, stored, reloaded, scheduled, restarted, added, edited, deleted, reset,
  serve_http-Served,
}

-- The server is as it was, or the request was served or failed half way.
abbrev Plain : ApiServer → Response × ApiServer → Type 0
Plain s out = (out.1 ≡ s) ⊎ ((out.0.0 ≡ 200) ⊎ (out.0.0 ≡ 500))

module _ (w : World) (r : Request) (s : ApiServer) where
  Served-Plain : (out : Response × ApiServer) → Served w r s out → Plain s out
  unfolding store_config reload_with change_users reset_at
  Served-Plain _ (same a) = inl refl
  Served-Plain _ (stored c d b e) =
      if_lem (Plain s) w.saves (λ _. inr (inl refl)) (λ _. inr (inr refl))
  Served-Plain _ (reloaded c e) =
      Option_lem (Plain s) ((Engine.reload w.starts (with_binary c s) s.manager).0)
        (λ _. inr (inl refl)) (λ _ _. inr (inr refl))
  Served-Plain _ scheduled = inr (inl refl)
  Served-Plain _ (restarted id m e) = inr (inl refl)
  Served-Plain _ (added uc e) = if_lem (Plain s) w.saves (λ _. inr (inl refl)) (λ _. inr (inr refl))
  Served-Plain _ (edited uc name e) =
      if_lem (Plain s) w.saves (λ _. inr (inl refl)) (λ _. inr (inr refl))
  Served-Plain _ (deleted name) =
      if_lem (Plain s) w.saves (λ _. inr (inl refl)) (λ _. inr (inr refl))
  Served-Plain _ (reset at name) =
      Option_lem (Plain s) (get_elem? s.user_managers at) (λ _. inl refl)
        (λ m _. Option_lem (Plain s) (get_user name m) (λ _. inl refl) (λ _ _. inr (inl refl)))

-- The request has the name and the password that `Start` asks for, if it asks.
abbrev pub IsAllowed : Option (String × String) → Request → Type 0
IsAllowed none r = Unit
IsAllowed (some creds) r = r.basic_auth ≡ some creds

pair_eq :
    (u p : String) (creds : String × String)
    → (str_eq u (creds.0) && str_eq p (creds.1)) ≡ true
    → (u, p) ≡ creds
pair_eq u p (a, b) h = elim (Bool-cases (str_eq u a)) [
  | inr other ↦ absurd (ground (arith, h, other))
  | inl eu ↦ (elim (Bool-cases (str_eq p b)) [
    | inr other ↦ absurd (ground (arith, h, eu, other))
    | inl ep ↦ ap (λ x. (x, p)) (eqb-true u a eu) ∙ ap (λ y. (a, y)) (eqb-true p b ep)
  ])
]

authorized-IsAllowed :
    (creds : String × String) (r : Request) (given : Option (String × String))
    → r.basic_auth ≡ given
    → authorized creds r ≡ true
    → r.basic_auth ≡ some creds
unfolding authorized
authorized-IsAllowed creds r none e h = absurd (ground (arith, e, h))
authorized-IsAllowed creds r (some (u, p)) e h =
    e ∙ ap (λ (q : String × String). some q) (pair_eq u p creds (rw (authorized, e) at h))

-- A request without the name and the password that `Start` asks for changes nothing; and one that has them, or when
-- none are asked for, changes something only if its answer is 200 or 500.
pub serve_changes :
    (auth : Option (String × String)) (w : World) (r : Request) (s : ApiServer)
    → let out = serve auth w r s in
      (out.1 ≡ s) ⊎ (IsAllowed auth r × ((out.0.0 ≡ 200) ⊎ (out.0.0 ≡ 500)))
unfolding serve
serve_changes none w r s = elim (Served-Plain w r s _ (serve_http-Served w r s r.route)) [
  | inl e ↦ inl e
  | inr c ↦ inr (tt, c)
]
serve_changes (some creds) w r s = elim (Bool-cases (authorized creds r)) [
  | inr other ↦ rw (other) (inl refl)
  | inl its ↦ rw (its) (elim (Served-Plain w r s _ (serve_http-Served w r s r.route)) [
    | inl e ↦ inl e
    | inr c ↦ inr (authorized-IsAllowed creds r r.basic_auth refl its, c)
  ])
]
