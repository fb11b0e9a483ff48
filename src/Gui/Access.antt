-- ===== src/Gui/Access.antt =====
-- internal/gui/handlers.go and internal/proxy/socks5.go: whom the proxy lets in while the dashboard changes the users.
use Prim.Native.String.{String}
use text.Mathlib.Text.{◌==◌ as str_eq}
use slip_stream_plus.Prelude.{
  ℕ, zero, suc, ◌<◌, ◌≡◌, refl, sym, ap, ◌∙◌, Bool, true, false, List, [], ◌∷◌, ◌++◌, ltb, ◌==◌,
  ==_iff, if◌then◌else◌, length, Option, none, some, get_elem?, set, arith, if_lem, Option_lem,
  Bool-cases, inl, inr, length-append, length-set, get_elem?-set_self, get_elem?-set_ne,
}
use slip_stream_plus.Prelude.Maps.{lookup, insert, string_key, eqb, eqb-true}
use slip_stream_plus.Prelude.Maps.Laws.{lookup-insert, length-insert_old}
use slip_stream_plus.Config.Validation.{Config}
use slip_stream_plus.Engine.Manager.Control as Engine
use slip_stream_plus.Users.{
  UserConfig, User, Manager, has_users, authenticate, get_user, reset_used_bytes,
}
use slip_stream_plus.Gui.{ApiServer, World, Request, Response, deref, renew_users, save}
use slip_stream_plus.Gui.Handlers.{
  store_config, stop_checker, new_checker, reload_users, with_binary, put_to_use, reload_with,
  change_users, reset_at, renew_or_drop,
}
use slip_stream_plus.Gui.Serving.{serve, serve_all}
use slip_stream_plus.Gui.Steps.{
  Served, same, stored, reloaded, scheduled, restarted, added, edited, deleted, reset, serve-Served,
}

-- Whether a proxy with such a user manager lets in a name and a password.
unfoldable pub admits : String → String → Option Manager → Bool
admits name password none = true
admits name password (some m) =
    if has_users m
    then (elim (authenticate name password m) [ none ↦ false | some _ ↦ true ])
    else true

-- Whether the proxy lets in a name and a password.
unfoldable pub lets_in : String → String → ApiServer → Bool
unfolding admits deref
lets_in name password s = admits name password (deref s.proxy_users s.user_managers)

-- A pointer into the list.
abbrev InList : Option ℕ → List Manager → Type 0
InList none ms = Unit
InList (some at) ms = at < length ms

-- The proxy's pointer points to a user manager, or to none.
abbrev pub IsPlaced : ApiServer → Type 0
IsPlaced s = InList s.proxy_users s.user_managers

get_elem?-append :
    (ms : List Manager) (m : Manager) (at : ℕ)
    → at < length ms
    → get_elem? (ms ++ (m ∷ [])) at ≡ get_elem? ms at
get_elem?-append [] m at h = absurd (omega arith)
get_elem?-append (n ∷ ms) m zero h = refl
get_elem?-append (n ∷ ms) m (suc at) h = get_elem?-append ms m at (omega arith)

-- With the second list in the place of the first, the pointer still leads to a manager that admits the same.
abbrev KeepsAt : Option ℕ → List Manager → List Manager → Type 0
KeepsAt at ms ns =
    InList at ms
    → InList at ns
      × ((name password : String)
          → admits name password (deref at ns) ≡ admits name password (deref at ms))

append-KeepsAt : (at : Option ℕ) (ms : List Manager) (m : Manager) → KeepsAt at ms (ms ++ (m ∷ []))
unfolding deref
append-KeepsAt none ms m h = (tt, λ name password. refl)
append-KeepsAt (some at) ms m h = (
  omega (arith, length-append ms (m ∷ [])),
  λ name password. ap (admits name password) (get_elem?-append ms m at h),
)

-- Resetting what a user has used changes neither names nor passwords.
admits-reset_used_bytes :
    (m : Manager) (user : String) (u : User) (name password : String)
    → get_user user m ≡ some u
    → admits name password (some (record m { users = insert user (reset_used_bytes u) m.users }))
      ≡ admits name password (some m)
unfolding admits has_users authenticate get_user reset_used_bytes
admits-reset_used_bytes m user u name password e =
    rw (length-insert_old user (reset_used_bytes u) m.users e, lookup-insert)
      (elim (Bool-cases (eqb user name)) [
        | inr other ↦ rw (other) refl
        | inl its ↦
            rw (its, found its)
              (elim (Bool-cases (str_eq u.config.password password)) [
                | inl right ↦ rw (right) refl
                | inr wrong ↦ rw (wrong) refl
              ])
      ])
  where
    found : eqb user name ≡ true → lookup name m.users ≡ some u
    found its = ap (λ n. lookup n m.users) (sym (eqb-true user name its)) ∙ e

elem_in : (ms : List Manager) (i : ℕ) (m : Manager) → get_elem? ms i ≡ some m → i < length ms
elem_in [] i m e = absurd (cc)
elem_in (n ∷ ms) zero m e = omega arith
elem_in (n ∷ ms) (suc i) m e = omega (arith, elem_in ms i m e)

set-KeepsAt :
    (at : Option ℕ) (ms : List Manager) (i : ℕ) (m : Manager) (user : String) (u : User)
    → get_elem? ms i ≡ some m
    → get_user user m ≡ some u
    → KeepsAt at ms (set ms i (record m { users = insert user (reset_used_bytes u) m.users }))
unfolding deref
set-KeepsAt none ms i m user u em eu h = (tt, λ name password. refl)
set-KeepsAt (some at) ms i m user u em eu h =
    let v : Manager = record m { users = insert user (reset_used_bytes u) m.users } in
    (
      omega (arith, length-set ms i v),
      λ name password. elim (Bool-cases (i == at)) [
        | inl its ↦
            ap (admits name password) (
              ap (λ j. get_elem? (set ms i v) j) (sym ((==_iff i at).0 its))
              ∙ get_elem?-set_self ms i v (elem_in ms i m em))
            ∙ admits-reset_used_bytes m user u name password eu
            ∙ ap (admits name password) (sym em ∙ ap (get_elem? ms) ((==_iff i at).0 its))
        | inr other ↦ ap (admits name password) (get_elem?-set_ne ms v (ground (arith, other)))
      ],
    )

-- After it the proxy lets in the same names and passwords.
abbrev Keeps : ApiServer → ApiServer → Type 0
Keeps s t =
    IsPlaced s
    → IsPlaced t × ((name password : String) → lets_in name password t ≡ lets_in name password s)

renew_users-Keeps : (s : ApiServer) → Keeps s (renew_users s)
unfolding renew_users lets_in
renew_users-Keeps s placed = append-KeepsAt s.proxy_users s.user_managers _ placed

reload_users-Keeps : (s : ApiServer) → Keeps s (reload_users s)
unfolding reload_users lets_in
reload_users-Keeps s =
    Option_lem (Keeps s) s.user_mgr (λ _ h. (h, λ _ _. refl))
      (λ _ _.
        if_lem (Keeps s) (ltb 0 (length s.cfg.users)) (λ _. renew_users-Keeps s)
          (λ _ h. (h, λ _ _. refl)))

put_to_use-Keeps : (m : Engine.Manager) (c : Config) (s : ApiServer) → Keeps s (put_to_use m c s)
unfolding put_to_use new_checker lets_in
put_to_use-Keeps m c s = reload_users-Keeps (new_checker (record s { manager = m; cfg = c }))

module _ (w : World) (s : ApiServer) where
  -- An answer and a server behind which the proxy lets in the same names and passwords.
  abbrev Kept : Response × ApiServer → Type 0
  Kept out = Keeps s (out.1)

  unchanged-Kept : (a : Response) → Kept (a, s)
  unchanged-Kept a h = (h, λ _ _. refl)

  store_config-Kept : (c : Config) → Kept (store_config w c s)
  unfolding store_config save lets_in
  store_config-Kept c = if_lem Kept w.saves (λ _ h. (h, λ _ _. refl)) (λ _ h. (h, λ _ _. refl))

  reload_with-Kept : (c : Config) → Kept (reload_with w c s)
  unfolding reload_with stop_checker lets_in
  reload_with-Kept c =
      let reloaded = Engine.reload w.starts (with_binary c s) s.manager in
      Option_lem Kept (reloaded.0)
        (λ _. put_to_use-Keeps (reloaded.1) (with_binary c s) (stop_checker s))
        (λ _ _ h. (h, λ _ _. refl))

  change_users-Kept :
      (renew : ApiServer → ApiServer) (answer : String) (us : List UserConfig)
      → ((t : ApiServer) → Keeps t (renew t))
      → Kept (change_users w renew answer us s)
  unfolding change_users save lets_in
  change_users-Kept renew answer us h = if_lem Kept w.saves (λ _. h _) (λ _ h. (h, λ _ _. refl))

  reset_at-Kept : (at : ℕ) (name : String) → Kept (reset_at at name s)
  unfolding reset_at lets_in
  reset_at-Kept at name =
      Option_lem Kept (get_elem? s.user_managers at) (λ _ h. (h, λ _ _. refl))
        (λ m em.
          Option_lem Kept (get_user name m) (λ _ h. (h, λ _ _. refl))
            (λ u eu. set-KeepsAt s.proxy_users s.user_managers at m name u em eu))

renew_or_drop-Keeps : (s : ApiServer) → Keeps s (renew_or_drop s)
unfolding renew_or_drop lets_in
renew_or_drop-Keeps s =
    if_lem (Keeps s) (ltb 0 (length s.cfg.users)) (λ _. renew_users-Keeps s)
      (λ _ h. (h, λ _ _. refl))

Served-Kept :
    (w : World) (r : Request) (s : ApiServer) (out : Response × ApiServer)
    → Served w r s out
    → Kept w s out
unfolding lets_in
Served-Kept w r s _ (same a) = unchanged-Kept w s a
Served-Kept w r s _ (stored c d b e) = store_config-Kept w s d
Served-Kept w r s _ (reloaded c e) = reload_with-Kept w s c
Served-Kept w r s _ scheduled = λ h. (h, λ _ _. refl)
Served-Kept w r s _ (restarted id m e) = λ h. (h, λ _ _. refl)
Served-Kept w r s _ (added uc e) = change_users-Kept w s renew_users _ _ renew_users-Keeps
Served-Kept w r s _ (edited uc name e) = change_users-Kept w s renew_users _ _ renew_users-Keeps
Served-Kept w r s _ (deleted name) = change_users-Kept w s renew_or_drop _ _ renew_or_drop-Keeps
Served-Kept w r s _ (reset at name) = reset_at-Kept w s at name

-- Whatever the dashboard is asked, adding, editing and deleting users included, the proxy lets in exactly the names
-- and passwords that it let in before, if its pointer to a user manager, when it has one, is one of the process.
pub serve_all-lets_in :
    (auth : Option (String × String)) (requests : List (World × Request)) (s : ApiServer)
    (name password : String)
    → IsPlaced s
    → lets_in name password (serve_all auth requests s) ≡ lets_in name password s
unfolding serve_all
serve_all-lets_in auth [] s name password h = refl
serve_all-lets_in auth ((w, r) ∷ rest) s name password h =
    let k = Served-Kept w r s (serve auth w r s) (serve-Served auth w r s) h in
    serve_all-lets_in auth rest _ name password (k.0) ∙ k.1 name password
