-- ===== src/Gui/UserChanges.antt =====
-- internal/gui/handlers.go: what is changed when a user is added, edited or deleted.
use Prim.Native.String.{String}
use text.Mathlib.Text.{◌==◌ as str_eq}
use slip_stream_plus.Prelude.{
  suc, ◌≡◌, inl, inr, refl, ap, sym, ◌∙◌, true, false, ◌||◌, List, [], ◌∷◌, ◌++◌, ltb, length,
  if◌then◌else◌, Option, none, some, get_elem?, arith, if_lem, Bool-cases, length-append,
}
use slip_stream_plus.Prelude.Maps.{eqb-true, string_key}
use slip_stream_plus.Config.Validation.{Config}
use slip_stream_plus.Users.{UserConfig, Manager, new_manager}
use slip_stream_plus.Gui.{ApiServer, World, Response, deref, renew_users, save}
use slip_stream_plus.Gui.Handlers.{
  change_users, renew_or_drop, add_user, without_user, edit_user, delete_user, has_name,
  replace_user,
}

pub data Change : Type 0 where
  addition : UserConfig → Change
  edit : UserConfig → String → Change
  removal : String → Change

-- The handler's answer to the request for a change.
unfoldable pub change : World → Change → ApiServer → Response × ApiServer
unfolding add_user edit_user delete_user
change w (addition uc) s = add_user w uc s
change w (edit uc name) s = edit_user w uc name s
change w (removal name) s = delete_user w name s

unfoldable pub find_user : String → List UserConfig → Option UserConfig
find_user name [] = none
find_user name (u ∷ us) = if str_eq u.username name then some u else find_user name us

-- The entry that a name has behind a change, from the one it had: the change gives its user the entry that was sent,
-- or none, and the others keep theirs.
unfoldable pub wanted : Change → String → Option UserConfig → Option UserConfig
wanted (addition uc) other before = if str_eq uc.username other then some uc else before
wanted (edit uc name) other before =
    if str_eq name other then some (record uc { username = name }) else before
wanted (removal name) other before = if str_eq name other then none else before

find_user-none :
    (name : String) (us : List UserConfig) → has_name name us ≡ false → find_user name us ≡ none
unfolding has_name find_user
find_user-none name [] h = refl
find_user-none name (u ∷ us) h = elim (Bool-cases (str_eq u.username name)) [
  | inl e ↦ absurd (ground (arith, rw (e) at h))
  | inr e ↦ rw (e) (find_user-none name us (rw (has_name, e) at h))
]

find_user-append :
    (other : String) (uc : UserConfig) (us : List UserConfig)
    → has_name uc.username us ≡ false
    → find_user other (us ++ (uc ∷ [])) ≡ wanted (addition uc) other (find_user other us)
unfolding has_name find_user wanted
find_user-append other uc [] h = refl
find_user-append other uc (u ∷ us) h = elim (Bool-cases (str_eq u.username other)) [
  | inl e ↦ (elim (Bool-cases (str_eq uc.username other)) [
    | inl f ↦
        let same : str_eq u.username uc.username ≡ true = cc (e, eqb-true uc.username other f) in
        absurd (ground (arith, rw (same) at h))
    | inr f ↦ rw (e, f) refl
  ])
  | inr e ↦ (elim (Bool-cases (str_eq u.username uc.username)) [
    | inl f ↦ absurd (ground (arith, rw (f) at h))
    | inr f ↦ rw (e) (find_user-append other uc us (rw (has_name, f) at h))
  ])
]

find_user-replace_user :
    (other : String) (uc : UserConfig) (name : String) (us : List UserConfig)
    → has_name name us ≡ true
    → find_user other (replace_user uc name us) ≡ wanted (edit uc name) other (find_user other us)
unfolding has_name find_user wanted replace_user
find_user-replace_user other uc name [] h = absurd (cc)
find_user-replace_user other uc name (u ∷ us) h = elim (Bool-cases (str_eq u.username name)) [
  | inl e ↦ (elim (Bool-cases (str_eq name other)) [
    | inl f ↦ rw (e, f) refl
    | inr f ↦
        let others : str_eq u.username other ≡ false = cc (eqb-true u.username name e, f) in
        rw (e, f, others) refl
  ])
  | inr e ↦
      let more = find_user-replace_user other uc name us (rw (has_name, e) at h) in
      (elim (Bool-cases (str_eq u.username other)) [
        | inr f ↦ rw (e, f) more
        | inl f ↦ (elim (Bool-cases (str_eq name other)) [
          | inr g ↦ rw (e, f, g) refl
          | inl g ↦ absurd (cc (eqb-true name other g, e, f))
        ])
      ])
]

find_user-without_user :
    (other name : String) (us : List UserConfig)
    → find_user other (without_user name us) ≡ wanted (removal name) other (find_user other us)
unfolding find_user wanted without_user
find_user-without_user other name [] =
    if_lem (λ (o : Option UserConfig). none ≡ o) (str_eq name other) (λ _. refl) (λ _. refl)
find_user-without_user other name (u ∷ us) =
    let more = find_user-without_user other name us in
    elim (Bool-cases (str_eq u.username name)) [
      | inl e ↦ (elim (Bool-cases (str_eq name other)) [
        | inl f ↦ rw (e, f) (more ∙ rw (f) refl)
        | inr f ↦
            let others : str_eq u.username other ≡ false = cc (eqb-true u.username name e, f) in
            rw (e, f, others) (more ∙ rw (f) refl)
      ])
      | inr e ↦ (elim (Bool-cases (str_eq u.username other)) [
        | inr f ↦ rw (e, f) more
        | inl f ↦ (elim (Bool-cases (str_eq name other)) [
          | inr g ↦ rw (e, f, g) refl
          | inl g ↦ absurd (cc (eqb-true name other g, e, f))
        ])
      ])
    ]

-- The server's user manager is a new one for the users of its configuration, or none if there are no users.
abbrev pub IsInStep : ApiServer → Type 0
IsInStep s =
    deref s.user_mgr s.user_managers
    ≡ (if ltb 0 (length s.cfg.users) then some (new_manager s.cfg.users) else none)

get_elem?-last : (ms : List Manager) (m : Manager) → get_elem? (ms ++ (m ∷ [])) (length ms) ≡ some m
get_elem?-last [] m = refl
get_elem?-last (n ∷ ms) m = get_elem?-last ms m

renew_users-IsInStep :
    (s : ApiServer) → ltb 0 (length s.cfg.users) ≡ true → IsInStep (renew_users s)
unfolding renew_users deref
renew_users-IsInStep s h = rw (h) (get_elem?-last s.user_managers _)

renew_or_drop-IsInStep : (s : ApiServer) → IsInStep (renew_or_drop s)
unfolding renew_or_drop deref
renew_or_drop-IsInStep s =
    if_lem IsInStep (ltb 0 (length s.cfg.users)) (λ h. renew_users-IsInStep s h) (λ h. rw (h) refl)

-- What is left of the configuration and its file.
abbrev SameFile : ApiServer → ApiServer → Type 0
SameFile s t = (t.cfg ≡ s.cfg) × t.file ≡ s.file

renew_or_drop-SameFile : (s : ApiServer) → SameFile s (renew_or_drop s)
unfolding renew_or_drop renew_users
renew_or_drop-SameFile s =
    if_lem (SameFile s) (ltb 0 (length s.cfg.users)) (λ _. (refl, refl)) (λ _. (refl, refl))

-- A change that is answered with 200 has been made and saved, and is in step.
abbrev IsDone : String → Option UserConfig → Response × ApiServer → Type 0
IsDone other want out =
    out.0.0 ≡ 200
    → (find_user other out.1.cfg.users ≡ want) × (out.1.file ≡ some out.1.cfg) × IsInStep out.1

change_users-IsDone :
    (w : World) (renew : ApiServer → ApiServer) (answer : String) (us : List UserConfig)
    (s : ApiServer) (other : String) (want : Option UserConfig)
    → ((t : ApiServer) → SameFile t (renew t))
    → ((t : ApiServer) → t.cfg.users ≡ us → IsInStep (renew t))
    → find_user other us ≡ want
    → IsDone other want (change_users w renew answer us s)
unfolding change_users save
change_users-IsDone w renew answer us s other want kept step made =
    if_lem (IsDone other want) w.saves
      (λ saves _.
        let k = kept (record s {
          cfg = record s.cfg { users = us };
          file = if w.saves then some (record s.cfg { users = us }) else none;
        }) in
        (
          ap (λ (c : Config). find_user other c.users) (k.0) ∙ made,
          k.1 ∙ rw (saves) refl ∙ ap (λ (c : Config). some c) (sym (k.0)),
          step _ refl,
        ))
      (λ _ e. absurd (omega (arith, e)))

-- An addition or a change leaves a user.
length-replace_user :
    (uc : UserConfig) (name : String) (us : List UserConfig)
    → length (replace_user uc name us) ≡ length us
unfolding replace_user
length-replace_user uc name [] = refl
length-replace_user uc name (u ∷ us) =
    if_lem (λ (l : List UserConfig). length l ≡ suc (length us)) (str_eq u.username name)
      (λ _. refl) (λ _. ap suc (length-replace_user uc name us))

has_name-length :
    (name : String) (us : List UserConfig) → has_name name us ≡ true → ltb 0 (length us) ≡ true
unfolding has_name
has_name-length name [] h = absurd (cc)
has_name-length name (u ∷ us) h = ground arith

-- When the addition, the edit or the deletion of a user is answered with 200, its user has the entry that was sent,
-- under the name it had, or none if it was deleted, and every other name has the entry it had; the file holds the
-- configuration, and the server's user manager is a new one for the users of the configuration, or none when no
-- user is left.
pub change-IsInStep :
    (w : World) (c : Change) (other : String) (s : ApiServer)
    → (change w c s).0.0 ≡ 200
    → let t = (change w c s).1 in
      (find_user other t.cfg.users ≡ wanted c other (find_user other s.cfg.users))
      × (t.file ≡ some t.cfg)
      × IsInStep t
unfolding change add_user edit_user delete_user
change-IsInStep w (addition uc) other s =
    let P = IsDone other (wanted (addition uc) other (find_user other s.cfg.users)) in
    if_lem P (str_eq uc.username "" || str_eq uc.password "") (λ _ e. absurd (omega (arith, e)))
      (λ _.
        if_lem P (has_name uc.username s.cfg.users) (λ _ e. absurd (omega (arith, e)))
          (λ h.
            change_users-IsDone w renew_users "added" _ s other _
              (λ _. unfold renew_users in (refl, refl))
              (λ t e.
                renew_users-IsInStep t
                  (rw (e) (ground (arith, length-append s.cfg.users (uc ∷ [])))))
              (find_user-append other uc s.cfg.users h)))
change-IsInStep w (edit uc name) other s =
    if_lem (IsDone other (wanted (edit uc name) other (find_user other s.cfg.users)))
      (has_name name s.cfg.users)
      (λ h.
        change_users-IsDone w renew_users "updated" _ s other _
          (λ _. unfold renew_users in (refl, refl))
          (λ t e.
            renew_users-IsInStep t (
              rw (e, length-replace_user uc name s.cfg.users) (has_name-length name s.cfg.users h)))
          (find_user-replace_user other uc name s.cfg.users h))
      (λ _ e. absurd (omega (arith, e)))
change-IsInStep w (removal name) other s =
    change_users-IsDone w renew_or_drop "deleted" _ s other _ renew_or_drop-SameFile
      (λ t _. renew_or_drop-IsInStep t) (find_user-without_user other name s.cfg.users)
