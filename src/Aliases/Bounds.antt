-- ===== src/Aliases/Bounds.antt =====
-- What the page sends and shows.
use imagesilo.Common.{
  ℕ, zero, suc, ◌≤◌, ◌≡◌, refl, ap, Bool, true, false, Option, none, some, List, [], ◌∷◌, All,
  nat_eq, list_eq, is_some, arith, Bool-cases, inl, inr,
}
use imagesilo.Common.Text.{Text, codes}
use imagesilo.ApiClient.{percent_of}
use imagesilo.FilterForm.{Parameters, field}
use imagesilo.Toasts.{
  Toasts, Level, loading, success, failure, show, is_loading, is_loading_level, is_loading-show,
  is_loading-notify, notify,
}
use imagesilo.Aliases.{
  ImageAlias, ChosenFile, AliasRequest, AliasPage, create_id, choose_file, send_chosen,
  create_alias, set_progress, report_progress, end_create, settle_create, resolve_alias,
  end_resolve, settle_resolve, ask_remove, dismiss_remove, send_remove, confirm_remove,
  settle_remove, AliasEvent, alias_step, run_aliases, first_aliases,
}

-- No empty file is sent.
abbrev pub IsAllowed : AliasRequest → Type 0
IsAllowed (AliasRequest.import_file path file) = 1 ≤ file.size
IsAllowed _ = Unit

pub record IsSound (page : AliasPage) : Type 0 where
  pub sent : All IsAllowed page.requests
  pub bounded : page.upload_progress ≤ 100
  pub fresh : page.create_pending ≡ true → page.created ≡ none
  pub looking : page.resolve_pending ≡ true → page.resolved ≡ none
  pub asked : page.remove_pending ≡ true → is_some page.delete_target ≡ true
  pub shown : is_loading create_id page.toasts ≡ page.create_pending

shown_create :
    (level : Level) (key : Text) (toasts : Toasts)
    → is_loading create_id (show create_id level key toasts) ≡ is_loading_level level
shown_create level key toasts = is_loading-show create_id create_id key level [] toasts

shown_notice :
    (level : Level) (key : Text) (toasts : Toasts)
    → is_loading create_id (notify level key toasts) ≡ is_loading create_id toasts
shown_notice level key toasts = is_loading-notify create_id key level toasts

percent_of-le : (loaded total percent : ℕ) → percent_of loaded total ≡ some percent → percent ≤ 100
unfolding percent_of
percent_of-le loaded zero percent e = cc
percent_of-le loaded (suc total) percent e = ground (arith, e)

choose_file-IsSound :
    (file : Option ChosenFile) (page : AliasPage) → IsSound page → IsSound (choose_file file page)
unfolding choose_file
choose_file-IsSound file page h =
    ground (arith, h.sent, h.bounded, h.fresh, h.looking, h.asked, h.shown)

send_chosen-IsSound :
    (path : Text) (file : Option ChosenFile) (page : AliasPage)
    → page.create_pending ≡ false
    → IsSound page
    → IsSound (send_chosen path file page)
send_chosen-IsSound path none page free h = h
send_chosen-IsSound path (some file) page free h = ground (
  arith,
  free,
  h.sent,
  h.bounded,
  h.fresh,
  h.looking,
  h.asked,
  h.shown,
  shown_create loading (codes "aliases.saving") page.toasts,
  shown_notice failure (codes "aliases.createFailed") page.toasts,
)

create_alias-IsSound :
    (form : Parameters) (page : AliasPage) → IsSound page → IsSound (create_alias form page)
unfolding create_alias
create_alias-IsSound form page h = elim (Bool-cases page.create_pending) [
  | inl busy ↦ ground (arith, busy, h)
  | inr free ↦
      ground (
        arith,
        free,
        send_chosen-IsSound (field (codes "path") form) page.selected_file page free h,
      )
]

set_progress-IsSound :
    (percent : Option ℕ) (page : AliasPage)
    → ((n : ℕ) → percent ≡ some n → n ≤ 100)
    → IsSound page
    → IsSound (set_progress percent page)
set_progress-IsSound none page bound h = h
set_progress-IsSound (some n) page bound h = record {
  sent = h.sent;
  bounded = bound n refl;
  fresh = h.fresh;
  looking = h.looking;
  asked = h.asked;
  shown = h.shown;
}

report_progress-IsSound :
    (loaded total : ℕ) (page : AliasPage)
    → IsSound page
    → IsSound (report_progress loaded total page)
unfolding report_progress
report_progress-IsSound loaded total page h =
    ground
      (arith, h, set_progress-IsSound (percent_of loaded total) page (percent_of-le loaded total) h)

end_create-IsSound :
    (answer : Option ImageAlias) (page : AliasPage)
    → IsSound page
    → IsSound (end_create answer page)
end_create-IsSound none page h = ground (
  arith,
  h.sent,
  h.looking,
  h.asked,
  shown_create failure (codes "aliases.createFailed") page.toasts,
)
end_create-IsSound (some value) page h = ground (
  arith,
  h.sent,
  h.looking,
  h.asked,
  shown_create success (codes "toast.aliasCreated") page.toasts,
)

settle_create-IsSound :
    (answer : Option ImageAlias) (page : AliasPage)
    → IsSound page
    → IsSound (settle_create answer page)
unfolding settle_create
settle_create-IsSound answer page h = ground (arith, h, end_create-IsSound answer page h)

resolve_alias-IsSound :
    (form : Parameters) (page : AliasPage) → IsSound page → IsSound (resolve_alias form page)
unfolding resolve_alias
resolve_alias-IsSound form page h =
    ground (arith, h.sent, h.bounded, h.fresh, h.looking, h.asked, h.shown)

end_resolve-IsSound :
    (answer : Option ImageAlias) (page : AliasPage)
    → IsSound page
    → IsSound (end_resolve answer page)
end_resolve-IsSound none page h = ground (
  arith,
  h.sent,
  h.bounded,
  h.fresh,
  h.looking,
  h.asked,
  h.shown,
  shown_notice failure (codes "aliases.notFound") page.toasts,
)
end_resolve-IsSound (some value) page h =
    ground (arith, h.sent, h.bounded, h.fresh, h.looking, h.asked, h.shown)

settle_resolve-IsSound :
    (answer : Option ImageAlias) (page : AliasPage)
    → IsSound page
    → IsSound (settle_resolve answer page)
unfolding settle_resolve
settle_resolve-IsSound answer page h = ground (arith, h, end_resolve-IsSound answer page h)

ask_remove-IsSound :
    (alias : ImageAlias) (page : AliasPage) → IsSound page → IsSound (ask_remove alias page)
unfolding ask_remove
ask_remove-IsSound alias page h =
    ground (arith, h.sent, h.bounded, h.fresh, h.looking, h.asked, h.shown)

dismiss_remove-IsSound : (page : AliasPage) → IsSound page → IsSound (dismiss_remove page)
unfolding dismiss_remove
dismiss_remove-IsSound page h =
    ground (arith, h.sent, h.bounded, h.fresh, h.looking, h.asked, h.shown)

send_remove-IsSound :
    (target : Option ImageAlias) (page : AliasPage)
    → page.delete_target ≡ target
    → IsSound page
    → IsSound (send_remove target page)
send_remove-IsSound none page e h = h
send_remove-IsSound (some alias) page e h = record {
  sent = (tt, h.sent);
  bounded = h.bounded;
  fresh = h.fresh;
  looking = h.looking;
  asked = λ pending. ap is_some e;
  shown = h.shown;
}

confirm_remove-IsSound : (page : AliasPage) → IsSound page → IsSound (confirm_remove page)
unfolding confirm_remove
confirm_remove-IsSound page h =
    ground (arith, h, send_remove-IsSound page.delete_target page refl h)

settle_remove-IsSound :
    (succeeded : Bool) (page : AliasPage) → IsSound page → IsSound (settle_remove succeeded page)
unfolding settle_remove
settle_remove-IsSound succeeded page h = ground (
  arith,
  h.sent,
  h.bounded,
  h.fresh,
  h.looking,
  h.asked,
  h.shown,
  shown_notice success (codes "toast.aliasDeleted") page.toasts,
  shown_notice failure (codes "aliases.deleteFailed") page.toasts,
)

alias_step-IsSound :
    (e : AliasEvent) (page : AliasPage) → IsSound page → IsSound (alias_step e page)
unfolding alias_step
alias_step-IsSound (AliasEvent.file_chosen file) = choose_file-IsSound file
alias_step-IsSound (AliasEvent.create_submitted form) = create_alias-IsSound form
alias_step-IsSound (AliasEvent.resolve_submitted form) = resolve_alias-IsSound form
alias_step-IsSound (AliasEvent.progressed loaded total) = report_progress-IsSound loaded total
alias_step-IsSound (AliasEvent.create_settled answer) = settle_create-IsSound answer
alias_step-IsSound (AliasEvent.resolve_settled answer) = settle_resolve-IsSound answer
alias_step-IsSound (AliasEvent.remove_asked alias) = ask_remove-IsSound alias
alias_step-IsSound AliasEvent.remove_dismissed = dismiss_remove-IsSound
alias_step-IsSound AliasEvent.remove_confirmed = confirm_remove-IsSound
alias_step-IsSound (AliasEvent.remove_settled succeeded) = settle_remove-IsSound succeeded

run_aliases-all :
    (es : List AliasEvent) (page : AliasPage) → IsSound page → IsSound (run_aliases es page)
unfolding run_aliases
run_aliases-all [] page h = h
run_aliases-all (e ∷ es) page h =
    run_aliases-all es (alias_step e page) (alias_step-IsSound e page h)

first_aliases-IsSound : IsSound first_aliases
unfolding is_loading
first_aliases-IsSound = record {
  sent = tt;
  bounded = omega arith;
  fresh = λ e. refl;
  looking = λ e. refl;
  asked = λ e. cc;
  shown = refl;
}

-- Whatever happens on the page, in whatever order: no empty file is sent; the progress is at most 100;
-- while an alias is created or looked up, no earlier result is shown; while one is deleted, the dialog
-- still names one; and the notice of the creation says that it is under way exactly while it is.
pub run_aliases-IsSound : (es : List AliasEvent) → IsSound (run_aliases es first_aliases)
run_aliases-IsSound es = run_aliases-all es first_aliases first_aliases-IsSound
