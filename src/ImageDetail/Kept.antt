-- ===== src/ImageDetail/Kept.antt =====
-- What each step of the page keeps: what it sends, and what its notices say.
use imagesilo.Common.{
  ◌≡◌, ◌∙◌, Bool, true, false, not, Option, none, some, [], All, ◌==◌, nat_eq, list_eq, arith,
  Bool-cases, inl, inr,
}
use imagesilo.Common.Text.{Text, codes, trim, trim_idem}
use imagesilo.Api.{Visibility, Image}
use imagesilo.Toasts.{
  Toasts, Level, loading, success, failure, show, is_loading, is_loading_level, is_loading-show,
}
use imagesilo.ImageDetail.{
  is_idle, is_sent, DetailRequest, DetailPage, visibility_id, delete_id, conversion_id, alias_id,
  send_visibility, press_visibility, settle_visibility, ask_delete, dismiss_delete, confirm_delete,
  deletion_answered, answer_deletion, finish_deletion,
}
use imagesilo.ImageDetail.Steps.{
  ask_convert, dismiss_convert, confirm_convert, conversion_settled, settle_conversion,
  submit_alias, alias_answered, answer_alias, finish_alias,
}

-- An alias is created for a path that is not blank, without white space at its ends.
abbrev pub IsAllowed : DetailRequest → Type 0
IsAllowed (DetailRequest.create_alias path) = ((path == []) ≡ false) × (trim path ≡ path)
IsAllowed _ = Unit

-- Which of the four notices say that something is under way.
pub record Shows (visibility deletion conversion alias : Bool) (toasts : Toasts) : Type 0 where
  pub visibility_shown : is_loading visibility_id toasts ≡ visibility
  pub delete_shown : is_loading delete_id toasts ≡ deletion
  pub conversion_shown : is_loading conversion_id toasts ≡ conversion
  pub alias_shown : is_loading alias_id toasts ≡ alias

pub record IsInStep (page : DetailPage) : Type 0 where
  pub requested : All IsAllowed page.requests
  pub shows :
      Shows
        (is_sent page.visibility)
        (is_sent page.deletion)
        (is_sent page.conversion)
        (not (is_idle page.alias_creation))
        page.toasts

module _ {a b c d : Bool} (key : Text) (level : Level) (toasts : Toasts)
    (h : Shows a b c d toasts) where
  show_visibility : Shows (is_loading_level level) b c d (show visibility_id level key toasts)
  show_visibility = record {
    visibility_shown = is_loading-show visibility_id visibility_id key level [] toasts;
    delete_shown = is_loading-show visibility_id delete_id key level [] toasts ∙ h.delete_shown;
    conversion_shown =
        is_loading-show visibility_id conversion_id key level [] toasts ∙ h.conversion_shown;
    alias_shown = is_loading-show visibility_id alias_id key level [] toasts ∙ h.alias_shown;
  }

  show_delete : Shows a (is_loading_level level) c d (show delete_id level key toasts)
  show_delete = record {
    visibility_shown =
        is_loading-show delete_id visibility_id key level [] toasts ∙ h.visibility_shown;
    delete_shown = is_loading-show delete_id delete_id key level [] toasts;
    conversion_shown =
        is_loading-show delete_id conversion_id key level [] toasts ∙ h.conversion_shown;
    alias_shown = is_loading-show delete_id alias_id key level [] toasts ∙ h.alias_shown;
  }

  show_conversion : Shows a b (is_loading_level level) d (show conversion_id level key toasts)
  show_conversion = record {
    visibility_shown =
        is_loading-show conversion_id visibility_id key level [] toasts ∙ h.visibility_shown;
    delete_shown = is_loading-show conversion_id delete_id key level [] toasts ∙ h.delete_shown;
    conversion_shown = is_loading-show conversion_id conversion_id key level [] toasts;
    alias_shown = is_loading-show conversion_id alias_id key level [] toasts ∙ h.alias_shown;
  }

  show_alias : Shows a b c (is_loading_level level) (show alias_id level key toasts)
  show_alias = record {
    visibility_shown =
        is_loading-show alias_id visibility_id key level [] toasts ∙ h.visibility_shown;
    delete_shown = is_loading-show alias_id delete_id key level [] toasts ∙ h.delete_shown;
    conversion_shown =
        is_loading-show alias_id conversion_id key level [] toasts ∙ h.conversion_shown;
    alias_shown = is_loading-show alias_id alias_id key level [] toasts;
  }

pub send_visibility-IsInStep :
    (image : Option Image) (page : DetailPage)
    → IsInStep page
    → IsInStep (send_visibility image page)
send_visibility-IsInStep none page h = h
send_visibility-IsInStep (some image) page h = record {
  requested = (tt, h.requested);
  shows = show_visibility (codes "common.working") loading page.toasts h.shows;
}

pub press_visibility-IsInStep :
    (page : DetailPage) → IsInStep page → IsInStep (press_visibility page)
unfolding press_visibility
press_visibility-IsInStep page h =
    ground (arith, h.requested, h.shows, send_visibility-IsInStep page.image page h)

pub settle_visibility-IsInStep :
    (value : Visibility) (succeeded : Bool) (page : DetailPage)
    → IsInStep page
    → IsInStep (settle_visibility value succeeded page)
unfolding settle_visibility
settle_visibility-IsInStep Visibility.public succeeded page h = ground (
  arith,
  h.requested,
  h.shows,
  show_visibility (codes "toast.imagePublic") success page.toasts h.shows,
  show_visibility (codes "toast.operationFailed") failure page.toasts h.shows,
)
settle_visibility-IsInStep Visibility.private succeeded page h = ground (
  arith,
  h.requested,
  h.shows,
  show_visibility (codes "toast.imagePrivate") success page.toasts h.shows,
  show_visibility (codes "toast.operationFailed") failure page.toasts h.shows,
)

pub ask_delete-IsInStep : (page : DetailPage) → IsInStep page → IsInStep (ask_delete page)
unfolding ask_delete
ask_delete-IsInStep page h = ground (arith, h.requested, h.shows)

pub dismiss_delete-IsInStep : (page : DetailPage) → IsInStep page → IsInStep (dismiss_delete page)
unfolding dismiss_delete
dismiss_delete-IsInStep page h = ground (arith, h.requested, h.shows)

pub confirm_delete-IsInStep : (page : DetailPage) → IsInStep page → IsInStep (confirm_delete page)
unfolding confirm_delete
confirm_delete-IsInStep page h =
    ground (
      arith,
      h.requested,
      h.shows,
      show_delete (codes "common.working") loading page.toasts h.shows,
    )

pub deletion_answered-IsInStep :
    (answer : Option Bool) (page : DetailPage)
    → IsInStep page
    → IsInStep (deletion_answered answer page)
deletion_answered-IsInStep none page h = record {
  requested = h.requested;
  shows = show_delete (codes "toast.operationFailed") failure page.toasts h.shows;
}
deletion_answered-IsInStep (some true) page h = record {
  requested = h.requested;
  shows = show_delete (codes "toast.imageDeletedCleanup") success page.toasts h.shows;
}
deletion_answered-IsInStep (some false) page h = record {
  requested = h.requested;
  shows = show_delete (codes "toast.imageDeleted") success page.toasts h.shows;
}

pub answer_deletion-IsInStep :
    (answer : Option Bool) (page : DetailPage)
    → IsInStep page
    → IsInStep (answer_deletion answer page)
unfolding answer_deletion
answer_deletion-IsInStep answer page h =
    ground (arith, h.requested, h.shows, deletion_answered-IsInStep answer page h)

pub finish_deletion-IsInStep : (page : DetailPage) → IsInStep page → IsInStep (finish_deletion page)
unfolding finish_deletion
finish_deletion-IsInStep page h = ground (arith, h.requested, h.shows)

pub ask_convert-IsInStep : (page : DetailPage) → IsInStep page → IsInStep (ask_convert page)
unfolding ask_convert
ask_convert-IsInStep page h = ground (arith, h.requested, h.shows)

pub dismiss_convert-IsInStep : (page : DetailPage) → IsInStep page → IsInStep (dismiss_convert page)
unfolding dismiss_convert
dismiss_convert-IsInStep page h = ground (arith, h.requested, h.shows)

pub confirm_convert-IsInStep : (page : DetailPage) → IsInStep page → IsInStep (confirm_convert page)
unfolding confirm_convert
confirm_convert-IsInStep page h = ground (
  arith,
  h.requested,
  h.shows,
  show_conversion (codes "common.working") loading page.toasts h.shows,
)

pub conversion_settled-IsInStep :
    (answer : Option Bool) (page : DetailPage)
    → IsInStep page
    → IsInStep (conversion_settled answer page)
conversion_settled-IsInStep none page h = record {
  requested = h.requested;
  shows = show_conversion (codes "toast.webpFailed") failure page.toasts h.shows;
}
conversion_settled-IsInStep (some true) page h = record {
  requested = h.requested;
  shows = show_conversion (codes "toast.webpConvertedCleanup") success page.toasts h.shows;
}
conversion_settled-IsInStep (some false) page h = record {
  requested = h.requested;
  shows = show_conversion (codes "toast.webpConverted") success page.toasts h.shows;
}

pub settle_conversion-IsInStep :
    (answer : Option Bool) (page : DetailPage)
    → IsInStep page
    → IsInStep (settle_conversion answer page)
unfolding settle_conversion
settle_conversion-IsInStep answer page h =
    ground (arith, h.requested, h.shows, conversion_settled-IsInStep answer page h)

pub submit_alias-IsInStep : (page : DetailPage) → IsInStep page → IsInStep (submit_alias page)
unfolding submit_alias
submit_alias-IsInStep page h = ground (
  arith,
  h.requested,
  h.shows,
  trim_idem page.alias_path,
  show_alias (codes "images.aliasSaving") loading page.toasts h.shows,
)

pub alias_answered-IsInStep :
    (succeeded : Bool) (page : DetailPage)
    → is_sent page.alias_creation ≡ true
    → IsInStep page
    → IsInStep (alias_answered succeeded page)
alias_answered-IsInStep true page e h = ground (arith, e, h.requested, h.shows)
alias_answered-IsInStep false page e h = record {
  requested = h.requested;
  shows = show_alias (codes "images.aliasCreateFailed") failure page.toasts h.shows;
}

pub answer_alias-IsInStep :
    (succeeded : Bool) (page : DetailPage) → IsInStep page → IsInStep (answer_alias succeeded page)
unfolding answer_alias
answer_alias-IsInStep succeeded page h = elim (Bool-cases (is_sent page.alias_creation)) [
  | inl waiting ↦ rw waiting (alias_answered-IsInStep succeeded page waiting h)
  | inr other ↦ rw other h
]

pub finish_alias-IsInStep : (page : DetailPage) → IsInStep page → IsInStep (finish_alias page)
unfolding finish_alias
finish_alias-IsInStep page h = ground (
  arith,
  h.requested,
  h.shows,
  show_alias (codes "toast.aliasCreated") success page.toasts h.shows,
)
