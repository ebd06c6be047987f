-- ===== src/ImageDetail/Leaving.antt =====
-- A deletion that ends after the page was left.
use imagesilo.Common.{
  ◌≡◌, refl, Bool, true, false, Option, none, some, List, [], ◌∷◌, All, nat_eq, list_eq, arith,
}
use imagesilo.Api.{Visibility, Image}
use imagesilo.ImageDetail.{
  Navigation, DetailPage, send_visibility, press_visibility, settle_visibility, ask_delete,
  dismiss_delete, confirm_delete, deletion_answered, answer_deletion, finish_deletion,
}
use imagesilo.ImageDetail.Steps.{
  ask_convert, dismiss_convert, confirm_convert, conversion_settled, settle_conversion,
  submit_alias, alias_answered, answer_alias, finish_alias, leave, DetailEvent, detail_step,
  run_detail,
}

-- Neither the button back nor a new entry of the history.
abbrev pub IsAway : DetailEvent → Type 0
IsAway DetailEvent.back_pressed = ⊥
IsAway (DetailEvent.entered _ _) = ⊥
IsAway _ = Unit

record IsLeft (navigations : List Navigation) (page : DetailPage) : Type 0 where
  no_entry : page.current_entry ≡ none
  unchanged : page.navigations ≡ navigations

module _ (navigations : List Navigation) where
  send_visibility-IsLeft :
      (image : Option Image) (page : DetailPage)
      → IsLeft navigations page
      → IsLeft navigations (send_visibility image page)
  send_visibility-IsLeft none page h = h
  send_visibility-IsLeft (some image) page h = record {
    no_entry = h.no_entry;
    unchanged = h.unchanged;
  }

  press_visibility-IsLeft :
      (page : DetailPage) → IsLeft navigations page → IsLeft navigations (press_visibility page)
  unfolding press_visibility
  press_visibility-IsLeft page h =
      ground (arith, h.no_entry, h.unchanged, send_visibility-IsLeft page.image page h)

  settle_visibility-IsLeft :
      (value : Visibility) (succeeded : Bool) (page : DetailPage)
      → IsLeft navigations page
      → IsLeft navigations (settle_visibility value succeeded page)
  unfolding settle_visibility
  settle_visibility-IsLeft value succeeded page h = ground (arith, h.no_entry, h.unchanged)

  ask_delete-IsLeft :
      (page : DetailPage) → IsLeft navigations page → IsLeft navigations (ask_delete page)
  unfolding ask_delete
  ask_delete-IsLeft page h = ground (arith, h.no_entry, h.unchanged)

  dismiss_delete-IsLeft :
      (page : DetailPage) → IsLeft navigations page → IsLeft navigations (dismiss_delete page)
  unfolding dismiss_delete
  dismiss_delete-IsLeft page h = ground (arith, h.no_entry, h.unchanged)

  confirm_delete-IsLeft :
      (page : DetailPage) → IsLeft navigations page → IsLeft navigations (confirm_delete page)
  unfolding confirm_delete
  confirm_delete-IsLeft page h = ground (arith, h.no_entry, h.unchanged)

  deletion_answered-IsLeft :
      (answer : Option Bool) (page : DetailPage)
      → IsLeft navigations page
      → IsLeft navigations (deletion_answered answer page)
  deletion_answered-IsLeft none page h = record { no_entry = h.no_entry; unchanged = h.unchanged }
  deletion_answered-IsLeft (some cleanup_pending) page h = record {
    no_entry = h.no_entry;
    unchanged = h.unchanged;
  }

  answer_deletion-IsLeft :
      (answer : Option Bool) (page : DetailPage)
      → IsLeft navigations page
      → IsLeft navigations (answer_deletion answer page)
  unfolding answer_deletion
  answer_deletion-IsLeft answer page h =
      ground (arith, h.no_entry, h.unchanged, deletion_answered-IsLeft answer page h)

  conversion_settled-IsLeft :
      (answer : Option Bool) (page : DetailPage)
      → IsLeft navigations page
      → IsLeft navigations (conversion_settled answer page)
  conversion_settled-IsLeft none page h = record { no_entry = h.no_entry; unchanged = h.unchanged }
  conversion_settled-IsLeft (some cleanup_pending) page h = record {
    no_entry = h.no_entry;
    unchanged = h.unchanged;
  }

  settle_conversion-IsLeft :
      (answer : Option Bool) (page : DetailPage)
      → IsLeft navigations page
      → IsLeft navigations (settle_conversion answer page)
  unfolding settle_conversion
  settle_conversion-IsLeft answer page h =
      ground (arith, h.no_entry, h.unchanged, conversion_settled-IsLeft answer page h)

  alias_answered-IsLeft :
      (answer : Bool) (page : DetailPage)
      → IsLeft navigations page
      → IsLeft navigations (alias_answered answer page)
  alias_answered-IsLeft true page h = record { no_entry = h.no_entry; unchanged = h.unchanged }
  alias_answered-IsLeft false page h = record { no_entry = h.no_entry; unchanged = h.unchanged }

  answer_alias-IsLeft :
      (answer : Bool) (page : DetailPage)
      → IsLeft navigations page
      → IsLeft navigations (answer_alias answer page)
  unfolding answer_alias
  answer_alias-IsLeft answer page h =
      ground (arith, h.no_entry, h.unchanged, alias_answered-IsLeft answer page h)

  finish_deletion-IsLeft :
      (page : DetailPage) → IsLeft navigations page → IsLeft navigations (finish_deletion page)
  unfolding finish_deletion
  finish_deletion-IsLeft page h = ground (arith, h.no_entry, h.unchanged)

  ask_convert-IsLeft :
      (page : DetailPage) → IsLeft navigations page → IsLeft navigations (ask_convert page)
  unfolding ask_convert
  ask_convert-IsLeft page h = ground (arith, h.no_entry, h.unchanged)

  dismiss_convert-IsLeft :
      (page : DetailPage) → IsLeft navigations page → IsLeft navigations (dismiss_convert page)
  unfolding dismiss_convert
  dismiss_convert-IsLeft page h = ground (arith, h.no_entry, h.unchanged)

  confirm_convert-IsLeft :
      (page : DetailPage) → IsLeft navigations page → IsLeft navigations (confirm_convert page)
  unfolding confirm_convert
  confirm_convert-IsLeft page h = ground (arith, h.no_entry, h.unchanged)

  submit_alias-IsLeft :
      (page : DetailPage) → IsLeft navigations page → IsLeft navigations (submit_alias page)
  unfolding submit_alias
  submit_alias-IsLeft page h = ground (arith, h.no_entry, h.unchanged)

  finish_alias-IsLeft :
      (page : DetailPage) → IsLeft navigations page → IsLeft navigations (finish_alias page)
  unfolding finish_alias
  finish_alias-IsLeft page h = ground (arith, h.no_entry, h.unchanged)

  detail_step-IsLeft :
      (e : DetailEvent) (page : DetailPage)
      → IsAway e
      → IsLeft navigations page
      → IsLeft navigations (detail_step e page)
  unfolding detail_step leave
  detail_step-IsLeft DetailEvent.back_pressed page away h = absurd away
  detail_step-IsLeft DetailEvent.visibility_pressed page away h = press_visibility-IsLeft page h
  detail_step-IsLeft DetailEvent.delete_asked page away h = ask_delete-IsLeft page h
  detail_step-IsLeft DetailEvent.delete_dismissed page away h = dismiss_delete-IsLeft page h
  detail_step-IsLeft DetailEvent.delete_confirmed page away h = confirm_delete-IsLeft page h
  detail_step-IsLeft DetailEvent.convert_asked page away h = ask_convert-IsLeft page h
  detail_step-IsLeft DetailEvent.convert_dismissed page away h = dismiss_convert-IsLeft page h
  detail_step-IsLeft DetailEvent.convert_confirmed page away h = confirm_convert-IsLeft page h
  detail_step-IsLeft DetailEvent.alias_submitted page away h = submit_alias-IsLeft page h
  detail_step-IsLeft (DetailEvent.visibility_settled value succeeded) page away h =
      settle_visibility-IsLeft value succeeded page h
  detail_step-IsLeft (DetailEvent.deletion_settled answer) page away h =
      answer_deletion-IsLeft answer page h
  detail_step-IsLeft (DetailEvent.conversion_ended answer) page away h =
      settle_conversion-IsLeft answer page h
  detail_step-IsLeft DetailEvent.deletion_finished page away h = finish_deletion-IsLeft page h
  detail_step-IsLeft DetailEvent.alias_finished page away h = finish_alias-IsLeft page h
  detail_step-IsLeft DetailEvent.left page away h = record {
    no_entry = refl;
    unchanged = h.unchanged;
  }
  detail_step-IsLeft (DetailEvent.alias_typed path) page away h = record {
    no_entry = h.no_entry;
    unchanged = h.unchanged;
  }
  detail_step-IsLeft (DetailEvent.alias_settled succeeded) page away h =
      answer_alias-IsLeft succeeded page h
  detail_step-IsLeft (DetailEvent.image_loaded image) page away h = record {
    no_entry = h.no_entry;
    unchanged = h.unchanged;
  }
  detail_step-IsLeft (DetailEvent.entered key state) page away h = absurd away

  run_detail-IsLeft :
      (es : List DetailEvent) (page : DetailPage)
      → All IsAway es
      → IsLeft navigations page
      → IsLeft navigations (run_detail es page)
  unfolding run_detail
  run_detail-IsLeft [] page away h = h
  run_detail-IsLeft (e ∷ es) page away h =
      run_detail-IsLeft es (detail_step e page) away.1 (detail_step-IsLeft e page away.0 h)

-- Once the history has moved on or the page is gone, and until a new entry is shown or the button back is
-- pressed, nothing that ends or is pressed on the page navigates: a deletion that ends late does not take
-- the user away from where they are.
pub leave-run_detail :
    (es : List DetailEvent) (page : DetailPage)
    → All IsAway es
    → (run_detail es (leave page)).navigations ≡ page.navigations
leave-run_detail es page away =
    (run_detail-IsLeft page.navigations es (leave page) away
      (unfold leave in record { no_entry = refl; unchanged = refl })).unchanged
