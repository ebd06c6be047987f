-- ===== src/ImageDetail/Sent.antt =====
-- What the page sends, and what its notices say, whatever is pressed.
use imagesilo.Common.{refl, List, [], ◌∷◌, nat_eq, list_eq}
use imagesilo.Common.Text.{Text}
use imagesilo.Toasts.{is_loading}
use imagesilo.ImageDetail.{ReturnState, DetailPage, return_to_list}
use imagesilo.ImageDetail.Steps.{enter, leave, DetailEvent, detail_step, run_detail, first_detail}
use imagesilo.ImageDetail.Kept.{
  IsInStep, press_visibility-IsInStep, settle_visibility-IsInStep, ask_delete-IsInStep,
  dismiss_delete-IsInStep, confirm_delete-IsInStep, answer_deletion-IsInStep,
  finish_deletion-IsInStep, ask_convert-IsInStep, dismiss_convert-IsInStep,
  confirm_convert-IsInStep, settle_conversion-IsInStep, submit_alias-IsInStep,
  answer_alias-IsInStep, finish_alias-IsInStep,
}

detail_step-IsInStep :
    (e : DetailEvent) (page : DetailPage) → IsInStep page → IsInStep (detail_step e page)
unfolding detail_step leave enter return_to_list
detail_step-IsInStep DetailEvent.back_pressed page h = record {
  requested = h.requested;
  shows = h.shows;
}
detail_step-IsInStep DetailEvent.visibility_pressed page h = press_visibility-IsInStep page h
detail_step-IsInStep DetailEvent.delete_asked page h = ask_delete-IsInStep page h
detail_step-IsInStep DetailEvent.delete_dismissed page h = dismiss_delete-IsInStep page h
detail_step-IsInStep DetailEvent.delete_confirmed page h = confirm_delete-IsInStep page h
detail_step-IsInStep DetailEvent.convert_asked page h = ask_convert-IsInStep page h
detail_step-IsInStep DetailEvent.convert_dismissed page h = dismiss_convert-IsInStep page h
detail_step-IsInStep DetailEvent.convert_confirmed page h = confirm_convert-IsInStep page h
detail_step-IsInStep DetailEvent.alias_submitted page h = submit_alias-IsInStep page h
detail_step-IsInStep (DetailEvent.visibility_settled value succeeded) page h =
    settle_visibility-IsInStep value succeeded page h
detail_step-IsInStep (DetailEvent.deletion_settled answer) page h =
    answer_deletion-IsInStep answer page h
detail_step-IsInStep (DetailEvent.conversion_ended answer) page h =
    settle_conversion-IsInStep answer page h
detail_step-IsInStep DetailEvent.deletion_finished page h = finish_deletion-IsInStep page h
detail_step-IsInStep DetailEvent.alias_finished page h = finish_alias-IsInStep page h
detail_step-IsInStep DetailEvent.left page h = record { requested = h.requested; shows = h.shows }
detail_step-IsInStep (DetailEvent.alias_typed path) page h = record {
  requested = h.requested;
  shows = h.shows;
}
detail_step-IsInStep (DetailEvent.alias_settled succeeded) page h =
    answer_alias-IsInStep succeeded page h
detail_step-IsInStep (DetailEvent.image_loaded image) page h = record {
  requested = h.requested;
  shows = h.shows;
}
detail_step-IsInStep (DetailEvent.entered key state) page h = record {
  requested = h.requested;
  shows = h.shows;
}

run_detail-all :
    (es : List DetailEvent) (page : DetailPage) → IsInStep page → IsInStep (run_detail es page)
unfolding run_detail
run_detail-all [] page h = h
run_detail-all (e ∷ es) page h =
    run_detail-all es (detail_step e page) (detail_step-IsInStep e page h)

first_detail-IsInStep : (key : Text) (state : ReturnState) → IsInStep (first_detail key state)
unfolding is_loading
first_detail-IsInStep key state = record {
  requested = tt;
  shows = record {
    visibility_shown = refl;
    delete_shown = refl;
    conversion_shown = refl;
    alias_shown = refl;
  };
}

-- Whatever is pressed and answered on the page, in whatever order: an alias is asked for only with a
-- trimmed path that is not empty; the notices of the visibility, the deletion and the conversion say that
-- they are under way exactly until their answer has come, and the one of the alias until the lists are
-- loaded again.
pub run_detail-IsInStep :
    (es : List DetailEvent) (key : Text) (state : ReturnState)
    → IsInStep (run_detail es (first_detail key state))
run_detail-IsInStep es key state =
    run_detail-all es (first_detail key state) (first_detail-IsInStep key state)
