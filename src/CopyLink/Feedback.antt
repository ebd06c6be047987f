-- ===== src/CopyLink/Feedback.antt =====
-- The control says "copied" only of what it has copied.
use imagesilo.Common.{
  ℕ, ◌≡◌, refl, ap, Bool, true, false, Option, none, some, List, [], ◌∷◌, length, ltb, nat_eq,
  list_eq, eq_iff, is_some, arith, and_left,
}
use imagesilo.Common.Text.{Text}
use imagesilo.ImageLinks.{LinkableImage}
use imagesilo.Storage.{Storage}
use imagesilo.CopyLink.{
  CopyControl, is_same, shown_text, is_copied, start_copy, end_copy, finish_copy, fire_timer,
  choose_format, toggle_menu, CopyEvent, copy_step, run_copy, first_control,
}

-- What the control takes for copied is what it has written, and the timer that takes it back runs.
record IsBacked (control : CopyControl) : Type 0 where
  backed : (text : Text) → control.copied_text ≡ some text → control.written ≡ some text
  timed : is_some control.copied_text ≡ true → control.feedback_timer ≡ true

module _ (resolve : Text → Text) where
  start_copy-IsBacked :
      (control : CopyControl) → IsBacked control → IsBacked (start_copy resolve control)
  start_copy-IsBacked control h = record {
    backed = λ text. unfold start_copy in ground (arith, h.backed text);
    timed = unfold start_copy in ground (arith, h.timed);
  }

  end_copy-IsBacked :
      (succeeded : Bool) (text : Option (Text × ℕ)) (control : CopyControl)
      → IsBacked control
      → IsBacked (end_copy resolve succeeded text control)
  end_copy-IsBacked succeeded none control h = h
  end_copy-IsBacked true (some (text, count)) control h = record {
    backed = λ other e. e;
    timed = λ e. refl;
  }
  end_copy-IsBacked false (some (text, count)) control h = record {
    backed = λ other e. cc;
    timed = λ e. cc;
  }

  fire_timer-IsBacked :
      (control : CopyControl) → IsBacked control → IsBacked (fire_timer resolve control)
  fire_timer-IsBacked control h = record {
    backed = λ text. unfold fire_timer in ground (arith, h.backed text);
    timed = unfold fire_timer in ground (arith, h.timed);
  }

  copy_step-IsBacked :
      (e : CopyEvent resolve) (control : CopyControl)
      → IsBacked control
      → IsBacked (copy_step resolve e control)
  unfolding copy_step finish_copy toggle_menu choose_format
  copy_step-IsBacked CopyEvent.press control = start_copy-IsBacked control
  copy_step-IsBacked (CopyEvent.finished succeeded) control =
      end_copy-IsBacked succeeded control.copying control
  copy_step-IsBacked CopyEvent.timer_fired control = fire_timer-IsBacked control
  copy_step-IsBacked CopyEvent.menu_pressed control =
      λ h. record { backed = h.backed; timed = h.timed }
  copy_step-IsBacked (CopyEvent.format_chosen format) control =
      λ h. record { backed = h.backed; timed = h.timed }
  copy_step-IsBacked (CopyEvent.images_changed images) control =
      λ h. record { backed = h.backed; timed = h.timed }

  run_copy-IsBacked :
      (es : List (CopyEvent resolve)) (control : CopyControl)
      → IsBacked control
      → IsBacked (run_copy resolve es control)
  unfolding run_copy
  run_copy-IsBacked [] control h = h
  run_copy-IsBacked (e ∷ es) control h =
      run_copy-IsBacked es (copy_step resolve e control) (copy_step-IsBacked e control h)

  same_text : (text : Text) (copied : Option Text) → is_same text copied ≡ true → copied ≡ some text
  same_text text none h = cc
  same_text text (some copied) h = ap some ((eq_iff copied text).0 h)

  -- Whatever is pressed, and whatever images and formats are chosen before a write ends: where the
  -- control says "copied", the text of the links that it shows now is the one that it has last put on
  -- the clipboard, and the timer runs that will take the feedback back.
  pub is_copied_lem :
      (es : List (CopyEvent resolve)) (images : List LinkableImage) (storage : Storage)
      → is_copied resolve (run_copy resolve es (first_control images storage)) ≡ true
      → ((run_copy resolve es (first_control images storage)).written
          ≡ some (shown_text resolve (run_copy resolve es (first_control images storage))))
        × ((run_copy resolve es (first_control images storage)).feedback_timer ≡ true)
  unfolding is_copied first_control
  is_copied_lem es images storage copied =
      let control = run_copy resolve es (first_control images storage) in
      let h =
        run_copy-IsBacked es (first_control images storage)
          (record { backed = λ text e. cc; timed = λ e. cc }) in
      let same = same_text (shown_text resolve control) control.copied_text (
        and_left (is_same (shown_text resolve control) control.copied_text)
          (ltb 0 (length control.images)) copied) in
      (h.backed (shown_text resolve control) same, h.timed (ap is_some same))
