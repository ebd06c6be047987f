-- ===== src/CopyLink.antt =====
-- The control that copies links, web/src/components/ui/copy-link-control.tsx. The clipboard is the
-- browser's: a write ends or fails later, with the text that was current when it began.
pub mod Feedback
mod Examples
use imagesilo.Common.{
  ℕ, Bool, true, false, not, ◌&&◌, ◌||◌, Option, none, some, List, [], ◌∷◌, length, ltb, ◌==◌,
  nat_eq, list_eq, if◌then◌else◌, is_some, map,
}
use imagesilo.Common.Text.{Text, codes}
use imagesilo.ImageLinks.{
  LinkFormat, direct, markdown, html, bbcode, LinkableImage, image_links_text,
}
use imagesilo.Storage.{Storage, write_local_storage, print_format, link_format_key, initial_format}
use imagesilo.Toasts.{Toasts, no_toasts, show, show_counts, notify, success, failure}

pub record CopyControl : Type 0 where
  -- The property `images`, which may change.
  pub images : List LinkableImage
  pub format : LinkFormat
  pub is_open : Bool
  -- The text that is being written, and how many links it was made of when the button was pressed.
  pub copying : Option (Text × ℕ)
  pub copied_text : Option Text
  -- Whether the timer runs that takes the feedback back.
  pub feedback_timer : Bool
  -- The text that the last write has put on the clipboard.
  pub written : Option Text
  pub storage : Storage
  pub toasts : Toasts

abbrev pub is_same : Text → Option Text → Bool
is_same text none = false
is_same text (some copied) = copied == text

abbrev pub formats : List LinkFormat
formats = direct ∷ markdown ∷ bbcode ∷ html ∷ []

module _ (resolve : Text → Text) where
  abbrev pub shown_text : CopyControl → Text
  shown_text control = image_links_text resolve control.images control.format

  -- `copied`
  unfoldable pub is_copied : CopyControl → Bool
  is_copied control =
      is_same (shown_text control) control.copied_text && ltb 0 (length control.images)

  -- The button is disabled while a copy is under way and where there is nothing to copy.
  unfoldable pub copy_is_disabled : CopyControl → Bool
  copy_is_disabled control = is_some control.copying || length control.images == 0

  -- `copy`, up to the write and after it
  unfoldable pub start_copy : CopyControl → CopyControl
  unfolding copy_is_disabled
  start_copy control =
      if copy_is_disabled control
      then control
      else record control { copying = some (shown_text control, length control.images) }

  abbrev pub copied_toast : ℕ → Toasts → Toasts
  copied_toast count toasts =
      if count == 1
      then show (codes "image-links-copy") success (codes "toast.linkCopied") toasts
      else show_counts (codes "image-links-copy") success (codes "toast.linksCopied") (count ∷ [])
          toasts

  abbrev pub end_copy : Bool → Option (Text × ℕ) → CopyControl → CopyControl
  end_copy succeeded none control = control
  end_copy true (some (text, count)) control = record control {
    copying = none;
    copied_text = some text;
    feedback_timer = true;
    written = some text;
    toasts = copied_toast count control.toasts;
  }
  end_copy false (some (text, count)) control = record control {
    copying = none;
    copied_text = none;
    toasts = notify failure (codes "toast.copyFailed") control.toasts;
  }

  unfoldable pub finish_copy : Bool → CopyControl → CopyControl
  finish_copy succeeded control = end_copy succeeded control.copying control

  unfoldable pub fire_timer : CopyControl → CopyControl
  fire_timer control =
      if control.feedback_timer
      then record control { copied_text = none; feedback_timer = false }
      else control

  -- An item of the menu; the effect stores the format.
  unfoldable pub choose_format : LinkFormat → CopyControl → CopyControl
  unfolding write_local_storage
  choose_format format control = record control {
    format = format;
    is_open = false;
    storage = (write_local_storage link_format_key (print_format format) control.storage).1;
  }

  unfoldable pub toggle_menu : CopyControl → CopyControl
  toggle_menu control = record control { is_open = not control.is_open }

  pub data CopyEvent : Type 0 where
    press : CopyEvent
    finished : Bool → CopyEvent
    timer_fired menu_pressed : CopyEvent
    format_chosen : LinkFormat → CopyEvent
    images_changed : List LinkableImage → CopyEvent

  unfoldable pub copy_step : CopyEvent → CopyControl → CopyControl
  copy_step press control = start_copy control
  copy_step (finished succeeded) control = finish_copy succeeded control
  copy_step timer_fired control = fire_timer control
  copy_step menu_pressed control = toggle_menu control
  copy_step (format_chosen format) control = choose_format format control
  copy_step (images_changed images) control = record control { images = images }

  unfoldable pub run_copy : List CopyEvent → CopyControl → CopyControl
  run_copy [] control = control
  run_copy (e ∷ es) control = run_copy es (copy_step e control)

unfoldable pub first_control : List LinkableImage → Storage → CopyControl
unfolding initial_format
first_control images storage = record {
  images = images;
  format = initial_format storage;
  is_open = false;
  copying = none;
  copied_text = none;
  feedback_timer = false;
  written = none;
  storage = storage;
  toasts = no_toasts;
}
