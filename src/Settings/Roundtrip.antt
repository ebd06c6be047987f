-- ===== src/Settings/Roundtrip.antt =====
-- The form for the processing of images, filled from the service's settings and sent unchanged.
use imagesilo.Common.{ℕ, ◌≤◌, ◌≡◌, refl, ap, ◌∙◌, false, none, some, [], ◌∷◌, arith}
use imagesilo.Common.Text.{decimal}
use imagesilo.Settings.{
  Processing, AppSettings, ProcessingDraft, Request, SettingsPage, number_value,
  to_processing_draft,
}
use imagesilo.Settings.Forms.{
  Fields, read_fields, field_errors, checked, submit_draft, send_processing, first_draft,
  update_processing, settings_loaded,
}
use imagesilo.Settings.Values.{number_value-decimal}

-- The ranges that the service and the form agree on.
pub record IsProcessing (p : Processing) : Type 0 where
  pub jpeg : (1 ≤ p.jpeg_quality) × (p.jpeg_quality ≤ 100)
  pub webp : (1 ≤ p.webp_quality) × (p.webp_quality ≤ 100)
  pub png : p.png_compression_level ≤ 9
  pub conversion : (1 ≤ p.conversion_webp_quality) × (p.conversion_webp_quality ≤ 100)

number_value_in :
    (least most n : ℕ) → least ≤ n → n ≤ most → number_value (decimal n) least most ≡ some n
number_value_in least most n h k = number_value-decimal least most n ∙ ground (arith, h, k)

abbrev fields_of : Processing → Fields
fields_of p = record {
  jpeg_quality = some p.jpeg_quality;
  webp_quality = some p.webp_quality;
  png_compression_level = some p.png_compression_level;
  conversion_webp_quality = some p.conversion_webp_quality;
}

read_fields-draft :
    (p : Processing) → IsProcessing p → read_fields (to_processing_draft p) ≡ fields_of p
unfolding to_processing_draft
read_fields-draft p h =
    rw
      (
        number_value_in 1 100 p.jpeg_quality h.jpeg.0 h.jpeg.1,
        number_value_in 1 100 p.webp_quality h.webp.0 h.webp.1,
        number_value_in 0 9 p.png_compression_level (omega arith) h.png,
        number_value_in 1 100 p.conversion_webp_quality h.conversion.0 h.conversion.1,
      )
      refl

checked-draft : (p : Processing) → IsProcessing p → checked (to_processing_draft p) ≡ some p
unfolding checked to_processing_draft
checked-draft p h =
    rw
      (
        number_value_in 1 100 p.jpeg_quality h.jpeg.0 h.jpeg.1,
        number_value_in 1 100 p.webp_quality h.webp.0 h.webp.1,
        number_value_in 0 9 p.png_compression_level (omega arith) h.png,
        number_value_in 1 100 p.conversion_webp_quality h.conversion.0 h.conversion.1,
      )
      refl

submit_draft-sent :
    (draft : ProcessingDraft) (p : Processing) (page : SettingsPage)
    → field_errors (read_fields draft) ≡ []
    → checked draft ≡ some p
    → submit_draft draft page ≡ send_processing (some p) page
unfolding submit_draft
submit_draft-sent draft p page no_errors e = rw (no_errors, e) refl

update_processing-drafted :
    (draft : ProcessingDraft) (page : SettingsPage)
    → page.processing_draft ≡ some draft
    → page.processing_pending ≡ false
    → update_processing page ≡ submit_draft draft page
unfolding update_processing
update_processing-drafted draft page drafted free = simp (drafted, free) refl

-- Settings in the ranges of the form make a round trip through it: the form that was filled from
-- them and is submitted unchanged has no errors and sends exactly them.
pub processing_roundtrip :
    (settings : AppSettings) (page : SettingsPage)
    → IsProcessing settings.processing
    → page.processing_draft ≡ none
    → page.processing_pending ≡ false
    → ((update_processing (settings_loaded settings page)).requests
        ≡ Request.processing settings.processing ∷ page.requests)
      × ((update_processing (settings_loaded settings page)).processing_errors ≡ [])
unfolding settings_loaded
processing_roundtrip settings page h no_draft free =
    let draft = to_processing_draft settings.processing in
    let sent =
      update_processing-drafted draft (settings_loaded settings page)
        (ap (first_draft settings) no_draft) free
      ∙ submit_draft-sent draft settings.processing (settings_loaded settings page)
          (ap field_errors (read_fields-draft settings.processing h))
          (checked-draft settings.processing h) in
    (ap SettingsPage.requests sent, ap SettingsPage.processing_errors sent)
