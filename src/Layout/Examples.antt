-- ===== src/Layout/Examples.antt =====
-- The frame at concrete values.
use imagesilo.Common.{◌≡◌, refl, true, false, some}
use imagesilo.Common.Text.{codes, starts_with}
use imagesilo.Common.Collections.{lookup}
use imagesilo.Layout.{dock_index, find_index, preload_admin_page, image_detail_page, settings_page}

narrow_run : dock_index true (codes "/admin/settings") ≡ 2
unfolding dock_index find_index starts_with
narrow_run = refl

wide_run : dock_index false (codes "/admin/settings") ≡ 5
unfolding dock_index find_index starts_with
wide_run = refl

detail_run : preload_admin_page (codes "/admin/images/1") ≡ some image_detail_page
unfolding preload_admin_page starts_with
detail_run = refl

settings_run : preload_admin_page (codes "/admin/settings") ≡ some settings_page
unfolding preload_admin_page starts_with lookup
settings_run = refl
