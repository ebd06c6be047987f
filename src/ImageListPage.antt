-- ===== src/ImageListPage.antt =====
-- The page of all images, web/src/features/images/image-list-page.tsx: the scroll positions that it
-- keeps (`Scroll`), the filters of its URL (`Filters`), and selecting and changing many images
-- (`Selection`).
pub mod Scroll
pub mod Return
pub mod Filters
pub mod Panel
pub mod Normal
pub mod Selection
pub mod Refinement
pub mod Bounds
mod Examples
