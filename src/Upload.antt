-- ===== src/Upload.antt =====
-- The upload page, web/src/features/upload/upload-page.tsx: its state (`Defs`), the edits of the
-- queue (`Queue`), the workers that upload it (`Workers`), and what is shown (`View`).
pub mod Defs
pub mod Queue
pub mod Workers
pub mod View
pub mod Steps
pub mod Limits
pub mod Items
pub mod Runs
pub mod Stops
pub mod Steady
pub mod Ends
mod Examples
