-- ===== src/Lib.antt =====
-- The web client of ImageSilo (web/src), the administration pages of an image store, as a verified
-- library. The client is a React program: pages keep state, events change it, and the service is
-- asked over HTTP. Here a page's state is a record, each handler is a function from state to state
-- that is written after the handler's code, and whatever the browser or the service answers comes in
-- as an argument of an event.
--
-- The parts, and the files that they model:
-- * `Upload` (web/src/features/upload/upload-page.tsx): `Defs` has the state of `UploadPage`, `Queue`
--   has `addFiles`, `drop`, `paste`, `clearQueue`, `leaveUpload`, `updateItem` and the clean-up,
--   `Workers` has `uploadOne`, `submit` with its workers, and `retry`, and `View` has the tests behind
--   the buttons. `Steps` puts them together as a machine: an event runs the code up to its next
--   `await`, so that any list of events is an interleaving of the workers. A worker is a value, either
--   waiting for one upload or stopped. The other files hold proofs.
-- * `DatePicker` (web/src/components/ui/date-picker.tsx): `parseDate`, `toDateValue`, `calendarDays`,
--   `navigateDate`, `moveFocus`, `selectDate` and the tests of its buttons. `Dates` is the part of
--   JavaScript's `Date` that it uses, in local time: the fields of a day, and the constructor from a
--   year, a month and a day that may be out of range.
-- * `Modal` (web/src/components/ui/modal.tsx): the module's stack and locks with the layout effect and
--   its clean-up, the keys (`Keys`) and the stages of one dialog (`Stages`). Elements are numbers; the
--   lists of elements that the code asks the document for are arguments.
-- * `ImageListPage` (web/src/features/images/image-list-page.tsx, and the buttons of
--   web/src/components/ui/confirm-dialog.tsx): `rememberScroll` and the way back (`Scroll`, `Return`), the
--   filters of the URL (`Filters`, `Normal`), the panel with its form (`Panel`), and selection, batch
--   requests and the delete dialog (`Selection`), which `Refinement` compares with a set.
-- * `Migration` (web/src/features/migrations/migration-image-page.tsx): selection, deletion and refresh,
--   the filters and all events (`Steps`), and what the cards and the dialog show (`Card`).
-- * `FilterForm` has what both listings do with a form and a URL: `append`, `appendMiB` and
--   `normalizedFilterQuery`; `Batch` has the bounds of a selection. A dialog that was closed stays mounted,
--   and its buttons work, until an event says that its exit has ended.
-- * `Settings` (web/src/features/settings/settings-page.tsx): `updateProfile`, `changePassword`,
--   `updateProcessing`, `numberValue` and the mutations. `Numbers` is JavaScript's `Number(text)`, the
--   number as it is written; `Numbers/Doubles` rounds it to 64 bits and prints the result, which the sizes
--   of the filters need.
-- * `ImageDetail` (web/src/features/images/image-detail-page.tsx): visibility, deletion, conversion and
--   aliases of one image, `returnToList`, and what happens when the page is left.
-- * `ApiTokens` (web/src/features/api-tokens/api-token-page.tsx) and `Aliases`
--   (web/src/features/aliases/alias-page.tsx): their forms, dialogs and requests.
-- * `Layout` (web/src/components/layout/admin-layout.tsx and web/src/app/page-loaders.ts), `Menus`
--   (dropdown-menu.tsx and select.tsx in web/src/components/ui) and `CopyLink`
--   (web/src/components/ui/copy-link-control.tsx).
-- * `Storage` (web/src/lib/browser-storage.ts and the first lines of web/src/i18n/config.ts), and
--   `Toasts`, the notices that the pages show with the library sonner.
-- * `ApiClient` (web/src/lib/api-client.ts): `apiRequest`, `uploadForm` as a machine over its
--   request's events, and `subscribeUnauthorized`. `decodeURIComponent` is a parameter.
-- * `Auth` (web/src/features/auth/auth-provider.tsx, auth-guard.tsx and login-page.tsx): `loadSession`,
--   `logout`, `AuthGuard`, and `loginDestination`, with `Setup` (setup-page.tsx) and `Routes`
--   (web/src/app/router.tsx), which follows the redirects. The browser's URL parser and the router's comparison of paths are
--   parameters.
-- * `ImageLinks` (web/src/lib/image-links.ts) and `Api` (web/src/lib/api-types.ts).
-- * `Common` has what they share: texts as lists of code units with the string methods in use, `Set`
--   and `Map` by insertion order, lists over native numbers, and integers.
--
-- The pages meet in the requests: the upload page takes the outcomes that the client of `ApiClient`
-- rejects or resolves with, the lists ask in a modal dialog, and their forms use the date picker. A page
-- and the storage meet in the choices that are written and read again when the page is opened.
--
-- There is no fuel in the models of the pages: their loops run over lists or over events. Following the
-- router's redirects has fuel for three pages, one more than the redirects in a row. Rounding doubles a
-- small fraction at most 1074 times, as far as the least exponent goes, and halves a large one at most 972
-- times, after which it is beyond the greatest number; a number is printed with at most 17 digits, which
-- tell any two apart. Numbers of bytes and pixels are natural numbers. The printing of a number uses as much fuel as the number is
-- large, which is more than its digits.
--
-- Not modelled: markup, styles and layout, translated texts beyond their keys, the wiring of React
-- and of the query cache, the overview of the system, the stages of a menu that opens and closes, and the
-- service itself, which is written in Go. Functions of the platform that the
-- code calls are parameters: URL parsing and encoding, `decodeURI`, and the time zone of `Date` where a
-- text with a time is made or read.
pub mod Common
pub mod Dates
pub mod Numbers
pub mod Toasts
pub mod FilterForm
pub mod Storage
pub mod Batch
pub mod CopyLink
pub mod ApiTokens
pub mod ImageDetail
pub mod Aliases
pub mod Menus
pub mod Layout
pub mod Settings
pub mod DatePicker
pub mod Api
pub mod ApiClient
pub mod ImageLinks
pub mod Upload
pub mod Auth
pub mod Modal
pub mod ImageListPage
pub mod Migration
