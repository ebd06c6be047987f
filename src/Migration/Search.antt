-- ===== src/Migration/Search.antt =====
-- The form of the filters writes what the page reads.
use imagesilo.Common.{◌≡◌, refl, sym, ap, ◌∙◌, none, [], ◌∷◌, nat_eq, list_eq, All}
use imagesilo.Common.Text.{codes, trim, trim_idem}
use imagesilo.Common.Collections.{has, lookup, IsDistinct}
use imagesilo.Numbers.{number, positive}
use imagesilo.FilterForm.{
  Parameters, put_all, fresh, normalized, field, append, append_mib, bytes_of,
}
use imagesilo.FilterForm.Normal.{normalized-put_all}
use imagesilo.FilterForm.Sizes.{bytes_of_trimmed}
use imagesilo.Migration.Steps.{migration_names, normalized_migration_query, migration_applied}

migration_names-IsDistinct : IsDistinct migration_names
unfolding has
migration_names-IsDistinct = (refl, (refl, (refl, (refl, tt))))

absent : All (λ name. lookup name fresh ≡ none) migration_names
unfolding lookup
absent = (refl, (refl, (refl, (refl, tt))))

abbrev entries : Parameters → Parameters
entries form =
    (codes "q", trim (field (codes "q") form))
    ∷ (codes "format", trim (field (codes "format") form))
    ∷ (codes "minBytes", bytes_of (positive (number (field (codes "minMiB") form))))
    ∷ (codes "maxBytes", bytes_of (positive (number (field (codes "maxMiB") form))))
    ∷ []

applied-put_all : (form : Parameters) → migration_applied form ≡ put_all (entries form) fresh
unfolding migration_applied append append_mib put_all
applied-put_all form = refl

-- Whatever is entered in the form: the parameters that it writes into the URL are the ones that the
-- page asks the service for.
pub normalized_migration_query-migration_applied :
    (form : Parameters)
    → normalized_migration_query (migration_applied form) ≡ migration_applied form
unfolding normalized_migration_query
normalized_migration_query-migration_applied form =
    let f = absent in
    ap (normalized migration_names) (applied-put_all form)
    ∙ normalized-put_all migration_names (entries form) refl migration_names-IsDistinct (
      (f.0, trim_idem (field (codes "q") form)),
      (
        (f.1.0, trim_idem (field (codes "format") form)),
        (
          (f.1.1.0, bytes_of_trimmed (field (codes "minMiB") form)),
          ((f.1.1.1.0, bytes_of_trimmed (field (codes "maxMiB") form)), tt),
        ),
      ),
    )
    ∙ sym (applied-put_all form)
