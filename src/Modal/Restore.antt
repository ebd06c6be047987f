-- ===== src/Modal/Restore.antt =====
-- Dialogs open and close in any order; what the document looks like meanwhile and afterwards.
use imagesilo.Common.{
  ℕ, zero, suc, ◌≤◌, ◌≡◌, ◌⊎◌, refl, sym, ap, ◌∙◌, Bool, true, false, none, some, List, [], ◌∷◌,
  ◌++◌, map, count, nat_eq, inl, inr, arith, count-append, All, All-append,
}
use imagesilo.Common.Text.{Text, codes}
use imagesilo.Common.Collections.{has, lookup, IsDistinct}
use imagesilo.Modal.{
  Desk, Modal, unlock_all, enter_stack, mount, unmount, top, is_top, leave_stack, restore,
}
use imagesilo.Modal.Locks.{Look, look, looks_under, lock_all_lem, unlock_all_lem}
use imagesilo.Modal.Invariant.{
  Inv, IsDistinct-middle, IsDistinct-snoc, Kept, Reaches, Rest, ids, ids-append, leave_owner,
  lock_all-rest, over, remove_last-append, rest, top-append, unlock_all-rest, begun, opened, closed,
  focused,
}

module _ (start : Desk) where
  enter_stack-look :
      (modal : Modal) (desk : Desk) (element : ℕ)
      → look element (enter_stack modal desk) ≡ look element desk
  unfolding enter_stack
  enter_stack-look modal desk element = ground arith

  enter_stack-rest :
      (modals : List Modal) (modal : Modal) (desk : Desk)
      → Inv start modals desk
      → ((enter_stack modal desk).stack ≡ ids (modals ++ modal ∷ []))
        × Kept start.overflow (modals ++ modal ∷ []) (enter_stack modal desk)
        × ((enter_stack modal desk).owner ≡ some modal.id)
  unfolding enter_stack
  enter_stack-rest [] modal desk inv = ground (arith, inv.on_stack, inv.kept)
  enter_stack-rest (m ∷ modals) modal desk inv =
      ground (arith, inv.on_stack, inv.kept, ids-append (m ∷ modals) (modal ∷ []))

  Kept-rest :
      (modals : List Modal) (overflow : Text) (desk desk' : Desk)
      → rest desk' ≡ rest desk
      → Kept overflow modals desk
      → Kept overflow modals desk'
  Kept-rest [] overflow desk desk' same k = ap Rest.overflow same ∙ k
  Kept-rest (m ∷ modals) overflow desk desk' same k =
      (ap Rest.overflow same ∙ k.0, ap Rest.original_overflow same ∙ k.1)

  mount-Inv :
      (modals : List Modal) (modal : Modal) (desk : Desk)
      → Inv start modals desk
      → IsDistinct modal.background
      → has modal.id (ids modals) ≡ false
      → Inv start (modals ++ modal ∷ []) (mount modal desk)
  unfolding mount top
  mount-Inv modals modal desk inv d fresh =
      let same = lock_all-rest modal.background (enter_stack modal desk) in
      let entered = enter_stack-rest modals modal desk inv in
      record {
        looks = λ element.
            lock_all_lem element (start.inert element) (start.aria_hidden element)
              (count (over element) modals) modal.background d (enter_stack modal desk)
              (enter_stack-look modal desk element ∙ inv.looks element)
            ∙ ap (λ n. looks_under n (start.inert element) (start.aria_hidden element))
                (omega (arith, count-append (over element) modals (modal ∷ [])));
        on_stack = ap Rest.stack same ∙ entered.0;
        distinct =
            rw (ids-append modals (modal ∷ []))
              (IsDistinct-snoc modal.id (ids modals) inv.distinct fresh);
        backgrounds = All-append _ modals (modal ∷ []) inv.backgrounds (d, tt);
        kept =
            Kept-rest (modals ++ modal ∷ []) start.overflow (enter_stack modal desk)
              (mount modal desk) same entered.1;
        owned =
            ap Rest.owner same
            ∙ entered.2
            ∙ sym (ap top (ids-append modals (modal ∷ [])) ∙ top-append (ids modals) modal.id []);
      }

  leave_stack-rest :
      (before : List Modal) (modal : Modal) (after : List Modal) (desk : Desk)
      → Inv start (before ++ modal ∷ after) desk
      → ((leave_stack modal desk).stack ≡ ids (before ++ after))
        × ((leave_stack modal desk).owner ≡ top (ids (before ++ after)))
  unfolding leave_stack
  leave_stack-rest before modal after desk inv =
      let stacked = inv.on_stack ∙ ids-append before (modal ∷ after) in
      let owned = inv.owned ∙ ap top (ids-append before (modal ∷ after)) in
      let d : IsDistinct (ids before ++ modal.id ∷ ids after) =
        rw (ids-append before (modal ∷ after)) at inv.distinct in
      let apart = IsDistinct-middle modal.id (ids before) (ids after) d in
      let removed = remove_last-append modal.id (ids before) (ids after) apart.1 in
      (
        rw (stacked, ids-append before after) removed,
        rw (stacked, owned, ids-append before after, removed)
            (leave_owner modal.id (ids before) (ids after) apart.1),
      )

  Kept-some :
      (before : List Modal) (modal : Modal) (after : List Modal) (desk : Desk)
      → Kept start.overflow (before ++ modal ∷ after) desk
      → (desk.overflow ≡ codes "hidden") × (desk.original_overflow ≡ start.overflow)
  Kept-some [] modal after desk k = k
  Kept-some (m ∷ before) modal after desk k = k

  All-middle :
      (P : Modal → Type 0) (before : List Modal) (modal : Modal) (after : List Modal)
      → All P (before ++ modal ∷ after)
      → P modal × All P (before ++ after)
  All-middle P [] modal after h = h
  All-middle P (m ∷ before) modal after h =
      let rest = All-middle P before modal after h.1 in (rest.0, (h.0, rest.1))

  leave_stack-same :
      (modal : Modal) (desk : Desk)
      → ((leave_stack modal desk).overflow ≡ desk.overflow)
        × ((leave_stack modal desk).original_overflow ≡ desk.original_overflow)
        × ((element : ℕ) → look element (leave_stack modal desk) ≡ look element desk)
  unfolding leave_stack
  leave_stack-same modal desk = (refl, refl, λ element. refl)

  module _ (is_connected : ℕ → Bool) where
    restore-look :
        (was_top : Bool) (modal : Modal) (desk : Desk) (element : ℕ)
        → look element (restore is_connected was_top modal desk) ≡ look element desk
    unfolding restore
    restore-look was_top modal desk element = ground arith

    restore-rest :
        (was_top : Bool) (modal : Modal) (desk : Desk) (modals : List Modal)
        → desk.stack ≡ ids modals
        → desk.overflow ≡ codes "hidden"
        → desk.original_overflow ≡ start.overflow
        → ((restore is_connected was_top modal desk).stack ≡ desk.stack)
          × ((restore is_connected was_top modal desk).owner ≡ desk.owner)
          × Kept start.overflow modals (restore is_connected was_top modal desk)
    unfolding restore
    restore-rest was_top modal desk [] e hidden original = ground (arith, e, hidden, original)
    restore-rest was_top modal desk (m ∷ modals) e hidden original =
        ground (arith, e, hidden, original)

    unmount-Inv :
        (before : List Modal) (modal : Modal) (after : List Modal) (desk : Desk)
        → Inv start (before ++ modal ∷ after) desk
        → Inv start (before ++ after) (unmount is_connected modal desk)
    unfolding unmount
    unmount-Inv before modal after desk inv =
        let left = leave_stack-rest before modal after desk inv in
        let same = unlock_all-rest modal.background (leave_stack modal desk) in
        let unlocked = unlock_all modal.background (leave_stack modal desk) in
        let untouched = leave_stack-same modal desk in
        let kept = Kept-some before modal after desk inv.kept in
        let parts = All-middle _ before modal after inv.backgrounds in
        let restored =
          restore-rest (is_top modal.id desk.stack) modal unlocked (before ++ after)
            (ap Rest.stack same ∙ left.0) (ap Rest.overflow same ∙ untouched.0 ∙ kept.0)
            (ap Rest.original_overflow same ∙ untouched.1 ∙ kept.1) in
        record {
          looks = λ element.
              restore-look (is_top modal.id desk.stack) modal unlocked element
              ∙ unlock_all_lem element (start.inert element) (start.aria_hidden element)
                  (count (over element) (before ++ after)) modal.background parts.0
                  (leave_stack modal desk)
                  (untouched.2 element
                    ∙ inv.looks element
                    ∙ ap (λ n. looks_under n (start.inert element) (start.aria_hidden element))
                        (omega (
                          arith,
                          count-append (over element) before (modal ∷ after),
                          count-append (over element) before after,
                        )));
          on_stack = restored.0 ∙ ap Rest.stack same ∙ left.0;
          distinct =
              rw (ids-append before after)
                (IsDistinct-middle modal.id (ids before) (ids after)
                  (rw (ids-append before (modal ∷ after)) at inv.distinct)).2;
          backgrounds = parts.1;
          kept = restored.2;
          owned = restored.1 ∙ ap Rest.owner same ∙ left.1;
        }

module _ (is_connected : ℕ → Bool) (start : Desk) where
  Reaches-Inv :
      {modals : List Modal} {desk : Desk}
      → Reaches is_connected start modals desk
      → Inv start modals desk
  Reaches-Inv (begun clean) = record {
    looks = λ element. unfold lookup in rw (clean.no_lock) refl;
    on_stack = clean.no_dialog;
    distinct = tt;
    backgrounds = tt;
    kept = refl;
    owned = unfold top in clean.no_owner;
  }
  Reaches-Inv (opened {modals} {desk} modal before d fresh) =
      mount-Inv start modals modal desk (Reaches-Inv before) d fresh
  Reaches-Inv (closed {desk} before modal after reached) =
      unmount-Inv start is_connected before modal after desk (Reaches-Inv reached)
  Reaches-Inv (focused {modals} {desk} focus reached) =
      let inv = Reaches-Inv reached in
      record {
        looks = inv.looks;
        on_stack = inv.on_stack;
        distinct = inv.distinct;
        backgrounds = inv.backgrounds;
        kept =
            Kept-rest start modals start.overflow desk (record desk { focus = focus }) refl
              inv.kept;
        owned = inv.owned;
      }

  -- Whatever dialogs have opened and closed, in whatever order: an element under no mounted dialog
  -- has the attributes `inert` and `aria-hidden` that it had before the first, and an element under
  -- some mounted dialog is inert and hidden.
  pub background_lem :
      (modals : List Modal) (desk : Desk) (element : ℕ)
      → Reaches is_connected start modals desk
      → ((count (over element) modals ≡ 0)
          × (desk.inert element ≡ start.inert element)
          × (desk.aria_hidden element ≡ start.aria_hidden element))
        ⊎ ((1 ≤ count (over element) modals)
            × (desk.inert element ≡ true)
            × (desk.aria_hidden element ≡ some (codes "true")))
  background_lem modals desk element reached =
      let looks = (Reaches-Inv reached).looks element in
      by_count (count (over element) modals) looks
    where
      by_count :
          (n : ℕ)
          → look element desk ≡ looks_under n (start.inert element) (start.aria_hidden element)
          → ((n ≡ 0)
              × (desk.inert element ≡ start.inert element)
              × (desk.aria_hidden element ≡ start.aria_hidden element))
            ⊎ ((1 ≤ n)
                × (desk.inert element ≡ true)
                × (desk.aria_hidden element ≡ some (codes "true")))
      by_count zero e = inl (refl, ap Look.inert e, ap Look.aria_hidden e)
      by_count (suc n) e = inr (omega arith, ap Look.inert e, ap Look.aria_hidden e)

  -- Once every dialog is gone, in whatever order they closed, no element is locked, the stack is
  -- empty and the page scrolls as before the first.
  pub page_restored :
      (desk : Desk)
      → Reaches is_connected start [] desk
      → ((element : ℕ) → lookup element desk.locks ≡ none)
        × (desk.stack ≡ [])
        × (desk.overflow ≡ start.overflow)
  page_restored desk reached =
      let inv = Reaches-Inv reached in
      (λ element. ap Look.lock (inv.looks element), inv.on_stack, inv.kept)

  -- The stack lists the mounted dialogs in the order in which they were opened, and notifications
  -- belong to the last of them.
  pub owner_on_top :
      (modals : List Modal) (desk : Desk)
      → Reaches is_connected start modals desk
      → (desk.stack ≡ map (λ (modal : Modal). modal.id) modals) × (desk.owner ≡ top desk.stack)
  owner_on_top modals desk reached =
      let inv = Reaches-Inv reached in (inv.on_stack, inv.owned ∙ sym (ap top inv.on_stack))
