-- ===== src/Web/FormData/Lists.antt =====
use quickjs_runtime.Common.{Bool-cases, List, [], ap, false, inl, inr, refl, true, ◌∙◌, ◌∷◌, ◌≡◌}
use quickjs_runtime.Common.Bytes.{Bytes, bytes_eq, bytes_eq_refl}
use quickjs_runtime.Web.FormData.{Entry, erase_entry, get_all, set_entry, set_entry_loop}

-- What `set` does to the list of a form.
after_replaced :
    (e : Entry) (list : List Entry) → set_entry_loop e true list ≡ erase_entry e.name list
unfolding set_entry_loop erase_entry
after_replaced e [] = refl
after_replaced e (x ∷ list) =
    let ih = after_replaced e list in
    elim (Bool-cases (bytes_eq x.name e.name)) [
      | inl same ↦ rw same ih
      | inr differs ↦ rw differs (ap (◌∷◌ x) ih)
    ]

erase_entry_idem :
    (name : Bytes) (list : List Entry)
    → erase_entry name (erase_entry name list) ≡ erase_entry name list
unfolding erase_entry
erase_entry_idem name [] = refl
erase_entry_idem name (x ∷ list) =
    let ih = erase_entry_idem name list in
    elim (Bool-cases (bytes_eq x.name name)) [
      | inl same ↦ rw same ih
      | inr differs ↦ rw differs (rw differs (ap (◌∷◌ x) ih))
    ]

get_all-erase_entry : (name : Bytes) (list : List Entry) → get_all name (erase_entry name list) ≡ []
unfolding erase_entry get_all
get_all-erase_entry name [] = refl
get_all-erase_entry name (x ∷ list) =
    let ih = get_all-erase_entry name list in
    elim (Bool-cases (bytes_eq x.name name)) [
      | inl same ↦ rw same ih
      | inr differs ↦ rw differs (rw differs ih)
    ]

get_all-set_entry :
    (e : Entry) (list : List Entry) → get_all e.name (set_entry_loop e false list) ≡ e ∷ []
unfolding set_entry_loop get_all
get_all-set_entry e [] = rw (bytes_eq_refl e.name) refl
get_all-set_entry e (x ∷ list) =
    let ih = get_all-set_entry e list in
    elim (Bool-cases (bytes_eq x.name e.name)) [
      | inl same ↦ rw same (
          rw (bytes_eq_refl e.name) (
            ap (◌∷◌ e)
              (ap (get_all e.name) (after_replaced e list) ∙ get_all-erase_entry e.name list)))
      | inr differs ↦ rw differs (rw differs ih)
    ]

erase_entry-set_entry :
    (e : Entry) (list : List Entry)
    → erase_entry e.name (set_entry_loop e false list) ≡ erase_entry e.name list
unfolding set_entry_loop erase_entry
erase_entry-set_entry e [] = rw (bytes_eq_refl e.name) refl
erase_entry-set_entry e (x ∷ list) =
    let ih = erase_entry-set_entry e list in
    elim (Bool-cases (bytes_eq x.name e.name)) [
      | inl same ↦ rw same (
          rw (bytes_eq_refl e.name)
            (ap (erase_entry e.name) (after_replaced e list) ∙ erase_entry_idem e.name list))
      | inr differs ↦ rw differs (rw differs (ap (◌∷◌ x) ih))
    ]

-- After `set`, the form has exactly one entry of the name, the given one, and its other entries are the
-- ones that it had, in their order.
pub set_entry_replaces :
    (e : Entry) (list : List Entry)
    → (get_all e.name (set_entry e list) ≡ e ∷ [])
      × (erase_entry e.name (set_entry e list) ≡ erase_entry e.name list)
set_entry_replaces e list = (get_all-set_entry e list, erase_entry-set_entry e list)
