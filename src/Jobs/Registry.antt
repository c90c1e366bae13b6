-- ===== src/Jobs/Registry.antt =====
-- daemon/jobs.py: the types of jobs that have a worker.
use milvus_onprem.Base.{
  Text, Dict, keys, insert, List, [], ◌∷◌, Elem, sort_by, Elem-sort_by, Elem-of_sort_by, text_leb,
  same, same_iff, Bool-cases, inl, inr, ◌⊎◌, ◌↔◌, ◌≡◌, sym, ◌∙◌,
}

module _ {Worker : Type 0} where
  unfoldable pub register_handler : Text → Worker → Dict Worker → Dict Worker
  unfolding insert
  register_handler job_type fn handlers = insert job_type fn handlers

  unfoldable pub known_types : Dict Worker → List Text
  unfolding sort_by text_leb
  known_types handlers = sort_by text_leb (keys handlers)

  keys_insert :
      (t u : Text) (fn : Worker) (handlers : Dict Worker)
      → Elem u (keys (insert t fn handlers)) ↔ ((t ≡ u) ⊎ Elem u (keys handlers))
  unfolding insert
  keys_insert t u fn [] = (λ h. h, λ h. h)
  keys_insert t u fn ((k, w) ∷ handlers) = elim (Bool-cases (same k t)) [
    | inl e ↦
        let q : k ≡ t = (same_iff k t).0 e in
        rw e (
          (λ h. elim h [ inl p ↦ inl p | inr m ↦ inr (inr m) ]),
          (λ h. elim h [ inl p ↦ inl p | inr (inl p) ↦ inl (sym q ∙ p) | inr (inr m) ↦ inr m ]),
        )
    | inr e ↦
        let (of, to) = keys_insert t u fn handlers in
        rw e (
          (λ h. elim h [
            | inl p ↦ inr (inl p)
            | inr m ↦ elim (of m) [ inl p ↦ inl p | inr r ↦ inr (inr r) ]
          ]),
          (λ h. elim h [
            | inl p ↦ inr (to (inl p))
            | inr (inl p) ↦ inl p
            | inr (inr m) ↦ inr (to (inr m))
          ]),
        )
  ]

  -- After a registration the known types are those that were known, and the type registered.
  known_types-register_handler :
      (t u : Text) (fn : Worker) (handlers : Dict Worker)
      → Elem u (known_types (register_handler t fn handlers))
        ↔ ((t ≡ u) ⊎ Elem u (known_types handlers))
  unfolding known_types register_handler
  known_types-register_handler t u fn handlers = (
    (λ h.
        elim ((keys_insert t u fn handlers).0
          (Elem-of_sort_by text_leb u (keys (insert t fn handlers)) h)) [
            | inl e ↦ inl e
            | inr m ↦ inr (Elem-sort_by text_leb u (keys handlers) m)
          ]),
    (λ h. Elem-sort_by text_leb u (keys (insert t fn handlers)) (
        (keys_insert t u fn handlers).1
          (elim h [ inl e ↦ inl e | inr m ↦ inr (Elem-of_sort_by text_leb u (keys handlers) m) ]))),
  )
