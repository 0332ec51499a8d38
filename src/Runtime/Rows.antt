-- ===== src/Runtime/Rows.antt =====
-- What a condition on the rows of runtime_tasks, kept by a patch, says of a read and of an update.
use pi_ops.Base.{
  String, Option, none, some, List, [], ◌∷◌, map, find, All, All-Memᴰ, ◌≡◌, refl, subst, if_cases,
  ap, if◌then◌else◌,
}
use pi_ops.Base.Search.{find-Memᴰ}
use pi_ops.Runtime.Tasks.{
  RuntimeTaskRecord, row_task, map_row, has_request_id, get_by_request_id, write, update_found,
  update,
}

-- What holds of a value that may be missing.
abbrev pub OptionAll {ℓ κ} : {A : Type ℓ} → (A → Type κ) → Option A → Type κ
OptionAll P none = Unit
OptionAll P (some x) = P x

module _ (P : RuntimeTaskRecord → Type 0) where
  -- A condition that looks at none of the columns that `map_row` or an update leaves.
  abbrev pub ReadsWritten : Type 0
  ReadsWritten =
      ((t : RuntimeTaskRecord) → P t → P (map_row t))
      × ((next row : RuntimeTaskRecord) → P next → P (write next row))

  module _ (reads : ReadsWritten) where
    row_task-All :
        (o : Option RuntimeTaskRecord)
        → ((row : RuntimeTaskRecord) → o ≡ some row → P row)
        → (t : RuntimeTaskRecord) → row_task o ≡ some t
        → P t
    row_task-All none h t e = cc
    row_task-All (some row) h t e =
        let same : map_row row ≡ t = ap (λ o. elim o [ some x ↦ x | none ↦ t ]) e in
        subst P same (reads.0 row (h row refl))

    pub get_by_request_id-All :
        (id : String) (rows : List RuntimeTaskRecord)
        → All P rows
        → (t : RuntimeTaskRecord) → get_by_request_id id rows ≡ some t
        → P t
    get_by_request_id-All id rows ps t e =
        row_task-All (find (has_request_id id) rows)
          (λ row found. All-Memᴰ P rows ps (find-Memᴰ (has_request_id id) rows found).0) t e

    write-All :
        (id : String) (next : RuntimeTaskRecord) (rows : List RuntimeTaskRecord)
        → P next
        → All P rows
        → All P (map (λ row. if has_request_id id row then write next row else row) rows)
    write-All id next [] h ps = tt
    write-All id next (row ∷ rows) h (p, ps) = (
      if_cases P (has_request_id id row) (λ _. reads.1 next row h) (λ _. p),
      write-All id next rows h ps,
    )

    update_found-All :
        (id : String) (patch : RuntimeTaskRecord → RuntimeTaskRecord) (o : Option RuntimeTaskRecord)
        → ((t : RuntimeTaskRecord) → o ≡ some t → P t → P (patch t))
        → ((t : RuntimeTaskRecord) → o ≡ some t → P t)
        → (rows : List RuntimeTaskRecord) → All P rows
        → OptionAll (All P) (update_found id patch o rows)
    update_found-All id patch none keeps h rows ps = tt
    update_found-All id patch (some t) keeps h rows ps =
        write-All id (patch t) rows (keeps t refl (h t refl)) ps

    pub update-All :
        (id : String) (patch : RuntimeTaskRecord → RuntimeTaskRecord)
        (rows : List RuntimeTaskRecord)
        → ((t : RuntimeTaskRecord) → get_by_request_id id rows ≡ some t → P t → P (patch t))
        → All P rows
        → OptionAll (All P) (update id patch rows)
    unfolding update
    update-All id patch rows keeps ps =
        update_found-All id patch (get_by_request_id id rows) keeps
          (get_by_request_id-All id rows ps) rows ps
