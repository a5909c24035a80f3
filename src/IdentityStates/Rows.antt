-- ===== src/IdentityStates/Rows.antt =====
-- What the reads and the update of the table return, in terms of the rows.
use e_native_issuer.Common.{
  ℕ, ◌+◌, ◌≤◌, ◌<◌, ◌≡◌, refl, ap, String, Bool, true, false, Option, none, some, List, [], ◌∷◌,
  map, str_eq, ltb, leb, ◌==◌, ◌&&◌, if◌then◌else◌, is_some, head?, keep, any, All, SortedDesc,
  sort_desc, sort_desc-All, sort_desc-SortedDesc, Result, ok, err, arith, Bool-cases, inl, inr,
}
use e_native_issuer.IdentityStates.{
  confirmed, failed, status_eq, IdentityState, not_updated, Table, updated_row, update_state,
  update_identity_state, get_latest_state_by_identifier, get_states_by_status_and_issuer_id,
  get_failed_state,
}

-- One row after UPDATE … WHERE state = $5.
abbrev pub row_after : ℕ → IdentityState → IdentityState → IdentityState
row_after now new row = if str_eq row.state new.state then updated_row now new row else row

abbrev pub names_state : IdentityState → IdentityState → Bool
names_state new row = str_eq row.state new.state

pub update_state-map :
    (now : ℕ) (new : IdentityState) (rows : Table)
    → (update_state now new rows).0 ≡ map (row_after now new) rows
unfolding update_state
update_state-map now new [] = refl
update_state-map now new (row ∷ rows) = ground (arith, update_state-map now new rows)

update_state-affected :
    (now : ℕ) (new : IdentityState) (rows : Table)
    → ((update_state now new rows).1 == 0) ≡ (if any (names_state new) rows then false else true)
unfolding update_state
update_state-affected now new [] = refl
update_state-affected now new (row ∷ rows) = ground (arith, update_state-affected now new rows)

-- With no fault of the database, the update of a state changes every row that names the state, and
-- no other row; where no row names it, it is an error and the table is as before.
pub update_identity_state_lem :
    (now : ℕ) (new : IdentityState) (rows : Table)
    → update_identity_state none now new rows ≡ (
        if any (names_state new) rows
        then (ok tt, map (row_after now new) rows)
        else (err not_updated, rows))
unfolding update_identity_state
update_identity_state_lem now new rows =
    ground (arith, update_state-map now new rows, update_state-affected now new rows)

keep-All {ℓ} : {A : Type ℓ} (p : A → Bool) (xs : List A) → All (λ x. p x ≡ true) (keep p xs)
keep-All p [] = tt
keep-All p (x ∷ xs) = ground (arith, keep-All p xs)

-- The rows that pass `p` have a key of at most `b`.
abbrev pub Bounded : (IdentityState → Bool) → (IdentityState → ℕ) → ℕ → Table → Type 0
Bounded p key b [] = Unit
Bounded p key b (row ∷ rows) = (p row ≡ true → key row ≤ b) × Bounded p key b rows

module _ (p : IdentityState → Bool) (key : IdentityState → ℕ) where
  -- A bound of the sorted rows is a bound of the rows.
  insert-Bounded :
      (b : ℕ) (x : IdentityState) (xs : Table)
      → All (λ y. key y ≤ b) (e_native_issuer.Common.insert_desc key x xs)
      → (key x ≤ b) × All (λ y. key y ≤ b) xs
  insert-Bounded b x [] h = (h.0, tt)
  insert-Bounded b x (y ∷ ys) h = ground (arith, insert-Bounded b x ys)

  sorted-All :
      (b : ℕ) (xs : Table) → All (λ y. key y ≤ b) (sort_desc key xs) → All (λ y. key y ≤ b) xs
  sorted-All b [] h = tt
  sorted-All b (x ∷ xs) h =
      let k = insert-Bounded b x (sort_desc key xs) h in (k.0, sorted-All b xs k.1)

  keep-Bounded : (b : ℕ) (xs : Table) → All (λ y. key y ≤ b) (keep p xs) → Bounded p key b xs
  keep-Bounded b [] h = tt
  keep-Bounded b (x ∷ xs) h = ground (arith, keep-Bounded b xs)

  head_of_sorted :
      (l : Table) (r : IdentityState)
      → SortedDesc key l
      → All (λ x. p x ≡ true) l
      → head? l ≡ some r
      → (p r ≡ true) × All (λ y. key y ≤ key r) l
  head_of_sorted (x ∷ xs) r s a h = ground arith
  head_of_sorted [] r s a h = ground arith

  -- ORDER BY key DESC LIMIT 1 over the rows that pass `p`.
  first_row :
      (rows : Table) (r : IdentityState)
      → head? (sort_desc key (keep p rows)) ≡ some r
      → (p r ≡ true) × Bounded p key (key r) rows
  first_row rows r h =
      let k =
        head_of_sorted (sort_desc key (keep p rows)) r (sort_desc-SortedDesc key (keep p rows))
          (sort_desc-All key (λ x. p x ≡ true) (keep p rows) (keep-All p rows)) h in
      (k.0, keep-Bounded (key r) rows (sorted-All (key r) (keep p rows) k.1))

abbrev pub confirmed_of : String → IdentityState → Bool
confirmed_of identifier r = str_eq r.identifier identifier && status_eq r.status confirmed

-- The latest state of an identifier that a read finds is a confirmed row of it, and no confirmed row of it has a
-- greater id.
pub latest-IsLatest :
    (identifier : String) (rows : Table) (r : IdentityState)
    → get_latest_state_by_identifier none identifier rows ≡ ok r
    → (confirmed_of identifier r ≡ true)
      × Bounded (confirmed_of identifier) (λ s. s.state_id) r.state_id rows
unfolding get_latest_state_by_identifier
latest-IsLatest identifier rows r h =
    first_row (confirmed_of identifier) (λ s. s.state_id) rows r (ground arith)

abbrev pub failed_of : String → IdentityState → Bool
failed_of identifier r =
    str_eq r.identifier identifier && status_eq r.status failed && is_some r.previous_state

-- The failed state that a retry takes is a failed, non-genesis row of the identifier, and no such
-- row was created later.
pub get_failed_state-newest :
    (identifier : String) (rows : Table) (r : IdentityState)
    → get_failed_state none identifier rows ≡ ok (some r)
    → (failed_of identifier r ≡ true)
      × Bounded (failed_of identifier) (λ s. s.created_at) r.created_at rows
unfolding get_failed_state get_states_by_status_and_issuer_id
get_failed_state-newest identifier rows r h =
    first_row (failed_of identifier) (λ s. s.created_at) rows r (ground arith)
