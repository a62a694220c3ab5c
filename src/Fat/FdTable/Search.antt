-- ===== src/Fat/FdTable/Search.antt =====
-- src/pennfat/fat.c: the two searches of the global descriptor table.
use pennos.Base.{
  ℕ, zero, suc, ◌+◌, ◌-◌, ◌≤◌, ◌<◌, ◌≡◌, refl, ◌≢◌, Bool, true, false, ◌&&◌, not, List, Option,
  none, some, arith, ◌==◌, Bool-cases, ◌⊎◌, inl, inr,
}
use pennos.Fat.State.{DirEntry, FdEntry, Kernel, global_fd_table_size, sentinel}
use pennos.Base.Returns
use pennos.Base.Returns.{Returns, returns}
use pennos.Fat.Names.{strcmp_eq}
use pennos.Fat.FdTable.{
  is_special_name, find_file_from, find_file_in_global_fd_table, empty_fd_from, find_empty_fd,
}

-- An open entry has its copy of the directory entry.
abbrev pub HasCopies : Kernel → Type 0
HasCopies k =
    (i : ℕ)
    → 3 ≤ i
    → (k.table i).ref_count ≢ 0
    → (e : DirEntry) × ((k.table i).ptr_to_dir_entry ≡ some e)

-- The entry is open under this name, and the name is no mark of a deleted file.
abbrev pub is_open_as : List ℕ → FdEntry → Bool
is_open_as fname g = not (g.ref_count == 0) && elim g.ptr_to_dir_entry [
  | none ↦ false
  | some e ↦ not (is_special_name e) && strcmp_eq fname e.name
]

-- The least index from `i` up to `top` whose entry is open under the name, or none.
abbrev pub IsFirst : Kernel → List ℕ → (i top : ℕ) → Option ℕ → Type 0
IsFirst k fname i top none = (m : ℕ) → i ≤ m → m < top → is_open_as fname (k.table m) ≡ false
IsFirst k fname i top (some j) =
    (i ≤ j)
    × (j < top)
    × (is_open_as fname (k.table j) ≡ true)
    × ((m : ℕ) → i ≤ m → m < j → is_open_as fname (k.table m) ≡ false)

IsFirst-skip :
    (k : Kernel) (fname : List ℕ) (i top : ℕ) (r : Option ℕ)
    → is_open_as fname (k.table i) ≡ false
    → IsFirst k fname (i + 1) top r
    → IsFirst k fname i top r
IsFirst-skip k fname i top none h first = λ m le lt. elim (Bool-cases (i == m)) [
  | inl e ↦ let e' : i ≡ m = ground arith in rw (← e') h
  | inr ne ↦ first m (ground arith) lt
]
IsFirst-skip k fname i top (some j) h (le, lt, is, before) = (
  omega arith,
  lt,
  is,
  λ m le' lt'. elim (Bool-cases (i == m)) [
    | inl e ↦ let e' : i ≡ m = ground arith in rw (← e') h
    | inr ne ↦ before m (ground arith) lt'
  ],
)

module _ (k : Kernel) (copies : HasCopies k) (fname : List ℕ) where
  find_file_from-IsFirst :
      (rounds i top : ℕ)
      → 3 ≤ i
      → i + rounds ≡ top
      → Returns (λ r g. (g ≡ k) × IsFirst k fname i top r) (find_file_from fname rounds i k)
  unfolding find_file_from
  find_file_from-IsFirst zero i top ge e = returns (refl, λ m le lt. absurd (omega arith))
  find_file_from-IsFirst (suc rounds) i top ge e =
      let rest = find_file_from-IsFirst rounds (i + 1) top (omega arith) (omega arith) in
      let skip : is_open_as fname (k.table i) ≡ false
          → Returns (λ r g. (g ≡ k) × IsFirst k fname i top r)
              (find_file_from fname rounds (i + 1) k) =
        λ h. Returns.mono rest (λ r g p. (p.0, IsFirst-skip k fname i top r h p.1)) in
      elim (Bool-cases ((k.table i).ref_count == 0)) [
        | inl closed ↦ rw closed (skip (ground arith))
        | inr opened ↦
            let (d, has_copy) = copies i ge (ground arith) in
            rw (opened, has_copy)
              (elim (Bool-cases (is_special_name d)) [
                | inl special ↦ rw special (skip (ground arith))
                | inr normal ↦ rw normal (elim (Bool-cases (strcmp_eq fname d.name)) [
                  | inl same ↦ rw same (
                      returns (
                        refl,
                        (omega arith, omega arith, ground arith, λ m le lt. absurd (omega arith)),
                      ))
                  | inr differs ↦ rw differs (skip (ground arith))
                ])
              ])
      ]

  -- If every open entry has its copy, `find_file_in_global_fd_table` returns, changes nothing, and
  -- finds the least index from 3 to 4095 that is open under the name, or none if there is none.
  pub find_file_in_global_fd_table-IsFirst :
      Returns
        (λ r g. (g ≡ k) × IsFirst k fname 3 global_fd_table_size r)
        (find_file_in_global_fd_table fname k)
  unfolding find_file_in_global_fd_table
  find_file_in_global_fd_table-IsFirst =
      find_file_from-IsFirst (global_fd_table_size - 3) 3 global_fd_table_size (omega arith) refl

-- `r` is the least index from `i` up to `top` that is free, or the sentinel if none is.
abbrev pub IsLeastFree : (ℕ → FdEntry) → (i top r : ℕ) → Type 0
IsLeastFree table i top r =
    ((r ≡ sentinel) × ((m : ℕ) → i ≤ m → m < top → (table m).ref_count ≢ 0))
    ⊎ ((i ≤ r)
        × (r < top)
        × ((table r).ref_count ≡ 0)
        × ((m : ℕ) → i ≤ m → m < r → (table m).ref_count ≢ 0))

used_from :
    (table : ℕ → FdEntry) (i top : ℕ)
    → (table i).ref_count ≢ 0
    → ((m : ℕ) → i + 1 ≤ m → m < top → (table m).ref_count ≢ 0)
    → (m : ℕ) → i ≤ m
    → m < top
    → (table m).ref_count ≢ 0
used_from table i top here later m le lt = elim (Bool-cases (i == m)) [
  | inl e ↦ let e' : i ≡ m = ground arith in rw (← e') here
  | inr ne ↦ later m (ground arith) lt
]

empty_fd_from-IsLeastFree :
    (table : ℕ → FdEntry) (rounds i : ℕ)
    → IsLeastFree table i (i + rounds) (empty_fd_from table rounds i)
unfolding empty_fd_from
empty_fd_from-IsLeastFree table zero i = inl (refl, λ m le lt. absurd (omega arith))
empty_fd_from-IsLeastFree table (suc rounds) i = elim (Bool-cases ((table i).ref_count == 0)) [
  | inl free ↦
      rw free (inr (omega arith, omega arith, ground arith, λ m le lt. absurd (omega arith)))
  | inr used ↦ rw used (elim (empty_fd_from-IsLeastFree table rounds (i + 1)) [
    | inl (e, all) ↦
        inl
          (e, used_from table i (i + suc rounds) (ground arith) (λ m le lt. all m le (omega arith)))
    | inr (le, lt, is, before) ↦
        inr (omega arith, omega arith, is, used_from table i _ (ground arith) before)
  ])
]

-- `find_empty_fd` gives the least free descriptor from 3 to 4095, or the sentinel 0xFFFF if every
-- one of them is in use.
pub find_empty_fd-IsLeastFree :
    (table : ℕ → FdEntry) → IsLeastFree table 3 global_fd_table_size (find_empty_fd table)
unfolding find_empty_fd
find_empty_fd-IsLeastFree table = empty_fd_from-IsLeastFree table (global_fd_table_size - 3) 3
