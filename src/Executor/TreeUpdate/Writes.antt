-- ===== src/Executor/TreeUpdate/Writes.antt =====
-- The entries of a tree update that passes the checks of `verify_tree_update` are the writes, as maps.
use zksync_os_zisk.Prelude.{
  suc, ◌≤◌, ◌≡◌, ◌≢◌, refl, ap, sym, ◌∙◌, inl, inr, false, Option, none, some, List, [], ◌∷◌, ◌==◌,
  ==→eq, ==→ne, Bool-cases, if◌then◌else◌, length, ok, guard-eq-ok, from_option, from_option-eq-ok,
  >>=-eq-ok, arith,
}
use zksync_os_zisk.Merkle.Hash.{B256}
use zksync_os_zisk.Merkle.Update.{WriteOp}
use zksync_os_zisk.Merkle.Update.Values.{overlay}
use zksync_os_zisk.Executor.TreeUpdate.{
  Entries, lookup, contains, distinct_keys, check_entries, key_not_written, value_mismatch,
}

-- No key stands twice.
abbrev pub Distinct : Entries → Type 0
Distinct [] = Unit
Distinct ((k, v) ∷ rest) = (lookup k rest ≡ none) × Distinct rest

length-distinct_keys : (es : Entries) → length (distinct_keys es) ≤ length es
unfolding distinct_keys
length-distinct_keys [] = omega arith
length-distinct_keys ((k, v) ∷ es) = ground (arith, length-distinct_keys es)

contains-distinct_keys :
    (key : B256) (es : Entries) → contains key (distinct_keys es) ≡ false → lookup key es ≡ none
unfolding distinct_keys contains lookup
contains-distinct_keys key [] e = refl
contains-distinct_keys key ((k, v) ∷ es) e = elim (Bool-cases (contains k (distinct_keys es))) [
  | inl dup ↦
      let later : contains key (distinct_keys es) ≡ false = rw dup at e in
      elim (Bool-cases (k == key)) [
        | inl same ↦ absurd (cc (rw (==→eq k key same) at dup))
        | inr other ↦ rw other (contains-distinct_keys key es later)
      ]
  | inr new ↦ elim (Bool-cases (k == key)) [
    | inl same ↦ absurd (cc (rw (new, same) at e))
    | inr other ↦ rw other (contains-distinct_keys key es (rw (new, other) at e))
  ]
]

pub distinct_keys-Distinct : (es : Entries) → length (distinct_keys es) ≡ length es → Distinct es
unfolding distinct_keys
distinct_keys-Distinct [] e = tt
distinct_keys-Distinct ((k, v) ∷ es) e = elim (Bool-cases (contains k (distinct_keys es))) [
  | inl dup ↦ absurd (omega (arith, rw dup at e, length-distinct_keys es))
  | inr new ↦
      let e' : suc (length (distinct_keys es)) ≡ suc (length es) = rw new at e in
      (contains-distinct_keys k es new, distinct_keys-Distinct es (omega arith))
]

-- The first entry of a key, taken out.
erase : B256 → Entries → Entries
erase key [] = []
erase key ((k, v) ∷ rest) = if k == key then rest else (k, v) ∷ erase key rest

length-erase :
    (key v : B256) (es : Entries) → lookup key es ≡ some v → length es ≡ suc (length (erase key es))
unfolding erase lookup
length-erase key v [] e = absurd (cc)
length-erase key v ((k, w) ∷ es) e = elim (Bool-cases (k == key)) [
  | inl same ↦ rw same refl
  | inr other ↦ rw other (ap suc (length-erase key v es (rw other at e)))
]

lookup-erase : (key j : B256) (es : Entries) → key ≢ j → lookup j (erase key es) ≡ lookup j es
unfolding erase lookup
lookup-erase key j [] ne = refl
lookup-erase key j ((k, w) ∷ es) ne = elim (Bool-cases (k == key)) [
  | inl same ↦ elim (Bool-cases (k == j)) [
    | inl also ↦ absurd (ne (sym (==→eq _ _ same) ∙ ==→eq _ _ also))
    | inr other ↦ rw (same, other) refl
  ]
  | inr other ↦ rw other (rw (lookup-erase key j es ne) refl)
]

-- Every entry is a write of that value.
abbrev pub WrittenIn : Entries → Entries → Type 0
WrittenIn writes [] = Unit
WrittenIn writes ((k, v) ∷ rest) = (lookup k writes ≡ some v) × WrittenIn writes rest

pub check_entries-WrittenIn :
    (writes es : Entries) → check_entries writes es ≡ ok tt → WrittenIn writes es
unfolding check_entries
check_entries-WrittenIn writes [] e = tt
check_entries-WrittenIn writes ((k, v) ∷ es) e =
    let (w, found, e₁) = >>=-eq-ok (from_option (lookup k writes) key_not_written) _ e in
    let (same, e₂) = guard-eq-ok (v == w) value_mismatch _ e₁ in
    (
      from_option-eq-ok _ _ found ∙ ap some (sym (==→eq v w same)),
      check_entries-WrittenIn writes es e₂,
    )

WrittenIn-erase :
    (key : B256) (writes es : Entries)
    → lookup key es ≡ none
    → WrittenIn writes es
    → WrittenIn (erase key writes) es
unfolding lookup
WrittenIn-erase key writes [] absent h = tt
WrittenIn-erase key writes ((k, v) ∷ es) absent (w, ws) = elim (Bool-cases (k == key)) [
  | inl same ↦ absurd (cc (rw same at absent))
  | inr other ↦ (
    lookup-erase key k writes (λ e. ==→ne _ _ other (sym e)) ∙ w,
    WrittenIn-erase key writes es (rw other at absent) ws,
  )
]

-- As many distinct entries as writes, each a write: the two are one map.
pub lookup-entries :
    (writes es : Entries)
    → Distinct es
    → length writes ≡ length es
    → WrittenIn writes es
    → (j : B256) → lookup j writes ≡ lookup j es
unfolding lookup
lookup-entries [] [] d el w j = refl
lookup-entries (x ∷ writes) [] d el w j = absurd (omega arith)
lookup-entries writes ((k, v) ∷ es) (fresh, d) el (w, ws) j = elim (Bool-cases (k == j)) [
  | inl same ↦ rw same (rw (==→eq k j same) at w)
  | inr other ↦ rw other (
      sym (lookup-erase k j writes (==→ne k j other))
      ∙ lookup-entries (erase k writes) es d (omega (arith, length-erase k v writes w))
          (WrittenIn-erase k writes es fresh ws) j)
]

-- What a map holds, or else the given value.
abbrev pub or_else : Option B256 → Option B256 → Option B256
or_else (some v) old = some v
or_else none old = old

pub overlay-entries :
    (ops : List WriteOp) (es : Entries) (values : B256 → Option B256)
    → length ops ≡ length es
    → Distinct es
    → (j : B256) → overlay ops es values j ≡ or_else (lookup j es) (values j)
unfolding overlay lookup
overlay-entries [] [] values el d j = refl
overlay-entries [] (x ∷ es) values el d j = absurd (omega arith)
overlay-entries (op ∷ ops) [] values el d j = absurd (omega arith)
overlay-entries (op ∷ ops) ((k, v) ∷ es) values el (fresh, d) j =
    overlay-entries ops es (λ i. if k == i then some v else values i) (omega arith) d j
    ∙ (elim (Bool-cases (k == j)) [
      | inl same ↦ rw (same, rw (==→eq k j same) at fresh) refl
      | inr other ↦ rw other refl
    ])
