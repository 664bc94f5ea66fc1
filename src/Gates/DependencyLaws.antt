-- ===== src/Gates/DependencyLaws.antt =====
-- What no failure of cosheaf/gates/dependency_gate.py says of the records.
use tcs_cosheaf.Base.{
  String, not, List, [], ◌∷◌, ◌≡◌, ◌≤◌, ◌↔◌, refl, ◌∙◌, ap, ◌⊎◌, inl, inr, arith, some, Bool-cases,
  Option-cases, In, All-at, All-of_In, keep, In-keep, In-keep_of, In-sort_of, length, length-map,
  length-sort, map, sort, collect-eq-nil, collect-nil, str_eq, eq_iff, eq_refl,
}
use tcs_cosheaf.Storage.{LoadedRecord, record_id}
use tcs_cosheaf.Gates.Dependency.{
  get_by_id, paths_of, path_failures, distinct, text_le, duplicate_failures, validate_id_uniqueness,
}

-- No two records have one identifier.
abbrev pub IsUnique : List LoadedRecord → Type 0
IsUnique records = (key : String) → length (keep (λ r. str_eq (record_id r) key) records) ≤ 1

pub In-distinct_of : (ss : List String) (s : String) → In s ss → In s (distinct ss)
unfolding distinct
In-distinct_of [] s m = elim m [ ]
In-distinct_of (t ∷ ss) s (inl e) = inl e
In-distinct_of (t ∷ ss) s (inr m) = elim (Bool-cases (str_eq t s)) [
  | inl e ↦ inl ((eq_iff t s).0 e)
  | inr e ↦
      inr (In-keep_of (λ u. not (str_eq t u)) (distinct ss) s (In-distinct_of ss s m) (rw e refl))
]

pub In-distinct : (ss : List String) (s : String) → In s (distinct ss) → In s ss
unfolding distinct
In-distinct [] s m = elim m [ ]
In-distinct (t ∷ ss) s (inl e) = inl e
In-distinct (t ∷ ss) s (inr m) =
    inr (In-distinct ss s (In-keep (λ u. not (str_eq t u)) (distinct ss) s m).0)

path_failures-nil :
    (key : String) (paths : List String) → path_failures key paths ≡ [] → length paths ≤ 1
unfolding path_failures
path_failures-nil key [] h = omega arith
path_failures-nil key (p ∷ ps) h = ground arith

path_failures_of :
    (key : String) (paths : List String) → length paths ≤ 1 → path_failures key paths ≡ []
unfolding path_failures
path_failures_of key [] h = refl
path_failures_of key (p ∷ ps) h = ground arith

-- The number of paths of an identifier is the number of its records.
length-paths :
    (key : String) (records : List LoadedRecord)
    → length (sort text_le (paths_of key records))
      ≡ length (keep (λ r. str_eq (record_id r) key) records)
unfolding paths_of
length-paths key records =
    length-sort text_le _
    ∙ length-map (λ (r : LoadedRecord). r.source_path)
        (keep (λ r. str_eq (record_id r) key) records)

no_member_short :
    (key : String) (records : List LoadedRecord)
    → ¬ In key (map record_id records)
    → length (keep (λ r. str_eq (record_id r) key) records) ≤ 1
unfolding keep
no_member_short key [] h = omega arith
no_member_short key (r ∷ rs) h = elim (Bool-cases (str_eq (record_id r) key)) [
  | inl e ↦ absurd (h (inl ((eq_iff (record_id r) key).0 e)))
  | inr e ↦ rw e (no_member_short key rs (λ m. h (inr m)))
]

dec_In : (s : String) (ss : List String) → In s ss ⊎ (¬ In s ss)
dec_In s [] = inr (λ m. m)
dec_In s (t ∷ ss) = elim (Bool-cases (str_eq t s)) [
  | inl e ↦ inl (inl ((eq_iff t s).0 e))
  | inr e ↦ elim (dec_In s ss) [
    | inl m ↦ inl (inr m)
    | inr no_m ↦ inr (elim [ inl f ↦ cc (rw (← f, eq_refl t) at e) | inr m ↦ no_m m ])
  ]
]

-- No uniqueness failure is reported exactly if no two loaded records have one identifier.
pub validate_id_uniqueness_iff :
    (records : List LoadedRecord) → (validate_id_uniqueness records ≡ []) ↔ IsUnique records
unfolding validate_id_uniqueness duplicate_failures
validate_id_uniqueness_iff records = (there, back)
  where
    keys : List String
    keys = sort text_le (distinct (map record_id records))

    there : validate_id_uniqueness records ≡ [] → IsUnique records
    there h key = elim (dec_In key (map record_id records)) [
      | inl m ↦ rw (← length-paths key records) (
          path_failures-nil key _ (
            All-at (λ k. duplicate_failures records k ≡ []) keys
              (collect-eq-nil (duplicate_failures records) keys h) key
              (In-sort_of text_le key _ (In-distinct_of _ key m))))
      | inr no_m ↦ no_member_short key records no_m
    ]

    back : IsUnique records → validate_id_uniqueness records ≡ []
    back unique = collect-nil (duplicate_failures records) keys (
        All-of_In (λ k. duplicate_failures records k ≡ []) keys
          (λ k m. path_failures_of k _ (rw (length-paths k records) (unique k))))

pub get_by_id_sound :
    (key : String) (records : List LoadedRecord) {found : LoadedRecord}
    → get_by_id key records ≡ some found
    → In found records × (record_id found ≡ key)
unfolding get_by_id
get_by_id_sound key [] h = cc
get_by_id_sound key (r ∷ rs) h = elim (Option-cases (get_by_id key rs)) [
  | inl e ↦ elim (Bool-cases (str_eq (record_id r) key)) [
    | inl f ↦ (inl (ground arith), ground (arith, eq_iff (record_id r) key))
    | inr f ↦ absurd (ground arith)
  ]
  | inr (later, e) ↦ let (m, same) = get_by_id_sound key rs (ground arith) in (inr m, same)
]

pub get_by_id_found :
    (key : String) (records : List LoadedRecord) (r : LoadedRecord)
    → In r records
    → record_id r ≡ key
    → (found : LoadedRecord) × (get_by_id key records ≡ some found)
unfolding get_by_id
get_by_id_found key [] r m e = elim m [ ]
get_by_id_found key (s ∷ rs) r m e = elim (Option-cases (get_by_id key rs)) [
  | inr (later, f) ↦ (later, rw f)
  | inl f ↦ elim m [
    | inl same ↦ (s, rw f (ground (arith, eq_iff (record_id s) key, ap record_id same)))
    | inr m' ↦ let (later, g) = get_by_id_found key rs r m' e in cc
  ]
]
