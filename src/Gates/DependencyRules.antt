-- ===== src/Gates/DependencyRules.antt =====
-- The rules that cosheaf/gates/dependency_gate.py enforces on dependencies.
use tcs_cosheaf.Base.{
  String, true, false, ◌&&◌, List, [], ◌≡◌, ◌↔◌, refl, sym, ◌∙◌, ap, ◌⊎◌, inl, inr, arith, Option,
  none, some, some_inj, Bool-cases, Option-cases, In, All-at, All-of_In, keep, In-keep, In-keep_of,
  In-sort, In-sort_of, In-one, collect-eq-nil, collect-nil, str_eq, eq_iff,
}
use tcs_cosheaf.Core.Status.{ArtifactStatus, accepted, is_accepted_status, is_preaccepted_status}
use tcs_cosheaf.Core.Artifact.{BaseArtifact}
use tcs_cosheaf.Core.Validate.{is_external_dependency_ref}
use tcs_cosheaf.Storage.{LoadedRecord, record_id, as_artifact, is_artifact, record_le}
use tcs_cosheaf.Gates.Dependency.{
  get_by_id, root_is, public_depends_on_private, layer_failures, dependency_failures,
  record_failures, sorted_artifacts, validate_dependencies,
}
use tcs_cosheaf.Gates.DependencyLaws.{IsUnique, get_by_id_sound, get_by_id_found}

-- A public artifact uses no private one, and an accepted artifact none that is not yet accepted.
pub record RespectsLayers (loaded : LoadedRecord) (a : BaseArtifact) (dependency : LoadedRecord)
    (b : BaseArtifact) : Type 0 where
  pub layered : loaded.kb_root_name ≡ some "public" → dependency.kb_root_name ≡ some "private" → ⊥
  pub settled : a.status ≡ accepted → is_preaccepted_status b.status ≡ false

pub record Resolves (records : List LoadedRecord) (loaded : LoadedRecord) (a : BaseArtifact)
    (d : String) : Type 0 where
  pub dependency : LoadedRecord
  pub target : BaseArtifact
  pub loaded_too : In dependency records
  pub named : record_id dependency ≡ d
  pub typed : as_artifact dependency ≡ some target
  pub respects : RespectsLayers loaded a dependency target

abbrev pub IsAllowed : List LoadedRecord → LoadedRecord → BaseArtifact → String → Type 0
IsAllowed records loaded a d = (is_external_dependency_ref d ≡ true) ⊎ Resolves records loaded a d

pub accepted_iff : (s : ArtifactStatus) → (is_accepted_status s ≡ true) ↔ (s ≡ accepted)
unfolding is_accepted_status
accepted_iff accepted = (λ h. refl, λ h. refl)
accepted_iff _ = (λ h. cc, λ h. cc)

pub root_is_iff :
    (name : String) (root : Option String) → (root_is name root ≡ true) ↔ (root ≡ some name)
root_is_iff name none = (λ h. cc, λ h. cc)
root_is_iff name (some root) =
    (λ h. ap some ((eq_iff root name).0 h), λ h. (eq_iff root name).1 (some_inj h))

layer_failures-RespectsLayers :
    (loaded : LoadedRecord) (a : BaseArtifact) (d : String) (dependency : LoadedRecord)
    (b : BaseArtifact)
    → layer_failures loaded a d dependency b ≡ []
    → RespectsLayers loaded a dependency b
unfolding layer_failures public_depends_on_private
layer_failures-RespectsLayers loaded a d dependency b h = record {
  layered = λ p q. ground (
    arith,
    (root_is_iff "public" loaded.kb_root_name).1 p,
    (root_is_iff "private" dependency.kb_root_name).1 q,
  );
  settled = λ p. ground (arith, (accepted_iff a.status).1 p);
}

private_free :
    (loaded dependency : LoadedRecord)
    → (loaded.kb_root_name ≡ some "public" → dependency.kb_root_name ≡ some "private" → ⊥)
    → public_depends_on_private loaded dependency ≡ false
unfolding public_depends_on_private
private_free loaded dependency h = elim (Bool-cases (root_is "public" loaded.kb_root_name)) [
  | inr e ↦ rw e refl
  | inl e ↦ elim (Bool-cases (root_is "private" dependency.kb_root_name)) [
    | inr f ↦ rw (e, f) refl
    | inl f ↦ absurd (h ((root_is_iff "public" _).0 e) ((root_is_iff "private" _).0 f))
  ]
]

draft_free :
    (s t : ArtifactStatus)
    → (s ≡ accepted → is_preaccepted_status t ≡ false)
    → is_accepted_status s && is_preaccepted_status t ≡ false
draft_free s t h = elim (Bool-cases (is_accepted_status s)) [
  | inr e ↦ rw e refl
  | inl e ↦ rw (e, h ((accepted_iff s).0 e)) refl
]

layer_failures_of :
    (loaded : LoadedRecord) (a : BaseArtifact) (d : String) (dependency : LoadedRecord)
    (b : BaseArtifact)
    → RespectsLayers loaded a dependency b
    → layer_failures loaded a d dependency b ≡ []
unfolding layer_failures
layer_failures_of loaded a d dependency b h =
    rw (private_free loaded dependency h.layered, draft_free a.status b.status h.settled) refl

In-sorted_artifacts :
    (records : List LoadedRecord) (r : LoadedRecord)
    → In r (sorted_artifacts records)
    → In r records
In-sorted_artifacts records r m =
    (In-keep is_artifact records r (In-sort record_le r (keep is_artifact records) m)).0

In-sorted_artifacts_of :
    (records : List LoadedRecord) (r : LoadedRecord) {a : BaseArtifact}
    → In r records
    → as_artifact r ≡ some a
    → In r (sorted_artifacts records)
In-sorted_artifacts_of records r m e =
    In-sort_of record_le r (keep is_artifact records)
      (In-keep_of is_artifact records r m (ground arith))

module _ (records : List LoadedRecord) (loaded : LoadedRecord) (a : BaseArtifact) (d : String) where
  dependency_failures-IsAllowed :
      dependency_failures (sorted_artifacts records) loaded a d ≡ [] → IsAllowed records loaded a d
  unfolding dependency_failures
  dependency_failures-IsAllowed h = elim (Bool-cases (is_external_dependency_ref d)) [
    | inl e ↦ inl e
    | inr e ↦ elim (Option-cases (get_by_id d (sorted_artifacts records))) [
      | inl f ↦ absurd (ground arith)
      | inr (dep, f) ↦
          let (m, named) = get_by_id_sound d (sorted_artifacts records) f in
          elim (Option-cases (as_artifact dep)) [
            | inl g ↦ absurd (
                cc
                  (In-keep is_artifact records dep
                    (In-sort record_le dep (keep is_artifact records) m)).1)
            | inr (b, g) ↦ inr (record {
              dependency = dep;
              target = b;
              loaded_too = In-sorted_artifacts records dep m;
              named = named;
              typed = g;
              respects = layer_failures-RespectsLayers loaded a d dep b (rw (e, f, g) at h);
            })
          ]
    ]
  ]

-- One identifier stands for one record.
pub IsUnique-eq :
    (records : List LoadedRecord) (r s : LoadedRecord)
    → IsUnique records
    → In r records
    → In s records
    → record_id r ≡ record_id s
    → r ≡ s
IsUnique-eq records r s unique m n e =
    In-one _ r s (unique (record_id s))
      (In-keep_of (λ t. str_eq (record_id t) (record_id s)) records r m ((eq_iff _ _).1 e))
      (In-keep_of (λ t. str_eq (record_id t) (record_id s)) records s n ((eq_iff _ _).1 refl))

module _ (records : List LoadedRecord) (unique : IsUnique records) (loaded : LoadedRecord)
    (a : BaseArtifact) (d : String) where
  dependency_failures_of :
      IsAllowed records loaded a d → dependency_failures (sorted_artifacts records) loaded a d ≡ []
  unfolding dependency_failures
  dependency_failures_of (inl e) = rw e refl
  dependency_failures_of (inr r) =
      let (found, e) =
        get_by_id_found d (sorted_artifacts records) r.dependency
          (In-sorted_artifacts_of records r.dependency r.loaded_too r.typed) r.named in
      let (m, named) = get_by_id_sound d (sorted_artifacts records) e in
      let same =
        IsUnique-eq records found r.dependency unique (In-sorted_artifacts records found m)
          r.loaded_too (named ∙ sym r.named) in
      elim (Bool-cases (is_external_dependency_ref d)) [
        | inl x ↦ rw x refl
        | inr x ↦
            rw (x, e ∙ ap some same, r.typed)
              (layer_failures_of loaded a d r.dependency r.target r.respects)
      ]

-- Where identifiers are unique, no dependency failure is reported exactly if every dependency of
-- every artifact is external, or names a loaded artifact that the public layer and the accepted
-- status of its user allow.
pub validate_dependencies_iff :
    (records : List LoadedRecord)
    → IsUnique records
    → (validate_dependencies records ≡ []) ↔ (
        (loaded : LoadedRecord) (a : BaseArtifact) (d : String)
        → In loaded records
        → as_artifact loaded ≡ some a
        → In d a.depends_on
        → IsAllowed records loaded a d)
unfolding validate_dependencies record_failures
validate_dependencies_iff records unique = (there, back)
  where
    sorted : List LoadedRecord
    sorted = sorted_artifacts records

    there :
        validate_dependencies records ≡ []
        → (loaded : LoadedRecord) (a : BaseArtifact) (d : String) → In loaded records
        → as_artifact loaded ≡ some a
        → In d a.depends_on
        → IsAllowed records loaded a d
    there h loaded a d m e n =
        let none_here =
          All-at (λ r. record_failures sorted r ≡ []) sorted
            (collect-eq-nil (record_failures sorted) sorted h) loaded
            (In-sorted_artifacts_of records loaded m e) in
        dependency_failures-IsAllowed records loaded a d (
          All-at (λ x. dependency_failures sorted loaded a x ≡ []) a.depends_on
            (collect-eq-nil (dependency_failures sorted loaded a) a.depends_on
              (rw (e, record_failures) at none_here))
            d n)

    back :
        ((loaded : LoadedRecord) (a : BaseArtifact) (d : String)
          → In loaded records
          → as_artifact loaded ≡ some a
          → In d a.depends_on
          → IsAllowed records loaded a d)
        → validate_dependencies records ≡ []
    back h = collect-nil (record_failures sorted) sorted (
        All-of_In (λ r. record_failures sorted r ≡ []) sorted
          (λ loaded m. elim (Option-cases (as_artifact loaded)) [
            | inl e ↦ rw (e, record_failures) refl
            | inr (a, e) ↦
                rw (e, record_failures)
                  (collect-nil (dependency_failures sorted loaded a) a.depends_on (
                    All-of_In (λ x. dependency_failures sorted loaded a x ≡ []) a.depends_on
                      (λ d n.
                        dependency_failures_of records unique loaded a d
                          (h loaded a d (In-sorted_artifacts records loaded m) e n))))
          ]))
