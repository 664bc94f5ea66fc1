-- ===== src/Core/PathLaws.antt =====
-- The status that a lifecycle path allows, for cosheaf/core/paths.py and cosheaf/core/status.py.
use Prim.Native.Char.{code}
use Prim.Native.String
use text.Mathlib.TextLemmas.{nil-append, cons-append, append_assoc}
use tcs_cosheaf.Base.{
  String, Bool, true, false, not, ◌≡◌, ◌≢◌, refl, ◌∙◌, sym, ap, Option, none, some, List, [], ◌∷◌,
  arith, ◌&&◌, ◌||◌, ◌==◌, join, keep, Bool-cases, inl, inr, eq_iff, some_inj,
}
use tcs_cosheaf.Core.PurePath.{windows_as_posix, split_slash, path_parts, is_rooted, is_segment}
use tcs_cosheaf.Core.Status.{
  ArtifactType, ArtifactStatus, accepted, refuted, obsolete, superseded, raw, status_in,
  expected_status_for_path, same_status, allowed_for_parts,
}
use tcs_cosheaf.Core.Paths.{
  in_directory, yaml_name, lifecycle_artifact_path, artifact_type_directory,
}

windows_as_posix-append :
    (s t : String)
    → windows_as_posix (String.◌++◌ s t) ≡ String.◌++◌ (windows_as_posix s) (windows_as_posix t)
unfolding windows_as_posix
windows_as_posix-append String.[] t = rw (nil-append, nil-append)
windows_as_posix-append (String.◌∷◌ c s) t = elim (Bool-cases (code c == 92)) [
  | inl e ↦
      rw cons-append (rw e (rw append_assoc (ap (String.◌++◌ "/") (windows_as_posix-append s t))))
  | inr e ↦ rw cons-append (rw e (rw cons-append (ap (String.◌∷◌ c) (windows_as_posix-append s t))))
]

-- No slash stands in the text.
unfoldable pub slash_free : String → Bool
slash_free String.[] = true
slash_free (String.◌∷◌ c s) = not (code c == 47) && slash_free s

pub split_slash-append :
    (s t : String)
    → slash_free s ≡ true
    → split_slash (String.◌++◌ s (String.◌++◌ "/" t)) ≡ s ∷ split_slash t
unfolding split_slash slash_free
split_slash-append String.[] t h = rw nil-append (rw cons-append (rw nil-append refl))
split_slash-append (String.◌∷◌ c s) t h = elim (Bool-cases (code c == 47)) [
  | inl e ↦ cc (rw (e, not, ◌&&◌) at h)
  | inr e ↦ rw cons-append (rw e (rw (split_slash-append s t (ground arith)) refl))
]

pub is_rooted-append : (s t : String) → s ≢ "" → is_rooted (String.◌++◌ s t) ≡ is_rooted s
unfolding is_rooted
is_rooted-append String.[] t h = absurd (h refl)
is_rooted-append (String.◌∷◌ c s) t h = rw cons-append refl

-- A path under `kb` has `kb` and its folder for its first two parts.
module _ (folder rest : String) (free : slash_free folder ≡ true)
    (segment : is_segment folder ≡ true) (same : windows_as_posix folder ≡ folder) where
  windows_kb :
      windows_as_posix (join "/" ("kb" ∷ folder ∷ rest ∷ []))
      ≡ join "/" ("kb" ∷ folder ∷ windows_as_posix rest ∷ [])
  unfolding join
  windows_kb = simp (windows_as_posix-append, same) (unfold windows_as_posix in refl)

  split_kb :
      (t : String) → split_slash (join "/" ("kb" ∷ folder ∷ t ∷ [])) ≡ "kb" ∷ folder ∷ split_slash t
  unfolding join slash_free
  split_kb t = rw (split_slash-append "kb" _ refl) (rw (split_slash-append folder t free) refl)

  rooted_kb : (t : String) → is_rooted (join "/" ("kb" ∷ folder ∷ t ∷ [])) ≡ false
  unfolding join
  rooted_kb t =
      rw
        (is_rooted-append "kb" (String.◌++◌ "/" (String.◌++◌ folder (String.◌++◌ "/" t)))
          (λ e. ground (arith, eq_iff "kb" "")))
        (unfold is_rooted in refl)

  path_parts_kb :
      path_parts (windows_as_posix (join "/" ("kb" ∷ folder ∷ rest ∷ [])))
      ≡ "kb" ∷ folder ∷ keep is_segment (split_slash (windows_as_posix rest))
  unfolding path_parts
  path_parts_kb =
      rw (windows_kb, rooted_kb (windows_as_posix rest), split_kb (windows_as_posix rest))
        (rw segment refl)

-- The statuses that a record kept in the place of `home` may have.
abbrev pub admits : (home status : ArtifactStatus) → Bool
admits accepted status = same_status status accepted
admits refuted status = same_status status refuted
admits obsolete status = same_status status obsolete || same_status status superseded
admits superseded status = same_status status obsolete || same_status status superseded
admits _ status = not (same_status status accepted)

allowed_kb :
    (folder rest : String)
    → slash_free folder ≡ true
    → is_segment folder ≡ true
    → windows_as_posix folder ≡ folder
    → expected_status_for_path (join "/" ("kb" ∷ folder ∷ rest ∷ []))
      ≡ allowed_for_parts ("kb" ∷ folder ∷ keep is_segment (split_slash (windows_as_posix rest)))
unfolding expected_status_for_path
allowed_kb folder rest free segment same =
    ap allowed_for_parts (path_parts_kb folder rest free segment same)

-- What the folder alone decides.
module _ (more : List String) where
  accepted_folder :
      (s : ArtifactStatus)
      → status_in s (allowed_for_parts ("kb" ∷ "accepted" ∷ more)) ≡ admits accepted s
  unfolding status_in allowed_for_parts
  accepted_folder raw = refl
  accepted_folder _ = refl

  draft_folder :
      (s : ArtifactStatus) → status_in s (allowed_for_parts ("kb" ∷ "draft" ∷ more)) ≡ admits raw s
  unfolding status_in allowed_for_parts
  draft_folder raw = refl
  draft_folder _ = refl

  refuted_folder :
      (s : ArtifactStatus)
      → status_in s (allowed_for_parts ("kb" ∷ "refuted" ∷ more)) ≡ admits refuted s
  unfolding status_in allowed_for_parts
  refuted_folder raw = refl
  refuted_folder _ = refl

  obsolete_folder :
      (s : ArtifactStatus)
      → status_in s (allowed_for_parts ("kb" ∷ "obsolete" ∷ more)) ≡ admits obsolete s
  unfolding status_in allowed_for_parts
  obsolete_folder raw = refl
  obsolete_folder _ = refl

module _ (rest : String) (s : ArtifactStatus) where
  in_accepted :
      status_in s (expected_status_for_path (join "/" ("kb" ∷ "accepted" ∷ rest ∷ [])))
      ≡ admits accepted s
  unfolding slash_free is_segment windows_as_posix
  in_accepted = rw (allowed_kb "accepted" rest refl refl refl) (accepted_folder _ s)

  in_draft :
      status_in s (expected_status_for_path (join "/" ("kb" ∷ "draft" ∷ rest ∷ []))) ≡ admits raw s
  unfolding slash_free is_segment windows_as_posix
  in_draft = rw (allowed_kb "draft" rest refl refl refl) (draft_folder _ s)

  in_refuted :
      status_in s (expected_status_for_path (join "/" ("kb" ∷ "refuted" ∷ rest ∷ [])))
      ≡ admits refuted s
  unfolding slash_free is_segment windows_as_posix
  in_refuted = rw (allowed_kb "refuted" rest refl refl refl) (refuted_folder _ s)

  in_obsolete :
      status_in s (expected_status_for_path (join "/" ("kb" ∷ "obsolete" ∷ rest ∷ [])))
      ≡ admits obsolete s
  unfolding slash_free is_segment windows_as_posix
  in_obsolete = rw (allowed_kb "obsolete" rest refl refl refl) (obsolete_folder _ s)

-- A path with a directory is one with a longer rest.
deeper :
    (folder directory name : String)
    → join "/" ("kb" ∷ folder ∷ directory ∷ name ∷ [])
      ≡ join "/" ("kb" ∷ folder ∷ join "/" (directory ∷ name ∷ []) ∷ [])
unfolding join
deeper folder directory name = refl

in_directory_rest :
    (folder name : String) (directory : Option String) {path : String}
    → in_directory folder name directory ≡ some path
    → (rest : String) × (join "/" ("kb" ∷ folder ∷ rest ∷ []) ≡ path)
in_directory_rest folder name none e = cc
in_directory_rest folder name (some d) e =
    (join "/" (d ∷ yaml_name name ∷ []), sym (deeper folder d (yaml_name name)) ∙ some_inj e)

draft_home :
    (t : ArtifactType) (name : String) {path : String} (s : ArtifactStatus)
    → in_directory "draft" name (artifact_type_directory t) ≡ some path
    → status_in s (expected_status_for_path path) ≡ admits raw s
draft_home t name s e =
    let (rest, same) = in_directory_rest "draft" name (artifact_type_directory t) e in
    rw (← same) (in_draft rest s)

accepted_home :
    (t : ArtifactType) (name : String) {path : String} (s : ArtifactStatus)
    → in_directory "accepted" name (artifact_type_directory t) ≡ some path
    → status_in s (expected_status_for_path path) ≡ admits accepted s
accepted_home t name s e =
    let (rest, same) = in_directory_rest "accepted" name (artifact_type_directory t) e in
    rw (← same) (in_accepted rest s)

-- The path where the record of a status is kept allows that status, and of the others only those
-- kept there too: with an accepted record no other, with a refuted one no other, obsolete and
-- superseded together, and every status but accepted in the draft folder.
pub expected-lifecycle :
    (t : ArtifactType) (home : ArtifactStatus) (name : String) {path : String} (s : ArtifactStatus)
    → lifecycle_artifact_path t home name ≡ some path
    → status_in s (expected_status_for_path path) ≡ admits home s
unfolding lifecycle_artifact_path
expected-lifecycle t raw name s e = draft_home t name s e
expected-lifecycle t accepted name s e = accepted_home t name s e
expected-lifecycle t refuted name s e = rw (← some_inj e) (in_refuted (yaml_name name) s)
expected-lifecycle t obsolete name s e = rw (← some_inj e) (in_obsolete (yaml_name name) s)
expected-lifecycle t superseded name s e = rw (← some_inj e) (in_obsolete (yaml_name name) s)
expected-lifecycle t _ name s e = draft_home t name s e
