-- ===== src/BaseCluster/DirLaws.antt =====
-- What a directory of cluster templates holds when it is valid.
use arlon.Prelude.{
  String, ◌≡◌, refl, ◌∙◌, ap, sym, inl, inr, Bool, true, false, not, ◌&&◌, ◌||◌, List, [], ◌∷◌,
  ◌++◌, append_assoc, append-nil, ==-refl, arith, All, any, ◌==◌, string_eq, if◌then◌else◌,
  Bool-cases,
}
use arlon.Go.Exec.{Result, ok, Result-cases}
use arlon.Go.Path.{join}
use arlon.Git.{FileInfo}
use arlon.BaseCluster.{Resource, validate}
use arlon.BaseCluster.Dir.{Found, nothing, look_at, scan_dir, validate_dir}

abbrev is_named : String → FileInfo → Bool
is_named name info = info.name == name

abbrev is_manifest : FileInfo → Bool
is_manifest info =
    not (is_named "kustomization.yaml" info) && not (is_named "configurations.yaml" info)

-- The names of the files that are none of kustomize's.
abbrev pub manifests : List FileInfo → List String
manifests [] = []
manifests (info ∷ infos) =
    let rest = manifests infos in if is_manifest info then info.name ∷ rest else rest

abbrev pub AreFiles : List FileInfo → Type 0
AreFiles = All (λ (info : FileInfo). info.is_dir ≡ false)

abbrev pub HaveFileNames : List FileInfo → Type 0
HaveFileNames = All (λ (info : FileInfo). (info.name == "") ≡ false)

abbrev listed : String → List String
listed m = if m == "" then [] else m ∷ []

other_file :
    (info : FileInfo)
    → is_named "kustomization.yaml" info ≡ true
    → is_named "configurations.yaml" info ≡ false
other_file info h =
    let p : info.name ≡ "kustomization.yaml" = ground (arith, h) in
    rw (p) (unfold string_eq in refl)

look_at_lem :
    (multiple : String → String → String) (info : FileInfo) (found next : Found)
    → (info.name == "") ≡ false
    → look_at multiple info found ≡ ok next
    → (info.is_dir ≡ false)
      × (next.kustomization ≡ (is_named "kustomization.yaml" info || found.kustomization))
      × (next.configurations ≡ (is_named "configurations.yaml" info || found.configurations))
      × (listed next.manifest ≡ listed found.manifest ++ manifests (info ∷ []))
unfolding look_at
look_at_lem multiple info found next named h =
    elim (Bool-cases (is_named "kustomization.yaml" info)) [
      | inl e ↦ ground (arith, named, h, e, other_file info e)
      | inr e ↦ ground (arith, named, h, e)
    ]

manifests-cons :
    (info : FileInfo) (infos : List FileInfo)
    → manifests (info ∷ infos) ≡ manifests (info ∷ []) ++ manifests infos
manifests-cons info infos = ground arith

shift : (a b c : Bool) → (a || (b || c)) ≡ ((b || a) || c)
shift a b c = ground arith

scan_dir-listed :
    (multiple : String → String → String) (found last : Found) (infos : List FileInfo)
    → HaveFileNames infos
    → scan_dir multiple found infos ≡ ok last
    → AreFiles infos
      × (last.kustomization ≡ (found.kustomization || any (is_named "kustomization.yaml") infos))
      × (last.configurations ≡ (found.configurations || any (is_named "configurations.yaml") infos))
      × (listed last.manifest ≡ listed found.manifest ++ manifests infos)
unfolding scan_dir
scan_dir-listed multiple found last [] named h =
    ground (arith, h, append-nil (listed found.manifest))
scan_dir-listed multiple found last (info ∷ infos) (name, named) h =
    elim (Result-cases (look_at multiple info found)) [
      | inr (_, e) ↦ absurd (let k = rw (scan_dir, e) at h in ground (arith, k))
      | inl (next, e) ↦
          let (file, k, c, m) = look_at_lem multiple info found next name e in
          let (files, ks, cs, ms) =
            scan_dir-listed multiple next last infos named (rw (scan_dir, e) at h) in
          (
            (file, files),
            ground (arith, k, ks),
            ground (arith, c, cs),
            ms
                ∙ (ap (λ l. l ++ manifests infos) m
                    ∙ (append_assoc (listed found.manifest) (manifests (info ∷ []))
                          (manifests infos)
                        ∙ ap (λ l. listed found.manifest ++ l) (sym (manifests-cons info infos)))),
          )
    ]

-- When `validate_dir` gives a name, for a directory whose entries have names: there is no
-- subdirectory, both files of kustomize are there, there is just one file beside them, and the
-- manifest in it is valid, with that cluster name.
pub validate_dir-manifests :
    (manifest : String → Result (List Resource)) (dir_path : String) (infos : List FileInfo)
    (n : String)
    → HaveFileNames infos
    → validate_dir manifest dir_path infos ≡ ok n
    → AreFiles infos
      × (any (is_named "kustomization.yaml") infos ≡ true)
      × (any (is_named "configurations.yaml") infos ≡ true)
      × ((file : String) × (manifests infos ≡ file ∷ [])
          × (validate (manifest (join dir_path file)) ≡ ok n))
unfolding validate_dir
validate_dir-manifests manifest dir_path infos n named h =
    elim (Result-cases (scan_dir (λ _ _. "multiple manifests found") nothing infos)) [
      | inr (_, e) ↦ absurd (let k = rw (validate_dir, e) at h in ground (arith, k))
      | inl (f, e) ↦
          let (files, k, c, m) = scan_dir-listed _ nothing f infos named e in
          let h' = rw (validate_dir, e) at h in
          elim (Bool-cases (f.manifest == "")) [
            | inl none_ ↦ absurd (let k' = rw (none_) at h' in ground (arith, k'))
            | inr one ↦ elim (Bool-cases f.kustomization) [
              | inr no_k ↦ absurd (let k' = rw (one, no_k) at h' in ground (arith, k'))
              | inl yes_k ↦ elim (Bool-cases f.configurations) [
                | inr no_c ↦ absurd (let k' = rw (one, yes_k, no_c) at h' in ground (arith, k'))
                | inl yes_c ↦ (
                  files,
                  sym k ∙ yes_k,
                  sym c ∙ yes_c,
                  (
                    f.manifest,
                    sym (rw (one, ==-refl {A = String} "") at m),
                    rw (one, yes_k, yes_c) at h',
                  ),
                )
              ]
            ]
          ]
    ]
