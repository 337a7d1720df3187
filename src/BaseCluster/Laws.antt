-- ===== src/BaseCluster/Laws.antt =====
-- Which manifests are valid.
use arlon.Prelude.{
  String, ◌≡◌, ◌↔◌, inl, inr, true, false, List, [], ◌∷◌, arith, All, ◌==◌, string_eq,
  if◌then◌else◌, Bool-cases,
}
use arlon.Go.Exec.{ok}
use arlon.BaseCluster.{Resource, validate_from, validate}

-- The names of the clusters among the resources.
abbrev pub clusters : List Resource → List String
clusters [] = []
clusters (r ∷ rs) = let rest = clusters rs in if r.kind == "Cluster" then r.name ∷ rest else rest

abbrev pub HaveNoNamespace : List Resource → Type 0
HaveNoNamespace = All (λ (r : Resource). (r.namespace == "") ≡ true)

abbrev pub HaveNames : List Resource → Type 0
HaveNames = All (λ (r : Resource). (r.name == "") ≡ false)

validate_from-HaveNoNamespace :
    (found : String) (rs : List Resource) (n : String)
    → validate_from found rs ≡ ok n
    → HaveNoNamespace rs
unfolding validate_from
validate_from-HaveNoNamespace found [] n h = tt
validate_from-HaveNoNamespace found (r ∷ rs) n h = elim (Bool-cases (r.namespace == "")) [
  | inr e ↦ absurd (ground (arith, e, h))
  | inl e ↦ elim (Bool-cases (r.kind == "Cluster")) [
    | inr k ↦ (e, validate_from-HaveNoNamespace found rs n (ground (arith, e, k, h)))
    | inl k ↦ (e, validate_from-HaveNoNamespace r.name rs n (ground (arith, e, k, h)))
  ]
]

no_more_clusters :
    (found : String) (rs : List Resource) (n : String)
    → (found == "") ≡ false
    → validate_from found rs ≡ ok n
    → (clusters rs ≡ []) × (found ≡ n)
unfolding validate_from
no_more_clusters found [] n filled h = ground (arith, filled, h)
no_more_clusters found (r ∷ rs) n filled h =
    ground (arith, filled, h, no_more_clusters found rs n filled)

one_cluster :
    (rs : List Resource) (n : String)
    → HaveNames rs
    → validate_from "" rs ≡ ok n
    → clusters rs ≡ n ∷ []
unfolding validate_from
one_cluster [] n named h = absurd (ground (arith, h))
one_cluster (r ∷ rs) n (name, named) h =
    ground (arith, name, h, one_cluster rs n named, no_more_clusters r.name rs n name)

valid_after :
    (found : String) (rs : List Resource)
    → (found == "") ≡ false
    → HaveNoNamespace rs
    → clusters rs ≡ []
    → validate_from found rs ≡ ok found
unfolding validate_from
valid_after found [] filled bare h = ground (arith, filled)
valid_after found (r ∷ rs) filled (e, bare) h =
    ground (arith, filled, e, h, valid_after found rs filled bare)

valid_one :
    (rs : List Resource) (n : String)
    → HaveNames rs
    → HaveNoNamespace rs
    → clusters rs ≡ n ∷ []
    → validate_from "" rs ≡ ok n
unfolding validate_from
valid_one [] n named bare h = absurd (ground (arith, h))
valid_one (r ∷ rs) n (name, named) (e, bare) h =
    ground (arith, name, e, h, valid_one rs n named bare, valid_after r.name rs name bare)

-- Where all resources have a name: `validate` gives the name `n` exactly if no resource has a
-- namespace and there is just one cluster, of the name `n`.
pub validate_iff :
    (rs : List Resource) (n : String)
    → HaveNames rs
    → (validate (ok rs) ≡ ok n) ↔ (HaveNoNamespace rs × (clusters rs ≡ n ∷ []))
unfolding validate
validate_iff rs n named = (
  λ h. (validate_from-HaveNoNamespace "" rs n h, one_cluster rs n named h),
  λ h. valid_one rs n named h.0 h.1,
)
