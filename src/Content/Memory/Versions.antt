-- ===== src/Content/Memory/Versions.antt =====
-- Document versions of the in-memory content repository: numbered from one, without a gap.
use training_ops_scheduling.Base.{
  ℕ, ◌+◌, ◌≡◌, refl, String, List, [], ◌∷◌, ◌++◌, length, arith, inl, inr, Option-cases,
}
use training_ops_scheduling.Base.Table.{lookup, lookup-insert_self}
use training_ops_scheduling.Base.Invariant.{Each, Each-lookup, Each-insert}
use training_ops_scheduling.Base.Result.{ok}
use training_ops_scheduling.Content.Data.{DocumentVersion}
use training_ops_scheduling.Content.Memory.{
  ContentRepository, new_content_repository, content_key, versions_at, add_document_version,
}

-- The versions are numbered on from the number.
abbrev pub NumberedFrom : ℕ → List DocumentVersion → Type 0
NumberedFrom n [] = Unit {0}
NumberedFrom n (v ∷ vs) = (v.version ≡ n + 1) × NumberedFrom (n + 1) vs

NumberedFrom-append :
    (n : ℕ) (vs : List DocumentVersion) (v : DocumentVersion)
    → NumberedFrom n vs
    → v.version ≡ n + length vs + 1
    → NumberedFrom n (vs ++ v ∷ [])
NumberedFrom-append n [] v h e = (omega arith, tt)
NumberedFrom-append n (w ∷ vs) v h e = (h.0, NumberedFrom-append (n + 1) vs v h.1 (omega arith))

-- The repositories that versions are added to, from the empty one on.
pub data Filed : ContentRepository → Type 0 where
  nothing : Filed new_content_repository
  added :
      {r : ContentRepository} (v : DocumentVersion) → Filed r → Filed (add_document_version v r).0

Numbered : ContentRepository → Type 0
Numbered r = Each (λ _ vs. NumberedFrom 0 vs) r.versions

versions_at-NumberedFrom :
    (key : String) (r : ContentRepository)
    → Each (λ _ vs. NumberedFrom 0 vs) r.versions
    → NumberedFrom 0 (versions_at key r.versions)
unfolding versions_at
versions_at-NumberedFrom key r h = elim (Option-cases (lookup key r.versions)) [
  | inl missing ↦ rw (missing, versions_at) tt
  | inr (vs, found) ↦
      rw (found, versions_at) (Each-lookup (λ _ ws. NumberedFrom 0 ws) key r.versions vs h found)
]

Filed-Numbered : {r : ContentRepository} → Filed r → Numbered r
unfolding Numbered new_content_repository add_document_version
Filed-Numbered nothing = tt
Filed-Numbered (added {r} v f) =
    let key = content_key v.tenant_id v.document_id in
    let old = versions_at key r.versions in
    let numbered : DocumentVersion = record v { version = length old + 1 } in
    Each-insert (λ _ vs. NumberedFrom 0 vs) key (old ++ numbered ∷ []) r.versions
      (NumberedFrom-append 0 old numbered (versions_at-NumberedFrom key r (Filed-Numbered f))
        (omega arith))
      (Filed-Numbered f)

-- Whatever versions were added, those of a document are numbered 1, 2, 3 and so on; the next one that
-- is added gets the next number and stands last.
pub add_document_version-numbered :
    (r : ContentRepository) (v : DocumentVersion)
    → Filed r
    → let key = content_key v.tenant_id v.document_id in
      let next : DocumentVersion = record v { version = length (versions_at key r.versions) + 1 } in
      NumberedFrom 0 (versions_at key r.versions)
      × ((add_document_version v r).1 ≡ ok next)
      × (versions_at key (add_document_version v r).0.versions
          ≡ versions_at key r.versions ++ next ∷ [])
unfolding Numbered add_document_version versions_at
add_document_version-numbered r v f =
    let key = content_key v.tenant_id v.document_id in
    (
      versions_at-NumberedFrom key r (Filed-Numbered f),
      refl,
      rw (lookup-insert_self key _ r.versions, versions_at) refl,
    )
