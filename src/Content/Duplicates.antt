-- ===== src/Content/Duplicates.antt =====
-- repo/backend/internal/service/content.go: tags and items that differ only in case and spaces. ToLower and
-- TrimSpace are parameters. The groups are visited in the order in which the list meets them, where Go
-- leaves the order open.
use training_ops_scheduling.Base.{
  ℕ, ◌+◌, String, not, none, some, List, [], ◌∷◌, ◌++◌, select, length, ltb,
}
use training_ops_scheduling.Base.Text.{◌+ˢ◌}
use training_ops_scheduling.Base.Table.{Table, lookup, insert}
use training_ops_scheduling.Base.Result.{Result, ok, err}
use training_ops_scheduling.Content.Data.{ContentTag, ContentItem, ContentError}
use training_ops_scheduling.Content.Store.{Error?, ContentStore}

module _ {A : Type 0} (key : A → String) where
  -- `grouped[key] = append(grouped[key], value)`
  add_to_group : A → Table (List A) → Table (List A)
  add_to_group value grouped = elim (lookup (key value) grouped) [
    | none ↦ insert (key value) (value ∷ []) grouped
    | some group ↦ insert (key value) (group ++ value ∷ []) grouped
  ]

  group_from : List A → Table (List A) → Table (List A)
  unfolding add_to_group
  group_from [] grouped = grouped
  group_from (value ∷ rest) grouped = group_from rest (add_to_group value grouped)

  -- The groups of two values or more.
  unfoldable pub duplicate_groups : List A → Table (List A)
  unfolding group_from
  duplicate_groups list = select (λ g. not (ltb (length g.1) 2)) (group_from list [])

module _ (to_lower trim_space : String → String) (store : ContentStore) where
  unfoldable pub normalize_content_key : String → String
  normalize_content_key value = to_lower (trim_space value)

  unfoldable pub find_duplicate_tags :
      String → store.State → Result ContentError (Table (List ContentTag))
  unfolding duplicate_groups normalize_content_key
  find_duplicate_tags tenant_id s = elim (store.list_tags tenant_id s) [
    | err e ↦ err e
    | ok tags ↦ ok (duplicate_groups (λ tag. normalize_content_key tag.name) tags)
  ]

  unfoldable pub find_duplicate_items :
      String → store.State → Result ContentError (Table (List ContentItem))
  unfolding duplicate_groups normalize_content_key
  find_duplicate_items tenant_id s = elim (store.list_content_items tenant_id s) [
    | err e ↦ err e
    | ok items ↦ ok (
        duplicate_groups (λ item. normalize_content_key (item.title +ˢ "|" +ˢ item.category_id))
          items)
  ]

-- The loops of a merge: `drop` deletes a value, and the count goes on until one fails.
module _ {State A : Type 0} (drop : A → State → State × Error?) where
  drop_all : List A → ℕ → State → (State × ℕ) × Error?
  drop_all [] merged s = ((s, merged), none)
  drop_all (value ∷ rest) merged s =
      let (s', failed) = drop value s in
      let next = drop_all rest (merged + 1) s' in
      elim failed [ some e ↦ ((s', merged), some e) | none ↦ next ]

  -- A group keeps its first value.
  drop_group : List A → ℕ → State → (State × ℕ) × Error?
  unfolding drop_all
  drop_group [] merged s = ((s, merged), none)
  drop_group (kept ∷ rest) merged s = drop_all rest merged s

  unfoldable pub drop_groups : Table (List A) → ℕ → State → (State × ℕ) × Error?
  unfolding drop_group
  drop_groups [] merged s = ((s, merged), none)
  drop_groups ((key, group) ∷ groups) merged s =
      let ((s', merged'), failed) = drop_group group merged s in
      let next = drop_groups groups merged' s' in
      elim failed [ some e ↦ ((s', merged'), some e) | none ↦ next ]

module _ (to_lower trim_space : String → String) (store : ContentStore) where
  unfoldable pub merge_duplicate_tags : String → store.State → (store.State × ℕ) × Error?
  unfolding find_duplicate_tags drop_groups
  merge_duplicate_tags tenant_id s =
      elim (find_duplicate_tags to_lower trim_space store tenant_id s) [
        | err e ↦ ((s, 0), some e)
        | ok groups ↦ drop_groups (λ tag. store.delete_tag tenant_id tag.id) groups 0 s
      ]

  unfoldable pub merge_duplicate_items : String → store.State → (store.State × ℕ) × Error?
  unfolding find_duplicate_items drop_groups
  merge_duplicate_items tenant_id s =
      elim (find_duplicate_items to_lower trim_space store tenant_id s) [
        | err e ↦ ((s, 0), some e)
        | ok groups ↦ drop_groups (λ item. store.delete_content_item tenant_id item.id) groups 0 s
      ]
