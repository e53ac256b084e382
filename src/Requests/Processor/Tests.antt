-- ===== src/Requests/Processor/Tests.antt =====
-- Keys 1 and 2 are allowed; setting 1 sets 2 as well.
use pyroute.Prelude.{ℕ, ◌≡◌, refl, ◌+◌, ◌==◌, ==_iff, if◌then◌else◌, none, some, [], ◌∷◌}
use pyroute.Requests.Processor.{
  Filter, RequestProcessor, lookup, set_item, filter, run_filters, apply_items, apply_item, set_by,
  update, assign, next, filtered, member, chain_map, store_all, delete,
}
use pyroute.Requests.Processor.{get_value, items, find_getter}
use pyroute.Requests.Processor.Reads.{items-get_value}
use pyroute.Requests.Processor.Lookup.{lookup-set_item, last_of}

abbrev both : Filter ℕ ℕ
both = record {
  key_transform = none;
  allowed = some (1 ∷ 2 ∷ []);
  policy = none;
  setter = λ k. if k == 1 then some (λ seen v. (1, v) ∷ (2, v + 1) ∷ []) else none;
  getter = λ k. none;
}

abbrev processor : RequestProcessor ℕ ℕ
processor = record {
  data' = (2, 9) ∷ (5, 7) ∷ [];
  field_filters = both ∷ [];
  mark = [];
  context = λ k. none;
}

lookup-set : lookup ◌==◌ 2 (set_item ◌==◌ processor 1 (some 3)).data' ≡ some 4
unfolding lookup set_item filter run_filters apply_items apply_item set_by update assign next
    filtered member chain_map store_all delete
lookup-set = refl

lookup-refused : lookup ◌==◌ 5 (set_item ◌==◌ processor 5 (some 3)).data' ≡ none
unfolding lookup set_item filter run_filters apply_items apply_item set_by update assign next
    filtered member chain_map store_all delete
lookup-refused = refl

lookup-set_item_example : lookup ◌==◌ 2 (set_item ◌==◌ processor 1 (some 3)).data' ≡ some 4
unfolding last_of lookup filter run_filters apply_items apply_item set_by update assign next
    filtered member chain_map
lookup-set_item_example = lookup-set_item ◌==◌ ==_iff processor 1 2 3

items-get_value_example :
    (get_value ◌==◌ processor 5 none).1 ≡ some 7
    × ((n : ℕ)
        → lookup ◌==◌ n (items ◌==◌ (get_value ◌==◌ processor 5 none).0)
          ≡ (if 5 == n then none else lookup ◌==◌ n (items ◌==◌ processor)))
unfolding find_getter lookup
items-get_value_example = items-get_value ◌==◌ ==_iff processor 5 7 refl refl none
