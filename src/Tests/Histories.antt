-- ===== src/Tests/Histories.antt =====
-- The theorems on histories of the URL service at the shop.
use dist_link.Base.{String, ◌≡◌, ◌⊎◌, refl, none, some, []}
use dist_link.Base.Dict.{get, put, remove}
use dist_link.Base.Exec.{ok}
use dist_link.Urls.Types.{UrlRow, Cached, one}
use dist_link.Urls.World.{World, calm}
use dist_link.Urls.Service.{find_by_short_code}
use dist_link.Urls.Edit.{create, update}
use dist_link.Urls.Creation.{stocked}
use dist_link.Urls.Effects.{IsTidy}
use dist_link.Urls.History.{
  Step, creates, looks_up, updates, Reach, here, next, Reach-IsTidy, lookup_refines,
}
use dist_link.Tests.Shop.{shop, open_shop, ann_url, ann_row, order, rename}

nothing_cached : (key : String) → get {V = Cached} [] key ≡ none
unfolding get
nothing_cached key = refl

abbrev created_shop : World shop
created_shop = (create order (some "bob") (stocked "abcdef" [] open_shop)).1

abbrev looked_up_shop : World shop
looked_up_shop = (find_by_short_code "annslink" (calm created_shop)).1

abbrev renamed_shop : World shop
renamed_shop = (update "annslink" rename (calm looked_up_shop)).1

free_here : get open_shop.db.rows "abcdef" ≡ none
unfolding get
free_here = refl

beginning : Reach open_shop looked_up_shop
beginning =
    next (next here (creates "abcdef" [] order (some "bob") free_here refl))
      (looks_up "annslink" refl)

renaming : Step looked_up_shop renamed_shop
renaming = updates "annslink" rename refl

-- The update has moved the row.
renamed_test : get renamed_shop.db.rows "annslink" ≡ none
unfolding create find_by_short_code update get put remove
renamed_test = refl

moved_test :
    get renamed_shop.db.rows "ann-link"
    ≡ some (record ann_row { short_code = "ann-link"; created_at = 10; expires_at = some 86400100 })
unfolding create find_by_short_code update get put remove
moved_test = refl

Reach-IsTidy_example : IsTidy renamed_shop
Reach-IsTidy_example = Reach-IsTidy nothing_cached (next beginning renaming)

answer_here : (find_by_short_code "annslink" (calm looked_up_shop)).0 ≡ ok (one ann_url)
unfolding create find_by_short_code get put remove
answer_here = refl

lookup_refines_example :
    (row : UrlRow) × (get looked_up_shop.db.rows "annslink" ≡ some row)
    × (ann_url.original_url ≡ row.original_url)
    × (ann_url.user_id ≡ row.user_id)
    × ((get renamed_shop.db.rows "annslink" ≡ some row)
        ⊎ (get renamed_shop.db.rows "annslink" ≡ none))
lookup_refines_example =
    lookup_refines renamed_shop "annslink" ann_url nothing_cached beginning renaming answer_here
