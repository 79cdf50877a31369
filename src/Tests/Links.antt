-- ===== src/Tests/Links.antt =====
-- The theorems on modules/urls at the shop.
use dist_link.Base.{String, ◌≡◌, refl, true, false, none, some, []}
use dist_link.Base.Dict.{get, or_else}
use dist_link.Base.Exec.{ok, err, not_found, bad_request}
use dist_link.SafeBrowsing.{check_url}
use dist_link.Urls.Types.{Cached, one}
use dist_link.Urls.World.{calm}
use dist_link.Urls.Values.{is_expired, url_of_row}
use dist_link.Urls.Records.{remove}
use dist_link.Urls.Service.{find_by_short_code}
use dist_link.Urls.Edit.{create, update}
use dist_link.Urls.Controller
use dist_link.Urls.Controller.{find_one}
use dist_link.Urls.Creation.{
  find-create, create_retries, created, created_row, stocked, stocked_failing,
}
use dist_link.Urls.Lookup.{find-remove}
use dist_link.Urls.Access.{foreign_url_unchanged, uncached_owner_refused}
use dist_link.Urls.Replacement.{update_renames, answer, new_row}
use dist_link.Tests.Shop.{shop, ann_row, stock, open_shop, warm_shop, ann_url, order, rename}

is_safe_here : (url : String) → (check_url shop.safe_browsing url).is_safe ≡ true
unfolding check_url
is_safe_here url = refl

not_cached : (key : String) → get {V = Cached} [] key ≡ none
unfolding get
not_cached key = refl

ann_there : get stock.rows "annslink" ≡ some ann_row
unfolding get
ann_there = refl

ann_cached : get warm_shop.redis "distlink:urls:annslink" ≡ some (one ann_url)
unfolding get
ann_cached = refl

new_code_free : get stock.rows "ann-link" ≡ none
unfolding get
new_code_free = refl

ann_lives : is_expired 100 (some 1000) ≡ false
unfolding is_expired
ann_lives = refl

find-create_example :
    ((create order (some "ann") (stocked "abcdef" [] open_shop)).0
      ≡ ok (created "abcdef" order (some "ann") open_shop))
    × ((find_by_short_code "abcdef" (create order (some "ann") (stocked "abcdef" [] open_shop)).1).0
        ≡ ok (
            one (
              url_of_row "https://l.ink"
                (created_row "abcdef" order (some "ann") open_shop)
                (some (or_else (get stock.counts "abcdef") 0)))))
find-create_example =
    find-create "abcdef" [] order (some "ann") open_shop (is_safe_here "https://example.org/c")
      (not_cached "distlink:urls:abcdef")

find-remove_example :
    ((find_by_short_code "annslink" (remove "annslink" (calm open_shop)).1).0 ≡ err not_found)
    × (get (remove "annslink" (calm open_shop)).1.db.counts "annslink" ≡ none)
find-remove_example = find-remove "annslink" ann_row open_shop ann_there

create_retries_example :
    ((create order none (stocked_failing "aaaaaa" "bbbbbb" [] open_shop)).0
      ≡ ok (created "bbbbbb" order none open_shop))
    × (get (create order none (stocked_failing "aaaaaa" "bbbbbb" [] open_shop)).1.db.rows "bbbbbb"
        ≡ some (created_row "bbbbbb" order none open_shop))
    × (get (create order none (stocked_failing "aaaaaa" "bbbbbb" [] open_shop)).1.db.rows "aaaaaa"
        ≡ get stock.rows "aaaaaa")
create_retries_example =
    create_retries "aaaaaa" "bbbbbb" [] order none open_shop (is_safe_here "https://example.org/c")
      refl

warm_answer : (find_by_short_code "annslink" warm_shop).0 ≡ ok (one ann_url)
unfolding find_by_short_code get
warm_answer = refl

foreign_url_unchanged_example :
    ((Controller.remove "bob" "annslink" warm_shop).0 ≡ err bad_request)
    × ((Controller.remove "bob" "annslink" warm_shop).1.db ≡ stock)
    × ((Controller.update "bob" "annslink" rename warm_shop).0 ≡ err bad_request)
    × ((Controller.update "bob" "annslink" rename warm_shop).1.db ≡ stock)
foreign_url_unchanged_example =
    foreign_url_unchanged "bob" "ann" "annslink" rename (one ann_url) warm_shop warm_answer refl
      refl refl

update_renames_example :
    ((update "annslink" rename (calm warm_shop)).0
      ≡ ok (answer "annslink" rename ann_url warm_shop ann_cached))
    × (get (update "annslink" rename (calm warm_shop)).1.db.rows "ann-link"
        ≡ some (new_row "annslink" rename ann_url warm_shop ann_cached))
    × (get (update "annslink" rename (calm warm_shop)).1.db.rows "annslink" ≡ none)
    × (get (update "annslink" rename (calm warm_shop)).1.db.counts "annslink" ≡ none)
update_renames_example =
    update_renames "annslink" rename ann_url warm_shop ann_cached ann_row refl new_code_free
      ann_there

uncached_owner_refused_example :
    ((Controller.remove "ann" "annslink" (calm open_shop)).0 ≡ err bad_request)
    × ((Controller.remove "ann" "annslink" (calm open_shop)).1.db ≡ stock)
    × ((Controller.update "ann" "annslink" rename (calm open_shop)).0 ≡ err bad_request)
    × ((Controller.update "ann" "annslink" rename (calm open_shop)).1.db ≡ stock)
    × ((Controller.remove "ann" "annslink"
          (Controller.remove "ann" "annslink" (calm open_shop)).1).0
        ≡ ok tt)
    × (get
          (Controller.remove "ann" "annslink"
            (Controller.remove "ann" "annslink" (calm open_shop)).1).1.db.rows
          "annslink"
        ≡ none)
uncached_owner_refused_example =
    uncached_owner_refused "ann" "annslink" rename ann_row open_shop
      (not_cached "distlink:urls:annslink") ann_there ann_lives refl
