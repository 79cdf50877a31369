-- ===== src/Tests/Gates.antt =====
-- The theorems on requests to `UrlsController`, from one address.
use dist_link.Base.{ℕ, zero, suc, ◌≡◌, refl, none, List, [], ◌∷◌, All, arith, length, inr, ◌≤◌}
use dist_link.Base.Exec.{err, throttled}
use dist_link.RateLimit.{rate_limit}
use dist_link.Urls.Gateway.{
  Gateway, UrlRequest, get_urls, post_url, delete_url, limit_of, route_path, handle_url,
}
use dist_link.Urls.Gates.{IsUntouched, handle_urls, turned_away, path_shares_limit}
use dist_link.Tests.Stores.{ticks}
use dist_link.Tests.People.{office, morning}
use dist_link.Tests.Requests.{passport, forged_is_invalid}
use dist_link.Tests.Shop.{shop, open_shop, order}

abbrev front : Gateway ticks office shop
front = record { limits = λ key. (0, none); accounts = morning; urls = open_shop }

turned_away_example :
    IsUntouched passport front
      (handle_url passport "1.2.3.4" (delete_url "annslink" "forged") front)
turned_away_example =
    turned_away passport "1.2.3.4" (delete_url "annslink" "forged") front
      (inr ("forged", refl, forged_is_invalid))

abbrev repeat : ℕ → UrlRequest → List UrlRequest
repeat zero r = []
repeat (suc n) r = r ∷ repeat n r

-- Ten reads of the list, and then the first creation.
abbrev reads : List UrlRequest
reads = repeat 10 get_urls

one_path : All (λ q. route_path q ≡ route_path (post_url order "")) reads
unfolding route_path
one_path = (refl, (refl, (refl, (refl, (refl, (refl, (refl, (refl, (refl, (refl, tt))))))))))

enough : (limit_of (post_url order "")).limit ≤ length reads
unfolding limit_of rate_limit
enough = omega arith

path_shares_limit_example :
    ((handle_url passport "1.2.3.4"
        (post_url order "")
        (handle_urls passport "1.2.3.4" reads front)).0
      ≡ err throttled)
    × IsUntouched passport (handle_urls passport "1.2.3.4" reads front) (
        handle_url passport "1.2.3.4"
          (post_url order "")
          (handle_urls passport "1.2.3.4" reads front))
path_shares_limit_example =
    path_shares_limit passport "1.2.3.4" (post_url order "") reads front one_path enough
