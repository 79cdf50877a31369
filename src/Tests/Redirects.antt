-- ===== src/Tests/Redirects.antt =====
-- The theorems on redirects and on the messages between the parts, at the shop.
use dist_link.Base.{
  String, true, ◌+◌, ◌<◌, ◌≡◌, refl, none, some, List, [], ◌∷◌, ◌++◌, length, arith,
}
use dist_link.Base.Dict.{get}
use dist_link.Base.Exec.{ok}
use dist_link.Urls.Types.{one}
use dist_link.Urls.Service.{find_by_short_code}
use dist_link.Clicks.Counting.{counter, calm, clicks_of}
use dist_link.Clicks.Processor.{flush_click_buffer, batch_size}
use dist_link.Clicks.Recording.{Recorded, record_click}
use dist_link.Clicks.Rounds.{stock}
use dist_link.Clicks.Service.{constructed, on_module_destroy}
use dist_link.Kafka.Counting.{clicks_in, consumed_counted}
use dist_link.Kafka.{
  Broker, Message, Consumer, url_clicks, url_analytics, other, message_of, each_message, consume,
}
use dist_link.Kafka.Delivery.{consume_safe}
use dist_link.Redirect.{Request, Site, single, client_address, agent_of, click_metadata, redirect}
use dist_link.Redirect.Outcomes.{redirect_is_counted, click_event}
use dist_link.Tests.Stores.{tables}
use dist_link.Tests.Shop.{shop, warm_shop, ann_url}
use dist_link.Tests.Statistics.{click_tables, no_clicks}

abbrev visit : Request
visit = record {
  x_forwarded_for = some (single " 1.1.1.1 ,10.0.0.1");
  cf_connecting_ip = none;
  true_client_ip = none;
  x_real_ip = none;
  ip = some "10.0.0.1";
  user_agent = some "curl";
}

address_test : client_address visit ≡ "1.1.1.1"
unfolding client_address
address_test = refl

abbrev quiet_broker : Broker
quiet_broker = record { connected = true; now = 1728000005000; sent = []; errors = []; faults = [] }

abbrev site : Site shop click_tables
site = record { urls = warm_shop; clicks = no_clicks; broker = quiet_broker }

abbrev click_id : Recorded
click_id = record { click_id = "id-a"; timestamp = 1728000005000 }

url_found : (find_by_short_code "annslink" site.urls).0 ≡ ok (one ann_url)
unfolding find_by_short_code get
url_found = refl

click_kept :
    (record_click "annslink" (client_address visit) (agent_of visit) site.clicks).0 ≡ ok click_id
unfolding record_click
click_kept = refl

abbrev consumer : Consumer tables
consumer = record {
  processor = record {
    db = record { rows = []; counts = [] };
    saved_analytics = [];
    click_buffer = [];
    analytics_buffer = [];
    dead_letters = [];
    reported = [];
    faults = [];
  };
  broker = quiet_broker;
}

room_here : length consumer.processor.click_buffer + 1 < batch_size
room_here = omega arith

redirect_is_counted_example :
    (m : Message) × ((redirect "annslink" visit site).1.broker.sent ≡ [] ++ m ∷ [])
    × ((each_message m consumer).1.processor.click_buffer
        ≡ [] ++ click_event "annslink" visit site ∷ [])
    × ((flush_click_buffer (calm (each_message m consumer).1.processor)).0 ≡ ok tt)
    × (counter (flush_click_buffer (calm (each_message m consumer).1.processor)).1 "annslink"
        ≡ counter consumer.processor "annslink" + 0 + 1)
redirect_is_counted_example =
    redirect_is_counted "annslink" visit site (one ann_url) click_id consumer url_found click_kept
      refl refl room_here

abbrev mail : List Message
mail =
    message_of url_clicks "annslink" (click_metadata "1.1.1.1" "curl") 1728000005000
    ∷ record { topic = url_clicks; key = "oldlinks"; value = none }
    ∷ message_of url_analytics "annslink" (click_metadata "1.1.1.1" "curl") 1728000005000
    ∷ message_of other "annslink" (click_metadata "1.1.1.1" "curl") 1728000005000
    ∷ []

few_clicks : length consumer.processor.click_buffer < batch_size
few_clicks = omega arith

-- The message that cannot be read is reported, and the click before it is kept.
mail_test :
    (length (consume mail consumer).1.processor.click_buffer ≡ 1)
    × (length (consume mail consumer).1.broker.errors ≡ 1)
unfolding consume
mail_test = (refl, refl)

consume_safe_example :
    ((consume mail consumer).0 ≡ ok tt)
    × (length (consume mail consumer).1.processor.click_buffer < batch_size)
consume_safe_example = consume_safe mail consumer few_clicks

consumed_counted_example :
    ((on_module_destroy (constructed (consume mail consumer).1.processor)).0 ≡ ok tt)
    × ((on_module_destroy
          (constructed (consume mail consumer).1.processor)).1.processor.click_buffer
        ≡ [])
    × ((code : String)
        → counter
            (on_module_destroy (constructed (consume mail consumer).1.processor)).1.processor
            code
          ≡ stock consumer.processor code + clicks_of code (clicks_in mail))
consumed_counted_example =
    consumed_counted mail consumer (record { calm = refl; bounded = few_clicks })
