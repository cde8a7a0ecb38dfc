-- ===== src/Publish/Tests.antt =====
-- Publications at concrete services.
use meta_posting.Prelude.{
  ℕ, suc, String, true, false, ◌≡◌, refl, ◌≢◌, none, some, List, [], ◌∷◌, str_eq, if◌then◌else◌,
  arith, ◌==◌, ◌≤◌, max,
}
use Prim.Native.String.{count}
use meta_posting.Json.{null, text, array, nil, cons, end, field, lookup}
use meta_posting.Schema.{AccountStatus, AccountResult, BatchStatus, Batch, ObjectType}
use meta_posting.Publish.{Hierarchy}
use meta_posting.Publish.Model.{
  no_ids, LaunchRequest, Sent, post, set_status, World, answered, refused, Service, create_payload,
  plain_error,
}
use meta_posting.Publish.Launch.{publish_account}
use meta_posting.Publish.Order.{InOrder, publish_account-InOrder}
use meta_posting.Publish.Payloads.{Links, lookup-create_payload}
use meta_posting.Publish.Backend.{Store, Graph, Texts}
use meta_posting.Publish.Marker.{
  tagged_publish_name, has_suffix, publish_name_max_runes, tagged_publish_name-has_suffix,
}
use meta_posting.Publish.Account.{publish_account_result}
use meta_posting.Publish.Durable.{Ends, publish_account_result-Ends}

abbrev spec : Hierarchy
spec = record {
  campaign = record {
    name = "Spring";
    objective = "OUTCOME_TRAFFIC";
    special_ad_categories = [];
    document = field "name" (text "Spring") end;
    raw = field "status" (text "ACTIVE") end;
  };
  ad_set = record {
    name = "Set";
    geo_locations = field "countries" (array (cons (text "BR") nil)) end;
    targeting_raw = end;
    promoted_object = none;
    document = field "name" (text "Set") end;
    raw = field "name" (text "Other") end;
  };
  creative = record {
    name = "Image";
    object_story_id = "1_2";
    source_instagram_media_id = "";
    object_story_spec = none;
    asset_feed_spec = none;
    document = field "name" (text "Image") end;
    raw = end;
  };
  ad = record { name = "Ad"; document = field "name" (text "Ad") end; raw = end };
}

abbrev new_id : ObjectType → String
new_id ObjectType.campaign = "c"
new_id ObjectType.ad_set = "s"
new_id ObjectType.creative = "v"
new_id ObjectType.ad = "a"

-- Meta answers everything, but the third stage is not recorded.
abbrev forgetful : Service ℕ
forgetful = record {
  is_blank = λ s. str_eq s "";
  has_hint = λ s. false;
  post_json = λ kind account payload s. (s, answered (new_id kind));
  post_status = λ id status s. (s, answered true);
  on_stage = λ stage s. (suc s, if s == 2 then some plain_error else none);
  invalid_spec = λ es. plain_error;
}

abbrev request : LaunchRequest
request = record {
  account_id = "7";
  access_token = "token";
  hierarchy = spec;
  validate_only = false;
  leave_paused = false;
  resume = record no_ids { campaign_id = "c0" };
}

abbrev new_world : World ℕ
new_world = record { state = 0; sent = [] }

abbrev kinds_of : List Sent → List String
kinds_of [] = []
kinds_of (post kind account payload ∷ xs) = new_id kind ∷ kinds_of xs
kinds_of (set_status id status ∷ xs) = status ∷ kinds_of xs

stops_at_the_ad :
    kinds_of (publish_account forgetful request new_world).0.sent ≡ "s" ∷ "v" ∷ "a" ∷ []
unfolding publish_account
stops_at_the_ad = refl

publish_account-InOrder_example :
    InOrder forgetful request new_world (publish_account forgetful request new_world)
publish_account-InOrder_example = publish_account-InOrder forgetful request new_world refl

lookup-create_payload_example :
    (ObjectType.campaign ≢ ObjectType.creative
      → lookup "status" (create_payload ObjectType.campaign spec no_ids) ≡ some (text "PAUSED"))
    × (lookup "name" (create_payload ObjectType.campaign spec no_ids) ≡ some (text "Spring"))
    × Links ObjectType.campaign no_ids (create_payload ObjectType.campaign spec no_ids)
lookup-create_payload_example = lookup-create_payload ObjectType.campaign spec no_ids

abbrev row : AccountResult
row = record {
  id = 5;
  created_at = 1;
  updated_at = 1;
  batch_id = 3;
  ad_account_id = 2;
  status = AccountStatus.pending;
  attempts = 0;
  request_json = "plan";
  response_json = "";
  error_code = "";
  error_subcode = "";
  error_message = "";
  started_at = none;
  completed_at = none;
}

abbrev batch : Batch
batch = record {
  id = 3;
  created_at = 1;
  updated_at = 1;
  connection_id = 9;
  name = "b";
  status = BatchStatus.queued;
  idempotency_key = "k";
  specification = "";
  total_accounts = 1;
  succeeded_accounts = 0;
  failed_accounts = 0;
  started_at = none;
  completed_at = none;
  created_by = "";
}

-- A database that loses the success of the result.
abbrev failing_store : Store ℕ
failing_store = record {
  get_account_result = λ id s. answered row;
  get_batch = λ id s. answered batch;
  get_ad_account = λ id s.
      answered
        (record { id = 2; connection_id = 9; account_id = "7"; meta_ad_account_id = "act_7" });
  list_result_published_objects = λ id s. answered [];
  mark_account_running = λ id now s. (s, none);
  checkpoint_published_object = λ o s. (s, answered o);
  update_published_status = λ id status response now s. (s, none);
  record_account_retry = λ id c rows now s. (s, none);
  finish_account_result = λ id c rows now s. (s, some plain_error);
  mark_connection_expired = λ id g s. (s, none);
  access_token = λ id s. (s, answered "token");
  audit = λ e s. s;
}

abbrev plain_graph : Graph ℕ
plain_graph = record {
  post_json = λ kind account payload s. (s, answered (new_id kind));
  post_status = λ id status s. (s, answered true);
  collect_objects = λ kind account s. (s, answered []);
  upload_media = λ account id s. (s, answered "ref");
}

abbrev plain_texts : Texts
plain_texts = record {
  trim_space = λ s. s;
  split = λ s. s ∷ [];
  replace_all = λ s old new. s;
  atoi = λ s. none;
  itoa = λ n. "";
  uuid = λ n. "u";
  has_hint = λ s. false;
  error_text = λ e. "error";
  invalid_spec = λ es. plain_error;
  decode_plan = λ s. answered (record {
    hierarchy = spec;
    media_bindings = [];
    validate_only = false;
    leave_paused = false;
  });
  plan_json = λ p. "";
  outcome_json = λ r. "";
  stage_json = λ s. "";
  reconciled_json = λ r s. "";
  encode_hierarchy = λ h. null;
  decode_hierarchy = λ v. refused plain_error;
}

paused_at_last :
    kinds_of (publish_account_result failing_store plain_graph plain_texts 10 5 new_world).0.sent
    ≡ "c" ∷ "s" ∷ "v" ∷ "a" ∷ "ACTIVE" ∷ "ACTIVE" ∷ "ACTIVE" ∷ "PAUSED" ∷ []
unfolding publish_account_result
paused_at_last = refl

publish_account_result-Ends_example :
    Ends failing_store plain_graph plain_texts 10 5 refl new_world
      (publish_account_result failing_store plain_graph plain_texts 10 5 new_world)
publish_account_result-Ends_example =
    publish_account_result-Ends failing_store plain_graph plain_texts 10 5 refl new_world

tagged_publish_name-has_suffix_example :
    (has_suffix (tagged_publish_name (λ s. s) "Spring" " [RP:5]") " [RP:5]" ≡ true)
    × (has_suffix "Spring" " [RP:5]" ≡ false
        → count (tagged_publish_name (λ s. s) "Spring" " [RP:5]")
          ≤ max publish_name_max_runes (count " [RP:5]"))
tagged_publish_name-has_suffix_example =
    tagged_publish_name-has_suffix (λ s. s) (λ s. omega arith) "Spring" " [RP:5]"
