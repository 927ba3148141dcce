-- ===== src/Telemetry/Config/Tests.antt =====
-- The theorem about the configuration of
-- src/system/telemetry/goldstone/system/telemetry/telemetry.py at a request for one leaf.
use goldstone_mgmt.Base.{◌≡◌, refl, false, none, some, [], ◌∷◌, ok}
use goldstone_mgmt.Base.Dict
use goldstone_mgmt.Telemetry.Path.Tests.{model, one_leaf, valid_leaf}
use goldstone_mgmt.Telemetry.Config.{
  SubscriptionConfig, Request, stream, Subscription, create, items_of, config_updates_only,
  parse_items, target_defined_mode, stream_mode, stream_defaults, map_values, parse_config, fail_if,
  validate_path, validate_paths, validate_stream, validate_streams, validate_config,
}
use goldstone_mgmt.Telemetry.Config.Valid.{IsStreamValid, AllValues, create_stream}

abbrev asked : SubscriptionConfig
asked = record {
  id = 1;
  path = some one_leaf;
  mode = some "TARGET_DEFINED";
  sample_interval = none;
  suppress_redundant = none;
  heartbeat_interval = none;
}

abbrev request : Request
request = record {
  id = some 7;
  config = some (record { mode = some "STREAM"; updates_only = none });
  subscriptions = some (some (record { id = some 1; config = some asked } ∷ []));
}

-- The configuration with the defaults of a StreamSubscription.
abbrev pub chosen : SubscriptionConfig
chosen = record asked {
  mode = some "SAMPLE";
  sample_interval = some 10;
  suppress_redundant = some false;
  heartbeat_interval = some 0;
}

abbrev pub streaming : Subscription
streaming = record {
  kind = stream;
  id = 7;
  request = request;
  update_interval = 5;
  updates_only = false;
  subscriptions = (1, chosen) ∷ [];
}

created : create model stream request 5 ≡ ok streaming
unfolding create items_of config_updates_only parse_items target_defined_mode stream_mode
    stream_defaults map_values parse_config fail_if validate_path validate_paths validate_stream
    validate_streams validate_config Dict.put
created = rw valid_leaf refl

create_stream_example : AllValues (IsStreamValid model 5) ((1, chosen) ∷ [])
create_stream_example = create_stream model request 5 streaming created
